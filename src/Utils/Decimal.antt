-- ===== src/Utils/Decimal.antt =====
-- Decimal numbers of src/utils.c: `atoi` reads back what `itoa` writes.
use ro_dos.Utils.Strings.{strlen}
use ro_dos.Utils.Reversal.{reversed-append, strrev-reversed, reversed}
use mathlib.Core.List.{append-nil, append_assoc}
use native.Mathlib.Nat.{pow-suc}
use ro_dos.Prelude.Int.{ltb_ℤ, negsuc, pos, ℤ}
use ro_dos.Text.{peek}
use ro_dos.Prelude.{
  drop, some, ◌*◌, false, if◌then◌else◌, true, ◌+◌, sym, refl, ◌∙◌, ◌%◌, ◌-◌, ap, length, ◌^◌, ◌≡◌,
  ◌<◌, ◌++◌, ℕ, zero, suc, ◌/◌, ◌≤◌, inl, inr, List, [], ◌∷◌, arith, ◌==◌, Bool-cases,
}
use ro_dos.Utils.Convert.{
  low_digits_below, itoa, strrev, isspace, isdigit, digit_char, int32, atoi_digits, skip_space,
  atoi, low_digits,
}

-- A text that is all digits or a sign: no byte of it is 0.
abbrev AllDigits : List ℕ → Type 0
AllDigits [] = Unit {0}
AllDigits (c ∷ l) = (b'0' ≤ c) × (c ≤ b'9') × AllDigits l

low_digits-AllDigits : (n v : ℕ) → AllDigits (low_digits n 10 v)
unfolding low_digits
low_digits-AllDigits zero v = tt
low_digits-AllDigits (suc n) v = elim (Bool-cases (v == 0)) [
  | inl e ↦ rw e tt
  | inr e ↦ rw e (ground arith, ground arith, low_digits-AllDigits n (v / 10))
]

strlen-digits : (l : List ℕ) → AllDigits l → strlen l ≡ length l
unfolding strlen
strlen-digits [] v = refl
strlen-digits (c ∷ l) v = ground (arith, v.0, strlen-digits l v.2)

strlen-signed : (l : List ℕ) → AllDigits l → strlen (l ++ (b'-' ∷ [])) ≡ length (l ++ (b'-' ∷ []))
unfolding strlen
strlen-signed [] v = refl
strlen-signed (c ∷ l) v = ground (arith, v.0, strlen-signed l v.2)

AllDigits-append : (xs ys : List ℕ) → AllDigits xs → AllDigits ys → AllDigits (xs ++ ys)
AllDigits-append [] ys v w = w
AllDigits-append (x ∷ xs) ys v w = (v.0, v.1, AllDigits-append xs ys v.2 w)

reversed-AllDigits : (l : List ℕ) → AllDigits l → AllDigits (reversed l)
reversed-AllDigits [] v = tt
reversed-AllDigits (c ∷ l) v =
    AllDigits-append (reversed l) (c ∷ []) (reversed-AllDigits l v.2) (v.0, v.1, tt)

-- The digits of a number lead to the number.
digits_lem :
    (n v : ℕ) (rest : List ℕ)
    → v < 10 ^ n
    → v < 2 ^ 32
    → atoi_digits 0 (reversed (low_digits n 10 v) ++ rest) ≡ atoi_digits v rest
unfolding low_digits atoi_digits
digits_lem zero v rest h w = let e : 0 ≡ v = omega arith in ap (λ k. atoi_digits k rest) e
digits_lem (suc n) v rest h w = elim (Bool-cases (v == 0)) [
  | inl e ↦ (let z : 0 ≡ v = ground arith in rw e (ap (λ k. atoi_digits k rest) z))
  | inr e ↦ rw e (
      ap (atoi_digits 0)
        (append_assoc (reversed (low_digits n 10 (v / 10))) (digit_char (v % 10) ∷ []) rest)
      ∙ digits_lem n (v / 10) (digit_char (v % 10) ∷ rest) (omega (arith, pow-suc 10 n))
          (omega arith)
      ∙ digit_step v rest w)
]
  where
    digit_step :
        (v : ℕ) (rest : List ℕ)
        → v < 2 ^ 32
        → atoi_digits (v / 10) (digit_char (v % 10) ∷ rest) ≡ atoi_digits v rest
    digit_step v rest w =
        let digit : isdigit (digit_char (v % 10)) ≡ true = ground arith in
        let value : (v / 10 * 10 + (digit_char (v % 10) - b'0')) % 2 ^ 32 ≡ v = ground arith in
        rw (digit, atoi_digits) (ap (λ k. atoi_digits k rest) value)

-- `atoi` behind the spaces.
abbrev behind_space : List ℕ → ℤ
behind_space s =
    if peek s == b'-'
    then int32 ((2 ^ 32 - atoi_digits 0 (drop 1 s)) % 2 ^ 32)
    else if peek s == b'+'
    then int32 (atoi_digits 0 (drop 1 s))
    else int32 (atoi_digits 0 s)

-- A text of digits has no space and no sign in front.
unsigned_lem : (l : List ℕ) → AllDigits l → atoi l ≡ int32 (atoi_digits 0 l)
unfolding atoi skip_space
unsigned_lem [] v = refl
unsigned_lem (c ∷ l) v =
    let space : isspace c ≡ false = ground (arith, v.0, v.1) in
    let minus : (c == b'-') ≡ false = ground (arith, v.0) in
    let plus : (c == b'+') ≡ false = ground (arith, v.0) in
    ap behind_space (skip_lem space) ∙ rw (minus, plus) refl
  where
    skip_lem : isspace c ≡ false → skip_space (c ∷ l) ≡ c ∷ l
    skip_lem e = rw (e, skip_space) refl

signed_lem : (l : List ℕ) → atoi (b'-' ∷ l) ≡ int32 ((2 ^ 32 - atoi_digits 0 l) % 2 ^ 32)
unfolding atoi skip_space
signed_lem l = refl

-- The digits in the order that they are written.
abbrev written : ℕ → List ℕ
written v = reversed (low_digits 32 10 v)

value_lem : (v : ℕ) → v < 2 ^ 32 → atoi_digits 0 (written v) ≡ v
unfolding atoi_digits
value_lem v w =
    ap (atoi_digits 0) (sym (append-nil (written v))) ∙ digits_lem 32 v [] (omega arith) w

above_lem : (v : ℕ) → v < 2 ^ 31 → atoi (written v) ≡ pos v
above_lem v h =
    unsigned_lem (written v) (reversed-AllDigits (low_digits 32 10 v) (low_digits-AllDigits 32 v))
    ∙ ap int32 (value_lem v (omega arith))
    ∙ ground arith

below_lem : (k : ℕ) → k < 2 ^ 31 - 1 → atoi (b'-' ∷ written (k + 1)) ≡ negsuc k
below_lem k h =
    signed_lem (written (k + 1))
    ∙ ap (λ r. int32 ((2 ^ 32 - r) % 2 ^ 32)) (value_lem (k + 1) (omega arith))
    ∙ ground arith

strrev_lem : (l : List ℕ) → strlen l ≡ length l → strrev l ≡ reversed l
strrev_lem l e = (strrev-reversed l [] [] e).0

zero_lem : atoi (b'0' ∷ []) ≡ pos 0
unfolding atoi skip_space atoi_digits
zero_lem = refl

itoa_zero : itoa (pos 0) 10 ≡ some (b'0' ∷ [])
unfolding itoa
itoa_zero = refl

itoa_above : (v : ℕ) → (v == 0) ≡ false → itoa (pos v) 10 ≡ some (strrev (low_digits 32 10 v))
unfolding itoa
itoa_above v e = ap (λ b. if b then some (b'0' ∷ []) else some (strrev (low_digits 32 10 v))) e

itoa_below :
    (k : ℕ)
    → (k == 2 ^ 31 - 1) ≡ false
    → itoa (negsuc k) 10 ≡ some (strrev (low_digits 32 10 (k + 1) ++ (b'-' ∷ [])))
unfolding itoa
itoa_below k e =
    ap
      (λ b. some (
        strrev (
          (if b then low_digits_below 32 10 (k + 1) else low_digits 32 10 (k + 1)) ++ (b'-' ∷ []))))
      e

turned : (l : List ℕ) → reversed (l ++ (b'-' ∷ [])) ≡ b'-' ∷ reversed l
turned l = reversed-append l (b'-' ∷ [])

-- `itoa` writes every int32_t but -2 ^ 31 in base 10, and `atoi` reads it back.
pub atoi-itoa :
    (z : ℤ)
    → ltb_ℤ (negsuc (2 ^ 31 - 1)) z ≡ true
    → ltb_ℤ z (pos (2 ^ 31)) ≡ true
    → (s : List ℕ) × (itoa z 10 ≡ some s) × (atoi s ≡ z)
atoi-itoa (pos zero) low high = (b'0' ∷ [], itoa_zero, zero_lem)
atoi-itoa (pos (suc n)) low high =
    let digits = low_digits 32 10 (suc n) in
    (
      written (suc n),
      itoa_above (suc n) (ground arith)
          ∙ ap some (strrev_lem digits (strlen-digits digits (low_digits-AllDigits 32 (suc n)))),
      above_lem (suc n) (ground arith),
    )
atoi-itoa (negsuc k) low high =
    let digits = low_digits 32 10 (k + 1) in
    (
      b'-' ∷ written (k + 1),
      itoa_below k (ground arith)
          ∙ ap some (
              strrev_lem (digits ++ (b'-' ∷ []))
                (strlen-signed digits (low_digits-AllDigits 32 (k + 1)))
              ∙ turned digits),
      below_lem k (ground arith),
    )
