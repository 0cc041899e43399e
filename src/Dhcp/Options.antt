-- ===== src/Dhcp/Options.antt =====
-- The options of a packet of src/dhcp_client.c: the loop over them ends, and it reads what
-- `dhcp_add_option` writes.
use native.Mathlib.Decide.{dec_lt}
use ro_dos.Bytes.{read_le32}
use mathlib.Core.List.{append_assoc}
use ro_dos.Prelude.{
  ℕ, zero, suc, ◌+◌, ◌-◌, ◌/◌, ◌%◌, ◌^◌, ◌≤◌, ◌<◌, ◌≡◌, refl, sym, ap, ◌∙◌, ◌≢◌, ◌⊎◌, inl, inr,
  Bool, true, false, not, ◌&&◌, some, List, [], ◌∷◌, ◌++◌, arith, ltb, ◌==◌, if◌then◌else◌,
  Bool-cases, length, get_or, length-append,
}
use ro_dos.Dhcp.{dhcp_add_option, walk_options, take_option, Found, nothing_found, fold_sum}
use ro_dos.Bytes.Loads.{get_or-front, get_or-behind, get_or-append}

abbrev goes_on : List ℕ → ℕ → Bool
goes_on options i = ltb i 312 && not (get_or options i 0 == 255)

walk-some :
    (n : ℕ) (options : List ℕ) (i : ℕ) (f : Found)
    → 0 < n
    → 312 < n + i
    → (r : Found) × (walk_options n options i f ≡ some r)
unfolding walk_options
walk-some zero options i f p h = absurd (omega arith)
walk-some (suc n) options i f p h = elim (Bool-cases (goes_on options i)) [
  | inl e ↦
      (let l : i < 312 = ground arith in
        (elim (Bool-cases (get_or options i 0 == 0)) [
          | inl padding ↦
              rw (e, padding) (walk-some n options (i + 1) f (omega arith) (omega arith))
          | inr other ↦
              rw (e, other)
                (walk-some n options (i + 2 + get_or options (i + 1) 0)
                  (take_option (get_or options i 0) options (i + 2) f) (omega arith) (omega arith))
        ]))
  | inr e ↦ rw e (f, refl)
]

-- The loop over the options ends: whatever bytes a packet has, 313 rounds are enough for it.
pub walk_options-ends :
    (options : List ℕ) → (r : Found) × (walk_options 313 options 0 nothing_found ≡ some r)
walk_options-ends options = walk-some 313 options 0 nothing_found (omega arith) (omega arith)

pub fold_small : (n sum : ℕ) → sum < 2 ^ 16 → fold_sum n sum ≡ some sum
unfolding fold_sum
fold_small zero sum h = ground arith
fold_small (suc n) sum h = ground arith

pub fold_step :
    (n sum : ℕ) → 2 ^ 16 ≤ sum → fold_sum (suc n) sum ≡ fold_sum n (sum % 2 ^ 16 + sum / 2 ^ 16)
unfolding fold_sum
fold_step n sum h = ground arith

fold_middle :
    (n sum : ℕ) → sum < 2 ^ 17 - 1 → (r : ℕ) × (fold_sum (suc n) sum ≡ some r) × (r < 2 ^ 16)
fold_middle n sum h = elim (dec_lt sum (2 ^ 16)) [
  | yes l ↦ (sum, fold_small (suc n) sum l, l)
  | no l ↦ (
    sum % 2 ^ 16 + sum / 2 ^ 16,
    fold_step n sum (omega (arith, l)) ∙ fold_small n _ (omega (arith, l)),
    omega (arith, l),
  )
]

-- The loop that folds the sum of the IP header ends: two rounds fold every uint32_t to 16 bits.
pub fold_sum-ends : (sum : ℕ) → sum < 2 ^ 32 → (r : ℕ) × (fold_sum 2 sum ≡ some r) × (r < 2 ^ 16)
fold_sum-ends sum h = elim (dec_lt sum (2 ^ 16)) [
  | yes l ↦ (sum, fold_small 2 sum l, l)
  | no l ↦
      (let (r, e, b) = fold_middle 0 (sum % 2 ^ 16 + sum / 2 ^ 16) (omega arith) in
        (r, fold_step 1 sum (omega (arith, l)) ∙ e, b))
]

-- An option: its code and its data.
pub record Opt : Type 0 where
  pub code : ℕ
  pub bytes : List ℕ

-- The options one after the other, as they stand in a packet.
abbrev pub encode : List Opt → List ℕ
encode [] = []
encode (o ∷ os) = o.code ∷ length o.bytes ∷ (o.bytes ++ encode os)

-- Adds the options from an offset on.
unfoldable pub add_all : List ℕ → ℕ → List Opt → List ℕ × ℕ
unfolding dhcp_add_option
add_all options offset [] = (options, offset)
add_all options offset (o ∷ os) =
    let r = dhcp_add_option options offset o.code o.bytes in add_all r.0 r.1 os

-- The effect of the options on what is found, each with its data as far as it is read.
abbrev pub settle : List Opt → Found → Found
settle [] f = f
settle (o ∷ os) f = settle os (take_option o.code o.bytes 0 f)

-- An option that the code can read: a code that is no padding and no end, a length in a byte, and as
-- many bytes as the code reads of it.
pub record IsOpt (o : Opt) : Type 0 where
  pub no_padding : o.code ≢ 0
  pub no_end : o.code ≢ 255
  pub fits : length o.bytes < 256
  pub whole : 4 ≤ length o.bytes ⊎ ((o.code ≡ 53) × (1 ≤ length o.bytes))

abbrev pub AllOpts : List Opt → Type 0
AllOpts [] = Unit {0}
AllOpts (o ∷ os) = IsOpt o × AllOpts os

-- The switch, with what it may load.
abbrev effect : ℕ → ℕ → ℕ → Found → Found
effect code byte word f =
    if code == 53
    then record f { msg_type = byte }
    else if code == 54
    then record f { server_id = some word }
    else if code == 1
    then record f { subnet = word }
    else if code == 3
    then record f { router = word }
    else if code == 6
    then record f { dns = word }
    else f

-- What an option sets depends on the bytes that are read of it.
take_option-same :
    (code : ℕ) (p q : List ℕ) (i j : ℕ) (f : Found)
    → get_or p i 0 ≡ get_or q j 0
    → (code ≡ 53 ⊎ (read_le32 p i ≡ read_le32 q j))
    → take_option code p i f ≡ take_option code q j f
unfolding take_option
take_option-same code p q i j f e (inl k) = rw (k, e) refl
take_option-same code p q i j f e (inr w) =
    ap (λ b. effect code b (read_le32 p i) f) e ∙ ap (λ v. effect code (get_or q j 0) v f) w

-- An option in a packet.
option_lem :
    (o : Opt) (pre post : List ℕ) (f : Found)
    → IsOpt o
    → take_option o.code (pre ++ (o.bytes ++ post)) (length pre) f ≡ take_option o.code o.bytes 0 f
option_lem o pre post f v =
    take_option-same o.code (pre ++ (o.bytes ++ post)) o.bytes (length pre) 0 f
      (at 0 (length pre) (omega arith) some_byte)
      (elim v.whole [ inl four ↦ inr (word four) | inr one ↦ inl one.0 ])
  where
    at :
        (k i : ℕ)
        → i ≡ length pre + k
        → k < length o.bytes
        → get_or (pre ++ (o.bytes ++ post)) i 0 ≡ get_or o.bytes k 0
    at k i e h = get_or-behind pre (o.bytes ++ post) i k 0 e ∙ get_or-front o.bytes post k 0 h

    some_byte : 0 < length o.bytes
    some_byte = elim v.whole [ inl four ↦ omega (arith, four) | inr one ↦ one.1 ]

    word :
        4 ≤ length o.bytes → read_le32 (pre ++ (o.bytes ++ post)) (length pre) ≡ read_le32 o.bytes 0
    word four =
        rw
          (
            at 0 (length pre) (omega arith) (omega (arith, four)),
            at 1 (length pre + 1) refl (omega (arith, four)),
            at 2 (length pre + 2) refl (omega (arith, four)),
            at 3 (length pre + 3) refl (omega (arith, four)),
          )
          refl

-- One round of the loop at an option.
walk_option :
    (n : ℕ) (o : Opt) (pre rest : List ℕ) (f : Found)
    → IsOpt o
    → length pre < 312
    → walk_options (suc n) (pre ++ (o.code ∷ length o.bytes ∷ (o.bytes ++ rest))) (length pre) f
      ≡ walk_options n
          (pre ++ (o.code ∷ length o.bytes ∷ (o.bytes ++ rest)))
          (length pre + 2 + length o.bytes)
          (take_option o.code o.bytes 0 f)
unfolding walk_options
walk_option n o pre rest f v h =
    let tail = o.code ∷ length o.bytes ∷ (o.bytes ++ rest) in
    let code_at = get_or-behind pre tail (length pre) 0 0 (omega arith) in
    let length_at = get_or-append pre tail 1 0 in
    let front = pre ++ (o.code ∷ length o.bytes ∷ []) in
    let room : ltb (length pre) 312 ≡ true = ground arith in
    let no_mark : (o.code == 255) ≡ false = ground (arith, v.no_end) in
    let padding : (o.code == 0) ≡ false = ground (arith, v.no_padding) in
    let joined : front ++ (o.bytes ++ rest) ≡ pre ++ tail =
      append_assoc pre (o.code ∷ length o.bytes ∷ []) (o.bytes ++ rest) in
    let place : length front ≡ length pre + 2 = length-append pre (o.code ∷ length o.bytes ∷ []) in
    let taken =
      ap (λ l. take_option o.code l (length pre + 2) f) (sym joined)
      ∙ ap (λ k. take_option o.code (front ++ (o.bytes ++ rest)) k f) (sym place)
      ∙ option_lem o front rest f v in
    rw (code_at, length_at, room, no_mark, padding)
      (ap (walk_options n (pre ++ tail) (length pre + 2 + length o.bytes)) taken)

walk_end :
    (n : ℕ) (pre rest : List ℕ) (f : Found)
    → walk_options (suc n) (pre ++ (255 ∷ rest)) (length pre) f ≡ some f
unfolding walk_options
walk_end n pre rest f =
    let mark = get_or-behind pre (255 ∷ rest) (length pre) 0 0 (omega arith) in
    elim (Bool-cases (ltb (length pre) 312)) [
      | inl e ↦ rw (mark, e) refl
      | inr e ↦ rw (mark, e) refl
    ]

-- The loop reads the options that stand in a row from an index on, up to the end mark.
pub walk_options-encode :
    (n : ℕ) (os : List Opt) (pre rest : List ℕ) (f : Found)
    → AllOpts os
    → length pre + length (encode os) < 312
    → length os < n
    → walk_options n (pre ++ (encode os ++ (255 ∷ rest))) (length pre) f ≡ some (settle os f)
walk_options-encode zero os pre rest f v h m = absurd (omega arith)
walk_options-encode (suc n) [] pre rest f v h m = walk_end n pre rest f
walk_options-encode (suc n) (o ∷ os) pre rest f v h m =
    let next = encode os ++ (255 ∷ rest) in
    let front = pre ++ (o.code ∷ length o.bytes ∷ o.bytes) in
    let place : length front ≡ length pre + 2 + length o.bytes =
      length-append pre (o.code ∷ length o.bytes ∷ o.bytes) ∙ omega arith in
    let joined : front ++ next ≡ pre ++ (o.code ∷ length o.bytes ∷ (o.bytes ++ next)) =
      append_assoc pre (o.code ∷ length o.bytes ∷ o.bytes) next in
    let g = take_option o.code o.bytes 0 f in
    ap (λ l. walk_options (suc n) (pre ++ (o.code ∷ length o.bytes ∷ l)) (length pre) f)
      (append_assoc o.bytes (encode os) (255 ∷ rest))
    ∙ walk_option n o pre next f v.0 (omega arith)
    ∙ ap (λ l. walk_options n l (length pre + 2 + length o.bytes) g) (sym joined)
    ∙ ap (λ k. walk_options n (front ++ next) k g) (sym place)
    ∙ walk_options-encode n os front rest g v.1
        (omega (arith, place, h, length-append o.bytes (encode os))) (omega arith)
