-- ===== src/Dns/Labels.antt =====
-- Names as src/tcp_ip_stack.c writes them into a query, and the loops over them.
use native.Mathlib.Numerals.{add-one}
use mathlib.Core.List.{append-nil, append_assoc}
use ro_dos.Prelude.{
  ℕ, zero, suc, ◌+◌, ◌≤◌, ◌<◌, ◌≡◌, refl, sym, ap, ◌∙◌, ◌≢◌, ◌⊎◌, inl, inr, false, some, List, [],
  ◌∷◌, ◌++◌, arith, ltb, ◌==◌, Bool-cases, length, take, drop, length-drop, if-both,
}
use ro_dos.Dns.{Qname, built, too_long, in_front, label_len, qname, skip_dot, skip_labels}
use ro_dos.Text.{peek}
use ro_dos.Bytes.Loads.{drop-append}
use ro_dos.Array.Slots.{take-append}

-- A label: 1 to 63 bytes, none of them a terminator or a dot.
abbrev pub AllPlain : List ℕ → Type 0
AllPlain [] = Unit {0}
AllPlain (c ∷ l) = (c ≢ 0) × (c ≢ b'.') × AllPlain l

pub record IsLabel (l : List ℕ) : Type 0 where
  pub plain : AllPlain l
  pub some_byte : 0 < length l
  pub short : length l ≤ 63

abbrev pub AllLabels : List (List ℕ) → Type 0
AllLabels [] = Unit {0}
AllLabels (l ∷ ls) = IsLabel l × AllLabels ls

-- The name as it is typed, and as it stands in a packet.
abbrev pub joined : List (List ℕ) → List ℕ
joined [] = []
joined (l ∷ []) = l
joined (l ∷ m ∷ ls) = l ++ (b'.' ∷ joined (m ∷ ls))

abbrev pub wire : List (List ℕ) → List ℕ
wire [] = 0 ∷ []
wire (l ∷ ls) = length l ∷ (l ++ wire ls)

-- What a label ends at.
abbrev AtEnd : List ℕ → Type 0
AtEnd rest = (peek rest ≡ 0) ⊎ (peek rest ≡ b'.')

label_len-append : (l rest : List ℕ) → AllPlain l → AtEnd rest → label_len (l ++ rest) ≡ length l
unfolding label_len
label_len-append [] [] v e = refl
label_len-append [] (c ∷ rest) v e = ground arith
label_len-append (c ∷ l) rest v e = ground (arith, label_len-append l rest v.2 e)

peek-label : (l rest : List ℕ) → IsLabel l → (peek (l ++ rest) == 0) ≡ false
peek-label [] rest v = absurd (omega (arith, v.some_byte))
peek-label (c ∷ l) rest v = ground (arith, v.plain.0)

-- One round of the loop.
qname_step :
    (n : ℕ) (l rest : List ℕ)
    → IsLabel l
    → AtEnd rest
    → qname (suc n) (l ++ rest) ≡ in_front (length l ∷ l) (qname n (skip_dot rest))
unfolding qname
qname_step n l rest v e =
    let short : ltb 63 (length l) ≡ false = ground (arith, v.short) in
    rw
      (
        peek-label l rest v,
        label_len-append l rest v.plain e,
        short,
        take-append l rest,
        drop-append l rest,
      )
      refl

-- For every host name of labels of 1 to 63 bytes, the loop writes each label behind its length, and a 0
-- at the end.
pub qname-joined :
    (n : ℕ) (ls : List (List ℕ))
    → AllLabels ls
    → length ls < n
    → qname n (joined ls) ≡ built (wire ls)
unfolding qname
qname-joined zero ls v h = absurd (omega arith)
qname-joined (suc n) [] v h = refl
qname-joined (suc n) (l ∷ []) v h =
    ap (qname (suc n)) (sym (append-nil l))
    ∙ qname_step n l [] v.0 (inl refl)
    ∙ ap (in_front (length l ∷ l)) (qname-joined n [] tt (omega arith))
qname-joined (suc n) (l ∷ m ∷ ls) v h =
    qname_step n l (b'.' ∷ joined (m ∷ ls)) v.0 (inr refl)
    ∙ ap (in_front (length l ∷ l)) (qname-joined n (m ∷ ls) v.1 (omega arith))

-- The loop goes on behind at least one byte.
length-skip_dot : (p : List ℕ) → length (skip_dot p) ≤ length p
length-skip_dot [] = omega arith
length-skip_dot (c ∷ p) = ground arith

progress :
    (p : List ℕ) → (peek p == 0) ≡ false → length (skip_dot (drop (label_len p) p)) < length p
unfolding label_len
progress [] e = absurd (ground arith)
progress (c ∷ p) e = elim (Bool-cases (c == b'.')) [
  | inl dot ↦ rw (e, dot) (rw dot (omega arith))
  | inr other ↦
      rw (e, other)
        (omega (arith, length-skip_dot (drop (label_len p) p), length-drop (label_len p) p))
]

-- What the loop comes out with.
abbrev pub Ended : Qname → Type 0
Ended q = (q ≡ too_long) ⊎ ((name : List ℕ) × (q ≡ built name))

in_front-Ended : (label : List ℕ) (q : Qname) → Ended q → Ended (in_front label q)
in_front-Ended label q (inl e) = rw e (inl refl)
in_front-Ended label q (inr (name, e)) = rw e (inr (label ++ name, refl))

-- The loop over the labels ends: as many rounds as the host name has bytes, and one more, are enough
-- for it to find a label that is too long or to build the name.
pub qname-ends : (n : ℕ) (hostname : List ℕ) → length hostname < n → Ended (qname n hostname)
unfolding qname
qname-ends zero p h = absurd (omega arith)
qname-ends (suc n) p h = elim (Bool-cases (peek p == 0)) [
  | inl e ↦ rw e (inr (0 ∷ [], refl))
  | inr e ↦ rw e (
      if-both Ended (ltb 63 (label_len p)) (inl refl) (
        in_front-Ended (label_len p ∷ take (label_len p) p)
          (qname n (skip_dot (drop (label_len p) p)))
          (qname-ends n (skip_dot (drop (label_len p) p)) (omega (arith, progress p e)))))
]

-- The loop over the labels of a packet ends, whatever bytes the packet has.
pub skip_labels-some :
    (n : ℕ) (p : List ℕ) → length p < n → (rest : List ℕ) × (skip_labels n p ≡ some rest)
unfolding skip_labels
skip_labels-some zero p h = absurd (omega arith)
skip_labels-some (suc n) [] h = ([], refl)
skip_labels-some (suc n) (c ∷ p) h = elim (Bool-cases (c == 0)) [
  | inl e ↦ rw e (p, refl)
  | inr e ↦
      rw e (skip_labels-some n (drop (c + 1) (c ∷ p)) (omega (arith, length-drop (c + 1) (c ∷ p))))
]

-- It comes out behind the name that the query loop writes.
pub skip_labels-wire :
    (n : ℕ) (ls : List (List ℕ)) (rest : List ℕ)
    → AllLabels ls
    → length ls < n
    → skip_labels n (wire ls ++ rest) ≡ some rest
unfolding skip_labels
skip_labels-wire zero ls rest v h = absurd (omega arith)
skip_labels-wire (suc n) [] rest v h = refl
skip_labels-wire (suc n) (l ∷ ls) rest v h =
    let e : (length l == 0) ≡ false = ground (arith, v.0.some_byte) in
    rw e (
      ap (λ k. skip_labels n (drop k (length l ∷ ((l ++ wire ls) ++ rest)))) (add-one (length l))
      ∙ ap (λ x. skip_labels n (drop (length l) x)) (append_assoc l (wire ls) rest)
      ∙ ap (skip_labels n) (drop-append l (wire ls ++ rest))
      ∙ skip_labels-wire n ls rest v.1 (omega arith))
