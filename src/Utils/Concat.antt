-- ===== src/Utils/Concat.antt =====
-- `strcpy` and `strcat` of src/utils.c.
use ro_dos.Prelude.{
  ℕ, suc, ◌+◌, ◌<◌, ◌≡◌, refl, ap, inl, inr, some, List, [], ◌∷◌, ◌++◌, arith, ◌==◌, Bool-cases,
  length, drop, length-append, length-drop,
}
use ro_dos.Text.{text}
use ro_dos.Utils.Strings.{strcpy, strcat}

-- `strcpy` into a buffer with room for the text and its terminator leaves the text there, followed
-- by the terminator and the rest of the buffer.
strcpy_lem :
    (dest src : List ℕ)
    → length (text src) < length dest
    → strcpy dest src ≡ some (text src ++ (0 ∷ drop (suc (length (text src))) dest))
unfolding strcpy
strcpy_lem [] src h = absurd (omega arith)
strcpy_lem (d ∷ dest) [] h = refl
strcpy_lem (d ∷ dest) (c ∷ src) h = elim (Bool-cases (c == 0)) [
  | inl e ↦ rw e refl
  | inr e ↦ rw (e, strcpy_lem dest src (ground (arith, h, e))) refl
]

text-append_zero : (s r : List ℕ) → text (text s ++ (0 ∷ r)) ≡ text s
text-append_zero [] r = refl
text-append_zero (c ∷ s) r = ground (arith, text-append_zero s r)

-- `strcat` into a buffer with room for both texts and the terminator stays inside it, and leaves in
-- it the one text followed by the other.
pub strcat_lem :
    (dest src : List ℕ)
    → length (text dest) + length (text src) < length dest
    → (new : List ℕ) × (strcat dest src ≡ some new)
      × (length new ≡ length dest)
      × (text new ≡ text dest ++ text src)
unfolding strcat
strcat_lem [] src h = absurd (omega arith)
strcat_lem (d ∷ dest) src h = elim (Bool-cases (d == 0)) [
  | inl e ↦
      let fits : length (text src) < length (d ∷ dest) = ground (arith, h, e) in
      (
        text src ++ (0 ∷ drop (length (text src)) dest),
        rw e (strcpy_lem (d ∷ dest) src fits),
        omega (
          arith,
          length-append (text src) (0 ∷ drop (length (text src)) dest),
          length-drop (length (text src)) dest,
          fits,
        ),
        rw e (text-append_zero src _),
      )
  | inr e ↦
      let (new, done, n, t) = strcat_lem dest src (ground (arith, h, e)) in
      (d ∷ new, rw (e, done) refl, ap suc n, rw e (ap (λ l. d ∷ l) t))
]
