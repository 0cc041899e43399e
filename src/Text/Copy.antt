-- ===== src/Text/Copy.antt =====
-- `str_copy` and `str_len` of src/commands.c.
use ro_dos.Prelude.{
  ◌++◌, ℕ, zero, suc, ◌-◌, ◌≤◌, ◌<◌, ◌≡◌, refl, List, [], ◌∷◌, arith, length, take,
}
use ro_dos.Text.{str_len, str_copy, copy_chars, text}

pub str_len-eq-length : (s : List ℕ) → str_len s ≡ length (text s)
unfolding str_len
str_len-eq-length [] = refl
str_len-eq-length (c ∷ s) = ground (arith, str_len-eq-length s)

text-copy_chars :
    (dst src : List ℕ) (room : ℕ)
    → room < length dst
    → text (copy_chars dst src room) ≡ take room (text src)
unfolding copy_chars
text-copy_chars [] src room h = absurd (omega arith)
text-copy_chars (d ∷ dst) src zero h = refl
text-copy_chars (d ∷ dst) [] (suc room) h = refl
text-copy_chars (d ∷ dst) (c ∷ src) (suc room) h = ground (arith, text-copy_chars dst src room)

length-copy_chars : (dst src : List ℕ) (room : ℕ) → length (copy_chars dst src room) ≡ length dst
unfolding copy_chars
length-copy_chars [] src room = refl
length-copy_chars (d ∷ dst) src zero = refl
length-copy_chars (d ∷ dst) [] (suc room) = refl
length-copy_chars (d ∷ dst) (c ∷ src) (suc room) = ground (arith, length-copy_chars dst src room)

-- A copy into a buffer of at least `max` bytes keeps the buffer's length, and leaves in it the first
-- `max - 1` characters of the source text, terminated.
pub str_copy_lem :
    (dst src : List ℕ) (max : ℕ)
    → 0 < max
    → max ≤ length dst
    → (length (str_copy dst src max) ≡ length dst)
      × (text (str_copy dst src max) ≡ take (max - 1) (text src))
unfolding str_copy
str_copy_lem dst src max h k =
    (length-copy_chars dst src (max - 1), text-copy_chars dst src (max - 1) (omega arith))

-- A text is its own text, and so is one text behind another.
pub text_idem : (s : List ℕ) → text (text s) ≡ text s
text_idem [] = refl
text_idem (c ∷ s) = ground (arith, text_idem s)

pub text-append : (s t : List ℕ) → text (text s ++ text t) ≡ text s ++ text t
text-append [] t = text_idem t
text-append (c ∷ s) t = ground (arith, text_idem t, text-append s t)
