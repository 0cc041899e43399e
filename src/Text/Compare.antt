-- ===== src/Text/Compare.antt =====
-- `str_cmp` of src/commands.c decides equality of texts.
use ro_dos.Prelude.{ℕ, ◌≡◌, refl, ◌↔◌, List, [], ◌∷◌, arith}
use ro_dos.Prelude.Int.{pos}
use ro_dos.Text.{str_cmp, text}

pub str_cmp_of_text_eq : (a b : List ℕ) → text a ≡ text b → str_cmp a b ≡ pos 0
unfolding str_cmp
str_cmp_of_text_eq [] [] e = refl
str_cmp_of_text_eq [] (y ∷ b) e = ground arith
str_cmp_of_text_eq (x ∷ a) [] e = ground arith
str_cmp_of_text_eq (x ∷ a) (y ∷ b) e = ground (arith, str_cmp_of_text_eq a b)

pub text_eq_of_str_cmp : (a b : List ℕ) → str_cmp a b ≡ pos 0 → text a ≡ text b
unfolding str_cmp
text_eq_of_str_cmp [] [] e = refl
text_eq_of_str_cmp [] (y ∷ b) e = ground arith
text_eq_of_str_cmp (x ∷ a) [] e = ground arith
text_eq_of_str_cmp (x ∷ a) (y ∷ b) e = ground (arith, text_eq_of_str_cmp a b)

-- `str_cmp` returns 0 exactly when the two texts are equal.
pub str_cmp_iff : (a b : List ℕ) → (str_cmp a b ≡ pos 0) ↔ (text a ≡ text b)
str_cmp_iff a b = (text_eq_of_str_cmp a b, str_cmp_of_text_eq a b)
