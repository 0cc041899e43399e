-- ===== src/Text/Number.antt =====
-- Decimal numbers of src/commands.c: `str_to_int` reads back what `int_to_str` writes.
use native.Mathlib.Nat.{pow-suc}
use native.Mathlib.Numerals.{add-one}
use ro_dos.Prelude.{
  ℕ, zero, suc, ◌+◌, ◌/◌, ◌%◌, ◌^◌, ◌<◌, ◌≡◌, refl, ap, ◌≢◌, List, [], ◌∷◌, arith, length,
}
use ro_dos.Text.{int_to_str, str_to_int, fill_digits, count_digits, digits_value}

-- Reading the digits that were written for `n` leads to the value `n`.
digits_value-fill_digits :
    (f n : ℕ) (done : List ℕ)
    → n < 10 ^ f
    → n < 2 ^ 32
    → digits_value 0 (fill_digits f n done) ≡ digits_value n done
unfolding digits_value fill_digits
digits_value-fill_digits zero n done h w = let e : n ≡ 0 = omega arith in rw e refl
digits_value-fill_digits (suc f) n done h w =
    ground (arith, pow-suc 10 f, digits_value-fill_digits f (n / 10) ((b'0' + n % 10) ∷ done))

-- The digits fill the buffer down to its first byte: as many are written as were counted.
length-fill_digits :
    (f n : ℕ) (done : List ℕ) → length (fill_digits f n done) ≡ count_digits f n (length done)
unfolding fill_digits count_digits
length-fill_digits zero n done = refl
length-fill_digits (suc f) n done = ground (
  arith,
  length-fill_digits f (n / 10) ((b'0' + n % 10) ∷ done),
  ap (λ k. count_digits f (n / 10) k) (add-one (length done)),
)

-- `str_to_int` reads back every uint32_t that `int_to_str` writes.
pub str_to_int-int_to_str : (n : ℕ) → n < 2 ^ 32 → str_to_int (int_to_str n) ≡ n
unfolding str_to_int int_to_str digits_value
str_to_int-int_to_str n h = ground (arith, digits_value-fill_digits 10 n [] (omega arith) h)

-- A number other than 0 is written in exactly as many digits as the first loop counts, both loops
-- with at most ten rounds.
pub length-int_to_str : (n : ℕ) → n ≢ 0 → length (int_to_str n) ≡ count_digits 10 n 0
unfolding int_to_str
length-int_to_str n h = ground (arith, length-fill_digits 10 n [])
