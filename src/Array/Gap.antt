-- ===== src/Array/Gap.antt =====
-- Closing a gap in an array removes one of its live elements.
use native.Mathlib.Nat.{zero-add, suc-add}
use ro_dos.Prelude.{ℕ, zero, suc, ◌+◌, ◌≤◌, ◌<◌, ◌≡◌, refl, ap, List, [], ◌∷◌, arith, length, take}
use ro_dos.Array.{shift_down, close_gap, erase_at}

module _ {ℓ} {A : Type ℓ} where
  length-shift_down : (r : ℕ) (xs : List A) → length (shift_down r xs) ≡ length xs
  unfolding shift_down
  length-shift_down zero xs = refl
  length-shift_down (suc r) [] = refl
  length-shift_down (suc r) (x ∷ []) = refl
  length-shift_down (suc r) (x ∷ y ∷ xs) = ap suc (length-shift_down r (y ∷ xs))

  take-shift_down :
      (r : ℕ) (x : A) (xs : List A) → r ≤ length xs → take r (shift_down r (x ∷ xs)) ≡ take r xs
  unfolding shift_down
  take-shift_down zero x xs h = refl
  take-shift_down (suc r) x [] h = absurd (omega arith)
  take-shift_down (suc r) x (y ∷ xs) h = ap (λ l. y ∷ l) (take-shift_down r y xs (omega arith))

  pub length-close_gap : (i r : ℕ) (xs : List A) → length (close_gap i r xs) ≡ length xs
  unfolding close_gap
  length-close_gap zero r xs = length-shift_down r xs
  length-close_gap (suc i) r [] = refl
  length-close_gap (suc i) r (x ∷ xs) = ap suc (length-close_gap i r xs)

  -- The first `i + r` elements are then the first `i + r + 1` from before, less that at `i`.
  pub take-close_gap :
      (i r : ℕ) (xs : List A)
      → i + r < length xs
      → take (i + r) (close_gap i r xs) ≡ erase_at i (take (suc (i + r)) xs)
  unfolding close_gap
  take-close_gap zero r [] h = absurd (omega arith)
  take-close_gap zero r (x ∷ xs) h = rw zero-add (take-shift_down r x xs (omega arith))
  take-close_gap (suc i) r [] h = absurd (omega arith)
  take-close_gap (suc i) r (x ∷ xs) h =
      rw suc-add (ap (λ l. x ∷ l) (take-close_gap i r xs (omega arith)))
