-- ===== src/Array.antt =====
-- The loops over static arrays that the components share. An array is the list of its elements.
pub mod Search
pub mod Gap
pub mod Slots
pub mod Pad
use ro_dos.Prelude.{ℕ, zero, suc, ◌+◌, Bool, Option, none, some, List, [], ◌∷◌, if◌then◌else◌}

module _ {ℓ} {A : Type ℓ} where
  -- for (i = 0; i < n; i++) if (p(a[i])) break: from the index `i` on, for the rounds left. The
  -- result is the index at the break; `none` means that the loop ran through.
  first_from : (A → Bool) → List A → ℕ → ℕ → Option ℕ
  first_from p [] rounds i = none
  first_from p (x ∷ xs) zero i = none
  first_from p (x ∷ xs) (suc rounds) i = if p x then some i else first_from p xs rounds (i + 1)

  unfoldable pub first_index : (A → Bool) → List A → ℕ → Option ℕ
  unfolding first_from
  first_index p xs n = first_from p xs n 0

  -- for (j = 0; j < rounds; j++) a[j] = a[j + 1].
  unfoldable pub shift_down : ℕ → List A → List A
  shift_down (suc rounds) (x ∷ y ∷ xs) = y ∷ shift_down rounds (y ∷ xs)
  shift_down _ xs = xs

  -- for (j = i; j < i + rounds; j++) a[j] = a[j + 1].
  unfoldable pub close_gap : ℕ → ℕ → List A → List A
  unfolding shift_down
  close_gap zero rounds xs = shift_down rounds xs
  close_gap (suc i) rounds [] = []
  close_gap (suc i) rounds (x ∷ xs) = x ∷ close_gap i rounds xs

  -- The list without its element at an index.
  abbrev pub erase_at : ℕ → List A → List A
  erase_at i [] = []
  erase_at zero (x ∷ xs) = xs
  erase_at (suc i) (x ∷ xs) = x ∷ erase_at i xs

  -- Writes a list over the start of an array.
  abbrev pub overlay : List A → List A → List A
  overlay xs [] = []
  overlay [] (y ∷ ys) = y ∷ ys
  overlay (x ∷ xs) (y ∷ ys) = x ∷ overlay xs ys

-- A buffer of `n` bytes that holds a list and then zeros.
abbrev pub pad : ℕ → List ℕ → List ℕ
pad zero xs = []
pad (suc n) [] = 0 ∷ pad n []
pad (suc n) (x ∷ xs) = x ∷ pad n xs
