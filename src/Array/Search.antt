-- ===== src/Array/Search.antt =====
-- What a search loop finds.
use ro_dos.Prelude.{
  ℕ, zero, suc, ◌+◌, ◌≤◌, ◌<◌, ◌≡◌, refl, ap, ◌∙◌, inl, inr, Bool, true, false, none, some, List,
  [], ◌∷◌, arith, Bool-cases, get_elem?, take,
}
use ro_dos.Array.{first_from, first_index}

module _ {ℓ} {A : Type ℓ} (p : A → Bool) where
  -- Every element passes the test `not p`.
  abbrev pub None : List A → Type 0
  None [] = Unit {0}
  None (x ∷ xs) = (p x ≡ false) × None xs

  first_from_shift :
      (xs : List A) (n i k : ℕ) → first_from p xs n i ≡ some k → (i ≤ k) × (k < i + n)
  unfolding first_from
  first_from_shift [] n i k e = ground arith
  first_from_shift (x ∷ xs) zero i k e = ground arith
  first_from_shift (x ∷ xs) (suc n) i k e = ground (arith, first_from_shift xs n (i + 1) k)

  first_from-some :
      (xs : List A) (n i k : ℕ)
      → first_from p xs n i ≡ some (i + k)
      → (x : A) × (get_elem? xs k ≡ some x) × (p x ≡ true) × None (take k xs)
  unfolding first_from
  first_from-some [] n i k e = cc
  first_from-some (x ∷ xs) zero i k e = cc
  first_from-some (x ∷ xs) (suc n) i zero e = elim (Bool-cases (p x)) [
    | inl hit ↦ (x, refl, hit, tt)
    | inr miss ↦ absurd (ground (arith, first_from_shift xs n (i + 1) (i + 0)))
  ]
  first_from-some (x ∷ xs) (suc n) i (suc k) e = elim (Bool-cases (p x)) [
    | inl hit ↦ absurd (ground arith)
    | inr miss ↦
        let r = first_from-some xs n (i + 1) k (ground arith) in (r.0, r.1, r.2, (miss, r.3))
  ]

  first_from-none : (xs : List A) (n i : ℕ) → first_from p xs n i ≡ none → None (take n xs)
  unfolding first_from
  first_from-none [] zero i e = tt
  first_from-none [] (suc n) i e = tt
  first_from-none (x ∷ xs) zero i e = tt
  first_from-none (x ∷ xs) (suc n) i e = ground (arith, first_from-none xs n (i + 1))

  -- A search that breaks at `k` found the first element that passes the test.
  pub first_index-some :
      (xs : List A) (n k : ℕ)
      → first_index p xs n ≡ some k
      → (x : A) × (k < n) × (get_elem? xs k ≡ some x) × (p x ≡ true) × None (take k xs)
  unfolding first_index
  first_index-some xs n k e =
      let r = first_from-some xs n 0 k (e ∙ ap some (omega arith)) in
      (r.0, omega (arith, first_from_shift xs n 0 k e), r.1, r.2, r.3)

  -- A search that runs through saw no element that passes the test.
  pub first_index-none : (xs : List A) (n : ℕ) → first_index p xs n ≡ none → None (take n xs)
  unfolding first_index
  first_index-none xs n e = first_from-none xs n 0 e

  first_from_miss : (xs : List A) (n i : ℕ) → None (take n xs) → first_from p xs n i ≡ none
  unfolding first_from
  first_from_miss [] n i h = refl
  first_from_miss (x ∷ xs) zero i h = refl
  first_from_miss (x ∷ xs) (suc n) i h = ground (arith, first_from_miss xs n (i + 1))

  pub first_index_miss : (xs : List A) (n : ℕ) → None (take n xs) → first_index p xs n ≡ none
  unfolding first_index
  first_index_miss xs n h = first_from_miss xs n 0 h

  first_from_hit :
      (xs : List A) (n i k : ℕ) {x : A}
      → k < n
      → get_elem? xs k ≡ some x
      → p x ≡ true
      → None (take k xs)
      → first_from p xs n i ≡ some (i + k)
  unfolding first_from
  first_from_hit [] n i k l e h m = cc
  first_from_hit (x ∷ xs) zero i k l e h m = absurd (omega arith)
  first_from_hit (x ∷ xs) (suc n) i zero l e h m = ground arith
  first_from_hit (x ∷ xs) (suc n) i (suc k) l e h m =
      ground (arith, first_from_hit xs n (i + 1) k (omega arith) e h m.1)

  pub first_index_hit :
      (xs : List A) (n k : ℕ) {x : A}
      → k < n
      → get_elem? xs k ≡ some x
      → p x ≡ true
      → None (take k xs)
      → first_index p xs n ≡ some k
  unfolding first_index
  first_index_hit xs n k l e h m = first_from_hit xs n 0 k l e h m ∙ ap some (omega arith)
