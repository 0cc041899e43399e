-- ===== src/Array/Pad.antt =====
-- Padded buffers and writes over the start of an array.
use native.Mathlib.Nat.{suc-add}
use ro_dos.Prelude.{◌≤◌, ℕ, zero, suc, ◌+◌, ◌≡◌, refl, ap, List, [], ◌∷◌, ◌++◌, arith, length, drop}
use ro_dos.Array.{pad, overlay}

pub length-pad : (n : ℕ) (xs : List ℕ) → length (pad n xs) ≡ n
length-pad zero xs = refl
length-pad (suc n) [] = ap suc (length-pad n [])
length-pad (suc n) (x ∷ xs) = ap suc (length-pad n xs)

pub pad-append : (xs ys : List ℕ) (r n : ℕ) → n ≡ length xs + r → pad n (xs ++ ys) ≡ xs ++ pad r ys
pad-append [] ys r n e = ap (λ k. pad k ys) (omega arith)
pad-append (x ∷ xs) ys r zero e = absurd (omega arith)
pad-append (x ∷ xs) ys r (suc n) e = ap (λ l. x ∷ l) (pad-append xs ys r n (omega arith))

pub pad-all : (n : ℕ) (xs : List ℕ) → length xs ≡ n → pad n xs ≡ xs
pad-all zero [] e = refl
pad-all zero (x ∷ xs) e = absurd (omega arith)
pad-all (suc n) [] e = absurd (omega arith)
pad-all (suc n) (x ∷ xs) e = ap (λ l. x ∷ l) (pad-all n xs (omega arith))

pub pad-append_all : (n : ℕ) (xs ys : List ℕ) → length xs ≡ n → pad n (xs ++ ys) ≡ xs
pad-append_all zero [] ys e = refl
pad-append_all zero (x ∷ xs) ys e = absurd (omega arith)
pad-append_all (suc n) [] ys e = absurd (omega arith)
pad-append_all (suc n) (x ∷ xs) ys e = ap (λ l. x ∷ l) (pad-append_all n xs ys (omega arith))

pub drop-append {ℓ} :
    {A : Type ℓ} (n k : ℕ) (xs ys : List A) → length xs ≡ n → drop (n + k) (xs ++ ys) ≡ drop k ys
drop-append n k [] ys e = ap (λ j. drop j ys) (omega arith)
drop-append zero k (x ∷ xs) ys e = absurd (omega arith)
drop-append (suc n) k (x ∷ xs) ys e = rw suc-add (drop-append n k xs ys (omega arith))

pub length-overlay {ℓ} : {A : Type ℓ} (xs ys : List A) → length (overlay xs ys) ≡ length ys
length-overlay xs [] = refl
length-overlay [] (y ∷ ys) = refl
length-overlay (x ∷ xs) (y ∷ ys) = ap suc (length-overlay xs ys)

pub pad-pad : (n m : ℕ) (xs : List ℕ) → length xs ≡ n → n ≤ m → pad n (pad m xs) ≡ xs
pad-pad zero m [] e h = refl
pad-pad zero m (x ∷ xs) e h = absurd (omega arith)
pad-pad (suc n) m [] e h = absurd (omega arith)
pad-pad (suc n) zero (x ∷ xs) e h = absurd (omega arith)
pad-pad (suc n) (suc m) (x ∷ xs) e h = ap (λ l. x ∷ l) (pad-pad n m xs (omega arith) (omega arith))
