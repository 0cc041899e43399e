-- ===== src/Tcp/Queue.antt =====
-- Taking and dropping the front of the bytes that src/tcp_ip_stack.c received.
use ro_dos.Prelude.{
  ℕ, zero, suc, ◌+◌, ◌≤◌, min, ◌≡◌, refl, sym, ap, ◌∙◌, List, [], ◌∷◌, ◌++◌, arith, length, take,
  drop,
}

pub take-nil : (n : ℕ) → take {A = ℕ} n [] ≡ []
take-nil zero = refl
take-nil (suc n) = refl

pub take_split : (xs : List ℕ) (n k : ℕ) → take (n + k) xs ≡ take n xs ++ take k (drop n xs)
take_split xs zero k = ap (λ j. take j xs) (omega arith)
take_split [] (suc n) k = take-nil (suc n + k) ∙ sym (take-nil k)
take_split (x ∷ xs) (suc n) k =
    ap (λ j. take j (x ∷ xs)) (suc_add n k) ∙ ap (λ l. x ∷ l) (take_split xs n k)
  where
    suc_add : (n k : ℕ) → suc n + k ≡ suc (n + k)
    suc_add n k = omega arith

pub take-drop-take :
    (xs : List ℕ) (len n k : ℕ) → n + k ≤ len → take k (drop n (take len xs)) ≡ take k (drop n xs)
take-drop-take xs len zero zero h = refl
take-drop-take [] zero n k h = refl
take-drop-take (x ∷ xs) zero zero (suc k) h = absurd (omega arith)
take-drop-take (x ∷ xs) zero (suc n) k h = absurd (omega arith)
take-drop-take [] (suc len) n k h = refl
take-drop-take (x ∷ xs) (suc len) zero (suc k) h =
    ap (λ l. x ∷ l) (take-drop-take xs len zero k (omega arith))
take-drop-take (x ∷ xs) (suc len) (suc n) k h = take-drop-take xs len n k (omega arith)

pub take_append_left : (xs ys : List ℕ) (n : ℕ) → n ≤ length xs → take n (xs ++ ys) ≡ take n xs
take_append_left xs ys zero h = refl
take_append_left [] ys (suc n) h = absurd (omega arith)
take_append_left (x ∷ xs) ys (suc n) h = ap (λ l. x ∷ l) (take_append_left xs ys n (omega arith))

pub drop_append_left :
    (xs ys : List ℕ) (n : ℕ) → n ≤ length xs → drop n (xs ++ ys) ≡ drop n xs ++ ys
drop_append_left xs ys zero h = refl
drop_append_left [] ys (suc n) h = absurd (omega arith)
drop_append_left (x ∷ xs) ys (suc n) h = drop_append_left xs ys n (omega arith)

pub drop-nil : (n : ℕ) → drop {A = ℕ} n [] ≡ []
drop-nil zero = refl
drop-nil (suc n) = refl

pub drop-drop : (xs : List ℕ) (n k : ℕ) → drop (n + k) xs ≡ drop k (drop n xs)
drop-drop xs zero k = ap (λ j. drop j xs) (omega arith)
drop-drop [] (suc n) k = drop-nil (suc n + k) ∙ sym (drop-nil k)
drop-drop (x ∷ xs) (suc n) k = ap (λ j. drop j (x ∷ xs)) (suc_add n k) ∙ drop-drop xs n k
  where
    suc_add : (n k : ℕ) → suc n + k ≡ suc (n + k)
    suc_add n k = omega arith

pub min-suc : (m n : ℕ) → min (suc m) (suc n) ≡ suc (min m n)
min-suc m n = omega arith

pub min-zero : (m : ℕ) → min m 0 ≡ 0
min-zero m = omega arith

pub take-min : (xs : List ℕ) (n : ℕ) → take (min (length xs) n) xs ≡ take n xs
take-min [] n = take-nil (min 0 n) ∙ sym (take-nil n)
take-min (x ∷ xs) zero = ap (λ k. take k (x ∷ xs)) (min-zero (suc (length xs)))
take-min (x ∷ xs) (suc n) =
    ap (λ k. take k (x ∷ xs)) (min-suc (length xs) n) ∙ ap (λ l. x ∷ l) (take-min xs n)

pub drop-min : (xs : List ℕ) (n : ℕ) → drop (min (length xs) n) xs ≡ drop n xs
drop-min [] n = drop-nil (min 0 n) ∙ sym (drop-nil n)
drop-min (x ∷ xs) zero = ap (λ k. drop k (x ∷ xs)) (min-zero (suc (length xs)))
drop-min (x ∷ xs) (suc n) = ap (λ k. drop k (x ∷ xs)) (min-suc (length xs) n) ∙ drop-min xs n
