-- ===== src/Bytes/Loads.antt =====
-- Loads from a list of bytes that is put together from parts.
use ro_dos.Prelude.{
  zero, suc, ◌<◌, ℕ, suc, ◌+◌, ◌≡◌, refl, ap, ◌∙◌, List, [], ◌∷◌, ◌++◌, arith, length, set, get_or,
  drop,
}

pub get_or-append : (xs ys : List ℕ) (k d : ℕ) → get_or (xs ++ ys) (length xs + k) d ≡ get_or ys k d
get_or-append [] ys k d = ap (λ n. get_or ys n d) (omega arith)
get_or-append (x ∷ xs) ys k d =
    ap (λ n. get_or (x ∷ (xs ++ ys)) n d) (nat_suc (length xs) k) ∙ get_or-append xs ys k d
  where
    nat_suc : (a b : ℕ) → suc a + b ≡ suc (a + b)
    nat_suc a b = omega arith

pub drop-append : (xs ys : List ℕ) → drop (length xs) (xs ++ ys) ≡ ys
drop-append [] ys = refl
drop-append (x ∷ xs) ys = drop-append xs ys

-- Writing the byte behind a part.
pub set-append : (xs ys : List ℕ) (y b : ℕ) → set (xs ++ (y ∷ ys)) (length xs) b ≡ xs ++ (b ∷ ys)
set-append [] ys y b = refl
set-append (x ∷ xs) ys y b = ap (λ l. x ∷ l) (set-append xs ys y b)

-- The byte at a place behind a part, for a place that is written in another way.
pub get_or-behind :
    (xs ys : List ℕ) (i k d : ℕ) → i ≡ length xs + k → get_or (xs ++ ys) i d ≡ get_or ys k d
get_or-behind xs ys i k d e = ap (λ n. get_or (xs ++ ys) n d) e ∙ get_or-append xs ys k d

pub get_or-front :
    (xs ys : List ℕ) (k d : ℕ) → k < length xs → get_or (xs ++ ys) k d ≡ get_or xs k d
get_or-front [] ys k d h = absurd (omega arith)
get_or-front (x ∷ xs) ys zero d h = refl
get_or-front (x ∷ xs) ys (suc k) d h = get_or-front xs ys k d (omega arith)
