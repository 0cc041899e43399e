-- ===== src/Fs/Path/Up.antt =====
-- CD into a directory and up again, on the buffer of the current directory.
use native.Mathlib.Numerals.{add-one}
use native.Mathlib.Decide.{dec_lt}
use ro_dos.Prelude.{
  ℕ, zero, suc, ◌+◌, ◌-◌, ◌≤◌, ◌<◌, ◌≡◌, refl, ap, ◌∙◌, ◌≢◌, some, List, [], ◌∷◌, ◌++◌, arith,
  lt→ltb, length, get_or, take, length-append, take-all,
}
use ro_dos.Array.Slots.{take-append}
use ro_dos.Text.{str_len, str_copy, text}
use ro_dos.Text.Copy.{str_copy_lem, str_len-eq-length}
use ro_dos.Fs.Path.{parent_dir, last_slash, enter_dir}
use ro_dos.Fs.Path.Bounds.{text-set_end, text-set_zero}

-- No character is a `\`.
abbrev pub IsPlain : List ℕ → Type 0
IsPlain [] = Unit {0}
IsPlain (c ∷ s) = (c ≢ b'\\') × IsPlain s

get_or-IsPlain : (s : List ℕ) (i : ℕ) → IsPlain s → get_or s i 0 ≢ b'\\'
get_or-IsPlain [] i h = omega arith
get_or-IsPlain (c ∷ s) zero h = h.0
get_or-IsPlain (c ∷ s) (suc i) h = get_or-IsPlain s i h.1

get_or-text : (s : List ℕ) (i : ℕ) → i < length (text s) → get_or s i 0 ≡ get_or (text s) i 0
get_or-text [] i h = absurd (omega arith)
get_or-text (c ∷ s) zero h = ground arith
get_or-text (c ∷ s) (suc i) h = ground (arith, get_or-text s i)

get_or-append_left : (s t : List ℕ) (i : ℕ) → i < length s → get_or (s ++ t) i 0 ≡ get_or s i 0
get_or-append_left [] t i h = absurd (omega arith)
get_or-append_left (c ∷ s) t zero h = refl
get_or-append_left (c ∷ s) t (suc i) h = get_or-append_left s t i (omega arith)

get_or-append_right :
    (s t : List ℕ) (i : ℕ) → length s ≤ i → get_or (s ++ t) i 0 ≡ get_or t (i - length s) 0
get_or-append_right [] t i h = ap (λ k. get_or t k 0) (omega arith)
get_or-append_right (c ∷ s) t zero h = absurd (omega arith)
get_or-append_right (c ∷ s) t (suc i) h =
    get_or-append_right s t i (omega arith) ∙ ap (λ k. get_or t k 0) (omega arith)

-- A path that ends in a name without `\`.
pub last-append_plain :
    (s name : List ℕ)
    → IsPlain name
    → 0 < length name
    → get_or (s ++ name) (length (s ++ name) - 1) 0 ≢ b'\\'
last-append_plain s name plain some_name =
    rw (get_or-append_right s name (length (s ++ name) - 1) (omega (arith, length-append s name)))
      (get_or-IsPlain name (length (s ++ name) - 1 - length s) plain)

last_slash_hit :
    (s : List ℕ) (n k : ℕ)
    → k < n
    → get_or s k 0 ≡ b'\\'
    → ((i : ℕ) → k < i → i < n → get_or s i 0 ≢ b'\\')
    → last_slash s n ≡ some k
unfolding last_slash
last_slash_hit s zero k h at behind = absurd (omega arith)
last_slash_hit s (suc n) k h at behind = elim (dec_lt k n) [
  | yes p ↦ ground (arith, behind n, last_slash_hit s n k p at (λ i l r. behind i l (omega arith)))
  | no p ↦ let e : n ≡ k = omega arith in rw (e) (ground arith)
]

-- CD into a directory whose path does not end in a `\` appends one.
pub enter_dir_plain :
    (dir path : List ℕ)
    → length dir ≡ 256
    → 0 < length (text path)
    → length (text path) ≤ 254
    → get_or (text path) (length (text path) - 1) 0 ≢ b'\\'
    → text (enter_dir dir path) ≡ text path ++ (b'\\' ∷ [])
unfolding enter_dir
enter_dir_plain dir path h some_name k last =
    let new = str_copy dir path 256 in
    let c = str_copy_lem dir path 256 (omega arith) (omega arith) in
    let same : text new ≡ text path = c.1 ∙ take-all 255 (text path) (omega arith) in
    let n : str_len new ≡ length (text new) = str_len-eq-length new in
    let len : length (text new) ≡ length (text path) = ap length same in
    let end : get_or new (str_len new - 1) 0 ≢ b'\\' =
      rw (n, get_or-text new (length (text new) - 1) (omega arith), same) last in
    ground (arith, end, same, text-set_end new b'\\' (str_len new), add-one (str_len new))

module _ (dir p name : List ℕ) (ends : text dir ≡ p ++ (b'\\' ∷ [])) (plain : IsPlain name) where
  -- The buffer that holds the directory, the name and a last `\`.
  pub up_again :
      (new : List ℕ)
      → text new ≡ text dir ++ (name ++ (b'\\' ∷ []))
      → 0 < length name
      → 3 < length (text new)
      → length (text new) < length new
      → text (parent_dir new) ≡ text dir
  unfolding parent_dir
  up_again new e some_name long fits =
      let n = length (text dir) in
      let total : length (text new) ≡ n + length name + 1 = omega (
        arith,
        ap length e,
        length-append (text dir) (name ++ (b'\\' ∷ [])),
        length-append name (b'\\' ∷ []),
      ) in
      let n_pos : n ≡ length p + 1 = omega (arith, ap length ends, length-append p (b'\\' ∷ [])) in
      let slash = slash_at new e n_pos (omega arith) in
      rw
        (
          str_len-eq-length new,
          lt→ltb 3 (length (text new)) long,
          last_slash_hit new (length (text new) - 1) (n - 1) (omega arith) slash
              (behind new e total),
        )
        (text-set_zero new (n - 1 + 1) (omega arith) (omega arith)
          ∙ shorter new e (n - 1 + 1) (omega arith))
    where
      shorter :
          (new : List ℕ)
          → text new ≡ text dir ++ (name ++ (b'\\' ∷ []))
          → (k : ℕ) → k ≡ length (text dir)
          → take k (text new) ≡ text dir
      shorter new e k at = rw (at, e) (take-append (text dir) (name ++ (b'\\' ∷ [])))

      slash_at :
          (new : List ℕ)
          → text new ≡ text dir ++ (name ++ (b'\\' ∷ []))
          → length (text dir) ≡ length p + 1
          → length (text dir) < length (text new)
          → get_or new (length (text dir) - 1) 0 ≡ b'\\'
      slash_at new e n_pos l =
          get_or-text new (length (text dir) - 1) (omega arith)
          ∙ ap (λ s. get_or s (length (text dir) - 1) 0) e
          ∙ get_or-append_left (text dir) _ (length (text dir) - 1) (omega arith)
          ∙ ap (λ s. get_or s (length (text dir) - 1) 0) ends
          ∙ get_or-append_right p (b'\\' ∷ []) (length (text dir) - 1) (omega arith)
          ∙ ap (λ k. get_or (b'\\' ∷ []) k 0) zero_at
        where
          zero_at : length (text dir) - 1 - length p ≡ 0
          zero_at = omega arith

      behind :
          (new : List ℕ)
          → text new ≡ text dir ++ (name ++ (b'\\' ∷ []))
          → length (text new) ≡ length (text dir) + length name + 1
          → (i : ℕ) → length (text dir) - 1 < i
          → i < length (text new) - 1
          → get_or new i 0 ≢ b'\\'
      behind new e total i l r =
          rw
            (
              get_or-text new i (omega arith),
              e,
              get_or-append_right (text dir) (name ++ (b'\\' ∷ [])) i (omega arith),
              get_or-append_left name (b'\\' ∷ []) (i - length (text dir)) (omega arith),
            )
            (get_or-IsPlain name (i - length (text dir)) plain)
