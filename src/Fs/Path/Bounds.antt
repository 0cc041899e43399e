-- ===== src/Fs/Path/Bounds.antt =====
-- `full_path` stays inside its array, and CD keeps the current directory inside its own.
use native.Mathlib.Numerals.{add-one}
use ro_dos.Prelude.{
  length-take, length-set, lt→ltb, inr, ltb→lt, inl, ◌⊎◌, Option, Bool-cases, take-all, ℕ, zero,
  suc, ◌+◌, ◌-◌, ◌≤◌, ◌<◌, ◌≡◌, refl, ap, ◌≢◌, none, some, List, [], ◌∷◌, ◌++◌, arith, ltb,
  if◌then◌else◌, length, set, get_or, take, length-append,
}
use ro_dos.Text.{text}
use ro_dos.Text.Copy.{str_copy_lem, str_len-eq-length}
use ro_dos.Fs.Path.{str_len, str_copy, enter_dir, parent_dir, full_path, last_slash}

path_bytes_lem :
    (a b : List ℕ)
    → length a + length b < 256
    → take (length a + length b) (take 255 a ++ take (255 - length a) b) ≡ a ++ b
path_bytes_lem a b h =
    rw (take-all 255 a (omega arith), take-all (255 - length a) b (omega arith))
      (take-all _ (a ++ b) (omega (arith, length-append a b)))

-- `full_path` is the directory followed by the name exactly when both and the terminator fit in the
-- array; otherwise the terminator is written behind it.
pub full_path_lem :
    (dir name : List ℕ)
    → full_path dir name ≡ (
        if ltb (length (text dir) + length (text name)) 256
        then some (text dir ++ text name)
        else none)
unfolding full_path
full_path_lem dir name =
    rw (str_len-eq-length dir, str_len-eq-length name)
      (elim (Bool-cases (ltb (length (text dir) + length (text name)) 256)) [
        | inl fits ↦ rw fits (ap some (path_bytes_lem (text dir) (text name) (ltb→lt _ _ fits)))
        | inr long ↦ rw long refl
      ])

-- Terminating a text early.
pub text-set_zero :
    (s : List ℕ) (i : ℕ) → i ≤ length (text s) → i < length s → text (set s i 0) ≡ take i (text s)
text-set_zero [] i h k = absurd (omega arith)
text-set_zero (c ∷ s) zero h k = refl
text-set_zero (c ∷ s) (suc i) h k = ground (arith, text-set_zero s i)

-- Extending a text by one character over its terminator.
pub text-set_end :
    (s : List ℕ) (c n : ℕ)
    → c ≢ 0
    → n ≡ length (text s)
    → suc n < length s
    → text (set (set s n c) (suc n) 0) ≡ text s ++ (c ∷ [])
text-set_end [] c n h e k = absurd (omega arith)
text-set_end (x ∷ []) c zero h e k = absurd (omega arith)
text-set_end (x ∷ y ∷ s) c zero h e k = ground arith
text-set_end (x ∷ s) c (suc n) h e k = ground (arith, text-set_end s c n)

last_slash-lt :
    (dir : List ℕ) (n i : ℕ) → last_slash dir n ≡ some i → (i < n) × (get_or dir i 0 ≡ b'\\')
unfolding last_slash
last_slash-lt dir zero i e = ground arith
last_slash-lt dir (suc n) i e = ground (arith, last_slash-lt dir n i)

-- What CD leaves of the current directory when it goes up, and that it fits.
parent_dir_cases :
    (dir : List ℕ) (o : Option ℕ)
    → last_slash dir (length (text dir) - 1) ≡ o
    → 3 < length (text dir)
    → length (text dir) < length dir
    → (parent_dir dir ≡ dir)
      ⊎ ((i : ℕ) × (get_or dir i 0 ≡ b'\\')
          × (i + 1 < length (text dir))
          × (length (parent_dir dir) ≡ length dir)
          × (text (parent_dir dir) ≡ take (i + 1) (text dir)))
unfolding parent_dir
parent_dir_cases dir none e h k = inl (rw (str_len-eq-length dir, e) (ground arith))
parent_dir_cases dir (some i) e h k =
    let l = last_slash-lt dir (length (text dir) - 1) i e in
    inr (
      i,
      l.1,
      omega arith,
      rw (str_len-eq-length dir, e, lt→ltb _ _ h) (length-set dir (i + 1) 0),
      rw (str_len-eq-length dir, e, lt→ltb _ _ h)
          (text-set_zero dir (i + 1) (omega arith) (omega arith)),
    )

-- CD up never makes the current directory longer.
pub parent_dir-le :
    (dir : List ℕ)
    → length (text dir) < length dir
    → (length (parent_dir dir) ≡ length dir) × (length (text (parent_dir dir)) ≤ length (text dir))
unfolding parent_dir
parent_dir-le dir h = elim (Bool-cases (ltb 3 (length (text dir)))) [
  | inr short ↦ rw (str_len-eq-length dir, short) (omega arith)
  | inl long ↦
      let c =
        parent_dir_cases dir (last_slash dir (length (text dir) - 1)) refl (ltb→lt _ _ long) h in
      fits (parent_dir dir) c
]
  where
    fits :
        (new : List ℕ)
        → (new ≡ dir)
          ⊎ ((i : ℕ) × (get_or dir i 0 ≡ b'\\')
              × (i + 1 < length (text dir))
              × (length new ≡ length dir)
              × (text new ≡ take (i + 1) (text dir)))
        → (length new ≡ length dir) × (length (text new) ≤ length (text dir))
    fits new (inl e) = rw e (omega arith)
    fits new (inr (i, _, l, n, t)) = (n, omega (arith, ap length t, length-take (i + 1) (text dir)))

-- CD into a directory whose path has at most 254 characters leaves the path in the buffer, ended by
-- a `\`.
pub enter_dir_lem :
    (dir path : List ℕ)
    → length dir ≡ 256
    → length (text path) ≤ 254
    → (length (enter_dir dir path) ≡ 256)
      × ((text (enter_dir dir path) ≡ text path)
          ⊎ (text (enter_dir dir path) ≡ text path ++ (b'\\' ∷ [])))
unfolding enter_dir
enter_dir_lem dir path h k =
    let c = str_copy_lem dir path 256 (omega arith) (omega arith) in
    let e = take-all 255 (text path) (omega arith) in
    let n = str_len-eq-length (str_copy dir path 256) in
    ground (
      arith,
      c,
      e,
      n,
      ap length c.1,
      ap length e,
      length-set (set (str_copy dir path 256) (str_len (str_copy dir path 256)) b'\\')
          (str_len (str_copy dir path 256) + 1) 0,
      length-set (str_copy dir path 256) (str_len (str_copy dir path 256)) b'\\',
      text-set_end (str_copy dir path 256) b'\\' (str_len (str_copy dir path 256)),
      add-one (str_len (str_copy dir path 256)),
    )

pub enter_dir-le :
    (dir path : List ℕ)
    → length dir ≡ 256
    → length (text path) ≤ 254
    → (length (enter_dir dir path) ≡ 256)
      × (length (text (enter_dir dir path)) ≤ length (text path) + 1)
enter_dir-le dir path h k =
    let (l, t) = enter_dir_lem dir path h k in
    (
      l,
      elim t [
        | inl e ↦ omega (arith, ap length e)
        | inr e ↦ omega (arith, ap length e, length-append (text path) (b'\\' ∷ []))
      ],
    )
