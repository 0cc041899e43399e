-- ===== src/Shell/History.antt =====
-- The history of src/shell.c holds the last lines.
use native.Mathlib.Numerals.{add-one}
use ro_dos.Prelude.{
  ℕ, zero, suc, ◌+◌, ◌-◌, ◌≤◌, ◌<◌, ◌≡◌, refl, sym, ap, ◌∙◌, inl, inr, List, [], ◌∷◌, ◌++◌, map,
  arith, ltb, ◌==◌, Bool-cases, length, set, get_or, take, drop, length-append, length-take,
  length-drop, length-map, take-all,
}
use ro_dos.Shell.{Shell, add_history, copy_line, shift_up, history_size}
use ro_dos.Array.{overlay}
use ro_dos.Array.Slots.{take-set_end}
use ro_dos.Text.{text}

-- What the live rows of the history say, the oldest first.
abbrev pub held : Shell → List (List ℕ)
held s = map text (take s.history_count s.history)

-- The last 20 elements of a list.
abbrev pub last_20 : List (List ℕ) → List (List ℕ)
last_20 l = drop (length l - 20) l

text-copied :
    (n : ℕ) (l row : List ℕ)
    → n < length row
    → text (overlay (take n (text l) ++ (0 ∷ [])) row) ≡ take n (text l)
text-copied n l [] h = absurd (omega arith)
text-copied zero l (r ∷ row) h = refl
text-copied (suc n) [] (r ∷ row) h = refl
text-copied (suc n) (c ∷ l) (r ∷ row) h = elim (Bool-cases (c == 0)) [
  | inl e ↦ rw e refl
  | inr e ↦ rw e (rw e (ap (λ x. c ∷ x) (text-copied n l row (omega arith))))
]

map-append : (xs ys : List (List ℕ)) → map text (xs ++ ys) ≡ map text xs ++ map text ys
map-append [] ys = refl
map-append (x ∷ xs) ys = ap (λ l. text x ∷ l) (map-append xs ys)

shift_up-set :
    (h : List (List ℕ)) (n : ℕ) (row : List ℕ)
    → length h ≡ n + 1
    → set (shift_up h) n row ≡ drop 1 h ++ (row ∷ [])
shift_up-set [] n row e = absurd (omega (arith, e))
shift_up-set (x ∷ []) zero row e = refl
shift_up-set (x ∷ []) (suc n) row e = absurd (omega (arith, e))
shift_up-set (x ∷ y ∷ h) zero row e = absurd (omega (arith, e))
shift_up-set (x ∷ y ∷ h) (suc n) row e =
    ap (λ l. y ∷ l) (shift_up-set (y ∷ h) n row (omega (arith, e)))

get_or-shift_up :
    (h : List (List ℕ)) (n : ℕ) → length h ≡ n + 1 → get_or (shift_up h) n [] ≡ get_or h n []
get_or-shift_up [] n e = absurd (omega (arith, e))
get_or-shift_up (x ∷ []) zero e = refl
get_or-shift_up (x ∷ []) (suc n) e = absurd (omega (arith, e))
get_or-shift_up (x ∷ y ∷ h) zero e = absurd (omega (arith, e))
get_or-shift_up (x ∷ y ∷ h) (suc n) e = get_or-shift_up (y ∷ h) n (omega (arith, e))

map-drop : (n : ℕ) (xs : List (List ℕ)) → map text (drop n xs) ≡ drop n (map text xs)
map-drop zero xs = refl
map-drop (suc n) [] = refl
map-drop (suc n) (x ∷ xs) = map-drop n xs

drop_one-append : (xs ys : List (List ℕ)) → 0 < length xs → drop 1 (xs ++ ys) ≡ drop 1 xs ++ ys
drop_one-append [] ys h = absurd (omega arith)
drop_one-append (x ∷ xs) ys h = refl

-- The history of 20 rows of 256 bytes.
pub record IsHistory (s : Shell) : Type 0 where
  pub rows : length s.history ≡ history_size
  pub sizes : (i : ℕ) → i < history_size → length (get_or s.history i []) ≡ 256
  pub few : s.history_count ≤ history_size

length-held : (s : Shell) → IsHistory s → length (held s) ≡ s.history_count
length-held s v = omega (
  arith,
  length-map (take s.history_count s.history) text,
  length-take s.history_count s.history,
  v.rows,
  v.few,
)

-- A line that is added to the history is kept behind the others, cut to 255 bytes, and of more than 20
-- lines the oldest is dropped.
pub held-add_history :
    (s : Shell)
    → IsHistory s
    → held (add_history s) ≡ last_20 (held s ++ (take 255 (text s.line) ∷ []))
unfolding add_history copy_line
held-add_history s v = elim (Bool-cases (ltb s.history_count history_size)) [
  | inl room ↦
      (let l : s.history_count < history_size = ground arith in
        let short : 0 ≡ length (held s ++ (said ∷ [])) - 20 =
          omega (arith, length-append (held s) (said ∷ []), length-held s v) in
        rw room (added l ∙ ap (λ k. drop k (held s ++ (said ∷ []))) short))
  | inr full ↦
      (let l : s.history_count ≡ history_size = ground (arith, v.few) in rw full (shifted l))
]
  where
    said : List ℕ
    said = take 255 (text s.line)

    put : List ℕ → List ℕ
    put row = overlay (said ++ (0 ∷ [])) row

    added :
        s.history_count < history_size
        → map text (
            take
              (s.history_count + 1)
              (set s.history s.history_count (put (get_or s.history s.history_count []))))
          ≡ drop 0 (held s ++ (said ∷ []))
    added l =
        ap
          (λ k.
            map text
              (take k (set s.history s.history_count (put (get_or s.history s.history_count [])))))
          (add-one s.history_count)
        ∙ ap (map text) (
            take-set_end s.history s.history_count (put (get_or s.history s.history_count []))
              (omega (arith, v.rows)))
        ∙ map-append (take s.history_count s.history)
            (put (get_or s.history s.history_count []) ∷ [])
        ∙ ap (λ x. held s ++ (x ∷ []))
            (text-copied 255 s.line (get_or s.history s.history_count [])
              (omega (arith, v.sizes s.history_count l)))

    last_text : (row : List ℕ) → row ≡ put (get_or (shift_up s.history) 19 []) → text row ≡ said
    last_text row e =
        ap text e
        ∙ text-copied 255 s.line (get_or (shift_up s.history) 19 []) (
            rw (get_or-shift_up s.history 19 (omega (arith, v.rows)))
              (omega (arith, v.sizes 19 (omega arith))))

    shifted :
        s.history_count ≡ history_size
        → map text (
            take s.history_count
              (set (shift_up s.history) 19 (put (get_or (shift_up s.history) 19 []))))
          ≡ last_20 (held s ++ (said ∷ []))
    shifted l =
        let last = put (get_or (shift_up s.history) 19 []) in
        let moved = shift_up-set s.history 19 last (omega (arith, v.rows)) in
        let all : take s.history_count s.history ≡ s.history =
          take-all s.history_count s.history (omega (arith, l, v.rows)) in
        let one : 1 ≡ length (held s ++ (said ∷ [])) - 20 =
          omega (arith, l, length-append (held s) (said ∷ []), length-held s v) in
        ap (λ x. map text (take s.history_count x)) moved
        ∙ ap (map text) (
            take-all s.history_count (drop 1 s.history ++ (last ∷ [])) (
              omega (
                arith,
                l,
                v.rows,
                length-append (drop 1 s.history) (last ∷ []),
                length-drop 1 s.history,
              )))
        ∙ map-append (drop 1 s.history) (last ∷ [])
        ∙ ap (λ x. map text (drop 1 s.history) ++ (x ∷ [])) (last_text last refl)
        ∙ ap (λ x. x ++ (said ∷ []))
            (map-drop 1 s.history ∙ ap (λ x. drop 1 (map text x)) (sym all))
        ∙ sym (drop_one-append (held s) (said ∷ []) (omega (arith, l, length-held s v)))
        ∙ ap (λ k. drop k (held s ++ (said ∷ []))) one
