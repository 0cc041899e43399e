-- ===== src/Shell/Typing.antt =====
-- The text that is typed at src/shell.c reaches the commands.
use mathlib.Core.List.{append_assoc, append-nil}
use mathlib.Core.Path.{ap₂}
use ro_dos.Text.{str_upper, str_len}
use ro_dos.Prelude.{
  ℕ, zero, suc, ◌+◌, ◌-◌, ◌≤◌, ◌<◌, ◌≡◌, refl, sym, ap, ◌∙◌, true, false, ◌&&◌, Option, none, some,
  List, [], ◌∷◌, ◌++◌, map, arith, ltb, leb, ◌==◌, if◌then◌else◌, lt→ltb, length, set, get_or,
  replicate, length-append, if-both,
}
use ro_dos.Shell.{
  history_size, is_blank, add_history, Shell, Key, Typed, more, over, plain_key, type_key,
  type_keys, run_line, new_line, shell_round, str_trim, trim_from,
}
use ro_dos.Array.{pad}

-- The key of a character.
abbrev pub key_of : ℕ → Key
key_of c = record { key = c; scan = 0 }

abbrev pub enter : Key
enter = key_of 13

-- Characters that can be typed.
abbrev pub AllPrintable : List ℕ → Type 0
AllPrintable [] = Unit {0}
AllPrintable (c ∷ l) = (32 ≤ c) × (c ≤ 126) × AllPrintable l

set-pad : (l : List ℕ) (n c : ℕ) → length l < n → set (pad n l) (length l) c ≡ pad n (l ++ (c ∷ []))
set-pad l zero c h = absurd (omega arith)
set-pad [] (suc n) c h = refl
set-pad (x ∷ l) (suc n) c h = ap (λ r. x ∷ r) (set-pad l n c (omega arith))

-- A shell whose line is a text, in a buffer of `n` bytes.
abbrev pub says : ℕ → Shell → List ℕ → Shell
says n s l = record s { line = pad n l; pos = length l }

printable_key :
    (c : ℕ) (s : Shell)
    → 32 ≤ c
    → c ≤ 126
    → s.pos < 255
    → type_key (key_of c) s ≡ more (record s { line = set s.line s.pos c; pos = s.pos + 1 })
unfolding type_key plain_key
printable_key c s low high room = ground arith

typed_lem :
    (n : ℕ) (l rest : List ℕ) (keys : List Key) (s : Shell)
    → AllPrintable rest
    → length l + length rest ≤ 255
    → length l + length rest < n
    → type_keys (map key_of rest ++ keys) (says n s l) ≡ type_keys keys (says n s (l ++ rest))
unfolding type_keys
typed_lem n l [] keys s v h m = ap (λ x. type_keys keys (says n s x)) (sym (append-nil l))
typed_lem n l (c ∷ rest) keys s v h m =
    ap (λ t. elim t [ more u ↦ type_keys (map key_of rest ++ keys) u | over u ↦ over u ])
      (printable_key c (says n s l) v.0 v.1 (omega (arith, h)))
    ∙ ap₂ (λ a b. type_keys (map key_of rest ++ keys) (record s { line = a; pos = b }))
        (set-pad l n c (omega (arith, m))) (sym (length-append l (c ∷ [])))
    ∙ typed_lem n (l ++ (c ∷ [])) rest keys s v.2 (omega (arith, h, length-append l (c ∷ [])))
        (omega (arith, m, length-append l (c ∷ [])))
    ∙ ap (λ x. type_keys keys (says n s x)) (append_assoc l (c ∷ []) rest)

pad-nil : (n : ℕ) → replicate n 0 ≡ pad n []
pad-nil zero = refl
pad-nil (suc n) = ap (λ l. 0 ∷ l) (pad-nil n)

pad-zero : (n : ℕ) (l : List ℕ) → pad n (l ++ (0 ∷ [])) ≡ pad n l
pad-zero zero l = refl
pad-zero (suc n) [] = refl
pad-zero (suc n) (c ∷ l) = ap (λ r. c ∷ r) (pad-zero n l)

enter_lem :
    (n : ℕ) (l : List ℕ) (s : Shell)
    → length l < n
    → type_keys (enter ∷ []) (says n s l) ≡ over (says n s l)
unfolding type_keys type_key plain_key
enter_lem n l s h =
    ap (λ r. over (record s { line = r; pos = length l })) (set-pad l n 0 h ∙ pad-zero n l)

line_lem :
    (n : ℕ) (l : List ℕ) (s : Shell)
    → AllPrintable l
    → length l ≤ 255
    → length l < n
    → type_keys (map key_of l ++ (enter ∷ [])) (record s { line = replicate n 0; pos = 0 })
      ≡ over (says n s l)
line_lem n l s v h m =
    ap (λ r. type_keys (map key_of l ++ (enter ∷ [])) (record s { line = r; pos = 0 })) (pad-nil n)
    ∙ typed_lem n [] l (enter ∷ []) s v (omega (arith, h)) (omega (arith, m))
    ∙ enter_lem n l s m

-- What a round makes of the keys.
abbrev finish : Typed → Option (Option (List ℕ) × Shell)
finish t = elim t [ more u ↦ none | over u ↦ some (run_line u) ]

str_len-pad : (n : ℕ) (l : List ℕ) → AllPrintable l → length l < n → str_len (pad n l) ≡ length l
unfolding str_len
str_len-pad zero l v h = absurd (omega arith)
str_len-pad (suc n) [] v h = refl
str_len-pad (suc n) (c ∷ l) v h = ground (arith, v.0, str_len-pad n l v.2)

str_upper-pad :
    (n : ℕ) (l : List ℕ) → AllPrintable l → length l < n → str_upper (pad n l) ≡ pad n (str_upper l)
unfolding str_upper
str_upper-pad zero l v h = absurd (omega arith)
str_upper-pad (suc n) [] v h = refl
str_upper-pad (suc n) (c ∷ l) v h =
    let e : (c == 0) ≡ false = ground (arith, v.0) in
    rw e (
      ap (λ r. (if leb b'a' c && leb c b'z' then c - 32 else c) ∷ r)
        (str_upper-pad n l v.2 (omega arith)))

get_or-pad :
    (n : ℕ) (front : List ℕ) (c : ℕ)
    → length front < n
    → get_or (pad n (front ++ (c ∷ []))) (length front) 0 ≡ c
get_or-pad zero front c h = absurd (omega arith)
get_or-pad (suc n) [] c h = refl
get_or-pad (suc n) (x ∷ front) c h = get_or-pad n front c (omega arith)

-- A text that ends in no blank is not trimmed.
str_trim-pad :
    (n : ℕ) (front : List ℕ) (c : ℕ)
    → AllPrintable (front ++ (c ∷ []))
    → 32 < c
    → length (front ++ (c ∷ [])) < n
    → str_trim (pad n (front ++ (c ∷ []))) ≡ pad n (front ++ (c ∷ []))
unfolding str_trim trim_from
str_trim-pad n front c v b h =
    let l = front ++ (c ∷ []) in
    let size : str_len (pad n l) ≡ suc (length front) =
      str_len-pad n l v h ∙ omega (arith, length-append front (c ∷ [])) in
    let visible : is_blank c ≡ false = ground arith in
    ap (λ k. trim_from k (pad n l)) size
    ∙ rw (get_or-pad n front c (omega (arith, h, length-append front (c ∷ []))), visible) refl

add_history-line : (s : Shell) → (add_history s).line ≡ s.line
unfolding add_history
add_history-line s =
    if-both (λ (u : Shell). u.line ≡ s.line) (ltb s.history_count history_size) refl refl

run_visible :
    (s : Shell) (l : List ℕ)
    → str_trim s.line ≡ l
    → 0 < str_len l
    → (run_line s).0 ≡ some (str_upper l)
unfolding run_line
run_visible s l e h =
    let visible : ltb 0 (str_len (str_trim s.line)) ≡ true =
      ap (λ r. ltb 0 (str_len r)) e ∙ lt→ltb 0 (str_len l) h in
    rw visible
      (ap (λ r. some (str_upper r)) (add_history-line (record s { line = str_trim s.line }) ∙ e))

run_lem :
    (n : ℕ) (front : List ℕ) (c : ℕ) (s : Shell)
    → AllPrintable (front ++ (c ∷ []))
    → 32 < c
    → length (front ++ (c ∷ [])) < n
    → (run_line (says n s (front ++ (c ∷ [])))).0 ≡ some (pad n (str_upper (front ++ (c ∷ []))))
run_lem n front c s v b h =
    let l = front ++ (c ∷ []) in
    run_visible (says n s l) (pad n l) (str_trim-pad n front c v b h)
      (omega (arith, str_len-pad n l v h, length-append front (c ∷ [])))
    ∙ ap some (str_upper-pad n l v h)

round_lem :
    (l : List ℕ) (s : Shell)
    → AllPrintable l
    → length l ≤ 255
    → shell_round (map key_of l ++ (enter ∷ [])) s ≡ some (run_line (says 256 s l))
unfolding shell_round new_line
round_lem l s v h = ap finish (line_lem 256 l s v h (omega arith))

-- A text of at most 255 printable characters, the last of which is no space, that is typed and ended
-- with Enter is handed to the commands in upper case, with zeros behind it.
pub shell_round-typed :
    (front : List ℕ) (c : ℕ) (s : Shell)
    → AllPrintable (front ++ (c ∷ []))
    → 32 < c
    → length (front ++ (c ∷ [])) ≤ 255
    → (t : Shell) × (shell_round (map key_of (front ++ (c ∷ [])) ++ (enter ∷ [])) s
        ≡ some (some (pad 256 (str_upper (front ++ (c ∷ [])))), t))
shell_round-typed front c s v b h =
    let l = front ++ (c ∷ []) in
    let r = run_line (says 256 s l) in
    (r.1, round_lem l s v h ∙ ap (λ o. some (o, r.1)) (run_lem 256 front c s v b (omega arith)))
