-- ===== src/Shell/Keys.antt =====
-- The line of src/shell.c: what is typed stays in its buffer, and reaches the commands.
use ro_dos.Text.{str_len, str_upper, text}
use ro_dos.Prelude.{
  ℕ, zero, suc, ◌+◌, ◌-◌, ◌≤◌, ◌<◌, ◌≡◌, refl, ap, ◌∙◌, inl, inr, ◌&&◌, ◌||◌, Option, none, some,
  List, [], ◌∷◌, arith, ltb, leb, ◌==◌, Bool-cases, length, set, get_or, length-set, length-take,
  length-replicate, if-both,
}
use ro_dos.Shell.{
  is_blank, Shell, Key, Typed, more, over, recall, up_arrow, down_arrow, plain_key, type_key,
  type_keys, run_line, new_line, shell_round, history_size, max_input, add_history, str_trim,
  trim_from, copy_line,
}
use ro_dos.Array.Pad.{length-overlay}

-- The buffer of the line has 256 bytes, the position is in it, and the history counts at most 20 lines.
pub record IsShell (s : Shell) : Type 0 where
  pub size : length s.line ≡ max_input
  pub inside : s.pos < max_input
  pub few : s.history_count ≤ history_size
  pub place : s.history_pos ≤ s.history_count

abbrev pub IsTyped : Typed → Type 0
IsTyped (more s) = IsShell s
IsTyped (over s) = IsShell s

recall-IsShell : (at : ℕ) (s : Shell) → at ≤ s.history_count → IsShell s → IsShell (recall at s)
unfolding recall copy_line
recall-IsShell at s h v = record {
  size = length-overlay _ s.line ∙ v.size;
  inside = omega (arith, length-take 255 (text (get_or s.history at [])));
  few = v.few;
  place = h;
}

up-IsShell : (s : Shell) → IsShell s → IsShell (up_arrow s)
unfolding up_arrow
up-IsShell s v =
    if-both IsShell (ltb 0 s.history_count)
      (recall-IsShell (s.history_pos - 1) s (omega (arith, v.place)) v) v

down-IsShell : (s : Shell) → IsShell s → IsShell (down_arrow s)
unfolding down_arrow
down-IsShell s v =
    elim (Bool-cases (ltb 0 s.history_count && ltb (s.history_pos + 1) s.history_count)) [
      | inl e ↦ rw e (recall-IsShell (s.history_pos + 1) s (ground arith) v)
      | inr e ↦ rw e v
    ]

plain-IsTyped : (key : ℕ) (s : Shell) → IsShell s → IsTyped (plain_key key s)
unfolding plain_key
plain-IsTyped key s v =
    if-both IsTyped (key == 13 || key == 10)
      (record {
        size = length-set s.line s.pos 0 ∙ v.size;
        inside = v.inside;
        few = v.few;
        place = v.place;
      })
      (if-both IsTyped (key == 3)
        (record { size = v.size; inside = omega arith; few = v.few; place = v.place })
        (if-both IsTyped (key == 8)
          (record { size = v.size; inside = omega (arith, v.inside); few = v.few; place = v.place })
          (elim (Bool-cases (ltb s.pos 255 && (leb 32 key && leb key 126))) [
            | inl e ↦ rw e (record {
              size = length-set s.line s.pos key ∙ v.size;
              inside = ground arith;
              few = v.few;
              place = v.place;
            })
            | inr e ↦ rw e v
          ])))

key-IsTyped : (k : Key) (s : Shell) → IsShell s → IsTyped (type_key k s)
unfolding type_key
key-IsTyped k s v = if-both IsTyped (k.key == 0 && k.scan == 0x48) (up-IsShell s v) (
    if-both IsTyped (k.key == 0 && k.scan == 0x50) (down-IsShell s v) (
      if-both IsTyped (k.key == 0 && (k.scan == 0x49 || k.scan == 0x51)) v
        (plain-IsTyped k.key s v)))

-- Whatever keys are pressed, an arrow key among them, each of them leaves the position within the
-- buffer of 256 bytes and the place in the history within its lines.
pub type_keys-IsTyped : (keys : List Key) (s : Shell) → IsShell s → IsTyped (type_keys keys s)
unfolding type_keys
type_keys-IsTyped [] s v = v
type_keys-IsTyped (k ∷ keys) s v =
    go (type_key k s) (key-IsTyped k s v) (λ u w. type_keys-IsTyped keys u w)
  where
    go :
        (t : Typed)
        → IsTyped t
        → ((u : Shell) → IsShell u → IsTyped (type_keys keys u))
        → IsTyped (elim t [ more u ↦ type_keys keys u | over u ↦ over u ])
    go (more u) w f = f u w
    go (over u) w f = w

length-trim_from : (n : ℕ) (s : List ℕ) → length (trim_from n s) ≡ length s
unfolding trim_from
length-trim_from zero s = refl
length-trim_from (suc n) s =
    if-both (λ (r : List ℕ). length r ≡ length s) (is_blank (get_or s n 0))
      (length-trim_from n (set s n 0) ∙ length-set s n 0) refl

length-str_upper : (s : List ℕ) → length (str_upper s) ≡ length s
unfolding str_upper
length-str_upper [] = refl
length-str_upper (c ∷ s) =
    if-both (λ (r : List ℕ). length r ≡ suc (length s)) (c == 0) refl (ap suc (length-str_upper s))

add-IsShell : (s : Shell) → IsShell s → IsShell (add_history s)
unfolding add_history
add-IsShell s v = elim (Bool-cases (ltb s.history_count history_size)) [
  | inl e ↦
      rw e (record { size = v.size; inside = v.inside; few = ground arith; place = omega arith })
  | inr e ↦ rw e (record { size = v.size; inside = v.inside; few = v.few; place = omega arith })
]

upper-IsShell : (s : Shell) → IsShell s → IsShell (record s { line = str_upper s.line })
upper-IsShell s v = record {
  size = length-str_upper s.line ∙ v.size;
  inside = v.inside;
  few = v.few;
  place = v.place;
}

run_line-IsShell : (s : Shell) → IsShell s → IsShell (run_line s).1
unfolding run_line str_trim
run_line-IsShell s v =
    let t = record s { line = str_trim s.line } in
    let w : IsShell t = record {
      size = length-trim_from (str_len s.line) s.line ∙ v.size;
      inside = v.inside;
      few = v.few;
      place = v.place;
    } in
    if-both (λ (r : Option (List ℕ) × Shell). IsShell r.1) (ltb 0 (str_len t.line))
      (upper-IsShell (add_history t) (add-IsShell t w)) w

new_line-IsShell : (s : Shell) → IsShell s → IsShell (new_line s)
unfolding new_line
new_line-IsShell s v = record {
  size = length-replicate {A = ℕ} 256 0;
  inside = omega arith;
  few = v.few;
  place = v.place;
}

-- The shell behind a round that is over.
abbrev pub AfterRound : Option (Option (List ℕ) × Shell) → Type 0
AfterRound none = Unit {0}
AfterRound (some r) = IsShell r.1

-- Whatever keys are pressed for a line, arrow keys, backspaces and Ctrl-C among them: behind the round
-- the line has its 256 bytes, the position is within them, the history counts at most 20 lines, and the
-- place in the history is at most their number.
pub shell_round-IsShell :
    (keys : List Key) (s : Shell) → IsShell s → AfterRound (shell_round keys s)
unfolding shell_round
shell_round-IsShell keys s v =
    ended (type_keys keys (new_line s)) (type_keys-IsTyped keys (new_line s) (new_line-IsShell s v))
  where
    ended :
        (t : Typed) → IsTyped t → AfterRound (elim t [ more u ↦ none | over u ↦ some (run_line u) ])
    ended (more u) w = tt
    ended (over u) w = run_line-IsShell u w
