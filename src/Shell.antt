-- ===== src/Shell.antt =====
-- src/shell.c: the command line. What the screen shows, the start of the system and the command itself
-- are left out: a line that is entered gives the text that is handed to `cmd_dispatch`. The loops of
-- `str_len` and `strupr` are those of src/commands.c.
pub mod Keys
pub mod Typing
pub mod History
mod Tests
use ro_dos.Prelude.{
  ℕ, zero, suc, ◌+◌, ◌-◌, Bool, ◌&&◌, ◌||◌, Option, none, some, List, [], ◌∷◌, ◌++◌, ltb, leb, ◌==◌,
  if◌then◌else◌, length, set, get_or, take, replicate,
}
use ro_dos.Array.{overlay}
use ro_dos.Text.{str_len, str_upper, text}

abbrev pub max_input : ℕ
max_input = 256

abbrev pub history_size : ℕ
history_size = 20

-- The static variables, and the local ones of `shell_main`.
pub record Shell : Type 0 where
  pub line : List ℕ
  pub pos : ℕ
  pub history : List (List ℕ)
  pub history_count : ℕ
  pub history_pos : ℕ

-- The two bytes of what `c_getkey` answers.
pub record Key : Type 0 where
  pub key : ℕ
  pub scan : ℕ

-- line[i] = h[i] while h[i] and i < 255, and a 0 behind.
unfoldable pub copy_line : List ℕ → List ℕ → List ℕ
copy_line line h = overlay (take 255 (text h) ++ (0 ∷ [])) line

-- The line of the history at `history_pos` becomes the line.
unfoldable pub recall : ℕ → Shell → Shell
unfolding copy_line
recall at s =
    let h = get_or s.history at [] in
    record s { line = copy_line s.line h; pos = length (take 255 (text h)); history_pos = at }

unfoldable pub up_arrow : Shell → Shell
unfolding recall
up_arrow s = if ltb 0 s.history_count then recall (s.history_pos - 1) s else s

unfoldable pub down_arrow : Shell → Shell
unfolding recall
down_arrow s =
    if ltb 0 s.history_count && ltb (s.history_pos + 1) s.history_count
    then recall (s.history_pos + 1) s
    else s

-- Whether the line goes on or is over.
pub data Typed : Type 0 where
  more : Shell → Typed
  over : Shell → Typed

-- The keys behind the special ones.
unfoldable pub plain_key : ℕ → Shell → Typed
plain_key key s =
    if key == 13 || key == 10
    then over (record s { line = set s.line s.pos 0 })
    else if key == 3
    then over (record s { pos = 0 })
    else if key == 8
    then more (record s { pos = s.pos - 1 })
    else if ltb s.pos 255 && (leb 32 key && leb key 126)
    then more (record s { line = set s.line s.pos key; pos = s.pos + 1 })
    else more s

-- One round of the loop over the keys.
unfoldable pub type_key : Key → Shell → Typed
unfolding up_arrow down_arrow plain_key
type_key k s =
    if k.key == 0 && k.scan == 0x48
    then more (up_arrow s)
    else if k.key == 0 && k.scan == 0x50
    then more (down_arrow s)
    else if k.key == 0 && (k.scan == 0x49 || k.scan == 0x51)
    then more s
    else plain_key k.key s

-- The keys of a line; without an end the shell still waits.
unfoldable pub type_keys : List Key → Shell → Typed
unfolding type_key
type_keys [] s = more s
type_keys (k ∷ keys) s = elim (type_key k s) [ more t ↦ type_keys keys t | over t ↦ over t ]

abbrev pub is_blank : ℕ → Bool
is_blank c = (c == b' ' || c == 9) || (c == 10 || c == 13)

-- while (len > 0 && blank(s[len-1])) s[--len] = '\0'
unfoldable pub trim_from : ℕ → List ℕ → List ℕ
trim_from zero s = s
trim_from (suc n) s =
    let rest = trim_from n (set s n 0) in if is_blank (get_or s n 0) then rest else s

unfoldable pub str_trim : List ℕ → List ℕ
unfolding trim_from str_len
str_trim s = trim_from (str_len s) s

-- for (i = 0; i < 19; i++) history[i] = history[i + 1]: the last row stays.
abbrev pub shift_up : List (List ℕ) → List (List ℕ)
shift_up [] = []
shift_up (row ∷ []) = row ∷ []
shift_up (row ∷ next ∷ rows) = next ∷ shift_up (next ∷ rows)

unfoldable pub add_history : Shell → Shell
unfolding copy_line
add_history s =
    if ltb s.history_count history_size
    then record s {
      history =
          set s.history s.history_count (copy_line (get_or s.history s.history_count []) s.line);
      history_count = s.history_count + 1;
      history_pos = s.history_count + 1;
    }
    else (let shifted = shift_up s.history in
        record s {
          history = set shifted 19 (copy_line (get_or shifted 19 []) s.line);
          history_pos = s.history_count;
        })

-- What `cmd_dispatch` is called with, if the line is not blank.
unfoldable pub run_line : Shell → Option (List ℕ) × Shell
unfolding str_trim add_history str_upper
run_line s =
    let t = record s { line = str_trim s.line } in
    if ltb 0 (str_len t.line)
    then (let u = add_history t in (some (str_upper u.line), record u { line = str_upper u.line }))
    else (none, t)

-- The start of a line.
unfoldable pub new_line : Shell → Shell
new_line s = record s { line = replicate 256 0; pos = 0 }

-- One round of the loop of `shell_main`; `none` means that the shell still waits for keys.
unfoldable pub shell_round : List Key → Shell → Option (Option (List ℕ) × Shell)
unfolding type_keys run_line new_line
shell_round keys s = elim (type_keys keys (new_line s)) [
  | more t ↦ none
  | over t ↦ some (run_line t)
]
