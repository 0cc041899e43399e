-- ===== src/Scrollback.antt =====
-- src/scrollback.c: the lines that scrolled off the screen, and the view of them. The text page of
-- the video memory is 25 rows of 80 cells, and a row is copied whole. The C numbers are int32_t and
-- uint32_t; while the state is valid none of them is negative or wraps, and the model has them in ℕ.
pub mod History
pub mod View
mod Tests
use ro_dos.Prelude.{
  ℕ, zero, suc, ◌+◌, ◌-◌, ◌*◌, ◌%◌, Bool, true, false, ◌&&◌, Option, none, some, List, [], ◌∷◌, ltb,
  leb, ◌==◌, if◌then◌else◌, set, get_or, replicate,
}

abbrev pub scrollback_lines : ℕ
scrollback_lines = 500

abbrev pub screen_height : ℕ
screen_height = 25

-- The static variables, and the text page.
pub record Scrollback : Type 0 where
  pub buffer : List (List ℕ)
  pub write_pos : ℕ
  pub count : ℕ
  pub offset : ℕ
  pub saved_screen : List (List ℕ)
  pub screen_saved : Bool
  pub screen : List (List ℕ)

unfoldable pub save_current_screen : Scrollback → Scrollback
save_current_screen s =
    if s.screen_saved then s else record s { saved_screen = s.screen; screen_saved = true }

unfoldable pub restore_saved_screen : Scrollback → Scrollback
restore_saved_screen s =
    if s.screen_saved then record s { screen = s.saved_screen; screen_saved = false } else s

-- The row goes to `scrollback_buffer[write_pos]`, and the two counters move on.
unfoldable pub push_line : List ℕ → Scrollback → Scrollback
push_line row s = record s {
  buffer = set s.buffer s.write_pos row;
  write_pos = (s.write_pos + 1) % scrollback_lines;
  count = if ltb s.count scrollback_lines then s.count + 1 else s.count;
}

unfoldable pub scrollback_capture_line : Scrollback → Scrollback
unfolding push_line
scrollback_capture_line s = push_line (get_or s.screen 0 []) s

-- `(at << 8) | ch` at the column `x`. Without a text a cell is blank, and without attributes it has
-- the attribute 7.
abbrev cell : Option (List ℕ) → Option (List ℕ) → ℕ → ℕ
cell line attrs x =
    let at : ℕ = elim attrs [ none ↦ 7 | some a ↦ get_or a x 0 ] in
    let ch : ℕ = elim line [ none ↦ b' ' | some l ↦ get_or l x 0 ] in at * 256 + ch

-- The cells of a line from the column `x` on.
abbrev cells : ℕ → Option (List ℕ) → Option (List ℕ) → ℕ → List ℕ
cells zero line attrs x = []
cells (suc n) line attrs x = cell line attrs x ∷ cells n line attrs (x + 1)

unfoldable pub scrollback_save_line : Option (List ℕ) → Option (List ℕ) → Scrollback → Scrollback
unfolding push_line
scrollback_save_line line attrs s = push_line (cells 80 line attrs 0) s

-- The index in the buffer of the line `line_idx`, counted from the oldest.
abbrev pub buf_idx : Scrollback → ℕ → ℕ
buf_idx s line_idx = (s.write_pos + scrollback_lines - s.count + line_idx) % scrollback_lines

abbrev empty_row : List ℕ
empty_row = replicate 80 0x0720

-- What the row `y` of the screen gets; `now` is what it has.
unfoldable pub view_row : Scrollback → ℕ → List ℕ → List ℕ
view_row s y now =
    if ltb (s.count + y) s.offset
    then empty_row
    else (let line_idx = s.count + y - s.offset in
        if ltb line_idx s.count
        then get_or s.buffer (buf_idx s line_idx) []
        else (let screen_y = line_idx - s.count in
            if ltb screen_y screen_height && s.screen_saved
            then get_or s.saved_screen screen_y []
            else now))

-- The rows from `y` on, for the rows of the screen that are left.
unfoldable pub view_rows : Scrollback → ℕ → List (List ℕ) → List (List ℕ)
view_rows s y [] = []
view_rows s y (row ∷ rows) = view_row s y row ∷ view_rows s (y + 1) rows

-- The arrows at the right edge.
abbrev mark : ℕ → ℕ → List (List ℕ) → List (List ℕ)
mark y cell rows = set rows y (set (get_or rows y []) 79 cell)

unfoldable pub scrollback_redraw : Scrollback → Scrollback
scrollback_redraw s =
    if s.count == 0
    then s
    else (let rows = view_rows s 0 s.screen in
        record s {
          screen =
              if ltb 0 s.offset
              then mark 24 (0x4E00 + b'v') (mark 0 (0x4E00 + b'^') rows)
              else rows;
        })

unfoldable pub scrollback_scroll_up : Scrollback → Scrollback
unfolding save_current_screen scrollback_redraw
scrollback_scroll_up s =
    if s.count == 0
    then s
    else (let t = if s.offset == 0 then save_current_screen s else s in
        if ltb t.offset t.count
        then scrollback_redraw
            (record t { offset = if ltb t.count (t.offset + 5) then t.count else t.offset + 5 })
        else t)

unfoldable pub scrollback_scroll_down : Scrollback → Scrollback
unfolding restore_saved_screen scrollback_redraw
scrollback_scroll_down s =
    if ltb 0 s.offset
    then (if leb s.offset 5
        then restore_saved_screen (record s { offset = 0 })
        else scrollback_redraw (record s { offset = s.offset - 5 }))
    else s

unfoldable pub scrollback_reset : Scrollback → Scrollback
unfolding restore_saved_screen
scrollback_reset s = if ltb 0 s.offset then restore_saved_screen (record s { offset = 0 }) else s

unfoldable pub scrollback_is_active : Scrollback → Bool
scrollback_is_active s = ltb 0 s.offset
