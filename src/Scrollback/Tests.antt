-- ===== src/Scrollback/Tests.antt =====
-- A screen that is captured, scrolled and brought back.
use ro_dos.Scrollback.History.{line_at-capture, line_at, IsValid}
use ro_dos.Prelude.{ℕ, ◌+◌, ◌-◌, ◌<◌, ◌≡◌, refl, false, List, [], ◌∷◌, arith, get_or, replicate}
use ro_dos.Scrollback.{
  save_current_screen, scrollback_redraw, scrollback_scroll_up, Scrollback, scrollback_capture_line,
  scrollback_reset,
}
use ro_dos.Scrollback.View.{reset-scroll, up, down, scroll}

abbrev page : List (List ℕ)
page = (b'a' ∷ replicate 79 0) ∷ replicate 24 (replicate 80 0)

abbrev fresh : Scrollback
fresh = record {
  buffer = replicate 500 (replicate 80 0);
  write_pos = 0;
  count = 0;
  offset = 0;
  saved_screen = replicate 25 (replicate 80 0);
  screen_saved = false;
  screen = page;
}

fresh-IsValid : IsValid fresh
fresh-IsValid = record { lines = refl; pos_inside = omega arith; count_inside = omega arith }

abbrev one_line : Scrollback
one_line = record fresh { write_pos = 1; count = 1 }

scroll_runs : (scroll (up ∷ []) one_line).offset ≡ 1
unfolding scrollback_scroll_up scrollback_redraw save_current_screen
scroll_runs = refl

line_at-capture_example :
    (line_at (scrollback_capture_line fresh) ((scrollback_capture_line fresh).count - 1)
      ≡ get_or fresh.screen 0 [])
    × (fresh.count < 500
        → ((scrollback_capture_line fresh).count ≡ fresh.count + 1)
          × ((k : ℕ)
              → k < fresh.count
              → line_at (scrollback_capture_line fresh) k ≡ line_at fresh k))
    × (fresh.count ≡ 500
        → ((scrollback_capture_line fresh).count ≡ 500)
          × ((k : ℕ) → k < 499 → line_at (scrollback_capture_line fresh) k ≡ line_at fresh (k + 1)))
line_at-capture_example = line_at-capture fresh fresh-IsValid

reset-scroll_example :
    ((scrollback_reset (scroll (up ∷ up ∷ down ∷ []) one_line)).offset ≡ 0)
    × ((scrollback_reset (scroll (up ∷ up ∷ down ∷ []) one_line)).screen ≡ one_line.screen)
reset-scroll_example = reset-scroll (up ∷ up ∷ down ∷ []) one_line refl refl
