-- ===== src/Scrollback/View.antt =====
-- Leaving the view of src/scrollback.c brings the screen back.
use ro_dos.Prelude.{
  ℕ, ◌+◌, ◌-◌, ◌<◌, ◌≡◌, refl, ◌∙◌, ◌⊎◌, inl, inr, true, false, List, [], ◌∷◌, arith, ltb,
  if◌then◌else◌,
}
use ro_dos.Scrollback.{
  Scrollback, scrollback_scroll_up, scrollback_scroll_down, scrollback_reset, scrollback_redraw,
  save_current_screen, restore_saved_screen,
}

-- The two keys that scroll.
pub data Move : Type 0 where
  up : Move
  down : Move

-- The keys one after the other.
abbrev pub scroll : List Move → Scrollback → Scrollback
scroll [] s = s
scroll (up ∷ moves) s = scroll moves (scrollback_scroll_up s)
scroll (down ∷ moves) s = scroll moves (scrollback_scroll_down s)

-- The live screen is `screen`: it is shown, or it is saved behind the view of older lines.
abbrev Shows : List (List ℕ) → Scrollback → Type 0
Shows screen s =
    ((s.offset ≡ 0) × (s.screen ≡ screen) × (s.screen_saved ≡ false))
    ⊎ ((0 < s.offset) × (s.saved_screen ≡ screen) × (s.screen_saved ≡ true))

-- A redraw keeps what is saved.
redraw_saved :
    (s : Scrollback)
    → ((scrollback_redraw s).offset ≡ s.offset)
      × ((scrollback_redraw s).saved_screen ≡ s.saved_screen)
      × ((scrollback_redraw s).screen_saved ≡ s.screen_saved)
unfolding scrollback_redraw
redraw_saved s = ground arith

redraw-Shows :
    (screen : List (List ℕ)) (s : Scrollback)
    → 0 < s.offset
    → s.saved_screen ≡ screen
    → s.screen_saved ≡ true
    → Shows screen (scrollback_redraw s)
redraw-Shows screen s h e f = let r = redraw_saved s in inr (omega (arith, r.0), r.1 ∙ e, r.2 ∙ f)

scroll_up-Shows :
    (screen : List (List ℕ)) (s : Scrollback)
    → Shows screen s
    → Shows screen (scrollback_scroll_up s)
unfolding scrollback_scroll_up save_current_screen
scroll_up-Shows screen s h = elim h [
  | inl (live, same, none_saved) ↦
      let saved = record s { saved_screen = s.screen; screen_saved = true } in
      let top = record saved {
        offset = if ltb s.count (s.offset + 5) then s.count else s.offset + 5;
      } in
      ground (arith, live, same, none_saved, redraw-Shows screen top)
  | inr (away, same, is_saved) ↦
      let top = record s {
        offset = if ltb s.count (s.offset + 5) then s.count else s.offset + 5;
      } in
      ground (arith, away, same, is_saved, redraw-Shows screen top)
]

scroll_down-Shows :
    (screen : List (List ℕ)) (s : Scrollback)
    → Shows screen s
    → Shows screen (scrollback_scroll_down s)
unfolding scrollback_scroll_down restore_saved_screen
scroll_down-Shows screen s h = elim h [
  | inl (live, same, none_saved) ↦ ground (arith, live, same, none_saved)
  | inr (away, same, is_saved) ↦
      ground (arith, away, same, is_saved, redraw-Shows screen (record s { offset = s.offset - 5 }))
]

scroll-Shows :
    (moves : List Move) (screen : List (List ℕ)) (s : Scrollback)
    → Shows screen s
    → Shows screen (scroll moves s)
scroll-Shows [] screen s h = h
scroll-Shows (up ∷ moves) screen s h =
    scroll-Shows moves screen (scrollback_scroll_up s) (scroll_up-Shows screen s h)
scroll-Shows (down ∷ moves) screen s h =
    scroll-Shows moves screen (scrollback_scroll_down s) (scroll_down-Shows screen s h)

-- Whatever keys scroll the view, from the live screen on, a reset ends it: the offset is 0, and the
-- screen is what it was.
pub reset-scroll :
    (moves : List Move) (s : Scrollback)
    → s.offset ≡ 0
    → s.screen_saved ≡ false
    → ((scrollback_reset (scroll moves s)).offset ≡ 0)
      × ((scrollback_reset (scroll moves s)).screen ≡ s.screen)
unfolding scrollback_reset restore_saved_screen
reset-scroll moves s live none_saved =
    let t = scroll moves s in
    elim (scroll-Shows moves s.screen s (inl (live, refl, none_saved))) [
      | inl h ↦ ground arith
      | inr h ↦ ground arith
    ]
