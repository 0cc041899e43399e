-- ===== src/Scrollback/History.antt =====
-- The ring of src/scrollback.c keeps the last 500 lines.
use native.Mathlib.Decide.{dec_lt}
use ro_dos.Array.Slots.{get_or-set_self, get_or-set_ne}
use ro_dos.Prelude.{
  ℕ, ◌+◌, ◌-◌, ◌%◌, ◌≤◌, ◌<◌, ◌≡◌, refl, ◌∙◌, ◌≢◌, ◌⊎◌, inl, inr, List, [], arith, lt→ltb, length,
  get_or, length-set,
}
use ro_dos.Scrollback.{Scrollback, push_line, scrollback_capture_line, buf_idx}

-- The counters are inside the buffer.
pub record IsValid (s : Scrollback) : Type 0 where
  pub lines : length s.buffer ≡ 500
  pub pos_inside : s.write_pos < 500
  pub count_inside : s.count ≤ 500

pub capture-IsValid : (s : Scrollback) → IsValid s → IsValid (scrollback_capture_line s)
unfolding scrollback_capture_line push_line
capture-IsValid s v = record {
  lines = length-set s.buffer s.write_pos _ ∙ v.lines;
  pos_inside = omega arith;
  count_inside = ground (arith, v.count_inside);
}

-- The line `k` of the history, the oldest first.
abbrev pub line_at : Scrollback → ℕ → List ℕ
line_at s k = get_or s.buffer (buf_idx s k) []

-- The indices after a line went to `w`.
module _ (w c k : ℕ) (inside : w < 500) where
  newest : c < 500 → ((w + 1) % 500 + 500 - (c + 1) + (c + 1 - 1)) % 500 ≡ w
  newest h = omega arith

  older : c < 500 → k < c → ((w + 1) % 500 + 500 - (c + 1) + k) % 500 ≡ (w + 500 - c + k) % 500
  older h l = omega arith

  older_ne : c < 500 → k < c → w ≢ (w + 500 - c + k) % 500
  older_ne h l = omega arith

  newest_full : ((w + 1) % 500 + 500 - 500 + (500 - 1)) % 500 ≡ w
  newest_full = omega arith

  older_full : k < 499 → ((w + 1) % 500 + 500 - 500 + k) % 500 ≡ (w + 500 - 500 + (k + 1)) % 500
  older_full l = omega arith

  older_full_ne : k < 499 → w ≢ (w + 500 - 500 + (k + 1)) % 500
  older_full_ne l = omega arith

module _ (s : Scrollback) (v : IsValid s) where
  -- With the counters inside the buffer, capturing a line appends the top row of the screen to the history. While there are fewer than
  -- 500 lines each line keeps its index; after that the oldest goes and each other moves down by one.
  pub line_at-capture :
      (line_at (scrollback_capture_line s) ((scrollback_capture_line s).count - 1)
        ≡ get_or s.screen 0 [])
      × (s.count < 500
          → ((scrollback_capture_line s).count ≡ s.count + 1)
            × ((k : ℕ) → k < s.count → line_at (scrollback_capture_line s) k ≡ line_at s k))
      × (s.count ≡ 500
          → ((scrollback_capture_line s).count ≡ 500)
            × ((k : ℕ) → k < 499 → line_at (scrollback_capture_line s) k ≡ line_at s (k + 1)))
  unfolding scrollback_capture_line push_line
  line_at-capture = elim (lt_or_eq s.count v.count_inside) [
    | inl l ↦ rw (lt→ltb s.count 500 l) (
      rw (newest s.write_pos s.count 0 v.pos_inside l)
          (get_or-set_self s.buffer s.write_pos _ [] (omega (arith, v.lines))),
      (λ _. (
        refl,
        λ k h. rw (older s.write_pos s.count k v.pos_inside l h) (
            get_or-set_ne s.buffer s.write_pos _ _ []
              (older_ne s.write_pos s.count k v.pos_inside l h)),
      )),
      (λ e. absurd (omega arith)),
    )
    | inr e ↦ rw e (
      rw (newest_full s.write_pos 0 0 v.pos_inside)
          (get_or-set_self s.buffer s.write_pos _ [] (omega (arith, v.lines))),
      (λ l. absurd (omega arith)),
      (λ _. (
        refl,
        λ k h. rw (older_full s.write_pos 0 k v.pos_inside h) (
            get_or-set_ne s.buffer s.write_pos _ _ []
              (older_full_ne s.write_pos 0 k v.pos_inside h)),
      )),
    )
  ]
    where
      lt_or_eq : (n : ℕ) → n ≤ 500 → (n < 500) ⊎ (n ≡ 500)
      lt_or_eq n h = elim (dec_lt n 500) [ yes l ↦ inl l | no l ↦ inr (omega arith) ]
