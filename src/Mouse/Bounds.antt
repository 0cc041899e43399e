-- ===== src/Mouse/Bounds.antt =====
-- The pointer of src/drivers/mouse.c stays on the screen.
use ro_dos.Prelude.{
  if-both, ℕ, zero, suc, ◌/◌, ◌≡◌, refl, true, false, List, [], ◌∷◌, arith, ltb, ◌==◌,
  if◌then◌else◌, set, get_or,
}
use ro_dos.Prelude.Int.{ℤ, pos, negsuc, ◌+ℤ◌, ◌-ℤ◌, ltb_ℤ}
use ro_dos.Mouse.{
  has_bit, or_default, delta, Mouse, Write, clamp, end_packet, poll_byte, poll_bytes, mouse_poll,
  mouse_set_bounds, mouse_init,
}

-- A coordinate within a limit.
abbrev pub IsWithin : ℤ → ℤ → Type 0
IsWithin limit z = (ltb_ℤ z (pos 0) ≡ false) × (ltb_ℤ z limit ≡ true)

pub record IsOnScreen (m : Mouse) : Type 0 where
  pub within_w : IsWithin m.mouse_limit_w m.mouse_x
  pub within_h : IsWithin m.mouse_limit_h m.mouse_y

-- A limit that some coordinate is within is above 0, and the clamped coordinate is within it.
pub clamp-IsWithin : (limit z : ℤ) → ltb_ℤ (pos 0) limit ≡ true → IsWithin limit (clamp limit z)
unfolding clamp
clamp-IsWithin (pos n) (pos z) h = ground arith
clamp-IsWithin (pos n) (negsuc z) h = ground arith
clamp-IsWithin (negsuc n) z h = ground arith

limit-positive : (limit z : ℤ) → IsWithin limit z → ltb_ℤ (pos 0) limit ≡ true
limit-positive (pos n) (pos z) h = ground arith
limit-positive (pos n) (negsuc z) h = ground arith
limit-positive (negsuc n) (pos z) h = ground arith
limit-positive (negsuc n) (negsuc z) h = ground arith

abbrev dx : Mouse → ℤ
dx m = delta 6 (get_or m.mouse_packet 0 0) (get_or m.mouse_packet 1 0)

abbrev dy : Mouse → ℤ
dy m = delta 7 (get_or m.mouse_packet 0 0) (get_or m.mouse_packet 2 0)

end_packet-IsOnScreen : (m : Mouse) → IsOnScreen m → IsOnScreen (end_packet m)
unfolding end_packet
end_packet-IsOnScreen m v = record {
  within_w =
      clamp-IsWithin m.mouse_limit_w (m.mouse_x +ℤ dx m)
        (limit-positive m.mouse_limit_w m.mouse_x v.within_w);
  within_h =
      clamp-IsWithin m.mouse_limit_h (m.mouse_y -ℤ dy m)
        (limit-positive m.mouse_limit_h m.mouse_y v.within_h);
}

-- The bytes of the packet do not matter.
same :
    {m : Mouse} {bytes : List ℕ} {idx : ℕ}
    → IsOnScreen m
    → IsOnScreen (record m { mouse_packet = bytes; mouse_packet_idx = idx })
same v = record { within_w = v.within_w; within_h = v.within_h }

byte-IsOnScreen : (b : ℕ) (m : Mouse) → IsOnScreen m → IsOnScreen (poll_byte b m)
unfolding poll_byte
byte-IsOnScreen b m v =
    if-both IsOnScreen (m.mouse_packet_idx == 0) (if-both IsOnScreen (has_bit 3 b) (same v) v) (
      if-both IsOnScreen (m.mouse_packet_idx == 1) (same v) (
        end_packet-IsOnScreen
          (record m { mouse_packet = set m.mouse_packet 2 b; mouse_packet_idx = 0 }) (same v)))

bytes-IsOnScreen : (bytes : List ℕ) (m : Mouse) → IsOnScreen m → IsOnScreen (poll_bytes bytes m)
unfolding poll_bytes
bytes-IsOnScreen [] m v = v
bytes-IsOnScreen (b ∷ bytes) m v = bytes-IsOnScreen bytes (poll_byte b m) (byte-IsOnScreen b m v)

-- Whatever bytes the mouse sends, a pointer that is on the screen is on the screen after `mouse_poll`.
pub mouse_poll-IsOnScreen :
    (bytes : List ℕ) (m : Mouse) → IsOnScreen m → IsOnScreen (mouse_poll bytes m)
unfolding mouse_poll
mouse_poll-IsOnScreen bytes m v =
    if-both IsOnScreen m.mouse_initialized (bytes-IsOnScreen bytes m v) v

half-IsWithin :
    (z : ℤ) (d : ℕ) → ltb 0 d ≡ true → IsWithin (pos (or_default z d)) (pos (or_default z d / 2))
half-IsWithin (pos zero) d h = ground arith
half-IsWithin (pos (suc n)) d h = ground arith
half-IsWithin (negsuc n) d h = ground arith

pub init-IsOnScreen :
    (width height : ℤ) (m : Mouse) → IsOnScreen m → IsOnScreen (mouse_init width height m).1
unfolding mouse_init
init-IsOnScreen w h m v =
    if-both (λ (r : List Write × Mouse). IsOnScreen r.1) m.mouse_initialized v
      (record { within_w = half-IsWithin w 320 refl; within_h = half-IsWithin h 200 refl })

cut-IsWithin :
    (limit old z : ℤ)
    → ltb_ℤ (pos 0) limit ≡ true
    → IsWithin old z
    → IsWithin limit (if ltb_ℤ z limit then z else limit -ℤ pos 1)
cut-IsWithin (pos n) old (pos z) h w = ground arith
cut-IsWithin (pos n) old (negsuc z) h w = absurd (ground arith)
cut-IsWithin (negsuc n) old z h w = absurd (ground arith)

pub set_bounds-IsOnScreen :
    (width height : ℤ) (m : Mouse)
    → ltb_ℤ (pos 0) width ≡ true
    → ltb_ℤ (pos 0) height ≡ true
    → IsOnScreen m
    → IsOnScreen (mouse_set_bounds width height m)
unfolding mouse_set_bounds
set_bounds-IsOnScreen w h m p q v = record {
  within_w = cut-IsWithin w m.mouse_limit_w m.mouse_x p v.within_w;
  within_h = cut-IsWithin h m.mouse_limit_h m.mouse_y q v.within_h;
}
