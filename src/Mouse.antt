-- ===== src/Mouse.antt =====
-- src/drivers/mouse.c: the PS/2 mouse. The bytes that `c_mouse_read` gives until it answers -1 are a
-- list. An int of the driver is an integer here: with limits below 2^31 - 128 none of them wraps.
pub mod Bounds
pub mod Packets
mod Tests
use ro_dos.Prelude.{
  ℕ, zero, suc, ◌-◌, ◌/◌, ◌%◌, ◌^◌, Bool, true, false, List, [], ◌∷◌, ◌++◌, ltb, ◌==◌,
  if◌then◌else◌, set, get_or,
}
use ro_dos.Prelude.Int.{ℤ, pos, negsuc, ◌+ℤ◌, ◌-ℤ◌, ltb_ℤ}

-- The static variables.
pub record Mouse : Type 0 where
  pub mouse_x : ℤ
  pub mouse_y : ℤ
  pub mouse_left : Bool
  pub mouse_right : Bool
  pub mouse_initialized : Bool
  pub mouse_limit_w : ℤ
  pub mouse_limit_h : ℤ
  pub mouse_packet : List ℕ
  pub mouse_packet_idx : ℕ

-- (int8_t)b
abbrev pub int8 : ℕ → ℤ
int8 b = if ltb b 128 then pos b else negsuc (255 - b)

-- status & (1 << k), as a test
abbrev pub has_bit : ℕ → ℕ → Bool
has_bit k status = status / 2 ^ k % 2 == 1

-- if (z < 0) z = 0; if (z >= limit) z = limit - 1;
unfoldable pub clamp : ℤ → ℤ → ℤ
clamp limit z =
    let low : ℤ = if ltb_ℤ z (pos 0) then pos 0 else z in
    if ltb_ℤ low limit then low else limit -ℤ pos 1

-- `dx` and `dy`, of the packet that is complete.
abbrev pub delta : ℕ → ℕ → ℕ → ℤ
delta overflow status moved = if has_bit overflow status then pos 0 else int8 moved

-- What a complete packet does.
unfoldable pub end_packet : Mouse → Mouse
unfolding clamp
end_packet m =
    let status = get_or m.mouse_packet 0 0 in
    let dx = delta 6 status (get_or m.mouse_packet 1 0) in
    let dy = delta 7 status (get_or m.mouse_packet 2 0) in
    record m {
      mouse_left = has_bit 0 status;
      mouse_right = has_bit 1 status;
      mouse_x = clamp m.mouse_limit_w (m.mouse_x +ℤ dx);
      mouse_y = clamp m.mouse_limit_h (m.mouse_y -ℤ dy);
    }

-- One round of the loop of `mouse_poll`, for a byte that was read.
unfoldable pub poll_byte : ℕ → Mouse → Mouse
unfolding end_packet
poll_byte b m =
    if m.mouse_packet_idx == 0
    then (if has_bit 3 b
        then record m { mouse_packet = set m.mouse_packet 0 b; mouse_packet_idx = 1 }
        else m)
    else if m.mouse_packet_idx == 1
    then record m { mouse_packet = set m.mouse_packet 1 b; mouse_packet_idx = 2 }
    else end_packet (record m { mouse_packet = set m.mouse_packet 2 b; mouse_packet_idx = 0 })

unfoldable pub poll_bytes : List ℕ → Mouse → Mouse
unfolding poll_byte
poll_bytes [] m = m
poll_bytes (b ∷ bytes) m = poll_bytes bytes (poll_byte b m)

unfoldable pub mouse_poll : List ℕ → Mouse → Mouse
unfolding poll_bytes
mouse_poll bytes m = if m.mouse_initialized then poll_bytes bytes m else m

unfoldable pub mouse_set_bounds : ℤ → ℤ → Mouse → Mouse
mouse_set_bounds width height m = record m {
  mouse_limit_w = width;
  mouse_limit_h = height;
  mouse_x = if ltb_ℤ m.mouse_x width then m.mouse_x else width -ℤ pos 1;
  mouse_y = if ltb_ℤ m.mouse_y height then m.mouse_y else height -ℤ pos 1;
}

-- The port and the value of an `outb`.
abbrev pub Write : Type 0
Write = ℕ × ℕ

abbrev mouse_cmd : ℕ → List Write
mouse_cmd cmd = (0x64, 0xD4) ∷ (0x60, cmd) ∷ []

-- z <= 0 ? d : z
abbrev pub or_default : ℤ → ℕ → ℕ
or_default (pos zero) d = d
or_default (pos (suc n)) d = suc n
or_default (negsuc n) d = d

-- The writes, and the state afterwards, with the size that the graphics driver answers. The bytes that
-- the mouse sends meanwhile are dropped by the code.
unfoldable pub mouse_init : ℤ → ℤ → Mouse → List Write × Mouse
mouse_init width height m = if m.mouse_initialized then ([], m) else (
  ((0x64, 0xA8) ∷ (0x64, 0x20) ∷ (0x64, 0x60) ∷ (0x60, 0x47) ∷ [])
      ++ (mouse_cmd 0xFF ++ (mouse_cmd 0xF6 ++ mouse_cmd 0xF4)),
  record m {
    mouse_initialized = true;
    mouse_limit_w = pos (or_default width 320);
    mouse_limit_h = pos (or_default height 200);
    mouse_x = pos (or_default width 320 / 2);
    mouse_y = pos (or_default height 200 / 2);
  },
)

-- The values that the static variables start with.
abbrev pub mouse_start : Mouse
mouse_start = record {
  mouse_x = pos 160;
  mouse_y = pos 100;
  mouse_left = false;
  mouse_right = false;
  mouse_initialized = false;
  mouse_limit_w = pos 320;
  mouse_limit_h = pos 200;
  mouse_packet = 0 ∷ 0 ∷ 0 ∷ [];
  mouse_packet_idx = 0;
}
