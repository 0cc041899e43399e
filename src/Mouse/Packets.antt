-- ===== src/Mouse/Packets.antt =====
-- How src/drivers/mouse.c cuts the bytes of the mouse into packets.
use ro_dos.Prelude.{
  ℕ, ◌-◌, ◌/◌, ◌%◌, ◌≡◌, refl, ap, ◌∙◌, inl, inr, Bool, true, false, List, [], ◌∷◌, ◌++◌, arith,
  ltb, ◌==◌, if◌then◌else◌, Bool-cases, length, set,
}
use ro_dos.Prelude.Int.{ltb_ℤ, negsuc, pos, ℤ, ◌+ℤ◌, ◌-ℤ◌}
use ro_dos.Mouse.{Mouse, clamp, end_packet, poll_byte, poll_bytes, mouse_poll, has_bit, delta}

-- A packet: the status with bit 3, and the two moves. Before it come bytes without bit 3, which no
-- packet starts with.
pub record Packet : Type 0 where
  pub noise : List ℕ
  pub status : ℕ
  pub right : ℕ
  pub up : ℕ

abbrev pub AllNoise : List ℕ → Type 0
AllNoise [] = Unit {0}
AllNoise (b ∷ bytes) = ((b / 8 % 2 == 1) ≡ false) × AllNoise bytes

abbrev pub IsPacket : Packet → Type 0
IsPacket p = AllNoise p.noise × ((p.status / 8 % 2 == 1) ≡ true)

abbrev pub AllPackets : List Packet → Type 0
AllPackets [] = Unit {0}
AllPackets (p ∷ ps) = IsPacket p × AllPackets ps

abbrev pub bytes_of : List Packet → List ℕ
bytes_of [] = []
bytes_of (p ∷ ps) = p.noise ++ (p.status ∷ p.right ∷ p.up ∷ bytes_of ps)

-- What the screen shows of a mouse.
pub record Pointer : Type 0 where
  pub x : ℤ
  pub y : ℤ
  pub left : Bool
  pub right : Bool

abbrev pub pointer : Mouse → Pointer
pointer m = record { x = m.mouse_x; y = m.mouse_y; left = m.mouse_left; right = m.mouse_right }

-- A move in two's complement, or none when it overflowed.
abbrev pub shift : Bool → ℕ → ℤ
shift true b = pos 0
shift false b = if ltb b 128 then pos b else negsuc (255 - b)

-- The nearest place on a screen of a size.
abbrev pub nearest : ℤ → ℤ → ℤ
nearest size (pos n) = if ltb_ℤ (pos n) size then pos n else size -ℤ pos 1
nearest size (negsuc n) = if ltb_ℤ (pos 0) size then pos 0 else size -ℤ pos 1

-- The pointer after a packet, on a screen of a size: bits 6 and 7 of the status are the overflows, bits
-- 0 and 1 the buttons.
abbrev pub moved : ℤ → ℤ → Packet → Pointer → Pointer
moved w h p q = record {
  x = nearest w (q.x +ℤ shift (p.status / 64 % 2 == 1) p.right);
  y = nearest h (q.y -ℤ shift (p.status / 128 % 2 == 1) p.up);
  left = p.status % 2 == 1;
  right = p.status / 2 % 2 == 1;
}

abbrev pub moved_by : ℤ → ℤ → List Packet → Pointer → Pointer
moved_by w h [] q = q
moved_by w h (p ∷ ps) q = moved_by w h ps (moved w h p q)

-- The driver waits for a packet, with the three bytes of its buffer in place.
abbrev pub IsWaiting : Mouse → Type 0
IsWaiting m = (m.mouse_packet_idx ≡ 0) × (length m.mouse_packet ≡ 3)

-- The two cuts of `clamp`, after the first was decided.
cut : ℤ → ℤ → Bool → ℤ
cut size z negative =
    let low : ℤ = if negative then pos 0 else z in if ltb_ℤ low size then low else size -ℤ pos 1

clamp-nearest : (size z : ℤ) → clamp size z ≡ nearest size z
unfolding clamp cut
clamp-nearest size (pos n) =
    let inside : ltb_ℤ (pos n) (pos 0) ≡ false = ground arith in ap (cut size (pos n)) inside
clamp-nearest size (negsuc n) =
    let left_of : ltb_ℤ (negsuc n) (pos 0) ≡ true = ground arith in ap (cut size (negsuc n)) left_of

delta-shift : (overflow status n : ℕ) → delta overflow status n ≡ shift (has_bit overflow status) n
delta-shift overflow status n = elim (Bool-cases (has_bit overflow status)) [
  | inl e ↦ rw e refl
  | inr e ↦ rw e refl
]

-- What the code makes of a packet.
abbrev ended : ℤ → ℤ → Packet → Pointer → Pointer
ended w h p q = record {
  x = clamp w (q.x +ℤ delta 6 p.status p.right);
  y = clamp h (q.y -ℤ delta 7 p.status p.up);
  left = has_bit 0 p.status;
  right = has_bit 1 p.status;
}

ended-moved : (w h : ℤ) (p : Packet) (q : Pointer) → ended w h p q ≡ moved w h p q
ended-moved w h p q =
    let button : has_bit 0 p.status ≡ (p.status % 2 == 1) = ap (λ n. n % 2 == 1) (omega arith) in
    let place_x : clamp w (q.x +ℤ delta 6 p.status p.right)
        ≡ nearest w (q.x +ℤ shift (has_bit 6 p.status) p.right) =
      clamp-nearest w _ ∙ ap (λ v. nearest w (q.x +ℤ v)) (delta-shift 6 p.status p.right) in
    let place_y : clamp h (q.y -ℤ delta 7 p.status p.up)
        ≡ nearest h (q.y -ℤ shift (has_bit 7 p.status) p.up) =
      clamp-nearest h _ ∙ ap (λ v. nearest h (q.y -ℤ v)) (delta-shift 7 p.status p.up) in
    ap (λ v. record (ended w h p q) { x = v }) place_x
    ∙ ap
        (λ v. record (ended w h p q) {
          x = nearest w (q.x +ℤ shift (has_bit 6 p.status) p.right);
          y = v;
        })
        place_y
    ∙ ap (λ b. record (moved w h p q) { left = b }) button

noise_byte : (b : ℕ) (m : Mouse) → m.mouse_packet_idx ≡ 0 → has_bit 3 b ≡ false → poll_byte b m ≡ m
unfolding poll_byte
noise_byte b m e h = ground arith

noise_lem :
    (noise rest : List ℕ) (m : Mouse)
    → AllNoise noise
    → m.mouse_packet_idx ≡ 0
    → poll_bytes (noise ++ rest) m ≡ poll_bytes rest m
unfolding poll_bytes
noise_lem [] rest m a e = refl
noise_lem (b ∷ noise) rest m a e =
    ap (poll_bytes (noise ++ rest)) (noise_byte b m e a.0) ∙ noise_lem noise rest m a.1 e

status_byte :
    (b : ℕ) (m : Mouse)
    → m.mouse_packet_idx ≡ 0
    → has_bit 3 b ≡ true
    → poll_byte b m ≡ record m { mouse_packet = set m.mouse_packet 0 b; mouse_packet_idx = 1 }
unfolding poll_byte
status_byte b m e h = ground arith

-- The three bytes of a packet.
packet_lem :
    (p : Packet) (rest : List ℕ) (m : Mouse)
    → has_bit 3 p.status ≡ true
    → IsWaiting m
    → (u : Mouse) × (poll_bytes (p.status ∷ p.right ∷ p.up ∷ rest) m ≡ poll_bytes rest u)
      × IsWaiting u
      × (pointer u ≡ moved m.mouse_limit_w m.mouse_limit_h p (pointer m))
      × (u.mouse_limit_w ≡ m.mouse_limit_w)
      × (u.mouse_limit_h ≡ m.mouse_limit_h)
unfolding poll_bytes poll_byte end_packet
packet_lem p rest m s w = three m.mouse_packet refl w.1
  where
    three :
        (buffer : List ℕ)
        → m.mouse_packet ≡ buffer
        → length buffer ≡ 3
        → (u : Mouse) × (poll_bytes (p.status ∷ p.right ∷ p.up ∷ rest) m ≡ poll_bytes rest u)
          × IsWaiting u
          × (pointer u ≡ moved m.mouse_limit_w m.mouse_limit_h p (pointer m))
          × (u.mouse_limit_w ≡ m.mouse_limit_w)
          × (u.mouse_limit_h ≡ m.mouse_limit_h)
    three [] e n = absurd (omega (arith, n))
    three (a ∷ []) e n = absurd (omega (arith, n))
    three (a ∷ b ∷ []) e n = absurd (omega (arith, n))
    three (a ∷ b ∷ c ∷ d ∷ l) e n = absurd (omega (arith, n))
    three (a ∷ b ∷ c ∷ []) e n = (
      end_packet (record m { mouse_packet = p.status ∷ p.right ∷ p.up ∷ []; mouse_packet_idx = 0 }),
      rw (status_byte p.status m w.0 s, e) refl,
      (refl, refl),
      ended-moved m.mouse_limit_w m.mouse_limit_h p (pointer m),
      refl,
      refl,
    )

packets_lem :
    (ps : List Packet) (m : Mouse) (w h : ℤ) (q : Pointer)
    → AllPackets ps
    → IsWaiting m
    → m.mouse_limit_w ≡ w
    → m.mouse_limit_h ≡ h
    → pointer m ≡ q
    → pointer (poll_bytes (bytes_of ps) m) ≡ moved_by w h ps q
unfolding poll_bytes
packets_lem [] m w h q a wait ew eh eq = eq
packets_lem (p ∷ ps) m w h q a wait ew eh eq =
    let rest = p.status ∷ p.right ∷ p.up ∷ bytes_of ps in
    let (u, run, next, now, same_w, same_h) = packet_lem p (bytes_of ps) m a.0.1 wait in
    ap pointer (noise_lem p.noise rest m a.0.0 wait.0 ∙ run)
    ∙ packets_lem ps u w h (moved w h p q) a.1 next (same_w ∙ ew) (same_h ∙ eh)
        (now ∙ step m.mouse_limit_w m.mouse_limit_h (pointer m) ew eh eq)
  where
    step : (w0 h0 : ℤ) (q0 : Pointer) → w0 ≡ w → h0 ≡ h → q0 ≡ q → moved w0 h0 p q0 ≡ moved w h p q
    step w0 h0 q0 a b c = rw (a, b, c) refl

-- When the driver is set up and waits for a packet, the bytes of any packets, each with noise in front
-- of it, move the pointer packet by packet: each adds its two moves, of which an overflow bit drops
-- one, cut to the screen, and sets the buttons.
pub mouse_poll-packets :
    (ps : List Packet) (m : Mouse)
    → AllPackets ps
    → IsWaiting m
    → m.mouse_initialized ≡ true
    → pointer (mouse_poll (bytes_of ps) m) ≡ moved_by m.mouse_limit_w m.mouse_limit_h ps (pointer m)
unfolding mouse_poll
mouse_poll-packets ps m a w i =
    ap (λ b. pointer (if b then poll_bytes (bytes_of ps) m else m)) i
    ∙ packets_lem ps m m.mouse_limit_w m.mouse_limit_h (pointer m) a w refl refl refl
