-- ===== src/Ata.antt =====
-- The disk driver of src/drivers/ata.c. The ports of the machine are a parameter; 256 words of data are
-- a list of 512 bytes.
pub mod Drive
pub mod Blocks
pub mod Saving
mod Examples
mod Handlers
mod Protocol
pub mod Reading
mod Tests
use ro_dos.Prelude.{
  ℕ, zero, suc, ◌+◌, ◌*◌, ◌/◌, ◌%◌, ◌^◌, Bool, true, not, ◌&&◌, ◌||◌, List, [], ◌++◌, ◌==◌,
  if◌then◌else◌, take, drop,
}
use ro_dos.Prelude.Int.{ℤ, pos, is_zero, minus_one}

-- What the drivers do with the ports. `insw` and `outsw` transfer a number of 16-bit words, which are
-- lists of bytes here.
pub record PortIo : Type 1 where
  pub Dev : Type 0
  pub inb : ℕ → Dev → ℕ × Dev
  pub outb : ℕ → ℕ → Dev → Dev
  pub insw : ℕ → ℕ → Dev → List ℕ × Dev
  pub outsw : ℕ → List ℕ → Dev → Dev

-- The static variables of src/drivers/ata.c.
pub record Ata : Type 0 where
  pub ata_initialized : Bool
  pub ata_base : ℕ
  pub ata_ctrl : ℕ
  pub ata_drive : ℕ

-- The bits of the status: ATA_SR_BSY, ATA_SR_DRQ and ATA_SR_ERR.
abbrev pub is_busy : ℕ → Bool
is_busy status = status / 128 % 2 == 1

abbrev pub wants_data : ℕ → Bool
wants_data status = status / 8 % 2 == 1

abbrev pub has_error : ℕ → Bool
has_error status = status % 2 == 1

-- 0xE0 | (ata_drive << 4) | ((lba >> 24) & 0x0F)
abbrev pub drive_select : ℕ → ℕ → ℕ
drive_select drive lba = 0xE0 + drive * 16 + lba / 2 ^ 24 % 16

module _ (io : PortIo) where
  unfoldable pub ata_delay : ℕ → io.Dev → io.Dev
  ata_delay ctrl d = (io.inb ctrl (io.inb ctrl (io.inb ctrl (io.inb ctrl d).1).1).1).1

  -- `timeout` is the number of rounds left.
  unfoldable pub ata_wait_ready : ℕ → ℕ → io.Dev → ℤ × io.Dev
  ata_wait_ready zero base d = (minus_one, d)
  ata_wait_ready (suc timeout) base d =
      let r = io.inb (base + 7) d in
      let rest = ata_wait_ready timeout base r.1 in if is_busy r.0 then rest else (pos 0, r.1)

  unfoldable pub ata_wait_drq : ℕ → ℕ → io.Dev → ℤ × io.Dev
  ata_wait_drq zero base d = (minus_one, d)
  ata_wait_drq (suc timeout) base d =
      let r = io.inb (base + 7) d in
      let rest = ata_wait_drq timeout base r.1 in
      if has_error r.0
      then (minus_one, r.1)
      else if not (is_busy r.0) && wants_data r.0
      then (pos 0, r.1)
      else rest

  -- Sets and clears SRST.
  unfoldable pub soft_reset : ℕ → io.Dev → io.Dev
  soft_reset ctrl d = ata_delay ctrl (io.outb ctrl 0 (ata_delay ctrl (io.outb ctrl 4 d)))

  -- The status is that of no drive.
  abbrev pub is_absent : ℕ → Bool
  is_absent status = status == 0 || status == 0xFF

  -- Selects the master, or else the slave, on a bus that is ready.
  unfoldable pub select_drive : Ata → io.Dev → ℤ × (Ata × io.Dev)
  select_drive s d =
      let r = io.inb (s.ata_base + 7) (ata_delay s.ata_ctrl (io.outb (s.ata_base + 6) 0xA0 d)) in
      let q = io.inb (s.ata_base + 7) (ata_delay s.ata_ctrl (io.outb (s.ata_base + 6) 0xB0 r.1)) in
      if is_absent r.0
      then (if is_absent q.0
          then (minus_one, (record s { ata_drive = 1 }, q.1))
          else (pos 0, (record s { ata_drive = 1; ata_initialized = true }, q.1)))
      else (pos 0, (record s { ata_initialized = true }, r.1))

  unfoldable pub ata_init : Ata → io.Dev → ℤ × (Ata × io.Dev)
  ata_init s d =
      let first = ata_wait_ready 100000 s.ata_base (soft_reset s.ata_ctrl d) in
      let t = record s { ata_base = 0x170; ata_ctrl = 0x376 } in
      let second = ata_wait_ready 100000 0x170 (soft_reset 0x376 first.1) in
      if s.ata_initialized
      then (pos 0, (s, d))
      else if is_zero first.0
      then select_drive s first.1
      else if is_zero second.0
      then select_drive t second.1
      else (minus_one, (t, second.1))

  -- The writes of the registers and of a command.
  unfoldable pub send_command : ℕ → ℕ → ℕ → Ata → io.Dev → io.Dev
  send_command command lba count s d =
      let base = s.ata_base in
      let selected = ata_delay s.ata_ctrl (io.outb (base + 6) (drive_select s.ata_drive lba) d) in
      io.outb (base + 7) command (
        io.outb (base + 5) (lba / 2 ^ 16 % 256) (
          io.outb (base + 4) (lba / 256 % 256)
            (io.outb (base + 3) (lba % 256) (io.outb (base + 2) count selected))))

  -- The bytes of the sectors that were read, in order.
  unfoldable pub read_loop : ℕ → Ata → io.Dev → ℤ × (List ℕ × io.Dev)
  read_loop zero s d = (pos 0, ([], d))
  read_loop (suc count) s d =
      let w = ata_wait_drq 100000 s.ata_base d in
      let r = io.insw s.ata_base 256 w.1 in
      let rest = read_loop count s (ata_delay s.ata_ctrl r.1) in
      if is_zero w.0 then (rest.0, (r.0 ++ rest.1.0, rest.1.1)) else (minus_one, ([], w.1))

  -- With the driver set up.
  unfoldable pub read_ready : ℕ → ℕ → Ata → io.Dev → ℤ × (List ℕ × io.Dev)
  read_ready lba count s d =
      let w = ata_wait_ready 100000 s.ata_base d in
      if count == 0
      then (minus_one, ([], d))
      else if is_zero w.0
      then read_loop count s (send_command 0x20 lba count s w.1)
      else (minus_one, ([], w.1))

  unfoldable pub ata_read_sectors : ℕ → ℕ → Ata → io.Dev → (ℤ × (List ℕ × io.Dev)) × Ata
  ata_read_sectors lba count s d =
      let i = ata_init s d in
      if is_zero i.0
      then (read_ready lba count i.1.0 i.1.1, i.1.0)
      else ((minus_one, ([], i.1.1)), i.1.0)

  -- The sectors of 512 bytes that are left to be written.
  unfoldable pub write_loop : ℕ → List ℕ → Ata → io.Dev → ℤ × io.Dev
  write_loop zero bytes s d = (pos 0, d)
  write_loop (suc count) bytes s d =
      let w = ata_wait_drq 100000 s.ata_base d in
      let sent = ata_delay s.ata_ctrl (io.outsw s.ata_base (take 512 bytes) w.1) in
      let done = ata_wait_ready 100000 s.ata_base sent in
      let rest = write_loop count (drop 512 bytes) s done.1 in
      if is_zero w.0
      then (if is_zero done.0 then rest else (minus_one, done.1))
      else (minus_one, w.1)

  -- With the driver set up. The last wait does not matter for the result.
  unfoldable pub write_ready : ℕ → ℕ → List ℕ → Ata → io.Dev → ℤ × io.Dev
  write_ready lba count bytes s d =
      let w = ata_wait_ready 100000 s.ata_base d in
      let r = write_loop count bytes s (send_command 0x30 lba count s w.1) in
      if count == 0
      then (minus_one, d)
      else if is_zero w.0
      then (if is_zero r.0
          then (pos 0, (ata_wait_ready 100000 s.ata_base (io.outb (s.ata_base + 7) 0xE7 r.1)).1)
          else r)
      else (minus_one, w.1)

  unfoldable pub ata_write_sectors : ℕ → ℕ → List ℕ → Ata → io.Dev → (ℤ × io.Dev) × Ata
  ata_write_sectors lba count bytes s d =
      let i = ata_init s d in
      if is_zero i.0
      then (write_ready lba count bytes i.1.0 i.1.1, i.1.0)
      else ((minus_one, i.1.1), i.1.0)
