-- ===== src/Ata/Drive.antt =====
-- A drive on the primary bus, for `disk_read_lba` and `disk_write_lba` of src/handlers.c.
use ro_dos.Prelude.{ℕ, suc, ◌+◌, ◌*◌, ◌/◌, ◌%◌, ◌^◌, ◌<◌, ◌≡◌, Bool, true, false, List, length}
use ro_dos.Ata.{PortIo, is_busy, wants_data, has_error}
use ro_dos.Fs.Disk.Simulation.{written}

-- The command to read (false) or to write (true) blocks.
abbrev pub command_of : Bool → ℕ
command_of false = 0x20
command_of true = 0x30

-- What a drive with some sectors is documented to do, in its states: `Idle`; `Selected` after the drive
-- register; `Serving` a command on one block, with some polls until it asks for data; and `Storing`,
-- with some polls until it is idle. It needs fewer than 99999 polls for a read and 999999 for a write.
pub record Drive (io : PortIo) : Type 1 where
  pub Idle : io.Dev → (ℕ → List ℕ) → Type 0
  pub Selected : ℕ → io.Dev → (ℕ → List ℕ) → Type 0
  pub Serving : Bool → ℕ → ℕ → io.Dev → (ℕ → List ℕ) → Type 0
  pub Storing : ℕ → io.Dev → (ℕ → List ℕ) → Type 0
  pub select :
      (head : ℕ) (d : io.Dev) (f : ℕ → List ℕ) → Idle d f → Selected head (io.outb 0x1F6 head d) f
  pub selected :
      (head : ℕ) (d : io.Dev) (f : ℕ → List ℕ)
      → Selected head d f
      → (is_busy (io.inb 0x1F7 d).0 ≡ false) × Selected head (io.inb 0x1F7 d).1 f
  pub start :
      (writes : Bool) (head lo mid hi : ℕ) (d : io.Dev) (f : ℕ → List ℕ)
      → head / 16 ≡ 0xE
      → Selected head d f
      → (polls : ℕ) × (polls < 99999)
        × Serving writes
            (head % 16 * 2 ^ 24 + hi * 2 ^ 16 + mid * 256 + lo)
            polls
            (io.outb 0x1F7
              (command_of writes)
              (io.outb 0x1F5 hi (io.outb 0x1F4 mid (io.outb 0x1F3 lo (io.outb 0x1F2 1 d)))))
            f
  pub busy :
      (writes : Bool) (lba polls : ℕ) (d : io.Dev) (f : ℕ → List ℕ)
      → Serving writes lba (suc polls) d f
      → (is_busy (io.inb 0x1F7 d).0 ≡ true)
        × (has_error (io.inb 0x1F7 d).0 ≡ false)
        × Serving writes lba polls (io.inb 0x1F7 d).1 f
  pub ready :
      (writes : Bool) (lba : ℕ) (d : io.Dev) (f : ℕ → List ℕ)
      → Serving writes lba 0 d f
      → (is_busy (io.inb 0x1F7 d).0 ≡ false)
        × (wants_data (io.inb 0x1F7 d).0 ≡ true)
        × (has_error (io.inb 0x1F7 d).0 ≡ false)
        × Serving writes lba 0 (io.inb 0x1F7 d).1 f
  pub fetch :
      (lba : ℕ) (d : io.Dev) (f : ℕ → List ℕ)
      → Serving false lba 0 d f
      → ((io.insw 0x1F0 256 d).0 ≡ f lba) × Idle (io.insw 0x1F0 256 d).1 f
  pub store :
      (lba : ℕ) (b : List ℕ) (d : io.Dev) (f : ℕ → List ℕ)
      → length b ≡ 512
      → Serving true lba 0 d f
      → (polls : ℕ) × (polls < 999999) × Storing polls (io.outsw 0x1F0 b d) (written lba b f)
  pub flush :
      (d : io.Dev) (f : ℕ → List ℕ)
      → Idle d f
      → (polls : ℕ) × (polls < 999999) × Storing polls (io.outb 0x1F7 0xE7 d) f
  pub storing :
      (polls : ℕ) (d : io.Dev) (f : ℕ → List ℕ)
      → Storing (suc polls) d f
      → (is_busy (io.inb 0x1F7 d).0 ≡ true) × Storing polls (io.inb 0x1F7 d).1 f
  pub stored :
      (d : io.Dev) (f : ℕ → List ℕ)
      → Storing 0 d f
      → (is_busy (io.inb 0x1F7 d).0 ≡ false) × Idle (io.inb 0x1F7 d).1 f
