-- ===== src/Ata/Protocol.antt =====
-- The disk that src/drivers/ata.c talks to.
use ro_dos.Prelude.{ℕ, suc, ◌+◌, ◌*◌, ◌/◌, ◌%◌, ◌^◌, ◌<◌, ◌≡◌, true, false, List}
use ro_dos.Ata.{PortIo, is_busy, wants_data, has_error}

-- What a disk on a bus is documented to do while it reads, in its states: `Idle`, `Selected` after the
-- drive register, `Serving` a block with some blocks left behind it and some polls until it is ready,
-- and `Ready` to transfer it. It is never busy for 100000 polls.
pub record AtaDisk (io : PortIo) (base ctrl : ℕ) : Type 1 where
  pub Idle : io.Dev → Type 0
  pub Selected : ℕ → io.Dev → Type 0
  pub Serving : ℕ → ℕ → ℕ → io.Dev → Type 0
  pub Ready : ℕ → ℕ → io.Dev → Type 0
  pub sector : ℕ → List ℕ
  pub idle_status :
      (d : io.Dev)
      → Idle d
      → (is_busy (io.inb (base + 7) d).0 ≡ false) × Idle (io.inb (base + 7) d).1
  pub idle_ctrl : (d : io.Dev) → Idle d → Idle (io.inb ctrl d).1
  pub select : (head : ℕ) (d : io.Dev) → Idle d → Selected head (io.outb (base + 6) head d)
  pub selected_ctrl : (head : ℕ) (d : io.Dev) → Selected head d → Selected head (io.inb ctrl d).1
  pub start :
      (head left lo mid hi : ℕ) (d : io.Dev)
      → head / 16 ≡ 0xE
      → left < 255
      → Selected head d
      → (polls : ℕ) × (polls < 100000)
        × Serving (head % 16 * 2 ^ 24 + hi * 2 ^ 16 + mid * 256 + lo) left polls (
            io.outb (base + 7) 0x20 (
              io.outb
                (base + 5)
                hi
                (io.outb (base + 4) mid (io.outb (base + 3) lo (io.outb (base + 2) (suc left) d)))))
  pub serving_ctrl :
      (lba left polls : ℕ) (d : io.Dev)
      → Serving lba left polls d
      → Serving lba left polls (io.inb ctrl d).1
  pub busy :
      (lba left polls : ℕ) (d : io.Dev)
      → Serving lba left (suc polls) d
      → (is_busy (io.inb (base + 7) d).0 ≡ true)
        × (has_error (io.inb (base + 7) d).0 ≡ false)
        × Serving lba left polls (io.inb (base + 7) d).1
  pub ready :
      (lba left : ℕ) (d : io.Dev)
      → Serving lba left 0 d
      → (is_busy (io.inb (base + 7) d).0 ≡ false)
        × (wants_data (io.inb (base + 7) d).0 ≡ true)
        × (has_error (io.inb (base + 7) d).0 ≡ false)
        × Ready lba left (io.inb (base + 7) d).1
  pub transfer_last :
      (lba : ℕ) (d : io.Dev)
      → Ready lba 0 d
      → ((io.insw base 256 d).0 ≡ sector lba) × Idle (io.insw base 256 d).1
  pub transfer :
      (lba left : ℕ) (d : io.Dev)
      → Ready lba (suc left) d
      → ((io.insw base 256 d).0 ≡ sector lba)
        × ((polls : ℕ) × (polls < 100000) × Serving (lba + 1) left polls (io.insw base 256 d).1)
