-- ===== src/Fs/Device.antt =====
-- `disk_read_lba` and `disk_write_lba` as src/commands.c calls them, with a count of 1: an interface
-- that the file system takes as a parameter.
use ro_dos.Prelude.{
  ℕ, ◌≡◌, refl, ◌≢◌, Bool, true, Option, some, List, arith, ◌==◌, if◌then◌else◌, length,
}

pub record BlockDevice : Type 1 where
  pub Disk : Type 0
  -- `none` is a result other than 0. A read changes the state of the drive too.
  pub read : ℕ → Disk → Option (List ℕ) × Disk
  -- Whether the result is 0, and the disk afterwards.
  pub write : ℕ → List ℕ → Disk → Bool × Disk

-- What a sector reads as.
abbrev pub sector_at : (dev : BlockDevice) → ℕ → dev.Disk → Option (List ℕ)
sector_at dev lba d = (dev.read lba d).0

-- A device that is an array of sectors: each write of a sector of 512 bytes succeeds, is read back, and
-- leaves the other sectors alone, and a read changes nothing.
pub record IsReliable (dev : BlockDevice) : Type 0 where
  pub write_ok : (lba : ℕ) (b : List ℕ) (d : dev.Disk) → (dev.write lba b d).0 ≡ true
  pub reads_only : (lba : ℕ) (d : dev.Disk) → (dev.read lba d).1 ≡ d
  pub read-write_self :
      (lba : ℕ) (b : List ℕ) (d : dev.Disk)
      → length b ≡ 512
      → sector_at dev lba (dev.write lba b d).1 ≡ some b
  pub read-write_ne :
      (lba other : ℕ) (b : List ℕ) (d : dev.Disk)
      → lba ≢ other
      → sector_at dev other (dev.write lba b d).1 ≡ sector_at dev other d

-- The array of sectors itself.
abbrev pub ram_disk : BlockDevice
ram_disk = record {
  Disk = ℕ → List ℕ;
  read = λ lba d. (some (d lba), d);
  write = λ lba b d. (true, λ other. if lba == other then b else d other);
}

pub ram_disk-IsReliable : IsReliable ram_disk
ram_disk-IsReliable = record {
  write_ok = λ lba b d. refl;
  reads_only = λ lba d. refl;
  read-write_self = λ lba b d h. ground arith;
  read-write_ne = λ lba other b d h. ground arith;
}
