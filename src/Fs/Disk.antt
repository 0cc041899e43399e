-- ===== src/Fs/Disk.antt =====
-- The file system on disk: `fs_save_to_disk` and `fs_load_from_disk` of src/commands.c. Sector 499
-- holds the current directory, 500 on the file table, 628 on the users, and each file has the 16
-- sectors from 700 + 16 * (its index) on.
pub mod Layout
pub mod Load
pub mod Codec
pub mod Tables
pub mod RoundTrip
pub mod Simulation
pub mod CurrentDir
pub mod UserTable
pub mod Sectors
pub mod Tests
use ro_dos.Prelude.{
  ℕ, zero, suc, ◌+◌, ◌-◌, ◌*◌, min, Bool, true, false, List, [], ◌∷◌, map, if◌then◌else◌, take,
  drop, replicate,
}
use ro_dos.Array.{pad}
use ro_dos.Text.{text}
use ro_dos.Fs.{Fs, FileContent, entries, users, contents, fs_max_files, fs_max_users}
use ro_dos.Fs.Device.{BlockDevice}
use Layout.{
  fs_curdir_lba, fs_data_start_lba, fs_content_start_lba, sectors_needed, entry_sector, user_sector,
}

abbrev pub zero_sector : List ℕ
zero_sector = replicate 512 0

-- The sector `s` of a content: `size - s * 512` bytes, 512 at most, and then zeros. Behind the array
-- of 4096 bytes the model reads zeros, where the program reads what is there.
unfoldable pub content_sector : FileContent → ℕ → List ℕ
content_sector c s = pad 512 (take (min (c.size - s * 512) 512) (drop (s * 512) c.bytes))

-- Whether a write failed, and the disk.
module _ (dev : BlockDevice) where
  -- One write for each of the sectors, from `lba` on: `if (disk_write_lba(…) != 0) return -1;`.
  pub write_each : ℕ → List (List ℕ) → dev.Disk → Bool × dev.Disk
  write_each lba [] d = (true, d)
  write_each lba (b ∷ bs) d =
      let r = dev.write lba b d in
      let rest = write_each (lba + 1) bs r.1 in if r.0 then rest else (false, r.1)

  -- The loops that clear sectors and do not look at the result.
  pub clear_each : ℕ → ℕ → dev.Disk → dev.Disk
  clear_each zero lba d = d
  clear_each (suc n) lba d = clear_each n (lba + 1) (dev.write lba zero_sector d).1

  -- The sectors `s`, `s + 1`, … of a content, as many as there are rounds left.
  unfoldable pub content_sectors : FileContent → ℕ → ℕ → List (List ℕ)
  content_sectors c zero s = []
  content_sectors c (suc n) s = content_sector c s ∷ content_sectors c n (s + 1)

  -- The body of the loop over the contents.
  pub save_content : FileContent → dev.Disk → Bool × dev.Disk
  unfolding write_each clear_each content_sectors
  save_content c d =
      let n = sectors_needed c.size in
      let base = fs_content_start_lba + c.file_idx * 16 in
      let r = write_each base (content_sectors c (min n 16) 0) d in
      if r.0 then (true, clear_each (16 - n) (base + n) r.1) else r

  pub save_contents : List FileContent → dev.Disk → Bool × dev.Disk
  unfolding save_content
  save_contents [] d = (true, d)
  save_contents (c ∷ cs) d =
      let r = save_content c d in let rest = save_contents cs r.1 in if r.0 then rest else r

  infixl 5 ◌then_write◌
  abbrev pub ◌then_write◌ : Bool × dev.Disk → (dev.Disk → Bool × dev.Disk) → Bool × dev.Disk
  r then_write next = if r.0 then next r.1 else r

  -- The first component is whether the result is 0.
  unfoldable pub fs_save_to_disk : Fs → dev.Disk → Bool × dev.Disk
  fs_save_to_disk s d =
      write_each fs_curdir_lba (pad 512 (take 256 (text s.current_dir)) ∷ []) d
      then_write (λ d₁.
          write_each fs_data_start_lba (map entry_sector (take fs_max_files (entries s))) d₁)
      then_write (λ d₂.
          write_each (fs_data_start_lba + 128) (map user_sector (take fs_max_users (users s)))
            (clear_each (64 - s.fs_count) (fs_data_start_lba + s.fs_count) d₂))
      then_write (λ d₃.
          save_contents (contents s)
            (clear_each (5 - s.user_count) (fs_data_start_lba + 128 + s.user_count) d₃))
