-- ===== src/Fs/Disk/Load.antt =====
-- `fs_load_from_disk` of src/commands.c, which always returns 0. A sector that cannot be read is
-- passed over.
use ro_dos.Prelude.{
  ℕ, zero, suc, ◌+◌, ◌-◌, ◌*◌, min, true, false, ◌&&◌, Option, none, some, List, [], ◌∷◌, ◌++◌, ltb,
  ◌==◌, if◌then◌else◌, set, get_or, take, drop, replicate,
}
use ro_dos.Array.{overlay}
use ro_dos.Text.{text}
use ro_dos.Fs.{Fs, FsEntry, UserEntry, FileContent, no_entry, no_user, max_file_size, max_contents}
use ro_dos.Fs.Device.{BlockDevice}
use ro_dos.Fs.Disk.Layout.{
  fs_curdir_lba, fs_data_start_lba, fs_content_start_lba, sectors_needed, entry_of_sector,
  user_of_sector,
}

-- The bytes of a sector up to its terminator go over the start of the buffer, whose last byte is
-- then cleared.
unfoldable pub load_dir : Option (List ℕ) → List ℕ → List ℕ
load_dir none dir = dir
load_dir (some b) dir =
    if get_or b 0 0 == b'C' && get_or b 1 0 == b':'
    then set (overlay (take 256 (text b)) dir) 255 0
    else dir

-- Copies as much of a sector behind the `total` bytes read so far as there is of the file and of the
-- array, and counts it.
unfoldable pub take_sector : ℕ → List ℕ → List ℕ × ℕ → List ℕ × ℕ
take_sector size b (bytes, total) =
    let n = min (min (size - total) 512) (max_file_size - total) in
    (take total bytes ++ overlay (take n b) (drop total bytes), total + n)

module _ (dev : BlockDevice) where
  -- For the rounds left, from the sector `i` of the table on, into the slot `n`.
  unfoldable pub load_table : ℕ → ℕ → List FsEntry → ℕ → dev.Disk → (List FsEntry × ℕ) × dev.Disk
  load_table zero i table n d = ((table, n), d)
  load_table (suc rounds) i table n d =
      let r = dev.read (fs_data_start_lba + i) d in
      elim r.0 [
        | none ↦ load_table rounds (i + 1) table n r.1
        | some b ↦ elim (get_or b 0 0 == 0) [
          | true ↦ ((table, n), r.1)
          | false ↦
              load_table rounds (i + 1) (set table n (entry_of_sector b (get_or table n no_entry)))
                (n + 1) r.1
        ]
      ]

  unfoldable pub load_users :
      ℕ → ℕ → List UserEntry → ℕ → dev.Disk → (List UserEntry × ℕ) × dev.Disk
  load_users zero i table n d = ((table, n), d)
  load_users (suc rounds) i table n d =
      let r = dev.read (fs_data_start_lba + 128 + i) d in
      elim r.0 [
        | none ↦ load_users rounds (i + 1) table n r.1
        | some b ↦ elim (get_or b 0 0 == 0) [
          | true ↦ load_users rounds (i + 1) table n r.1
          | false ↦
              load_users rounds (i + 1) (set table n (user_of_sector b (get_or table n no_user)))
                (n + 1) r.1
        ]
      ]

  unfoldable pub load_sectors : ℕ → ℕ → ℕ → List ℕ × ℕ → dev.Disk → (List ℕ × ℕ) × dev.Disk
  load_sectors zero lba size t d = (t, d)
  load_sectors (suc rounds) lba size t d =
      let r = dev.read lba d in
      elim r.0 [
        | none ↦ load_sectors rounds (lba + 1) size t r.1
        | some b ↦ load_sectors rounds (lba + 1) size (take_sector size b t) r.1
      ]

  -- The content of the file `i`.
  unfoldable pub load_content : ℕ → ℕ → dev.Disk → FileContent × dev.Disk
  unfolding load_sectors take_sector
  load_content i size d =
      let r =
        load_sectors (min (sectors_needed size) 16) (fs_content_start_lba + i * 16) size
          (replicate max_file_size 0, 0) d in
      (record { file_idx = i; size = size; bytes = r.0.0 }, r.1)

  -- The files of the table from the index `i` on.
  unfoldable pub load_contents :
      List FsEntry → ℕ → List FileContent → ℕ → dev.Disk → (List FileContent × ℕ) × dev.Disk
  unfolding load_content
  load_contents [] i cs n d = ((cs, n), d)
  load_contents (e ∷ es) i cs n d =
      let loads = ltb 0 e.size && e.type == 0 in
      let c = load_content i e.size d in
      let rest =
        load_contents es (i + 1) (if loads then set cs n c.0 else cs) (if loads then n + 1 else n)
          (if loads then c.1 else d) in
      if ltb n max_contents then rest else ((cs, n), d)

  unfoldable pub fs_load_from_disk : Fs → dev.Disk → Fs × dev.Disk
  fs_load_from_disk s d =
      let dir = dev.read fs_curdir_lba d in
      let t = load_table 64 0 s.fs_table 0 dir.1 in
      let u = load_users 5 0 s.user_table 0 t.1 in
      let c = load_contents (take t.0.1 t.0.0) 0 s.file_contents 0 u.1 in
      (
        record s {
          current_dir = load_dir dir.0 s.current_dir;
          fs_table = t.0.0;
          fs_count = t.0.1;
          user_table = u.0.0;
          user_count = u.0.1;
          file_contents = c.0.0;
          file_content_count = c.0.1;
        },
        c.1,
      )
