-- ===== src/Fs/Disk/Layout.antt =====
-- Where src/commands.c puts the file system on disk: the sectors of its parts, and the 64 bytes of a
-- table entry, as the loops over the structs copy them.
use ro_dos.Prelude.{
  ℕ, zero, suc, ◌+◌, ◌*◌, ◌/◌, ◌%◌, ◌^◌, List, [], ◌∷◌, ◌++◌, ◌==◌, if◌then◌else◌, drop,
}
use ro_dos.Array.{pad}
use ro_dos.Fs.{FsEntry, UserEntry}

abbrev pub fs_curdir_lba : ℕ
fs_curdir_lba = 499

abbrev pub fs_data_start_lba : ℕ
fs_data_start_lba = 500

abbrev pub fs_content_start_lba : ℕ
fs_content_start_lba = 700

-- (file_size + 511) / 512 in uint32_t, and 1 for an empty file.
unfoldable pub sectors_needed : ℕ → ℕ
sectors_needed size = let n = (size + 511) % 2 ^ 32 / 512 in if n == 0 then 1 else n

-- A number of `n` bytes, the lowest first, and the number that such bytes hold.
abbrev pub le_bytes : ℕ → ℕ → List ℕ
le_bytes zero x = []
le_bytes (suc n) x = x % 256 ∷ le_bytes n (x / 256)

abbrev pub of_le_bytes : List ℕ → ℕ
of_le_bytes [] = 0
of_le_bytes (b ∷ bs) = b + 256 * of_le_bytes bs

-- The layout of `FSEntry`: the name at 0, the size at 56, the type at 60, the attribute at 61, the
-- parent at 62; `reserved` lies behind the 64 bytes that are copied.
unfoldable pub entry_bytes : FsEntry → List ℕ
entry_bytes e =
    pad 56 e.name
    ++ (le_bytes 4 e.size ++ (le_bytes 1 e.type ++ (le_bytes 1 e.attr ++ le_bytes 2 e.parent_idx)))

unfoldable pub entry_sector : FsEntry → List ℕ
unfolding entry_bytes
entry_sector e = pad 512 (entry_bytes e)

unfoldable pub user_sector : UserEntry → List ℕ
user_sector u = pad 512 (pad 32 u.username ++ pad 32 u.password_hash)

-- The slot `old` of the table after the 64 bytes of a sector are copied over it.
unfoldable pub entry_of_sector : List ℕ → FsEntry → FsEntry
entry_of_sector b old = record old {
  name = pad 56 b;
  size = of_le_bytes (pad 4 (drop 56 b));
  type = of_le_bytes (pad 1 (drop 60 b));
  attr = of_le_bytes (pad 1 (drop 61 b));
  parent_idx = of_le_bytes (pad 2 (drop 62 b));
}

unfoldable pub user_of_sector : List ℕ → UserEntry → UserEntry
user_of_sector b old = record { username = pad 32 b; password_hash = pad 32 (drop 32 b) }
