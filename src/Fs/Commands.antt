-- ===== src/Fs/Commands.antt =====
-- The commands of src/commands.c that read or change the file system, without what they print.
pub mod Invariant
pub mod Create
pub mod Remove
pub mod Cd
mod Tests
use ro_dos.Prelude.{
  ℕ, ◌+◌, ◌-◌, ◌%◌, min, Bool, ◌&&◌, ◌||◌, Option, none, some, List, [], ◌∷◌, ltb, leb, ◌==◌,
  if◌then◌else◌, length, set, get_or, take,
}
use ro_dos.Prelude.Int.{ℤ, pos, is_zero, minus_one}
use ro_dos.Array.{first_index, close_gap, overlay}
use ro_dos.Text.{peek, str_copy, str_cmp, str_to_int, get_token}
use ro_dos.Fs.{
  Fs, FileContent, fs_max_files, fs_max_filename, max_contents, is_named, is_named_of_type,
  no_entry, no_content,
}
use ro_dos.Fs.Path.{full_path, parent_dir, enter_dir}
use ro_dos.Fs.Device.{BlockDevice}
use ro_dos.Fs.Disk.{fs_save_to_disk}

-- The tables in memory, and the disk.
pub record Machine (dev : BlockDevice) : Type 0 where
  pub fs : Fs
  pub disk : dev.Disk

-- `table[fs_count]` gets a name, a size, a type and an attribute; its other fields stay as they were.
unfoldable pub add_entry : List ℕ → ℕ → ℕ → ℕ → Fs → Fs
add_entry path size type attr s =
    let old = get_or s.fs_table s.fs_count no_entry in
    record s {
      fs_table = set s.fs_table s.fs_count (record old {
        name = str_copy old.name path fs_max_filename;
        size = size;
        type = type;
        attr = attr;
      });
      fs_count = s.fs_count + 1;
    }

-- The entries behind `i` move down by one.
unfoldable pub remove_entry : ℕ → Fs → Fs
remove_entry i s = record s {
  fs_table = close_gap i (s.fs_count - 1 - i) s.fs_table;
  fs_count = s.fs_count - 1;
}

-- str_copy(table[i].name, name, FS_MAX_FILENAME)
unfoldable pub rename_entry : ℕ → List ℕ → Fs → Fs
rename_entry i name s =
    let e = get_or s.fs_table i no_entry in
    record s {
      fs_table = set s.fs_table i (record e { name = str_copy e.name name fs_max_filename });
    }

-- table[i].attr = attr
unfoldable pub set_attr : ℕ → ℕ → Fs → Fs
set_attr i attr s =
    let e = get_or s.fs_table i no_entry in
    record s { fs_table = set s.fs_table i (record e { attr = attr }) }

-- file_contents[i].file_idx == src_idx && file_content_count < 64
unfoldable pub copies : ℕ → Fs → FileContent → Bool
copies src_idx s c = c.file_idx == src_idx && ltb s.file_content_count max_contents

-- The next slot gets the content of the slot `i`: `size` bytes of it go over the slot's array. `none`
-- is a size behind one of the two arrays.
unfoldable pub copy_slot : ℕ → ℕ → Fs → Option Fs
copy_slot i dst_idx s =
    let c = get_or s.file_contents i no_content in
    let old = get_or s.file_contents s.file_content_count no_content in
    if ltb (min (length c.bytes) (length old.bytes)) c.size
    then none
    else some (record s {
      file_contents = set s.file_contents s.file_content_count (record {
        file_idx = dst_idx;
        size = c.size;
        bytes = overlay (take c.size c.bytes) old.bytes;
      });
      file_content_count = s.file_content_count + 1;
    })

unfoldable pub copy_content : ℕ → ℕ → Fs → Option Fs
copy_content src_idx dst_idx s =
    elim (first_index (copies src_idx s) s.file_contents s.file_content_count) [
      | none ↦ some s
      | some i ↦ copy_slot i dst_idx s
    ]

-- A fault (`none`) is a write behind `full_path` or behind the bytes of a content.
infixl 5 ◌>>=◌
abbrev pub ◌>>=◌ {ℓ κ} : {A : Type ℓ} {B : Type κ} → Option A → (A → Option B) → Option B
none >>= f = none
some a >>= f = f a

module _ (dev : BlockDevice) where
  -- The changed tables, written to the disk; the commands do not look at the result.
  unfoldable pub persist : Fs → Machine dev → Machine dev
  persist s m = record { fs = s; disk = (fs_save_to_disk dev s m.disk).1 }

  -- A command: its arguments and the machine before; its result and the machine after.
  abbrev pub Command : Type 0
  Command = List ℕ → Machine dev → Option (ℤ × Machine dev)

  unfoldable pub cmd_mkdir : Command
  cmd_mkdir args m =
      let name = (get_token args 64).0 in
      if peek name == 0
      then some (minus_one, m)
      else if leb fs_max_files m.fs.fs_count
      then some (minus_one, m)
      else (do
        path ← full_path m.fs.current_dir name
        elim (first_index (is_named path) m.fs.fs_table m.fs.fs_count) [
          | some _ ↦ some (minus_one, m)
          | none ↦ some (pos 0, persist (add_entry path 0 1 0x10 m.fs) m)
        ])

  -- The name is compared as it was given.
  unfoldable pub cmd_rmdir : Command
  cmd_rmdir args m =
      let name = (get_token args 64).0 in
      if peek name == 0
      then some (minus_one, m)
      else elim (first_index (is_named_of_type 1 name) m.fs.fs_table m.fs.fs_count) [
        | none ↦ some (minus_one, m)
        | some i ↦ some (pos 0, persist (remove_entry i m.fs) m)
      ]

  unfoldable pub cmd_touch : Command
  cmd_touch args m =
      let name = (get_token args 64).0 in
      if peek name == 0
      then some (minus_one, m)
      else if leb fs_max_files m.fs.fs_count
      then some (minus_one, m)
      else (do
        path ← full_path m.fs.current_dir name
        elim (first_index (is_named path) m.fs.fs_table m.fs.fs_count) [
          | some _ ↦ some (pos 0, m)
          | none ↦ some (pos 0, persist (add_entry path 0 0 0x20 m.fs) m)
        ])

  unfoldable pub cmd_del : Command
  cmd_del args m =
      let name = (get_token args 64).0 in
      if peek name == 0 then some (minus_one, m) else (do
        path ← full_path m.fs.current_dir name
        elim (first_index (is_named_of_type 0 path) m.fs.fs_table m.fs.fs_count) [
          | none ↦ some (minus_one, m)
          | some i ↦ some (pos 0, persist (remove_entry i m.fs) m)
        ])

  unfoldable pub cmd_cd : Command
  cmd_cd args m =
      let name = (get_token args 64).0 in
      if peek name == 0
      then some (pos 0, m)
      else if is_zero (str_cmp name (b'.' ∷ b'.' ∷ []))
      then some (pos 0, persist (record m.fs { current_dir = parent_dir m.fs.current_dir }) m)
      else (do
        path ← full_path m.fs.current_dir name
        elim (first_index (is_named_of_type 1 path) m.fs.fs_table m.fs.fs_count) [
          | none ↦ some (minus_one, m)
          | some _ ↦
              some
                (pos 0, persist (record m.fs { current_dir = enter_dir m.fs.current_dir path }) m)
        ])

  -- Both names are taken as they were given.
  unfoldable pub cmd_move : Command
  cmd_move args m =
      let (src, rest) = get_token args 64 in
      let dst = (get_token rest 64).0 in
      if peek src == 0 || peek dst == 0
      then some (minus_one, m)
      else elim (first_index (is_named src) m.fs.fs_table m.fs.fs_count) [
        | none ↦ some (minus_one, m)
        | some i ↦ some (pos 0, persist (rename_entry i dst m.fs) m)
      ]

  -- `uint8_t new_attr = str_to_int(mode)`.
  unfoldable pub cmd_chmod : Command
  cmd_chmod args m =
      let (mode, rest) = get_token args 16 in
      let name = (get_token rest 64).0 in
      if peek mode == 0 || peek name == 0
      then some (minus_one, m)
      else elim (first_index (is_named name) m.fs.fs_table m.fs.fs_count) [
        | none ↦ some (minus_one, m)
        | some i ↦ some (pos 0, persist (set_attr i (str_to_int mode % 256) m.fs) m)
      ]

  unfoldable pub cmd_copy : Command
  cmd_copy args m =
      let (src, rest) = get_token args 64 in
      let dst = (get_token rest 64).0 in
      if peek src == 0 || peek dst == 0
      then some (minus_one, m)
      else elim (first_index (is_named_of_type 0 src) m.fs.fs_table m.fs.fs_count) [
        | none ↦ some (minus_one, m)
        | some i ↦
            if leb fs_max_files m.fs.fs_count
            then some (minus_one, m)
            else (let e = get_or m.fs.fs_table i no_entry in
                do
                  s ← copy_content i m.fs.fs_count (add_entry dst e.size 0 e.attr m.fs)
                  some (pos 0, persist s m))
      ]
