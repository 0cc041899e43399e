-- ===== src/Fs/Contents/Format.antt =====
-- FORMAT of src/commands.c keeps the tables valid.
use ro_dos.Fs.Valid.{IsValid}
use ro_dos.Fs.Contents.{cmd_format}
use ro_dos.Fs.Commands.{Machine, persist}
use ro_dos.Fs.Device.{BlockDevice}
use ro_dos.Fs.Commands.Invariant.{Keeps}
use ro_dos.Prelude.{ℕ, inl, inr, ◌||◌, List, arith, ◌==◌, Bool-cases}
use ro_dos.Fs.{Fs}

empty-IsValid : (s : Fs) → IsValid s → IsValid (record s { fs_count = 0; file_content_count = 0 })
empty-IsValid s v = record {
  files = v.files;
  file_count = omega arith;
  names = v.names;
  user_slots = v.user_slots;
  user_limit = v.user_limit;
  slots = v.slots;
  sizes = v.sizes;
  slot_count = omega arith;
  dir_length = v.dir_length;
  dir_short = v.dir_short;
}

pub cmd_format-Keeps :
    (dev : BlockDevice) (key : ℕ) (args : List ℕ) (m : Machine dev)
    → IsValid m.fs
    → Keeps (cmd_format dev key args m)
unfolding cmd_format persist
cmd_format-Keeps dev key args m v = elim (Bool-cases (key == b'Y' || key == b'y')) [
  | inl y ↦ rw y (empty-IsValid m.fs v)
  | inr n ↦ rw n v
]
