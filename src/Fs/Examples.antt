-- ===== src/Fs/Examples.antt =====
-- A small file system that keeps to its invariant.
use ro_dos.Prelude.{
  ℕ, zero, suc, ◌-◌, refl, List, [], ◌∷◌, ◌++◌, arith, length, replicate, length-replicate,
}
use ro_dos.Text.{codes}
use ro_dos.Fs.{FileContent, UserEntry, Fs, FsEntry, no_user}
use ro_dos.Fs.Valid.{AreSized, AreNames, IsValid}
use ro_dos.Fs.Device.{ram_disk}
use ro_dos.Fs.Commands.{Machine}

-- An entry of 56 bytes for its name.
abbrev pub entry : List ℕ → ℕ → FsEntry
entry name type = record {
  name = name ++ replicate (56 - length name) 0;
  size = 0;
  type = type;
  attr = 0x20;
  parent_idx = 0;
  reserved = 0;
}

abbrev pub blank : FsEntry
blank = entry [] 0

abbrev pub a_txt : FsEntry
a_txt = entry (codes "C:\\a.txt") 0

abbrev pub docs : FsEntry
docs = entry (codes "C:\\docs") 1

abbrev pub blank_content : FileContent
blank_content = record { file_idx = 0; size = 0; bytes = replicate 4096 0 }

abbrev pub root : UserEntry
root = record { username = codes "root" ++ replicate 28 0; password_hash = replicate 32 7 }

-- Drive C with a file, a directory and a user.
abbrev pub small : Fs
small = record {
  current_dir = codes "C:\\" ++ replicate 253 0;
  fs_table = a_txt ∷ docs ∷ replicate 126 blank;
  fs_count = 2;
  user_table = root ∷ replicate 31 no_user;
  user_count = 1;
  current_user = codes "root" ++ replicate 28 0;
  file_contents = replicate 64 blank_content;
  file_content_count = 0;
}

abbrev pub empty_disk : ram_disk.Disk
empty_disk = λ lba. replicate 512 0

abbrev pub machine : Machine ram_disk
machine = record { fs = small; disk = empty_disk }

-- The same tables as the program starts.
abbrev pub booted : Fs
booted = record small {
  fs_table = replicate 128 blank;
  fs_count = 0;
  user_table = replicate 32 no_user;
  user_count = 0;
}

replicate-AreNames : (n : ℕ) → AreNames (replicate n blank)
replicate-AreNames zero = tt
replicate-AreNames (suc n) = (refl, omega arith, replicate-AreNames n)

replicate-AreSized : (n : ℕ) → AreSized (replicate n blank_content)
replicate-AreSized zero = tt
replicate-AreSized (suc n) = (length-replicate {A = ℕ} 4096 0, omega arith, replicate-AreSized n)

pub machine-IsValid : IsValid machine.fs
machine-IsValid = record {
  files = refl;
  file_count = omega arith;
  names = (refl, omega arith, (refl, omega arith, replicate-AreNames 126));
  user_slots = refl;
  user_limit = omega arith;
  slots = refl;
  sizes = replicate-AreSized 64;
  slot_count = omega arith;
  dir_length = refl;
  dir_short = omega arith;
}
