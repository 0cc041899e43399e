-- ===== src/Fs/Valid.antt =====
-- What every table of the file system in src/commands.c keeps to: array lengths, counts within them,
-- names and a current directory that are terminated inside their buffers, and contents within theirs.
use ro_dos.Prelude.{◌≤◌, ◌≡◌, List, [], ◌∷◌, length}
use ro_dos.Text.{text}
use ro_dos.Fs.{Fs, FsEntry, FileContent}

-- Each name is a `char[56]` with its terminator.
abbrev pub AreNames : List FsEntry → Type 0
AreNames [] = Unit {0}
AreNames (e ∷ es) = (length e.name ≡ 56) × (length (text e.name) ≤ 55) × AreNames es

-- Each content has its whole array and a size within it.
abbrev pub AreSized : List FileContent → Type 0
AreSized [] = Unit {0}
AreSized (c ∷ cs) = (length c.bytes ≡ 4096) × (c.size ≤ 4096) × AreSized cs

pub record IsValid (s : Fs) : Type 0 where
  pub files : length s.fs_table ≡ 128
  pub file_count : s.fs_count ≤ 128
  pub names : AreNames s.fs_table
  pub user_slots : length s.user_table ≡ 32
  pub user_limit : s.user_count ≤ 32
  pub slots : length s.file_contents ≡ 64
  pub sizes : AreSized s.file_contents
  pub slot_count : s.file_content_count ≤ 64
  pub dir_length : length s.current_dir ≡ 256
  -- A name of 55 characters and a `\`.
  pub dir_short : length (text s.current_dir) ≤ 56
