-- ===== src/Fs.antt =====
-- The file system of src/commands.c: its tables in memory and the helpers over them. The constants
-- are those of the source.
pub mod Device
pub mod Disk
pub mod Commands
pub mod Contents
pub mod Users
pub mod Path
pub mod Valid
pub mod Examples
use ro_dos.Prelude.{ℕ, Bool, ◌&&◌, List, [], ◌==◌, take}
use ro_dos.Prelude.Int.{is_zero}
use ro_dos.Text.{str_cmp}

abbrev pub fs_max_files : ℕ
fs_max_files = 128

abbrev pub fs_max_users : ℕ
fs_max_users = 32

abbrev pub fs_max_filename : ℕ
fs_max_filename = 56

abbrev pub max_file_size : ℕ
max_file_size = 4096

abbrev pub max_contents : ℕ
max_contents = 64

-- `FSEntry`; the name is a `char[56]`, the type 0 for a file and 1 for a directory.
pub record FsEntry : Type 0 where
  pub name : List ℕ
  pub size : ℕ
  pub type : ℕ
  pub attr : ℕ
  pub parent_idx : ℕ
  pub reserved : ℕ

-- `UserEntry`, two arrays of 32 bytes.
pub record UserEntry : Type 0 where
  pub username : List ℕ
  pub password_hash : List ℕ

-- `FileContent`; `bytes` is the array `data`, of 4096 bytes.
pub record FileContent : Type 0 where
  pub file_idx : ℕ
  pub size : ℕ
  pub bytes : List ℕ

-- The static variables: whole arrays with their counts.
pub record Fs : Type 0 where
  pub current_dir : List ℕ
  pub fs_table : List FsEntry
  pub fs_count : ℕ
  pub user_table : List UserEntry
  pub user_count : ℕ
  pub current_user : List ℕ
  pub file_contents : List FileContent
  pub file_content_count : ℕ

-- The entries, users and contents that count.
abbrev pub entries : Fs → List FsEntry
entries s = take s.fs_count s.fs_table

abbrev pub users : Fs → List UserEntry
users s = take s.user_count s.user_table

abbrev pub contents : Fs → List FileContent
contents s = take s.file_content_count s.file_contents

-- str_cmp(e.name, path) == 0
abbrev pub is_named : List ℕ → FsEntry → Bool
is_named path e = is_zero (str_cmp e.name path)

-- … && e.type == t
abbrev pub is_named_of_type : ℕ → List ℕ → FsEntry → Bool
is_named_of_type t path e = is_named path e && e.type == t

-- str_cmp(u.username, name) == 0
abbrev pub is_user : List ℕ → UserEntry → Bool
is_user name u = is_zero (str_cmp u.username name)

-- What an access out of an array reads; the theorems rule such an access out.
abbrev pub no_entry : FsEntry
no_entry = record { name = []; size = 0; type = 0; attr = 0; parent_idx = 0; reserved = 0 }

abbrev pub no_user : UserEntry
no_user = record { username = []; password_hash = [] }

abbrev pub no_content : FileContent
no_content = record { file_idx = 0; size = 0; bytes = [] }
