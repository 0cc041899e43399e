-- ===== src/Fs/Contents/Tests.antt =====
-- A small file that is saved and shown.
use ro_dos.Text.{str_cmp, peek, get_token, codes}
use ro_dos.Fs.Contents.Saved.{last_line, AreBuffers}
use ro_dos.Fs.{is_named, Fs}
use ro_dos.Fs.Commands.Create.{path_of}
use ro_dos.Array.{first_index}
use ro_dos.Fs.Examples.{machine-IsValid, small, blank_content}
use ro_dos.Fs.Contents.{cat_line, cmd_cat, save_file_content}
use ro_dos.Fs.Contents.Cat.{cmd_cat-save_file_content}
use ro_dos.Prelude.{
  ℕ, zero, suc, ◌≤◌, ◌≡◌, refl, ◌≢◌, none, some, List, ◌++◌, arith, length, get_or, take, replicate,
  length-replicate,
}
use ro_dos.Prelude.Int.{pos}

abbrev name : List ℕ
name = codes "b.txt"

abbrev hello : List ℕ
hello = codes "hello"

named : peek (get_token name 64).0 ≢ 0
unfolding get_token
named = omega arith

no_drive : get_or (get_token name 64).0 1 0 ≢ b':'
unfolding get_token
no_drive = omega arith

short_path : length (path_of small name) ≤ 55
unfolding get_token
short_path = omega arith

missing : first_index (is_named (path_of small name)) small.fs_table small.fs_count ≡ none
unfolding get_token first_index str_cmp
missing = refl

replicate-AreBuffers : (n : ℕ) → AreBuffers (replicate n blank_content)
replicate-AreBuffers zero = tt
replicate-AreBuffers (suc n) = (length-replicate {A = ℕ} 4096 0, replicate-AreBuffers n)

cmd_cat-save_file_content_example :
    (s' : Fs) × (save_file_content (get_token name 64).0 hello 5 small ≡ some (pos 0, s'))
    × (cmd_cat name s'
        ≡ some (
          pos 0,
          cat_line small.fs_count s'.file_content_count
              ++ (take 5 hello ++ last_line (take 5 hello)),
        ))
cmd_cat-save_file_content_example =
    cmd_cat-save_file_content name small machine-IsValid (replicate-AreBuffers 64) hello 5 named
      no_drive (omega arith) (omega arith) short_path missing (omega arith) (omega arith)
      (omega arith)
