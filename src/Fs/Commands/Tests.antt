-- ===== src/Fs/Commands/Tests.antt =====
-- The file commands on small file systems on a disk in memory.
use ro_dos.Array.Search.{None}
use ro_dos.Prelude.{
  ℕ, ◌≤◌, ◌<◌, ◌≡◌, refl, ◌≢◌, ◌⊎◌, true, none, some, List, [], ◌∷◌, ◌++◌, arith, length, get_elem?,
  take, replicate,
}
use ro_dos.Prelude.Int.{pos, minus_one}
use ro_dos.Array.{first_index, erase_at}
use ro_dos.Text.{str_len, codes, peek, str_cmp, get_token, text}
use ro_dos.Fs.{FsEntry, is_named, is_named_of_type, entries, contents}
use ro_dos.Fs.Path.{full_path}
use ro_dos.Fs.Path.Up.{IsPlain}
use ro_dos.Fs.Device.{ram_disk}
use ro_dos.Fs.Commands.{Machine, persist, add_entry, cmd_touch, cmd_del, cmd_cd}
use ro_dos.Fs.Commands.Create.{path_of, cmd_touch_new, cmd_touch_again, cmd_touch_duplicates}
use ro_dos.Fs.Commands.Remove.{cmd_del_lem}
use ro_dos.Fs.Commands.Cd.{cmd_cd_up}
use ro_dos.Fs.Examples.{machine, machine-IsValid}

abbrev old_file : List ℕ
old_file = codes "a.txt"

abbrev new_file : List ℕ
new_file = codes "b.txt"

abbrev folder : List ℕ
folder = codes "docs"

-- A name of 60 characters.
abbrev long_file : List ℕ
long_file = replicate 60 b'x'

path_of_runs : path_of machine.fs old_file ≡ codes "C:\\a.txt"
unfolding get_token
path_of_runs = refl

new_file_missing :
    first_index (is_named (path_of machine.fs new_file)) machine.fs.fs_table machine.fs.fs_count
    ≡ none
unfolding get_token first_index str_cmp
new_file_missing = refl

folder_found :
    first_index
      (is_named_of_type 1 (path_of machine.fs folder))
      machine.fs.fs_table
      machine.fs.fs_count
    ≡ some 1
unfolding get_token first_index str_cmp
folder_found = refl

named : peek (get_token new_file 64).0 ≢ 0
unfolding get_token
named = omega arith

folder_named : peek (get_token folder 64).0 ≢ 0
unfolding get_token
folder_named = omega arith

folder_down : str_cmp (get_token folder 64).0 (b'.' ∷ b'.' ∷ []) ≢ pos 0
unfolding get_token str_cmp
folder_down = ground arith

folder-IsPlain : IsPlain (text (get_token folder 64).0)
unfolding get_token
folder-IsPlain = (omega arith, (omega arith, (omega arith, (omega arith, tt))))

long_named : peek (get_token long_file 64).0 ≢ 0
unfolding get_token
long_named = omega arith

long_path : 55 < length (path_of machine.fs long_file)
unfolding get_token
long_path = omega arith

short_path : length (path_of machine.fs new_file) ≤ 55
unfolding get_token
short_path = omega arith

abbrev touched : Machine ram_disk
touched = persist ram_disk (add_entry (path_of machine.fs new_file) 0 0 0x20 machine.fs) machine

touch_runs : cmd_touch ram_disk new_file machine ≡ some (pos 0, touched)
unfolding cmd_touch get_token full_path first_index str_cmp str_len
touch_runs = refl

cmd_touch_new_example :
    (m' : Machine ram_disk) × (e : FsEntry) × (cmd_touch ram_disk new_file machine
      ≡ some (pos 0, m'))
    × (entries m'.fs ≡ entries machine.fs ++ (e ∷ []))
    × (text e.name ≡ take 55 (path_of machine.fs new_file))
    × (e.size ≡ 0)
    × (e.type ≡ 0)
cmd_touch_new_example =
    cmd_touch_new ram_disk new_file machine machine-IsValid named (omega arith) new_file_missing

cmd_touch_again_example : cmd_touch ram_disk new_file touched ≡ some (pos 0, touched)
cmd_touch_again_example =
    cmd_touch_again ram_disk new_file machine machine-IsValid touched named (omega arith) short_path
      touch_runs

cmd_touch_duplicates_example :
    (m' m'' : Machine ram_disk) × (e f : FsEntry) × (cmd_touch ram_disk long_file machine
      ≡ some (pos 0, m'))
    × (cmd_touch ram_disk long_file m' ≡ some (pos 0, m''))
    × (entries m''.fs ≡ entries machine.fs ++ (e ∷ f ∷ []))
    × (text e.name ≡ text f.name)
cmd_touch_duplicates_example =
    cmd_touch_duplicates ram_disk long_file machine machine-IsValid long_named (omega arith)
      long_path

cmd_del_lem_example :
    (((peek (get_token old_file 64).0 ≡ 0)
        ⊎ None (is_named_of_type 0 (path_of machine.fs old_file)) (entries machine.fs))
      × (cmd_del ram_disk old_file machine ≡ some (minus_one, machine)))
    ⊎ ((i : ℕ) × (e : FsEntry) × (m' : Machine ram_disk) × (cmd_del ram_disk old_file machine
          ≡ some (pos 0, m'))
        × (get_elem? (entries machine.fs) i ≡ some e)
        × (is_named_of_type 0 (path_of machine.fs old_file) e ≡ true)
        × None (is_named_of_type 0 (path_of machine.fs old_file)) (take i machine.fs.fs_table)
        × (entries m'.fs ≡ erase_at i (entries machine.fs))
        × (contents m'.fs ≡ contents machine.fs))
cmd_del_lem_example = cmd_del_lem ram_disk old_file machine machine-IsValid

cmd_cd_up_example :
    (m' m'' : Machine ram_disk) × (cmd_cd ram_disk folder machine ≡ some (pos 0, m'))
    × (text m'.fs.current_dir ≡ path_of machine.fs folder ++ (b'\\' ∷ []))
    × (cmd_cd ram_disk (codes "..") m' ≡ some (pos 0, m''))
    × (text m''.fs.current_dir ≡ text machine.fs.current_dir)
cmd_cd_up_example =
    cmd_cd_up ram_disk folder machine machine-IsValid 1 (codes "C:") refl (omega arith) folder_named
      folder_down folder-IsPlain folder_found
