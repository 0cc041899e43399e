-- ===== src/Fs/Contents.antt =====
-- The contents of files in src/commands.c: `save_file_content`, CAT and FORMAT. A null pointer, a
-- negative length and the text that FORMAT prints are left out.
pub mod Saved
pub mod Cat
pub mod Format
mod Tests
use ro_dos.Prelude.{
  ℕ, ◌+◌, ◌-◌, min, Bool, not, ◌||◌, Option, none, some, List, [], ◌∷◌, ◌++◌, ltb, leb, ◌==◌,
  if◌then◌else◌, length, set, get_or, take,
}
use ro_dos.Prelude.Int.{ℤ, pos, minus_one}
use ro_dos.Array.{first_index, overlay}
use ro_dos.Text.{codes, peek, str_len, str_copy, int_to_str, get_token, text}
use ro_dos.Fs.{
  Fs, FileContent, fs_max_files, fs_max_filename, max_file_size, max_contents, is_named,
  is_named_of_type, no_entry, no_content,
}
use ro_dos.Fs.Path.{full_path}
use ro_dos.Fs.Device.{BlockDevice}
use ro_dos.Fs.Commands.{Command, persist, ◌>>=◌}

-- The path of a name with no drive: both parts are copied with no test, so `none` is a write behind
-- `full_path[256]`.
unfoldable pub save_path : List ℕ → List ℕ → Option (List ℕ)
save_path dir filename =
    if get_or filename 1 0 == b':'
    then some (take 255 (text filename))
    else if ltb (str_len dir + str_len filename) 256
    then some (text dir ++ text filename)
    else none

-- file_contents[i].file_idx == idx
abbrev pub is_content_of : ℕ → FileContent → Bool
is_content_of idx c = c.file_idx == idx

-- The entry behind the last one gets the name; its size and `reserved` stay as they were.
unfoldable pub new_file : List ℕ → Fs → Fs
new_file path s =
    let old = get_or s.fs_table s.fs_count no_entry in
    record s {
      fs_table = set s.fs_table s.fs_count (record old {
        name = str_copy old.name path fs_max_filename;
        type = 0;
        attr = 0;
        parent_idx = 0xFFFF;
      });
      fs_count = s.fs_count + 1;
    }

unfoldable pub set_size : ℕ → ℕ → Fs → Fs
set_size idx len s =
    let e = get_or s.fs_table idx no_entry in
    record s { fs_table = set s.fs_table idx (record e { size = len }) }

-- The content slot behind the last one goes to the file `idx`.
unfoldable pub new_content : ℕ → Fs → Fs
new_content idx s =
    let c = get_or s.file_contents s.file_content_count no_content in
    record s {
      file_contents = set s.file_contents s.file_content_count (record c { file_idx = idx });
      file_content_count = s.file_content_count + 1;
    }

-- The first `len` bytes of the data, 4096 at most, go over the slot `c`.
unfoldable pub write_content : ℕ → List ℕ → ℕ → Fs → Fs
write_content c body len s =
    let old = get_or s.file_contents c no_content in
    let n = min len max_file_size in
    record s {
      file_contents =
          set s.file_contents c (record old { size = n; bytes = overlay (take n body) old.bytes });
    }

-- From `Update size` on.
unfoldable pub save_content_of : ℕ → List ℕ → ℕ → Fs → ℤ × Fs
save_content_of idx body len s =
    let sized = set_size idx len s in
    elim (first_index (is_content_of idx) sized.file_contents sized.file_content_count) [
      | some c ↦ (pos 0, write_content c body len sized)
      | none ↦
          if leb max_contents sized.file_content_count
          then (minus_one, sized)
          else (pos 0, write_content sized.file_content_count body len (new_content idx sized))
    ]

unfoldable pub save_file_content : List ℕ → List ℕ → ℕ → Fs → Option (ℤ × Fs)
save_file_content filename body len s = do
  path ← save_path s.current_dir filename
  elim (first_index (is_named path) s.fs_table s.fs_count) [
    | some idx ↦ some (save_content_of idx body len s)
    | none ↦
        if leb fs_max_files s.fs_count
        then some (minus_one, s)
        else some (save_content_of s.fs_count body len (new_file path s))
  ]

-- The loop that prints a content, and the newline behind it; `none` is a read behind its array.
unfoldable pub show_content : FileContent → Option (List ℕ)
show_content c =
    if ltb (length c.bytes) c.size
    then none
    else some
        (take c.size c.bytes ++ (if get_or c.bytes (c.size - 1) 0 == b'\n' then [] else b'\n' ∷ []))

-- The line that CAT prints before a content.
abbrev pub cat_line : ℕ → ℕ → List ℕ
cat_line idx count =
    codes "Looking for file_idx="
    ++ (int_to_str idx ++ (codes " in file_content_count=" ++ (int_to_str count ++ (b'\n' ∷ []))))

abbrev empty_file : List ℕ
empty_file = codes "(empty file)\n"

-- The rest of CAT for the file `idx`: its result and what it prints.
unfoldable pub cat_file : ℕ → Fs → Option (ℤ × List ℕ)
cat_file idx s =
    if (get_or s.fs_table idx no_entry).size == 0
    then some (pos 0, empty_file)
    else (let line = cat_line idx s.file_content_count in
        elim (first_index (is_content_of idx) s.file_contents s.file_content_count) [
          | none ↦ some (pos 0, line ++ empty_file)
          | some i ↦
              let c = get_or s.file_contents i no_content in
              if c.size == 0
              then some (pos 0, line ++ empty_file)
              else (do shown ← show_content c; some (pos 0, line ++ shown))
        ])

unfoldable pub cmd_cat : List ℕ → Fs → Option (ℤ × List ℕ)
cmd_cat args s =
    let name = (get_token args 64).0 in
    if peek name == 0 then some (minus_one, codes "Usage: CAT filename\n") else (do
      path ← full_path s.current_dir name
      elim (first_index (is_named_of_type 0 path) s.fs_table s.fs_count) [
        | none ↦ some (minus_one, codes "File not found\n")
        | some idx ↦ cat_file idx s
      ])

-- FORMAT, with the key that is typed.
unfoldable pub cmd_format : (dev : BlockDevice) → ℕ → Command dev
cmd_format dev key args m =
    if key == b'Y' || key == b'y'
    then some (pos 0, persist dev (record m.fs { fs_count = 0; file_content_count = 0 }) m)
    else some (pos 0, m)
