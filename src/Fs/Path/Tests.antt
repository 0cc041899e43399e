-- ===== src/Fs/Path/Tests.antt =====
-- Paths at the bound of `full_path`.
use ro_dos.Prelude.{◌+◌, ◌≡◌, refl, none, some, ◌++◌, ltb, if◌then◌else◌, length, replicate}
use ro_dos.Text.{codes, str_len, text}
use ro_dos.Fs.Path.{full_path, parent_dir}
use ro_dos.Fs.Path.Bounds.{full_path_lem}

parent_dir_runs : text (parent_dir (codes "C:\\a\\b\\")) ≡ codes "C:\\a\\"
unfolding parent_dir str_len
parent_dir_runs = refl

full_path_lem_example : full_path (replicate 200 1) (replicate 56 2) ≡ (
    if ltb (length (text (replicate 200 1)) + length (text (replicate 56 2))) 256
    then some (text (replicate 200 1) ++ text (replicate 56 2))
    else none)
full_path_lem_example = full_path_lem (replicate 200 1) (replicate 56 2)
