-- ===== src/Fs/Path.antt =====
-- Paths in src/commands.c: the `full_path` that MKDIR, TOUCH, DEL, CD and CAT build from the current
-- directory and a name, and the parent directory of CD.
pub mod Bounds
pub mod Up
mod Tests
use ro_dos.Prelude.{
  ℕ, zero, suc, ◌+◌, ◌-◌, Option, none, some, List, ◌++◌, ltb, ◌==◌, if◌then◌else◌, set, get_or,
  take,
}
use ro_dos.Text.{str_len, str_copy, text}

-- The bytes that the two loops write into `full_path[256]`, each of which stops at index 255.
path_bytes : List ℕ → List ℕ → List ℕ
path_bytes dir name = take 255 (text dir) ++ take (255 - str_len dir) (text name)

-- The terminator goes to `full_path[dir_len + name_len]`, with no test: `none` is a write behind the
-- array.
unfoldable pub full_path : List ℕ → List ℕ → Option (List ℕ)
unfolding path_bytes
full_path dir name =
    if ltb (str_len dir + str_len name) 256
    then some (take (str_len dir + str_len name) (path_bytes dir name))
    else none

-- The loop that looks for the last `\`, from the index `rounds - 1` down.
pub last_slash : List ℕ → ℕ → Option ℕ
last_slash dir zero = none
last_slash dir (suc i) = if get_or dir i 0 == b'\\' then some i else last_slash dir i

-- `CD ..` on the buffer of the current directory.
unfoldable pub parent_dir : List ℕ → List ℕ
unfolding last_slash
parent_dir dir =
    if ltb 3 (str_len dir)
    then (elim (last_slash dir (str_len dir - 1)) [ none ↦ dir | some i ↦ set dir (i + 1) 0 ])
    else dir

-- The end of CD into a directory: the buffer takes the path, and a `\` if it lacks one.
unfoldable pub enter_dir : List ℕ → List ℕ → List ℕ
enter_dir dir path =
    let new = str_copy dir path 256 in
    let len = str_len new in
    if get_or new (len - 1) 0 == b'\\' then new else set (set new len b'\\') (len + 1) 0
