-- ===== src/Fs/Commands/Cd.antt =====
-- CD of src/commands.c: into a directory and up again.
use mathlib.Core.List.{append_assoc}
use ro_dos.Prelude.{
  length-append, ℕ, ◌+◌, ◌≤◌, ◌<◌, ◌≡◌, refl, ap, ◌∙◌, ◌≢◌, some, List, [], ◌∷◌, ◌++◌, arith,
  length, length-append,
}
use ro_dos.Prelude.Int.{pos}
use ro_dos.Array.{first_index}
use ro_dos.Text.{codes, peek, str_cmp, get_token, text}
use ro_dos.Text.Copy.{text-append}
use ro_dos.Fs.{is_named_of_type}
use ro_dos.Fs.Valid.{IsValid}
use ro_dos.Fs.Path.{parent_dir, enter_dir}
use ro_dos.Fs.Path.Bounds.{enter_dir_lem}
use ro_dos.Fs.Path.Up.{IsPlain, enter_dir_plain, up_again, last-append_plain}
use ro_dos.Fs.Device.{BlockDevice}
use ro_dos.Fs.Commands.{Machine, persist, cmd_cd}
use ro_dos.Fs.Commands.Create.{path_of}
use ro_dos.Fs.Commands.Invariant.{path_fits, token_short}

module _ (dev : BlockDevice) (args : List ℕ) (m : Machine dev) where
  cd_enters :
      (i : ℕ)
      → IsValid m.fs
      → peek (get_token args 64).0 ≢ 0
      → str_cmp (get_token args 64).0 (b'.' ∷ b'.' ∷ []) ≢ pos 0
      → first_index (is_named_of_type 1 (path_of m.fs args)) m.fs.fs_table m.fs.fs_count ≡ some i
      → cmd_cd dev args m
        ≡ some (
          pos 0,
          persist dev
              (record m.fs { current_dir = enter_dir m.fs.current_dir (path_of m.fs args) })
              m,
        )
  unfolding cmd_cd
  cd_enters i v named down found = rw (path_fits m.fs args v) (ground (arith, found))

cd_up :
    (dev : BlockDevice) (m : Machine dev)
    → cmd_cd dev (codes "..") m
      ≡ some (pos 0, persist dev (record m.fs { current_dir = parent_dir m.fs.current_dir }) m)
unfolding cmd_cd get_token str_cmp
cd_up dev m = refl

some_text : (s : List ℕ) → peek s ≢ 0 → 0 < length (text s)
some_text [] h = absurd (h refl)
some_text (c ∷ s) h = ground arith

module _ (dev : BlockDevice) (args : List ℕ) (m : Machine dev) (v : IsValid m.fs) where
  abbrev entered : Machine dev
  entered =
      persist dev (record m.fs { current_dir = enter_dir m.fs.current_dir (path_of m.fs args) }) m

  text-path_of : text (path_of m.fs args) ≡ path_of m.fs args
  text-path_of = text-append m.fs.current_dir (get_token args 64).0

  -- The path of CD fits in the buffer of the current directory.
  length-path_of : length (path_of m.fs args) ≤ 254
  length-path_of = omega (
    arith,
    length-append (text m.fs.current_dir) (text (get_token args 64).0),
    v.dir_short,
    token_short args,
  )

  -- On valid tables, CD into a directory of the table with a name, not empty and not `..`, free of `\`, followed by CD .., both succeed, if the current
  -- directory ends in `\` and has two characters or more: the first appends the name and a `\` to the
  -- current directory, and the second brings it back.
  pub cmd_cd_up :
      (i : ℕ) (p : List ℕ)
      → text m.fs.current_dir ≡ p ++ (b'\\' ∷ [])
      → 2 ≤ length (text m.fs.current_dir)
      → peek (get_token args 64).0 ≢ 0
      → str_cmp (get_token args 64).0 (b'.' ∷ b'.' ∷ []) ≢ pos 0
      → IsPlain (text (get_token args 64).0)
      → first_index (is_named_of_type 1 (path_of m.fs args)) m.fs.fs_table m.fs.fs_count ≡ some i
      → (m' m'' : Machine dev) × (cmd_cd dev args m ≡ some (pos 0, m'))
        × (text m'.fs.current_dir ≡ path_of m.fs args ++ (b'\\' ∷ []))
        × (cmd_cd dev (codes "..") m' ≡ some (pos 0, m''))
        × (text m''.fs.current_dir ≡ text m.fs.current_dir)
  unfolding persist
  cmd_cd_up i p ends long named down plain found =
      let name = text (get_token args 64).0 in
      let some_name = some_text (get_token args 64).0 named in
      let new = enter_dir m.fs.current_dir (path_of m.fs args) in
      let n : length (path_of m.fs args) ≡ length (text m.fs.current_dir) + length name =
        length-append _ _ in
      let same = text-path_of in
      let bound = length-path_of in
      let text-new : text new ≡ path_of m.fs args ++ (b'\\' ∷ []) =
        enter_dir_plain m.fs.current_dir (path_of m.fs args) v.dir_length (rw same (omega arith))
          (rw same bound) (rw same (last-append_plain (text m.fs.current_dir) name plain some_name))
        ∙ ap (λ s. s ++ (b'\\' ∷ [])) same in
      let len = length-append (path_of m.fs args) (b'\\' ∷ []) in
      let size =
        (enter_dir_lem m.fs.current_dir (path_of m.fs args) v.dir_length (rw same bound)).0 in
      (
        entered,
        persist dev (record entered.fs { current_dir = parent_dir new }) entered,
        cd_enters dev args m i v named down found,
        text-new,
        cd_up dev entered,
        up_again m.fs.current_dir p name ends plain new
            (text-new ∙ append_assoc (text m.fs.current_dir) name (b'\\' ∷ [])) some_name
            (omega (arith, ap length text-new)) (omega (arith, ap length text-new)),
      )
