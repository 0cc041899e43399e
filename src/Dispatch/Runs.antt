-- ===== src/Dispatch/Runs.antt =====
-- Sessions of file and user commands of src/commands.c.
use ro_dos.Prelude.{ℕ, ◌≡◌, refl, inl, inr, Option, none, some, List, [], ◌∷◌, arith, Bool-cases}
use ro_dos.Prelude.Int.{ℤ, is_zero}
use ro_dos.Text.{str_cmp, str_upper, get_token}
use ro_dos.Fs.Valid.{IsValid}
use ro_dos.Fs.Device.{BlockDevice}
use ro_dos.Fs.Commands.{Machine}
use ro_dos.Fs.Contents.Format.{cmd_format-Keeps}
use ro_dos.Text.{peek}
use ro_dos.Fs.Commands.Invariant.{
  Keeps, cmd_mkdir-Keeps, cmd_rmdir-Keeps, cmd_touch-Keeps, cmd_del-Keeps, cmd_cd-Keeps,
  cmd_copy-Keeps, cmd_move-Keeps, cmd_chmod-Keeps,
}
use ro_dos.Fs.Users.Accounts.{
  cmd_useradd-Keeps, cmd_userdel-Keeps, cmd_passwd-Keeps, cmd_login-Keeps, cmd_logout-Keeps,
}
use ro_dos.Dispatch.{Row, run_command, cmd_dispatch, commands, run_lines}

module _ (dev : BlockDevice) where
  -- Every row of a table keeps the file system valid.
  abbrev AllKeep : List (Row dev) → Type 0
  AllKeep [] = Unit {0}
  AllKeep ((name, func) ∷ rows) =
      ((args : List ℕ) (m : Machine dev) → IsValid m.fs → Keeps (func args m)) × AllKeep rows

  -- A row that keeps, in front of rows that do.
  infixr 4 ◌and_rows◌
  abbrev ◌and_rows◌ : {P Q : Type 0} → P → Q → P × Q
  p and_rows q = (p, q)

  run_command-Keeps :
      (rows : List (Row dev)) (name args : List ℕ) (m : Machine dev)
      → AllKeep rows
      → IsValid m.fs
      → Keeps (run_command dev rows name args m)
  unfolding run_command
  run_command-Keeps [] name args m all v = v
  run_command-Keeps ((row, func) ∷ rows) name args m all v =
      elim (Bool-cases (is_zero (str_cmp name row))) [
        | inl hit ↦ rw (hit, run_command) (all.0 args m v)
        | inr miss ↦ rw (miss, run_command) (run_command-Keeps rows name args m all.1 v)
      ]

  commands-AllKeep : (keys : List ℕ) → AllKeep (commands dev keys)
  unfolding commands
  commands-AllKeep keys =
      cmd_mkdir-Keeps dev
      and_rows cmd_rmdir-Keeps dev
      and_rows cmd_touch-Keeps dev
      and_rows cmd_del-Keeps dev
      and_rows cmd_del-Keeps dev
      and_rows cmd_cd-Keeps dev
      and_rows cmd_copy-Keeps dev
      and_rows cmd_copy-Keeps dev
      and_rows cmd_move-Keeps dev
      and_rows cmd_move-Keeps dev
      and_rows cmd_move-Keeps dev
      and_rows cmd_move-Keeps dev
      and_rows cmd_chmod-Keeps dev
      and_rows cmd_format-Keeps dev (peek keys)
      and_rows cmd_useradd-Keeps dev
      and_rows cmd_userdel-Keeps dev
      and_rows (λ args m v. cmd_passwd-Keeps dev args m v keys)
      and_rows cmd_login-Keeps dev
      and_rows cmd_logout-Keeps dev
      and_rows cmd_login-Keeps dev
      and_rows tt

  cmd_dispatch-Keeps :
      (keys line : List ℕ) (m : Machine dev)
      → IsValid m.fs
      → Keeps (cmd_dispatch dev (commands dev keys) line m)
  unfolding cmd_dispatch
  cmd_dispatch-Keeps keys line m v = ground (
    arith,
    run_command-Keeps (commands dev keys) (str_upper (get_token line 64).0) (get_token line 64).1 m
        (commands-AllKeep keys) v,
  )

  -- From valid tables on, no session of the modelled commands writes behind `full_path` or behind the
  -- bytes of a content, whatever the lines, the typed keys and the disk; and it leaves the tables within
  -- their arrays, each content with a size of at most 4096, and names and a current directory that are
  -- terminated inside their buffers.
  pub run_lines-IsValid :
      (lines : List (List ℕ × List ℕ)) (m : Machine dev)
      → IsValid m.fs
      → (m' : Machine dev) × (run_lines dev lines m ≡ some m') × IsValid m'.fs
  unfolding run_lines
  run_lines-IsValid [] m v = (m, refl, v)
  run_lines-IsValid ((line, keys) ∷ lines) m v =
      next (cmd_dispatch dev (commands dev keys) line m) refl (cmd_dispatch-Keeps keys line m v)
        (run_lines-IsValid lines)
    where
      next :
          (o : Option (ℤ × Machine dev))
          → cmd_dispatch dev (commands dev keys) line m ≡ o
          → Keeps o
          → ((k : Machine dev)
              → IsValid k.fs
              → (m' : Machine dev) × (run_lines dev lines k ≡ some m') × IsValid m'.fs)
          → (m' : Machine dev) × (run_lines dev ((line, keys) ∷ lines) m ≡ some m') × IsValid m'.fs
      next none e k rest = absurd k
      next (some (r, m')) e k rest =
          let (last, done, w) = rest m' k in (last, rw (e, run_lines) done, w)
