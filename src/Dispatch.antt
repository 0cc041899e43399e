-- ===== src/Dispatch.antt =====
-- `cmd_dispatch` of src/commands.c over the command table, of which the file and user rows are
-- modelled. The printing of PASSWD's prompt aside, its keys are an argument.
pub mod Runs
mod Tests
use ro_dos.Prelude.{ℕ, true, false, Option, none, some, List, [], ◌∷◌, ◌==◌, if◌then◌else◌}
use ro_dos.Prelude.Int.{pos, negsuc, is_zero}
use ro_dos.Text.{codes, peek, str_cmp, str_upper, get_token}
use ro_dos.Fs.Device.{BlockDevice}
use ro_dos.Fs.Commands.{
  Machine, Command, cmd_mkdir, cmd_rmdir, cmd_touch, cmd_del, cmd_cd, cmd_move, cmd_chmod, cmd_copy,
}
use ro_dos.Fs.Contents.{cmd_format}
use ro_dos.Fs.Users.{cmd_useradd, cmd_userdel, cmd_passwd, cmd_login, cmd_logout}

module _ (dev : BlockDevice) where
  -- A row of `commands[]`.
  abbrev pub Row : Type 0
  Row = List ℕ × Command dev

  -- The search loop, and the call of what it finds; the result is -255 at the end of the table.
  unfoldable pub run_command : List Row → List ℕ → Command dev
  run_command [] name args m = some (negsuc 254, m)
  run_command ((row, func) ∷ rows) name args m = elim (is_zero (str_cmp name row)) [
    | true ↦ func args m
    | false ↦ run_command rows name args m
  ]

  unfoldable pub cmd_dispatch : List Row → Command dev
  cmd_dispatch rows line m =
      if peek line == 0
      then some (pos 0, m)
      else (let (name, args) = get_token line 64 in run_command rows (str_upper name) args m)

  -- The rows of the functions that are modelled, in the order of the table, with the keys that are
  -- typed; a list without keys gives FORMAT the key 0. NANO and WGET, and the rows whose functions
  -- keep the file system as it is, are left out.
  unfoldable pub commands : List ℕ → List Row
  commands keys =
      (codes "MKDIR", cmd_mkdir dev)
      ∷ (codes "RMDIR", cmd_rmdir dev)
      ∷ (codes "TOUCH", cmd_touch dev)
      ∷ (codes "DEL", cmd_del dev)
      ∷ (codes "RM", cmd_del dev)
      ∷ (codes "CD", cmd_cd dev)
      ∷ (codes "COPY", cmd_copy dev)
      ∷ (codes "CP", cmd_copy dev)
      ∷ (codes "MOVE", cmd_move dev)
      ∷ (codes "MV", cmd_move dev)
      ∷ (codes "REN", cmd_move dev)
      ∷ (codes "RENAME", cmd_move dev)
      ∷ (codes "CHMOD", cmd_chmod dev)
      ∷ (codes "FORMAT", cmd_format dev (peek keys))
      ∷ (codes "USERADD", cmd_useradd dev)
      ∷ (codes "USERDEL", cmd_userdel dev)
      ∷ (codes "PASSWD", cmd_passwd dev keys)
      ∷ (codes "LOGIN", cmd_login dev)
      ∷ (codes "LOGOUT", cmd_logout dev)
      ∷ (codes "SU", cmd_login dev)
      ∷ []

  -- The lines of a session, each with the keys that are typed while it runs; the results are
  -- dropped. `none` is a fault.
  unfoldable pub run_lines : List (List ℕ × List ℕ) → Machine dev → Option (Machine dev)
  run_lines [] m = some m
  run_lines ((line, keys) ∷ lines) m = elim (cmd_dispatch (commands keys) line m) [
    | none ↦ none
    | some (_, m') ↦ run_lines lines m'
  ]
