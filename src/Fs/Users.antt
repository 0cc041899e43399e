-- ===== src/Fs/Users.antt =====
-- The user commands of src/commands.c, without what they print.
mod Tests
pub mod Accounts
use ro_dos.Prelude.{
  ℕ, zero, suc, ◌+◌, ◌-◌, ◌/◌, ◌%◌, ◌^◌, ◌&&◌, ◌||◌, Option, none, some, List, [], ◌∷◌, ◌++◌, ltb,
  leb, ◌==◌, if◌then◌else◌, length, set, get_or, take, replicate,
}
use ro_dos.Prelude.Int.{pos, minus_one}
use ro_dos.Array.{first_index, close_gap}
use ro_dos.Text.{peek, str_copy, hash_string, get_token}
use ro_dos.Fs.{Fs, fs_max_users, is_user, no_user}
use ro_dos.Fs.Device.{BlockDevice}
use ro_dos.Fs.Commands.{Command, persist}

-- `(char)((h >> ((i % 4) * 8)) & 0xFF)` for i = 0 … 31.
abbrev hash_bytes : ℕ → ℕ → List ℕ
hash_bytes zero h = []
hash_bytes (suc n) h =
    h % 256 ∷ h / 2 ^ 8 % 256 ∷ h / 2 ^ 16 % 256 ∷ h / 2 ^ 24 % 256 ∷ hash_bytes n h

unfoldable pub password_hash_of : List ℕ → List ℕ
password_hash_of pwd = hash_bytes 8 (hash_string pwd)

-- The search loop over the user table.
unfoldable pub find_user : List ℕ → Fs → Option ℕ
find_user name s = first_index (is_user name) s.user_table s.user_count

unfoldable pub add_user : List ℕ → Fs → Fs
add_user name s =
    let old = get_or s.user_table s.user_count no_user in
    record s {
      user_table = set s.user_table s.user_count (record {
        username = str_copy old.username name 32;
        password_hash = password_hash_of name;
      });
      user_count = s.user_count + 1;
    }

unfoldable pub remove_user : ℕ → Fs → Fs
remove_user i s = record s {
  user_table = close_gap i (s.user_count - 1 - i) s.user_table;
  user_count = s.user_count - 1;
}

unfoldable pub set_password : ℕ → List ℕ → Fs → Fs
set_password i pwd s =
    let u = get_or s.user_table i no_user in
    record s { user_table = set s.user_table i (record u { password_hash = password_hash_of pwd }) }

unfoldable pub set_current_user : List ℕ → Fs → Fs
set_current_user name s = record s { current_user = str_copy s.current_user name 32 }

-- One key of PASSWD on the password typed so far.
type_key : List ℕ → ℕ → List ℕ
type_key pwd key =
    if key == 8 && ltb 0 (length pwd)
    then take (length pwd - 1) pwd
    else if leb 32 key && leb key 126 && ltb (length pwd) 31
    then pwd ++ (key ∷ [])
    else pwd

-- The keys up to the first Enter; a list of keys without one stands for the keys before it.
unfoldable pub read_password : List ℕ → List ℕ → List ℕ
unfolding type_key
read_password pwd [] = pwd
read_password pwd (key ∷ keys) =
    if key == 13 || key == 10 then pwd else read_password (type_key pwd key) keys

module _ (dev : BlockDevice) where
  unfoldable pub cmd_useradd : Command dev
  cmd_useradd args m =
      let name = (get_token args 32).0 in
      if peek name == 0
      then some (minus_one, m)
      else if leb fs_max_users m.fs.user_count
      then some (minus_one, m)
      else (elim (find_user name m.fs) [
        | some _ ↦ some (minus_one, m)
        | none ↦ some (pos 0, persist dev (add_user name m.fs) m)
      ])

  unfoldable pub cmd_userdel : Command dev
  cmd_userdel args m =
      let name = (get_token args 32).0 in
      if peek name == 0 then some (minus_one, m) else (elim (find_user name m.fs) [
        | none ↦ some (minus_one, m)
        | some i ↦ some (pos 0, persist dev (remove_user i m.fs) m)
      ])

  -- With the keys that are typed. Without an argument the user is the current one.
  unfoldable pub cmd_passwd : List ℕ → Command dev
  cmd_passwd keys args m =
      let token = (get_token args 32).0 in
      let name =
        if peek token == 0 then str_copy (replicate 32 0) m.fs.current_user 32 else token in
      elim (find_user name m.fs) [
        | none ↦ some (minus_one, m)
        | some i ↦ some (pos 0, persist dev (set_password i (read_password [] keys) m.fs) m)
      ]

  unfoldable pub cmd_login : Command dev
  cmd_login args m =
      let name = (get_token args 32).0 in
      if peek name == 0 then some (minus_one, m) else (elim (find_user name m.fs) [
        | none ↦ some (minus_one, m)
        | some _ ↦ some (pos 0, record m { fs = set_current_user name m.fs })
      ])

  unfoldable pub cmd_logout : Command dev
  cmd_logout args m =
      some (pos 0, record m { fs = set_current_user (b'r' ∷ b'o' ∷ b'o' ∷ b't' ∷ []) m.fs })
