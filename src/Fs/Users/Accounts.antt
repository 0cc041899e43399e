-- ===== src/Fs/Users/Accounts.antt =====
-- What the user commands of src/commands.c do to the accounts.
use ro_dos.Prelude.{
  ℕ, ◌-◌, ◌≤◌, ◌<◌, ◌≡◌, ◌∙◌, List, [], ◌∷◌, arith, length, length-append, length-set, length-take,
}
use ro_dos.Array.Gap.{length-close_gap}
use ro_dos.Text.{get_token}
use ro_dos.Fs.{Fs, UserEntry}
use ro_dos.Fs.Valid.{IsValid}
use ro_dos.Fs.Device.{BlockDevice}
use ro_dos.Fs.Commands.{Machine, persist}
use ro_dos.Fs.Commands.Invariant.{Keeps}
use ro_dos.Fs.Users.{
  add_user, remove_user, set_password, set_current_user, read_password, type_key, cmd_useradd,
  cmd_userdel, cmd_passwd, cmd_login, cmd_logout,
}

-- The user table with other slots and another count.
users-IsValid :
    (s : Fs) (t : List UserEntry) (n : ℕ)
    → length t ≡ 32
    → n ≤ 32
    → IsValid s
    → IsValid (record s { user_table = t; user_count = n })
users-IsValid s t n l h v = record {
  files = v.files;
  file_count = v.file_count;
  names = v.names;
  user_slots = l;
  user_limit = h;
  slots = v.slots;
  sizes = v.sizes;
  slot_count = v.slot_count;
  dir_length = v.dir_length;
  dir_short = v.dir_short;
}

add_user-IsValid :
    (name : List ℕ) (s : Fs) → s.user_count < 32 → IsValid s → IsValid (add_user name s)
unfolding add_user
add_user-IsValid name s h v =
    users-IsValid s _ _ (length-set s.user_table s.user_count _ ∙ v.user_slots) (omega arith) v

remove_user-IsValid : (i : ℕ) (s : Fs) → IsValid s → IsValid (remove_user i s)
unfolding remove_user
remove_user-IsValid i s v =
    users-IsValid s _ _ (length-close_gap i (s.user_count - 1 - i) s.user_table ∙ v.user_slots)
      (omega (arith, v.user_limit)) v

set_password-IsValid : (i : ℕ) (pwd : List ℕ) (s : Fs) → IsValid s → IsValid (set_password i pwd s)
unfolding set_password
set_password-IsValid i pwd s v =
    users-IsValid s _ _ (length-set s.user_table i _ ∙ v.user_slots) v.user_limit v

set_current_user-IsValid : (name : List ℕ) (s : Fs) → IsValid s → IsValid (set_current_user name s)
unfolding set_current_user
set_current_user-IsValid name s v = record {
  files = v.files;
  file_count = v.file_count;
  names = v.names;
  user_slots = v.user_slots;
  user_limit = v.user_limit;
  slots = v.slots;
  sizes = v.sizes;
  slot_count = v.slot_count;
  dir_length = v.dir_length;
  dir_short = v.dir_short;
}

module _ (dev : BlockDevice) (args : List ℕ) (m : Machine dev) (v : IsValid m.fs) where
  pub cmd_useradd-Keeps : Keeps (cmd_useradd dev args m)
  unfolding cmd_useradd persist
  cmd_useradd-Keeps = ground (arith, add_user-IsValid (get_token args 32).0 m.fs)

  pub cmd_userdel-Keeps : Keeps (cmd_userdel dev args m)
  unfolding cmd_userdel persist
  cmd_userdel-Keeps = grind (arith, remove_user-IsValid)

  pub cmd_passwd-Keeps : (keys : List ℕ) → Keeps (cmd_passwd dev keys args m)
  unfolding cmd_passwd persist
  cmd_passwd-Keeps keys = grind (arith, set_password-IsValid)

  pub cmd_login-Keeps : Keeps (cmd_login dev args m)
  unfolding cmd_login
  cmd_login-Keeps = ground (arith, set_current_user-IsValid (get_token args 32).0 m.fs)

  pub cmd_logout-Keeps : Keeps (cmd_logout dev args m)
  unfolding cmd_logout
  cmd_logout-Keeps = set_current_user-IsValid _ m.fs v

type_key_bound : (pwd : List ℕ) (key : ℕ) → length pwd ≤ 31 → length (type_key pwd key) ≤ 31
unfolding type_key
type_key_bound pwd key h =
    ground (arith, length-take (length pwd - 1) pwd, length-append pwd (key ∷ []))

-- However many keys are typed, the password and its terminator fit in the `char[32]`.
pub length-read_password :
    (keys pwd : List ℕ) → length pwd ≤ 31 → length (read_password pwd keys) ≤ 31
unfolding read_password
length-read_password [] pwd h = h
length-read_password (key ∷ keys) pwd h =
    ground (arith, length-read_password keys (type_key pwd key), type_key_bound pwd key)
