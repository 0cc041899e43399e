-- ===== src/Fs/Users/Tests.antt =====
-- Typing a password.
use ro_dos.Prelude.{◌≤◌, ◌≡◌, refl, [], ◌∷◌, arith, length, replicate}
use ro_dos.Text.{codes}
use ro_dos.Fs.Users.{read_password}
use ro_dos.Fs.Users.Accounts.{length-read_password}

read_password_runs : read_password [] (b'a' ∷ b'x' ∷ 8 ∷ b'b' ∷ 13 ∷ b'c' ∷ []) ≡ codes "ab"
unfolding read_password
read_password_runs = refl

length-read_password_example : length (read_password [] (replicate 40 b'x')) ≤ 31
length-read_password_example = length-read_password (replicate 40 b'x') [] (omega arith)
