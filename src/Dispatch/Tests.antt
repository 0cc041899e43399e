-- ===== src/Dispatch/Tests.antt =====
-- A session of several commands.
use ro_dos.Prelude.{ℕ, ◌≡◌, some, List, [], ◌∷◌}
use ro_dos.Text.{codes}
use ro_dos.Fs.Valid.{IsValid}
use ro_dos.Fs.Device.{ram_disk}
use ro_dos.Fs.Examples.{machine, machine-IsValid}
use ro_dos.Fs.Commands.{Machine}
use ro_dos.Dispatch.{run_lines}
use ro_dos.Dispatch.Runs.{run_lines-IsValid}

abbrev session : List (List ℕ × List ℕ)
session =
    (codes "mkdir docs", [])
    ∷ (codes "cd docs", [])
    ∷ (codes "touch b.txt", [])
    ∷ (codes "useradd guest", [])
    ∷ (codes "passwd guest", codes "secret")
    ∷ (codes "del b.txt", [])
    ∷ []

run_lines-IsValid_example :
    (m' : Machine ram_disk) × (run_lines ram_disk session machine ≡ some m') × IsValid m'.fs
run_lines-IsValid_example = run_lines-IsValid ram_disk session machine machine-IsValid
