-- ===== src/Process/Tests.antt =====
-- The process table from its start on.
use ro_dos.Process.Guard.{IsGuarded}
use ro_dos.Text.{peek, str_to_int, get_token, codes}
use ro_dos.Array.{erase_at, first_index}
use ro_dos.Process.Kill.{kill_all-IsGuarded, cmd_kill_lem, kill_all, target}
use ro_dos.Array.Search.{None}
use ro_dos.Prelude.{◌≤◌, ℕ, ◌<◌, ◌≡◌, refl, ◌⊎◌, inl, some, List, [], ◌∷◌, get_elem?, replicate}
use ro_dos.Prelude.Int.{pos, minus_one}
use ro_dos.Process.{
  is_pid, Processes, ProcessEntry, processes, cmd_kill, ensure_processes_init, remove_process,
}

abbrev zeroed : ProcessEntry
zeroed = record {
  pid = 0;
  name = replicate 32 0;
  state = replicate 16 0;
  mem_usage = 0;
  priority = 0;
}

abbrev started : Processes
started = record { process_table = replicate 16 zeroed; process_count = 0 }

abbrev three : List ℕ
three = codes "3"

kill_runs : (cmd_kill three started).1.process_count ≡ 3
unfolding cmd_kill ensure_processes_init first_index get_token str_to_int remove_process
kill_runs = refl

cmd_kill_lem_example :
    (((peek (get_token three 16).0 ≡ 0)
        ⊎ (target three started (refl, inl refl) ≤ 2)
        ⊎ None
            (is_pid (target three started (refl, inl refl)))
            (processes (ensure_processes_init started)))
      × ((cmd_kill three started).0 ≡ minus_one)
      × (((cmd_kill three started).1 ≡ started)
          ⊎ ((cmd_kill three started).1 ≡ ensure_processes_init started)))
    ⊎ ((i : ℕ) × (e : ProcessEntry) × (cmd_kill three started
          ≡ (pos 0, remove_process i (ensure_processes_init started)))
        × (get_elem? (processes (ensure_processes_init started)) i ≡ some e)
        × (e.pid ≡ target three started (refl, inl refl))
        × (2 < e.pid)
        × (processes (cmd_kill three started).1
            ≡ erase_at i (processes (ensure_processes_init started))))
cmd_kill_lem_example = cmd_kill_lem three started (refl, inl refl)

kill_all-IsGuarded_example :
    IsGuarded (ensure_processes_init (kill_all (codes "1" ∷ codes "3" ∷ codes "2" ∷ []) started))
kill_all-IsGuarded_example =
    kill_all-IsGuarded (codes "1" ∷ codes "3" ∷ codes "2" ∷ []) started (refl, inl refl)
