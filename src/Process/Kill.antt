-- ===== src/Process/Kill.antt =====
-- KILL of src/commands.c, and the processes that it does not touch.
use ro_dos.Array.{first_index, erase_at}
use ro_dos.Text.{get_token, peek, str_to_int}
use native.Mathlib.Decide.{dec_lt, ℕ_discrete}
use ro_dos.Array.Search.{first_index-none, None, first_index-some}
use ro_dos.Array.Slots.{get_elem?-take}
use ro_dos.Process.Guard.{
  behind, remove-IsGuarded, processes-remove_process, IsGuarded, get_elem?-take_lt,
  ensure-IsGuarded, IsReady,
}
use ro_dos.Prelude.{
  Option-cases, ℕ, zero, suc, ◌≤◌, ◌<◌, ◌≡◌, ap, ◌∙◌, ◌≢◌, ◌⊎◌, inl, inr, none, some, List, [], ◌∷◌,
  arith, get_elem?,
}
use ro_dos.Prelude.Int.{ℤ, pos, minus_one}
use ro_dos.Process.{
  ProcessEntry, Processes, processes, ensure_processes_init, remove_process, is_pid, cmd_kill,
}

module _ (args : List ℕ) (s : Processes) (ready : IsReady s) where
  abbrev pub target : ℕ
  target = str_to_int (get_token args 16).0

  kill_missing :
      first_index
          (is_pid target)
          (ensure_processes_init s).process_table
          (ensure_processes_init s).process_count
        ≡ none
      → ((cmd_kill args s).0 ≡ minus_one)
        × (((cmd_kill args s).1 ≡ s) ⊎ ((cmd_kill args s).1 ≡ ensure_processes_init s))
  unfolding cmd_kill
  kill_missing e = ground (arith, e)

  kill_refused :
      (peek (get_token args 16).0 ≡ 0) ⊎ (target ≤ 2)
      → ((cmd_kill args s).0 ≡ minus_one)
        × (((cmd_kill args s).1 ≡ s) ⊎ ((cmd_kill args s).1 ≡ ensure_processes_init s))
  unfolding cmd_kill
  kill_refused h = ground (arith, h)

  kill_found :
      (i : ℕ)
      → peek (get_token args 16).0 ≢ 0
      → 2 < target
      → first_index
          (is_pid target)
          (ensure_processes_init s).process_table
          (ensure_processes_init s).process_count
        ≡ some i
      → cmd_kill args s ≡ (pos 0, remove_process i (ensure_processes_init s))
  unfolding cmd_kill
  kill_found i named big e = ground (arith, e)

  -- On a table as the program starts with, or with the kernel and the shell at its front: KILL
  -- returns -1 and leaves the table, but for its first filling, as it was, if its argument is empty,
  -- is at most 2 or is no process's pid. Otherwise it returns 0 and takes out one process with the
  -- pid of its argument, which is above 2.
  pub cmd_kill_lem :
      (((peek (get_token args 16).0 ≡ 0)
          ⊎ (target ≤ 2)
          ⊎ None (is_pid target) (processes (ensure_processes_init s)))
        × ((cmd_kill args s).0 ≡ minus_one)
        × (((cmd_kill args s).1 ≡ s) ⊎ ((cmd_kill args s).1 ≡ ensure_processes_init s)))
      ⊎ ((i : ℕ) × (e : ProcessEntry) × (cmd_kill args s
            ≡ (pos 0, remove_process i (ensure_processes_init s)))
          × (get_elem? (processes (ensure_processes_init s)) i ≡ some e)
          × (e.pid ≡ target)
          × (2 < e.pid)
          × (processes (cmd_kill args s).1 ≡ erase_at i (processes (ensure_processes_init s))))
  cmd_kill_lem =
      let t = ensure_processes_init s in
      let g = ensure-IsGuarded s ready in
      elim (ℕ_discrete (peek (get_token args 16).0) 0) [
        | yes empty ↦ let r = kill_refused (inl empty) in inl (inl empty, r.0, r.1)
        | no named ↦ elim (dec_lt 2 target) [
          | no small ↦
              let r = kill_refused (inr (omega arith)) in inl (inr (inl (omega arith)), r.0, r.1)
          | yes big ↦
              elim (Option-cases (first_index (is_pid target) t.process_table t.process_count)) [
                | inl e ↦
                    let r = kill_missing e in
                    inl (
                      inr (
                          inr (first_index-none (is_pid target) t.process_table t.process_count e)),
                      r.0,
                      r.1,
                    )
                | inr (i, e) ↦
                    let (x, l, at, hit, _) =
                      first_index-some (is_pid target) t.process_table t.process_count i e in
                    let killed = kill_found i named big e in
                    let same : x.pid ≡ target = ground (arith, hit) in
                    inr (
                      i,
                      x,
                      killed,
                      get_elem?-take t.process_table t.process_count i l ∙ at,
                      same,
                      omega arith,
                      ap (λ (r : ℤ × Processes). processes r.1) killed
                          ∙ processes-remove_process i t g l,
                    )
              ]
        ]
      ]

  kill-IsReady : IsReady (cmd_kill args s).1
  kill-IsReady =
      let g = ensure-IsGuarded s ready in
      elim cmd_kill_lem [
        | inl (_, _, inl e) ↦ rw e ready
        | inl (_, _, inr e) ↦ rw e (g.slots, inr g)
        | inr (i, x, e, at, _, big, _) ↦
            rw e (removed i (behind i x (ensure_processes_init s) g at big) (inside i x at))
      ]
    where
      inside :
          (i : ℕ) (x : ProcessEntry)
          → get_elem? (processes (ensure_processes_init s)) i ≡ some x
          → i < (ensure_processes_init s).process_count
      inside i x at =
          get_elem?-take_lt (ensure_processes_init s).process_table
            (ensure_processes_init s).process_count i at

      removed :
          (i : ℕ)
          → 2 ≤ i
          → i < (ensure_processes_init s).process_count
          → IsReady (remove_process i (ensure_processes_init s))
      removed zero h l = absurd (omega arith)
      removed (suc zero) h l = absurd (omega arith)
      removed (suc (suc i)) h l =
          let r = remove-IsGuarded i (ensure_processes_init s) (ensure-IsGuarded s ready) l in
          (r.slots, inr r)

-- One KILL after the other.
abbrev pub kill_all : List (List ℕ) → Processes → Processes
kill_all [] s = s
kill_all (args ∷ lines) s = kill_all lines (cmd_kill args s).1

-- No sequence of KILLs removes the kernel or the shell: from a table as the program starts with, or
-- with the two at its front, the next use of the table finds processes whose first two have the pids
-- 1 and 2.
pub kill_all-IsGuarded :
    (lines : List (List ℕ)) (s : Processes)
    → IsReady s
    → IsGuarded (ensure_processes_init (kill_all lines s))
kill_all-IsGuarded [] s ready = ensure-IsGuarded s ready
kill_all-IsGuarded (args ∷ lines) s ready =
    kill_all-IsGuarded lines (cmd_kill args s).1 (kill-IsReady args s ready)
