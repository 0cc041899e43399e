-- ===== src/Process.antt =====
-- The simulated process table of src/commands.c: `ensure_processes_init`, PS and KILL.
pub mod Guard
pub mod Kill
mod Tests
use ro_dos.Prelude.{
  ℕ, ◌-◌, Bool, none, some, List, [], ◌∷◌, ◌++◌, leb, ◌==◌, if◌then◌else◌, length, set, get_or,
  take, replicate,
}
use ro_dos.Prelude.Int.{ℤ, pos, minus_one}
use ro_dos.Array.{first_index, close_gap}
use ro_dos.Text.{codes, peek, str_copy, str_to_int, int_to_str, get_token, text}

-- `ProcessEntry`
pub record ProcessEntry : Type 0 where
  pub pid : ℕ
  pub name : List ℕ
  pub state : List ℕ
  pub mem_usage : ℕ
  pub priority : ℕ

-- `process_table[16]` and `process_count`.
pub record Processes : Type 0 where
  pub process_table : List ProcessEntry
  pub process_count : ℕ

abbrev no_process : ProcessEntry
no_process = record { pid = 0; name = []; state = []; mem_usage = 0; priority = 0 }

-- The processes that count.
abbrev pub processes : Processes → List ProcessEntry
processes s = take s.process_count s.process_table

-- The five assignments to `process_table[i]`.
unfoldable pub set_process : ℕ → ℕ → List ℕ → List ℕ → ℕ → ℕ → List ProcessEntry → List ProcessEntry
set_process i pid name state mem_usage priority table =
    let old = get_or table i no_process in
    set table i (record {
      pid = pid;
      name = str_copy old.name name 32;
      state = str_copy old.state state 16;
      mem_usage = mem_usage;
      priority = priority;
    })

unfoldable pub ensure_processes_init : Processes → Processes
unfolding set_process
ensure_processes_init s =
    if s.process_count == 0
    then record {
      process_table = set_process 3 4 (codes "DISPSVC") (codes "SLEEPING") 48 15 (
          set_process 2 3 (codes "NETSVC") (codes "SLEEPING") 32 10 (
            set_process 1 2 (codes "SHELL") (codes "RUNNING") 64 10
              (set_process 0 1 (codes "KERNEL") (codes "RUNNING") 128 0 s.process_table)));
      process_count = 4;
    }
    else s

-- The loop `for (k = 0; k < width - len; k++) putc(' ')` behind a text.
abbrev pad_to : ℕ → List ℕ → List ℕ
pad_to width s = s ++ replicate (width - length s) b' '

-- A row of PS.
abbrev ps_row : ProcessEntry → List ℕ
ps_row p =
    pad_to 5 (int_to_str p.pid)
    ++ (pad_to 16 (text p.name)
        ++ (pad_to 12 (text p.state)
            ++ (pad_to 6 (int_to_str p.mem_usage ++ (b'K' ∷ []))
                ++ (int_to_str p.priority ++ (b'\n' ∷ [])))))

abbrev ps_rows : List ProcessEntry → List ℕ
ps_rows [] = []
ps_rows (p ∷ ps) = ps_row p ++ ps_rows ps

-- The table afterwards, and what is printed.
unfoldable pub cmd_ps : Processes → Processes × List ℕ
unfolding ensure_processes_init
cmd_ps s =
    let t = ensure_processes_init s in
    (
      t,
      codes "PID  NAME            STATE       MEM   PRI\n"
          ++ (codes "---  ----            -----       ---   ---\n" ++ ps_rows (processes t)),
    )

unfoldable pub remove_process : ℕ → Processes → Processes
remove_process i s = record {
  process_table = close_gap i (s.process_count - 1 - i) s.process_table;
  process_count = s.process_count - 1;
}

-- process_table[i].pid == pid
abbrev pub is_pid : ℕ → ProcessEntry → Bool
is_pid pid p = p.pid == pid

unfoldable pub cmd_kill : List ℕ → Processes → ℤ × Processes
cmd_kill args s =
    let pid_str = (get_token args 16).0 in
    if peek pid_str == 0
    then (minus_one, s)
    else (let t = ensure_processes_init s in
        let pid = str_to_int pid_str in
        if leb pid 2
        then (minus_one, t)
        else (elim (first_index (is_pid pid) t.process_table t.process_count) [
          | none ↦ (minus_one, t)
          | some i ↦ (pos 0, remove_process i t)
        ]))
