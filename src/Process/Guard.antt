-- ===== src/Process/Guard.antt =====
-- The kernel and the shell at the front of the process table of src/commands.c.
use ro_dos.Array.{close_gap, erase_at}
use ro_dos.Array.Gap.{length-close_gap, take-close_gap}
use ro_dos.Prelude.{
  ℕ, zero, suc, ◌+◌, ◌-◌, ◌≤◌, ◌<◌, ◌≡◌, refl, sym, ap, ◌∙◌, ◌⊎◌, inl, inr, false, Option, none,
  some, List, [], ◌∷◌, arith, ◌==◌, length, get_elem?, take, length-set, length-take,
}
use ro_dos.Process.{
  ProcessEntry, Processes, processes, ensure_processes_init, remove_process, set_process,
}

-- The table as the program starts, or with the kernel and the shell at its front.
pub record IsGuarded (s : Processes) : Type 0 where
  pub kernel : ProcessEntry
  pub shell : ProcessEntry
  pub others : List ProcessEntry
  pub slots : length s.process_table ≡ 16
  pub live : processes s ≡ kernel ∷ shell ∷ others
  pub kernel_pid : kernel.pid ≡ 1
  pub shell_pid : shell.pid ≡ 2
  pub limit : s.process_count ≤ 16

length-set_process :
    (i pid : ℕ) (name state : List ℕ) (mem priority : ℕ) (t : List ProcessEntry)
    → length (set_process i pid name state mem priority t) ≡ length t
unfolding set_process
length-set_process i pid name state mem priority t = length-set t i _

-- The first use of the table fills it.
first_use-IsGuarded :
    (t : List ProcessEntry)
    → length t ≡ 16
    → IsGuarded (ensure_processes_init (record { process_table = t; process_count = 0 }))
unfolding ensure_processes_init set_process
first_use-IsGuarded (a ∷ b ∷ c ∷ d ∷ t) h = record {
  kernel = _;
  shell = _;
  others = _;
  slots = h;
  live = refl;
  kernel_pid = refl;
  shell_pid = refl;
  limit = omega arith;
}
first_use-IsGuarded [] h = absurd (omega arith)
first_use-IsGuarded (a ∷ []) h = absurd (omega arith)
first_use-IsGuarded (a ∷ b ∷ []) h = absurd (omega arith)
first_use-IsGuarded (a ∷ b ∷ c ∷ []) h = absurd (omega arith)

-- A table that is as the program starts, or guarded.
abbrev pub IsReady : Processes → Type 0
IsReady s = (length s.process_table ≡ 16) × ((s.process_count ≡ 0) ⊎ IsGuarded s)

guarded_count : (s : Processes) → IsGuarded s → 2 ≤ s.process_count
guarded_count s g = omega (arith, ap length g.live, length-take s.process_count s.process_table)

pub ensure-IsGuarded : (s : Processes) → IsReady s → IsGuarded (ensure_processes_init s)
unfolding ensure_processes_init
ensure-IsGuarded s (h, inl e) = rw e (first_use-IsGuarded s.process_table h)
ensure-IsGuarded s (h, inr g) =
    let some_process : (s.process_count == 0) ≡ false = ground (arith, guarded_count s g) in
    rw some_process g

pub processes-remove_process :
    (i : ℕ) (s : Processes)
    → IsGuarded s
    → i < s.process_count
    → processes (remove_process i s) ≡ erase_at i (processes s)
unfolding remove_process
processes-remove_process i s g h =
    let last : i + (s.process_count - 1 - i) ≡ s.process_count - 1 = omega arith in
    let all : suc (s.process_count - 1) ≡ s.process_count = omega arith in
    ap (λ k. take k (close_gap i (s.process_count - 1 - i) s.process_table)) (sym last)
    ∙ take-close_gap i (s.process_count - 1 - i) s.process_table (omega (arith, g.slots, g.limit))
    ∙ ap (λ k. erase_at i (take k s.process_table)) (ap suc last ∙ all)

abbrev pid_of : Option ProcessEntry → ℕ
pid_of none = 0
pid_of (some e) = e.pid

pub get_elem?-take_lt {ℓ} :
    {A : Type ℓ} (xs : List A) (n k : ℕ) {x : A} → get_elem? (take n xs) k ≡ some x → k < n
get_elem?-take_lt [] zero k e = cc
get_elem?-take_lt [] (suc n) k e = cc
get_elem?-take_lt (y ∷ xs) zero k e = cc
get_elem?-take_lt (y ∷ xs) (suc n) zero e = omega arith
get_elem?-take_lt (y ∷ xs) (suc n) (suc k) e = let l = get_elem?-take_lt xs n k e in omega arith

-- A process that is neither the kernel nor the shell stands behind them.
pub behind :
    (i : ℕ) (e : ProcessEntry) (s : Processes)
    → IsGuarded s
    → get_elem? (processes s) i ≡ some e
    → 2 < e.pid
    → 2 ≤ i
behind zero e s g at l =
    absurd (omega (arith, ap pid_of (sym at ∙ ap (λ t. get_elem? t 0) g.live), g.kernel_pid))
behind (suc zero) e s g at l =
    absurd (omega (arith, ap pid_of (sym at ∙ ap (λ t. get_elem? t 1) g.live), g.shell_pid))
behind (suc (suc i)) e s g at l = omega arith

pub remove-IsGuarded :
    (i : ℕ) (s : Processes)
    → IsGuarded s
    → suc (suc i) < s.process_count
    → IsGuarded (remove_process (suc (suc i)) s)
unfolding remove_process
remove-IsGuarded i s g h = record {
  kernel = g.kernel;
  shell = g.shell;
  others = erase_at i g.others;
  slots =
      length-close_gap (suc (suc i)) (s.process_count - 1 - suc (suc i)) s.process_table ∙ g.slots;
  live = processes-remove_process (suc (suc i)) s g h ∙ ap (erase_at (suc (suc i))) g.live;
  kernel_pid = g.kernel_pid;
  shell_pid = g.shell_pid;
  limit = omega (arith, g.limit);
}
