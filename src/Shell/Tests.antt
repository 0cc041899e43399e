-- ===== src/Shell/Tests.antt =====
-- Lines that are typed.
use ro_dos.Prelude.{
  ℕ, zero, suc, ◌<◌, ◌≡◌, refl, Option, none, some, List, [], ◌∷◌, ◌++◌, map, arith, length, get_or,
  replicate, length-replicate,
}
use ro_dos.Text.{codes, text, str_upper}
use ro_dos.Array.{pad}
use ro_dos.Shell.{Shell, Key, shell_round, add_history}
use ro_dos.Shell.Keys.{IsShell, AfterRound, shell_round-IsShell}
use ro_dos.Shell.Typing.{key_of, enter, shell_round-typed}
use ro_dos.Shell.History.{IsHistory, held, held-add_history}

abbrev started : Shell
started = record {
  line = replicate 256 0;
  pos = 0;
  history = replicate 20 (replicate 256 0);
  history_count = 0;
  history_pos = 0;
}

started-IsShell : IsShell started
started-IsShell = record {
  size = length-replicate {A = ℕ} 256 0;
  inside = omega arith;
  few = omega arith;
  place = omega arith;
}

-- Up with an empty history, a letter, backspace twice, and Enter.
abbrev keys : List Key
keys = record { key = 0; scan = 0x48 } ∷ key_of b'a' ∷ key_of 8 ∷ key_of 8 ∷ enter ∷ []

shell_round-IsShell_example : AfterRound (shell_round keys started)
shell_round-IsShell_example = shell_round-IsShell keys started started-IsShell

shell_round-typed_example :
    (t : Shell) × (shell_round (map key_of (codes "dir") ++ (enter ∷ [])) started
      ≡ some (some (pad 256 (str_upper (codes "dir"))), t))
shell_round-typed_example =
    shell_round-typed (codes "di") b'r' started
      (omega arith, omega arith, (omega arith, omega arith, (omega arith, omega arith, tt)))
      (omega arith) (omega arith)

-- A line that Ctrl-C ends is run all the same.
abbrev interrupted : Option (List ℕ)
interrupted = elim (shell_round (key_of b'd' ∷ key_of b'e' ∷ key_of b'l' ∷ key_of 3 ∷ []) started) [
  | none ↦ none
  | some r ↦ (elim r.0 [ none ↦ none | some l ↦ some (text l) ])
]

interrupted_run : interrupted ≡ some (codes "DEL")
unfolding shell_round str_upper
interrupted_run = refl

-- A shell with a line and one in its history.
abbrev typed : Shell
typed = record started {
  line = pad 256 (codes "cd");
  history = pad 256 (codes "dir") ∷ replicate 19 (replicate 256 0);
  history_count = 1;
}

row_size : (n i : ℕ) → i < n → length (get_or (replicate n (replicate {A = ℕ} 256 0)) i []) ≡ 256
row_size zero i h = absurd (omega arith)
row_size (suc n) zero h = refl
row_size (suc n) (suc i) h = row_size n i (omega arith)

typed_size : (i : ℕ) → i < 20 → length (get_or typed.history i []) ≡ 256
typed_size zero h = refl
typed_size (suc i) h = row_size 19 i (omega arith)

typed-IsHistory : IsHistory typed
typed-IsHistory = record { rows = refl; sizes = typed_size; few = omega arith }

held-add_history_example : held (add_history typed) ≡ codes "dir" ∷ codes "cd" ∷ []
held-add_history_example = held-add_history typed typed-IsHistory
