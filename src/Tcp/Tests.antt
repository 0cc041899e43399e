-- ===== src/Tcp/Tests.antt =====
-- Two segments on a connection, and one that is too short.
use ro_dos.Tcp.Receive.{IsConsistent}
use ro_dos.Tcp.Faults.{tcp_process_fault}
use ro_dos.Prelude.{
  ℕ, ◌*◌, ◌≡◌, refl, false, none, some, List, [], ◌∷◌, ◌++◌, arith, replicate, length-replicate,
}
use ro_dos.Text.{codes}
use ro_dos.Tcp.{Tcb, tcp_process, tcp_established}
use ro_dos.Tcp.Steps.{unread}
use ro_dos.Tcp.Session.{run_events-delivered, delivered, Event, arrive, read, run_events}

-- A segment with a header of `4 * words` bytes, the flag ACK and a payload behind 20 bytes.
abbrev segment : ℕ → List ℕ → List ℕ
segment words body = replicate 12 0 ++ (16 * words ∷ 0x10 ∷ (replicate 6 0 ++ body))

abbrev open_tcb : Tcb
open_tcb = record {
  state = tcp_established;
  local_ip = 1;
  remote_ip = 2;
  local_port = 10000;
  remote_port = 80;
  snd_nxt = 5;
  rcv_nxt = 9;
  rx_buffer = replicate 16384 0;
  rx_len = 0;
  rx_processed = 0;
  has_data = false;
}

open_tcb-IsConsistent : IsConsistent open_tcb
open_tcb-IsConsistent = record {
  buffer = length-replicate {A = ℕ} 16384 0;
  room = omega arith;
  read = omega arith;
}

abbrev session : List Event
session = arrive (segment 5 (codes "hel")) ∷ read 2 ∷ arrive (segment 5 (codes "lo")) ∷ read 9 ∷ []

run_events-delivered_example :
    (u : Tcb) × (run_events session open_tcb
      ≡ some (delivered session open_tcb.state open_tcb.rx_len (unread open_tcb), u))
    × IsConsistent u
run_events-delivered_example =
    run_events-delivered session open_tcb
      ((omega arith, omega arith), ((omega arith, omega arith), tt)) open_tcb-IsConsistent

-- The reads get `he` and then `llo`.
hello_run : delivered session open_tcb.state 0 [] ≡ codes "hello"
hello_run = refl

-- The connection after four bytes.
abbrev used_tcb : Tcb
used_tcb = record open_tcb { rx_len = 4 }

used_tcb-IsConsistent : IsConsistent used_tcb
used_tcb-IsConsistent = record {
  buffer = length-replicate {A = ℕ} 16384 0;
  room = omega arith;
  read = omega arith;
}

tcp_process_fault_example : tcp_process (segment 6 []) used_tcb ≡ none
tcp_process_fault_example =
    tcp_process_fault (segment 6 []) used_tcb used_tcb-IsConsistent refl (omega arith) (omega arith)
      (omega arith) (omega arith)
