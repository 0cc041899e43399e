-- ===== src/Stack/Connect.antt =====
-- `tcp_connect` of src/tcp_ip_stack.c. The clock is not modelled: the polls of a try are those that are
-- made before its time is over, each with what the driver's `recv_packet` answers.
use ro_dos.Prelude.{
  ℕ, ◌+◌, ◌%◌, ◌≡◌, ◌⊎◌, Bool, true, false, not, ◌||◌, Option, none, some, List, [], ◌∷◌, ◌==◌,
  if◌then◌else◌, take,
}
use ro_dos.Prelude.Int.{ℤ, pos, ltb_ℤ, minus_one}
use ro_dos.Net.{netif_get_default}
use ro_dos.Tcp.{Tcb, TcpState, Sent, tcp_closed, tcp_syn_sent, tcp_established, tcp_fin_wait}
use ro_dos.Stack.{Stack, tcp_send_packet, poll}

abbrev pub is_established : TcpState → Bool
is_established tcp_established = true
is_established tcp_closed = false
is_established tcp_syn_sent = false
is_established tcp_fin_wait = false

-- A change of the connection.
abbrev pub with_tcb : Tcb → Stack → Stack
with_tcb t k = record k { tcb = t }

abbrev pub with_state : TcpState → Stack → Stack
with_state state k = record k { tcb = record k.tcb { state = state } }

-- Polls until the connection is established or the time is over.
unfoldable pub wait_established : (List ℕ → ℕ → ℤ) → List (ℕ → ℤ × List ℕ) → Stack → Option Stack
wait_established driver [] k = some k
wait_established driver (arrives ∷ polls) k = elim (poll driver arrives k) [
  | none ↦ none
  | some u ↦
      let rest = wait_established driver polls u in
      if is_established u.tcb.state then some u else rest
]

-- The SYN of a connection.
abbrev syn : Tcb → Sent
syn t = record {
  dest_ip = t.remote_ip;
  dest_port = t.remote_port;
  src_port = t.local_port;
  seq = t.snd_nxt;
  ack = 0;
  flags = 0x02;
  payload = [];
}

-- One try, with the polls that it has time for. A SYN that is not sent leaves the state.
unfoldable pub try_connect : (List ℕ → ℕ → ℤ) → List (ℕ → ℤ × List ℕ) → Stack → Option Stack
unfolding wait_established
try_connect driver polls k = elim (tcp_send_packet driver (syn k.tcb) k) [
  | none ↦ none
  | some r ↦
      if ltb_ℤ r.0 (pos 0)
      then some r.1
      else wait_established driver polls (with_state tcp_syn_sent r.1)
]

-- The tries, of which the code makes five; a SYN that is not sent goes on with the next try at once.
unfoldable pub try_all :
    (List ℕ → ℕ → ℤ) → List (List (ℕ → ℤ × List ℕ)) → Stack → Option (ℤ × Stack)
unfolding try_connect
try_all driver [] k = some (minus_one, with_state tcp_closed k)
try_all driver (polls ∷ tries) k = elim (try_connect driver polls k) [
  | none ↦ none
  | some u ↦
      let rest = try_all driver tries u in
      if is_established u.tcb.state then some (pos 0, u) else rest
]

-- The connection before the first SYN; `port_ticks` and `ticks` are two readings of the clock.
abbrev pub fresh : ℕ → ℕ → ℕ → ℕ → Tcb → Tcb
fresh dest_ip dest_port port_ticks ticks t = record t {
  state = tcp_closed;
  rx_len = 0;
  rx_processed = 0;
  has_data = false;
  remote_ip = dest_ip;
  remote_port = dest_port;
  local_port = 10000 + port_ticks % 50000;
  snd_nxt = ticks;
  rcv_nxt = 0;
}

unfoldable pub tcp_connect :
    (List ℕ → ℕ → ℤ) → List (List (ℕ → ℤ × List ℕ)) → ℕ → ℕ → ℕ → ℕ → Stack → Option (ℤ × Stack)
unfolding try_all netif_get_default
tcp_connect driver tries dest_ip dest_port port_ticks ticks k =
    let t = fresh dest_ip dest_port port_ticks ticks k.tcb in
    (elim (netif_get_default k.netif) [
      | none ↦ some (minus_one, with_tcb t k)
      | some net ↦
          if not net.link_up || net.ip_addr == 0
          then some (minus_one, with_tcb t k)
          else try_all driver (take 5 tries) (with_tcb (record t { local_ip = net.ip_addr }) k)
    ])

-- The state that goes with a result; a connect that does not return agrees with nothing.
abbrev pub Agrees : Option (ℤ × Stack) → Type 0
Agrees none = ⊥
Agrees (some (r, k)) =
    ((r ≡ pos 0) × (is_established k.tcb.state ≡ true))
    ⊎ ((r ≡ minus_one) × (k.tcb.state ≡ tcp_closed))

-- What arrives in a poll is taken whatever the state is: no write goes behind the receive buffer.
abbrev pub AreTaken : (List ℕ → ℕ → ℤ) → List (ℕ → ℤ × List ℕ) → Type 0
AreTaken driver [] = Unit {0}
AreTaken driver (arrives ∷ polls) =
    ((k : Stack) → (u : Stack) × (poll driver arrives k ≡ some u)) × AreTaken driver polls

abbrev pub AllTaken : (List ℕ → ℕ → ℤ) → List (List (ℕ → ℤ × List ℕ)) → Type 0
AllTaken driver [] = Unit {0}
AllTaken driver (polls ∷ tries) = AreTaken driver polls × AllTaken driver tries
