-- ===== src/Tcp/Steps.antt =====
-- What a segment and a read leave of a connection of src/tcp_ip_stack.c.
use mathlib.Core.List.{append-nil}
use ro_dos.Prelude.{
  ℕ, ◌+◌, ◌-◌, ◌/◌, ◌%◌, ◌≤◌, min, ◌≡◌, refl, sym, ap, ◌∙◌, inl, inr, true, false, ◌&&◌, some, List,
  [], ◌++◌, arith, ltb, leb, ◌==◌, if◌then◌else◌, Bool-cases, length, get_or, take, drop,
  length-append, length-take, length-drop,
}
use ro_dos.Prelude.Int.{ℤ, pos, minus_one}
use ro_dos.Tcp.{
  tcp_closed, tcp_fin_wait, tcp_syn_sent, tcp_established, has_ack, has_fin, has_syn, Tcb, TcpState,
  Sent, tcp_process, tcp_receive, take_syn_ack, take_fin,
}
use ro_dos.Tcp.Queue.{
  take-nil, take-drop-take, drop_append_left, drop-nil, drop-drop, take-min, drop-min,
}
use ro_dos.Tcp.Receive.{
  empty_list, accepted, payload_of, take_data_lem, IsWellFormed, IsConsistent, stream,
}

-- The bytes that a segment brings to a connection with a state, when so many arrived before: the whole
-- payload of a segment of 20 bytes or more on an established connection, if it leaves one of 16384 free.
abbrev pub brought : List ℕ → TcpState → ℕ → List ℕ
brought p tcp_established n =
    if ltb (length p) 20
    then []
    else if ltb (n + length (payload_of p)) 16384
    then payload_of p
    else []
brought p tcp_closed n = []
brought p tcp_syn_sent n = []
brought p tcp_fin_wait n = []

-- The state after a segment: SYN and ACK (bits 1 and 4 of its flags) establish a connection, FIN (bit
-- 0) closes it.
abbrev pub state_after : List ℕ → TcpState → TcpState
state_after p tcp_established =
    if ltb (length p) 20
    then tcp_established
    else if get_or p 13 0 % 2 == 1
    then tcp_closed
    else tcp_established
state_after p tcp_syn_sent =
    if ltb (length p) 20
    then tcp_syn_sent
    else if get_or p 13 0 / 2 % 2 == 1 && get_or p 13 0 / 16 % 2 == 1
    then tcp_established
    else tcp_syn_sent
state_after p tcp_closed = tcp_closed
state_after p tcp_fin_wait = tcp_fin_wait

-- What a segment makes of a connection.
pub record Follows (p : List ℕ) (t u : Tcb) : Type 0 where
  pub consistent : IsConsistent u
  pub grown : stream u ≡ stream t ++ brought p t.state t.rx_len
  pub read_so_far : u.rx_processed ≡ t.rx_processed
  pub state : u.state ≡ state_after p t.state

-- The answer of the code to a segment.
abbrev Answers : List ℕ → Tcb → Type 0
Answers p t =
    (r : ℤ) × (u : Tcb) × (sent : List Sent) × (tcp_process p t ≡ some (r, (u, sent)))
    × Follows p t u

unchanged :
    (p : List ℕ) (t : Tcb)
    → IsConsistent t
    → brought p t.state t.rx_len ≡ []
    → state_after p t.state ≡ t.state
    → Follows p t t
unchanged p t v e f = record {
  consistent = v;
  grown = sym (append-nil (stream t)) ∙ ap (λ l. stream t ++ l) (sym e);
  read_so_far = refl;
  state = sym f;
}

short_lem : (p : List ℕ) (t : Tcb) → IsConsistent t → ltb (length p) 20 ≡ true → Answers p t
unfolding tcp_process
short_lem p t v short =
    (minus_one, t, [], rw short refl, unchanged p t v (nothing t.state) (same t.state))
  where
    nothing : (state : TcpState) → brought p state t.rx_len ≡ []
    nothing tcp_closed = refl
    nothing tcp_syn_sent = refl
    nothing tcp_established = rw short refl
    nothing tcp_fin_wait = refl

    same : (state : TcpState) → state_after p state ≡ state
    same tcp_closed = refl
    same tcp_syn_sent = rw short refl
    same tcp_established = rw short refl
    same tcp_fin_wait = refl

syn_ack_lem :
    (p : List ℕ) (t : Tcb)
    → IsConsistent t
    → t.state ≡ tcp_syn_sent
    → ltb (length p) 20 ≡ false
    → Follows p t (take_syn_ack p t).1.0
unfolding take_syn_ack
syn_ack_lem p t v e long = elim (Bool-cases (has_syn p && has_ack p)) [
  | inl flags ↦ rw flags (record {
    consistent = record { buffer = v.buffer; room = v.room; read = v.read };
    grown = rw e (sym (append-nil (stream t)));
    read_so_far = refl;
    state = rw (e, long, flags) refl;
  })
  | inr flags ↦ rw flags (unchanged p t v (rw e refl) (rw (e, long, flags) refl))
]

data_lem :
    (p : List ℕ) (t u : Tcb) (sent : List Sent)
    → t.state ≡ tcp_established
    → ltb (length p) 20 ≡ false
    → IsConsistent u
    → stream u ≡ stream t ++ accepted p t
    → u.rx_processed ≡ t.rx_processed
    → u.state ≡ t.state
    → Follows p t (take_fin p (u, sent)).1.0
unfolding take_fin
data_lem p t u sent e long v more same state = elim (Bool-cases (has_fin p)) [
  | inl fin ↦ rw fin (record {
    consistent = record { buffer = v.buffer; room = v.room; read = v.read };
    grown = rw (e, long) more;
    read_so_far = same;
    state = rw (e, long, fin) refl;
  })
  | inr no_fin ↦ rw no_fin (record {
    consistent = v;
    grown = rw (e, long) more;
    read_so_far = same;
    state = rw (e, long, no_fin) (state ∙ e);
  })
]

-- A well-formed segment is answered, and the connection follows it.
pub process-Follows : (p : List ℕ) (t : Tcb) → IsWellFormed p → IsConsistent t → Answers p t
unfolding tcp_process
process-Follows p t w v = elim (Bool-cases (ltb (length p) 20)) [
  | inl short ↦ short_lem p t v short
  | inr long ↦ by_state t.state refl long
]
  where
    by_state : (state : TcpState) → t.state ≡ state → ltb (length p) 20 ≡ false → Answers p t
    by_state tcp_closed e long =
        (pos 0, t, [], ground (arith, long, e), unchanged p t v (rw e refl) (rw e refl))
    by_state tcp_fin_wait e long =
        (pos 0, t, [], ground (arith, long, e), unchanged p t v (rw e refl) (rw e refl))
    by_state tcp_syn_sent e long = (
      (take_syn_ack p t).0,
      (take_syn_ack p t).1.0,
      (take_syn_ack p t).1.1,
      ground (arith, long, e),
      syn_ack_lem p t v e long,
    )
    by_state tcp_established e long =
        let (u, sent, taken, k, more, same, state) = take_data_lem p w t v in
        (
          (take_fin p (u, sent)).0,
          (take_fin p (u, sent)).1.0,
          (take_fin p (u, sent)).1.1,
          ground (arith, long, e, taken),
          data_lem p t u sent e long k more same state,
        )

-- The bytes that arrived and were not read yet.
abbrev pub unread : Tcb → List ℕ
unread t = drop t.rx_processed (stream t)

pub length-stream : (t : Tcb) → IsConsistent t → length (stream t) ≡ t.rx_len
length-stream t v = omega (arith, length-take t.rx_len t.rx_buffer, v.buffer, v.room)

length-unread : (t : Tcb) → IsConsistent t → length (unread t) ≡ t.rx_len - t.rx_processed
length-unread t v = omega (arith, length-drop t.rx_processed (stream t), length-stream t v)

pub unread-Follows :
    (p : List ℕ) (t u : Tcb)
    → IsConsistent t
    → Follows p t u
    → (unread u ≡ unread t ++ brought p t.state t.rx_len)
      × (u.rx_len ≡ t.rx_len + length (brought p t.state t.rx_len))
unread-Follows p t u v f =
    let x = brought p t.state t.rx_len in
    let size = length-stream t v in
    (
      ap (λ n. drop n (stream u)) f.read_so_far
          ∙ ap (drop t.rx_processed) f.grown
          ∙ drop_append_left (stream t) x t.rx_processed (omega (arith, size, v.read)),
      sym (length-stream u f.consistent)
          ∙ ap length f.grown
          ∙ omega (arith, length-append (stream t) x, size),
    )

-- A read hands out the bytes that arrived and were not read yet, from the oldest on, as many as there
-- are and fit; the rest stays.
pub receive_lem :
    (n : ℕ) (t : Tcb)
    → IsConsistent t
    → IsConsistent (tcp_receive n t).1
      × ((tcp_receive n t).0 ≡ take n (unread t))
      × (unread (tcp_receive n t).1 ≡ drop n (unread t))
      × ((tcp_receive n t).1.rx_len ≡ t.rx_len)
      × ((tcp_receive n t).1.state ≡ t.state)
unfolding tcp_receive
receive_lem n t v = elim (Bool-cases (leb t.rx_len t.rx_processed)) [
  | inl done ↦
      let none_left : unread t ≡ [] =
        empty_list (unread t) (length-unread t v ∙ ground (arith, done)) in
      rw done (
        v,
        sym (take-nil n) ∙ ap (take n) (sym none_left),
        none_left ∙ sym (drop-nil n) ∙ ap (drop n) (sym none_left),
        refl,
        refl,
      )
  | inr more ↦
      let k = min (t.rx_len - t.rx_processed) n in
      let size : k ≡ min (length (unread t)) n = ap (λ l. min l n) (sym (length-unread t v)) in
      let inside : t.rx_processed + k ≤ t.rx_len = omega (arith, v.read) in
      rw more (
        record { buffer = v.buffer; room = v.room; read = inside },
        sym (take-drop-take t.rx_buffer t.rx_len t.rx_processed k inside)
            ∙ ap (λ j. take j (unread t)) size
            ∙ take-min (unread t) n,
        drop-drop (stream t) t.rx_processed k
            ∙ ap (λ j. drop j (unread t)) size
            ∙ drop-min (unread t) n,
        refl,
        refl,
      )
]
