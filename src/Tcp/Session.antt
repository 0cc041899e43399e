-- ===== src/Tcp/Session.antt =====
-- A session on a connection of src/tcp_ip_stack.c: segments arrive, and the program reads.
use mathlib.Core.Path.{ap₂}
use ro_dos.Prelude.{
  ℕ, ◌+◌, ◌≡◌, refl, ap, ◌∙◌, Option, none, some, List, [], ◌∷◌, ◌++◌, length, take, drop,
}
use ro_dos.Tcp.{TcpState, Tcb, tcp_process, tcp_receive}
use ro_dos.Tcp.Receive.{IsWellFormed, IsConsistent}
use ro_dos.Tcp.Steps.{brought, state_after, unread, process-Follows, unread-Follows, receive_lem}

-- A segment that arrives, or a read into a buffer of so many bytes.
pub data Event : Type 0 where
  arrive : List ℕ → Event
  read : ℕ → Event

abbrev pub AreWellFormed : List Event → Type 0
AreWellFormed [] = Unit {0}
AreWellFormed (arrive p ∷ es) = IsWellFormed p × AreWellFormed es
AreWellFormed (read n ∷ es) = AreWellFormed es

-- The bytes that the reads copy out, in order, and the connection afterwards. `none` is a write
-- behind the buffer.
pub run_events : List Event → Tcb → Option (List ℕ × Tcb)
run_events [] t = some ([], t)
run_events (arrive p ∷ es) t = elim (tcp_process p t) [
  | none ↦ none
  | some (r, (u, sent)) ↦ run_events es u
]
run_events (read n ∷ es) t =
    let (bytes, u) = tcp_receive n t in
    elim (run_events es u) [ none ↦ none | some (rest, v) ↦ some (bytes ++ rest, v) ]

-- What the reads should get: the bytes that were brought, each once and in order, as a queue of those
-- that are not read yet, for a connection with a state to which so many bytes came before.
abbrev pub delivered : List Event → TcpState → ℕ → List ℕ → List ℕ
delivered [] state n queue = []
delivered (arrive p ∷ es) state n queue =
    let x = brought p state n in delivered es (state_after p state) (n + length x) (queue ++ x)
delivered (read n ∷ es) state m queue = take n queue ++ delivered es state m (drop n queue)

-- Whatever well-formed segments arrive and whatever is read, from a consistent connection on, nothing is
-- written behind the buffer, and the reads copy out the payloads of the segments that an established
-- connection has room for, in order, with none lost or repeated: first what was not read before, then
-- each payload, as far as the reads go.
pub run_events-delivered :
    (es : List Event) (t : Tcb)
    → AreWellFormed es
    → IsConsistent t
    → (u : Tcb) × (run_events es t ≡ some (delivered es t.state t.rx_len (unread t), u))
      × IsConsistent u
unfolding run_events
run_events-delivered [] t w v = (t, refl, v)
run_events-delivered (arrive p ∷ es) t w v =
    let (r, t', sent, e, x) = process-Follows p t w.0 v in
    let (u, ran, k) = run_events-delivered es t' w.1 x.consistent in
    let (queue, size) = unread-Follows p t t' v x in
    let same : delivered es t'.state t'.rx_len (unread t')
        ≡ delivered (arrive p ∷ es) t.state t.rx_len (unread t) =
      ap (λ s. delivered es s t'.rx_len (unread t')) x.state
      ∙ ap (λ n. delivered es (state_after p t.state) n (unread t')) size
      ∙ ap (delivered es (state_after p t.state) (t.rx_len + length (brought p t.state t.rx_len)))
          queue in
    (u, rw (e, run_events) ran ∙ ap (λ out. some (out, u)) same, k)
run_events-delivered (read n ∷ es) t w v =
    let (k, out, rest, len, state) = receive_lem n t v in
    let t' = (tcp_receive n t).1 in
    let (u, ran, l) = run_events-delivered es t' w k in
    let same : delivered es t'.state t'.rx_len (unread t')
        ≡ delivered es t.state t.rx_len (drop n (unread t)) =
      ap (λ s. delivered es s t'.rx_len (unread t')) state
      ∙ ap (λ m. delivered es t.state m (unread t')) len
      ∙ ap (delivered es t.state t.rx_len) rest in
    (u, rw (ran, run_events) (ap₂ (λ a b. some (a ++ b, u)) out same), l)
