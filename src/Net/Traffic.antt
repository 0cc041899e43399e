-- ===== src/Net/Traffic.antt =====
-- The counters of an interface of src/network_interface.c.
use ro_dos.Prelude.{
  ℕ, ◌+◌, ◌%◌, ◌^◌, ◌<◌, ◌≡◌, Bool, true, List, [], ◌∷◌, arith, ◌==◌, if◌then◌else◌,
}
use ro_dos.Prelude.Int.{ℤ, pos, ltb_ℤ}
use ro_dos.Net.{NetworkInterface, netif_send}

-- A call of `netif_send`: the bytes, their number and what the driver answers.
pub record Call : Type 0 where
  pub bytes : List ℕ
  pub len : ℕ
  pub answer : ℤ

unfoldable pub send_all : List Call → NetworkInterface → NetworkInterface
send_all [] iface = iface
send_all (c ∷ calls) iface = send_all calls (netif_send (λ _ _. c.answer) c.bytes c.len iface).1

abbrev pub is_refused : Call → Bool
is_refused c = c.len == 0

abbrev pub is_failed : Call → Bool
is_failed c = ltb_ℤ c.answer (pos 0)

-- What a call should add to the numbers of packets, of errors and of bytes.
abbrev pub packets_of : Call → ℕ
packets_of c = if is_refused c then 0 else if is_failed c then 0 else 1

abbrev pub errors_of : Call → ℕ
errors_of c = if is_refused c then 0 else if is_failed c then 1 else 0

abbrev pub bytes_sent : Call → ℕ
bytes_sent c = if is_refused c then 0 else if is_failed c then 0 else c.len

abbrev pub total : (Call → ℕ) → List Call → ℕ
total f [] = 0
total f (c ∷ calls) = f c + total f calls

-- The counters of an interface after some traffic.
pub record Counted (calls : List Call) (i u : NetworkInterface) : Type 0 where
  pub packets : u.tx_packets ≡ (i.tx_packets + total packets_of calls) % 2 ^ 64
  pub errors : u.tx_errors ≡ (i.tx_errors + total errors_of calls) % 2 ^ 64
  pub bytes : u.tx_bytes ≡ (i.tx_bytes + total bytes_sent calls) % 2 ^ 64

-- The counters are uint64_t.
pub record IsCounter (i : NetworkInterface) : Type 0 where
  pub packets : i.tx_packets < 2 ^ 64
  pub errors : i.tx_errors < 2 ^ 64
  pub bytes : i.tx_bytes < 2 ^ 64

pub record OneCall (c : Call) (i u : NetworkInterface) : Type 0 where
  pub here : u.send_packet ≡ true
  pub packets : u.tx_packets ≡ (i.tx_packets + packets_of c) % 2 ^ 64
  pub errors : u.tx_errors ≡ (i.tx_errors + errors_of c) % 2 ^ 64
  pub bytes : u.tx_bytes ≡ (i.tx_bytes + bytes_sent c) % 2 ^ 64

one_call :
    (c : Call) (i : NetworkInterface)
    → i.send_packet ≡ true
    → IsCounter i
    → OneCall c i (netif_send (λ _ _. c.answer) c.bytes c.len i).1
unfolding netif_send
one_call c i s v = record {
  here = ground (arith, s);
  packets = ground (arith, s, v.packets);
  errors = ground (arith, s, v.errors);
  bytes = ground (arith, s, v.bytes);
}

-- Behind any calls of `netif_send` on an interface with a driver, the counters have grown by the
-- packets that the driver took, by its refusals, and by the bytes of the packets that it took, modulo
-- 2 ^ 64; calls without data count nowhere.
pub send_all-Counted :
    (calls : List Call) (i : NetworkInterface)
    → i.send_packet ≡ true
    → IsCounter i
    → Counted calls i (send_all calls i)
unfolding send_all
send_all-Counted [] i s v = record {
  packets = omega (arith, v.packets);
  errors = omega (arith, v.errors);
  bytes = omega (arith, v.bytes);
}
send_all-Counted (c ∷ calls) i s v =
    let o = one_call c i s v in
    let rest =
      send_all-Counted calls (netif_send (λ _ _. c.answer) c.bytes c.len i).1 o.here (record {
        packets = omega (arith, o.packets);
        errors = omega (arith, o.errors);
        bytes = omega (arith, o.bytes);
      }) in
    record {
      packets = omega (arith, rest.packets, o.packets);
      errors = omega (arith, rest.errors, o.errors);
      bytes = omega (arith, rest.bytes, o.bytes);
    }
