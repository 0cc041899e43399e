-- ===== src/Tcp.antt =====
-- The TCP connection of src/tcp_ip_stack.c: the segments that arrive, reading, sending and closing.
-- A segment that goes out is a value, the headers below TCP are left out, and the result of sending
-- is not looked at. What arrives while `tcp_receive` waits is an arrival before the read.
pub mod Receive
mod Queue
pub mod Steps
pub mod Session
pub mod Faults
mod Tests
use ro_dos.Prelude.{
  ℕ, ◌+◌, ◌-◌, ◌*◌, ◌/◌, ◌%◌, ◌^◌, min, Bool, true, false, ◌&&◌, Option, none, some, List, [], ◌∷◌,
  ◌++◌, ltb, leb, ◌==◌, if◌then◌else◌, length, get_or, take, drop,
}
use ro_dos.Prelude.Int.{ℤ, pos, minus_one}

-- `tcp_state_t`
pub data TcpState : Type 0 where
  tcp_closed : TcpState
  tcp_syn_sent : TcpState
  tcp_established : TcpState
  tcp_fin_wait : TcpState

-- The static variable `tcb`. `rx_buffer` has 16384 bytes; the other numbers are uint16_t and uint32_t.
pub record Tcb : Type 0 where
  pub state : TcpState
  pub local_ip : ℕ
  pub remote_ip : ℕ
  pub local_port : ℕ
  pub remote_port : ℕ
  pub snd_nxt : ℕ
  pub rcv_nxt : ℕ
  pub rx_buffer : List ℕ
  pub rx_len : ℕ
  pub rx_processed : ℕ
  pub has_data : Bool

-- The arguments of `tcp_send_packet`.
pub record Sent : Type 0 where
  pub dest_ip : ℕ
  pub dest_port : ℕ
  pub src_port : ℕ
  pub seq : ℕ
  pub ack : ℕ
  pub flags : ℕ
  pub payload : List ℕ

abbrev pub rx_size : ℕ
rx_size = 16384

-- The 4 bytes from an index on, the highest first.
abbrev be32 : List ℕ → ℕ → ℕ
be32 p i =
    get_or p i 0 * 2 ^ 24
    + get_or p (i + 1) 0 * 2 ^ 16
    + get_or p (i + 2) 0 * 2 ^ 8
    + get_or p (i + 3) 0

-- tcp->flags & TCP_FLAG_…
abbrev pub has_fin : List ℕ → Bool
has_fin p = get_or p 13 0 % 2 == 1

abbrev pub has_syn : List ℕ → Bool
has_syn p = get_or p 13 0 / 2 % 2 == 1

abbrev pub has_ack : List ℕ → Bool
has_ack p = get_or p 13 0 / 16 % 2 == 1

-- (tcp->data_offset_reserved >> 4) * 4
abbrev pub hdr_len : List ℕ → ℕ
hdr_len p = get_or p 12 0 / 16 * 4

-- `len - hdr_len` in uint32_t, for a packet of `len` bytes.
abbrev pub seg_len : List ℕ → ℕ
seg_len p = (length p + (2 ^ 32 - hdr_len p)) % 2 ^ 32

-- A segment without data on the connection.
abbrev pub reply : ℕ → Tcb → Sent
reply flags t = record {
  dest_ip = t.remote_ip;
  dest_port = t.remote_port;
  src_port = t.local_port;
  seq = t.snd_nxt;
  ack = t.rcv_nxt;
  flags = flags;
  payload = [];
}

-- The answer to a SYN-ACK: the connection afterwards, and what is sent.
unfoldable pub take_syn_ack : List ℕ → Tcb → ℤ × (Tcb × List Sent)
take_syn_ack p t =
    if has_syn p && has_ack p
    then (let u = record t {
      rcv_nxt = (be32 p 4 + 1) % 2 ^ 32;
      snd_nxt = be32 p 8;
      state = tcp_established;
    } in
        (pos 1, (u, reply 0x10 u ∷ [])))
    else (pos 0, (t, []))

-- The data of a segment: the loop copies `seg_len` bytes to `rx_buffer + rx_len`. `none` is a write
-- behind the buffer; bytes that are read behind the packet are left out.
unfoldable pub take_data : List ℕ → Tcb → Option (Tcb × List Sent)
take_data p t =
    if ltb 0 (seg_len p) && ltb ((t.rx_len + seg_len p) % 2 ^ 32) rx_size
    then (if ltb rx_size (t.rx_len + seg_len p)
        then none
        else (let u = record t {
          rx_buffer =
              take t.rx_len t.rx_buffer
              ++ (take (seg_len p) (drop (hdr_len p) p) ++ drop (t.rx_len + seg_len p) t.rx_buffer);
          rx_len = t.rx_len + seg_len p;
          has_data = true;
          rcv_nxt = (t.rcv_nxt + seg_len p) % 2 ^ 32;
        } in
            some (u, reply 0x10 u ∷ [])))
    else some (t, [])

-- The FIN of a segment, after what its data made be sent.
unfoldable pub take_fin : List ℕ → Tcb × List Sent → ℤ × (Tcb × List Sent)
take_fin p (t, sent) =
    if has_fin p
    then (let u = record t { rcv_nxt = (t.rcv_nxt + 1) % 2 ^ 32 } in
        (pos 1, (record u { state = tcp_closed }, sent ++ (reply 0x11 u ∷ []))))
    else (pos 0, (t, sent))

unfoldable pub tcp_process : List ℕ → Tcb → Option (ℤ × (Tcb × List Sent))
tcp_process p t = if ltb (length p) 20 then some (minus_one, (t, [])) else (elim t.state [
  | tcp_closed ↦ some (pos 0, (t, []))
  | tcp_syn_sent ↦ some (take_syn_ack p t)
  | tcp_established ↦ (elim (take_data p t) [ none ↦ none | some r ↦ some (take_fin p r) ])
  | tcp_fin_wait ↦ some (pos 0, (t, []))
])

-- `tcp_receive` after its wait: the bytes that it copies out, whose number it returns.
unfoldable pub tcp_receive : ℕ → Tcb → List ℕ × Tcb
tcp_receive max_len t =
    if leb t.rx_len t.rx_processed
    then ([], t)
    else (let to_copy = min (t.rx_len - t.rx_processed) max_len in
        let read = t.rx_processed + to_copy in
        (
          take to_copy (drop t.rx_processed t.rx_buffer),
          record t {
            rx_processed = read;
            has_data = if read == t.rx_len then false else t.has_data;
          },
        ))

-- The whole payload goes out in one segment.
unfoldable pub tcp_send : List ℕ → Tcb → ℤ × (Tcb × List Sent)
tcp_send body t = elim t.state [
  | tcp_established ↦ (
    pos (length body),
    (
      record t { snd_nxt = (t.snd_nxt + length body) % 2 ^ 32 },
      record (reply 0x18 t) { payload = body } ∷ [],
    ),
  )
  | tcp_closed ↦ (minus_one, (t, []))
  | tcp_syn_sent ↦ (minus_one, (t, []))
  | tcp_fin_wait ↦ (minus_one, (t, []))
]

unfoldable pub tcp_close : Tcb → Tcb × List Sent
tcp_close t = elim t.state [
  | tcp_established ↦ (record t { state = tcp_closed }, reply 0x11 t ∷ [])
  | tcp_closed ↦ (t, [])
  | tcp_syn_sent ↦ (t, [])
  | tcp_fin_wait ↦ (t, [])
]
