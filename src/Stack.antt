-- ===== src/Stack.antt =====
-- How the parts of src/tcp_ip_stack.c, src/network_interface.c and src/dhcp_client.c work together on a
-- frame that arrives. What the driver answers to a frame that is sent is an argument; the messages on the
-- screen are left out.
pub mod Segments
pub mod Configure
pub mod Connect
mod Tests
use ro_dos.Prelude.{
  ℕ, ◌+◌, ◌-◌, ◌%◌, ◌^◌, not, ◌&&◌, Option, none, some, List, [], ◌∷◌, ◌++◌, ltb, ◌==◌,
  if◌then◌else◌, length, get_or, drop,
}
use ro_dos.Prelude.Int.{ℤ, pos, minus_one}
use ro_dos.Bytes.{be16, be32, read_be16}
use ro_dos.Net.{Netif, netif_get_default, netif_poll, set_default}
use ro_dos.Arp.{ArpEntry}
use ro_dos.Ip.{ip_send, icmp_process, arp_process}
use ro_dos.Dhcp.{Dhcp, dhcp_process, be_sum, fold_sum}
use ro_dos.Dns.{DnsCache, dns_process}
use ro_dos.Tcp.{Tcb, Sent, tcp_process}

-- The static variables of the three files.
pub record Stack : Type 0 where
  pub netif : Netif
  pub arp_cache : List ArpEntry
  pub tcb : Tcb
  pub dhcp : Dhcp
  pub dns : DnsCache

-- `tcp_pseudo_header_t`
unfoldable pub pseudo_header : ℕ → ℕ → ℕ → List ℕ
pseudo_header src_ip dest_ip len = be32 src_ip ++ (be32 dest_ip ++ (0 ∷ 6 ∷ be16 len))

-- The sum of both parts, folded, and its complement; a last single byte counts as a high byte. The
-- loops are those of src/dhcp_client.c, and two rounds fold any sum.
unfoldable pub tcp_checksum : ℕ → ℕ → List ℕ → ℕ
unfolding pseudo_header be_sum fold_sum
tcp_checksum src_ip dest_ip bytes =
    elim (fold_sum 2
      ((be_sum (pseudo_header src_ip dest_ip (length bytes % 2 ^ 16)) + be_sum bytes) % 2 ^ 32)) [
        | none ↦ 0
        | some sum ↦ (2 ^ 32 - 1 - sum) % 2 ^ 16
      ]

-- The header with a checksum, and the payload.
unfoldable pub segment : ℕ → Sent → List ℕ
segment checksum s =
    (be16 s.src_port
      ++ (be16 s.dest_port ++ (be32 s.seq ++ (be32 s.ack ++ (0x50 ∷ s.flags ∷ be16 8192)))))
    ++ (be16 checksum ++ (0 ∷ 0 ∷ s.payload))

-- Without an interface the result is -1. `none` is a write behind the buffer of 1500 bytes.
unfoldable pub tcp_send_packet : (List ℕ → ℕ → ℤ) → Sent → Stack → Option (ℤ × Stack)
unfolding segment tcp_checksum netif_get_default ip_send
tcp_send_packet driver s k = elim (netif_get_default k.netif) [
  | none ↦ some (minus_one, k)
  | some net ↦
      (if ltb 1480 (length s.payload)
        then none
        else (let bytes = segment (tcp_checksum net.ip_addr s.dest_ip (segment 0 s)) s in
            let r = ip_send driver s.dest_ip 6 bytes k.arp_cache net in
            some (r.0, record k { netif = set_default r.1 k.netif })))
]

-- The segments that a step of the connection sends.
unfoldable pub send_all_segments : (List ℕ → ℕ → ℤ) → List Sent → Stack → Option Stack
unfolding tcp_send_packet
send_all_segments driver [] k = some k
send_all_segments driver (s ∷ sent) k = elim (tcp_send_packet driver s k) [
  | none ↦ none
  | some r ↦ send_all_segments driver sent r.1
]

-- `htons(udp->length) - sizeof(udp_header_t)` in uint32_t.
abbrev pub udp_payload_len : List ℕ → ℕ
udp_payload_len packet = (read_be16 packet 4 + 2 ^ 32 - 8) % 2 ^ 32

unfoldable pub udp_process : List ℕ → Stack → Option (ℤ × Stack)
unfolding dhcp_process dns_process netif_get_default
udp_process packet k =
    if ltb (length packet) 8
    then some (minus_one, k)
    else if read_be16 packet 0 == 67 && read_be16 packet 2 == 68
    then (elim (netif_get_default k.netif) [
      | none ↦ some (pos 0, k)
      | some iface ↦ (elim (dhcp_process (drop 8 packet) (udp_payload_len packet) k.dhcp iface) [
        | none ↦ none
        | some r ↦ some (r.0, record k { dhcp = r.1.0; netif = set_default r.1.1 k.netif })
      ])
    ])
    else if read_be16 packet 0 == 53
    then (elim (dns_process (drop 8 packet) (udp_payload_len packet) k.dns) [
      | none ↦ none
      | some r ↦ some (r.0, record k { dns = r.1 })
    ])
    else some (pos 0, k)

-- The TCP part of `ip_receive`, with the segments that it sends.
unfoldable pub tcp_receive_packet : (List ℕ → ℕ → ℤ) → List ℕ → Stack → Option (ℤ × Stack)
unfolding tcp_process send_all_segments
tcp_receive_packet driver packet k = elim (tcp_process packet k.tcb) [
  | none ↦ none
  | some r ↦ (elim (send_all_segments driver r.1.1 (record k { tcb = r.1.0 })) [
    | none ↦ none
    | some u ↦ some (r.0, u)
  ])
]

-- The ARP part: without an interface a packet that is long enough gives -1 too.
unfoldable pub arp_receive : (List ℕ → ℕ → ℤ) → List ℕ → Stack → ℤ × Stack
unfolding arp_process netif_get_default
arp_receive driver frame k = elim (netif_get_default k.netif) [
  | none ↦ (minus_one, k)
  | some iface ↦
      let r = arp_process driver frame k.arp_cache iface in
      (r.0, record k { arp_cache = r.1.0; netif = set_default r.1.1 k.netif })
]

-- The payload goes to the protocol that the header names at its byte 9.
unfoldable pub ip_receive : (List ℕ → ℕ → ℤ) → List ℕ → Stack → Option (ℤ × Stack)
unfolding arp_receive icmp_process tcp_receive_packet udp_process
ip_receive driver frame k =
    let protocol = get_or frame 23 0 in
    if ltb (length frame) 14
    then some (minus_one, k)
    else if read_be16 frame 12 == 0x0806
    then some (arp_receive driver frame k)
    else if not (read_be16 frame 12 == 0x0800)
    then some (pos 0, k)
    else if ltb (length frame) 34
    then some (minus_one, k)
    else if protocol == 1
    then some (icmp_process (drop 34 frame), k)
    else if protocol == 6
    then tcp_receive_packet driver (drop 34 frame) k
    else if protocol == 17
    then udp_process (drop 34 frame) k
    else some (pos 0, k)

-- `netif_poll` with what it calls: `arrives` is what `recv_packet` answers.
unfoldable pub poll : (List ℕ → ℕ → ℤ) → (ℕ → ℤ × List ℕ) → Stack → Option Stack
unfolding netif_poll ip_receive
poll driver arrives k =
    let r = netif_poll arrives k.netif in
    let u = record k { netif = r.1 } in
    (elim r.0 [
      | none ↦ some u
      | some frame ↦ (elim (ip_receive driver frame u) [ none ↦ none | some s ↦ some s.1 ])
    ])
