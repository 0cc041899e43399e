-- ===== src/Ip.antt =====
-- The IP layer of src/tcp_ip_stack.c: checksums, frames that go out, and ARP packets that arrive. A
-- frame is the list of its bytes; a byte that is read behind it is 0 here. Null pointers and the
-- messages on the screen are left out.
pub mod Checksum
pub mod Sending
pub mod Resolution
mod Tests
use Prim.Native.Nat.{bit_and}
use ro_dos.Prelude.{
  ℕ, zero, suc, ◌+◌, ◌-◌, ◌*◌, ◌/◌, ◌%◌, ◌^◌, ◌&&◌, none, some, List, [], ◌∷◌, ◌++◌, ltb, ◌==◌,
  if◌then◌else◌, length, get_or, take, drop, replicate,
}
use ro_dos.Prelude.Int.{ℤ, pos, minus_one}
use ro_dos.Array.{pad}
use ro_dos.Arp.{ArpEntry, arp_resolve, arp_add_entry}
use ro_dos.Bytes.{be16, be32, le16, read_be16, read_be32}
use ro_dos.Net.{NetworkInterface, netif_send}

-- The 16-bit words of the data, the lowest byte first, and a last single byte.
unfoldable pub word_sum : List ℕ → ℕ
word_sum [] = 0
word_sum (a ∷ []) = a
word_sum (a ∷ b ∷ bytes) = a + b * 256 + word_sum bytes

-- sum = (sum >> 16) + (sum & 0xFFFF); sum += (sum >> 16); return ~sum; the result is a uint16_t.
abbrev pub fold_twice : ℕ → ℕ
fold_twice sum =
    let once = sum / 2 ^ 16 + sum % 2 ^ 16 in
    let twice = once + once / 2 ^ 16 in (2 ^ 32 - 1 - twice) % 2 ^ 16

-- A uint32_t that wraps at every step is the sum that wraps once.
unfoldable pub ip_checksum : List ℕ → ℕ
unfolding word_sum
ip_checksum bytes = fold_twice (word_sum bytes % 2 ^ 32)

-- The network part of an address: the masked bits.
abbrev pub masked : ℕ → ℕ → ℕ
masked ip netmask = bit_and ip netmask

-- The MAC address that a packet for an address goes to.
unfoldable pub next_hop : ℕ → List ArpEntry → NetworkInterface → List ℕ
unfolding arp_resolve
next_hop dest_ip cache iface =
    if masked dest_ip iface.netmask == masked iface.ip_addr iface.netmask
    then (elim (arp_resolve dest_ip cache) [ some mac ↦ mac | none ↦ replicate 6 0xFF ])
    else (elim (arp_resolve iface.gateway cache) [
      | some mac ↦ mac
      | none ↦ 0x52 ∷ 0x55 ∷ 0x0A ∷ 0 ∷ 2 ∷ 2 ∷ []
    ])

-- The IP header, with what `checksum` is stored.
unfoldable pub ip_header : ℕ → ℕ → ℕ → ℕ → ℕ → List ℕ
ip_header checksum dest_ip src_ip protocol len =
    (0x45 ∷ 0 ∷ be16 (20 + len))
    ++ (0 ∷ 0 ∷ 0 ∷ 0 ∷ 64 ∷ protocol ∷ (le16 checksum ++ (be32 src_ip ++ be32 dest_ip)))

-- The frame: the payload is cut to the rest of the 1500 bytes.
unfoldable pub ip_frame : ℕ → ℕ → List ℕ → List ArpEntry → NetworkInterface → List ℕ
unfolding next_hop ip_header ip_checksum
ip_frame dest_ip protocol bytes cache iface =
    let len = length bytes in
    next_hop dest_ip cache iface
    ++ (pad 6 iface.mac_addr
        ++ (be16 0x0800
            ++ (ip_header (ip_checksum (ip_header 0 dest_ip iface.ip_addr protocol len)) dest_ip
                  iface.ip_addr protocol len
                ++ take 1466 bytes)))

-- The whole length is handed to the driver, even when the payload was cut.
unfoldable pub ip_send :
    (List ℕ → ℕ → ℤ) → ℕ → ℕ → List ℕ → List ArpEntry → NetworkInterface → ℤ × NetworkInterface
unfolding ip_frame netif_send
ip_send driver dest_ip protocol bytes cache iface =
    netif_send driver (ip_frame dest_ip protocol bytes cache iface) (14 + 20 + length bytes) iface

-- for (i = from; i < from + n; i++) packet[i] = i
abbrev pub counting : ℕ → ℕ → List ℕ
counting zero from = []
counting (suc n) from = from ∷ counting n (from + 1)

-- The 64 bytes of an echo request.
unfoldable pub icmp_request : ℕ → ℕ → List ℕ
icmp_request checksum seq = (8 ∷ 0 ∷ le16 checksum) ++ (be16 0x1234 ++ (be16 seq ++ counting 56 8))

unfoldable pub icmp_ping :
    (List ℕ → ℕ → ℤ) → ℕ → ℕ → List ArpEntry → NetworkInterface → ℤ × NetworkInterface
unfolding icmp_request ip_checksum ip_send
icmp_ping driver dest_ip seq cache iface =
    ip_send driver dest_ip 1 (icmp_request (ip_checksum (icmp_request 0 seq)) seq) cache iface

unfoldable pub icmp_process : List ℕ → ℤ
icmp_process packet =
    if ltb (length packet) 8 then minus_one else if get_or packet 0 0 == 0 then pos 1 else pos 0

-- An ARP packet in its frame: who is asked, the opcode, and the two hosts.
unfoldable pub arp_frame : List ℕ → List ℕ → ℕ → List ℕ → List ℕ → List ℕ → List ℕ → List ℕ
arp_frame dest_mac src_mac opcode sender_mac sender_ip target_mac target_ip =
    dest_mac
    ++ (src_mac
        ++ (be16 0x0806
            ++ (be16 1
                ++ (be16 0x0800
                    ++ (6
                        ∷ 4
                        ∷ (be16 opcode
                            ++ (sender_mac ++ (sender_ip ++ (target_mac ++ target_ip)))))))))

-- The bytes of a field.
abbrev pub field : ℕ → ℕ → List ℕ → List ℕ
field from n frame = pad n (take n (drop from frame))

-- The reply to the host that asks.
unfoldable pub arp_reply : List ℕ → NetworkInterface → List ℕ
unfolding arp_frame
arp_reply frame iface =
    let asker = field 22 6 frame in
    let mine = pad 6 iface.mac_addr in
    arp_frame asker mine 2 mine (be32 iface.ip_addr) asker (field 28 4 frame)

-- The result, the interface and the cache. What the driver answers to the reply does not matter.
unfoldable pub arp_process :
    (List ℕ → ℕ → ℤ)
    → List ℕ
    → List ArpEntry
    → NetworkInterface
    → ℤ × (List ArpEntry × NetworkInterface)
unfolding arp_reply netif_send arp_add_entry
arp_process driver frame cache iface =
    if ltb (length frame) (14 + 28)
    then (minus_one, (cache, iface))
    else if read_be16 frame 20 == 1 && read_be32 frame 38 == iface.ip_addr
    then (pos 1, (cache, (netif_send driver (arp_reply frame iface) (14 + 28) iface).1))
    else if read_be16 frame 20 == 2
    then (pos 0, (arp_add_entry (read_be32 frame 28) (field 22 6 frame) cache, iface))
    else (pos 0, (cache, iface))
