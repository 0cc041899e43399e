-- ===== src/Dhcp.antt =====
-- src/dhcp_client.c: the request that goes out, and what an answer sets. The messages on the screen
-- are left out, and so is a null pointer. A packet is the list of its bytes; a byte that is read
-- behind it is 0 here.
pub mod Meaning
pub mod Options
pub mod Roundtrip
pub mod Offer
mod Tests
use ro_dos.Prelude.{
  ℕ, zero, suc, ◌+◌, ◌-◌, ◌*◌, ◌/◌, ◌%◌, ◌^◌, not, ◌&&◌, Option, none, some, List, [], ◌∷◌, ◌++◌,
  ltb, ◌==◌, if◌then◌else◌, length, set, get_or, drop, replicate,
}
use ro_dos.Prelude.Int.{ℤ, pos, minus_one}
use ro_dos.Array.{pad}
use ro_dos.Bytes.{be16, be32, le16, le32, read_le32, bswap32}
use ro_dos.Net.{NetworkInterface, netif_send, netif_set_ip}

-- The static variables.
pub record Dhcp : Type 0 where
  pub dhcp_xid : ℕ
  pub offered_ip : ℕ
  pub server_ip : ℕ

-- for (i = 0; i < len; i++) options[offset++] = data[i]
unfoldable pub put_bytes : List ℕ → ℕ → List ℕ → List ℕ
put_bytes options offset [] = options
put_bytes options offset (b ∷ bytes) = put_bytes (set options offset b) (offset + 1) bytes

-- The options and the new offset; `len` is the number of the bytes.
unfoldable pub dhcp_add_option : List ℕ → ℕ → ℕ → List ℕ → List ℕ × ℕ
unfolding put_bytes
dhcp_add_option options offset code bytes = (
  put_bytes (set (set options offset code) (offset + 1) (length bytes)) (offset + 2) bytes,
  offset + 2 + length bytes,
)

-- for (i = 0; i < 20; i += 2) sum += (ptr[i] << 8) | ptr[i+1]
unfoldable pub be_sum : List ℕ → ℕ
be_sum [] = 0
be_sum (a ∷ []) = a * 256
be_sum (a ∷ b ∷ bytes) = a * 256 + b + be_sum bytes

-- while (sum >> 16) sum = (sum & 0xFFFF) + (sum >> 16); `none` means that the rounds ran out.
unfoldable pub fold_sum : ℕ → ℕ → Option ℕ
fold_sum zero sum = if sum / 2 ^ 16 == 0 then some sum else none
fold_sum (suc n) sum =
    let rest = fold_sum n (sum % 2 ^ 16 + sum / 2 ^ 16) in
    if sum / 2 ^ 16 == 0 then some sum else rest

-- The IP header that goes out, with a checksum.
abbrev pub discover_ip : ℕ → List ℕ
discover_ip checksum =
    (0x45 ∷ 0 ∷ be16 (20 + 8 + 552))
    ++ (be16 0x1234 ++ (0 ∷ 0 ∷ 64 ∷ 17 ∷ (be16 checksum ++ (0 ∷ 0 ∷ 0 ∷ 0 ∷ replicate 4 0xFF))))

-- (uint16_t)~sum of the folded sum; two rounds fold any sum.
unfoldable pub discover_checksum : ℕ
unfolding fold_sum be_sum
discover_checksum = elim (fold_sum 2 (be_sum (discover_ip 0))) [
  | none ↦ 0
  | some sum ↦ (2 ^ 32 - 1 - sum) % 2 ^ 16
]

-- DHCP_OPT_MSG_TYPE with DHCP_DISCOVER, and DHCP_OPT_END.
unfoldable pub discover_options : List ℕ
unfolding dhcp_add_option
discover_options = let r = dhcp_add_option (replicate 312 0) 0 53 (1 ∷ []) in set r.0 r.1 255

-- The packet, with the MAC address of the interface.
unfoldable pub discover_packet : List ℕ → ℕ → List ℕ
unfolding discover_checksum discover_options
discover_packet mac_addr xid =
    replicate 6 0xFF
    ++ (pad 6 mac_addr
        ++ (le16 0x0008
            ++ (discover_ip discover_checksum
                ++ (be16 68
                    ++ (be16 67
                        ++ (be16 (8 + 552)
                            ++ (0
                                ∷ 0
                                ∷ 1
                                ∷ 1
                                ∷ 6
                                ∷ 0
                                ∷ (le32 xid
                                    ++ (0
                                        ∷ 0
                                        ∷ (be16 0x8000
                                            ++ (replicate 16 0
                                                ++ (pad 16 (pad 6 mac_addr)
                                                    ++ (replicate 192 0
                                                        ++ (be32 0x63825363
                                                            ++ discover_options))))))))))))))

-- `driver` is what the driver answers to the packet of 594 bytes.
unfoldable pub dhcp_discover : (List ℕ → ℕ → ℤ) → Dhcp → NetworkInterface → ℤ × NetworkInterface
unfolding netif_send discover_packet
dhcp_discover driver d iface =
    netif_send driver (discover_packet iface.mac_addr d.dhcp_xid) (14 + 20 + 8 + 552) iface

-- The local variables of `dhcp_process` that the options set; `server_id` is the store to `server_ip`,
-- if there is one. The numbers are as they are loaded, not swapped.
pub record Found : Type 0 where
  pub msg_type : ℕ
  pub subnet : ℕ
  pub router : ℕ
  pub dns : ℕ
  pub server_id : Option ℕ

abbrev pub nothing_found : Found
nothing_found = record { msg_type = 0; subnet = 0; router = 0; dns = 0; server_id = none }

-- The switch, for an option whose data starts at `i`.
unfoldable pub take_option : ℕ → List ℕ → ℕ → Found → Found
take_option opt options i f =
    if opt == 53
    then record f { msg_type = get_or options i 0 }
    else if opt == 54
    then record f { server_id = some (read_le32 options i) }
    else if opt == 1
    then record f { subnet = read_le32 options i }
    else if opt == 3
    then record f { router = read_le32 options i }
    else if opt == 6
    then record f { dns = read_le32 options i }
    else f

-- The loop from the index `i` on. `none` means that the rounds ran out.
unfoldable pub walk_options : ℕ → List ℕ → ℕ → Found → Option Found
unfolding take_option
walk_options zero options i f = none
walk_options (suc n) options i f =
    let opt = get_or options i 0 in
    let next : ℕ × Found =
      if opt == 0
      then (i + 1, f)
      else (i + 2 + get_or options (i + 1) 0, take_option opt options (i + 2) f) in
    let rest = walk_options n options next.0 next.1 in
    if ltb i 312 && not (opt == 255) then rest else some f

-- x ? __builtin_bswap32(x) : d
abbrev pub swap_or : ℕ → ℕ → ℕ
swap_or x d = if x == 0 then d else bswap32 x

-- The store to `server_ip` in the loop.
abbrev pub with_server : Found → Dhcp → Dhcp
with_server f d = record d { server_ip = elim f.server_id [ none ↦ d.server_ip | some ip ↦ ip ] }

-- What the options make of the client and its interface; `yiaddr` stands at the offset 16.
unfoldable pub dhcp_accept :
    List ℕ → Found → Dhcp → NetworkInterface → ℤ × (Dhcp × NetworkInterface)
unfolding netif_set_ip
dhcp_accept packet f d iface =
    let e = with_server f d in
    if f.msg_type == 2
    then (let offered = bswap32 (read_le32 packet 16) in
        (
          pos 1,
          (
            record e { offered_ip = offered },
            netif_set_ip offered (swap_or f.subnet 0x00FFFFFF) (swap_or f.router 0)
                (swap_or f.dns 0x08080808) iface,
          ),
        ))
    else (pos 0, (e, iface))

-- The options stand at the offset 240. In 313 rounds the loop is always over.
unfoldable pub dhcp_process :
    List ℕ → ℕ → Dhcp → NetworkInterface → Option (ℤ × (Dhcp × NetworkInterface))
unfolding walk_options dhcp_accept
dhcp_process packet len d iface =
    if ltb len 240
    then some (minus_one, (d, iface))
    else if not (read_le32 packet 4 == d.dhcp_xid)
    then some (pos 0, (d, iface))
    else (elim (walk_options 313 (drop 240 packet) 0 nothing_found) [
      | none ↦ none
      | some f ↦ some (dhcp_accept packet f d iface)
    ])

unfoldable pub dhcp_init : Dhcp → Dhcp
dhcp_init d = record d { dhcp_xid = 0x12345678 }
