-- ===== src/Stack/Configure.antt =====
-- An offer of an address that arrives in a frame: src/tcp_ip_stack.c takes it apart, src/dhcp_client.c
-- reads it, and src/network_interface.c keeps it.
use ro_dos.Prelude.{
  ℕ, ◌+◌, ◌*◌, ◌^◌, Option, none, some, List, [], ◌∷◌, ◌++◌, ◌==◌, if◌then◌else◌, set, get_or,
}
use ro_dos.Bytes.{be16}
use ro_dos.Net.{NetworkInterface}
use ro_dos.Ip.{ip_header}
use ro_dos.Ip.Resolution.{Mac, bytes_of_mac}
use ro_dos.Dhcp.{Dhcp}
use ro_dos.Ip.Checksum.{AllBytes}
use ro_dos.Dhcp.Options.{Opt}
use ro_dos.Dhcp.Meaning.{last_of, value_or, word_of}
use ro_dos.Stack.{Stack}

-- A UDP packet from the port 67 to the port 68, and a frame with one.
abbrev pub udp_packet : ℕ → List ℕ → List ℕ
udp_packet len packet = be16 67 ++ (be16 68 ++ (be16 (8 + len) ++ (0 ∷ 0 ∷ packet)))

abbrev pub udp_frame : Mac → Mac → ℕ → ℕ → ℕ → ℕ → List ℕ → List ℕ
udp_frame to from checksum dest_ip src_ip len packet =
    bytes_of_mac to
    ++ (bytes_of_mac from
        ++ (be16 0x0800
            ++ (ip_header checksum dest_ip src_ip 17 (8 + len) ++ udp_packet len packet)))

-- The number of four bytes from an index on, the highest first.
abbrev pub address_at : ℕ → List ℕ → ℕ
address_at i bytes =
    get_or bytes i 0 * 2 ^ 24
    + get_or bytes (i + 1) 0 * 2 ^ 16
    + get_or bytes (i + 2) 0 * 256
    + get_or bytes (i + 3) 0

-- The address of an option, or a default when there is none or it is 0.0.0.0.
abbrev pub address_or : ℕ → Option (List ℕ) → ℕ
address_or d none = d
address_or d (some bytes) = if address_at 0 bytes == 0 then d else address_at 0 bytes

-- The interface after an offer of an address with some options.
abbrev pub set_up : ℕ → List Opt → NetworkInterface → NetworkInterface
set_up ip os iface = record iface {
  ip_addr = ip;
  netmask = address_or 0x00FFFFFF (last_of 1 os);
  gateway = address_or 0 (last_of 3 os);
  dns_server = address_or 0x08080808 (last_of 6 os);
}

-- What the offer makes of the stack, whose default interface stands at an index. The server's address
-- is kept as it stands in memory.
abbrev pub configured : List ℕ → List Opt → ℕ → NetworkInterface → Stack → Stack
configured packet os i iface k =
    let ip = address_at 16 packet in
    record k {
      dhcp = record k.dhcp {
        server_ip = value_or k.dhcp.server_ip word_of (last_of 54 os);
        offered_ip = ip;
      };
      netif = record k.netif { interfaces = set k.netif.interfaces i (set_up ip os iface) };
    }

abbrev pub AllOptBytes : List Opt → Type 0
AllOptBytes [] = Unit {0}
AllOptBytes (o ∷ os) = AllBytes o.bytes × AllOptBytes os

-- The bytes of the last option with a code, if any.
AreBytes : Option (List ℕ) → Type 0
AreBytes none = Unit {0}
AreBytes (some bytes) = AllBytes bytes
