-- ===== src/Net.antt =====
-- src/network_interface.c: the table of network interfaces. A driver's functions are not looked into:
-- what `send_packet` and `recv_packet` answer to a call is an argument of the operation. A null
-- pointer is left out but for the driver's functions; the messages on the screen are left out.
pub mod Table
pub mod Traffic
pub mod Examples
mod Tests
use ro_dos.Prelude.{
  ℕ, ◌+◌, ◌%◌, ◌^◌, Bool, false, not, Option, none, some, List, [], map, leb, ◌==◌, if◌then◌else◌,
  get_elem?, set, take,
}
use ro_dos.Prelude.Int.{ℤ, pos, pos_part, ltb_ℤ, minus_one}

abbrev pub max_interfaces : ℕ
max_interfaces = 4

-- `network_interface_t`; the two function pointers are there or NULL.
pub record NetworkInterface : Type 0 where
  pub name : List ℕ
  pub mac_addr : List ℕ
  pub ip_addr : ℕ
  pub netmask : ℕ
  pub gateway : ℕ
  pub dns_server : ℕ
  pub link_up : Bool
  pub tx_packets : ℕ
  pub rx_packets : ℕ
  pub tx_bytes : ℕ
  pub rx_bytes : ℕ
  pub tx_errors : ℕ
  pub rx_errors : ℕ
  pub send_packet : Bool
  pub recv_packet : Bool

-- The static variables; `default_interface` is an index in the table.
pub record Netif : Type 0 where
  pub interfaces : List NetworkInterface
  pub num_interfaces : ℕ
  pub default_interface : Option ℕ

-- What `netif_init` leaves of an interface: the name is cut to nothing, the MAC address stays.
abbrev cleared : NetworkInterface → NetworkInterface
cleared iface = record iface {
  name = set iface.name 0 0;
  link_up = false;
  ip_addr = 0;
  netmask = 0;
  gateway = 0;
  dns_server = 0;
  tx_packets = 0;
  rx_packets = 0;
  tx_bytes = 0;
  rx_bytes = 0;
  tx_errors = 0;
  rx_errors = 0;
  send_packet = false;
  recv_packet = false;
}

unfoldable pub netif_init : Netif → Netif
netif_init t = record {
  interfaces = map cleared t.interfaces;
  num_interfaces = 0;
  default_interface = none;
}

unfoldable pub netif_register : NetworkInterface → Netif → ℤ × Netif
netif_register iface t = if leb max_interfaces t.num_interfaces then (minus_one, t) else (
  pos 0,
  record {
    interfaces = set t.interfaces t.num_interfaces iface;
    num_interfaces = t.num_interfaces + 1;
    default_interface = elim t.default_interface [ none ↦ some t.num_interfaces | some i ↦ some i ];
  },
)

unfoldable pub netif_get_default : Netif → Option NetworkInterface
netif_get_default t = elim t.default_interface [ none ↦ none | some i ↦ get_elem? t.interfaces i ]

-- `result` is what `send_packet` answers.
unfoldable pub netif_send : (List ℕ → ℕ → ℤ) → List ℕ → ℕ → NetworkInterface → ℤ × NetworkInterface
netif_send driver bytes len iface =
    if len == 0
    then (minus_one, iface)
    else if not iface.send_packet
    then (minus_one, iface)
    else (let result = driver bytes len in
        (
          result,
          if ltb_ℤ result (pos 0)
              then record iface { tx_errors = (iface.tx_errors + 1) % 2 ^ 64 }
              else record iface {
                tx_packets = (iface.tx_packets + 1) % 2 ^ 64;
                tx_bytes = (iface.tx_bytes + len) % 2 ^ 64;
              },
        ))

-- `driver` answers the number of bytes and the bytes.
unfoldable pub netif_receive :
    (ℕ → ℤ × List ℕ) → ℕ → NetworkInterface → (ℤ × List ℕ) × NetworkInterface
netif_receive driver max_len iface =
    if max_len == 0
    then ((minus_one, []), iface)
    else if not iface.recv_packet
    then ((pos 0, []), iface)
    else (let result = driver max_len in
        (
          result,
          if ltb_ℤ (pos 0) result.0
              then record iface {
                rx_packets = (iface.rx_packets + 1) % 2 ^ 64;
                rx_bytes = (iface.rx_bytes + pos_part result.0) % 2 ^ 64;
              }
              else if ltb_ℤ result.0 (pos 0)
              then record iface { rx_errors = (iface.rx_errors + 1) % 2 ^ 64 }
              else iface,
        ))

unfoldable pub netif_set_ip : ℕ → ℕ → ℕ → ℕ → NetworkInterface → NetworkInterface
netif_set_ip ip netmask gateway dns iface = record iface {
  ip_addr = ip;
  netmask = netmask;
  gateway = gateway;
  dns_server = dns;
}

unfoldable pub netif_set_link : Bool → NetworkInterface → NetworkInterface
netif_set_link up iface = record iface { link_up = up }

-- A change through the pointer that `netif_get_default` gives.
abbrev pub set_default : NetworkInterface → Netif → Netif
set_default iface t = elim t.default_interface [
  | none ↦ t
  | some i ↦ record t { interfaces = set t.interfaces i iface }
]

-- The packet that `netif_poll` hands to `ip_receive`, if any.
unfoldable pub netif_poll : (ℕ → ℤ × List ℕ) → Netif → Option (List ℕ) × Netif
unfolding netif_get_default netif_receive
netif_poll driver t = elim (netif_get_default t) [
  | none ↦ (none, t)
  | some iface ↦
      (let r = netif_receive driver 2048 iface in
        (
          if ltb_ℤ (pos 0) r.0.0 then some (take (pos_part r.0.0) r.0.1) else none,
          set_default r.1 t,
        ))
]
