-- ===== src/Net/Examples.antt =====
-- An interface and a table, for the tests.
use ro_dos.Prelude.{ℕ, true, some, [], ◌∷◌, replicate}
use ro_dos.Net.{NetworkInterface, Netif}

-- An interface with a last byte of its MAC address.
abbrev pub iface_with : ℕ → NetworkInterface
iface_with last = record {
  name = b'e' ∷ b't' ∷ b'h' ∷ 0 ∷ [];
  mac_addr = 0x52 ∷ 0x54 ∷ 0 ∷ 0x12 ∷ 0x34 ∷ last ∷ [];
  ip_addr = 0x0A00020F;
  netmask = 0xFFFFFF00;
  gateway = 0x0A000202;
  dns_server = 0x08080808;
  link_up = true;
  tx_packets = 0;
  rx_packets = 0;
  tx_bytes = 0;
  rx_bytes = 0;
  tx_errors = 0;
  rx_errors = 0;
  send_packet = true;
  recv_packet = true;
}

abbrev pub empty_netif : Netif
empty_netif = record {
  interfaces = replicate 4 (iface_with 0);
  num_interfaces = 9;
  default_interface = some 7;
}
