-- ===== src/Stack/Tests.antt =====
-- A machine that gets its address, and a connection that finds no other side.
use ro_dos.Prelude.{
  ℕ, ◌≡◌, refl, Bool, true, false, ◌&&◌, some, List, [], ◌∷◌, ◌++◌, ltb, replicate,
}
use ro_dos.Prelude.Int.{ℤ, pos}
use ro_dos.Bytes.{be32, le32}
use ro_dos.Net.Examples.{iface_with}
use ro_dos.Dhcp.Options.{Opt, encode}
use ro_dos.Ip.Resolution.{Mac}
use ro_dos.Tcp.{Tcb, Sent, tcp_closed}
use ro_dos.Stack.{Stack}
use ro_dos.Stack.Configure.{set_up}

abbrev closed_tcb : Tcb
closed_tcb = record {
  state = tcp_closed;
  local_ip = 0;
  remote_ip = 0;
  local_port = 0;
  remote_port = 0;
  snd_nxt = 0;
  rcv_nxt = 0;
  rx_buffer = replicate 16384 0;
  rx_len = 0;
  rx_processed = 0;
  has_data = false;
}

abbrev machine : Stack
machine = record {
  netif = record {
    interfaces = replicate 4 (iface_with 1);
    num_interfaces = 1;
    default_interface = some 0;
  };
  arp_cache = replicate 16 (record { ip = 0; mac = []; valid = false });
  tcb = closed_tcb;
  dhcp = record { dhcp_xid = 0x12345678; offered_ip = 0; server_ip = 0 };
  dns = record { last_dns_host = []; last_dns_ip = 0 };
}

-- The message type 2, and a router.
abbrev offer : List Opt
offer = record { code = 53; bytes = 2 ∷ [] } ∷ record { code = 3; bytes = 10 ∷ 0 ∷ 2 ∷ 2 ∷ [] } ∷ []

abbrev packet : List ℕ
packet =
    (2 ∷ 1 ∷ 6 ∷ 0 ∷ le32 0x12345678)
    ++ (replicate 8 0 ++ (be32 0x0A00020F ++ (replicate 220 0 ++ (encode offer ++ (255 ∷ [])))))

abbrev mac : Mac
mac = record { m0 = 0x52; m1 = 0x54; m2 = 0; m3 = 0x12; m4 = 0x34; m5 = 1 }

abbrev taken : List ℕ → ℕ → ℤ
taken bytes len = pos len

all_small : List ℕ → Bool
all_small [] = true
all_small (b ∷ bytes) = ltb b 256 && all_small bytes

-- The gateway is 10.0.2.2.
gateway_run : (set_up 0x0A00020F offer (iface_with 1)).gateway ≡ 0x0A000202
gateway_run = refl

abbrev request : Sent
request = record {
  dest_ip = 0x5DB8D822;
  dest_port = 80;
  src_port = 10007;
  seq = 77;
  ack = 5;
  flags = 0x18;
  payload = b'G' ∷ b'E' ∷ b'T' ∷ [];
}

abbrev silent : List (List (ℕ → ℤ × List ℕ))
silent = ((λ n. (pos 0, [])) ∷ []) ∷ [] ∷ []
