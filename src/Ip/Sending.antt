-- ===== src/Ip/Sending.antt =====
-- The frames that src/tcp_ip_stack.c sends.
use ro_dos.Prelude.{ℕ, ◌+◌, ◌<◌, ◌≡◌, [], ◌∷◌, ◌++◌, arith}
use ro_dos.Ip.{ip_header, icmp_request, ip_checksum, counting}
use ro_dos.Ip.Checksum.{ip_checksum-filled}
use ro_dos.Bytes.{be16, be32}

-- The IP header of every packet of fewer than 65516 bytes and the echo request of every number are
-- sent with a checksum that a receiver accepts.
pub ip_checksum-sent :
    (dest_ip src_ip protocol len seq : ℕ)
    → protocol < 256
    → (ip_checksum (
          ip_header
            (ip_checksum (ip_header 0 dest_ip src_ip protocol len))
            dest_ip
            src_ip
            protocol
            len)
        ≡ 0)
      × (ip_checksum (icmp_request (ip_checksum (icmp_request 0 seq)) seq) ≡ 0)
unfolding ip_header icmp_request
ip_checksum-sent dest_ip src_ip protocol len seq h = (
  ip_checksum-filled ((0x45 ∷ 0 ∷ be16 (20 + len)) ++ (0 ∷ 0 ∷ 0 ∷ 0 ∷ 64 ∷ protocol ∷ []))
      (be32 src_ip ++ be32 dest_ip) tt (ground arith) (omega arith),
  ip_checksum-filled (8 ∷ 0 ∷ []) (be16 0x1234 ++ (be16 seq ++ counting 56 8)) tt (ground arith)
      (omega arith),
)
