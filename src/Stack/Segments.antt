-- ===== src/Stack/Segments.antt =====
-- The checksum of the TCP segments that src/tcp_ip_stack.c sends.
use ro_dos.Prelude.{ℕ, ◌+◌, ◌/◌, ◌%◌, ◌^◌, List, ◌∷◌, ◌++◌, length}
use ro_dos.Bytes.{be16, be32}
use ro_dos.Dhcp.{be_sum}
use ro_dos.Stack.{pseudo_header, Stack}
use ro_dos.Tcp.{Sent}

-- The value of the folded sum.
abbrev once : ℕ → ℕ
once s = s % 2 ^ 16 + s / 2 ^ 16

-- The header in front of the checksum.
abbrev head : Sent → List ℕ
head s =
    be16 s.src_port
    ++ (be16 s.dest_port ++ (be32 s.seq ++ (be32 s.ack ++ (0x50 ∷ s.flags ∷ be16 8192))))

-- What a receiver sums up.
abbrev pub sum_of : ℕ → ℕ → List ℕ → ℕ
sum_of src_ip dest_ip bytes =
    (be_sum (pseudo_header src_ip dest_ip (length bytes % 2 ^ 16)) + be_sum bytes) % 2 ^ 32
