-- ===== src/Tcp/Faults.antt =====
-- A segment of src/tcp_ip_stack.c whose header claims to be longer than the segment.
use ro_dos.Prelude.{ℕ, ◌+◌, ◌-◌, ◌^◌, ◌≤◌, ◌<◌, ◌≡◌, none, List, arith, length}
use ro_dos.Tcp.{seg_len, Tcb, tcp_process, take_data, hdr_len, tcp_established}
use ro_dos.Tcp.Receive.{IsConsistent}

-- On an established connection, a segment of 20 bytes or more whose header length exceeds its own by
-- no more than the number of bytes received before makes the copying loop run behind the buffer: its
-- length wraps around, and so does the test against the size of the buffer.
pub tcp_process_fault :
    (p : List ℕ) (t : Tcb)
    → IsConsistent t
    → t.state ≡ tcp_established
    → 20 ≤ length p
    → length p < hdr_len p
    → hdr_len p < 2 ^ 16
    → hdr_len p ≤ length p + t.rx_len
    → tcp_process p t ≡ none
unfolding tcp_process take_data
tcp_process_fault p t v open_ long short small claim =
    let wraps : seg_len p ≡ 2 ^ 32 - (hdr_len p - length p) = omega arith in
    let taken : take_data p t ≡ none = rw wraps (ground (arith, v.room)) in
    ground (arith, open_, taken)
