-- ===== src/Ip/Resolution.antt =====
-- Address resolution between two hosts that run src/tcp_ip_stack.c.
use ro_dos.Prelude.{
  ℕ, ◌^◌, ◌<◌, ◌≡◌, refl, ap, ◌∙◌, true, none, some, List, [], ◌∷◌, arith, ◌==◌, length, replicate,
}
use ro_dos.Prelude.Int.{ℤ, pos}
use ro_dos.Ip.{arp_frame, arp_process, arp_reply}
use ro_dos.Net.{NetworkInterface, netif_send}
use ro_dos.Arp.{ArpEntry, arp_add_entry, arp_resolve}
use ro_dos.Arp.Resolve.{arp_resolve-add_new}
use ro_dos.Bytes.{be32, read_be32}

-- The six bytes of a MAC address, and the parts of an interface that a host is known by.
pub record Mac : Type 0 where
  pub m0 : ℕ
  pub m1 : ℕ
  pub m2 : ℕ
  pub m3 : ℕ
  pub m4 : ℕ
  pub m5 : ℕ

abbrev pub bytes_of_mac : Mac → List ℕ
bytes_of_mac m = m.m0 ∷ m.m1 ∷ m.m2 ∷ m.m3 ∷ m.m4 ∷ m.m5 ∷ []

-- A request of a host for an address, to all hosts. The code has none of its own; this is what the
-- hosts around it send.
abbrev pub request : Mac → ℕ → ℕ → List ℕ
request mac ip target =
    arp_frame (replicate 6 0xFF) (bytes_of_mac mac) 1 (bytes_of_mac mac) (be32 ip) (replicate 6 0)
      (be32 target)

request_lem :
    (driver : List ℕ → ℕ → ℤ) (asker : Mac) (ip : ℕ) (cache : List ArpEntry)
    (iface : NetworkInterface)
    → iface.ip_addr < 2 ^ 32
    → arp_process driver (request asker ip iface.ip_addr) cache iface ≡ (
      pos 1,
      (cache, (netif_send driver (arp_reply (request asker ip iface.ip_addr) iface) 42 iface).1),
    )
unfolding arp_process arp_frame
request_lem driver asker ip cache iface h =
    let mine : (read_be32 (be32 iface.ip_addr) 0 == iface.ip_addr) ≡ true = ground arith in
    rw mine refl

reply_lem :
    (driver : List ℕ → ℕ → ℤ) (asker mac : Mac) (ip : ℕ) (cache : List ArpEntry)
    (iface host : NetworkInterface)
    → iface.mac_addr ≡ bytes_of_mac mac
    → iface.ip_addr < 2 ^ 32
    → arp_process driver (arp_reply (request asker ip iface.ip_addr) iface) cache host
      ≡ (pos 0, (arp_add_entry iface.ip_addr (bytes_of_mac mac) cache, host))
unfolding arp_process arp_frame arp_reply arp_add_entry
reply_lem driver asker mac ip cache iface host e h =
    let mine : read_be32 (be32 iface.ip_addr) 0 ≡ iface.ip_addr = omega arith in
    rw e (ap (λ a. (pos 0, (arp_add_entry a (bytes_of_mac mac) cache, host))) mine)

-- A host with an address below 2 ^ 32 answers a request for it: the result is 1 and the cache stays.
-- When the asking host runs the code too and hands the answer to `arp_process`, its cache right after it
-- resolves the address to the other's MAC address, if the cache had no entry for it before.
pub arp_process-exchange :
    (driver : List ℕ → ℕ → ℤ) (asker mac : Mac) (ip : ℕ) (cache other_cache : List ArpEntry)
    (iface host : NetworkInterface)
    → iface.mac_addr ≡ bytes_of_mac mac
    → iface.ip_addr < 2 ^ 32
    → length cache ≡ 16
    → arp_resolve iface.ip_addr cache ≡ none
    → (let frame = request asker ip iface.ip_addr in
        let answered = arp_process driver frame other_cache iface in
        let learnt = arp_process driver (arp_reply frame iface) cache host in
        (answered ≡ (pos 1, (other_cache, (netif_send driver (arp_reply frame iface) 42 iface).1)))
        × (learnt.0 ≡ pos 0)
        × (arp_resolve iface.ip_addr learnt.1.0 ≡ some (bytes_of_mac mac)))
arp_process-exchange driver asker mac ip cache other_cache iface host e h slots missing =
    let learnt = reply_lem driver asker mac ip cache iface host e h in
    (
      request_lem driver asker ip other_cache iface h,
      ap (λ r. r.0) learnt,
      ap (λ r. arp_resolve iface.ip_addr r.1.0) learnt
          ∙ arp_resolve-add_new iface.ip_addr (bytes_of_mac mac) cache slots missing,
    )
