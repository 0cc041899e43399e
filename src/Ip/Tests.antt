-- ===== src/Ip/Tests.antt =====
-- Two hosts, and a packet between them.
use ro_dos.Array.{first_index}
use ro_dos.Prelude.{ℕ, ◌≡◌, refl, false, none, some, List, [], ◌∷◌, arith, replicate}
use ro_dos.Prelude.Int.{ℤ, pos}
use ro_dos.Ip.{arp_process, arp_reply, ip_checksum}
use ro_dos.Ip.Checksum.{ip_checksum-filled}
use ro_dos.Ip.Resolution.{Mac, request, bytes_of_mac, arp_process-exchange}
use ro_dos.Net.{netif_send}
use ro_dos.Net.Examples.{iface_with}
use ro_dos.Arp.{ArpEntry, arp_resolve}

ip_checksum-filled_example : ip_checksum (0x12 ∷ 0x34 ∷ 0xB5 ∷ 0xC4 ∷ 0x38 ∷ 7 ∷ []) ≡ 0
unfolding ip_checksum
ip_checksum-filled_example =
    ip_checksum-filled (0x12 ∷ 0x34 ∷ []) (0x38 ∷ 7 ∷ []) tt (ground arith) (omega arith)

-- The MAC addresses of two hosts, of which the second has the address 10.0.2.15.
abbrev asker : Mac
asker = record { m0 = 2; m1 = 0; m2 = 0; m3 = 0; m4 = 0; m5 = 1 }

abbrev owner : Mac
owner = record { m0 = 0x52; m1 = 0x54; m2 = 0; m3 = 0x12; m4 = 0x34; m5 = 9 }

abbrev no_cache : List ArpEntry
no_cache = replicate 16 (record { ip = 0; mac = []; valid = false })

abbrev taken : List ℕ → ℕ → ℤ
taken bytes len = pos len

unknown_yet : arp_resolve 0x0A00020F no_cache ≡ none
unfolding arp_resolve first_index
unknown_yet = refl

arp_process-exchange_example :
    (let frame = request asker 0x0A000210 0x0A00020F in
      let answered = arp_process taken frame no_cache (iface_with 9) in
      let learnt = arp_process taken (arp_reply frame (iface_with 9)) no_cache (iface_with 1) in
      (answered ≡ (
        pos 1,
        (no_cache, (netif_send taken (arp_reply frame (iface_with 9)) 42 (iface_with 9)).1),
      ))
      × (learnt.0 ≡ pos 0)
      × (arp_resolve 0x0A00020F learnt.1.0 ≡ some (bytes_of_mac owner)))
arp_process-exchange_example =
    arp_process-exchange taken asker owner 0x0A000210 no_cache no_cache (iface_with 9)
      (iface_with 1) refl (omega arith) refl unknown_yet
