-- ===== src/Dhcp/Offer.antt =====
-- What `dhcp_process` of src/dhcp_client.c makes of an answer.
use ro_dos.Bytes.{bswap32, read_le32}
use ro_dos.Prelude.{
  ℕ, ◌≤◌, ◌<◌, ◌≡◌, refl, ap, ◌∙◌, inl, inr, true, false, some, List, [], ◌∷◌, ◌++◌, arith, ltb,
  ◌==◌, if◌then◌else◌, Bool-cases, length, drop,
}
use ro_dos.Prelude.Int.{ℤ, pos, minus_one}
use ro_dos.Dhcp.{with_server, Dhcp, dhcp_process, dhcp_accept, walk_options, nothing_found, swap_or}
use ro_dos.Dhcp.Meaning.{found_in, settle-found_in}
use ro_dos.Dhcp.Options.{Opt, AllOpts, encode, walk_options-encode, walk_options-ends}
use ro_dos.Dhcp.Roundtrip.{few_lem}
use ro_dos.Net.{NetworkInterface, netif_set_ip}

-- `dhcp_process` always answers.
pub dhcp_process-returns :
    (packet : List ℕ) (len : ℕ) (d : Dhcp) (iface : NetworkInterface)
    → (r : ℤ × (Dhcp × NetworkInterface)) × (dhcp_process packet len d iface ≡ some r)
unfolding dhcp_process
dhcp_process-returns packet len d iface = elim (Bool-cases (ltb len 240)) [
  | inl short ↦ rw short ((minus_one, (d, iface)), refl)
  | inr long ↦ (elim (Bool-cases (read_le32 packet 4 == d.dhcp_xid)) [
    | inl mine ↦
        (let (f, e) = walk_options-ends (drop 240 packet) in
          rw (long, mine, e) (dhcp_accept packet f d iface, refl))
    | inr other ↦ rw (long, other) ((pos 0, (d, iface)), refl)
  ])
]

-- A packet for the client, with a list of options and an end mark.
pub record IsAnswer (packet : List ℕ) (len : ℕ) (d : Dhcp) (os : List Opt) : Type 0 where
  pub long : 240 ≤ len
  pub mine : read_le32 packet 4 ≡ d.dhcp_xid
  pub options : (rest : List ℕ) × (drop 240 packet ≡ encode os ++ (255 ∷ rest))
  pub all : AllOpts os
  pub room : length (encode os) < 312

process_lem :
    (packet : List ℕ) (len : ℕ) (d : Dhcp) (os : List Opt) (iface : NetworkInterface)
    → IsAnswer packet len d os
    → dhcp_process packet len d iface ≡ some (dhcp_accept packet (found_in os) d iface)
unfolding dhcp_process
process_lem packet len d os iface v =
    let long : ltb len 240 ≡ false = ground (arith, v.long) in
    let mine : (read_le32 packet 4 == d.dhcp_xid) ≡ true = ground (arith, v.mine) in
    let (rest, e) = v.options in
    let found : walk_options 313 (drop 240 packet) 0 nothing_found ≡ some (found_in os) =
      ap (λ l. walk_options 313 l 0 nothing_found) e
      ∙ walk_options-encode 313 os [] rest nothing_found v.all (omega (arith, v.room))
          (omega (arith, v.room, few_lem os))
      ∙ ap some (settle-found_in os) in
    rw (long, mine, found) refl

-- An offer that answers the client's request sets up the interface: the address of the packet, and the
-- mask, the router and the name server of its options, each with its default when the options set none
-- or 0; the result is 1. Any other message leaves the interface as it is, with the result 0.
pub dhcp_process-answer :
    (packet : List ℕ) (len : ℕ) (d : Dhcp) (os : List Opt) (iface : NetworkInterface)
    → IsAnswer packet len d os
    → dhcp_process packet len d iface ≡ (
        let f = found_in os in
        let ip = bswap32 (read_le32 packet 16) in
        if f.msg_type == 2
        then some (
          pos 1,
          (
            record (with_server f d) { offered_ip = ip },
            netif_set_ip ip
                (swap_or f.subnet 0x00FFFFFF)
                (swap_or f.router 0)
                (swap_or f.dns 0x08080808)
                iface,
          ),
        )
        else some (pos 0, (with_server f d, iface)))
unfolding dhcp_accept
dhcp_process-answer packet len d os iface v = elim (Bool-cases ((found_in os).msg_type == 2)) [
  | inl offer ↦ process_lem packet len d os iface v ∙ rw offer refl
  | inr other ↦ process_lem packet len d os iface v ∙ rw other refl
]
