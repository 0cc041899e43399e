-- ===== src/Dhcp/Tests.antt =====
-- An offer of an address, and the options of it.
use ro_dos.Prelude.{ℕ, ◌^◌, ◌<◌, ◌≡◌, refl, inl, inr, some, List, [], ◌∷◌, ◌++◌, arith, replicate}
use ro_dos.Prelude.Int.{ℤ, pos}
use ro_dos.Dhcp.{
  discover_ip, be_sum, Dhcp, Found, dhcp_process, walk_options, nothing_found, swap_or, fold_sum,
  discover_checksum,
}
use ro_dos.Dhcp.Meaning.{found_in}
use ro_dos.Dhcp.Options.{Opt, AllOpts, encode, walk_options-ends, fold_sum-ends}
use ro_dos.Dhcp.Offer.{IsAnswer, dhcp_process-answer, dhcp_process-returns}
use ro_dos.Net.{NetworkInterface, netif_set_ip}
use ro_dos.Net.Examples.{iface_with}
use ro_dos.Bytes.{le32, be32}

-- The message type 2, and the mask 255.255.0.0.
abbrev offer : List Opt
offer =
    record { code = 53; bytes = 2 ∷ [] } ∷ record { code = 1; bytes = 255 ∷ 255 ∷ 0 ∷ 0 ∷ [] } ∷ []

offer-AllOpts : AllOpts offer
offer-AllOpts = (
  record {
    no_padding = λ e. absurd (omega (arith, e));
    no_end = λ e. absurd (omega (arith, e));
    fits = omega arith;
    whole = inr (refl, omega arith);
  },
  (
    record {
      no_padding = λ e. absurd (omega (arith, e));
      no_end = λ e. absurd (omega (arith, e));
      fits = omega arith;
      whole = inl (omega arith);
    },
    tt,
  ),
)

walk_options-ends_example :
    (r : Found) × (walk_options 313 (53 ∷ 1 ∷ 2 ∷ 0 ∷ 1 ∷ 200 ∷ []) 0 nothing_found ≡ some r)
walk_options-ends_example = walk_options-ends (53 ∷ 1 ∷ 2 ∷ 0 ∷ 1 ∷ 200 ∷ [])

fold_sum-ends_example : (r : ℕ) × (fold_sum 2 0x2F2F1 ≡ some r) × (r < 2 ^ 16)
fold_sum-ends_example = fold_sum-ends 0x2F2F1 (omega arith)

abbrev client : Dhcp
client = record { dhcp_xid = 0x12345678; offered_ip = 0; server_ip = 0 }

-- The header, with the address 10.0.2.15 at the offset 16.
abbrev answer : List ℕ
answer =
    (2 ∷ 1 ∷ 6 ∷ 0 ∷ le32 0x12345678)
    ++ (replicate 8 0 ++ (be32 0x0A00020F ++ (replicate 220 0 ++ (encode offer ++ (255 ∷ [])))))

answer-IsAnswer : IsAnswer answer 300 client offer
answer-IsAnswer = record {
  long = omega arith;
  mine = refl;
  options = ([], refl);
  all = offer-AllOpts;
  room = omega arith;
}

dhcp_process-answer_example :
    dhcp_process answer 300 client (iface_with 1)
    ≡ some (
      pos 1,
      (
        record client { offered_ip = 0x0A00020F },
        netif_set_ip 0x0A00020F 0xFFFF0000 0 0x08080808 (iface_with 1),
      ),
    )
dhcp_process-answer_example =
    dhcp_process-answer answer 300 client offer (iface_with 1) answer-IsAnswer

dhcp_process-returns_example :
    (r : ℤ × (Dhcp × NetworkInterface)) × (dhcp_process answer 300 client (iface_with 1) ≡ some r)
dhcp_process-returns_example = dhcp_process-returns answer 300 client (iface_with 1)

-- Without a mask in the offer the interface gets 0.255.255.255, not 255.255.255.0.
default_mask :
    swap_or (found_in (record { code = 53; bytes = 2 ∷ [] } ∷ [])).subnet 0x00FFFFFF ≡ 0x00FFFFFF
default_mask = refl

-- The checksum of the header that goes out, and the sum with it.
checksum_run : discover_checksum ≡ 0x6676
unfolding discover_checksum
checksum_run = refl

header_sum : fold_sum 2 (be_sum (discover_ip discover_checksum)) ≡ some 0xFFFF
unfolding discover_checksum fold_sum be_sum
header_sum = refl
