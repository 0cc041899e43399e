-- ===== src/Dhcp/Roundtrip.antt =====
-- What `dhcp_add_option` of src/dhcp_client.c writes, and that the loop over the options reads it.
use ro_dos.Prelude.{ℕ, ◌≤◌, List, [], ◌∷◌, arith, length, set, replicate, length-append}
use ro_dos.Dhcp.Options.{Opt, encode, add_all}

pub few_lem : (os : List Opt) → length os ≤ length (encode os)
few_lem [] = omega arith
few_lem (o ∷ os) = omega (arith, few_lem os, length-append o.bytes (encode os))

-- The options of a packet, as `dhcp_discover` builds them: the options and the end mark behind them.
abbrev pub built : List Opt → List ℕ
built os = let r = add_all (replicate 312 0) 0 os in set r.0 r.1 255
