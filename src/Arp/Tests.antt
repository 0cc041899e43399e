-- ===== src/Arp/Tests.antt =====
-- A cache that learns an address.
use ro_dos.Array.{first_index}
use ro_dos.Arp.Resolve.{arp_resolve-add_known, arp_resolve-add_new}
use ro_dos.Prelude.{ℕ, ◌≡◌, refl, false, none, some, List, [], ◌∷◌, arith, replicate}
use ro_dos.Arp.{is_free, is_for, entry_for, ArpEntry, arp_add_entry, arp_resolve}

abbrev blank : ArpEntry
blank = record { ip = 0; mac = replicate 6 0; valid = false }

abbrev empty_cache : List ArpEntry
empty_cache = replicate 16 blank

abbrev some_mac : List ℕ
some_mac = 0x52 ∷ 0x55 ∷ 0x0a ∷ 0 ∷ 2 ∷ 2 ∷ []

abbrev other_mac : List ℕ
other_mac = replicate 6 7

unknown_runs : arp_resolve 5 empty_cache ≡ none
unfolding arp_resolve first_index
unknown_runs = refl

arp_resolve-add_new_example : arp_resolve 5 (arp_add_entry 5 some_mac empty_cache) ≡ some some_mac
arp_resolve-add_new_example = arp_resolve-add_new 5 some_mac empty_cache refl unknown_runs

-- A cache with one entry.
abbrev one_entry : List ArpEntry
one_entry = entry_for 5 some_mac ∷ replicate 15 blank

known : first_index (is_for 5) one_entry 16 ≡ some 0
unfolding first_index
known = refl

free : first_index is_free one_entry 16 ≡ some 1
unfolding first_index
free = refl

arp_resolve-add_known_example :
    arp_resolve 5 (arp_add_entry 5 other_mac one_entry) ≡ arp_resolve 5 one_entry
arp_resolve-add_known_example =
    arp_resolve-add_known 5 other_mac one_entry refl 0 1 known free (omega arith)
