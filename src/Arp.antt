-- ===== src/Arp.antt =====
-- The ARP cache of src/tcp_ip_stack.c. A null pointer is left out, and a MAC address is the list of
-- its 6 bytes.
pub mod Resolve
mod Tests
use ro_dos.Prelude.{
  ℕ, Bool, true, false, not, ◌&&◌, Option, none, some, List, [], ◌∷◌, ◌==◌, set, get_or,
}
use ro_dos.Array.{first_index}

abbrev pub arp_cache_size : ℕ
arp_cache_size = 16

-- `arp_entry_t`
pub record ArpEntry : Type 0 where
  pub ip : ℕ
  pub mac : List ℕ
  pub valid : Bool

abbrev no_entry : ArpEntry
no_entry = record { ip = 0; mac = []; valid = false }

-- for (i = 0; i < ARP_CACHE_SIZE; i++) arp_cache[i].valid = false
unfoldable pub arp_init : List ArpEntry → List ArpEntry
arp_init [] = []
arp_init (e ∷ cache) = record e { valid = false } ∷ arp_init cache

abbrev pub is_free : ArpEntry → Bool
is_free e = not e.valid

-- arp_cache[i].valid && arp_cache[i].ip == ip_addr
abbrev pub is_for : ℕ → ArpEntry → Bool
is_for ip_addr e = e.valid && e.ip == ip_addr

abbrev pub entry_for : ℕ → List ℕ → ArpEntry
entry_for ip_addr mac_addr = record { ip = ip_addr; mac = mac_addr; valid = true }

-- The first slot that is not valid, or else the slot 0; the result is always 0.
unfoldable pub arp_add_entry : ℕ → List ℕ → List ArpEntry → List ArpEntry
arp_add_entry ip_addr mac_addr cache = elim (first_index is_free cache arp_cache_size) [
  | some i ↦ set cache i (entry_for ip_addr mac_addr)
  | none ↦ set cache 0 (entry_for ip_addr mac_addr)
]

-- `none` is the result -1.
unfoldable pub arp_resolve : ℕ → List ArpEntry → Option (List ℕ)
arp_resolve ip_addr cache = elim (first_index (is_for ip_addr) cache arp_cache_size) [
  | some i ↦ some (get_or cache i no_entry).mac
  | none ↦ none
]
