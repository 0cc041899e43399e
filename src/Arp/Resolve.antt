-- ===== src/Arp/Resolve.antt =====
-- What the ARP cache of src/tcp_ip_stack.c knows after an entry is added.
use ro_dos.Array.Search.{first_index-none, first_index_hit, first_index-some, None}
use ro_dos.Array.Slots.{get_or-set_self, get_or-of-get_elem, take-set_above}
use ro_dos.Prelude.{
  ℕ, zero, suc, ◌≤◌, ◌<◌, ◌≡◌, refl, sym, ap, ◌∙◌, inl, inr, Bool, true, none, some, List, [], ◌∷◌,
  arith, Option-cases, length, get_elem?, set, take, get_elem?-set_self, get_elem?-set_ne,
}
use ro_dos.Array.{first_index}
use ro_dos.Arp.{ArpEntry, arp_add_entry, arp_resolve, is_free, is_for, entry_for}

None-prefix {ℓ} :
    {A : Type ℓ} (p : A → Bool) (xs : List A) (n i : ℕ)
    → i ≤ n
    → None p (take n xs)
    → None p (take i xs)
None-prefix p xs n zero h m = tt
None-prefix p [] n (suc i) h m = tt
None-prefix p (x ∷ xs) zero (suc i) h m = absurd (omega arith)
None-prefix p (x ∷ xs) (suc n) (suc i) h m = (m.0, None-prefix p xs n i (omega arith) m.1)

is_for-entry_for : (ip : ℕ) (mac : List ℕ) → is_for ip (entry_for ip mac) ≡ true
is_for-entry_for ip mac = ground arith

module _ (ip : ℕ) (mac : List ℕ) (cache : List ArpEntry) (slots : length cache ≡ 16) where
  -- Writing the entry where no slot before it is for the address.
  written_first :
      (i : ℕ)
      → i < 16
      → None (is_for ip) (take i cache)
      → arp_resolve ip (set cache i (entry_for ip mac)) ≡ some mac
  unfolding arp_resolve
  written_first i inside before =
      let e = entry_for ip mac in
      let found : first_index (is_for ip) (set cache i e) 16 ≡ some i =
        first_index_hit (is_for ip) (set cache i e) 16 i inside
          (get_elem?-set_self cache i e (omega arith)) (is_for-entry_for ip mac)
          (rw (take-set_above cache i i e (omega arith)) before) in
      rw (found, arp_resolve)
        (ap (λ (x : ArpEntry). some x.mac) (get_or-set_self cache i e _ (omega arith)))

  adds :
      (i : ℕ)
      → first_index is_free cache 16 ≡ some i
      → arp_add_entry ip mac cache ≡ set cache i (entry_for ip mac)
  unfolding arp_add_entry
  adds i free = rw (free, arp_add_entry) refl

  resolves :
      (c : List ArpEntry) (k : ℕ) (x : ArpEntry)
      → first_index (is_for ip) c 16 ≡ some k
      → get_elem? c k ≡ some x
      → arp_resolve ip c ≡ some x.mac
  unfolding arp_resolve
  resolves c k x found at =
      rw (found, arp_resolve) (ap (λ (y : ArpEntry). some y.mac) (get_or-of-get_elem c k x _ at))

  unknown : arp_resolve ip cache ≡ none → None (is_for ip) (take 16 cache)
  unfolding arp_resolve
  unknown missing = elim (Option-cases (first_index (is_for ip) cache 16)) [
    | inl e ↦ first_index-none (is_for ip) cache 16 e
    | inr (i, e) ↦ absurd (ground (arith, missing, e))
  ]

  -- An address that the cache does not know is resolved to its MAC address once that is added, in
  -- a full cache too.
  pub arp_resolve-add_new :
      arp_resolve ip cache ≡ none → arp_resolve ip (arp_add_entry ip mac cache) ≡ some mac
  unfolding arp_add_entry
  arp_resolve-add_new missing =
      let m = unknown missing in
      elim (Option-cases (first_index is_free cache 16)) [
        | inl e ↦ rw (e, arp_add_entry) (written_first 0 (omega arith) tt)
        | inr (i, e) ↦
            let (_, l, _, _, _) = first_index-some is_free cache 16 i e in
            rw (e, arp_add_entry)
              (written_first i l (None-prefix (is_for ip) cache 16 i (omega arith) m))
      ]

  -- Adding an address that the cache knows changes nothing for it, if its slot comes before the
  -- first free one: the old MAC address stays.
  pub arp_resolve-add_known :
      (k i : ℕ)
      → first_index (is_for ip) cache 16 ≡ some k
      → first_index is_free cache 16 ≡ some i
      → k < i
      → arp_resolve ip (arp_add_entry ip mac cache) ≡ arp_resolve ip cache
  unfolding arp_add_entry arp_resolve
  arp_resolve-add_known k i known free before =
      let e = entry_for ip mac in
      let (x, l, at, hit, first) = first_index-some (is_for ip) cache 16 k known in
      let kept : get_elem? (set cache i e) k ≡ some x =
        get_elem?-set_ne cache e (omega arith) ∙ at in
      let found : first_index (is_for ip) (set cache i e) 16 ≡ some k =
        first_index_hit (is_for ip) (set cache i e) 16 k l kept hit
          (rw (take-set_above cache k i e (omega arith)) first) in
      ap (arp_resolve ip) (adds i free)
      ∙ resolves (set cache i e) k x found kept
      ∙ sym (resolves cache k x known at)
