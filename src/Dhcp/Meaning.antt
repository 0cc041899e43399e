-- ===== src/Dhcp/Meaning.antt =====
-- What a list of options says, apart from the loop of src/dhcp_client.c that reads it.
use ro_dos.Prelude.{
  ℕ, ◌≡◌, refl, sym, ap, ◌∙◌, inl, inr, Option, none, some, List, [], ◌∷◌, arith, ◌==◌,
  if◌then◌else◌, Bool-cases, get_or,
}
use ro_dos.Bytes.{read_le32}
use ro_dos.Dhcp.{Found, nothing_found, take_option}
use ro_dos.Dhcp.Options.{Opt, settle}

-- The data of the last option with a code.
abbrev pub last_of : ℕ → List Opt → Option (List ℕ)
last_of code [] = none
last_of code (o ∷ os) = elim (last_of code os) [
  | some bytes ↦ some bytes
  | none ↦ if o.code == code then some o.bytes else none
]

abbrev pub value_or : ℕ → (List ℕ → ℕ) → Option (List ℕ) → ℕ
value_or d value none = d
value_or d value (some bytes) = value bytes

abbrev pub word_of : List ℕ → ℕ
word_of bytes = read_le32 bytes 0

abbrev pub byte_of : List ℕ → ℕ
byte_of bytes = get_or bytes 0 0

abbrev pub some_word_or : Option ℕ → Option (List ℕ) → Option ℕ
some_word_or d none = d
some_word_or d (some bytes) = some (word_of bytes)

-- By RFC 2132: the message type has the code 53, the mask 1, the router 3, the name server 6 and the
-- DHCP server 54. Addresses are as they stand in memory, and 0 stands for none.
abbrev pub found_in : List Opt → Found
found_in os = record {
  msg_type = value_or 0 byte_of (last_of 53 os);
  subnet = value_or 0 word_of (last_of 1 os);
  router = value_or 0 word_of (last_of 3 os);
  dns = value_or 0 word_of (last_of 6 os);
  server_id = some_word_or none (last_of 54 os);
}

-- The same over what was found before.
abbrev over : List Opt → Found → Found
over os f = record {
  msg_type = value_or f.msg_type byte_of (last_of 53 os);
  subnet = value_or f.subnet word_of (last_of 1 os);
  router = value_or f.router word_of (last_of 3 os);
  dns = value_or f.dns word_of (last_of 6 os);
  server_id = some_word_or f.server_id (last_of 54 os);
}

-- One option over what was found before.
abbrev one : Opt → Found → Found
one o f = record {
  msg_type = if o.code == 53 then byte_of o.bytes else f.msg_type;
  subnet = if o.code == 1 then word_of o.bytes else f.subnet;
  router = if o.code == 3 then word_of o.bytes else f.router;
  dns = if o.code == 6 then word_of o.bytes else f.dns;
  server_id = if o.code == 54 then some (word_of o.bytes) else f.server_id;
}

take_option-one : (o : Opt) (f : Found) → take_option o.code o.bytes 0 f ≡ one o f
unfolding take_option
take_option-one o f = elim (Bool-cases (o.code == 53)) [
  | inl e ↦ let c : o.code ≡ 53 = ground arith in rw c refl
  | inr n53 ↦ elim (Bool-cases (o.code == 54)) [
    | inl e ↦ let c : o.code ≡ 54 = ground arith in rw c refl
    | inr n54 ↦ elim (Bool-cases (o.code == 1)) [
      | inl e ↦ let c : o.code ≡ 1 = ground arith in rw c refl
      | inr n1 ↦ elim (Bool-cases (o.code == 3)) [
        | inl e ↦ let c : o.code ≡ 3 = ground arith in rw c refl
        | inr n3 ↦ elim (Bool-cases (o.code == 6)) [
          | inl e ↦ let c : o.code ≡ 6 = ground arith in rw c refl
          | inr n6 ↦ rw (n53, n54, n1, n3, n6) refl
        ]
      ]
    ]
  ]
]

value_or-cons :
    (code : ℕ) (o : Opt) (os : List Opt) (d : ℕ) (value : List ℕ → ℕ)
    → value_or d value (last_of code (o ∷ os))
      ≡ value_or (if o.code == code then value o.bytes else d) value (last_of code os)
value_or-cons code o os d value = by_rest (last_of code os)
  where
    by_rest :
        (rest : Option (List ℕ))
        → value_or d value (elim rest [
          | some bytes ↦ some bytes
          | none ↦ if o.code == code then some o.bytes else none
        ])
          ≡ value_or (if o.code == code then value o.bytes else d) value rest
    by_rest (some bytes) = refl
    by_rest none = elim (Bool-cases (o.code == code)) [ inl e ↦ rw e refl | inr e ↦ rw e refl ]

some_word_or-cons :
    (code : ℕ) (o : Opt) (os : List Opt) (d : Option ℕ)
    → some_word_or d (last_of code (o ∷ os))
      ≡ some_word_or (if o.code == code then some (word_of o.bytes) else d) (last_of code os)
some_word_or-cons code o os d = by_rest (last_of code os)
  where
    by_rest :
        (rest : Option (List ℕ))
        → some_word_or d (elim rest [
          | some bytes ↦ some bytes
          | none ↦ if o.code == code then some o.bytes else none
        ])
          ≡ some_word_or (if o.code == code then some (word_of o.bytes) else d) rest
    by_rest (some bytes) = refl
    by_rest none = elim (Bool-cases (o.code == code)) [ inl e ↦ rw e refl | inr e ↦ rw e refl ]

over-cons : (o : Opt) (os : List Opt) (f : Found) → over (o ∷ os) f ≡ over os (one o f)
over-cons o os f =
    ap (λ v. record (over (o ∷ os) f) { msg_type = v }) (value_or-cons 53 o os f.msg_type byte_of)
    ∙ ap (λ v. record (over (o ∷ os) f) { msg_type = (over os (one o f)).msg_type; subnet = v })
        (value_or-cons 1 o os f.subnet word_of)
    ∙ ap
        (λ v. record (over os (one o f)) {
          router = v;
          dns = (over (o ∷ os) f).dns;
          server_id = (over (o ∷ os) f).server_id;
        })
        (value_or-cons 3 o os f.router word_of)
    ∙ ap (λ v. record (over os (one o f)) { dns = v; server_id = (over (o ∷ os) f).server_id })
        (value_or-cons 6 o os f.dns word_of)
    ∙ ap (λ v. record (over os (one o f)) { server_id = v }) (some_word_or-cons 54 o os f.server_id)

settle-over : (os : List Opt) (f : Found) → settle os f ≡ over os f
settle-over [] f = refl
settle-over (o ∷ os) f =
    ap (settle os) (take_option-one o f) ∙ settle-over os (one o f) ∙ sym (over-cons o os f)

-- The loop's effect on nothing is what the options say.
pub settle-found_in : (os : List Opt) → settle os nothing_found ≡ found_in os
settle-found_in os = settle-over os nothing_found
