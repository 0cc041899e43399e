-- ===== src/Dns.antt =====
-- The name resolution of src/tcp_ip_stack.c: the query that goes out, and the answer that is read. A
-- host name is the list of its bytes, with or without its terminator. A byte that is read behind a
-- packet is 0 here, and a text that is too long for its buffer is kept whole.
pub mod Labels
pub mod Answer
mod Tests
use ro_dos.Prelude.{
  ℕ, zero, suc, ◌+◌, ◌/◌, ◌%◌, Bool, not, ◌&&◌, ◌||◌, Option, none, some, List, [], ◌∷◌, ◌++◌, ltb,
  ◌==◌, if◌then◌else◌, length, take, drop, replicate,
}
use ro_dos.Prelude.Int.{ℤ, pos, minus_one}
use ro_dos.Bytes.{be16, read_be16, read_be32}
use ro_dos.Text.{codes, peek, text}

-- The static variables: the host asked for last, and its address.
pub record DnsCache : Type 0 where
  pub last_dns_host : List ℕ
  pub last_dns_ip : ℕ

-- `static_dns`
abbrev pub static_dns : List (List ℕ × ℕ)
static_dns =
    (codes "example.com", 0x5DB8D822)
    ∷ (codes "www.example.com", 0x5DB8D822)
    ∷ (codes "httpbin.org", 0x36F7F036)
    ∷ (codes "www.httpbin.org", 0x36F7F036)
    ∷ (codes "info.cern.ch", 0xBC14FC0B)
    ∷ (codes "www.info.cern.ch", 0xBC14FC0B)
    ∷ (codes "google.com", 0x8EFA7F0E)
    ∷ (codes "www.google.com", 0x8EFA7F0E)
    ∷ []

-- str_cmp(a, b) == 0
abbrev pub same_text : List ℕ → List ℕ → Bool
same_text [] b = peek b == 0
same_text (x ∷ a) [] = x == 0
same_text (x ∷ a) (y ∷ b) = if x == 0 then y == 0 else x == y && same_text a b

unfoldable pub static_lookup : List (List ℕ × ℕ) → List ℕ → Option ℕ
static_lookup [] hostname = none
static_lookup (e ∷ entries) hostname =
    if same_text hostname e.0 then some e.1 else static_lookup entries hostname

-- The address that is known without a query, and the cache then.
unfoldable pub dns_known : List ℕ → DnsCache → Option (ℕ × DnsCache)
unfolding static_lookup
dns_known hostname c =
    if same_text c.last_dns_host hostname && not (c.last_dns_ip == 0)
    then some (c.last_dns_ip, c)
    else (elim (static_lookup static_dns hostname) [
      | none ↦ none
      | some ip ↦ some (ip, record { last_dns_host = text hostname; last_dns_ip = ip })
    ])

-- while (*dot && *dot != '.') dot++: how far it gets.
unfoldable pub label_len : List ℕ → ℕ
label_len [] = 0
label_len (c ∷ p) = if c == 0 || c == b'.' then 0 else suc (label_len p)

-- What becomes of QNAME: a label is longer than 63 bytes, the bytes, or the rounds ran out.
pub data Qname : Type 0 where
  too_long : Qname
  built : List ℕ → Qname
  out_of_rounds : Qname

abbrev pub in_front : List ℕ → Qname → Qname
in_front label (built rest) = built (label ++ rest)
in_front label too_long = too_long
in_front label out_of_rounds = out_of_rounds

-- if (*p == '.') p++
abbrev pub skip_dot : List ℕ → List ℕ
skip_dot [] = []
skip_dot (c ∷ p) = if c == b'.' then p else c ∷ p

-- The loop over the labels, and the root label behind them.
unfoldable pub qname : ℕ → List ℕ → Qname
unfolding label_len
qname zero p = out_of_rounds
qname (suc n) p =
    let len = label_len p in
    let rest = qname n (skip_dot (drop len p)) in
    if peek p == 0
    then built (0 ∷ [])
    else if ltb 63 len
    then too_long
    else in_front (len ∷ take len p) rest

-- The query of a name: the header, QNAME, QTYPE and QCLASS. A round takes at least one byte of the name.
unfoldable pub dns_query : List ℕ → Qname
unfolding qname
dns_query hostname = elim (qname (suc (length hostname)) hostname) [
  | built name ↦
      built (
        be16 0xCAFE ++ (be16 0x0100 ++ (be16 1 ++ (replicate 6 0 ++ (name ++ (be16 1 ++ be16 1))))))
  | too_long ↦ too_long
  | out_of_rounds ↦ out_of_rounds
]

-- while (*p != 0) p += (*p) + 1; p++; from a place on. `none` means that the rounds ran out.
unfoldable pub skip_labels : ℕ → List ℕ → Option (List ℕ)
skip_labels zero p = none
skip_labels (suc n) p =
    let rest = skip_labels n (drop (peek p + 1) p) in if peek p == 0 then some (drop 1 p) else rest

abbrev pub skip_name : List ℕ → Option (List ℕ)
skip_name p = skip_labels (suc (length p)) p

-- for (i = 0; i < q_count; i++)
unfoldable pub skip_questions : ℕ → List ℕ → Option (List ℕ)
unfolding skip_labels
skip_questions zero p = some p
skip_questions (suc n) p = elim (skip_name p) [
  | none ↦ none
  | some rest ↦ skip_questions n (drop 4 rest)
]

-- The name of an answer: a pointer of two bytes, or labels.
abbrev pub skip_answer_name : List ℕ → Option (List ℕ)
skip_answer_name p = if peek p / 64 % 4 == 3 then some (drop 2 p) else skip_name p

-- The address of the first A record, if there is one.
unfoldable pub first_address : ℕ → List ℕ → Option (Option ℕ)
unfolding skip_labels
first_address zero p = some none
first_address (suc n) p = elim (skip_answer_name p) [
  | none ↦ none
  | some q ↦
      let rest = first_address n (drop (read_be16 q 8) (drop 10 q)) in
      if read_be16 q 0 == 1 && read_be16 q 8 == 4 then some (some (read_be32 q 10)) else rest
]

-- The part of `udp_process` for a packet from the port 53: its result and the cache.
unfoldable pub dns_process : List ℕ → ℕ → DnsCache → Option (ℤ × DnsCache)
unfolding skip_questions first_address
dns_process payload payload_len c =
    if ltb payload_len 12
    then some (minus_one, c)
    else (elim (skip_questions (read_be16 payload 4) (drop 12 payload)) [
      | none ↦ none
      | some p ↦ (elim (first_address (read_be16 payload 6) p) [
        | none ↦ none
        | some none ↦ some (pos 0, c)
        | some (some ip) ↦ some (pos 0, record c { last_dns_ip = ip })
      ])
    ])
