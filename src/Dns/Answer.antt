-- ===== src/Dns/Answer.antt =====
-- What src/tcp_ip_stack.c reads from the answer to a query.
use ro_dos.Bytes.{read_be16, be32, read_be32, be16}
use mathlib.Core.List.{append_assoc}
use ro_dos.Prelude.{
  ℕ, zero, suc, ◌+◌, ◌*◌, ◌/◌, ◌%◌, ◌^◌, ◌≤◌, ◌<◌, ◌≡◌, refl, ap, ◌∙◌, inl, inr, Bool, true, false,
  ◌&&◌, Option, none, some, List, [], ◌∷◌, ◌++◌, arith, ltb, ◌==◌, if◌then◌else◌, Bool-cases,
  length, drop, replicate, length-append, if-both,
}
use ro_dos.Prelude.Int.{ℤ, pos, minus_one}
use ro_dos.Dns.{skip_answer_name, DnsCache, dns_process, skip_questions, first_address}
use ro_dos.Dns.Labels.{AllLabels, wire, skip_labels-wire, skip_labels-some}
use ro_dos.Text.{peek}
use ro_dos.Bytes.Loads.{get_or-front, drop-append}

-- An answer record, with a compressed name, a class and a time.
pub record Rr : Type 0 where
  pub offset : ℕ
  pub rtype : ℕ
  pub class : ℕ
  pub ttl : ℕ
  pub rdata : List ℕ

pub record IsRr (r : Rr) : Type 0 where
  pub typed : r.rtype < 2 ^ 16
  pub fits : length r.rdata < 2 ^ 16

abbrev pub AllRr : List Rr → Type 0
AllRr [] = Unit {0}
AllRr (r ∷ rs) = IsRr r × AllRr rs

abbrev pub rr_bytes : Rr → List ℕ
rr_bytes r =
    0xC0
    ∷ r.offset
    ∷ (be16 r.rtype ++ (be16 r.class ++ (be32 r.ttl ++ (be16 (length r.rdata) ++ r.rdata))))

abbrev pub rrs_bytes : List Rr → List ℕ
rrs_bytes [] = []
rrs_bytes (r ∷ rs) = rr_bytes r ++ rrs_bytes rs

-- The data of the first record of the type A with four bytes, as a number.
abbrev pub first_a : List Rr → Option ℕ
first_a [] = none
first_a (r ∷ rs) =
    if r.rtype == 1 && length r.rdata == 4 then some (read_be32 r.rdata 0) else first_a rs

-- An answer to a query: with one question, the name as the query has it, and no other records.
abbrev pub response : ℕ → ℕ → List (List ℕ) → ℕ → ℕ → List Rr → List ℕ → List ℕ
response id flags ls type class rs more =
    be16 id
    ++ (be16 flags
        ++ (be16 1
            ++ (be16 (length rs)
                ++ (replicate 4 0
                    ++ (wire ls ++ (be16 type ++ (be16 class ++ (rrs_bytes rs ++ more))))))))

-- The cache with what was found.
abbrev pub put_address : Option ℕ → DnsCache → DnsCache
put_address none c = c
put_address (some ip) c = record c { last_dns_ip = ip }

abbrev answered : DnsCache → Option (ℤ × DnsCache)
answered c = some (pos 0, c)

two_bytes : (x : ℕ) → x < 2 ^ 16 → x / 256 % 256 * 256 + x % 256 ≡ x
two_bytes x h = omega arith

first_address-record :
    (n : ℕ) (r : Rr) (rest : List ℕ)
    → IsRr r
    → first_address (suc n) (rr_bytes r ++ rest) ≡ (
        if r.rtype == 1 && length r.rdata == 4
        then some (some (read_be32 r.rdata 0))
        else first_address n rest)
unfolding first_address
first_address-record n r rest v = elim (Bool-cases (r.rtype == 1 && length r.rdata == 4)) [
  | inl e ↦
      (let four : length r.rdata ≡ 4 = ground arith in
        rw
          (
            two_bytes r.rtype v.typed,
            two_bytes (length r.rdata) v.fits,
            e,
            get_or-front r.rdata rest 0 0 (omega (arith, four)),
            get_or-front r.rdata rest 1 0 (omega (arith, four)),
            get_or-front r.rdata rest 2 0 (omega (arith, four)),
            get_or-front r.rdata rest 3 0 (omega (arith, four)),
          )
          refl)
  | inr e ↦
      rw (two_bytes r.rtype v.typed, two_bytes (length r.rdata) v.fits, e, drop-append r.rdata rest)
        refl
]

first_address-records :
    (rs : List Rr) (more : List ℕ)
    → AllRr rs
    → first_address (length rs) (rrs_bytes rs ++ more) ≡ some (first_a rs)
unfolding first_address
first_address-records [] more v = refl
first_address-records (r ∷ rs) more v =
    ap (first_address (suc (length rs))) (append_assoc (rr_bytes r) (rrs_bytes rs) more)
    ∙ first_address-record (length rs) r (rrs_bytes rs ++ more) v.0
    ∙ ap (λ x. if r.rtype == 1 && length r.rdata == 4 then some (some (read_be32 r.rdata 0)) else x)
        (first_address-records rs more v.1)
    ∙ push (r.rtype == 1 && length r.rdata == 4) (some (read_be32 r.rdata 0)) (first_a rs)
  where
    push : (b : Bool) (x y : Option ℕ) → (if b then some x else some y) ≡ some (if b then x else y)
    push true x y = refl
    push false x y = refl

question_lem :
    (ls : List (List ℕ)) (type class : ℕ) (rest : List ℕ)
    → AllLabels ls
    → skip_questions 1 (wire ls ++ (be16 type ++ (be16 class ++ rest))) ≡ some rest
unfolding skip_questions
question_lem ls type class rest v =
    let tail = be16 type ++ (be16 class ++ rest) in
    rw
      (
        skip_labels-wire (suc (length (wire ls ++ tail))) ls tail v
            (omega (arith, few ls, length-append (wire ls) tail)),
        skip_questions,
      )
      refl
  where
    few : (ms : List (List ℕ)) → length ms ≤ length (wire ms)
    few [] = omega arith
    few (m ∷ ms) = omega (arith, few ms, length-append m (wire ms))

-- An answer to the query for a host name with any records, of which the compressed names are two bytes:
-- the address of the cache becomes the data of the first A record with four bytes, and stays when there
-- is none.
pub dns_process-response :
    (id flags : ℕ) (ls : List (List ℕ)) (type class : ℕ) (rs : List Rr) (more : List ℕ) (len : ℕ)
    (c : DnsCache)
    → AllLabels ls
    → AllRr rs
    → length rs < 2 ^ 16
    → 12 ≤ len
    → dns_process (response id flags ls type class rs more) len c
      ≡ some (pos 0, put_address (first_a rs) c)
unfolding dns_process
dns_process-response id flags ls type class rs more len c v w few h =
    let long : ltb len 12 ≡ false = ground arith in
    rw
      (
        long,
        question_lem ls type class (rrs_bytes rs ++ more) v,
        two_bytes (length rs) few,
        first_address-records rs more w,
      )
      (cases (first_a rs))
  where
    cases :
        (o : Option ℕ)
        → (elim o [ none ↦ answered c | some ip ↦ answered (record c { last_dns_ip = ip }) ])
          ≡ answered (put_address o c)
    cases none = refl
    cases (some ip) = refl

skip_questions-some : (n : ℕ) (p : List ℕ) → (r : List ℕ) × (skip_questions n p ≡ some r)
unfolding skip_questions
skip_questions-some zero p = (p, refl)
skip_questions-some (suc n) p =
    let (rest, e) = skip_labels-some (suc (length p)) p (omega arith) in
    rw (e, skip_questions) (skip_questions-some n (drop 4 rest))

answer_name-some : (p : List ℕ) → (r : List ℕ) × (skip_answer_name p ≡ some r)
answer_name-some p =
    if-both (λ (x : Option (List ℕ)). (r : List ℕ) × (x ≡ some r)) (peek p / 64 % 4 == 3)
      (drop 2 p, refl) (skip_labels-some (suc (length p)) p (omega arith))

first_address-some : (n : ℕ) (p : List ℕ) → (r : Option ℕ) × (first_address n p ≡ some r)
unfolding first_address
first_address-some zero p = (none, refl)
first_address-some (suc n) p =
    let (q, e) = answer_name-some p in
    rw (e, first_address)
      (if-both (λ (x : Option (Option ℕ)). (r : Option ℕ) × (x ≡ some r))
        (read_be16 q 0 == 1 && read_be16 q 8 == 4) (some (read_be32 q 10), refl)
        (first_address-some n (drop (read_be16 q 8) (drop 10 q))))

-- Whatever bytes a packet from the port 53 has, its loops end: `dns_process` returns.
pub dns_process-returns :
    (payload : List ℕ) (len : ℕ) (c : DnsCache)
    → (r : ℤ × DnsCache) × (dns_process payload len c ≡ some r)
unfolding dns_process
dns_process-returns payload len c = elim (Bool-cases (ltb len 12)) [
  | inl short ↦ rw short ((minus_one, c), refl)
  | inr long ↦
      (let (p, e) = skip_questions-some (read_be16 payload 4) (drop 12 payload) in
        let (a, f) = first_address-some (read_be16 payload 6) p in rw (long, e, f) (found a))
]
  where
    found :
        (o : Option ℕ)
        → (r : ℤ × DnsCache) × ((elim o [
          | none ↦ answered c
          | some ip ↦ answered (record c { last_dns_ip = ip })
        ])
            ≡ some r)
    found none = ((pos 0, c), refl)
    found (some ip) = ((pos 0, record c { last_dns_ip = ip }), refl)
