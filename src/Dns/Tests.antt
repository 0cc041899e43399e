-- ===== src/Dns/Tests.antt =====
-- A query for a host and an answer to it.
use ro_dos.Prelude.{ℕ, ◌<◌, ◌≡◌, refl, ◌≢◌, some, List, [], ◌∷◌, arith}
use ro_dos.Prelude.Int.{ℤ, pos}
use ro_dos.Text.{codes}
use ro_dos.Dns.{built, qname, dns_process, dns_known, DnsCache}
use ro_dos.Dns.Labels.{AllLabels, qname-joined, qname-ends, Ended}
use ro_dos.Dns.Answer.{Rr, response, dns_process-response, dns_process-returns}

abbrev host : List (List ℕ)
host = codes "ro" ∷ codes "dos" ∷ []

plain : (c : ℕ) → 98 < c → (c ≢ 0) × (c ≢ b'.')
plain c h = (λ e. absurd (omega (arith, e)), λ e. absurd (omega (arith, e)))

host-AllLabels : AllLabels host
host-AllLabels = (
  record {
    plain = (
      (plain 114 (omega arith)).0,
      (plain 114 (omega arith)).1,
      ((plain 111 (omega arith)).0, (plain 111 (omega arith)).1, tt),
    );
    some_byte = omega arith;
    short = omega arith;
  },
  (
    record {
      plain = (
        (plain 100 (omega arith)).0,
        (plain 100 (omega arith)).1,
        (
          (plain 111 (omega arith)).0,
          (plain 111 (omega arith)).1,
          ((plain 115 (omega arith)).0, (plain 115 (omega arith)).1, tt),
        ),
      );
      some_byte = omega arith;
      short = omega arith;
    },
    tt,
  ),
)

qname-joined_example :
    qname 7 (codes "ro.dos") ≡ built (2 ∷ b'r' ∷ b'o' ∷ 3 ∷ b'd' ∷ b'o' ∷ b's' ∷ 0 ∷ [])
qname-joined_example = qname-joined 7 host host-AllLabels (omega arith)

qname-ends_example : Ended (qname 6 (codes "..a.."))
qname-ends_example = qname-ends 6 (codes "..a..") (omega arith)

abbrev cache : DnsCache
cache = record { last_dns_host = codes "ro.dos"; last_dns_ip = 0 }

-- An alias, and an address.
abbrev records : List Rr
records =
    record { offset = 12; rtype = 5; class = 1; ttl = 60; rdata = 0xC0 ∷ 12 ∷ [] }
    ∷ record { offset = 12; rtype = 1; class = 1; ttl = 60; rdata = 10 ∷ 0 ∷ 2 ∷ 15 ∷ [] }
    ∷ []

dns_process-response_example :
    dns_process (response 0xCAFE 0x8180 host 1 1 records []) 100 cache
    ≡ some (pos 0, record cache { last_dns_ip = 0x0A00020F })
dns_process-response_example =
    dns_process-response 0xCAFE 0x8180 host 1 1 records [] 100 cache host-AllLabels
      (
        record { typed = omega arith; fits = omega arith },
        (record { typed = omega arith; fits = omega arith }, tt),
      )
      (omega arith) (omega arith)

dns_process-returns_example :
    (r : ℤ × DnsCache) × (dns_process (0 ∷ 0 ∷ 0 ∷ 0 ∷ 255 ∷ 255 ∷ []) 90 cache ≡ some r)
dns_process-returns_example = dns_process-returns (0 ∷ 0 ∷ 0 ∷ 0 ∷ 255 ∷ 255 ∷ []) 90 cache

known_run :
    dns_known (codes "google.com") cache
    ≡ some (0x8EFA7F0E, record { last_dns_host = codes "google.com"; last_dns_ip = 0x8EFA7F0E })
unfolding dns_known
known_run = refl

-- A dot in front ends the name at once.
dot_run : qname 5 (codes ".org") ≡ built (0 ∷ 3 ∷ b'o' ∷ b'r' ∷ b'g' ∷ 0 ∷ [])
unfolding qname
dot_run = refl
