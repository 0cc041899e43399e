-- ===== src/Ip/Checksum.antt =====
-- The checksum of src/tcp_ip_stack.c: data with its checksum in place sums up to a checksum of 0.
use ro_dos.Bytes.{le16}
use ro_dos.Prelude.{
  ◌∙◌, ◌%◌, ap, length, ◌*◌, ◌≤◌, ◌++◌, ℕ, ◌+◌, ◌^◌, ◌<◌, ◌≡◌, List, [], ◌∷◌, arith,
}
use ro_dos.Ip.{ip_checksum, word_sum, fold_twice}

abbrev pub AllBytes : List ℕ → Type 0
AllBytes [] = Unit {0}
AllBytes (b ∷ bytes) = (b < 256) × AllBytes bytes

fold_bound : (s : ℕ) → fold_twice s < 2 ^ 16
fold_bound s = omega arith

-- The arithmetic: a sum and its checksum.
fold_lem : (s : ℕ) → s < 2 ^ 31 → fold_twice (s + fold_twice s) ≡ 0
fold_lem s h = omega arith

-- A part of 16-bit words.
abbrev pub IsEven : List ℕ → Type 0
IsEven [] = Unit {0}
IsEven (a ∷ []) = ⊥
IsEven (a ∷ b ∷ bytes) = IsEven bytes

word_sum-filled :
    (front back : List ℕ) (c : ℕ)
    → IsEven front
    → c < 2 ^ 16
    → word_sum (front ++ (le16 c ++ back)) ≡ word_sum (front ++ (0 ∷ 0 ∷ back)) + c
unfolding word_sum
word_sum-filled [] back c e h = omega arith
word_sum-filled (a ∷ []) back c e h = absurd e
word_sum-filled (a ∷ b ∷ front) back c e h = omega (arith, word_sum-filled front back c e h)

word_sum-le : (bytes : List ℕ) → AllBytes bytes → word_sum bytes ≤ 32768 * length bytes
unfolding word_sum
word_sum-le [] v = omega arith
word_sum-le (a ∷ []) v = omega (arith, v.0)
word_sum-le (a ∷ b ∷ bytes) v = omega (arith, v.0, v.1.0, word_sum-le bytes v.1.1)

-- When the checksum of at most 65535 bytes, taken with a 0 in its field, is stored in the field, the
-- checksum of the bytes is 0: a receiver that sums up all words accepts them. The field stands at an
-- even offset.
pub ip_checksum-filled :
    (front back : List ℕ)
    → IsEven front
    → AllBytes (front ++ (0 ∷ 0 ∷ back))
    → length (front ++ (0 ∷ 0 ∷ back)) < 2 ^ 16
    → ip_checksum (front ++ (le16 (ip_checksum (front ++ (0 ∷ 0 ∷ back))) ++ back)) ≡ 0
unfolding ip_checksum
ip_checksum-filled front back e v h =
    let all = front ++ (0 ∷ 0 ∷ back) in
    let small : word_sum all < 2 ^ 31 = omega (arith, word_sum-le all v) in
    let c = ip_checksum all in
    let c_lem : c ≡ fold_twice (word_sum all) = ap fold_twice (omega (arith, small)) in
    ap (λ s. fold_twice (s % 2 ^ 32))
      (word_sum-filled front back c e (fold_bound (word_sum all % 2 ^ 32)))
    ∙ ap (λ k. fold_twice ((word_sum all + k) % 2 ^ 32)) c_lem
    ∙ ap fold_twice (omega (arith, small, fold_bound (word_sum all)))
    ∙ fold_lem (word_sum all) small
