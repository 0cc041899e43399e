-- ===== src/Utils/Powers.antt =====
-- The loop of `pow` of src/utils.c against the power.
use native.Mathlib.Nat.{pow-suc, pow-zero, add-mul-mod_self_right, mod-add-div', mul_comm}
use ro_dos.Prelude.{
  ℕ, zero, suc, ◌+◌, ◌*◌, ◌/◌, ◌%◌, ◌^◌, ◌<◌, ◌≡◌, refl, sym, ap, ◌∙◌, inl, inr, some, arith, ◌==◌,
  if◌then◌else◌, ==_iff, Bool-cases,
}
use ro_dos.Prelude.Int.{pos, negsuc}
use ro_dos.Utils.Numbers.{pow, pow_loop}

-- A factor may be reduced before a product is.
mul-mod_front : (a b m : ℕ) → a % m * b % m ≡ a * b % m
mul-mod_front a b m =
    let e : a % m * b + a / m * b * m ≡ a * b = omega (arith, ap (λ k. k * b) (mod-add-div' a m)) in
    sym (add-mul-mod_self_right (a % m * b) (a / m * b) m) ∙ ap (λ k. k % m) e

mul-mod_back : (a b m : ℕ) → a * (b % m) % m ≡ a * b % m
mul-mod_back a b m =
    ap (λ k. k % m) (mul_comm a (b % m)) ∙ mul-mod_front b a m ∙ ap (λ k. k % m) (mul_comm b a)

pow-mod : (q a m : ℕ) → (a % m) ^ q % m ≡ a ^ q % m
pow-mod zero a m = ap (λ k. k % m) (pow-zero (a % m) ∙ sym (pow-zero a))
pow-mod (suc q) a m =
    ap (λ k. k % m) (pow-suc (a % m) q)
    ∙ mul-mod_back ((a % m) ^ q) a m
    ∙ sym (mul-mod_front ((a % m) ^ q) a m)
    ∙ ap (λ k. k * a % m) (pow-mod q a m)
    ∙ mul-mod_front (a ^ q) a m
    ∙ ap (λ k. k % m) (sym (pow-suc a q))

square-pow : (q b : ℕ) → (b * b) ^ q ≡ b ^ (q + q)
square-pow zero b = pow-zero (b * b) ∙ sym (pow-zero b)
square-pow (suc q) b =
    let more : suc q + suc q ≡ suc (suc (q + q)) = omega arith in
    pow-suc (b * b) q
    ∙ ap (λ k. k * (b * b)) (square-pow q b)
    ∙ omega (arith, ap (λ k. k * b) (pow-suc b (q + q)))
    ∙ sym (ap (λ k. b ^ k) more ∙ pow-suc b (suc (q + q)) ∙ ap (λ k. k * b) (pow-suc b (q + q)))

-- A round squares the base and halves the exponent.
halve_lem : (r b q m : ℕ) → r * (b * b % m) ^ q % m ≡ r * b ^ (q + q) % m
halve_lem r b q m =
    sym (mul-mod_back r ((b * b % m) ^ q) m)
    ∙ ap (λ k. r * k % m) (pow-mod q (b * b) m)
    ∙ mul-mod_back r ((b * b) ^ q) m
    ∙ ap (λ k. r * k % m) (square-pow q b)

even_lem : (r b e m : ℕ) → e % 2 ≡ 0 → r * (b * b % m) ^ (e / 2) % m ≡ r * b ^ e % m
even_lem r b e m h =
    let twice : e / 2 + e / 2 ≡ e = omega (arith, h) in
    halve_lem r b (e / 2) m ∙ ap (λ k. r * b ^ k % m) twice

odd_lem : (r b e m : ℕ) → e % 2 ≡ 1 → r * b % m * (b * b % m) ^ (e / 2) % m ≡ r * b ^ e % m
odd_lem r b e m h =
    let q = e / 2 in
    let twice : suc (q + q) ≡ e = omega (arith, h) in
    let one_more : r * b * b ^ (q + q) ≡ r * b ^ suc (q + q) =
      omega (arith, ap (λ k. r * k) (pow-suc b (q + q))) in
    halve_lem (r * b % m) b q m
    ∙ mul-mod_front (r * b) (b ^ (q + q)) m
    ∙ ap (λ k. k % m) one_more
    ∙ ap (λ k. r * b ^ k % m) twice

done_lem : (r b : ℕ) → r < 2 ^ 32 → r ≡ r * b ^ 0 % 2 ^ 32
done_lem r b h = omega (arith, ap (λ k. r * k) (pow-zero b))

pow_loop_lem : (n r b e : ℕ) → e < 2 ^ n → r < 2 ^ 32 → pow_loop n r b e ≡ some (r * b ^ e % 2 ^ 32)
unfolding pow_loop
pow_loop_lem zero r b e h w = let z : e ≡ 0 = omega arith in rw z (ap some (done_lem r b w))
pow_loop_lem (suc n) r b e h w = elim (Bool-cases (e == 0)) [
  | inl z ↦ rw z (ap some (done_lem r b w ∙ ap (λ k. r * b ^ k % 2 ^ 32) (sym ((==_iff e 0).0 z))))
  | inr z ↦
      (let room : e / 2 < 2 ^ n = omega (arith, pow-suc 2 n) in
        (elim (Bool-cases (e % 2 == 1)) [
          | inl odd ↦
              rw (z, odd)
                (pow_loop_lem n (r * b % 2 ^ 32) (b * b % 2 ^ 32) (e / 2) room (omega arith)
                  ∙ ap some (odd_lem r b e (2 ^ 32) ((==_iff (e % 2) 1).0 odd)))
          | inr even ↦
              rw (z, even)
                (pow_loop_lem n r (b * b % 2 ^ 32) (e / 2) room w
                  ∙ ap some (even_lem r b e (2 ^ 32) (ground arith)))
        ]))
]

test_lem :
    (b e : ℕ) → e < 2 ^ 31 → (if e == 0 then some 1 else pow_loop 31 1 b e) ≡ some (b ^ e % 2 ^ 32)
test_lem b e h = elim (Bool-cases (e == 0)) [
  | inl z ↦
      (let none_left : 1 ≡ b ^ e % 2 ^ 32 =
          omega (arith, ap (λ k. b ^ k) ((==_iff e 0).0 z), pow-zero b) in
        rw z (ap some none_left))
  | inr z ↦
      (let one : 1 * b ^ e ≡ b ^ e = omega arith in
        rw z (pow_loop_lem 31 1 b e h (omega arith) ∙ ap (λ k. some (k % 2 ^ 32)) one))
]

-- `pow` is the power modulo 2 ^ 32, for every exponent that is not negative, in at most 31 rounds, and 0
-- for the others.
pub pow_lem :
    (b e : ℕ) → e < 2 ^ 31 → (pow b (pos e) ≡ some (b ^ e % 2 ^ 32)) × (pow b (negsuc e) ≡ some 0)
unfolding pow
pow_lem b e h = (test_lem b e h, refl)
