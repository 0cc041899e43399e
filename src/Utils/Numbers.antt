-- ===== src/Utils/Numbers.antt =====
-- The integer functions of src/utils.c. A uint32_t is a number below 2 ^ 32, and so is an int32_t where
-- it is only multiplied.
use Prim.Native.Nat.{bit_and, bit_or}
use ro_dos.Prelude.{
  ℕ, zero, suc, ◌+◌, ◌-◌, ◌*◌, ◌/◌, ◌%◌, ◌^◌, Bool, true, false, not, ◌&&◌, Option, none, some,
  List, [], ◌∷◌, ltb, ◌==◌, if◌then◌else◌, set, drop,
}
use ro_dos.Prelude.Int.{ℤ, pos, negsuc, pos_part, ◌+ℤ◌, ◌-ℤ◌, ltb_ℤ}
use ro_dos.Text.{peek}
use ro_dos.Utils.Strings.{strchr}

abbrev pub min_int : ℤ → ℤ → ℤ
min_int a b = if ltb_ℤ a b then a else b

abbrev pub max_int : ℤ → ℤ → ℤ
max_int a b = if ltb_ℤ b a then a else b

abbrev pub clamp_int : ℤ → ℤ → ℤ → ℤ
clamp_int val min_val max_val =
    if ltb_ℤ val min_val then min_val else if ltb_ℤ max_val val then max_val else val

-- The loop of `pow` for a count of rounds, of which `none` means that they ran out.
unfoldable pub pow_loop : ℕ → ℕ → ℕ → ℕ → Option ℕ
pow_loop zero result base exp = if exp == 0 then some result else none
pow_loop (suc n) result base exp =
    let next = if exp % 2 == 1 then result * base % 2 ^ 32 else result in
    let rest = pow_loop n next (base * base % 2 ^ 32) (exp / 2) in
    if exp == 0 then some result else rest

-- An exponent has 31 bits.
unfoldable pub pow : ℕ → ℤ → Option ℕ
unfolding pow_loop
pow base (negsuc e) = some 0
pow base (pos e) = if e == 0 then some 1 else pow_loop 31 1 base e

-- What `sqrt` comes to: its result, a division by 0, or no end in the rounds.
pub data Root : Type 0 where
  root : ℕ → Root
  divides_by_zero : Root
  out_of_rounds : Root

unfoldable pub sqrt_loop : ℕ → ℕ → ℕ → ℕ → Root
sqrt_loop zero n x y = out_of_rounds
sqrt_loop (suc k) n x y =
    let rest = sqrt_loop k n y ((y + n / y) % 2 ^ 32 / 2) in
    if ltb y x then (if y == 0 then divides_by_zero else rest) else root x

-- x + 1 wraps for the greatest uint32_t.
unfoldable pub sqrt : ℕ → ℕ → Root
unfolding sqrt_loop
sqrt rounds n =
    if n == 0
    then root 0
    else if n == 1
    then root 1
    else sqrt_loop rounds n n ((n + 1) % 2 ^ 32 / 2)

-- The number and the new seed.
unfoldable pub rand : ℕ → ℕ × ℕ
rand seed = let next = (seed * 1103515245 + 12345) % 2 ^ 32 in (next / 65536 % 32768, next)

-- The bounds are as int32_t. A range of more than 2 ^ 31 - 1 numbers, whose width wraps in C, is not
-- modelled.
unfoldable pub rand_range : ℤ → ℤ → ℕ → ℤ × ℕ
unfolding rand
rand_range min_val max_val seed =
    if ltb_ℤ min_val max_val
    then (let r = rand seed in
        let width = pos_part ((max_val -ℤ min_val) +ℤ pos 1) in (min_val +ℤ pos (r.0 % width), r.1))
    else (min_val, seed)

unfoldable pub popcount : ℕ → ℕ → ℕ
popcount zero n = 0
popcount (suc k) n = let rest = popcount k (n / 2) in if n == 0 then 0 else n % 2 + rest

-- One test of `clz`: the upper `w` bits are 0.
abbrev pub shift_if_clear : ℕ → ℕ × ℕ → ℕ × ℕ
shift_if_clear w (count, n) =
    if n / 2 ^ (32 - w) == 0 then (count + w, n * 2 ^ w % 2 ^ 32) else (count, n)

unfoldable pub clz : ℕ → ℕ
clz n =
    if n == 0
    then 32
    else (let r =
          shift_if_clear 2 (shift_if_clear 4 (shift_if_clear 8 (shift_if_clear 16 (0, n)))) in
        if r.1 / 2 ^ 31 == 0 then r.0 + 1 else r.0)

unfoldable pub ctz_loop : ℕ → ℕ → ℕ → ℕ
ctz_loop zero count n = count
ctz_loop (suc k) count n =
    let rest = ctz_loop k (count + 1) (n / 2) in if n % 2 == 0 then rest else count

-- A number other than 0 has a bit in 32 rounds.
unfoldable pub ctz : ℕ → ℕ
unfolding ctz_loop
ctz n = if n == 0 then 32 else ctz_loop 32 0 n

unfoldable pub is_power_of_2 : ℕ → Bool
is_power_of_2 n = not (n == 0) && bit_and n (n - 1) == 0

unfoldable pub next_power_of_2 : ℕ → ℕ
next_power_of_2 n =
    if n == 0
    then 1
    else (let a = bit_or (n - 1) ((n - 1) / 2) in
        let b = bit_or a (a / 2 ^ 2) in
        let c = bit_or b (b / 2 ^ 4) in
        let d = bit_or c (c / 2 ^ 8) in let e = bit_or d (d / 2 ^ 16) in (e + 1) % 2 ^ 32)

-- while (*s && p(*s)) s++: how many bytes.
unfoldable pub span : (ℕ → Bool) → List ℕ → ℕ
span p [] = 0
span p (c ∷ s) = if not (c == 0) && p c then suc (span p s) else 0

abbrev pub is_delim : List ℕ → ℕ → Bool
is_delim delim c = elim (strchr delim c) [ none ↦ false | some i ↦ true ]

-- `strtok_r` on the bytes of a buffer, and the offset that is saved, if it is no null pointer. The token
-- is its offset; with the buffer and the offset of the static variable this is `strtok` too.
unfoldable pub strtok_r : List ℕ → Option ℕ → List ℕ → Option ℕ × (List ℕ × Option ℕ)
unfolding span strchr
strtok_r buffer none delim = (none, (buffer, none))
strtok_r buffer (some at) delim =
    let start = at + span (is_delim delim) (drop at buffer) in
    let end = start + span (λ c. not (is_delim delim c)) (drop start buffer) in
    if peek (drop start buffer) == 0
    then (none, (buffer, none))
    else if peek (drop end buffer) == 0
    then (some start, (buffer, none))
    else (some start, (set buffer end 0, some (end + 1)))
