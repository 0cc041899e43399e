-- ===== src/Utils/Tests.antt =====
-- The library functions on small inputs.
use ro_dos.Utils.Move.{memmove-IsMoved, IsMoved}
use ro_dos.Utils.Concat.{strcat_lem}
use ro_dos.Utils.Substring.{IsFirst, strstr-IsFirst}
use ro_dos.Prelude.{
  ℕ, ◌-◌, ◌%◌, ◌^◌, ◌≡◌, refl, some, List, [], ◌∷◌, ◌++◌, arith, length, replicate,
}
use ro_dos.Text.{codes, text}
use ro_dos.Utils.Decimal.{atoi-itoa}
use ro_dos.Utils.Powers.{pow_lem}
use ro_dos.Utils.Reversal.{strrev-reversed}
use ro_dos.Utils.Convert.{itoa, atoi, strrev, reverse_array}
use ro_dos.Utils.Numbers.{
  pow, sqrt, root, divides_by_zero, popcount, clz, ctz, next_power_of_2, strtok_r,
}
use ro_dos.Prelude.Int.{pos, negsuc}
use ro_dos.Utils.Memory.{memmove}
use ro_dos.Utils.Strings.{strlen, strcat, strstr}

abbrev mem : List ℕ
mem = codes "abcdef"

memmove_runs : memmove mem 2 0 3 ≡ codes "ababcf"
unfolding memmove
memmove_runs = refl

memmove-IsMoved_example : IsMoved mem (memmove mem 2 0 3) 2 0 3
memmove-IsMoved_example = memmove-IsMoved mem 2 0 3 (omega arith)

abbrev buffer : List ℕ
buffer = codes "ab" ++ replicate 8 0

strcat_lem_example :
    (new : List ℕ) × (strcat buffer (codes "cd") ≡ some new)
    × (length new ≡ length buffer)
    × (text new ≡ text buffer ++ text (codes "cd"))
strcat_lem_example = strcat_lem buffer (codes "cd") (omega arith)

strstr_runs : strstr (codes "a nano b") (codes "na") ≡ some 2
unfolding strstr
strstr_runs = refl

strstr-IsFirst_example :
    IsFirst (text (codes "a nano b")) (text (codes "na")) (strstr (codes "a nano b") (codes "na"))
strstr-IsFirst_example = strstr-IsFirst (codes "a nano b") (codes "na")

atoi-itoa_example : (s : List ℕ) × (itoa (negsuc 4095) 10 ≡ some s) × (atoi s ≡ negsuc 4095)
atoi-itoa_example = atoi-itoa (negsuc 4095) refl refl

pow_lem_example : (pow 3 (pos 40) ≡ some (3 ^ 40 % 2 ^ 32)) × (pow 3 (negsuc 40) ≡ some 0)
pow_lem_example = pow_lem 3 40 (omega arith)

stop_len : strlen (codes "stop") ≡ 4
unfolding ro_dos.Utils.Strings.strlen
stop_len = refl

strrev-reversed_example :
    (strrev (codes "stop") ≡ codes "pots")
    × (reverse_array (codes "rat" ++ codes "s") 3 ≡ codes "tars")
strrev-reversed_example = strrev-reversed (codes "stop") (codes "rat") (codes "s") stop_len

-- -1 in base 16 is no number.
itoa_runs : itoa (negsuc 0) 16 ≡ some (codes "/")
unfolding itoa
itoa_runs = refl

-- The greatest uint32_t: y is 0 in the first round.
sqrt_runs : (sqrt 40 (2 ^ 32 - 1) ≡ divides_by_zero) × (sqrt 40 1000000 ≡ root 1000)
unfolding sqrt
sqrt_runs = (refl, refl)

bits_run : (popcount 32 0xF0F ≡ 8) × (clz 1 ≡ 31) × (ctz 40 ≡ 3) × (next_power_of_2 33 ≡ 64)
unfolding popcount clz ctz next_power_of_2
bits_run = (refl, refl, refl, refl)

token_run :
    strtok_r (codes " a b") (some 0) (codes " ") ≡ (some 1, (32 ∷ b'a' ∷ 0 ∷ b'b' ∷ [], some 3))
unfolding strtok_r
token_run = refl
