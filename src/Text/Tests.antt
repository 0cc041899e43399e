-- ===== src/Text/Tests.antt =====
-- Runs of the string helpers, and the theorems at concrete inputs.
use ro_dos.Prelude.{ℕ, ◌+◌, ◌*◌, ◌<◌, ◌≡◌, refl, ◌↔◌, List, ◌++◌, arith, length, replicate}
use ro_dos.Prelude.Int.{pos, negsuc}
use ro_dos.Text.{
  codes, str_cmp, str_upper, int_to_str, str_to_int, print_hex, hash_string, get_token, skip_spaces,
  text, peek, count_digits,
}
use ro_dos.Text.Compare.{str_cmp_iff}
use ro_dos.Text.Token.{IsToken, IsTokenChar, get_token_lem}
use ro_dos.Text.Number.{str_to_int-int_to_str, length-int_to_str}

get_token_runs : get_token (codes "  copy a b") 64 ≡ (codes "copy", codes " a b")
unfolding get_token
get_token_runs = refl

int_to_str_runs : int_to_str 4294967295 ≡ codes "4294967295"
unfolding int_to_str
int_to_str_runs = refl

str_to_int_runs : str_to_int (codes "42x") ≡ 42
unfolding str_to_int
str_to_int_runs = refl

print_hex_runs : print_hex 0xDEAD0123 ≡ codes "DEAD0123"
unfolding print_hex
print_hex_runs = refl

hash_string_runs : hash_string (codes "ab") ≡ (5381 * 33 + 97) * 33 + 98
unfolding hash_string
hash_string_runs = refl

str_upper_runs : str_upper (codes "Dir c:") ≡ codes "DIR C:"
unfolding str_upper
str_upper_runs = refl

str_cmp_runs : str_cmp (codes "ab") (codes "ac") ≡ negsuc 0
unfolding str_cmp
str_cmp_runs = refl

abbrev buffer : List ℕ
buffer = replicate 4 1

str_cmp_iff_example :
    (str_cmp (codes "DIR") (codes "DEL") ≡ pos 0) ↔ (text (codes "DIR") ≡ text (codes "DEL"))
str_cmp_iff_example = str_cmp_iff (codes "DIR") (codes "DEL")

get_token_example :
    ((get_token (codes " rm a") 64).0 ++ (get_token (codes " rm a") 64).1
      ≡ skip_spaces (codes " rm a"))
    × IsToken (get_token (codes " rm a") 64).0
    × (length (get_token (codes " rm a") 64).0 < 64)
    × (length (get_token (codes " rm a") 64).0 < 63
        → ¬ IsTokenChar (peek (get_token (codes " rm a") 64).1))
get_token_example = get_token_lem (codes " rm a") 64 (omega arith)

str_to_int-int_to_str_example : str_to_int (int_to_str 1048576) ≡ 1048576
str_to_int-int_to_str_example = str_to_int-int_to_str 1048576 (omega arith)

length-int_to_str_example : length (int_to_str 1024) ≡ count_digits 10 1024 0
length-int_to_str_example = length-int_to_str 1024 (omega arith)
