-- ===== src/Text.antt =====
-- The string and number helpers at the top of src/commands.c. A `char *` is the list of bytes from
-- it on; the end of the list reads as the terminator, so a text may stand with or without its 0.
-- A `char[n]` is a list of n bytes, and a loop that writes it returns it.
pub mod Compare
pub mod Copy
pub mod Token
pub mod Number
mod Tests
use Prim.Native.Char.{code}
use Prim.Native.String.{String}
use ro_dos.Prelude.{
  ℕ, zero, suc, ◌+◌, ◌-◌, ◌*◌, ◌/◌, ◌%◌, ◌^◌, not, ◌&&◌, ◌||◌, List, [], ◌∷◌, ltb, leb, ◌==◌,
  if◌then◌else◌,
}
use ro_dos.Prelude.Int.{ℤ, pos, negsuc, ◌-ℤ◌}

-- The bytes of a string literal.
abbrev pub codes : String → List ℕ
codes String.[] = []
codes (String.◌∷◌ c s) = code c ∷ codes s

-- `*s`
abbrev pub peek : List ℕ → ℕ
peek [] = 0
peek (c ∷ s) = c

unfoldable pub str_len : List ℕ → ℕ
str_len [] = 0
str_len (c ∷ s) = if c == 0 then 0 else suc (str_len s)

-- The bytes before the terminator: what the text says.
abbrev pub text : List ℕ → List ℕ
text [] = []
text (c ∷ s) = if c == 0 then [] else c ∷ text s

-- The loop of `str_copy`: bytes of `dst` still to write, and how many more may be copied.
copy_chars : List ℕ → List ℕ → ℕ → List ℕ
copy_chars [] src room = []
copy_chars (d ∷ dst) src zero = 0 ∷ dst
copy_chars (d ∷ dst) [] (suc room) = 0 ∷ dst
copy_chars (d ∷ dst) (c ∷ src) (suc room) = if c == 0 then 0 ∷ dst else c ∷ copy_chars dst src room

unfoldable pub str_copy : List ℕ → List ℕ → ℕ → List ℕ
unfolding copy_chars
str_copy dst src max = copy_chars dst src (max - 1)

-- `char` is signed. A number that is no byte, which no text of the program has, stands for itself.
abbrev signed_char : ℕ → ℤ
signed_char c = if ltb 127 c && ltb c 256 then negsuc (255 - c) else pos c

unfoldable pub str_cmp : List ℕ → List ℕ → ℤ
str_cmp [] b = signed_char 0 -ℤ signed_char (peek b)
str_cmp (x ∷ a) [] = signed_char x -ℤ signed_char 0
str_cmp (x ∷ a) (y ∷ b) =
    if not (x == 0) && not (y == 0) && x == y then str_cmp a b else signed_char x -ℤ signed_char y

unfoldable pub str_upper : List ℕ → List ℕ
str_upper [] = []
str_upper (c ∷ s) =
    if c == 0 then c ∷ s else (if leb b'a' c && leb c b'z' then c - 32 else c) ∷ str_upper s

-- How many digits `n` has, counted from `i`. The fuel bounds the rounds.
pub count_digits : ℕ → ℕ → ℕ → ℕ
count_digits zero tmp i = i
count_digits (suc f) tmp i =
    let rest = count_digits f (tmp / 10) (i + 1) in if tmp == 0 then i else rest

-- Fills `buf` from its end down: `done` are the bytes from `buf + i` on.
fill_digits : ℕ → ℕ → List ℕ → List ℕ
fill_digits zero n done = done
fill_digits (suc f) n done =
    let rest = fill_digits f (n / 10) ((b'0' + n % 10) ∷ done) in if n == 0 then done else rest

-- A uint32_t has ten digits at most.
unfoldable pub int_to_str : ℕ → List ℕ
unfolding fill_digits
int_to_str n = if n == 0 then b'0' ∷ [] else fill_digits 10 n []

-- The loop of `str_to_int` from the value `n` on; uint32_t arithmetic wraps.
digits_value : ℕ → List ℕ → ℕ
digits_value n [] = n
digits_value n (c ∷ s) =
    if leb b'0' c && leb c b'9' then digits_value ((n * 10 + (c - b'0')) % 2 ^ 32) s else n

unfoldable pub str_to_int : List ℕ → ℕ
unfolding digits_value
str_to_int s = digits_value 0 s

-- `hex[n & 0xF]`
abbrev hex_digit : ℕ → ℕ
hex_digit d = if ltb d 10 then b'0' + d else b'A' + (d - 10)

-- Fills `buf` from its end down, for the rounds left.
hex_chars : ℕ → ℕ → List ℕ → List ℕ
hex_chars zero n done = done
hex_chars (suc rounds) n done = hex_chars rounds (n / 16) (hex_digit (n % 16) ∷ done)

-- What `print_hex` prints.
unfoldable pub print_hex : ℕ → List ℕ
unfolding hex_chars
print_hex n = hex_chars 8 n []

-- `(uint32_t)(*s)` extends the sign.
abbrev char_word : ℕ → ℕ
char_word c = if ltb c 128 then c else c + (2 ^ 32 - 256)

hash_from : ℕ → List ℕ → ℕ
hash_from h [] = h
hash_from h (c ∷ s) =
    if c == 0 then h else hash_from (((h * 2 ^ 5) % 2 ^ 32 + h + char_word c) % 2 ^ 32) s

unfoldable pub hash_string : List ℕ → ℕ
unfolding hash_from
hash_string s = hash_from 5381 s

unfoldable pub skip_spaces : List ℕ → List ℕ
skip_spaces [] = []
skip_spaces (c ∷ s) = if c == b' ' || c == 9 then skip_spaces s else c ∷ s

-- The loop of `get_token`: how many more bytes the token may have, and what is left to read.
token_chars : ℕ → List ℕ → List ℕ × List ℕ
token_chars room [] = ([], [])
token_chars zero (c ∷ s) = ([], c ∷ s)
token_chars (suc room) (c ∷ s) =
    if not (c == 0) && not (c == b' ') && not (c == 9)
    then (let (t, rest) = token_chars room s in (c ∷ t, rest))
    else ([], c ∷ s)

-- The token, which the caller has in a local `char[max]`, and the place after it.
unfoldable pub get_token : List ℕ → ℕ → List ℕ × List ℕ
unfolding skip_spaces token_chars
get_token s max = token_chars (max - 1) (skip_spaces s)
