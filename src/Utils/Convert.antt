-- ===== src/Utils/Convert.antt =====
-- Characters, numbers and texts in src/utils.c. A character is not negative here, a text is its bytes
-- without the terminator where it is a result, and `none` is a null pointer.
use ro_dos.Prelude.{
  ℕ, zero, suc, ◌+◌, ◌-◌, ◌*◌, ◌/◌, ◌%◌, ◌^◌, Bool, not, ◌&&◌, ◌||◌, Option, none, some, List, [],
  ◌∷◌, ◌++◌, ltb, leb, ◌==◌, if◌then◌else◌, set, get_or, drop,
}
use ro_dos.Prelude.Int.{ℤ, pos, negsuc, ◌-ℤ◌}
use ro_dos.Text.{peek}
use ro_dos.Utils.Strings.{strlen}

unfoldable pub strncmp : List ℕ → List ℕ → ℕ → ℤ
strncmp a b zero = pos 0
strncmp [] b (suc n) = pos 0 -ℤ pos (peek b)
strncmp (x ∷ a) b (suc n) =
    let rest = strncmp a (drop 1 b) n in
    if not (x == 0) && x == peek b then rest else pos x -ℤ pos (peek b)

-- `last` is the offset that was found before, and `i` that of the text that is left.
strrchr_from : List ℕ → ℕ → ℕ → Option ℕ → Option ℕ
strrchr_from [] c i last = if c == 0 then some i else last
strrchr_from (x ∷ s) c i last =
    let rest = strrchr_from s c (i + 1) (if x == c then some i else last) in
    if x == 0 then (if c == 0 then some i else last) else rest

unfoldable pub strrchr : List ℕ → ℕ → Option ℕ
unfolding strrchr_from
strrchr s c = strrchr_from s c 0 none

-- while (end > start) { tmp = *start; *start++ = *end; *end-- = tmp; }, for the rounds left.
unfoldable pub swap_ends : ℕ → ℕ → ℕ → List ℕ → List ℕ
swap_ends zero start end s = s
swap_ends (suc n) start end s =
    let swapped = set (set s start (get_or s end 0)) end (get_or s start 0) in
    let rest = swap_ends n (start + 1) (end - 1) swapped in if ltb start end then rest else s

-- There are fewer rounds than bytes.
unfoldable pub strrev : List ℕ → List ℕ
unfolding swap_ends strlen
strrev s = let len = strlen s in if len == 0 then s else swap_ends len 0 (len - 1) s

unfoldable pub reverse_array : List ℕ → ℕ → List ℕ
unfolding swap_ends
reverse_array arr n = if n == 0 then arr else swap_ends n 0 (n - 1) arr

abbrev pub isdigit : ℕ → Bool
isdigit c = leb b'0' c && leb c b'9'

abbrev pub isupper : ℕ → Bool
isupper c = leb b'A' c && leb c b'Z'

abbrev pub islower : ℕ → Bool
islower c = leb b'a' c && leb c b'z'

abbrev pub isalpha : ℕ → Bool
isalpha c = isupper c || islower c

abbrev pub isalnum : ℕ → Bool
isalnum c = isalpha c || isdigit c

-- ' ', '\t', '\n', '\r', '\f' and '\v'
abbrev pub isspace : ℕ → Bool
isspace c = c == b' ' || (leb 9 c && leb c 13)

abbrev pub toupper : ℕ → ℕ
toupper c = if islower c then c - 32 else c

abbrev pub tolower : ℕ → ℕ
tolower c = if isupper c then c + 32 else c

-- (rem > 9) ? (rem - 10) + 'A' : rem + '0'
abbrev pub digit_char : ℕ → ℕ
digit_char rem = if ltb 9 rem then rem - 10 + b'A' else rem + b'0'

-- The digits of a number, the lowest first; a uint32_t has at most 32 of them.
unfoldable pub low_digits : ℕ → ℕ → ℕ → List ℕ
low_digits zero base value = []
low_digits (suc n) base value =
    let rest = low_digits n base (value / base) in
    if value == 0 then [] else digit_char (value % base) ∷ rest

-- The digits of a number below 0, of which `num % base` is not above 0: `rem + '0'`.
unfoldable pub low_digits_below : ℕ → ℕ → ℕ → List ℕ
low_digits_below zero base size = []
low_digits_below (suc n) base size =
    let rest = low_digits_below n base (size / base) in
    if size == 0 then [] else (b'0' - size % base) ∷ rest

unfoldable pub utoa : ℕ → ℕ → Option (List ℕ)
unfolding low_digits strrev
utoa value base =
    if ltb base 2 || ltb 36 base
    then none
    else if value == 0
    then some (b'0' ∷ [])
    else some (strrev (low_digits 32 base value))

-- For a base other than 10 and for -2 ^ 31 the number stays below 0.
unfoldable pub itoa : ℤ → ℕ → Option (List ℕ)
unfolding low_digits low_digits_below strrev
itoa (pos v) base =
    if ltb base 2 || ltb 36 base
    then none
    else if v == 0
    then some (b'0' ∷ [])
    else some (strrev (low_digits 32 base v))
itoa (negsuc k) base =
    if ltb base 2 || ltb 36 base
    then none
    else if base == 10
    then some (
        strrev (
          (if k == 2 ^ 31 - 1 then low_digits_below 32 10 (k + 1) else low_digits 32 10 (k + 1))
          ++ (b'-' ∷ [])))
    else some (strrev (low_digits_below 32 base (k + 1)))

unfoldable pub skip_space : List ℕ → List ℕ
skip_space [] = []
skip_space (c ∷ s) = if isspace c then skip_space s else c ∷ s

-- while (isdigit(*str)) result = result * 10 + (*str - '0'), wrapping.
unfoldable pub atoi_digits : ℕ → List ℕ → ℕ
atoi_digits result [] = result
atoi_digits result (c ∷ s) =
    let rest = atoi_digits ((result * 10 + (c - b'0')) % 2 ^ 32) s in
    if isdigit c then rest else result

-- The int32_t of a word.
abbrev pub int32 : ℕ → ℤ
int32 n = if ltb n (2 ^ 31) then pos n else negsuc (2 ^ 32 - 1 - n)

unfoldable pub atoi : List ℕ → ℤ
unfolding skip_space atoi_digits
atoi str =
    let s = skip_space str in
    if peek s == b'-'
    then int32 ((2 ^ 32 - atoi_digits 0 (drop 1 s)) % 2 ^ 32)
    else if peek s == b'+'
    then int32 (atoi_digits 0 (drop 1 s))
    else int32 (atoi_digits 0 s)

-- The value of a digit in base 16.
abbrev pub hex_value : ℕ → Option ℕ
hex_value c =
    if leb b'0' c && leb c b'9'
    then some (c - b'0')
    else if leb b'a' c && leb c b'f'
    then some (c - b'a' + 10)
    else if leb b'A' c && leb c b'F'
    then some (c - b'A' + 10)
    else none

unfoldable pub htoi_digits : ℕ → List ℕ → ℕ
htoi_digits result [] = result
htoi_digits result (c ∷ s) = elim (hex_value c) [
  | none ↦ result
  | some value ↦ htoi_digits (result * 16 % 2 ^ 32 + value) s
]

unfoldable pub htoi : List ℕ → ℕ
unfolding skip_space htoi_digits
htoi str =
    let s = skip_space str in
    let second = peek (drop 1 s) in
    htoi_digits 0 (if peek s == b'0' && (second == b'x' || second == b'X') then drop 2 s else s)

unfoldable pub btoi_digits : ℕ → List ℕ → ℕ
btoi_digits result [] = result
btoi_digits result (c ∷ s) =
    let rest = btoi_digits (result * 2 % 2 ^ 32 + (c - b'0')) s in
    if c == b'0' || c == b'1' then rest else result

unfoldable pub btoi : List ℕ → ℕ
unfolding skip_space btoi_digits
btoi str =
    let s = skip_space str in
    let second = peek (drop 1 s) in
    btoi_digits 0 (if peek s == b'0' && (second == b'b' || second == b'B') then drop 2 s else s)
