-- ===== src/Text/Token.antt =====
-- `get_token` of src/commands.c: what it takes, and what it leaves.
use ro_dos.Prelude.{ℕ, zero, suc, ◌-◌, ◌≤◌, ◌<◌, ◌≡◌, refl, ◌≢◌, List, [], ◌∷◌, ◌++◌, arith, length}
use ro_dos.Text.{get_token, token_chars, skip_spaces, peek}

-- Neither a separator nor the terminator.
abbrev pub IsTokenChar : ℕ → Type 0
IsTokenChar c = (c ≢ 0) × (c ≢ b' ') × (c ≢ 9)

abbrev pub IsToken : List ℕ → Type 0
IsToken [] = Unit {0}
IsToken (c ∷ s) = IsTokenChar c × IsToken s

token_chars_split : (room : ℕ) (s : List ℕ) → (token_chars room s).0 ++ (token_chars room s).1 ≡ s
unfolding token_chars
token_chars_split room [] = refl
token_chars_split zero (c ∷ s) = refl
token_chars_split (suc room) (c ∷ s) = ground (arith, token_chars_split room s)

token_chars-IsToken : (room : ℕ) (s : List ℕ) → IsToken (token_chars room s).0
unfolding token_chars
token_chars-IsToken room [] = tt
token_chars-IsToken zero (c ∷ s) = tt
token_chars-IsToken (suc room) (c ∷ s) = ground (arith, token_chars-IsToken room s)

length-token_chars : (room : ℕ) (s : List ℕ) → length (token_chars room s).0 ≤ room
unfolding token_chars
length-token_chars room [] = omega arith
length-token_chars zero (c ∷ s) = omega arith
length-token_chars (suc room) (c ∷ s) = ground (arith, length-token_chars room s)

-- The loop stops only at a separator, at the end, or when the token is full.
token_chars_maximal :
    (room : ℕ) (s : List ℕ)
    → length (token_chars room s).0 < room
    → ¬ IsTokenChar (peek (token_chars room s).1)
unfolding token_chars
token_chars_maximal room [] h k = k.0 refl
token_chars_maximal zero (c ∷ s) h k = omega arith
token_chars_maximal (suc room) (c ∷ s) h k = ground (arith, token_chars_maximal room s)

-- `get_token` splits what follows the leading blanks into a token of fewer than `max` characters,
-- none of them a blank or the terminator, and the rest; a token shorter than `max - 1` ends at a
-- blank or at the terminator.
pub get_token_lem :
    (s : List ℕ) (max : ℕ)
    → 0 < max
    → ((get_token s max).0 ++ (get_token s max).1 ≡ skip_spaces s)
      × IsToken (get_token s max).0
      × (length (get_token s max).0 < max)
      × (length (get_token s max).0 < max - 1 → ¬ IsTokenChar (peek (get_token s max).1))
unfolding get_token
get_token_lem s max h = (
  token_chars_split (max - 1) (skip_spaces s),
  token_chars-IsToken (max - 1) (skip_spaces s),
  omega (arith, length-token_chars (max - 1) (skip_spaces s)),
  token_chars_maximal (max - 1) (skip_spaces s),
)
