-- ===== src/Utils/Strings.antt =====
-- The string operations of src/utils.c. A `char *` is the list of bytes from it on, where the end
-- reads as 0; a destination is the list of the bytes of its buffer, and `none` is a write behind it.
-- Null pointers are left out.
use ro_dos.Prelude.{
  ℕ, zero, suc, ◌+◌, ◌-◌, Bool, true, false, not, ◌&&◌, Option, none, some, List, [], ◌∷◌, leb,
  ◌==◌, if◌then◌else◌,
}
use ro_dos.Prelude.Int.{◌-ℤ◌, ℤ, pos}
use ro_dos.Text.{peek}

abbrev pub cons_some : ℕ → Option (List ℕ) → Option (List ℕ)
cons_some c none = none
cons_some c (some l) = some (c ∷ l)

abbrev pub next_offset : Option ℕ → Option ℕ
next_offset none = none
next_offset (some i) = some (suc i)

unfoldable pub strlen : List ℕ → ℕ
strlen [] = 0
strlen (c ∷ s) = if c == 0 then 0 else suc (strlen s)

-- while ((*ptr++ = *src++))
unfoldable pub strcpy : List ℕ → List ℕ → Option (List ℕ)
strcpy [] src = none
strcpy (d ∷ dest) [] = some (0 ∷ dest)
strcpy (d ∷ dest) (c ∷ src) =
    let rest = strcpy dest src in if c == 0 then some (0 ∷ dest) else cons_some c rest

-- The copying loop of `strncpy` and the loop that fills up with zeros.
unfoldable pub strncpy : List ℕ → List ℕ → ℕ → Option (List ℕ)
strncpy dest src zero = some dest
strncpy [] src (suc n) = none
strncpy (d ∷ dest) [] (suc n) = cons_some 0 (strncpy dest [] n)
strncpy (d ∷ dest) (c ∷ src) (suc n) =
    let stop = strncpy dest [] n in
    let more = strncpy dest src n in if c == 0 then cons_some 0 stop else cons_some c more

-- The bytes are compared as unsigned char.
unfoldable pub strcmp : List ℕ → List ℕ → ℤ
strcmp [] b = pos 0 -ℤ pos (peek b)
strcmp (x ∷ a) [] = pos x -ℤ pos 0
strcmp (x ∷ a) (y ∷ b) = if not (x == 0) && x == y then strcmp a b else pos x -ℤ pos y

-- while (*ptr) ptr++, and the copying loop.
unfoldable pub strcat : List ℕ → List ℕ → Option (List ℕ)
unfolding strcpy
strcat [] src = none
strcat (d ∷ dest) src =
    let rest = strcat dest src in if d == 0 then strcpy (d ∷ dest) src else cons_some d rest

-- The offset of the first `c`, a `char`.
unfoldable pub strchr : List ℕ → ℕ → Option ℕ
strchr [] c = if c == 0 then some 0 else none
strchr (x ∷ s) c =
    let rest = strchr s c in
    if x == 0
    then (if c == 0 then some 0 else none)
    else if x == c
    then some 0
    else next_offset rest

-- The inner loop of `strstr`: whether it reaches the end of the needle.
unfoldable pub starts_with : List ℕ → List ℕ → Bool
starts_with h [] = true
starts_with [] (c ∷ n) = c == 0
starts_with (x ∷ h) (c ∷ n) =
    let rest = starts_with h n in
    if c == 0 then true else if not (x == 0) && x == c then rest else false

-- The offset of the needle.
unfoldable pub strstr : List ℕ → List ℕ → Option ℕ
unfolding starts_with
strstr [] needle = if peek needle == 0 then some 0 else none
strstr (x ∷ h) needle =
    let rest = strstr h needle in
    if peek needle == 0
    then some 0
    else if x == 0
    then none
    else if starts_with (x ∷ h) needle
    then some 0
    else next_offset rest

unfoldable pub strupr : List ℕ → List ℕ
strupr [] = []
strupr (c ∷ s) =
    if c == 0 then c ∷ s else (if leb b'a' c && leb c b'z' then c - 32 else c) ∷ strupr s

unfoldable pub strlwr : List ℕ → List ℕ
strlwr [] = []
strlwr (c ∷ s) =
    if c == 0 then c ∷ s else (if leb b'A' c && leb c b'Z' then c + 32 else c) ∷ strlwr s
