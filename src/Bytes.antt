-- ===== src/Bytes.antt =====
-- Numbers as bytes of memory, for the packets and the disk blocks: `__builtin_bswap16`,
-- `__builtin_bswap32` and the loads and stores of an x86 processor.
pub mod Loads
use ro_dos.Prelude.{ℕ, ◌+◌, ◌*◌, ◌/◌, ◌%◌, ◌^◌, List, [], ◌∷◌, get_or}

-- The bytes of a number, the highest first: what a store of the swapped number leaves in memory.
abbrev pub be16 : ℕ → List ℕ
be16 x = x / 256 % 256 ∷ x % 256 ∷ []

abbrev pub be32 : ℕ → List ℕ
be32 x = x / 2 ^ 24 % 256 ∷ x / 2 ^ 16 % 256 ∷ x / 256 % 256 ∷ x % 256 ∷ []

-- A plain store: the lowest byte first.
abbrev pub le16 : ℕ → List ℕ
le16 x = x % 256 ∷ x / 256 % 256 ∷ []

abbrev pub le32 : ℕ → List ℕ
le32 x = x % 256 ∷ x / 256 % 256 ∷ x / 2 ^ 16 % 256 ∷ x / 2 ^ 24 % 256 ∷ []

-- A plain load at an index, and a load that is swapped.
abbrev pub read_le32 : List ℕ → ℕ → ℕ
read_le32 p i =
    get_or p i 0
    + get_or p (i + 1) 0 * 256
    + get_or p (i + 2) 0 * 2 ^ 16
    + get_or p (i + 3) 0 * 2 ^ 24

abbrev pub read_be16 : List ℕ → ℕ → ℕ
read_be16 p i = get_or p i 0 * 256 + get_or p (i + 1) 0

abbrev pub read_be32 : List ℕ → ℕ → ℕ
read_be32 p i =
    get_or p i 0 * 2 ^ 24
    + get_or p (i + 1) 0 * 2 ^ 16
    + get_or p (i + 2) 0 * 256
    + get_or p (i + 3) 0

abbrev pub bswap32 : ℕ → ℕ
bswap32 x = x % 256 * 2 ^ 24 + x / 256 % 256 * 2 ^ 16 + x / 2 ^ 16 % 256 * 256 + x / 2 ^ 24 % 256
