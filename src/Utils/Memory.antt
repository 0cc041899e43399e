-- ===== src/Utils/Memory.antt =====
-- The memory operations of src/utils.c, on the bytes of one region that both pointers point into, at
-- the offsets `dest` and `src`. Null pointers are left out.
use ro_dos.Prelude.{
  ℕ, zero, suc, ◌+◌, ◌%◌, Option, none, some, List, ltb, ◌==◌, if◌then◌else◌, set, get_or, drop,
}
use ro_dos.Prelude.Int.{◌-ℤ◌, ℤ, pos}

-- while (n--) *d++ = *s++
unfoldable pub memcpy : List ℕ → ℕ → ℕ → ℕ → List ℕ
memcpy mem dest src zero = mem
memcpy mem dest src (suc n) = memcpy (set mem dest (get_or mem src 0)) (dest + 1) (src + 1) n

-- d += n; s += n; while (n--) *--d = *--s
unfoldable pub copy_backward : List ℕ → ℕ → ℕ → ℕ → List ℕ
copy_backward mem dest src zero = mem
copy_backward mem dest src (suc n) =
    copy_backward (set mem (dest + n) (get_or mem (src + n) 0)) dest src n

unfoldable pub memmove : List ℕ → ℕ → ℕ → ℕ → List ℕ
unfolding memcpy copy_backward
memmove mem dest src n =
    if n == 0
    then mem
    else if ltb dest src
    then memcpy mem dest src n
    else copy_backward mem dest src n

-- `value` is an int of which the low byte is used; a negative one is not modelled.
unfoldable pub memset : List ℕ → ℕ → ℕ → ℕ → List ℕ
memset mem dest value zero = mem
memset mem dest value (suc n) = memset (set mem dest (value % 256)) (dest + 1) value n

-- The bytes from the two pointers on; behind the end of a list the model reads 0.
unfoldable pub memcmp : List ℕ → List ℕ → ℕ → ℤ
memcmp p q zero = pos 0
memcmp p q (suc n) =
    if get_or p 0 0 == get_or q 0 0
    then memcmp (drop 1 p) (drop 1 q) n
    else pos (get_or p 0 0) -ℤ pos (get_or q 0 0)

-- The offset that is found.
unfoldable pub memchr : List ℕ → ℕ → ℕ → ℕ → Option ℕ
memchr mem at value zero = none
memchr mem at value (suc n) =
    if get_or mem at 0 == value % 256 then some at else memchr mem (at + 1) value n
