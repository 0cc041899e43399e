-- ===== src/Utils/Move.antt =====
-- `memmove` of src/utils.c copies what was there before, also between regions that overlap.
use ro_dos.Array.Slots.{get_or-set_self, get_or-set_ne}
use native.Mathlib.Decide.{ℕ_discrete, dec_lt}
use ro_dos.Prelude.{
  ℕ, zero, suc, ◌+◌, ◌≤◌, ◌<◌, ◌≡◌, refl, ap, ◌∙◌, ◌⊎◌, inl, false, List, arith, ltb, ◌==◌, lt→ltb,
  length, set, get_or, length-set,
}
use ro_dos.Utils.Memory.{memcpy, copy_backward, memmove}

-- The `n` bytes from `src` on stand at `dest`, and the others are as before.
pub record IsMoved (mem new : List ℕ) (dest src n : ℕ) : Type 0 where
  pub moved : (k : ℕ) → k < n → get_or new (dest + k) 0 ≡ get_or mem (src + k) 0
  pub below : (i : ℕ) → i < dest → get_or new i 0 ≡ get_or mem i 0
  pub above : (i : ℕ) → dest + n ≤ i → get_or new i 0 ≡ get_or mem i 0

-- One byte more at the front, or at the end, of a move.
module _ (mem new : List ℕ) (dest src n : ℕ) where
  first_byte :
      dest < length mem
      → (dest < src) ⊎ (src + suc n ≤ dest)
      → IsMoved (set mem dest (get_or mem src 0)) new (dest + 1) (src + 1) n
      → IsMoved mem new dest src (suc n)
  first_byte h apart rest = record {
    moved = at;
    below = λ i l. rest.below i (omega arith) ∙ get_or-set_ne mem dest i _ 0 (omega arith);
    above = λ i l. rest.above i (omega arith) ∙ get_or-set_ne mem dest i _ 0 (omega arith);
  }
    where
      at : (k : ℕ) → k < suc n → get_or new (dest + k) 0 ≡ get_or mem (src + k) 0
      at zero l =
          ap (λ i. get_or new i 0) (omega arith)
          ∙ rest.below dest (omega arith)
          ∙ get_or-set_self mem dest (get_or mem src 0) 0 h
          ∙ ap (λ i. get_or mem i 0) (omega arith)
      at (suc k) l =
          ap (λ i. get_or new i 0) (omega arith)
          ∙ rest.moved k (omega arith)
          ∙ get_or-set_ne mem dest (src + 1 + k) (get_or mem src 0) 0 (omega arith)
          ∙ ap (λ i. get_or mem i 0) (omega arith)

  last_byte :
      dest + n < length mem
      → src ≤ dest
      → IsMoved (set mem (dest + n) (get_or mem (src + n) 0)) new dest src n
      → IsMoved mem new dest src (suc n)
  last_byte h up rest = record {
    moved = λ k l. elim (dec_lt k n) [
      | yes inside ↦ rest.moved k inside ∙ get_or-set_ne mem (dest + n) (src + k) _ 0 (omega arith)
      | no last ↦
          let e : k ≡ n = omega arith in
          rw e (
            rest.above (dest + n) (omega arith)
            ∙ get_or-set_self mem (dest + n) (get_or mem (src + n) 0) 0 h)
    ];
    below = λ i l. rest.below i l ∙ get_or-set_ne mem (dest + n) i _ 0 (omega arith);
    above = λ i l. rest.above i (omega arith) ∙ get_or-set_ne mem (dest + n) i _ 0 (omega arith);
  }

none-IsMoved : (mem : List ℕ) (dest src : ℕ) → IsMoved mem mem dest src 0
none-IsMoved mem dest src = record {
  moved = λ k l. absurd (omega arith);
  below = λ i l. refl;
  above = λ i l. refl;
}

-- Copying upwards, to a lower place or one behind the source.
memcpy-IsMoved :
    (mem : List ℕ) (dest src n : ℕ)
    → dest + n ≤ length mem
    → (dest < src) ⊎ (src + n ≤ dest)
    → IsMoved mem (memcpy mem dest src n) dest src n
unfolding memcpy
memcpy-IsMoved mem dest src zero h apart = none-IsMoved mem dest src
memcpy-IsMoved mem dest src (suc n) h apart = first_byte mem _ dest src n (omega arith) apart (
    memcpy-IsMoved (set mem dest (get_or mem src 0)) (dest + 1) (src + 1) n
      (omega (arith, length-set mem dest (get_or mem src 0))) (ground (arith, apart)))

copy_backward-IsMoved :
    (mem : List ℕ) (dest src n : ℕ)
    → dest + n ≤ length mem
    → src ≤ dest
    → IsMoved mem (copy_backward mem dest src n) dest src n
unfolding copy_backward
copy_backward-IsMoved mem dest src zero h up = none-IsMoved mem dest src
copy_backward-IsMoved mem dest src (suc n) h up = last_byte mem _ dest src n (omega arith) up (
    copy_backward-IsMoved (set mem (dest + n) (get_or mem (src + n) 0)) dest src n
      (omega (arith, length-set mem (dest + n) (get_or mem (src + n) 0))) up)

-- `memmove` puts the `n` bytes that stood at `src` to `dest`, however the two regions overlap, and
-- leaves every other byte, if the target region is inside the memory.
pub memmove-IsMoved :
    (mem : List ℕ) (dest src n : ℕ)
    → dest + n ≤ length mem
    → IsMoved mem (memmove mem dest src n) dest src n
unfolding memmove
memmove-IsMoved mem dest src n h = elim (ℕ_discrete n 0) [
  | yes e ↦ rw e (none-IsMoved mem dest src)
  | no some_bytes ↦ elim (dec_lt dest src) [
    | yes down ↦
        let a : (n == 0) ≡ false = ground arith in
        rw (a, lt→ltb dest src down) (memcpy-IsMoved mem dest src n h (inl down))
    | no up ↦
        let a : (n == 0) ≡ false = ground arith in
        let b : ltb dest src ≡ false = ground arith in
        rw (a, b) (copy_backward-IsMoved mem dest src n h (omega arith))
  ]
]
