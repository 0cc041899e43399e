-- ===== src/Fs/Disk/CurrentDir.antt =====
-- The current directory's way through its sector in src/commands.c.
use ro_dos.Prelude.{
  ℕ, zero, suc, ◌≤◌, ◌<◌, ◌≡◌, refl, sym, ap, ◌∙◌, some, List, [], ◌∷◌, arith, length, set, take,
  drop, replicate, take-all,
}
use ro_dos.Array.{pad, overlay}
use ro_dos.Text.{text}
use ro_dos.Text.Copy.{text_idem}
use ro_dos.Fs.Disk.Load.{load_dir}

text-pad : (n : ℕ) (s : List ℕ) → text s ≡ s → length s ≤ n → text (pad n s) ≡ s
text-pad zero [] e h = refl
text-pad zero (c ∷ s) e h = absurd (omega arith)
text-pad (suc n) [] e h = refl
text-pad (suc n) (c ∷ s) e h = ground (arith, text-pad n s)

-- A text over zeros ends where it ended, also when a later byte is cleared.
text-overlay :
    (s : List ℕ) (k j : ℕ)
    → text s ≡ s
    → length s ≤ j
    → j < k
    → text (set (overlay s (replicate k 0)) j 0) ≡ s
text-overlay s zero j e h l = absurd (omega arith)
text-overlay [] (suc k) zero e h l = refl
text-overlay [] (suc k) (suc j) e h l = refl
text-overlay (c ∷ s) (suc k) zero e h l = absurd (omega arith)
text-overlay (c ∷ s) (suc k) (suc j) e h l = ground (arith, text-overlay s k j)

-- The buffer as the program starts with it: `"C:\\"` in a `char[256]`.
abbrev pub boot_dir : List ℕ
boot_dir = b'C' ∷ b':' ∷ b'\\' ∷ replicate 253 0

text-load_dir :
    (rest : List ℕ)
    → text rest ≡ rest
    → length rest ≤ 252
    → text (load_dir (some (pad 512 (take 256 (b'C' ∷ b':' ∷ b'\\' ∷ rest)))) boot_dir)
      ≡ b'C' ∷ b':' ∷ b'\\' ∷ rest
unfolding load_dir
text-load_dir rest t h =
    rw
      (
        take-all 253 rest (omega arith),
        text-pad 509 rest t (omega arith),
        take-all 253 rest (omega arith),
      )
      (ap (λ l. b'C' ∷ b':' ∷ b'\\' ∷ l) (text-overlay rest 253 252 t (omega arith) (omega arith)))

-- A directory on drive C that fits its buffer is loaded from the sector that it was saved in.
pub load_dir-saved :
    (dir rest : List ℕ)
    → text dir ≡ b'C' ∷ b':' ∷ b'\\' ∷ rest
    → length rest ≤ 252
    → text (load_dir (some (pad 512 (take 256 (text dir)))) boot_dir) ≡ text dir
load_dir-saved dir rest e h =
    rw e (text-load_dir rest (ap (λ l. drop 3 l) (ap text (sym e) ∙ text_idem dir ∙ e)) h)
