-- ===== src/Fs/Disk/Sectors.antt =====
-- What the writing loops of `fs_save_to_disk` leave on a device that works.
use ro_dos.Prelude.{
  ℕ, zero, suc, ◌+◌, ◌-◌, ◌*◌, ◌≤◌, ◌<◌, min, ◌≡◌, refl, ap, ◌∙◌, ◌⊎◌, inl, true, some, List, [],
  ◌∷◌, arith, length,
}
use ro_dos.Fs.{FileContent}
use ro_dos.Fs.Device.{BlockDevice, IsReliable, sector_at}
use ro_dos.Fs.Disk.{
  write_each, clear_each, save_content, save_contents, content_sectors, zero_sector,
}
use ro_dos.Fs.Disk.Layout.{sectors_needed, fs_content_start_lba}

-- The sectors from an address on are those of a list.
abbrev pub Holds : (dev : BlockDevice) → ℕ → List (List ℕ) → dev.Disk → Type 0
Holds dev lba [] d = Unit {0}
Holds dev lba (b ∷ bs) d = (sector_at dev lba d ≡ some b) × Holds dev (lba + 1) bs d

abbrev pub AreSectors : List (List ℕ) → Type 0
AreSectors [] = Unit {0}
AreSectors (b ∷ bs) = (length b ≡ 512) × AreSectors bs

module _ (dev : BlockDevice) (works : IsReliable dev) where
  pub write_each_ok :
      (lba : ℕ) (bs : List (List ℕ)) (d : dev.Disk) → (write_each dev lba bs d).0 ≡ true
  unfolding write_each
  write_each_ok lba [] d = refl
  write_each_ok lba (b ∷ bs) d =
      rw (works.write_ok lba b d) (write_each_ok (lba + 1) bs (dev.write lba b d).1)

  -- A loop of writes leaves the sectors below and above its own alone.
  pub write_each_below :
      (lba : ℕ) (bs : List (List ℕ)) (d : dev.Disk) (k : ℕ)
      → k < lba
      → sector_at dev k (write_each dev lba bs d).1 ≡ sector_at dev k d
  unfolding write_each
  write_each_below lba [] d k h = refl
  write_each_below lba (b ∷ bs) d k h = rw (works.write_ok lba b d) (
      write_each_below (lba + 1) bs (dev.write lba b d).1 k (omega arith)
      ∙ works.read-write_ne lba k b d (omega arith))

  pub write_each_above :
      (lba : ℕ) (bs : List (List ℕ)) (d : dev.Disk) (k : ℕ)
      → lba + length bs ≤ k
      → sector_at dev k (write_each dev lba bs d).1 ≡ sector_at dev k d
  unfolding write_each
  write_each_above lba [] d k h = refl
  write_each_above lba (b ∷ bs) d k h = rw (works.write_ok lba b d) (
      write_each_above (lba + 1) bs (dev.write lba b d).1 k (omega arith)
      ∙ works.read-write_ne lba k b d (omega arith))

  pub write_each-Holds :
      (lba : ℕ) (bs : List (List ℕ)) (d : dev.Disk)
      → AreSectors bs
      → Holds dev lba bs (write_each dev lba bs d).1
  unfolding write_each
  write_each-Holds lba [] d h = tt
  write_each-Holds lba (b ∷ bs) d h = rw (works.write_ok lba b d) (
    write_each_below (lba + 1) bs (dev.write lba b d).1 lba (omega arith)
        ∙ works.read-write_self lba b d h.0,
    write_each-Holds (lba + 1) bs (dev.write lba b d).1 h.1,
  )

  -- What is held survives a change of the disk that leaves its sectors alone.
  pub Holds-of_same :
      (lba : ℕ) (bs : List (List ℕ)) {d : dev.Disk} (d' : dev.Disk)
      → ((k : ℕ) → lba ≤ k → k < lba + length bs → sector_at dev k d' ≡ sector_at dev k d)
      → Holds dev lba bs d
      → Holds dev lba bs d'
  Holds-of_same lba [] d' same h = tt
  Holds-of_same lba (b ∷ bs) d' same h = (
    same lba (omega arith) (omega arith) ∙ h.0,
    Holds-of_same (lba + 1) bs d' (λ k p q. same k (omega arith) (omega arith)) h.1,
  )

  pub clear_each_outside :
      (n lba : ℕ) (d : dev.Disk) (k : ℕ)
      → (k < lba) ⊎ (lba + n ≤ k)
      → sector_at dev k (clear_each dev n lba d) ≡ sector_at dev k d
  unfolding clear_each
  clear_each_outside zero lba d k h = refl
  clear_each_outside (suc n) lba d k h =
      clear_each_outside n (lba + 1) (dev.write lba zero_sector d).1 k (omega arith)
      ∙ works.read-write_ne lba k zero_sector d (omega arith)

  pub clear_each_inside :
      (n lba : ℕ) (d : dev.Disk) (k : ℕ)
      → k < n
      → sector_at dev (lba + k) (clear_each dev n lba d) ≡ some zero_sector
  unfolding clear_each
  clear_each_inside zero lba d k h = absurd (omega arith)
  clear_each_inside (suc n) lba d zero h =
      let e : lba + zero ≡ lba = omega arith in
      rw e (
        clear_each_outside n (lba + 1) (dev.write lba zero_sector d).1 lba (omega arith)
        ∙ works.read-write_self lba zero_sector d refl)
  clear_each_inside (suc n) lba d (suc k) h =
      let e : lba + suc k ≡ lba + 1 + k = omega arith in
      rw e (clear_each_inside n (lba + 1) (dev.write lba zero_sector d).1 k (omega arith))

  length-content_sectors : (c : FileContent) (n s : ℕ) → length (content_sectors dev c n s) ≡ n
  unfolding content_sectors
  length-content_sectors c zero s = refl
  length-content_sectors c (suc n) s = ap suc (length-content_sectors c n (s + 1))

  -- Saving a content succeeds, and writes only the sectors from 700 on.
  save_content_ok : (c : FileContent) (d : dev.Disk) → (save_content dev c d).0 ≡ true
  unfolding save_content
  save_content_ok c d = rw (write_each_ok) refl

  save_content_below :
      (c : FileContent) (d : dev.Disk) (k : ℕ)
      → k < 700
      → sector_at dev k (save_content dev c d).1 ≡ sector_at dev k d
  unfolding save_content
  save_content_below c d k h =
      let n = sectors_needed c.size in
      let base = fs_content_start_lba + c.file_idx * 16 in
      let saved = write_each dev base (content_sectors dev c (min n 16) 0) d in
      rw write_each_ok (
        clear_each_outside (16 - n) (base + n) saved.1 k (inl (omega arith))
        ∙ write_each_below base (content_sectors dev c (min n 16) 0) d k (omega arith))

  pub save_contents_ok : (cs : List FileContent) (d : dev.Disk) → (save_contents dev cs d).0 ≡ true
  unfolding save_contents
  save_contents_ok [] d = refl
  save_contents_ok (c ∷ cs) d =
      rw (save_content_ok c d) (save_contents_ok cs (save_content dev c d).1)

  pub save_contents_below :
      (cs : List FileContent) (d : dev.Disk) (k : ℕ)
      → k < 700
      → sector_at dev k (save_contents dev cs d).1 ≡ sector_at dev k d
  unfolding save_contents
  save_contents_below [] d k h = refl
  save_contents_below (c ∷ cs) d k h =
      rw (save_content_ok c d)
        (save_contents_below cs (save_content dev c d).1 k h ∙ save_content_below c d k h)
