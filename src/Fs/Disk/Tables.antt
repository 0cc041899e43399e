-- ===== src/Fs/Disk/Tables.antt =====
-- The loading loops of src/commands.c, on a disk that holds the saved tables.
use mathlib.Core.List.{append-nil, append_assoc}
use native.Mathlib.Nat.{add-zero}
use native.Mathlib.Numerals.{add-one}
use ro_dos.Prelude.{
  ℕ, zero, suc, ◌+◌, ◌≤◌, ◌<◌, ◌≡◌, refl, ap, ◌∙◌, ◌≢◌, false, some, List, [], ◌∷◌, ◌++◌, map,
  arith, ◌==◌, length, set, get_or, take, length-set,
}
use ro_dos.Array.Slots.{take-set_end}
use ro_dos.Fs.{FsEntry, no_entry}
use ro_dos.Fs.Device.{BlockDevice, IsReliable, sector_at}
use ro_dos.Fs.Disk.{zero_sector}
use ro_dos.Fs.Disk.Layout.{fs_data_start_lba, entry_sector}
use ro_dos.Fs.Disk.Codec.{FitsEntry, entry_sector-eq, entry_of_sector-entry_sector}
use ro_dos.Fs.Disk.Sectors.{Holds}
use ro_dos.Fs.Disk.Load.{load_table}

-- The entries fit, and have a name.
abbrev pub AreEntries : List FsEntry → Type 0
AreEntries [] = Unit {0}
AreEntries (e ∷ es) = FitsEntry e × (get_or e.name 0 0 ≢ 0) × AreEntries es

-- No slot has been written behind the 64 bytes that come from the disk.
abbrev pub AreClear : List FsEntry → Type 0
AreClear [] = Unit {0}
AreClear (e ∷ es) = (e.reserved ≡ 0) × AreClear es

AreClear-get_or : (t : List FsEntry) (n : ℕ) → AreClear t → (get_or t n no_entry).reserved ≡ 0
AreClear-get_or [] n h = refl
AreClear-get_or (e ∷ t) zero h = h.0
AreClear-get_or (e ∷ t) (suc n) h = AreClear-get_or t n h.1

AreClear-set :
    (t : List FsEntry) (n : ℕ) (e : FsEntry) → e.reserved ≡ 0 → AreClear t → AreClear (set t n e)
AreClear-set [] n e z h = tt
AreClear-set (x ∷ t) zero e z h = (z, h.1)
AreClear-set (x ∷ t) (suc n) e z h = (h.0, AreClear-set t n e z h.1)

first_byte : (e : FsEntry) → FitsEntry e → get_or (entry_sector e) 0 0 ≡ get_or e.name 0 0
first_byte e v = rw (entry_sector-eq e v.name_length) (go e.name _ v.name_length)
  where
    go : (n : List ℕ) (r : List ℕ) → length n ≡ 56 → get_or (n ++ r) 0 0 ≡ get_or n 0 0
    go [] r h = absurd (omega arith)
    go (x ∷ n) r h = refl

module _ (dev : BlockDevice) (works : IsReliable dev) where
  load_table_step :
      (rounds i : ℕ) (t : List FsEntry) (n : ℕ) (d : dev.Disk) (e : FsEntry)
      → FitsEntry e
      → get_or e.name 0 0 ≢ 0
      → AreClear t
      → sector_at dev (fs_data_start_lba + i) d ≡ some (entry_sector e)
      → load_table dev (suc rounds) i t n d ≡ load_table dev rounds (i + 1) (set t n e) (n + 1) d
  unfolding load_table
  load_table_step rounds i t n d e v p c h =
      let nonzero : (get_or (entry_sector e) 0 0 == 0) ≡ false = ground (arith, first_byte e v) in
      rw
        (
          h,
          load_table,
          nonzero,
          entry_of_sector-entry_sector e (get_or t n no_entry) v (AreClear-get_or t n c),
          works.reads_only,
        )
        refl

  -- The loop reads the entries, and stops at the end of its rounds or at an empty sector.
  pub load_table_lem :
      (es : List FsEntry) (rounds i : ℕ) (t : List FsEntry) (n : ℕ) (d : dev.Disk)
      → AreEntries es
      → AreClear t
      → length es ≤ rounds
      → n + length es ≤ length t
      → Holds dev (fs_data_start_lba + i) (map entry_sector es) d
      → (length es < rounds
          → sector_at dev (fs_data_start_lba + i + length es) d ≡ some zero_sector)
      → ((load_table dev rounds i t n d).0.1 ≡ n + length es)
        × (take (n + length es) (load_table dev rounds i t n d).0.0 ≡ take n t ++ es)
  unfolding load_table
  load_table_lem [] zero i t n d v c r f h z = (omega arith, rw (add-zero, append-nil) refl)
  load_table_lem [] (suc rounds) i t n d v c r f h z =
      let e : sector_at dev (fs_data_start_lba + i) d ≡ some zero_sector =
        ap (λ k. sector_at dev k d) (omega arith) ∙ z (omega arith) in
      rw (e, load_table) (omega arith, rw (add-zero, append-nil) refl)
  load_table_lem (e ∷ es) zero i t n d v c r f h z = absurd (omega arith)
  load_table_lem (e ∷ es) (suc rounds) i t n d v c r f h z =
      let shift : fs_data_start_lba + i + 1 ≡ fs_data_start_lba + (i + 1) = omega arith in
      let count : n + suc (length es) ≡ n + 1 + length es = omega arith in
      let next : fs_data_start_lba + (i + 1) + length es ≡ fs_data_start_lba + i + suc (length es) =
        omega arith in
      let rest =
        load_table_lem es rounds (i + 1) (set t n e) (n + 1) d v.2
          (AreClear-set t n e v.0.reserved_zero c) (omega arith) (omega (arith, length-set t n e))
          (rw (← shift) h.1) (λ l. rw next (z (omega arith))) in
      rw (load_table_step rounds i t n d e v.0 v.1 c h.0, count)
        (
          rest.0,
          rest.1
              ∙ ap (λ l. l ++ es)
                  (ap (λ k. take k (set t n e)) (add-one n) ∙ take-set_end t n e (omega arith))
              ∙ append_assoc (take n t) (e ∷ []) es,
        )
