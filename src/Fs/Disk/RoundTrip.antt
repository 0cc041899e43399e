-- ===== src/Fs/Disk/RoundTrip.antt =====
-- What a save of src/commands.c leaves on an array of sectors, and what the loading loops make of it.
use ro_dos.Prelude.{
  ℕ, ◌+◌, ◌-◌, ◌≤◌, ◌<◌, ◌≡◌, refl, sym, ap, ◌∙◌, inl, Bool, some, List, [], ◌∷◌, map, arith,
  length, take, length-take, length-map, take-all,
}
use ro_dos.Array.{pad}
use ro_dos.Array.Pad.{length-pad}
use ro_dos.Text.{text}
use ro_dos.Fs.{
  FileContent, Fs, FsEntry, UserEntry, entries, users, contents, fs_max_files, fs_max_users,
}
use ro_dos.Fs.Device.{BlockDevice, IsReliable, sector_at}
use ro_dos.Fs.Disk.{zero_sector, fs_save_to_disk, write_each, clear_each, save_contents}
use ro_dos.Fs.Disk.Layout.{fs_curdir_lba, fs_data_start_lba, entry_sector, user_sector}
use ro_dos.Fs.Disk.Load.{load_table, load_users}
use ro_dos.Fs.Disk.Tables.{AreEntries, AreClear, load_table_lem}
use ro_dos.Fs.Disk.UserTable.{AreUsers, load_users_lem}
use ro_dos.Fs.Disk.CurrentDir.{boot_dir}
use ro_dos.Fs.Disk.Sectors.{
  write_each_below, clear_each_inside, Holds-of_same, write_each-Holds, clear_each_outside,
  save_contents_below, Holds, AreSectors, write_each_ok,
}

-- Each content belongs to an entry of the table.
abbrev pub AreIndexed : List FileContent → Type 0
AreIndexed [] = Unit {0}
AreIndexed (c ∷ cs) = (c.file_idx < 128) × AreIndexed cs

-- What the loading loops can bring back: at most 64 files and 5 users, each with a name, and a
-- current directory on drive C.
pub record IsSaveable (s : Fs) : Type 0 where
  pub files_fit : s.fs_count ≤ 64
  pub users_fit : s.user_count ≤ 5
  pub files : length s.fs_table ≡ 128
  pub user_slots : length s.user_table ≡ 32
  pub entries_ok : AreEntries (entries s)
  pub users_ok : AreUsers (users s)
  pub dir_rest : List ℕ
  pub on_c : text s.current_dir ≡ b'C' ∷ b':' ∷ b'\\' ∷ dir_rest
  pub dir_fits : length dir_rest ≤ 252
  pub contents_ok : AreIndexed (contents s)

-- The static variables as the program starts.
pub record IsBooted (b : Fs) : Type 0 where
  pub files : length b.fs_table ≡ 128
  pub clear : AreClear b.fs_table
  pub user_slots : length b.user_table ≡ 32
  pub dir : b.current_dir ≡ boot_dir

pub entry_AreSectors : (es : List FsEntry) → AreSectors (map entry_sector es)
unfolding entry_sector
entry_AreSectors [] = tt
entry_AreSectors (e ∷ es) = (length-pad 512 _, entry_AreSectors es)

pub user_AreSectors : (us : List UserEntry) → AreSectors (map user_sector us)
unfolding user_sector
user_AreSectors [] = tt
user_AreSectors (u ∷ us) = (length-pad 512 _, user_AreSectors us)

module _ (dev : BlockDevice) (works : IsReliable dev) (s : Fs) (d : dev.Disk) where
  abbrev with_dir : dev.Disk
  with_dir = (write_each dev fs_curdir_lba (pad 512 (take 256 (text s.current_dir)) ∷ []) d).1

  abbrev with_table : dev.Disk
  with_table =
      (write_each dev fs_data_start_lba (map entry_sector (take fs_max_files (entries s)))
        with_dir).1

  abbrev with_clear_table : dev.Disk
  with_clear_table = clear_each dev (64 - s.fs_count) (fs_data_start_lba + s.fs_count) with_table

  abbrev with_users : dev.Disk
  with_users =
      (write_each dev (fs_data_start_lba + 128) (map user_sector (take fs_max_users (users s)))
        with_clear_table).1

  abbrev with_clear_users : dev.Disk
  with_clear_users =
      clear_each dev (5 - s.user_count) (fs_data_start_lba + 128 + s.user_count) with_users

  -- The stages of a save on a device that works.
  save_stages : fs_save_to_disk dev s d ≡ save_contents dev (contents s) with_clear_users
  unfolding fs_save_to_disk
  save_stages =
      rw
        (
          write_each_ok dev works fs_curdir_lba _ d,
          write_each_ok dev works fs_data_start_lba _ with_dir,
          write_each_ok dev works (fs_data_start_lba + 128) _ with_clear_table,
        )
        refl

  module _ (v : IsSaveable s) where
    abbrev pub saved : dev.Disk
    saved = (fs_save_to_disk dev s d).1

    length-entries : length (entries s) ≡ s.fs_count
    length-entries = omega (arith, length-take s.fs_count s.fs_table, v.files, v.files_fit)

    length-users : length (users s) ≡ s.user_count
    length-users = omega (arith, length-take s.user_count s.user_table, v.user_slots, v.users_fit)

    length-entry_sectors : length (map entry_sector (take fs_max_files (entries s))) ≡ s.fs_count
    length-entry_sectors =
        length-map _ entry_sector
        ∙ omega (arith, length-take fs_max_files (entries s), length-entries, v.files_fit)

    length-user_sectors : length (map user_sector (take fs_max_users (users s))) ≡ s.user_count
    length-user_sectors =
        length-map _ user_sector
        ∙ omega (arith, length-take fs_max_users (users s), length-users, v.users_fit)

    -- What the later stages leave of the earlier ones.
    from_users : (k : ℕ) → k < 700 → sector_at dev k saved ≡ sector_at dev k with_clear_users
    from_users k h =
        ap (λ (r : Bool × dev.Disk). sector_at dev k r.1) save_stages
        ∙ save_contents_below dev works (contents s) with_clear_users k h

    from_table : (k : ℕ) → k < 628 → sector_at dev k saved ≡ sector_at dev k with_clear_table
    from_table k h =
        from_users k (omega arith)
        ∙ clear_each_outside dev works _ _ with_users k (inl (omega arith))
        ∙ write_each_below dev works _ _ with_clear_table k h

    from_dir : (k : ℕ) → k < 500 → sector_at dev k saved ≡ sector_at dev k with_dir
    from_dir k h =
        from_table k (omega arith)
        ∙ clear_each_outside dev works _ _ with_table k (inl (omega arith))
        ∙ write_each_below dev works _ _ with_dir k h

    -- The sectors of the saved disk.
    pub saved_dir :
        sector_at dev fs_curdir_lba saved ≡ some (pad 512 (take 256 (text s.current_dir)))
    saved_dir =
        from_dir 499 (omega arith)
        ∙ (write_each-Holds dev works fs_curdir_lba (pad 512 (take 256 (text s.current_dir)) ∷ []) d
            (length-pad 512 _, tt)).0

    saved-entries : Holds dev fs_data_start_lba (map entry_sector (entries s)) saved
    saved-entries =
        rw (← take-all fs_max_files (entries s) (omega (arith, length-entries, v.files_fit))) (
          Holds-of_same dev works fs_data_start_lba _ saved
            (λ k p q.
              from_table k (omega (arith, length-entry_sectors, v.files_fit))
              ∙ clear_each_outside dev works _ _ with_table k
                  (inl (omega (arith, length-entry_sectors))))
            (write_each-Holds dev works fs_data_start_lba _ with_dir (entry_AreSectors _)))

    saved_end :
        s.fs_count < 64 → sector_at dev (fs_data_start_lba + s.fs_count) saved ≡ some zero_sector
    saved_end h =
        from_table _ (omega arith)
        ∙ ap (λ k. sector_at dev k with_clear_table) (omega arith)
        ∙ clear_each_inside dev works (64 - s.fs_count) (fs_data_start_lba + s.fs_count) with_table
            0 (omega arith)

    saved-users : Holds dev (fs_data_start_lba + 128) (map user_sector (users s)) saved
    saved-users =
        rw (← take-all fs_max_users (users s) (omega (arith, length-users, v.users_fit))) (
          Holds-of_same dev works (fs_data_start_lba + 128) _ saved
            (λ k p q.
              from_users k (omega (arith, length-user_sectors, v.users_fit))
              ∙ clear_each_outside dev works _ _ with_users k
                  (inl (omega (arith, length-user_sectors))))
            (write_each-Holds dev works (fs_data_start_lba + 128) _ with_clear_table
              (user_AreSectors _)))

    saved_users_end :
        (k : ℕ)
        → k < 5 - s.user_count
        → sector_at dev (fs_data_start_lba + 128 + s.user_count + k) saved ≡ some zero_sector
    saved_users_end k h =
        from_users _ (omega arith)
        ∙ clear_each_inside dev works (5 - s.user_count) (fs_data_start_lba + 128 + s.user_count)
            with_users k h

    pub loaded_entries :
        (b : Fs)
        → IsBooted b
        → ((load_table dev 64 0 b.fs_table 0 saved).0.1 ≡ s.fs_count)
          × (take s.fs_count (load_table dev 64 0 b.fs_table 0 saved).0.0 ≡ entries s)
    loaded_entries b start =
        let r =
          load_table_lem dev works (entries s) 64 0 b.fs_table 0 saved v.entries_ok start.clear
            (omega (arith, length-entries, v.files_fit))
            (omega (arith, length-entries, v.files_fit, start.files)) saved-entries
            (λ h.
              ap (λ k. sector_at dev k saved) (omega (arith, length-entries))
              ∙ saved_end (omega (arith, length-entries))) in
        let n : 0 + length (entries s) ≡ s.fs_count = omega (arith, length-entries) in
        (r.0 ∙ n, ap (λ k. take k (load_table dev 64 0 b.fs_table 0 saved).0.0) (sym n) ∙ r.1)

    pub loaded_users :
        (b : Fs)
        → IsBooted b
        → ((load_users dev 5 0 b.user_table 0 saved).0.1 ≡ s.user_count)
          × (take s.user_count (load_users dev 5 0 b.user_table 0 saved).0.0 ≡ users s)
    loaded_users b start =
        let r =
          load_users_lem dev works (users s) 5 0 b.user_table 0 saved v.users_ok
            (omega (arith, length-users, v.users_fit))
            (omega (arith, length-users, v.users_fit, start.user_slots)) saved-users
            (λ k h.
              ap (λ j. sector_at dev j saved) (omega (arith, length-users))
              ∙ saved_users_end k (omega (arith, length-users))) in
        let n : 0 + length (users s) ≡ s.user_count = omega (arith, length-users) in
        (r.0 ∙ n, ap (λ k. take k (load_users dev 5 0 b.user_table 0 saved).0.0) (sym n) ∙ r.1)
