-- ===== src/Fs/Disk/Simulation.antt =====
-- A device that behaves as an array of sectors: what src/commands.c saves and loads on it is what it
-- saves and loads on the array.
use ro_dos.Array.{pad}
use ro_dos.Prelude.{
  ℕ, zero, suc, ◌+◌, ◌-◌, ◌*◌, ◌^◌, ◌≤◌, ◌<◌, min, ◌≡◌, refl, ap, ◌∙◌, inl, inr, Bool, true, some,
  List, [], ◌∷◌, map, arith, ◌==◌, if◌then◌else◌, Bool-cases, length, get_or, take, length-take,
  length-map,
}
use ro_dos.Array.Pad.{length-pad}
use ro_dos.Text.{text}
use ro_dos.Fs.{
  Fs, FileContent, FsEntry, UserEntry, entries, users, contents, fs_max_files, fs_max_users,
}
use ro_dos.Fs.Device.{ram_disk-IsReliable, BlockDevice, ram_disk}
use ro_dos.Fs.Disk.{
  zero_sector, content_sectors, fs_save_to_disk, write_each, clear_each, save_content,
  save_contents, content_sector,
}
use ro_dos.Fs.Disk.Layout.{
  sectors_needed, fs_curdir_lba, fs_data_start_lba, fs_content_start_lba, entry_sector, user_sector,
}
use ro_dos.Fs.Disk.Load.{load_dir, fs_load_from_disk, load_table, load_users}
use mathlib.Core.Path.{ap₂}
use ro_dos.Fs.Disk.CurrentDir.{load_dir-saved}
use ro_dos.Fs.Disk.Sectors.{AreSectors}
use ro_dos.Fs.Disk.RoundTrip.{
  saved_dir, loaded_users, loaded_entries, IsBooted, saved, entry_AreSectors, user_AreSectors,
  AreIndexed, IsSaveable,
}

-- The sectors of a disk after a write.
abbrev pub written : ℕ → List ℕ → (ℕ → List ℕ) → ℕ → List ℕ
written lba b sectors other = if lba == other then b else sectors other

-- The sectors below 2 ^ 28 of a device behave as an array: `Shows` says what the array is.
pub record Implements (dev : BlockDevice) (Shows : dev.Disk → (ℕ → List ℕ) → Type 0) : Type 0 where
  pub reads :
      (lba : ℕ) (d : dev.Disk) (f : ℕ → List ℕ)
      → lba < 2 ^ 28
      → Shows d f
      → ((dev.read lba d).0 ≡ some (f lba)) × Shows (dev.read lba d).1 f
  pub writes :
      (lba : ℕ) (b : List ℕ) (d : dev.Disk) (f : ℕ → List ℕ)
      → lba < 2 ^ 28
      → length b ≡ 512
      → Shows d f
      → ((dev.write lba b d).0 ≡ true) × Shows (dev.write lba b d).1 (written lba b f)

module _ (dev : BlockDevice) (Shows : dev.Disk → (ℕ → List ℕ) → Type 0)
    (imp : Implements dev Shows) where
  -- A step of a save that goes as it does on the array.
  abbrev Same : Bool × dev.Disk → Bool × (ℕ → List ℕ) → Type 0
  Same r q = (r.0 ≡ true) × (q.0 ≡ true) × Shows r.1 q.1

  write_each_sim :
      (lba : ℕ) (bs : List (List ℕ)) (d : dev.Disk) (f : ℕ → List ℕ)
      → lba + length bs < 2 ^ 28
      → AreSectors bs
      → Shows d f
      → Same (write_each dev lba bs d) (write_each ram_disk lba bs f)
  unfolding write_each
  write_each_sim lba [] d f h a v = (refl, refl, v)
  write_each_sim lba (b ∷ bs) d f h a v =
      let (ok, w) = imp.writes lba b d f (omega arith) a.0 v in
      rw ok
        (write_each_sim (lba + 1) bs (dev.write lba b d).1 (written lba b f) (omega arith) a.1 w)

  clear_each_sim :
      (n lba : ℕ) (d : dev.Disk) (f : ℕ → List ℕ)
      → ((k : ℕ) → k < n → lba + k < 2 ^ 28)
      → Shows d f
      → Shows (clear_each dev n lba d) (clear_each ram_disk n lba f)
  unfolding clear_each
  clear_each_sim zero lba d f h v = v
  clear_each_sim (suc n) lba d f h v =
      let (ok, w) = imp.writes lba zero_sector d f (omega (arith, h 0 (omega arith))) refl v in
      clear_each_sim n (lba + 1) (dev.write lba zero_sector d).1 (written lba zero_sector f)
        (λ k l. omega (arith, h (suc k) (omega arith))) w

  content_sectors_same :
      (c : FileContent) (n s : ℕ) → content_sectors dev c n s ≡ content_sectors ram_disk c n s
  unfolding content_sectors
  content_sectors_same c zero s = refl
  content_sectors_same c (suc n) s =
      ap (λ l. content_sector c s ∷ l) (content_sectors_same c n (s + 1))

  content_AreSectors :
      (c : FileContent) (n s : ℕ)
      → AreSectors (content_sectors ram_disk c n s) × (length (content_sectors ram_disk c n s) ≡ n)
  unfolding content_sectors content_sector
  content_AreSectors c zero s = (tt, refl)
  content_AreSectors c (suc n) s =
      let (rest, size) = content_AreSectors c n (s + 1) in ((length-pad 512 _, rest), ap suc size)

  save_content_sim :
      (c : FileContent) (d : dev.Disk) (f : ℕ → List ℕ)
      → c.file_idx < 128
      → Shows d f
      → Same (save_content dev c d) (save_content ram_disk c f)
  unfolding save_content
  save_content_sim c d f h v =
      let n = sectors_needed c.size in
      let base = fs_content_start_lba + c.file_idx * 16 in
      let (all, size) = content_AreSectors c (min n 16) 0 in
      let bs = content_sectors ram_disk c (min n 16) 0 in
      let (ok, ram_ok, w) = write_each_sim base bs d f (omega (arith, size)) all v in
      rw (content_sectors_same c (min n 16) 0, ok, ram_ok)
        (
          refl,
          refl,
          clear_each_sim (16 - n) (base + n) (write_each dev base bs d).1
              (write_each ram_disk base bs f).1 (λ k l. omega (arith, h)) w,
        )

  save_contents_sim :
      (cs : List FileContent) (d : dev.Disk) (f : ℕ → List ℕ)
      → AreIndexed cs
      → Shows d f
      → Same (save_contents dev cs d) (save_contents ram_disk cs f)
  unfolding save_contents
  save_contents_sim [] d f h v = (refl, refl, v)
  save_contents_sim (c ∷ cs) d f h v =
      let (ok, ram_ok, w) = save_content_sim c d f h.0 v in
      rw (ok, ram_ok)
        (save_contents_sim cs (save_content dev c d).1 (save_content ram_disk c f).1 h.1 w)

  fs_save_sim :
      (s : Fs) (d : dev.Disk) (f : ℕ → List ℕ)
      → IsSaveable s
      → Shows d f
      → Same (fs_save_to_disk dev s d) (fs_save_to_disk ram_disk s f)
  unfolding fs_save_to_disk
  fs_save_sim s d f v shows =
      let dir = pad 512 (take 256 (text s.current_dir)) ∷ [] in
      let table = map entry_sector (take fs_max_files (entries s)) in
      let some_users = map user_sector (take fs_max_users (users s)) in
      let n_table =
        length-map (take fs_max_files (entries s)) entry_sector
        ∙ length-take fs_max_files (entries s) in
      let n_users =
        length-map (take fs_max_users (users s)) user_sector ∙ length-take fs_max_users (users s) in
      let (ok1, ram1, w1) =
        write_each_sim fs_curdir_lba dir d f (omega arith) (length-pad 512 _, tt) shows in
      let (ok2, ram2, w2) =
        write_each_sim fs_data_start_lba table (write_each dev fs_curdir_lba dir d).1
          (write_each ram_disk fs_curdir_lba dir f).1 (omega (arith, n_table)) (entry_AreSectors _)
          w1 in
      let d2 = (write_each dev fs_data_start_lba table (write_each dev fs_curdir_lba dir d).1).1 in
      let f2 =
        (write_each ram_disk fs_data_start_lba table
          (write_each ram_disk fs_curdir_lba dir f).1).1 in
      let w3 =
        clear_each_sim (64 - s.fs_count) (fs_data_start_lba + s.fs_count) d2 f2 (λ k l. omega arith)
          w2 in
      let d3 = clear_each dev (64 - s.fs_count) (fs_data_start_lba + s.fs_count) d2 in
      let f3 = clear_each ram_disk (64 - s.fs_count) (fs_data_start_lba + s.fs_count) f2 in
      let (ok4, ram4, w4) =
        write_each_sim (fs_data_start_lba + 128) some_users d3 f3 (omega (arith, n_users))
          (user_AreSectors _) w3 in
      let d4 = (write_each dev (fs_data_start_lba + 128) some_users d3).1 in
      let f4 = (write_each ram_disk (fs_data_start_lba + 128) some_users f3).1 in
      let w5 =
        clear_each_sim (5 - s.user_count) (fs_data_start_lba + 128 + s.user_count) d4 f4
          (λ k l. omega arith) w4 in
      let last =
        save_contents_sim (contents s)
          (clear_each dev (5 - s.user_count) (fs_data_start_lba + 128 + s.user_count) d4)
          (clear_each ram_disk (5 - s.user_count) (fs_data_start_lba + 128 + s.user_count) f4)
          v.contents_ok w5 in
      rw (ok1, ram1, ok2, ram2, ok4, ram4) last

  load_table_sim :
      (rounds i : ℕ) (t : List FsEntry) (n : ℕ) (d : dev.Disk) (f : ℕ → List ℕ)
      → i + rounds ≤ 64
      → Shows d f
      → ((load_table dev rounds i t n d).0 ≡ (load_table ram_disk rounds i t n f).0)
        × Shows (load_table dev rounds i t n d).1 f
  unfolding load_table
  load_table_sim zero i t n d f h v = (refl, v)
  load_table_sim (suc rounds) i t n d f h v =
      let (e, w) = imp.reads (fs_data_start_lba + i) d f (omega arith) v in
      elim (Bool-cases (get_or (f (fs_data_start_lba + i)) 0 0 == 0)) [
        | inl none_there ↦ rw (e, load_table, none_there) (refl, w)
        | inr there ↦
            rw (e, load_table, there) (load_table_sim rounds (i + 1) _ (n + 1) _ f (omega arith) w)
      ]

  load_users_sim :
      (rounds i : ℕ) (t : List UserEntry) (n : ℕ) (d : dev.Disk) (f : ℕ → List ℕ)
      → i + rounds ≤ 5
      → Shows d f
      → ((load_users dev rounds i t n d).0 ≡ (load_users ram_disk rounds i t n f).0)
        × Shows (load_users dev rounds i t n d).1 f
  unfolding load_users
  load_users_sim zero i t n d f h v = (refl, v)
  load_users_sim (suc rounds) i t n d f h v =
      let (e, w) = imp.reads (fs_data_start_lba + 128 + i) d f (omega arith) v in
      elim (Bool-cases (get_or (f (fs_data_start_lba + 128 + i)) 0 0 == 0)) [
        | inl none_there ↦
            rw (e, load_users, none_there) (load_users_sim rounds (i + 1) _ n _ f (omega arith) w)
        | inr there ↦
            rw (e, load_users, there) (load_users_sim rounds (i + 1) _ (n + 1) _ f (omega arith) w)
      ]

  module _ (s : Fs) (d : dev.Disk) (f : ℕ → List ℕ) (v : IsSaveable s) (shows : Shows d f) where
    abbrev on_array : ℕ → List ℕ
    on_array = saved ram_disk ram_disk-IsReliable s f v

    -- A save returns 0, and a load in a program that has just started brings back the files, the users
    -- and the current directory.
    pub load_after_save :
        (b : Fs)
        → IsBooted b
        → (let r = fs_save_to_disk dev s d in
            let u = (fs_load_from_disk dev b r.1).0 in
            (r.0 ≡ true)
            × (entries u ≡ entries s)
            × (users u ≡ users s)
            × (text u.current_dir ≡ text s.current_dir))
    unfolding fs_load_from_disk
    load_after_save b start =
        let (ok, _, after) = fs_save_sim s d f v shows in
        let r = fs_save_to_disk dev s d in
        let (dir, w) = imp.reads fs_curdir_lba r.1 on_array (omega arith) after in
        let (table, w2) =
          load_table_sim 64 0 b.fs_table 0 (dev.read fs_curdir_lba r.1).1 on_array (omega arith)
            w in
        let t = load_table dev 64 0 b.fs_table 0 (dev.read fs_curdir_lba r.1).1 in
        let (people, _) = load_users_sim 5 0 b.user_table 0 t.1 on_array (omega arith) w2 in
        let (n_files, files) = loaded_entries ram_disk ram_disk-IsReliable s f v b start in
        let (n_users, names) = loaded_users ram_disk ram_disk-IsReliable s f v b start in
        (
          ok,
          ap (λ x. take x.1 x.0) table
              ∙ ap (λ k. take k (load_table ram_disk 64 0 b.fs_table 0 on_array).0.0) n_files
              ∙ files,
          ap (λ x. take x.1 x.0) people
              ∙ ap (λ k. take k (load_users ram_disk 5 0 b.user_table 0 on_array).0.0) n_users
              ∙ names,
          ap text (ap₂ load_dir (dir ∙ saved_dir ram_disk ram_disk-IsReliable s f v) start.dir)
              ∙ load_dir-saved s.current_dir v.dir_rest v.on_c v.dir_fits,
        )
