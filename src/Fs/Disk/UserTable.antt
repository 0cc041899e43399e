-- ===== src/Fs/Disk/UserTable.antt =====
-- The loading loop over the users in src/commands.c, on a disk that holds the saved ones.
use mathlib.Core.List.{append-nil, append_assoc}
use native.Mathlib.Nat.{add-zero}
use native.Mathlib.Numerals.{add-one}
use ro_dos.Prelude.{
  ℕ, zero, suc, ◌+◌, ◌-◌, ◌≤◌, ◌<◌, ◌≡◌, refl, ap, ◌∙◌, ◌≢◌, false, some, List, [], ◌∷◌, ◌++◌, map,
  arith, ◌==◌, length, set, get_or, take, length-set,
}
use ro_dos.Array.Pad.{pad-append, pad-all}
use ro_dos.Array.{pad}
use ro_dos.Array.Slots.{take-set_end}
use ro_dos.Fs.{UserEntry, no_user}
use ro_dos.Fs.Device.{BlockDevice, IsReliable, sector_at}
use ro_dos.Fs.Disk.{zero_sector}
use ro_dos.Fs.Disk.Layout.{fs_data_start_lba, user_sector}
use ro_dos.Fs.Disk.Codec.{FitsUser, user_of_sector-user_sector}
use ro_dos.Fs.Disk.Sectors.{Holds}
use ro_dos.Fs.Disk.Load.{load_users}

-- The users fit, and have a name.
abbrev pub AreUsers : List UserEntry → Type 0
AreUsers [] = Unit {0}
AreUsers (u ∷ us) = FitsUser u × (get_or u.username 0 0 ≢ 0) × AreUsers us

first_byte : (u : UserEntry) → FitsUser u → get_or (user_sector u) 0 0 ≡ get_or u.username 0 0
unfolding user_sector
first_byte u v =
    rw
      (
        pad-all 32 u.username v.username_length,
        pad-append u.username (pad 32 u.password_hash) 480 512 (omega arith),
      )
      (go u.username (pad 480 (pad 32 u.password_hash)) v.username_length)
  where
    go : (n : List ℕ) (r : List ℕ) → length n ≡ 32 → get_or (n ++ r) 0 0 ≡ get_or n 0 0
    go [] r h = absurd (omega arith)
    go (x ∷ n) r h = refl

module _ (dev : BlockDevice) (works : IsReliable dev) where
  load_users_step :
      (rounds i : ℕ) (t : List UserEntry) (n : ℕ) (d : dev.Disk) (u : UserEntry)
      → FitsUser u
      → get_or u.username 0 0 ≢ 0
      → sector_at dev (fs_data_start_lba + 128 + i) d ≡ some (user_sector u)
      → load_users dev (suc rounds) i t n d ≡ load_users dev rounds (i + 1) (set t n u) (n + 1) d
  unfolding load_users
  load_users_step rounds i t n d u v p h =
      let nonzero : (get_or (user_sector u) 0 0 == 0) ≡ false = ground (arith, first_byte u v) in
      rw
        (
          h,
          load_users,
          nonzero,
          user_of_sector-user_sector u (get_or t n no_user) v,
          works.reads_only,
        )
        refl

  -- Cleared sectors hold no user.
  load_users_clear :
      (rounds i : ℕ) (t : List UserEntry) (n : ℕ) (d : dev.Disk)
      → ((k : ℕ)
          → k < rounds
          → sector_at dev (fs_data_start_lba + 128 + i + k) d ≡ some zero_sector)
      → load_users dev rounds i t n d ≡ ((t, n), d)
  unfolding load_users
  load_users_clear zero i t n d z = refl
  load_users_clear (suc rounds) i t n d z =
      let e : sector_at dev (fs_data_start_lba + 128 + i) d ≡ some zero_sector =
        ap (λ k. sector_at dev k d) (omega arith) ∙ z 0 (omega arith) in
      rw (e, load_users, works.reads_only)
        (load_users_clear rounds (i + 1) t n d
          (λ k l. ap (λ j. sector_at dev j d) (omega arith) ∙ z (suc k) (omega arith)))

  -- The loop reads the users in front of cleared sectors.
  pub load_users_lem :
      (us : List UserEntry) (rounds i : ℕ) (t : List UserEntry) (n : ℕ) (d : dev.Disk)
      → AreUsers us
      → length us ≤ rounds
      → n + length us ≤ length t
      → Holds dev (fs_data_start_lba + 128 + i) (map user_sector us) d
      → ((k : ℕ)
          → k < rounds - length us
          → sector_at dev (fs_data_start_lba + 128 + i + length us + k) d ≡ some zero_sector)
      → ((load_users dev rounds i t n d).0.1 ≡ n + length us)
        × (take (n + length us) (load_users dev rounds i t n d).0.0 ≡ take n t ++ us)
  load_users_lem [] rounds i t n d v r f h z =
      rw
        (load_users_clear rounds i t n d
          (λ k l. ap (λ j. sector_at dev j d) (omega arith) ∙ z k (omega arith)))
        (omega arith, rw (add-zero, append-nil) refl)
  load_users_lem (u ∷ us) zero i t n d v r f h z = absurd (omega arith)
  load_users_lem (u ∷ us) (suc rounds) i t n d v r f h z =
      let shift : fs_data_start_lba + 128 + i + 1 ≡ fs_data_start_lba + 128 + (i + 1) =
        omega arith in
      let count : n + suc (length us) ≡ n + 1 + length us = omega arith in
      let rest =
        load_users_lem us rounds (i + 1) (set t n u) (n + 1) d v.2 (omega arith)
          (omega (arith, length-set t n u)) (rw (← shift) h.1)
          (λ k l. ap (λ j. sector_at dev j d) (omega arith) ∙ z k (omega arith)) in
      rw (load_users_step rounds i t n d u v.0 v.1 h.0, count)
        (
          rest.0,
          rest.1
              ∙ ap (λ l. l ++ us)
                  (ap (λ k. take k (set t n u)) (add-one n) ∙ take-set_end t n u (omega arith))
              ∙ append_assoc (take n t) (u ∷ []) us,
        )
