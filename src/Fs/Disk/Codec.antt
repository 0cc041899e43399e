-- ===== src/Fs/Disk/Codec.antt =====
-- A table entry survives its way through a sector.
use ro_dos.Prelude.{ℕ, ◌^◌, ◌<◌, ◌≡◌, ap, List, ◌++◌, arith, length}
use ro_dos.Array.{pad}
use ro_dos.Array.Pad.{pad-append, pad-all, pad-append_all, pad-pad, drop-append}
use ro_dos.Fs.{FsEntry, UserEntry}
use ro_dos.Fs.Disk.Layout.{le_bytes, entry_sector, user_sector, entry_of_sector, user_of_sector}

-- The fields fit their types. No code writes `reserved`.
pub record FitsEntry (e : FsEntry) : Type 0 where
  pub name_length : length e.name ≡ 56
  pub size_fits : e.size < 2 ^ 32
  pub type_fits : e.type < 256
  pub attr_fits : e.attr < 256
  pub parent_fits : e.parent_idx < 2 ^ 16
  pub reserved_zero : e.reserved ≡ 0

pub record FitsUser (u : UserEntry) : Type 0 where
  pub username_length : length u.username ≡ 32
  pub hash_length : length u.password_hash ≡ 32

-- What stands behind the name in a sector.
abbrev tail_bytes : FsEntry → List ℕ
tail_bytes e =
    pad 456
      (le_bytes 4 e.size ++ (le_bytes 1 e.type ++ (le_bytes 1 e.attr ++ le_bytes 2 e.parent_idx)))

pub entry_sector-eq : (e : FsEntry) → length e.name ≡ 56 → entry_sector e ≡ e.name ++ tail_bytes e
unfolding entry_sector
entry_sector-eq e h = rw (pad-all 56 e.name h) (pad-append e.name _ 456 512 (omega arith))

-- An entry whose fields fit is read back from its sector, into any slot of the table.
pub entry_of_sector-entry_sector :
    (e old : FsEntry) → FitsEntry e → old.reserved ≡ 0 → entry_of_sector (entry_sector e) old ≡ e
unfolding entry_of_sector
entry_of_sector-entry_sector e old v h =
    rw
      (
        entry_sector-eq e v.name_length,
        pad-append_all 56 e.name (tail_bytes e) v.name_length,
        drop-append 56 0 e.name (tail_bytes e) v.name_length,
        drop-append 56 4 e.name (tail_bytes e) v.name_length,
        drop-append 56 5 e.name (tail_bytes e) v.name_length,
        drop-append 56 6 e.name (tail_bytes e) v.name_length,
      )
      (ground arith)

pub user_of_sector-user_sector :
    (u old : UserEntry) → FitsUser u → user_of_sector (user_sector u) old ≡ u
unfolding user_of_sector user_sector
user_of_sector-user_sector u old v =
    rw
      (
        pad-all 32 u.username v.username_length,
        pad-all 32 u.password_hash v.hash_length,
        pad-append u.username u.password_hash 480 512 (omega arith),
        pad-append_all 32 u.username (pad 480 u.password_hash) v.username_length,
        drop-append 32 0 u.username (pad 480 u.password_hash) v.username_length,
      )
      (ap (λ b. record { username = u.username; password_hash = b })
        (pad-pad 32 480 u.password_hash v.hash_length (omega arith)))
