-- ===== src/Fs/Disk/Tests.antt =====
-- A small file system, and the program as it starts.
use ro_dos.Prelude.{ℕ, zero, suc, ◌≡◌, refl, [], arith, replicate}
use ro_dos.Fs.Examples.{small, booted, a_txt, docs, blank}
use ro_dos.Fs.Disk.Layout.{entry_sector, entry_of_sector}
use ro_dos.Fs.Disk.Codec.{FitsEntry, entry_of_sector-entry_sector}
use ro_dos.Fs.Disk.Tables.{AreClear}
use ro_dos.Fs.Disk.RoundTrip.{IsSaveable, IsBooted}

a_txt-FitsEntry : FitsEntry a_txt
a_txt-FitsEntry = record {
  name_length = refl;
  size_fits = omega arith;
  type_fits = omega arith;
  attr_fits = omega arith;
  parent_fits = omega arith;
  reserved_zero = refl;
}

docs-FitsEntry : FitsEntry docs
docs-FitsEntry = record {
  name_length = refl;
  size_fits = omega arith;
  type_fits = omega arith;
  attr_fits = omega arith;
  parent_fits = omega arith;
  reserved_zero = refl;
}

pub small-IsSaveable : IsSaveable small
small-IsSaveable = record {
  files_fit = omega arith;
  users_fit = omega arith;
  files = refl;
  user_slots = refl;
  entries_ok = (a_txt-FitsEntry, omega arith, (docs-FitsEntry, omega arith, tt));
  users_ok = (record { username_length = refl; hash_length = refl }, omega arith, tt);
  dir_rest = [];
  on_c = refl;
  dir_fits = omega arith;
  contents_ok = tt;
}

replicate-AreClear : (n : ℕ) → AreClear (replicate n blank)
replicate-AreClear zero = tt
replicate-AreClear (suc n) = (refl, replicate-AreClear n)

pub booted-IsBooted : IsBooted booted
booted-IsBooted = record {
  files = refl;
  clear = replicate-AreClear 128;
  user_slots = refl;
  dir = refl;
}

entry_of_sector-entry_sector_example : entry_of_sector (entry_sector docs) blank ≡ docs
entry_of_sector-entry_sector_example = entry_of_sector-entry_sector docs blank docs-FitsEntry refl
