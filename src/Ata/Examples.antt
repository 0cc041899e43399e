-- ===== src/Ata/Examples.antt =====
-- A drive in memory on the primary bus, which keeps what is written to it.
use mathlib.Core.Path.{ap₂}
use ro_dos.Prelude.{
  ℕ, zero, suc, ◌+◌, ◌*◌, ◌/◌, ◌%◌, ◌^◌, ◌≡◌, refl, ap, Bool, true, false, ◌&&◌, List, [], arith,
  ◌==◌, if◌then◌else◌, replicate,
}
use ro_dos.Text.{text}
use ro_dos.Fs.{entries, users}
use ro_dos.Fs.Examples.{small, booted}
use ro_dos.Fs.Disk.{fs_save_to_disk}
use ro_dos.Fs.Disk.Load.{fs_load_from_disk}
use ro_dos.Fs.Disk.Simulation.{written}
use ro_dos.Fs.Disk.Tests.{small-IsSaveable, booted-IsBooted}
use ro_dos.Ata.{PortIo}
use ro_dos.Ata.Drive.{Drive, command_of}
use ro_dos.Ata.Blocks.{port_device}
use ro_dos.Ata.Saving.{fs_load-fs_save}

data Phase : Type 0 where
  resting : Phase
  serving : Bool → ℕ → ℕ → Phase
  storing : ℕ → Phase

record MemoryDrive : Type 0 where
  phase : Phase
  sectors : ℕ → List ℕ
  head : ℕ
  low : ℕ
  middle : ℕ
  high : ℕ

abbrev status_of : Phase → ℕ
status_of resting = 0x40
status_of (serving writes lba zero) = 0x58
status_of (serving writes lba (suc polls)) = 0x80
status_of (storing zero) = 0x40
status_of (storing (suc polls)) = 0x80

-- The phase after the status was read.
abbrev polled : Phase → Phase
polled resting = resting
polled (serving writes lba zero) = serving writes lba 0
polled (serving writes lba (suc polls)) = serving writes lba polls
polled (storing zero) = resting
polled (storing (suc polls)) = storing polls

abbrev words_of : Phase → (ℕ → List ℕ) → List ℕ
words_of resting sectors = []
words_of (serving writes lba polls) sectors = sectors lba
words_of (storing polls) sectors = []

abbrev put : List ℕ → Phase → (ℕ → List ℕ) → ℕ → List ℕ
put b resting sectors = sectors
put b (serving writes lba polls) sectors = written lba b sectors
put b (storing polls) sectors = sectors

abbrev drive_outb : ℕ → ℕ → MemoryDrive → MemoryDrive
drive_outb port v d =
    let block = d.head % 16 * 2 ^ 24 + d.high * 2 ^ 16 + d.middle * 256 + d.low in
    if port == 0x1F6
    then record d { head = v }
    else if port == 0x1F3
    then record d { low = v }
    else if port == 0x1F4
    then record d { middle = v }
    else if port == 0x1F5
    then record d { high = v }
    else if port == 0x1F7 && v == 0x20
    then record d { phase = serving false block 7 }
    else if port == 0x1F7 && v == 0x30
    then record d { phase = serving true block 7 }
    else if port == 0x1F7 && v == 0xE7
    then record d { phase = storing 2 }
    else d

abbrev drive_io : PortIo
drive_io = record {
  Dev = MemoryDrive;
  inb = λ port d.
      if port == 0x1F7 then (status_of d.phase, record d { phase = polled d.phase }) else (0, d);
  outb = drive_outb;
  insw = λ port n d. (words_of d.phase d.sectors, record d { phase = resting });
  outsw = λ port b d. record d { phase = storing 3; sectors = put b d.phase d.sectors };
}

abbrev Selected : ℕ → MemoryDrive → (ℕ → List ℕ) → Type 0
Selected head d f = (d.phase ≡ resting) × (d.sectors ≡ f) × (d.head ≡ head)

abbrev Serving : Bool → ℕ → ℕ → MemoryDrive → (ℕ → List ℕ) → Type 0
Serving writes lba polls d f = (d.phase ≡ serving writes lba polls) × (d.sectors ≡ f)

started :
    (writes : Bool) (head lo mid hi : ℕ) (d : MemoryDrive) (f : ℕ → List ℕ)
    → Selected head d f
    → Serving writes
        (head % 16 * 2 ^ 24 + hi * 2 ^ 16 + mid * 256 + lo)
        7
        (drive_outb 0x1F7
          (command_of writes)
          (drive_outb 0x1F5 hi (drive_outb 0x1F4 mid (drive_outb 0x1F3 lo (drive_outb 0x1F2 1 d)))))
        f
started false head lo mid hi d f v =
    (ap (λ k. serving false (k % 16 * 2 ^ 24 + hi * 2 ^ 16 + mid * 256 + lo) 7) v.2, v.1)
started true head lo mid hi d f v =
    (ap (λ k. serving true (k % 16 * 2 ^ 24 + hi * 2 ^ 16 + mid * 256 + lo) 7) v.2, v.1)

abbrev busy_of : Phase → Bool
busy_of p = status_of p / 128 % 2 == 1

abbrev memory_drive : Drive drive_io
memory_drive = record {
  Idle = λ d f. (d.phase ≡ resting) × (d.sectors ≡ f);
  Selected = Selected;
  Serving = Serving;
  Storing = λ polls d f. (d.phase ≡ storing polls) × (d.sectors ≡ f);
  select = λ head d f v. (v.0, v.1, refl);
  selected = λ head d f v. (ap busy_of v.0, (ap polled v.0, v.1, v.2));
  start = λ writes head lo mid hi d f h v. (7, omega arith, started writes head lo mid hi d f v);
  busy = λ writes lba polls d f v.
      (ap busy_of v.0, ap (λ p. status_of p % 2 == 1) v.0, (ap polled v.0, v.1));
  ready = λ writes lba d f v. (
    ap busy_of v.0,
    ap (λ p. status_of p / 8 % 2 == 1) v.0,
    ap (λ p. status_of p % 2 == 1) v.0,
    (ap polled v.0, v.1),
  );
  fetch = λ lba d f v. (ap₂ words_of v.0 v.1, (refl, v.1));
  store = λ lba b d f h v. (3, omega arith, (refl, ap₂ (put b) v.0 v.1));
  flush = λ d f v. (2, omega arith, (refl, v.1));
  storing = λ polls d f v. (ap busy_of v.0, (ap polled v.0, v.1));
  stored = λ d f v. (ap busy_of v.0, (ap polled v.0, v.1));
}

abbrev at_rest : MemoryDrive
at_rest = record {
  phase = resting;
  sectors = λ lba. replicate 512 0xF6;
  head = 0;
  low = 0;
  middle = 0;
  high = 0;
}

fs_load-fs_save_example :
    (let r = fs_save_to_disk (port_device drive_io) small at_rest in
      let u = (fs_load_from_disk (port_device drive_io) booted r.1).0 in
      (r.0 ≡ true)
      × (entries u ≡ entries small)
      × (users u ≡ users small)
      × (text u.current_dir ≡ text small.current_dir))
fs_load-fs_save_example =
    fs_load-fs_save drive_io memory_drive small at_rest at_rest.sectors small-IsSaveable
      (refl, refl) booted booted-IsBooted
