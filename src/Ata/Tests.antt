-- ===== src/Ata/Tests.antt =====
-- A disk for src/drivers/ata.c with a master drive on the primary bus.
use ro_dos.Prelude.{
  ℕ, zero, suc, ◌+◌, ◌*◌, ◌/◌, ◌%◌, ◌^◌, ◌≡◌, refl, ap, true, ◌&&◌, List, [], arith, ◌==◌,
  if◌then◌else◌, replicate,
}
use ro_dos.Ata.{Ata, PortIo, ata_read_sectors}
use ro_dos.Ata.Protocol.{AtaDisk}
use ro_dos.Ata.Reading.{HasRead, ata_read_sectors-HasRead}

data Phase : Type 0 where
  resting : Phase
  serving : ℕ → ℕ → ℕ → Phase
  offering : ℕ → ℕ → Phase

record Drive : Type 0 where
  phase : Phase
  head : ℕ
  count : ℕ
  low : ℕ
  middle : ℕ
  high : ℕ

abbrev status_of : Phase → ℕ
status_of resting = 0x40
status_of (serving lba left zero) = 0x58
status_of (serving lba left (suc polls)) = 0x80
status_of (offering lba left) = 0x58

-- The phase after the status was read.
abbrev polled : Phase → Phase
polled resting = resting
polled (serving lba left zero) = offering lba left
polled (serving lba left (suc polls)) = serving lba left polls
polled (offering lba left) = offering lba left

-- The phase after a command to read a number of blocks.
abbrev started : ℕ → ℕ → Phase
started lba zero = resting
started lba (suc left) = serving lba left 3

-- A sector has its block's number in each byte.
abbrev sector_of : ℕ → List ℕ
sector_of lba = replicate 512 (lba % 256)

abbrev words_of : Phase → List ℕ
words_of resting = []
words_of (serving lba left polls) = []
words_of (offering lba left) = sector_of lba

-- The phase after a sector was transferred.
abbrev transferred : Phase → Phase
transferred resting = resting
transferred (serving lba left polls) = serving lba left polls
transferred (offering lba zero) = resting
transferred (offering lba (suc left)) = serving (lba + 1) left 2

abbrev block_of : Drive → ℕ
block_of d = d.head % 16 * 2 ^ 24 + d.high * 2 ^ 16 + d.middle * 256 + d.low

abbrev drive_outb : ℕ → ℕ → Drive → Drive
drive_outb port v d =
    if port == 0x1F6
    then record d { head = v }
    else if port == 0x1F2
    then record d { count = v }
    else if port == 0x1F3
    then record d { low = v }
    else if port == 0x1F4
    then record d { middle = v }
    else if port == 0x1F5
    then record d { high = v }
    else if port == 0x1F7 && v == 0x20
    then record d { phase = started (block_of d) d.count }
    else d

abbrev drive_io : PortIo
drive_io = record {
  Dev = Drive;
  inb = λ port d.
      if port == 0x1F7 then (status_of d.phase, record d { phase = polled d.phase }) else (0x40, d);
  outb = drive_outb;
  insw = λ port n d. (words_of d.phase, record d { phase = transferred d.phase });
  outsw = λ port bytes d. d;
}

abbrev master : Ata
master = record { ata_initialized = true; ata_base = 0x1F0; ata_ctrl = 0x3F6; ata_drive = 0 }

abbrev drive_disk : AtaDisk drive_io 0x1F0 0x3F6
drive_disk = record {
  Idle = λ d. d.phase ≡ resting;
  Selected = λ head d. (d.phase ≡ resting) × (d.head ≡ head);
  Serving = λ lba left polls d. d.phase ≡ serving lba left polls;
  Ready = λ lba left d. d.phase ≡ offering lba left;
  sector = sector_of;
  idle_status = λ d v. (ap (λ p. status_of p / 128 % 2 == 1) v, ap polled v);
  idle_ctrl = λ d v. v;
  select = λ head d v. (v, refl);
  selected_ctrl = λ head d v. v;
  start = λ head left lo mid hi d h few v. (
    3,
    omega arith,
    ap (λ k. serving (k % 16 * 2 ^ 24 + hi * 2 ^ 16 + mid * 256 + lo) left 3) v.1,
  );
  serving_ctrl = λ lba left polls d v. v;
  busy = λ lba left polls d v.
      (ap (λ p. status_of p / 128 % 2 == 1) v, ap (λ p. status_of p % 2 == 1) v, ap polled v);
  ready = λ lba left d v. (
    ap (λ p. status_of p / 128 % 2 == 1) v,
    ap (λ p. status_of p / 8 % 2 == 1) v,
    ap (λ p. status_of p % 2 == 1) v,
    ap polled v,
  );
  transfer_last = λ lba d v. (ap words_of v, ap transferred v);
  transfer = λ lba left d v. (ap words_of v, (2, omega arith, ap transferred v));
}

abbrev at_rest : Drive
at_rest = record { phase = resting; head = 0; count = 0; low = 0; middle = 0; high = 0 }

ata_read_sectors-HasRead_example :
    HasRead drive_io master drive_disk 70000 2 (ata_read_sectors drive_io 70000 2 master at_rest).0
ata_read_sectors-HasRead_example =
    ata_read_sectors-HasRead drive_io master drive_disk 70000 1 at_rest refl refl (omega arith)
      (omega arith) refl
