-- ===== src/Ata/Blocks.antt =====
-- `disk_read_lba` and `disk_write_lba` of src/handlers.c on a drive that follows the ATA protocol.
use mathlib.Core.Path.{subst}
use mathlib.Core.List.{append-nil}
use ro_dos.Prelude.{
  ℕ, zero, suc, ◌+◌, ◌*◌, ◌/◌, ◌%◌, ◌^◌, ◌<◌, ◌≡◌, refl, ap, ◌∙◌, Bool, true, false, none, some,
  List, arith, ltb, if◌then◌else◌, length, take, take-all,
}
use ro_dos.Prelude.Int.{pos, is_zero}
use ro_dos.Ata.{PortIo, drive_select}
use ro_dos.Ata.Drive.{Drive, command_of}
use ro_dos.Ata.Handlers.{
  poll_data, poll_busy, small_delay, send_block, lba_reads, lba_writes, disk_read_lba,
  disk_write_lba,
}
use ro_dos.Fs.Device.{BlockDevice}
use ro_dos.Fs.Disk.Simulation.{Implements, written}

-- The device that `disk_read_lba` and `disk_write_lba` make of the ports, for one block at a time.
abbrev pub port_device : PortIo → BlockDevice
port_device io = record {
  Disk = io.Dev;
  read = λ lba d.
      let r = disk_read_lba io lba 1 d in (if is_zero r.0 then some r.1.0 else none, r.1.1);
  write = λ lba b d. let r = disk_write_lba io lba 1 b d in (is_zero r.0, r.1);
}

module _ (io : PortIo) (drive : Drive io) where
  poll_data_lem :
      (n polls : ℕ) (writes : Bool) (lba : ℕ) (d : io.Dev) (f : ℕ → List ℕ)
      → polls + 1 < n
      → drive.Serving writes lba polls d f
      → ((poll_data io n d).0 ≡ true) × drive.Serving writes lba 0 (poll_data io n d).1 f
  unfolding poll_data
  poll_data_lem zero polls writes lba d f h v = absurd (omega arith)
  poll_data_lem (suc n) zero writes lba d f h v =
      let (b, w, e, r) = drive.ready writes lba d f v in
      let some_left : ltb 0 n ≡ true = ground arith in rw (e, b, w) (some_left, r)
  poll_data_lem (suc n) (suc polls) writes lba d f h v =
      let (b, e, r) = drive.busy writes lba polls d f v in
      rw (e, b) (poll_data_lem n polls writes lba (io.inb 0x1F7 d).1 f (omega arith) r)

  poll_busy_lem :
      (n polls : ℕ) (d : io.Dev) (f : ℕ → List ℕ)
      → polls + 1 < n
      → drive.Storing polls d f
      → ((poll_busy io n d).0 ≡ true) × drive.Idle (poll_busy io n d).1 f
  unfolding poll_busy
  poll_busy_lem zero polls d f h v = absurd (omega arith)
  poll_busy_lem (suc n) zero d f h v =
      let (b, r) = drive.stored d f v in
      let some_left : ltb 0 n ≡ true = ground arith in rw b (some_left, r)
  poll_busy_lem (suc n) (suc polls) d f h v =
      let (b, r) = drive.storing polls d f v in
      rw b (poll_busy_lem n polls (io.inb 0x1F7 d).1 f (omega arith) r)

  -- A poll brings the data nearer.
  nearer :
      (writes : Bool) (lba polls : ℕ) (d : io.Dev) (f : ℕ → List ℕ)
      → polls < 99999
      → drive.Serving writes lba polls d f
      → (fewer : ℕ) × (fewer < 99999) × drive.Serving writes lba fewer (io.inb 0x1F7 d).1 f
  nearer writes lba zero d f h v = let (_, _, _, r) = drive.ready writes lba d f v in (0, h, r)
  nearer writes lba (suc polls) d f h v =
      let (_, _, r) = drive.busy writes lba polls d f v in (polls, omega arith, r)

  -- The registers of a block below 2 ^ 28, and the four polls behind them.
  send_block_lem :
      (writes : Bool) (lba : ℕ) (d : io.Dev) (f : ℕ → List ℕ)
      → lba < 2 ^ 28
      → drive.Selected (drive_select 0 lba) d f
      → (polls : ℕ) × (polls < 99999)
        × drive.Serving writes lba polls (send_block io (command_of writes) lba 1 d) f
  unfolding send_block small_delay
  send_block_lem writes lba d f low v =
      let head = drive_select 0 lba in
      let (polls, few, serving) =
        drive.start writes head (lba % 256) (lba / 256 % 256) (lba / 2 ^ 16 % 256) d f
          (omega (arith, low)) v in
      let block : head % 16 * 2 ^ 24
            + lba / 2 ^ 16 % 256 * 2 ^ 16
            + lba / 256 % 256 * 256
            + lba % 256
          ≡ lba =
        omega (arith, low) in
      let sent = io.outb 0x1F7 (command_of writes) (
        io.outb 0x1F5 (lba / 2 ^ 16 % 256)
          (io.outb 0x1F4 (lba / 256 % 256) (io.outb 0x1F3 (lba % 256) (io.outb 0x1F2 1 d)))) in
      let at_lba = subst (λ k. drive.Serving writes k polls sent f) block serving in
      let (p1, h1, v1) = nearer writes lba polls sent f few at_lba in
      let (p2, h2, v2) = nearer writes lba p1 _ f h1 v1 in
      let (p3, h3, v3) = nearer writes lba p2 _ f h2 v2 in nearer writes lba p3 _ f h3 v3

  -- A drive that was selected is not busy.
  poll-Selected :
      (n head : ℕ) (d : io.Dev) (f : ℕ → List ℕ)
      → 1 < n
      → drive.Selected head d f
      → ((poll_busy io n d).0 ≡ true) × drive.Selected head (poll_busy io n d).1 f
  unfolding poll_busy
  poll-Selected zero head d f h v = absurd (omega arith)
  poll-Selected (suc n) head d f h v =
      let (b, r) = drive.selected head d f v in
      let some_left : ltb 0 n ≡ true = ground arith in rw b (some_left, r)

  lba_reads_lem :
      (lba polls : ℕ) (d : io.Dev) (f : ℕ → List ℕ)
      → polls < 99999
      → drive.Serving false lba polls d f
      → ((lba_reads io 1 d).0 ≡ pos 0)
        × ((lba_reads io 1 d).1.0 ≡ f lba)
        × drive.Idle (lba_reads io 1 d).1.1 f
  unfolding lba_reads
  lba_reads_lem lba polls d f h v =
      let (ok, serving) = poll_data_lem 100000 polls false lba d f (omega arith) v in
      let (bytes, idle) = drive.fetch lba (poll_data io 100000 d).1 f serving in
      rw ok (refl, append-nil (io.insw 0x1F0 256 (poll_data io 100000 d).1).0 ∙ bytes, idle)

  read_lem :
      (lba : ℕ) (d : io.Dev) (f : ℕ → List ℕ)
      → lba < 2 ^ 28
      → drive.Idle d f
      → ((disk_read_lba io lba 1 d).0 ≡ pos 0)
        × ((disk_read_lba io lba 1 d).1.0 ≡ f lba)
        × drive.Idle (disk_read_lba io lba 1 d).1.1 f
  unfolding disk_read_lba
  read_lem lba d f low v =
      let head = drive_select 0 lba in
      let chosen = io.outb 0x1F6 head d in
      let (polls, few, serving) = send_block_lem false lba chosen f low (drive.select head d f v) in
      lba_reads_lem lba polls (send_block io 0x20 lba 1 chosen) f few serving

  lba_writes_lem :
      (lba polls : ℕ) (b : List ℕ) (d : io.Dev) (f : ℕ → List ℕ)
      → length b ≡ 512
      → polls < 99999
      → drive.Serving true lba polls d f
      → ((lba_writes io 1 b d).0 ≡ pos 0) × drive.Idle (lba_writes io 1 b d).1 (written lba b f)
  unfolding lba_writes
  lba_writes_lem lba polls b d f size h v =
      let (ok, serving) = poll_data_lem 1000000 polls true lba d f (omega arith) v in
      let ready = (poll_data io 1000000 d).1 in
      let (more, few, storing) = drive.store lba b ready f size serving in
      let (done, idle) =
        poll_busy_lem 1000000 more (io.outsw 0x1F0 b ready) (written lba b f) (omega arith)
          storing in
      let whole : take 512 b ≡ b = take-all 512 b (omega arith) in rw (ok, whole, done) (refl, idle)

  write_lem :
      (lba : ℕ) (b : List ℕ) (d : io.Dev) (f : ℕ → List ℕ)
      → lba < 2 ^ 28
      → length b ≡ 512
      → drive.Idle d f
      → ((disk_write_lba io lba 1 b d).0 ≡ pos 0)
        × drive.Idle (disk_write_lba io lba 1 b d).1 (written lba b f)
  unfolding disk_write_lba
  write_lem lba b d f low size v =
      let head = drive_select 0 lba in
      let (ok, chosen) =
        poll-Selected 1000000 head (io.outb 0x1F6 head d) f (omega arith)
          (drive.select head d f v) in
      let now = (poll_busy io 1000000 (io.outb 0x1F6 head d)).1 in
      let (polls, few, serving) = send_block_lem true lba now f low chosen in
      let (done, idle) =
        lba_writes_lem lba polls b (send_block io 0x30 lba 1 now) f size few serving in
      let after = (lba_writes io 1 b (send_block io 0x30 lba 1 now)).1 in
      let (more, short, storing) = drive.flush after (written lba b f) idle in
      let (_, flushed) =
        poll_busy_lem 1000000 more (io.outb 0x1F7 0xE7 after) (written lba b f) (omega arith)
          storing in
      let zero_result : is_zero (lba_writes io 1 b (send_block io 0x30 lba 1 now)).0 ≡ true =
        ap is_zero done in
      rw (ok, zero_result) (refl, flushed)

  -- `disk_read_lba` and `disk_write_lba` on such a drive behave as an array of sectors.
  pub port_device-Implements : Implements (port_device io) drive.Idle
  port_device-Implements = record {
    reads = λ lba d f low v.
        let (ok, bytes, idle) = read_lem lba d f low v in (rw ok (ap some bytes), idle);
    writes = λ lba b d f low size v.
        let (ok, idle) = write_lem lba b d f low size v in (ap is_zero ok, idle);
  }
