-- ===== src/Ata/Handlers.antt =====
-- `disk_read_lba` and `disk_write_lba` of src/handlers.c, which use the master of the primary bus.
use ro_dos.Prelude.{
  ℕ, zero, suc, ◌/◌, ◌%◌, ◌^◌, Bool, false, not, ◌&&◌, List, [], ◌++◌, ltb, if◌then◌else◌, take,
  drop,
}
use ro_dos.Prelude.Int.{ℤ, pos, is_zero, minus_one}
use ro_dos.Ata.{PortIo, is_busy, wants_data, has_error, drive_select}

module _ (io : PortIo) where
  -- Waits for data; `timeout` is what the test of the loop reads. The result is whether it is above 0
  -- behind the loop, and no error was seen.
  unfoldable pub poll_data : ℕ → io.Dev → Bool × io.Dev
  poll_data zero d = (false, d)
  poll_data (suc timeout) d =
      let r = io.inb 0x1F7 d in
      let rest = poll_data timeout r.1 in
      if has_error r.0
      then (false, r.1)
      else if not (is_busy r.0) && wants_data r.0
      then (ltb 0 timeout, r.1)
      else rest

  -- The same for a drive that is busy; errors do not count.
  unfoldable pub poll_busy : ℕ → io.Dev → Bool × io.Dev
  poll_busy zero d = (false, d)
  poll_busy (suc timeout) d =
      let r = io.inb 0x1F7 d in
      let rest = poll_busy timeout r.1 in if is_busy r.0 then rest else (ltb 0 timeout, r.1)

  -- Four reads of the status.
  unfoldable pub small_delay : io.Dev → io.Dev
  small_delay d = (io.inb 0x1F7 (io.inb 0x1F7 (io.inb 0x1F7 (io.inb 0x1F7 d).1).1).1).1

  unfoldable pub send_block : ℕ → ℕ → ℕ → io.Dev → io.Dev
  send_block command lba count d = small_delay (
      io.outb 0x1F7 command (
        io.outb 0x1F5 (lba / 2 ^ 16 % 256) (
          io.outb 0x1F4 (lba / 256 % 256)
            (io.outb 0x1F3 (lba % 256) (io.outb 0x1F2 (count % 256) d)))))

  unfoldable pub lba_reads : ℕ → io.Dev → ℤ × (List ℕ × io.Dev)
  lba_reads zero d = (pos 0, ([], d))
  lba_reads (suc count) d =
      let w = poll_data 100000 d in
      let r = io.insw 0x1F0 256 w.1 in
      let rest = lba_reads count r.1 in
      if w.0 then (rest.0, (r.0 ++ rest.1.0, rest.1.1)) else (minus_one, ([], w.1))

  unfoldable pub disk_read_lba : ℕ → ℕ → io.Dev → ℤ × (List ℕ × io.Dev)
  disk_read_lba lba count d =
      lba_reads count (send_block 0x20 lba count (io.outb 0x1F6 (drive_select 0 lba) d))

  unfoldable pub lba_writes : ℕ → List ℕ → io.Dev → ℤ × io.Dev
  lba_writes zero bytes d = (pos 0, d)
  lba_writes (suc count) bytes d =
      let w = poll_data 1000000 d in
      let done = poll_busy 1000000 (io.outsw 0x1F0 (take 512 bytes) w.1) in
      let rest = lba_writes count (drop 512 bytes) done.1 in
      if w.0 then (if done.0 then rest else (minus_one, done.1)) else (minus_one, w.1)

  unfoldable pub disk_write_lba : ℕ → ℕ → List ℕ → io.Dev → ℤ × io.Dev
  disk_write_lba lba count bytes d =
      let w = poll_busy 1000000 (io.outb 0x1F6 (drive_select 0 lba) d) in
      let r = lba_writes count bytes (send_block 0x30 lba count w.1) in
      if w.0
      then (if is_zero r.0 then (pos 0, (poll_busy 1000000 (io.outb 0x1F7 0xE7 r.1)).1) else r)
      else (minus_one, w.1)
