-- ===== src/Ata/Reading.antt =====
-- Reading with src/drivers/ata.c from a disk that follows the protocol.
use mathlib.Core.Path.{ap₂, subst}
use ro_dos.Prelude.{
  ℕ, zero, suc, ◌+◌, ◌*◌, ◌/◌, ◌%◌, ◌^◌, ◌<◌, ◌≡◌, refl, sym, ap, true, false, List, [], ◌++◌,
  arith, ◌==◌, if◌then◌else◌,
}
use ro_dos.Prelude.Int.{ℤ, pos, is_zero, minus_one}
use ro_dos.Ata.Protocol.{AtaDisk}
use ro_dos.Ata.{
  Ata, PortIo, ata_delay, ata_wait_ready, ata_wait_drq, drive_select, send_command, read_loop,
  read_ready, ata_read_sectors, ata_init,
}

module _ (io : PortIo) (s : Ata) (disk : AtaDisk io s.ata_base s.ata_ctrl) where
  -- The sectors from a block on.
  abbrev pub sectors : ℕ → ℕ → List ℕ
  sectors lba zero = []
  sectors lba (suc n) = disk.sector lba ++ sectors (lba + 1) n

  wait_idle :
      (n : ℕ) (d : io.Dev)
      → 0 < n
      → disk.Idle d
      → ((ata_wait_ready io n s.ata_base d).0 ≡ pos 0)
        × disk.Idle (ata_wait_ready io n s.ata_base d).1
  unfolding ata_wait_ready
  wait_idle zero d h v = absurd (omega arith)
  wait_idle (suc n) d h v = let (e, w) = disk.idle_status d v in rw e (refl, w)

  wait_serving :
      (n polls lba left : ℕ) (d : io.Dev)
      → polls < n
      → disk.Serving lba left polls d
      → ((ata_wait_drq io n s.ata_base d).0 ≡ pos 0)
        × disk.Ready lba left (ata_wait_drq io n s.ata_base d).1
  unfolding ata_wait_drq
  wait_serving zero polls lba left d h v = absurd (omega arith)
  wait_serving (suc n) zero lba left d h v =
      let (b, w, e, r) = disk.ready lba left d v in rw (e, b, w) (refl, r)
  wait_serving (suc n) (suc polls) lba left d h v =
      let (b, e, r) = disk.busy lba left polls d v in
      rw (e, b) (wait_serving n polls lba left (io.inb (s.ata_base + 7) d).1 (omega arith) r)

  delay_idle : (d : io.Dev) → disk.Idle d → disk.Idle (ata_delay io s.ata_ctrl d)
  unfolding ata_delay
  delay_idle d v = disk.idle_ctrl _ (disk.idle_ctrl _ (disk.idle_ctrl _ (disk.idle_ctrl d v)))

  delay_serving :
      (lba left polls : ℕ) (d : io.Dev)
      → disk.Serving lba left polls d
      → disk.Serving lba left polls (ata_delay io s.ata_ctrl d)
  unfolding ata_delay
  delay_serving lba left polls d v = disk.serving_ctrl lba left polls _ (
      disk.serving_ctrl lba left polls _
        (disk.serving_ctrl lba left polls _ (disk.serving_ctrl lba left polls d v)))

  delay-Selected :
      (head : ℕ) (d : io.Dev)
      → disk.Selected head d
      → disk.Selected head (ata_delay io s.ata_ctrl d)
  unfolding ata_delay
  delay-Selected head d v =
      disk.selected_ctrl head _
        (disk.selected_ctrl head _ (disk.selected_ctrl head _ (disk.selected_ctrl head d v)))

  -- The result of a read that went well.
  abbrev pub HasRead : ℕ → ℕ → ℤ × (List ℕ × io.Dev) → Type 0
  HasRead lba count r = (r.0 ≡ pos 0) × (r.1.0 ≡ sectors lba count) × disk.Idle r.1.1

  -- One round of the loop, when the disk serves a block.
  round_lem :
      (left lba polls count : ℕ) (d : io.Dev)
      → polls < 100000
      → disk.Serving lba left polls d
      → (e : io.Dev) × disk.Ready lba left e
        × (read_loop io (suc count) s d ≡ (
            let r = io.insw s.ata_base 256 e in
            let rest = read_loop io count s (ata_delay io s.ata_ctrl r.1) in
            (rest.0, (r.0 ++ rest.1.0, rest.1.1))))
  unfolding read_loop
  round_lem left lba polls count d h v =
      let (e, r) = wait_serving 100000 polls lba left d h v in
      let zero_result : is_zero (ata_wait_drq io 100000 s.ata_base d).0 ≡ true = ap is_zero e in
      ((ata_wait_drq io 100000 s.ata_base d).1, r, rw zero_result refl)

  none_lem : (d : io.Dev) → read_loop io 0 s d ≡ (pos 0, ([], d))
  unfolding read_loop
  none_lem d = refl

  -- What a round puts in front of the rest.
  abbrev in_front : List ℕ → ℤ × (List ℕ × io.Dev) → ℤ × (List ℕ × io.Dev)
  in_front l rest = (rest.0, (l ++ rest.1.0, rest.1.1))

  front_lem :
      (lba count : ℕ) (rest : ℤ × (List ℕ × io.Dev)) (l : List ℕ)
      → l ≡ disk.sector lba
      → HasRead (lba + 1) count rest
      → HasRead lba (suc count) (in_front l rest)
  front_lem lba count rest l e (ok, bytes, idle) = (ok, ap₂ (λ a b. a ++ b) e bytes, idle)

  loop_lem :
      (left lba polls : ℕ) (d : io.Dev)
      → polls < 100000
      → disk.Serving lba left polls d
      → HasRead lba (suc left) (read_loop io (suc left) s d)
  loop_lem zero lba polls d h v =
      let (e, r, run) = round_lem 0 lba polls 0 d h v in
      let (same, idle) = disk.transfer_last lba e r in
      let after = delay_idle (io.insw s.ata_base 256 e).1 idle in
      subst (HasRead lba 1) (sym run) (
        front_lem lba 0 (read_loop io 0 s (ata_delay io s.ata_ctrl (io.insw s.ata_base 256 e).1))
          (io.insw s.ata_base 256 e).0 same
          (subst (HasRead (lba + 1) 0)
            (sym (none_lem (ata_delay io s.ata_ctrl (io.insw s.ata_base 256 e).1)))
            (refl, refl, after)))
  loop_lem (suc left) lba polls d h v =
      let (e, r, run) = round_lem (suc left) lba polls (suc left) d h v in
      let (same, (more, few, serving)) = disk.transfer lba left e r in
      let after = delay_serving (lba + 1) left more (io.insw s.ata_base 256 e).1 serving in
      subst (HasRead lba (suc (suc left))) (sym run) (
        front_lem lba (suc left)
          (read_loop io (suc left) s (ata_delay io s.ata_ctrl (io.insw s.ata_base 256 e).1))
          (io.insw s.ata_base 256 e).0 same
          (loop_lem left (lba + 1) more (ata_delay io s.ata_ctrl (io.insw s.ata_base 256 e).1) few
            after))

  -- The registers that are written for a block below 2 ^ 28 name it.
  command_lem :
      (lba left : ℕ) (d : io.Dev)
      → s.ata_drive ≡ 0
      → lba < 2 ^ 28
      → left < 255
      → disk.Idle d
      → (polls : ℕ) × (polls < 100000)
        × disk.Serving lba left polls (send_command io 0x20 lba (suc left) s d)
  unfolding send_command
  command_lem lba left d master low few v =
      let head = drive_select s.ata_drive lba in
      let chosen = delay-Selected head (io.outb (s.ata_base + 6) head d) (disk.select head d v) in
      let (polls, short, serving) =
        disk.start head left (lba % 256) (lba / 256 % 256) (lba / 2 ^ 16 % 256)
          (ata_delay io s.ata_ctrl (io.outb (s.ata_base + 6) head d)) (omega (arith, master, low))
          few chosen in
      let block : head % 16 * 2 ^ 24
            + lba / 2 ^ 16 % 256 * 2 ^ 16
            + lba / 256 % 256 * 256
            + lba % 256
          ≡ lba =
        omega (arith, master, low) in
      (
        polls,
        short,
        subst (λ k. disk.Serving k left polls (send_command io 0x20 lba (suc left) s d)) block
            serving,
      )

  ready_lem :
      (lba left : ℕ) (d : io.Dev)
      → s.ata_drive ≡ 0
      → lba < 2 ^ 28
      → left < 255
      → disk.Idle d
      → HasRead lba (suc left) (read_ready io lba (suc left) s d)
  unfolding read_ready
  ready_lem lba left d master low few v =
      let (e, idle) = wait_idle 100000 d (omega arith) v in
      let now = (ata_wait_ready io 100000 s.ata_base d).1 in
      let some_blocks : (suc left == 0) ≡ false = ground arith in
      let zero_result : is_zero (ata_wait_ready io 100000 s.ata_base d).0 ≡ true = ap is_zero e in
      let (polls, short, serving) = command_lem lba left now master low few idle in
      rw (some_blocks, zero_result)
        (loop_lem left lba polls (send_command io 0x20 lba (suc left) s now) short serving)

  init_lem : (d : io.Dev) → s.ata_initialized ≡ true → ata_init io s d ≡ (pos 0, (s, d))
  unfolding ata_init
  init_lem d set_up = rw set_up refl

  -- What `ata_read_sectors` does after `ata_init`.
  abbrev after_init : ℕ → ℕ → ℤ × (Ata × io.Dev) → (ℤ × (List ℕ × io.Dev)) × Ata
  after_init lba count i =
      if is_zero i.0
      then (read_ready io lba count i.1.0 i.1.1, i.1.0)
      else ((minus_one, ([], i.1.1)), i.1.0)

  -- With the master drive set up and idle, `ata_read_sectors` reads 1 to 255 blocks below 2 ^ 28: the
  -- result is 0, the buffer has the blocks one after the other, and the disk is idle again.
  pub ata_read_sectors-HasRead :
      (lba left : ℕ) (d : io.Dev)
      → s.ata_initialized ≡ true
      → s.ata_drive ≡ 0
      → lba < 2 ^ 28
      → left < 255
      → disk.Idle d
      → HasRead lba (suc left) (ata_read_sectors io lba (suc left) s d).0
  unfolding ata_read_sectors
  ata_read_sectors-HasRead lba left d set_up master low few v =
      subst (λ i. HasRead lba (suc left) (after_init lba (suc left) i).0) (sym (init_lem d set_up))
        (ready_lem lba left d master low few v)
