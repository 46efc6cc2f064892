-- ===== src/SimpleDisk/Command.antt =====
-- MP7_Sources/simple_disk.C: polling and commands on a working drive.
use csce410_611_spring2026_p.Base.Run.{ok}
use csce410_611_spring2026_p.SimpleDisk.{
  PortBus, DiskOperation, read_operation, write_operation, has_bit, ide_read, ide_port,
  wait_while_busy, delay, check_state, ide_polling, polled, drive_byte, send_command,
  ide_ata_issue_command, command_of,
}
use csce410_611_spring2026_p.SimpleDisk.Drive.{
  Phase, idle, sending, receiving, DriveView, selected, IsAddressed, transfers, AtaDrive,
}
use csce410_611_spring2026_p.Base.{
  ℕ, zero, suc, ◌%◌, ◌<◌, ◌≤◌, ◌≡◌, refl, ap, ◌∙◌, Bool, true, false, ◌/◌, ◌^◌, arith, put,
}

-- The phase that a command starts
abbrev pub started : DiskOperation → ℕ → Phase
started read_operation b = sending b 0
started write_operation b = receiving b 0

-- The registers for a block number
abbrev pub addressed : (ℕ → ℕ) → ℕ → ℕ → ℕ
addressed r block_no =
    put
      (put (put (put (put r 0x1F2 1) 0x1F3 (block_no % 256)) 0x1F4 (block_no / 2 ^ 8 % 256)) 0x1F5
        (block_no / 2 ^ 16 % 256))
      0x1F6 (drive_byte block_no)

-- The registers select the block number modulo 2 ^ 28.
pub selected-addressed :
    (r : ℕ → ℕ) (block_no : ℕ) → selected (addressed r block_no) ≡ block_no % 2 ^ 28
selected-addressed r block_no = omega arith

addressed-IsAddressed :
    (blocks : ℕ) (r : ℕ → ℕ) (block_no : ℕ)
    → block_no % 2 ^ 28 < blocks
    → IsAddressed blocks (addressed r block_no)
addressed-IsAddressed blocks r block_no h = record {
  one_block = refl;
  mode = omega arith;
  in_range = rw (selected-addressed r block_no) h;
}

module _ {M : Type 0} ⦃bus : PortBus M⦄ ⦃drive : AtaDrive M⦄ where
  wait_while_busy_lem :
      (fuel k : ℕ) (m : M)
      → (drive.view m).busy ≡ k
      → k < fuel
      → (m' : M) × (wait_while_busy fuel m ≡ ok m')
        × (drive.view m' ≡ record (drive.view m) { busy = 0 })
  unfolding wait_while_busy
  wait_while_busy_lem zero k m e h = absurd (omega arith)
  wait_while_busy_lem (suc fuel) zero m e h =
      let (ready, a, b, c, same) = drive.status_ready m e in
      (
        (bus.inportb m 0x1F7).1,
        rw (ready, wait_while_busy) refl,
        same ∙ ap (λ k. record (drive.view m) { busy = k }) e,
      )
  wait_while_busy_lem (suc fuel) (suc k) m e h =
      let (busy, next) = drive.status_busy m k e in
      let (m', done, view) =
        wait_while_busy_lem fuel k (bus.inportb m 0x1F7).1 (rw next refl) (omega arith) in
      (m', rw (busy, wait_while_busy) done, view ∙ rw next refl)

  delay_lem : (k raw : ℕ) (m : M) → drive.view (delay k raw m) ≡ drive.view m
  unfolding delay ide_read ide_port
  delay_lem zero raw m = refl
  delay_lem (suc k) raw m = delay_lem k raw _ ∙ drive.other_port m 0x3F8 (omega arith)

  -- Polling of a working drive ends without an error, once the drive is no longer busy.
  pub polled_lem :
      (fuel raw : ℕ) (advanced_check : Bool) (m : M) (v : DriveView)
      → drive.view m ≡ v
      → v.busy < fuel
      → (advanced_check ≡ true → transfers v.phase ≡ true)
      → (m' : M) × (polled fuel raw advanced_check m ≡ ok m')
        × (drive.view m' ≡ record v { busy = 0 })
  unfolding polled ide_polling check_state
  polled_lem fuel raw false m v e h waits =
      let still : drive.view (delay 4 raw m) ≡ v = delay_lem 4 raw m ∙ e in
      let (m', done, view) = wait_while_busy_lem fuel v.busy (delay 4 raw m) (rw still refl) h in
      (m', rw done refl, view ∙ rw still refl)
  polled_lem fuel raw true m v e h waits =
      let still : drive.view (delay 4 raw m) ≡ v = delay_lem 4 raw m ∙ e in
      let (m', done, view) = wait_while_busy_lem fuel v.busy (delay 4 raw m) (rw still refl) h in
      let now : drive.view m' ≡ record v { busy = 0 } = view ∙ rw still refl in
      let (ready, no_error, no_fault, request, same) = drive.status_ready m' (rw now refl) in
      let asked : has_bit 3 (bus.inportb m' 0x1F7).0 ≡ true = request ∙ rw now (waits refl) in
      ((bus.inportb m' 0x1F7).1, rw done (rw (no_error, no_fault, asked) refl), same ∙ now)

  set_register_lem :
      (m : M) (v : DriveView) (port value : ℕ)
      → drive.view m ≡ v
      → v.phase ≡ idle
      → v.busy ≡ 0
      → 0x1F2 ≤ port
      → port ≤ 0x1F6
      → value < 256
      → drive.view (bus.outportb m port value) ≡ record v { registers = put v.registers port value }
  set_register_lem m v port value e rest ready lo hi small =
      drive.set_register m port value lo hi small (rw e rest) (rw e ready) ∙ rw e refl

  addressed_lem :
      (m : M) (v : DriveView) (block_no : ℕ)
      → drive.view m ≡ v
      → v.phase ≡ idle
      → v.busy ≡ 0
      → (m' : M) × ((operation : DiskOperation)
          → send_command operation block_no m ≡ bus.outportb m' 0x1F7 (command_of operation))
        × (drive.view m' ≡ record v { registers = addressed v.registers block_no })
  unfolding send_command
  addressed_lem m v block_no e rest ready =
      let e₂ =
        set_register_lem m v 0x1F2 1 e rest ready (omega arith) (omega arith) (omega arith) in
      let e₃ =
        set_register_lem _ _ 0x1F3 (block_no % 256) e₂ rest ready (omega arith) (omega arith)
          (omega arith) in
      let e₄ =
        set_register_lem _ _ 0x1F4 (block_no / 2 ^ 8 % 256) e₃ rest ready (omega arith)
          (omega arith) (omega arith) in
      let e₅ =
        set_register_lem _ _ 0x1F5 (block_no / 2 ^ 16 % 256) e₄ rest ready (omega arith)
          (omega arith) (omega arith) in
      let e₆ =
        set_register_lem _ _ 0x1F6 (drive_byte block_no) e₅ rest ready (omega arith) (omega arith)
          (omega arith) in
      (_, λ operation. refl, e₆)

  command_lem :
      (operation : DiskOperation) (m : M) (v : DriveView) (block_no : ℕ)
      → drive.view m ≡ record v { registers = addressed v.registers block_no; busy = 0 }
      → v.phase ≡ idle
      → IsAddressed drive.blocks (addressed v.registers block_no)
      → (k : ℕ) × (k ≤ drive.slowest)
        × (drive.view (bus.outportb m 0x1F7 (command_of operation)) ≡ record v {
          registers = addressed v.registers block_no;
          phase = started operation (block_no % 2 ^ 28);
          busy = k;
        })
  command_lem read_operation m v block_no e rest target =
      let (k, below, view) = drive.command_read m (rw e rest) (rw e refl) (rw e target) in
      (k, below, view ∙ rw (e, selected-addressed v.registers block_no) refl)
  command_lem write_operation m v block_no e rest target =
      let (k, below, view) = drive.command_write m (rw e rest) (rw e refl) (rw e target) in
      (k, below, view ∙ rw (e, selected-addressed v.registers block_no) refl)

  -- A command on a drive that waits for one, with fuel for the reads of a busy status
  pub issue_lem :
      (fuel : ℕ) (operation : DiskOperation) (block_no : ℕ) (m : M) (v : DriveView)
      → drive.view m ≡ v
      → v.phase ≡ idle
      → v.busy < fuel
      → block_no % 2 ^ 28 < drive.blocks
      → (m' : M) × (k : ℕ) × (ide_ata_issue_command fuel operation block_no m ≡ ok m')
        × (k ≤ drive.slowest)
        × (drive.view m' ≡ record v {
          registers = addressed v.registers block_no;
          phase = started operation (block_no % 2 ^ 28);
          busy = k;
        })
  unfolding ide_ata_issue_command
  issue_lem fuel operation block_no m v e rest h inside =
      let (m₁, done, view) = wait_while_busy_lem fuel v.busy m (rw e refl) h in
      let now : drive.view m₁ ≡ record v { busy = 0 } = view ∙ rw e refl in
      let (m₂, sent, ready) = addressed_lem m₁ (record v { busy = 0 }) block_no now rest refl in
      let target = addressed-IsAddressed drive.blocks v.registers block_no inside in
      let (k, below, view') = command_lem operation m₂ v block_no ready rest target in
      (
        bus.outportb m₂ 0x1F7 (command_of operation),
        k,
        rw done (ap ok (sent operation)),
        below,
        view',
      )
