-- ===== src/SimpleDisk.antt =====
-- MP7_Sources/simple_disk.H and simple_disk.C: class IDEController, the driver of an ATA disk on the primary channel,
-- and class SimpleDisk, which passes on to it. The machine behind the ports is a parameter. MP6_Sources/simple_disk.C
-- has the same text with other names.
pub mod Drive
pub mod Command
pub mod Transfer
pub mod RoundTrip
pub mod Device
pub mod Emulated
mod Tests
use csce410_611_spring2026_p.Base.Run.{Run, ok, halted, out_of_fuel, ◌>>=◌}
use csce410_611_spring2026_p.Base.{
  ℕ, zero, suc, ◌+◌, ◌-◌, ◌*◌, ◌%◌, ◌<◌, ◌≤◌, ◌≡◌, ◌≢◌, refl, sym, ap, ◌∙◌, inl, inr, ◌⊎◌, Bool,
  true, false, ◌&&◌, ◌||◌, ◌/◌, ◌^◌, Option, some, none, List, [], ◌∷◌, ◌++◌, arith, ltb, ◌==◌,
  if◌then◌else◌, put, put_ne, put_self, ℕ_discrete, dec_lt, copy, field_of, with_field,
  with_field-lt, field_of-with_field, field_of-put, length, Bool-cases, word_size, leb,
}

-- `Machine::inportb`, `inportw`, `outportb` and `outportw`: what a port reads, and the machine afterwards
pub record PortBus (M : Type 0) : Type 0 where
  pub inportb : M → ℕ → ℕ × M
  pub inportw : M → ℕ → ℕ × M
  pub outportb : M → (port value : ℕ) → M
  pub outportw : M → (port value : ℕ) → M

-- `enum class DISK_OPERATION`
pub data DiskOperation : Type 0 where
  read_operation write_operation : DiskOperation

-- `v & (1 << k)` as a test
abbrev pub has_bit : (k v : ℕ) → Bool
has_bit k v = v / 2 ^ k % 2 == 1

-- The port that `ide_read` and `ide_write` compute for a register
unfoldable pub ide_port : ℕ → Option ℕ
ide_port reg =
    if ltb reg 0x08
    then some (0x1F0 + reg)
    else if ltb reg 0x0C
    then some (0x1F0 + reg - 0x06)
    else if ltb reg 0x0E
    then some (0x3F6 + reg - 0x0A)
    else if ltb reg 0x16
    then some (reg - 0x0E)
    else none

-- The byte for port 0x1F6: the top four of the 28 bits of the block number, with the bits 0xE0
abbrev pub drive_byte : ℕ → ℕ
drive_byte block_no = 0xE0 + block_no / 2 ^ 24 % 256 % 16

-- The word of two bytes of a buffer of `unsigned char`
abbrev pub buffer_word : (ℕ → ℕ) → ℕ → ℕ
buffer_word buf i = buf (2 * i) % 256 + 256 * (buf (2 * i + 1) % 256)

-- The command byte
abbrev pub command_of : DiskOperation → ℕ
command_of read_operation = 0x20
command_of write_operation = 0x30

-- The checks of `ide_polling` on the status
unfoldable pub check_state : ℕ → ℕ
check_state state =
    if has_bit 0 state then 2 else if has_bit 5 state then 1 else if has_bit 3 state then 0 else 3

module _ {M : Type 0} ⦃bus : PortBus M⦄ where
  -- `ide_read`; `raw` is what `result` holds before it is set.
  unfoldable pub ide_read : (raw : ℕ) → M → ℕ → ℕ × M
  unfolding ide_port
  ide_read raw m reg = elim (ide_port reg) [ none ↦ (raw, m) | some port ↦ bus.inportb m port ]

  unfoldable pub ide_write : M → (reg value : ℕ) → M
  unfolding ide_port
  ide_write m reg value = elim (ide_port reg) [ none ↦ m | some port ↦ bus.outportb m port value ]

  abbrev pub get_status : M → ℕ × M
  get_status m = bus.inportb m 0x1F7

  -- `while (get_status() & ATA_STATUS_BSY)`
  unfoldable pub wait_while_busy : (fuel : ℕ) → M → Run M
  wait_while_busy zero m = out_of_fuel
  wait_while_busy (suc fuel) m =
      let (status, m') = get_status m in
      elim (has_bit 7 status) [ false ↦ ok m' | true ↦ wait_while_busy fuel m' ]

  -- The reads of the alternate status that pass the time, with `k` left
  unfoldable pub delay : (k raw : ℕ) → M → M
  unfolding ide_read
  delay zero raw m = m
  delay (suc k) raw m = delay k raw (ide_read raw m 0x0C).1

  -- `ide_polling`
  unfoldable pub ide_polling : (fuel raw : ℕ) (advanced_check : Bool) → M → Run (ℕ × M)
  unfolding wait_while_busy delay check_state
  ide_polling fuel raw advanced_check m = wait_while_busy fuel (delay 4 raw m) >>= (λ m₁.
      if advanced_check
      then (let (state, m₂) = get_status m₁ in ok (check_state state, m₂))
      else ok (0, m₁))

  -- The parameters of a command, and then the command
  unfoldable pub send_command : DiskOperation → (block_no : ℕ) → M → M
  send_command operation block_no m =
      let m₂ = bus.outportb m 0x1F2 0x01 in
      let m₃ = bus.outportb m₂ 0x1F3 (block_no % 256) in
      let m₄ = bus.outportb m₃ 0x1F4 (block_no / 2 ^ 8 % 256) in
      let m₅ = bus.outportb m₄ 0x1F5 (block_no / 2 ^ 16 % 256) in
      let m₆ = bus.outportb m₅ 0x1F6 (drive_byte block_no) in
      bus.outportb m₆ 0x1F7 (command_of operation)

  -- `ide_ata_issue_command`
  unfoldable pub ide_ata_issue_command : (fuel : ℕ) → DiskOperation → (block_no : ℕ) → M → Run M
  unfolding wait_while_busy send_command
  ide_ata_issue_command fuel operation block_no m =
      wait_while_busy fuel m >>= (λ m'. ok (send_command operation block_no m'))

  -- `assert(ide_polling(advanced_check) == 0)`
  unfoldable pub polled : (fuel raw : ℕ) (advanced_check : Bool) → M → Run M
  unfolding ide_polling
  polled fuel raw advanced_check m =
      ide_polling fuel raw advanced_check m >>= (λ r. if r.0 == 0 then ok r.1 else halted)

  -- The loop of `ata_read_block`, with `k` rounds left, at the word `i`
  unfoldable pub read_words : (k i : ℕ) → M → (ℕ → ℕ) → (ℕ → ℕ) × M
  read_words zero i m buf = (buf, m)
  read_words (suc k) i m buf =
      let (w, m') = bus.inportw m 0x1F0 in
      read_words k (i + 1) m' (put (put buf (i * 2) (w % 256)) (i * 2 + 1) (w / 256 % 256))

  -- The loop of `ata_write_block`
  unfoldable pub write_words : (k i : ℕ) → (ℕ → ℕ) → M → M
  write_words zero i buf m = m
  write_words (suc k) i buf m = write_words k (i + 1) buf (bus.outportw m 0x1F0 (buffer_word buf i))

  -- `ata_read_block`, and `SimpleDisk::read`: the buffer and the machine
  unfoldable pub ata_read_block : (fuel raw block_no : ℕ) → (buf : ℕ → ℕ) → M → Run ((ℕ → ℕ) × M)
  unfolding ide_ata_issue_command polled read_words
  ata_read_block fuel raw block_no buf m =
      ide_ata_issue_command fuel read_operation block_no m
      >>= polled fuel raw true
      >>= (λ m'. ok (read_words 256 0 m' buf))

  -- `ata_write_block`, and `SimpleDisk::write`
  unfoldable pub ata_write_block : (fuel raw block_no : ℕ) → (buf : ℕ → ℕ) → M → Run M
  unfolding ide_ata_issue_command polled write_words ide_write
  ata_write_block fuel raw block_no buf m =
      ide_ata_issue_command fuel write_operation block_no m
      >>= polled fuel raw false
      >>= (λ m'. polled fuel raw false (ide_write (write_words 256 0 buf m') 0x07 0xE7))
