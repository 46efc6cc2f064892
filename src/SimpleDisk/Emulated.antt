-- ===== src/SimpleDisk/Emulated.antt =====
-- A drive in memory that meets the laws of the interface: 20480 blocks, busy for three reads of its status after a
-- command and after the last word of a block. It drops a command that comes while it is busy. Its cells hold words.
use csce410_611_spring2026_p.SimpleDisk.{PortBus, has_bit}
use csce410_611_spring2026_p.SimpleDisk.Drive.{
  Phase, idle, sending, receiving, DriveView, selected, transfers, next_phase, put_word, AtaDrive,
}
use csce410_611_spring2026_p.Base.{
  fun_ext, ℕ, zero, suc, ◌%◌, ◌<◌, ◌≤◌, ◌≡◌, ◌≢◌, refl, sym, ap, ◌∙◌, true, false, arith, ◌==◌,
  if◌then◌else◌, put, ℕ_discrete,
}

-- The status: busy, or ready with the request for data
abbrev status_of : (busy : ℕ) → Phase → ℕ
status_of (suc k) phase = 0x80
status_of zero phase = if transfers phase then 0x58 else 0x50

abbrev count_down : ℕ → ℕ
count_down zero = zero
count_down (suc k) = k

abbrev read_port : DriveView → ℕ → ℕ × DriveView
read_port m port =
    if port == 0x1F7
    then (status_of m.busy m.phase, record m { busy = count_down m.busy })
    else (0xFF, m)

abbrev data_at : Phase → (ℕ → ℕ → ℕ) → ℕ
data_at (sending b i) words = words b i
data_at idle words = 0
data_at (receiving b i) words = 0

abbrev read_phase : Phase → Phase
read_phase (sending b i) = next_phase sending b i
read_phase idle = idle
read_phase (receiving b i) = receiving b i

abbrev read_data : DriveView → ℕ → ℕ × DriveView
read_data m port = (data_at m.phase m.words % 65536, record m { phase = read_phase m.phase })

abbrev command_phase : (value target : ℕ) → Phase → Phase
command_phase value target phase =
    if value == 0x20 then sending target 0 else if value == 0x30 then receiving target 0 else phase

abbrev take_command : (busy value : ℕ) → DriveView → DriveView
take_command (suc k) value m = m
take_command zero value m = record m {
  phase = command_phase value (selected m.registers) m.phase;
  busy = 3;
}

abbrev write_port : DriveView → (port value : ℕ) → DriveView
write_port m port value =
    if port == 0x1F7
    then take_command m.busy value m
    else record m { registers = put m.registers port value }

abbrev written_phase : Phase → Phase
written_phase (receiving b i) = next_phase receiving b i
written_phase idle = idle
written_phase (sending b i) = sending b i

abbrev written_words : Phase → (ℕ → ℕ → ℕ) → ℕ → ℕ → ℕ → ℕ
written_words (receiving b i) words w = put_word words b i w
written_words idle words w = words
written_words (sending b i) words w = words

abbrev pub busy_after : (i busy : ℕ) → ℕ
busy_after i busy = if i == 255 then 3 else busy

abbrev written_busy : Phase → ℕ → ℕ
written_busy (receiving b i) busy = busy_after i busy
written_busy idle busy = busy
written_busy (sending b i) busy = busy

abbrev write_data : DriveView → (port value : ℕ) → DriveView
write_data m port w = record m {
  busy = written_busy m.phase m.busy;
  phase = written_phase m.phase;
  words = written_words m.phase m.words w;
}

instance abbrev pub emulated_bus : PortBus DriveView
emulated_bus = record {
  inportb = read_port;
  inportw = read_data;
  outportb = write_port;
  outportw = write_data;
}

abbrev pub shown : DriveView → DriveView
shown m = record m { words = λ b i. m.words b i % 65536 }

pub shown_busy :
    (m : DriveView) (k : ℕ)
    → m.busy ≡ suc k
    → (has_bit 7 (read_port m 0x1F7).0 ≡ true)
      × (shown (read_port m 0x1F7).1 ≡ record (shown m) { busy = k })
shown_busy m k e = (
  ap (λ n. has_bit 7 (status_of n m.phase)) e,
  ap (λ n. record (shown m) { busy = count_down n }) e,
)

ready_bits :
    (phase : Phase)
    → (has_bit 7 (status_of 0 phase) ≡ false)
      × (has_bit 0 (status_of 0 phase) ≡ false)
      × (has_bit 5 (status_of 0 phase) ≡ false)
      × (has_bit 3 (status_of 0 phase) ≡ transfers phase)
ready_bits idle = (refl, refl, refl, refl)
ready_bits (sending b i) = (refl, refl, refl, refl)
ready_bits (receiving b i) = (refl, refl, refl, refl)

pub shown_ready :
    (m : DriveView)
    → m.busy ≡ 0
    → (has_bit 7 (read_port m 0x1F7).0 ≡ false)
      × (has_bit 0 (read_port m 0x1F7).0 ≡ false)
      × (has_bit 5 (read_port m 0x1F7).0 ≡ false)
      × (has_bit 3 (read_port m 0x1F7).0 ≡ transfers m.phase)
      × (shown (read_port m 0x1F7).1 ≡ shown m)
shown_ready m e =
    let (a, b, c, d) = ready_bits m.phase in
    (
      ap (λ n. has_bit 7 (status_of n m.phase)) e ∙ a,
      ap (λ n. has_bit 0 (status_of n m.phase)) e ∙ b,
      ap (λ n. has_bit 5 (status_of n m.phase)) e ∙ c,
      ap (λ n. has_bit 3 (status_of n m.phase)) e ∙ d,
      ap (λ n. record (shown m) { busy = count_down n }) e
          ∙ ap (λ n. record (shown m) { busy = n }) (sym e),
    )

pub shown_other : (m : DriveView) (port : ℕ) → 0x1F8 ≤ port → shown (read_port m port).1 ≡ shown m
shown_other m port h = let away : (port == 0x1F7) ≡ false = ground arith in rw away refl

pub shown_register :
    (m : DriveView) (port value : ℕ)
    → port ≤ 0x1F6
    → shown (write_port m port value) ≡ record (shown m) { registers = put m.registers port value }
shown_register m port value h = let away : (port == 0x1F7) ≡ false = ground arith in rw away refl

pub shown_word :
    (m : DriveView) (b i w : ℕ)
    → m.phase ≡ receiving b i
    → w < 65536
    → shown (write_data m 0x1F0 w) ≡ record (shown m) {
      words = put_word (shown m).words b i w;
      phase = next_phase receiving b i;
      busy = busy_after i m.busy;
    }
shown_word m b i w e h =
    let cells : (λ (c j : ℕ). put_word m.words b i w c j % 65536) ≡ put_word (shown m).words b i w =
      fun_ext λ c.
        fun_ext
          λ j. elim (ℕ_discrete b c) [ yes e ↦ rw (← e) (ground arith) | no ne ↦ ground arith ] in
    ap
      (λ (p : Phase). record (shown m) {
        words = λ c j. written_words p m.words w c j % 65536;
        phase = written_phase p;
        busy = written_busy p m.busy;
      })
      e
    ∙ ap
        (λ (ws : ℕ → ℕ → ℕ). record (shown m) {
          words = ws;
          phase = next_phase receiving b i;
          busy = busy_after i m.busy;
        })
        cells

-- A flush that comes while the drive has `n` reads of the status to go, or none
pub shown_flush :
    (n : ℕ) (m : DriveView)
    → m.busy ≤ 3
    → (k : ℕ) × (k ≤ 3) × (shown (take_command n 0xE7 m) ≡ record (shown m) { busy = k })
shown_flush (suc n) m h = (m.busy, h, refl)
shown_flush zero m h = (3, omega arith, refl)

pub busy_after_le : (i busy : ℕ) → busy ≡ 0 → busy_after i busy ≤ 3
busy_after_le i busy ready = ground arith

pub busy_after_ne : (i busy : ℕ) → busy ≡ 0 → i ≢ 255 → busy_after i busy ≡ 0
busy_after_ne i busy ready more = ground arith

instance abbrev pub emulated_drive : AtaDrive DriveView
emulated_drive = record {
  view = shown;
  blocks = 20480;
  slowest = 3;
  has_metadata = omega arith;
  addressable = omega arith;
  words-lt = λ m b i. omega arith;
  other_port = shown_other;
  status_busy = shown_busy;
  status_ready = shown_ready;
  set_register = λ m port value lo hi small rest ready. shown_register m port value hi;
  command_read =
      λ m rest ready target. (3, omega arith, ap (λ n. shown (take_command n 0x20 m)) ready);
  command_write =
      λ m rest ready target. (3, omega arith, ap (λ n. shown (take_command n 0x30 m)) ready);
  command_flush = λ m rest below. shown_flush m.busy m below;
  data_in = λ m b i e ready h. (
    ap (λ p. data_at p m.words % 65536) e,
    ap (λ p. record (shown m) { phase = read_phase p }) e,
  );
  data_out = λ m b i w e ready h small. (
    busy_after i m.busy,
    busy_after_le i m.busy ready,
    busy_after_ne i m.busy ready,
    shown_word m b i w e small,
  );
}
