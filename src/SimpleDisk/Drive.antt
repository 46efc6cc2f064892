-- ===== src/SimpleDisk/Drive.antt =====
-- MP7_Sources/simple_disk.C: what the driver relies on of an ATA drive behind the ports, as the ATA command set
-- describes it for programmed input and output: an interface with laws. `Emulated` is an instance.
use csce410_611_spring2026_p.SimpleDisk.{PortBus, has_bit}
use csce410_611_spring2026_p.Base.{
  ℕ, suc, ◌+◌, ◌*◌, ◌%◌, ◌<◌, ◌≤◌, ◌≡◌, ◌≢◌, Bool, true, false, ◌/◌, ◌^◌, ◌==◌, if◌then◌else◌, put,
}

-- A drive waits for a command, or is in the middle of a block: the next word to move.
pub data Phase : Type 0 where
  idle : Phase
  sending receiving : (block word : ℕ) → Phase

-- The drive as its documentation sees it: the registers at the ports 0x1F2 to 0x1F6, the number of reads of the
-- status that still find it busy, and the 256 words of each block
pub record DriveView : Type 0 where
  pub registers : ℕ → ℕ
  pub phase : Phase
  pub busy : ℕ
  pub words : ℕ → ℕ → ℕ

-- The 28-bit block number in the registers
abbrev pub selected : (ℕ → ℕ) → ℕ
selected r = r 0x1F3 + 2 ^ 8 * r 0x1F4 + 2 ^ 16 * r 0x1F5 + 2 ^ 24 * (r 0x1F6 % 16)

-- A command for one block of the first drive, in the addressing by block numbers
pub record IsAddressed (blocks : ℕ) (r : ℕ → ℕ) : Type 0 where
  pub one_block : r 0x1F2 ≡ 1
  pub mode : r 0x1F6 / 16 ≡ 14
  pub in_range : selected r < blocks

-- The phase after a word has moved
abbrev pub next_phase : (ℕ → ℕ → Phase) → ℕ → ℕ → Phase
next_phase moving b i = if i == 255 then idle else moving b (i + 1)

abbrev pub transfers : Phase → Bool
transfers idle = false
transfers (sending b i) = true
transfers (receiving b i) = true

abbrev pub put_word : (ℕ → ℕ → ℕ) → (b i w : ℕ) → ℕ → ℕ → ℕ
put_word words b i w = put words b (put (words b) i w)

-- A drive without faults. After a command, and after the last word of a block that it gets, it is busy for at most
-- `slowest` reads of its status. Whether it takes a flush that comes while it is busy with a block, or drops it, is
-- left open; either way no block changes.
pub record AtaDrive (M : Type 0) ⦃bus : PortBus M⦄ : Type 0 where
  pub view : M → DriveView
  pub blocks : ℕ
  pub slowest : ℕ
  pub has_metadata : 2 ≤ blocks
  pub addressable : blocks ≤ 2 ^ 28
  pub words-lt : (m : M) (b i : ℕ) → (view m).words b i < 65536
  pub other_port : (m : M) (port : ℕ) → 0x1F8 ≤ port → view (bus.inportb m port).1 ≡ view m
  pub status_busy :
      (m : M) (k : ℕ)
      → (view m).busy ≡ suc k
      → (has_bit 7 (bus.inportb m 0x1F7).0 ≡ true)
        × (view (bus.inportb m 0x1F7).1 ≡ record (view m) { busy = k })
  pub status_ready :
      (m : M)
      → (view m).busy ≡ 0
      → (has_bit 7 (bus.inportb m 0x1F7).0 ≡ false)
        × (has_bit 0 (bus.inportb m 0x1F7).0 ≡ false)
        × (has_bit 5 (bus.inportb m 0x1F7).0 ≡ false)
        × (has_bit 3 (bus.inportb m 0x1F7).0 ≡ transfers (view m).phase)
        × (view (bus.inportb m 0x1F7).1 ≡ view m)
  pub set_register :
      (m : M) (port value : ℕ)
      → 0x1F2 ≤ port
      → port ≤ 0x1F6
      → value < 256
      → (view m).phase ≡ idle
      → (view m).busy ≡ 0
      → view (bus.outportb m port value)
        ≡ record (view m) { registers = put (view m).registers port value }
  pub command_read :
      (m : M)
      → (view m).phase ≡ idle
      → (view m).busy ≡ 0
      → IsAddressed blocks (view m).registers
      → (k : ℕ) × (k ≤ slowest)
        × (view (bus.outportb m 0x1F7 0x20)
            ≡ record (view m) { phase = sending (selected (view m).registers) 0; busy = k })
  pub command_write :
      (m : M)
      → (view m).phase ≡ idle
      → (view m).busy ≡ 0
      → IsAddressed blocks (view m).registers
      → (k : ℕ) × (k ≤ slowest)
        × (view (bus.outportb m 0x1F7 0x30)
            ≡ record (view m) { phase = receiving (selected (view m).registers) 0; busy = k })
  pub command_flush :
      (m : M)
      → (view m).phase ≡ idle
      → (view m).busy ≤ slowest
      → (k : ℕ) × (k ≤ slowest) × (view (bus.outportb m 0x1F7 0xE7) ≡ record (view m) { busy = k })
  pub data_in :
      (m : M) (b i : ℕ)
      → (view m).phase ≡ sending b i
      → (view m).busy ≡ 0
      → i < 256
      → ((bus.inportw m 0x1F0).0 ≡ (view m).words b i)
        × (view (bus.inportw m 0x1F0).1 ≡ record (view m) { phase = next_phase sending b i })
  pub data_out :
      (m : M) (b i w : ℕ)
      → (view m).phase ≡ receiving b i
      → (view m).busy ≡ 0
      → i < 256
      → w < 65536
      → (k : ℕ) × (k ≤ slowest)
        × (i ≢ 255 → k ≡ 0)
        × (view (bus.outportw m 0x1F0 w) ≡ record (view m) {
          words = put_word (view m).words b i w;
          phase = next_phase receiving b i;
          busy = k;
        })
