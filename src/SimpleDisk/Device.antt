-- ===== src/SimpleDisk/Device.antt =====
-- MP7_Sources/simple_disk.C: the driver over any working drive as the block device of BlockDevice.
use csce410_611_spring2026_p.Base.Run.{Run, ok}
use csce410_611_spring2026_p.BlockDevice.{Block, BlockDevice, block_size}
use csce410_611_spring2026_p.FileSystem.{zeros}
use csce410_611_spring2026_p.SimpleDisk.{PortBus, buffer_word, ata_read_block, ata_write_block}
use csce410_611_spring2026_p.SimpleDisk.RoundTrip.{buffer_word_byte}
use csce410_611_spring2026_p.SimpleDisk.Drive.{AtaDrive}
use csce410_611_spring2026_p.SimpleDisk.Transfer.{
  Rests, block_byte, ata_read_block_lem, ata_write_block_lem,
}
use csce410_611_spring2026_p.Base.{
  ℕ, ◌+◌, ◌%◌, ◌<◌, ◌≤◌, ◌≡◌, ◌≢◌, refl, ◌∙◌, ◌&&◌, ◌/◌, ◌^◌, arith, ltb, ◌==◌, if◌then◌else◌,
  dec_lt, ℕ_discrete,
}

pub in_range : (blocks b : ℕ) → blocks ≤ 2 ^ 28 → b < blocks → b % 2 ^ 28 < blocks
in_range blocks b small h = omega arith

-- A machine whose drive waits for a command
pub record Disk (M : Type 0) ⦃bus : PortBus M⦄ ⦃drive : AtaDrive M⦄ : Type 0 where
  pub machine : M
  pub rests : Rests machine

module _ {M : Type 0} ⦃bus : PortBus M⦄ ⦃drive : AtaDrive M⦄ where
  -- The bytes of a block that the drive keeps
  abbrev pub stored : M → (b i : ℕ) → ℕ
  stored m b i = block_byte (drive.view m).words b i

  pub stored-lt : (m : M) (b i : ℕ) → stored m b i < 256
  stored-lt m b i = ground arith

  abbrev writing :
      (d : Disk M) (b : ℕ) (buf : Block)
      → b < drive.blocks
      → (m' : M) × (ata_write_block (drive.slowest + 1) 0 b buf d.machine ≡ ok m')
        × Rests m'
        × ((c j : ℕ)
            → (drive.view m').words c j ≡ (
                if b % 2 ^ 28 == c && ltb j 256
                then buffer_word buf j
                else (drive.view d.machine).words c j))
  writing d b buf h =
      ata_write_block_lem (drive.slowest + 1) 0 b buf d.machine d.rests (omega arith)
        (in_range drive.blocks b drive.addressable h)

  abbrev write_if : (d : Disk M) (b : ℕ) → Block → Dec (b < drive.blocks) → Disk M
  write_if d b buf (yes h) = record {
    machine = (writing d b buf h).0;
    rests = (writing d b buf h).2;
  }
  write_if d b buf (no h) = d

  -- The machine that `SimpleDisk::write` leaves, for a block in range
  unfoldable pub device_write : Disk M → ℕ → Block → Disk M
  device_write d b buf = write_if d b buf (dec_lt b drive.blocks)

  write_if_word :
      (d : Disk M) (b : ℕ) (buf : Block) (c i : ℕ) (inside : Dec (b < drive.blocks))
      → b < drive.blocks
      → (drive.view (write_if d b buf inside).machine).words c i
        ≡ (if b == c && ltb i 256 then buffer_word buf i else (drive.view d.machine).words c i)
  write_if_word d b buf c i (yes h') h =
      let same : b % 2 ^ 28 ≡ b = omega (arith, drive.addressable) in
      (writing d b buf h').3 c i ∙ rw same refl
  write_if_word d b buf c i (no h') h = absurd (h' h)

  device_write_word :
      (d : Disk M) (b : ℕ) (buf : Block) (c i : ℕ)
      → b < drive.blocks
      → (drive.view (device_write d b buf).machine).words c i
        ≡ (if b == c && ltb i 256 then buffer_word buf i else (drive.view d.machine).words c i)
  unfolding device_write
  device_write_word d b buf c i h = write_if_word d b buf c i (dec_lt b drive.blocks) h

  pub stored-device_write_self :
      (d : Disk M) (b : ℕ) (buf : Block) (i : ℕ)
      → b < drive.blocks
      → i < block_size
      → stored (device_write d b buf).machine b i ≡ buf i % 256
  stored-device_write_self d b buf i h hi =
      buffer_word_byte _ buf i hi (λ j hj. device_write_word d b buf b j h ∙ ground arith)

  pub stored-device_write_ne :
      (d : Disk M) (b : ℕ) (buf : Block) (c i : ℕ)
      → b < drive.blocks
      → b ≢ c
      → stored (device_write d b buf).machine c i ≡ stored d.machine c i
  stored-device_write_ne d b buf c i h ne =
      rw (device_write_word d b buf c (i / 2) h) (ground arith)

  stored-device_write :
      (d : Disk M) (b : ℕ) (buf : Block) (c i : ℕ)
      → b < drive.blocks
      → i < block_size
      → stored (device_write d b buf).machine c i
        ≡ (if b == c then buf i % 256 else stored d.machine c i)
  stored-device_write d b buf c i h hi = elim (ℕ_discrete b c) [
    | yes e ↦ rw (← e) (stored-device_write_self d b buf i h hi ∙ ground arith)
    | no ne ↦ stored-device_write_ne d b buf c i h ne ∙ ground arith
  ]

  -- The driver is a block device, as the file system needs one: what the device holds is what the drive keeps.
  instance abbrev pub ata_device : BlockDevice (Disk M)
  ata_device = record {
    blocks = drive.blocks;
    read = λ d b i. stored d.machine b i;
    write = device_write;
    has_metadata = drive.has_metadata;
    read-lt = λ d b i. stored-lt d.machine b i;
    read-write_self = λ d b buf i h hi byte. stored-device_write_self d b buf i h hi ∙ omega arith;
    read-write_ne = λ d b buf c i h hc ne hi. stored-device_write_ne d b buf c i h ne;
  }

  -- The run of a read: the bytes of the block go into the buffer, and the drive keeps what it kept.
  pub record ReadRun (d : Disk M) (b : ℕ) (r : Run (Block × M)) : Type 0 where
    pub buf : Block
    pub after_read : M
    pub read_ends : r ≡ ok (buf, after_read)
    pub read_rests : Rests after_read
    pub bytes : (i : ℕ) → i < block_size → buf i ≡ stored d.machine b i
    pub kept : (c i : ℕ) → stored after_read c i ≡ stored d.machine c i

  -- The run of a write: the block gets the bytes of the buffer, and no other block changes; it leaves the machine of
  -- the device.
  pub record WriteRun (d : Disk M) (b : ℕ) (buf : Block) (r : Run M) : Type 0 where
    pub after_write : M
    pub write_ends : r ≡ ok after_write
    pub write_rests : Rests after_write
    pub written :
        (c i : ℕ)
        → i < block_size
        → stored after_write c i ≡ (if b == c then buf i % 256 else stored d.machine c i)
    pub same_device : after_write ≡ (ata_device.write d b buf).machine

  write_if_run :
      (d : Disk M) (b : ℕ) (buf : Block) (inside : Dec (b < drive.blocks))
      → b < drive.blocks
      → ata_write_block (drive.slowest + 1) 0 b buf d.machine ≡ ok (write_if d b buf inside).machine
  write_if_run d b buf (yes h') h = (writing d b buf h').1
  write_if_run d b buf (no h') h = absurd (h' h)

  -- On a working drive that waits for a command, with fuel above its slowest command, the driver implements the block
  -- device of what the drive keeps, for a block in range. A read ends without a failed assertion, its buffer holds the
  -- bytes that the drive keeps in the block, and no block changes. A write ends without one, whether or not the drive
  -- takes the flush; the drive then keeps the bytes of the buffer in the block, and in the other blocks what it kept;
  -- this is the disk after the device's write. The drive waits for a command again after both.
  pub ata_device-implemented :
      (d : Disk M) (b : ℕ) (buf : Block)
      → b < drive.blocks
      → ReadRun d b (ata_read_block (drive.slowest + 1) 0 b zeros d.machine)
        × WriteRun d b buf (ata_write_block (drive.slowest + 1) 0 b buf d.machine)
  unfolding device_write
  ata_device-implemented d b buf h =
      let same : b % 2 ^ 28 ≡ b = omega (arith, drive.addressable) in
      let (out, m', done, rests, words, bytes) =
        ata_read_block_lem (drive.slowest + 1) 0 b zeros d.machine d.rests (omega arith)
          (in_range drive.blocks b drive.addressable h) in
      (
        record {
          buf = out;
          after_read = m';
          read_ends = done;
          read_rests = rests;
          bytes = λ i hi. bytes i ∙ rw same (ground arith);
          kept = λ c i. rw words refl;
        },
        record {
          after_write = (device_write d b buf).machine;
          write_ends = write_if_run d b buf (dec_lt b drive.blocks) h;
          write_rests = (device_write d b buf).rests;
          written = λ c i hi. stored-device_write d b buf c i h hi;
          same_device = refl;
        },
      )
