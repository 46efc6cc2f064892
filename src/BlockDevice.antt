-- ===== src/BlockDevice.antt =====
-- MP7_Sources/simple_disk.H: what the file system uses of a disk, `read` and `write` of one block
-- of 512 bytes, with the laws that it relies on. `Memory` is an instance.
pub mod Memory
use csce410_611_spring2026_p.Base.{ℕ, ◌≤◌, ◌<◌, ◌≡◌, ◌≢◌}

-- `SimpleDisk::BLOCK_SIZE`, which is `2 * IDEController::WORDS_IN_SECTOR`
abbrev pub block_size : ℕ
block_size = 512

-- A buffer, or the contents of a block: the byte at each index.
abbrev pub Block : Type 0
Block = ℕ → ℕ

-- `blocks` is the number of blocks of the drive. Only bytes are stored, and only 512 of them.
pub record BlockDevice (D : Type 0) : Type 0 where
  pub blocks : ℕ
  pub read : D → ℕ → Block
  pub write : D → ℕ → Block → D
  pub has_metadata : 2 ≤ blocks
  pub read-lt : (d : D) (b i : ℕ) → read d b i < 256
  pub read-write_self :
      (d : D) (b : ℕ) (buf : Block) (i : ℕ)
      → b < blocks
      → i < block_size
      → buf i < 256
      → read (write d b buf) b i ≡ buf i
  pub read-write_ne :
      (d : D) (b : ℕ) (buf : Block) (c i : ℕ)
      → b < blocks
      → c < blocks
      → b ≢ c
      → i < block_size
      → read (write d b buf) c i ≡ read d c i
