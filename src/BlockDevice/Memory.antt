-- ===== src/BlockDevice/Memory.antt =====
-- A disk of 20480 blocks, 10 MB, held in memory, which meets the laws of the interface. The cells hold bytes.
use csce410_611_spring2026_p.Base.{ℕ, ◌%◌, ◌<◌, ◌≡◌, ◌≢◌, arith, ◌==◌, if◌then◌else◌}
use csce410_611_spring2026_p.BlockDevice.{Block, BlockDevice}

abbrev pub MemoryDisk : Type 0
MemoryDisk = ℕ → Block

abbrev read_cells : MemoryDisk → ℕ → Block
read_cells d b i = d b i % 256

abbrev write_cells : MemoryDisk → ℕ → Block → MemoryDisk
write_cells d b buf c i = if b == c then buf i else d c i

pub read_cells-lt : (d : MemoryDisk) (b i : ℕ) → read_cells d b i < 256
read_cells-lt d b i = omega arith

pub read_cells_self :
    (d : MemoryDisk) (b : ℕ) (buf : Block) (i : ℕ)
    → buf i < 256
    → read_cells (write_cells d b buf) b i ≡ buf i
read_cells_self d b buf i h = ground arith

pub read_cells_ne :
    (d : MemoryDisk) (b : ℕ) (buf : Block) (c i : ℕ)
    → b ≢ c
    → read_cells (write_cells d b buf) c i ≡ read_cells d c i
read_cells_ne d b buf c i h = ground arith

instance abbrev pub memory_device : BlockDevice MemoryDisk
memory_device = record {
  blocks = 20480;
  read = read_cells;
  write = write_cells;
  has_metadata = omega arith;
  read-lt = read_cells-lt;
  read-write_self = λ d b buf i inside here byte. read_cells_self d b buf i byte;
  read-write_ne = λ d b buf c i inside inside' ne here. read_cells_ne d b buf c i ne;
}
