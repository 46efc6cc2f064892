-- ===== src/File/Tests.antt =====
-- An open file on the file system of FileSystem/Tests: runs, and the theorems at it.
use csce410_611_spring2026_p.Base.{
  ◌⊎◌, ℕ, ◌≡◌, refl, some, arith, ltb, if◌then◌else◌, ◌==◌, minus_one,
}
use csce410_611_spring2026_p.BlockDevice.Memory.{MemoryDisk, memory_device}
use csce410_611_spring2026_p.FileSystem.{FileSystem, Inode, blank, zeros}
use csce410_611_spring2026_p.FileSystem.Persist.{IsValid}
use csce410_611_spring2026_p.File.{File, write, read, reset}
use csce410_611_spring2026_p.File.Grow.{IsOpen}
use csce410_611_spring2026_p.File.ReadWrite.{DiskFull, Written, write_lem, read-reset-write}

-- A file system of 128 blocks with the file 7 in the inode 0, of 600 bytes in the blocks 2 and 3
abbrev seven : Inode
seven = record {
  id = 7;
  block_no = λ d. if d == 0 then 2 else if d == 1 then 3 else minus_one;
  indirect_block_no = minus_one;
  file_size = 600;
  fs = 0x4000;
}

abbrev system : FileSystem MemoryDisk
system = record {
  disk = λ b i. 0;
  size = 0;
  inodes = λ i. if i == 0 then seven else blank;
  free_blocks = λ i. if ltb i 4 then 1 else 0;
  num_blocks = 128;
  self = 0x4000;
}

abbrev handle : File
handle = record {
  inode = some 0;
  current_position = 0;
  block_cache = zeros;
  multi_block_cache = λ j. 65;
  block_map = λ lb. if lb == 0 then 2 else if lb == 1 then 3 else minus_one;
  num_allocated_blocks = 2;
}

abbrev digits : ℕ → ℕ
digits k = 48

system-IsValid : IsValid system
system-IsValid = record {
  words = λ i h. ground arith;
  bytes = λ i h. ground arith;
  count = omega arith;
  address = omega arith;
}

handle-IsOpen : IsOpen handle system 0
handle-IsOpen = record {
  handle = refl;
  inside = omega arith;
  position = omega arith;
  mapped = λ lb h real. ground arith;
  distinct = λ l k hl hk real same. ground arith;
  inodes_reserved = omega arith;
  list_reserved = omega arith;
  small = omega arith;
}

write_lem_example :
    (done : ℕ) × (f' : File) × (s' : FileSystem MemoryDisk) × (write system handle 700 digits
      ≡ some (done, f', s'))
    × Written handle system 0 digits 700 done f' s'
write_lem_example = write_lem handle system 0 700 digits handle-IsOpen system-IsValid

read-reset-write_example :
    (done : ℕ) × (f' : File) × (s' : FileSystem MemoryDisk) × (write system handle 700 digits
      ≡ some (done, f', s'))
    × ((read s' (reset f') done zeros).0 ≡ done)
    × ((k : ℕ) → (read s' (reset f') done zeros).1 k ≡ (if ltb k done then 48 else 0))
    × ((done ≡ 700) ⊎ DiskFull s')
read-reset-write_example =
    read-reset-write handle system 0 700 digits zeros handle-IsOpen system-IsValid refl
