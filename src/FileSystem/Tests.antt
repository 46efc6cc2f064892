-- ===== src/FileSystem/Tests.antt =====
-- A file system of 128 blocks with one file, saved on a disk in memory: runs of the operations, and
-- the theorems at it.
use csce410_611_spring2026_p.Base.{
  ℕ, ◌≡◌, refl, true, none, some, arith, ◌==◌, ltb, if◌then◌else◌, minus_one,
}
use csce410_611_spring2026_p.Base.Search.{find_index}
use csce410_611_spring2026_p.BlockDevice.Memory.{MemoryDisk, memory_device}
use csce410_611_spring2026_p.FileSystem.{
  FileSystem, Inode, blank, save_inodes, save_free_blocks, mount, unmount, format, get_free_block,
  lookup_inode, free_inode, create_file, delete_file,
}
use csce410_611_spring2026_p.FileSystem.Persist.{
  IsValid, IsSynced, Holds, reserved, mount-format, mount-unmount, save_inodes-TableOnDisk,
  save_free_blocks-ListOnDisk, save_free_blocks-TableOnDisk,
}
use csce410_611_spring2026_p.FileSystem.Alloc.{AllocOutcome, get_free_block_outcome}
use csce410_611_spring2026_p.FileSystem.Create.{UniqueIds, CreateOutcome, create_file_outcome}
use csce410_611_spring2026_p.FileSystem.Delete.{DeleteOutcome, delete_file_outcome}
use csce410_611_spring2026_p.FileSystem.Names.{lookup-create_file, lookup-delete_file}

-- The file 7, of 600 bytes in the blocks 2 and 3, in the inode 0.
abbrev seven : Inode
seven = record {
  id = 7;
  block_no = λ d. if d == 0 then 2 else if d == 1 then 3 else minus_one;
  indirect_block_no = minus_one;
  file_size = 600;
  fs = 0x4000;
}

abbrev table : ℕ → Inode
table i = if i == 0 then seven else blank

abbrev list : ℕ → ℕ
list i = if ltb i 4 then 1 else 0

abbrev unsaved : FileSystem MemoryDisk
unsaved = record {
  disk = λ b i. 0;
  size = 0;
  inodes = table;
  free_blocks = list;
  num_blocks = 128;
  self = 0x4000;
}

abbrev sample : FileSystem MemoryDisk
sample = record unsaved { disk = unmount unsaved }

sample-IsValid : IsValid sample
sample-IsValid = record {
  words = λ i h. ground arith;
  bytes = λ i h. ground arith;
  count = omega arith;
  address = omega arith;
}

sample-UniqueIds : UniqueIds sample.inodes
sample-UniqueIds i j hi hj same live = ground arith

sample-IsSynced : IsSynced sample
unfolding unmount save_inodes save_free_blocks
sample-IsSynced = record {
  table = save_free_blocks-TableOnDisk (save_inodes unsaved) (save_inodes-TableOnDisk unsaved);
  list = save_free_blocks-ListOnDisk (save_inodes unsaved) (λ i h. ground arith);
}

mount-format_example :
    Holds
      (λ i. blank)
      128
      reserved
      0x4000
      (mount 0x4000 (λ i. 9) table (format {D = MemoryDisk} (λ b i. 5) 65536))
mount-format_example = mount-format (λ b i. 5) 65536 (omega arith) 0x4000 (λ i. 9) table

mount-unmount_example :
    Holds table 128 list 0x8000 (mount 0x8000 (λ i. 9) (λ i. blank) (unmount sample))
mount-unmount_example = mount-unmount sample sample-IsValid 0x8000 (λ i. 9) (λ i. blank)

get_free_block_example : AllocOutcome sample (get_free_block sample)
get_free_block_example = get_free_block_outcome sample sample-IsValid

create_file_example : CreateOutcome sample 8 (create_file sample 8)
create_file_example =
    create_file_outcome sample 8 sample-IsValid sample-UniqueIds sample-IsSynced.list (omega arith)

delete_file_example : DeleteOutcome sample 7 (delete_file sample 7)
delete_file_example = delete_file_outcome sample 7 sample-IsValid sample-UniqueIds

create_eight_runs : (create_file sample 8).0 ≡ true
unfolding create_file lookup_inode free_inode find_index
create_eight_runs = refl

get_free_block_runs : (get_free_block sample).0 ≡ some 4
unfolding get_free_block find_index
get_free_block_runs = refl

lookup-create_file_example :
    (i : ℕ) × (lookup_inode sample.inodes 8 ≡ none)
    × (lookup_inode (create_file sample 8).1.inodes 8 ≡ some i)
lookup-create_file_example =
    lookup-create_file sample 8 8 sample-IsValid sample-UniqueIds sample-IsSynced (omega arith)
      (omega arith) (omega arith) create_eight_runs

lookup-delete_file_example :
    ((delete_file sample 7).0 ≡ true) × (lookup_inode (delete_file sample 7).1.inodes 7 ≡ none)
unfolding lookup_inode find_index
lookup-delete_file_example =
    lookup-delete_file sample 7 7 sample-IsValid sample-UniqueIds (omega arith) (omega arith)
