-- ===== src/FileSystem.antt =====
-- MP7_Sources/file_system.H and file_system.C: the inode table, the free-block bytes, and the
-- operations of class FileSystem. The disk is any `BlockDevice`. Words are those of the target, an
-- ILP32 x86: `int`, `long`, `unsigned` and pointers take four bytes, little-endian.
pub mod Alloc
pub mod Create
pub mod Delete
pub mod Layout
pub mod Names
pub mod Persist
mod Tests
use csce410_611_spring2026_p.Base.{
  ℕ, zero, suc, ◌+◌, ◌-◌, ◌*◌, ◌/◌, ◌%◌, min, Bool, true, false, ◌&&◌, Option, none, some, ltb,
  ◌==◌, if◌then◌else◌, put, copy, byte_of, word_at, minus_one, non_negative,
}
use csce410_611_spring2026_p.Base.Search.{find_index}
use csce410_611_spring2026_p.BlockDevice.{Block, BlockDevice, block_size}

abbrev pub max_direct : ℕ
max_direct = 4

-- `class Inode`. Every field is a word; `fs` is the address of the file system.
pub record Inode : Type 0 where
  pub id : ℕ
  pub block_no : ℕ → ℕ
  pub indirect_block_no : ℕ
  pub file_size : ℕ
  pub fs : ℕ

-- `sizeof(Inode)`: eight words
abbrev pub inode_size : ℕ
inode_size = 32

-- `MAX_INODES`
abbrev pub max_inodes : ℕ
max_inodes = block_size / inode_size

abbrev pub inodes_block : ℕ
inodes_block = 0

abbrev pub freelist_block : ℕ
freelist_block = 1

-- The words of the struct in memory, in the order of its fields.
unfoldable pub inode_word : Inode → ℕ → ℕ
inode_word a k =
    if k == 0
    then a.id
    else if ltb k 5
    then a.block_no (k - 1)
    else if k == 5
    then a.indirect_block_no
    else if k == 6
    then a.file_size
    else a.fs

-- The bytes of an array of inodes, as `reinterpret_cast` shows them.
unfoldable pub raw_inodes : (ℕ → Inode) → Block
unfolding inode_word
raw_inodes table j =
    byte_of (inode_word (table (j / inode_size)) (j % inode_size / 4)) (j % inode_size % 4)

-- The inode whose bytes start at `at`.
unfoldable pub inode_at : Block → ℕ → Inode
inode_at buf at = record {
  id = word_at buf at;
  block_no = λ d. word_at buf (at + 4 + 4 * d);
  indirect_block_no = word_at buf (at + 20);
  file_size = word_at buf (at + 24);
  fs = word_at buf (at + 28);
}

-- `bytes`, the part of the inode table that is saved and loaded
abbrev pub table_bytes : ℕ
table_bytes = min (max_inodes * inode_size) block_size

-- `bmap_bytes`, the part of the free list that fits in front of `num_blocks`
abbrev pub bitmap_bytes : ℕ → ℕ
bitmap_bytes n = min n (block_size - 4)

-- The mounted file system: `free_blocks` is an array of `num_blocks` bytes, 0 for a free block;
-- `inodes` is an array of `max_inodes`; `self` is the address of the object, `this`.
pub record FileSystem (D : Type 0) : Type 0 where
  pub disk : D
  pub size : ℕ
  pub inodes : ℕ → Inode
  pub free_blocks : ℕ → ℕ
  pub num_blocks : ℕ
  pub self : ℕ

-- A buffer set to zeros
abbrev pub zeros : Block
zeros i = 0

-- `for (b = 0; b < 4; b++) buf[508 + b] = (n >> (b * 8)) & 0xFF`
unfoldable pub with_count : ℕ → Block → Block
with_count n buf j = if ltb j 508 then buf j else if ltb j 512 then byte_of n (j - 508) else buf j

-- The block that `save_free_blocks` writes.
unfoldable pub freelist_image : ℕ → (ℕ → ℕ) → Block
unfolding with_count
freelist_image n free = with_count n (copy (bitmap_bytes n) free zeros)

-- The inode that `Format` writes everywhere.
abbrev pub blank : Inode
blank = record {
  id = minus_one;
  block_no = λ d. minus_one;
  indirect_block_no = minus_one;
  file_size = 0;
  fs = 0;
}

-- `LookupFile`: the index of the inode, or `none` for `nullptr`.
unfoldable pub lookup_inode : (ℕ → Inode) → ℕ → Option ℕ
lookup_inode inodes id = find_index (λ i. (inodes i).id == id) max_inodes

-- `get_free_inode`: `none` stands for -1.
unfoldable pub free_inode : (ℕ → Inode) → Option ℕ
free_inode inodes = find_index (λ i. (inodes i).id == minus_one) max_inodes

-- `if (blk >= 0 && blk < num_blocks) free_blocks[blk] = 0`
unfoldable pub free_block : ℕ → ℕ → (ℕ → ℕ) → ℕ → ℕ
free_block n blk free = if non_negative blk && ltb blk n then put free blk 0 else free

-- The loop over a list of block numbers, with `k` rounds left, at index `p`.
unfoldable pub free_listed : ℕ → ℕ → ℕ → (ℕ → ℕ) → (ℕ → ℕ) → ℕ → ℕ
unfolding free_block
free_listed n zero p blks free = free
free_listed n (suc k) p blks free = free_listed n k (p + 1) blks (free_block n (blks p) free)

-- The pointers of an indirect block, as it is read from disk.
unfoldable pub indirect_entry : Block → ℕ → ℕ
indirect_entry buf p = word_at buf (p * 4)

-- `BLOCK_SIZE / sizeof(int)`
abbrev pub ptrs_per_block : ℕ
ptrs_per_block = block_size / 4

-- The assignments of `CreateFile` to an unused inode
unfoldable pub new_inode : Inode → (id self : ℕ) → Inode
new_inode a id self = record {
  id = id;
  block_no = copy max_direct (λ d. minus_one) a.block_no;
  indirect_block_no = minus_one;
  file_size = 0;
  fs = self;
}

-- The assignments of `DeleteFile` to the inode of the file
unfoldable pub dead_inode : Inode → Inode
dead_inode a = record a {
  id = minus_one;
  file_size = 0;
  indirect_block_no = minus_one;
  block_no = copy max_direct (λ d. minus_one) a.block_no;
}

abbrev pub with_inode : {D : Type 0} → FileSystem D → ℕ → Inode → FileSystem D
with_inode s i a = record s { inodes = put s.inodes i a }

module _ {D : Type 0} ⦃dev : BlockDevice D⦄ where
  unfoldable pub save_inodes : FileSystem D → FileSystem D
  save_inodes s = record s {
    disk = dev.write s.disk inodes_block (copy table_bytes (raw_inodes s.inodes) zeros);
  }

  unfoldable pub load_inodes : FileSystem D → FileSystem D
  load_inodes s =
      let buf = dev.read s.disk inodes_block in
      record s { inodes = λ i. inode_at (copy table_bytes buf zeros) (inode_size * i) }

  unfoldable pub save_free_blocks : FileSystem D → FileSystem D
  save_free_blocks s = record s {
    disk = dev.write s.disk freelist_block (freelist_image s.num_blocks s.free_blocks);
  }

  -- `fresh` is what the new array holds before it is written.
  unfoldable pub load_free_blocks : (fresh : ℕ → ℕ) → FileSystem D → FileSystem D
  load_free_blocks fresh s =
      let buf = dev.read s.disk freelist_block in
      let n = word_at buf (block_size - 4) in
      record s { num_blocks = n; free_blocks = copy (bitmap_bytes n) buf fresh }

  unfoldable pub get_free_block : FileSystem D → Option ℕ × FileSystem D
  unfolding save_free_blocks
  get_free_block s = elim (find_index (λ i. s.free_blocks i == 0) s.num_blocks) [
    | none ↦ (none, s)
    | some i ↦ (some i, save_free_blocks (record s { free_blocks = put s.free_blocks i 1 }))
  ]

  -- `Mount` of a file system that the constructor made: `self` is its address, `fresh` the new
  -- array for the free list, and `table` the new inode array.
  unfoldable pub mount : (self : ℕ) (fresh : ℕ → ℕ) (table : ℕ → Inode) → D → FileSystem D
  unfolding load_inodes load_free_blocks
  mount self fresh table d =
      let opened : FileSystem D = record {
        disk = d;
        size = 0;
        inodes = table;
        free_blocks = fresh;
        num_blocks = 0;
        self = self;
      } in
      let loaded = load_inodes (load_free_blocks fresh opened) in
      record loaded {
        inodes = λ i.
            if ltb i max_inodes then record (loaded.inodes i) { fs = self } else loaded.inodes i;
      }

  unfoldable pub format : D → ℕ → D
  format d size =
      let n = size / block_size in
      let d₁ = dev.write d inodes_block (copy table_bytes (raw_inodes (λ i. blank)) zeros) in
      let reserved = λ (i : ℕ). if ltb i 2 then 1 else 0 in
      dev.write d₁ freelist_block (with_count n (copy (bitmap_bytes n) reserved zeros))

  -- The destructor of a mounted file system
  unfoldable pub unmount : FileSystem D → D
  unfolding save_inodes save_free_blocks
  unmount s = (save_free_blocks (save_inodes s)).disk

  unfoldable pub create_at : FileSystem D → ℕ → ℕ → FileSystem D
  unfolding new_inode
  create_at s i id = save_inodes (with_inode s i (new_inode (s.inodes i) id s.self))

  unfoldable pub create_file : FileSystem D → ℕ → Bool × FileSystem D
  create_file s id = elim (lookup_inode s.inodes id) [
    | some i ↦ (false, s)
    | none ↦ elim (free_inode s.inodes) [ none ↦ (false, s) | some i ↦ (true, create_at s i id) ]
  ]

  -- The free list after the blocks of an inode are given back.
  unfoldable pub without_blocks : FileSystem D → Inode → ℕ → ℕ
  unfolding free_listed indirect_entry
  without_blocks s a =
      let n = s.num_blocks in
      let direct = free_listed n max_direct 0 a.block_no s.free_blocks in
      if non_negative a.indirect_block_no && ltb a.indirect_block_no n
      then put
          (free_listed n ptrs_per_block 0 (indirect_entry (dev.read s.disk a.indirect_block_no))
            direct)
          a.indirect_block_no 0
      else direct

  unfoldable pub delete_at : FileSystem D → ℕ → FileSystem D
  unfolding without_blocks dead_inode
  delete_at s i = save_inodes (
      with_inode (save_free_blocks (record s { free_blocks = without_blocks s (s.inodes i) })) i
        (dead_inode (s.inodes i)))

  unfoldable pub delete_file : FileSystem D → ℕ → Bool × FileSystem D
  delete_file s id = elim (lookup_inode s.inodes id) [
    | none ↦ (false, s)
    | some i ↦ (true, delete_at s i)
  ]
