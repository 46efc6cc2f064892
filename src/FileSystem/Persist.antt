-- ===== src/FileSystem/Persist.antt =====
-- MP7_Sources/file_system.C: what `Mount` reads back from a disk that was saved or formatted.
use csce410_611_spring2026_p.Base.{
  ℕ, ◌/◌, ◌<◌, ◌≡◌, ◌∙◌, refl, arith, ltb_iff, ==_iff, ℕ_discrete, put_ne, ltb, if◌then◌else◌,
  Agree, copy, word_size,
}
use csce410_611_spring2026_p.BlockDevice.{BlockDevice, block_size}
use csce410_611_spring2026_p.FileSystem.{
  FileSystem, Inode, max_inodes, bitmap_bytes, inodes_block, freelist_block, raw_inodes,
  freelist_image, save_inodes, save_free_blocks, mount, unmount, format, blank, table_bytes, zeros,
  with_inode,
}
use csce410_611_spring2026_p.FileSystem.Layout.{
  IsWords, SameInode, raw_inodes-lt, inode_at-raw, freelist_image-lt, freelist-count, freelist-byte,
}

-- The free list of a new file system
abbrev pub reserved : ℕ → ℕ
reserved i = if ltb i 2 then 1 else 0

blank-IsWords : IsWords blank
blank-IsWords = omega arith

module _ {D : Type 0} where
  -- The fields of the mounted file system are words, and the entries of the free list are bytes.
  pub record IsValid (s : FileSystem D) : Type 0 where
    pub words : (i : ℕ) → i < max_inodes → IsWords (s.inodes i)
    pub bytes : (i : ℕ) → i < s.num_blocks → s.free_blocks i < 256
    pub count : s.num_blocks < word_size
    pub address : s.self < word_size

  -- Writing an inode of words keeps the file system valid.
  pub with_inode-IsValid :
      (s : FileSystem D) (i : ℕ) (a : Inode) → IsWords a → IsValid s → IsValid (with_inode s i a)
  with_inode-IsValid s i a words v = record {
    words = λ j h. elim (ℕ_discrete i j) [
      | yes e ↦ rw ((==_iff i j).1 e) words
      | no ne ↦ rw (put_ne s.inodes i j a ne) (v.words j h)
    ];
    bytes = v.bytes;
    count = v.count;
    address = v.address;
  }

module _ {D : Type 0} ⦃dev : BlockDevice D⦄ where
  -- The disk holds the inode table and the free list of the file system.
  pub record TableOnDisk (table : ℕ → Inode) (d : D) : Type 0 where
    pub table_image : Agree block_size (dev.read d inodes_block) (raw_inodes table)

  pub record ListOnDisk (n : ℕ) (free : ℕ → ℕ) (d : D) : Type 0 where
    pub list_image : Agree block_size (dev.read d freelist_block) (freelist_image n free)

  pub record IsSynced (s : FileSystem D) : Type 0 where
    pub table : TableOnDisk s.inodes s.disk
    pub list : ListOnDisk s.num_blocks s.free_blocks s.disk

  pub save_inodes-TableOnDisk :
      (s : FileSystem D) → TableOnDisk (save_inodes s).inodes (save_inodes s).disk
  unfolding save_inodes
  save_inodes-TableOnDisk s = record {
    table_image = λ i h.
        dev.read-write_self s.disk 0 _ i (omega (arith, dev.has_metadata)) h
          (ground (arith, raw_inodes-lt s.inodes i))
        ∙ ground arith;
  }

  pub save_inodes-ListOnDisk :
      (s : FileSystem D)
      → ListOnDisk s.num_blocks s.free_blocks s.disk
      → ListOnDisk s.num_blocks s.free_blocks (save_inodes s).disk
  unfolding save_inodes
  save_inodes-ListOnDisk s on = record {
    list_image = λ i h.
        dev.read-write_ne s.disk 0 _ 1 i (omega (arith, dev.has_metadata))
          (omega (arith, dev.has_metadata)) (omega arith) h
        ∙ on.list_image i h;
  }

  pub save_free_blocks-ListOnDisk :
      (s : FileSystem D)
      → ((i : ℕ) → i < s.num_blocks → s.free_blocks i < 256)
      → ListOnDisk s.num_blocks s.free_blocks (save_free_blocks s).disk
  unfolding save_free_blocks
  save_free_blocks-ListOnDisk s bytes = record {
    list_image = λ i h.
        dev.read-write_self s.disk 1 _ i (omega (arith, dev.has_metadata)) h
          (freelist_image-lt s.num_blocks s.free_blocks i bytes);
  }

  pub save_free_blocks-TableOnDisk :
      (s : FileSystem D)
      → TableOnDisk s.inodes s.disk
      → TableOnDisk s.inodes (save_free_blocks s).disk
  unfolding save_free_blocks
  save_free_blocks-TableOnDisk s on = record {
    table_image = λ i h.
        dev.read-write_ne s.disk 1 _ 0 i (omega (arith, dev.has_metadata))
          (omega (arith, dev.has_metadata)) (omega arith) h
        ∙ on.table_image i h;
  }

  -- What a mounted file system holds, if the disk holds `table` and `n` blocks listed in `free`.
  pub record Holds (table : ℕ → Inode) (n : ℕ) (free : ℕ → ℕ) (self : ℕ) (m : FileSystem D)
      : Type 0 where
    pub inode : (i : ℕ) → i < max_inodes → SameInode (m.inodes i) (record (table i) { fs = self })
    pub count : m.num_blocks ≡ n
    pub listed : (i : ℕ) → i < bitmap_bytes n → m.free_blocks i ≡ free i
    pub address : m.self ≡ self

  module _ (table : ℕ → Inode) (n : ℕ) (free : ℕ → ℕ) (d : D) where
    module _ (on : TableOnDisk table d) (list : ListOnDisk n free d)
        (words : (i : ℕ) → i < max_inodes → IsWords (table i)) (small : n < word_size) (self : ℕ)
        (fresh : ℕ → ℕ) (array : ℕ → Inode) where
      count-mount : (mount self fresh array d).num_blocks ≡ n
      unfolding mount
      count-mount = freelist-count n free (dev.read d 1) list.list_image small

      inode-mount :
          (i : ℕ)
          → i < max_inodes
          → SameInode ((mount self fresh array d).inodes i) (record (table i) { fs = self })
      unfolding mount
      inode-mount i h =
          let image : Agree block_size (copy table_bytes (dev.read d 0) zeros) (raw_inodes table) =
            λ j hj. rw ((ltb_iff j 512).1 hj) (on.table_image j hj) in
          let read = inode_at-raw table _ image i h (words i h) in
          rw ((ltb_iff i 16).1 h) (record {
            id = read.id;
            block_no = read.block_no;
            indirect_block_no = read.indirect_block_no;
            file_size = read.file_size;
            fs = refl;
          })

      -- Mounting reads back the table, up to the address of the file system, and the list.
      pub mount-Holds : Holds table n free self (mount self fresh array d)
      unfolding mount
      mount-Holds = record {
        inode = inode-mount;
        count = count-mount;
        listed = λ i h.
            ground (arith, count-mount, freelist-byte n free (dev.read d 1) list.list_image i h);
        address = refl;
      }

  -- A valid file system that is unmounted and mounted again, at any address, has its inodes, its
  -- number of blocks and the first 508 entries of its free list.
  pub mount-unmount :
      (s : FileSystem D)
      → IsValid s
      → (self : ℕ) (fresh : ℕ → ℕ) (array : ℕ → Inode)
      → Holds s.inodes s.num_blocks s.free_blocks self (mount self fresh array (unmount s))
  unfolding unmount
  mount-unmount s v =
      mount-Holds s.inodes s.num_blocks s.free_blocks (save_free_blocks (save_inodes s)).disk
        (save_free_blocks-TableOnDisk (save_inodes s) (save_inodes-TableOnDisk s))
        (save_free_blocks-ListOnDisk (save_inodes s) v.bytes) v.words v.count

  -- A disk that is formatted and mounted holds only blank inodes; the number of blocks is the size
  -- over 512, and of the first 508 blocks just the blocks 0 and 1 are marked as used.
  pub mount-format :
      (d : D) (size : ℕ)
      → size < word_size
      → (self : ℕ) (fresh : ℕ → ℕ) (array : ℕ → Inode)
      → Holds
          (λ i. blank)
          (size / block_size)
          reserved
          self
          (mount self fresh array (format d size))
  unfolding format freelist_image
  mount-format d size h =
      mount-Holds (λ i. blank) (size / block_size) reserved (format d size)
        (record {
          table_image = λ i hi.
              dev.read-write_ne _ 1 _ 0 i (omega (arith, dev.has_metadata))
                (omega (arith, dev.has_metadata)) (omega arith) hi
              ∙ dev.read-write_self d 0 _ i (omega (arith, dev.has_metadata)) hi
                  (ground (arith, raw_inodes-lt (λ i. blank) i))
              ∙ ground arith;
        })
        (record {
          list_image = λ i hi.
              dev.read-write_self _ 1 _ i (omega (arith, dev.has_metadata)) hi
                (freelist_image-lt (size / 512) reserved i (λ j hj. ground arith));
        })
        (λ i hi. blank-IsWords) (omega arith)
