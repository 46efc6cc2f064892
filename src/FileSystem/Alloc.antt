-- ===== src/FileSystem/Alloc.antt =====
-- MP7_Sources/file_system.C: `get_free_block`.
use csce410_611_spring2026_p.Base.{
  ℕ, ◌<◌, ◌≡◌, ◌≢◌, refl, inl, inr, Option, none, some, arith, ◌==◌, put, Option-cases,
}
use csce410_611_spring2026_p.Base.Search.{find_index, IsFirst, find_index-IsFirst, find_index-none}
use csce410_611_spring2026_p.BlockDevice.{BlockDevice}
use csce410_611_spring2026_p.FileSystem.{FileSystem, save_free_blocks, get_free_block}
use csce410_611_spring2026_p.FileSystem.Persist.{
  IsValid, TableOnDisk, ListOnDisk, save_free_blocks-ListOnDisk, save_free_blocks-TableOnDisk,
}

module _ {D : Type 0} ⦃dev : BlockDevice D⦄ where
  -- The block `b` was the first free one; it alone is marked as used, and the list is on the disk.
  pub record Allocated (s : FileSystem D) (b : ℕ) (s' : FileSystem D) : Type 0 where
    pub inside : b < s.num_blocks
    pub was_free : s.free_blocks b ≡ 0
    pub first : (j : ℕ) → j < b → s.free_blocks j ≢ 0
    pub marked : s'.free_blocks ≡ put s.free_blocks b 1
    pub same_count : s'.num_blocks ≡ s.num_blocks
    pub same_inodes : s'.inodes ≡ s.inodes
    pub same_address : s'.self ≡ s.self
    pub list : ListOnDisk s'.num_blocks s'.free_blocks s'.disk
    pub table : TableOnDisk s.inodes s.disk → TableOnDisk s'.inodes s'.disk
    pub valid : IsValid s'

  -- The two outcomes of `get_free_block`.
  pub data AllocOutcome (s : FileSystem D) : Option ℕ × FileSystem D → Type 0 where
    full : ((j : ℕ) → j < s.num_blocks → s.free_blocks j ≢ 0) → AllocOutcome s (none, s)
    got : (b : ℕ) (s' : FileSystem D) → Allocated s b s' → AllocOutcome s (some b, s')

  put-bytes :
      (s : FileSystem D) (b : ℕ)
      → IsValid s
      → (i : ℕ) → i < s.num_blocks
      → put s.free_blocks b 1 i < 256
  put-bytes s b v i h = ground (arith, v.bytes i h)

  mark-Allocated :
      (s : FileSystem D) (b : ℕ)
      → IsValid s
      → IsFirst (λ i. s.free_blocks i == 0) 0 s.num_blocks b
      → Allocated s b (save_free_blocks (record s { free_blocks = put s.free_blocks b 1 }))
  unfolding save_free_blocks
  mark-Allocated s b v found = record {
    inside = omega (arith, found.upper);
    was_free = ground (arith, found.passes);
    first = λ j h. ground (arith, found.first j (omega arith) h);
    marked = refl;
    same_count = refl;
    same_inodes = refl;
    same_address = refl;
    list =
        save_free_blocks-ListOnDisk (record s { free_blocks = put s.free_blocks b 1 })
          (put-bytes s b v);
    table =
        λ on. save_free_blocks-TableOnDisk (record s { free_blocks = put s.free_blocks b 1 }) on;
    valid = record {
      words = v.words;
      bytes = put-bytes s b v;
      count = v.count;
      address = v.address;
    };
  }

  -- On a valid file system `get_free_block` fails exactly when no block is free, and changes nothing
  -- then; otherwise it takes the first free block, marks only that one, saves the free list, leaves
  -- the inode table on the disk as it was, and the file system valid.
  pub get_free_block_outcome : (s : FileSystem D) → IsValid s → AllocOutcome s (get_free_block s)
  unfolding get_free_block
  get_free_block_outcome s v =
      elim (Option-cases (find_index (λ i. s.free_blocks i == 0) s.num_blocks)) [
        | inl e ↦
            rw (e, get_free_block)
              (full λ j h. ground (arith, find_index-none _ s.num_blocks e j h))
        | inr (b, e) ↦
            rw (e, get_free_block)
              (got b _ (mark-Allocated s b v (find_index-IsFirst _ s.num_blocks e)))
      ]
