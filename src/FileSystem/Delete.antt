-- ===== src/FileSystem/Delete.antt =====
-- MP7_Sources/file_system.C: `DeleteFile`.
use csce410_611_spring2026_p.Base.{
  ℕ, zero, suc, ◌+◌, ◌<◌, ◌≤◌, ◌≡◌, ◌≢◌, ◌∙◌, refl, sym, inl, inr, Bool, true, false, ◌&&◌, arith,
  ltb, put, Option-cases, Bool-cases, minus_one, non_negative, put_self, put_ne, ℕ_discrete,
}
use csce410_611_spring2026_p.BlockDevice.{BlockDevice}
use csce410_611_spring2026_p.FileSystem.{
  FileSystem, Inode, max_inodes, max_direct, free_block, free_listed, indirect_entry,
  ptrs_per_block, with_inode, dead_inode, without_blocks, delete_at, delete_file, lookup_inode,
  save_free_blocks, save_inodes,
}
use csce410_611_spring2026_p.FileSystem.Layout.{IsWords}
use csce410_611_spring2026_p.FileSystem.Persist.{
  IsValid, with_inode-IsValid, IsSynced, save_inodes-ListOnDisk, save_inodes-TableOnDisk,
  save_free_blocks-ListOnDisk,
}
use csce410_611_spring2026_p.FileSystem.Create.{UniqueIds, lookup_inode-some, lookup_inode-none}

-- The loop that gives blocks back
module _ (n : ℕ) (blks : ℕ → ℕ) where
  free_listed-kept :
      (k p : ℕ) (free : ℕ → ℕ) (j : ℕ)
      → ((q : ℕ) → q < p + k → blks q ≢ j)
      → free_listed n k p blks free j ≡ free j
  unfolding free_listed
  free_listed-kept zero p free j apart = refl
  free_listed-kept (suc k) p free j apart =
      free_listed-kept k (p + 1) (free_block n (blks p) free) j (λ q h. apart q (omega arith))
      ∙ ground (arith, apart p)

  free_listed-zero :
      (k p : ℕ) (free : ℕ → ℕ) (j : ℕ) → free j ≡ 0 → free_listed n k p blks free j ≡ 0
  unfolding free_listed
  free_listed-zero zero p free j e = e
  free_listed-zero (suc k) p free j e =
      free_listed-zero k (p + 1) (free_block n (blks p) free) j (ground arith)

  free_listed-freed :
      (k p : ℕ) (free : ℕ → ℕ) (q : ℕ)
      → p ≤ q
      → q < p + k
      → blks q < n
      → blks q < 0x8000_0000
      → free_listed n k p blks free (blks q) ≡ 0
  unfolding free_listed
  free_listed-freed zero p free q lo hi inside small = absurd (omega arith)
  free_listed-freed (suc k) p free q lo hi inside small = elim (ℕ_discrete p q) [
    | yes e ↦ free_listed-zero k (p + 1) (free_block n (blks p) free) (blks q) (rw e (ground arith))
    | no ne ↦
        free_listed-freed k (p + 1) (free_block n (blks p) free) q (omega arith) (omega arith)
          inside small
  ]

  free_listed-bytes :
      (k p : ℕ) (free : ℕ → ℕ)
      → ((i : ℕ) → i < n → free i < 256)
      → (i : ℕ) → i < n
      → free_listed n k p blks free i < 256
  unfolding free_listed
  free_listed-bytes zero p free bytes i h = bytes i h
  free_listed-bytes (suc k) p free bytes i h =
      free_listed-bytes k (p + 1) (free_block n (blks p) free) (λ j hj. ground (arith, bytes j hj))
        i h

module _ {D : Type 0} ⦃dev : BlockDevice D⦄ where
  -- The inode has an indirect block that `DeleteFile` follows.
  abbrev pub has_indirect : FileSystem D → Inode → Bool
  has_indirect s a = non_negative a.indirect_block_no && ltb a.indirect_block_no s.num_blocks

  -- The block `j` belongs to the inode: it is listed in it, or in its indirect block.
  pub data Owns (s : FileSystem D) (a : Inode) (j : ℕ) : Type 0 where
    direct : (d : ℕ) → d < max_direct → a.block_no d ≡ j → Owns s a j
    indirect : has_indirect s a ≡ true → a.indirect_block_no ≡ j → Owns s a j
    listed :
        (p : ℕ)
        → has_indirect s a ≡ true
        → p < ptrs_per_block
        → indirect_entry (dev.read s.disk a.indirect_block_no) p ≡ j
        → Owns s a j

  module _ (s : FileSystem D) (a : Inode) where
    -- The free list after the direct blocks, and after the blocks of the indirect block
    freed_direct : ℕ → ℕ
    freed_direct = free_listed s.num_blocks max_direct 0 a.block_no s.free_blocks

    freed_listed : ℕ → ℕ
    freed_listed =
        free_listed s.num_blocks ptrs_per_block 0
          (indirect_entry (dev.read s.disk a.indirect_block_no)) freed_direct

    without_blocks-direct : has_indirect s a ≡ false → without_blocks s a ≡ freed_direct
    unfolding without_blocks freed_direct
    without_blocks-direct e = rw e

    without_blocks-indirect :
        has_indirect s a ≡ true → without_blocks s a ≡ put freed_listed a.indirect_block_no 0
    unfolding without_blocks freed_listed freed_direct
    without_blocks-indirect e = rw e

    freed_direct-kept : (j : ℕ) → ¬ Owns s a j → freed_direct j ≡ s.free_blocks j
    unfolding freed_direct
    freed_direct-kept j other =
        free_listed-kept s.num_blocks a.block_no max_direct 0 s.free_blocks j
          (λ q h e. other (direct q (omega arith) e))

    -- The blocks of other files keep their entries.
    without_blocks-kept : (j : ℕ) → ¬ Owns s a j → without_blocks s a j ≡ s.free_blocks j
    unfolding freed_listed
    without_blocks-kept j other = elim (Bool-cases (has_indirect s a)) [
      | inl e ↦ rw (without_blocks-indirect e) (
          put_ne freed_listed a.indirect_block_no j 0 (λ same. other (indirect e same))
          ∙ free_listed-kept s.num_blocks _ ptrs_per_block 0 freed_direct j
              (λ q h same. other (listed q e (omega arith) same))
          ∙ freed_direct-kept j other)
      | inr e ↦ rw (without_blocks-direct e) (freed_direct-kept j other)
    ]

    -- Every block of the file that lies in the file system is free.
    without_blocks-freed :
        (j : ℕ) → j < s.num_blocks → j < 0x8000_0000 → Owns s a j → without_blocks s a j ≡ 0
    unfolding freed_listed freed_direct
    without_blocks-freed j h small (direct d hd same) =
        let gone : freed_direct j ≡ 0 = rw same at (
          free_listed-freed s.num_blocks a.block_no max_direct 0 s.free_blocks d (omega arith)
            (omega arith) (rw same h) (rw same small)) in
        elim (Bool-cases (has_indirect s a)) [
          | inl e ↦ rw (without_blocks-indirect e) (
              ground (
                arith,
                free_listed-zero s.num_blocks (indirect_entry (dev.read s.disk a.indirect_block_no))
                    ptrs_per_block 0 freed_direct j gone,
              ))
          | inr e ↦ rw (without_blocks-direct e) gone
        ]
    without_blocks-freed j h small (indirect e same) = rw (without_blocks-indirect e) (ground arith)
    without_blocks-freed j h small (listed p e hp same) =
        let gone : freed_listed j ≡ 0 = rw same at (
          free_listed-freed s.num_blocks (indirect_entry (dev.read s.disk a.indirect_block_no))
            ptrs_per_block 0 freed_direct p (omega arith) (omega arith) (rw same h)
            (rw same small)) in
        rw (without_blocks-indirect e) (ground arith)

    without_blocks-bytes : IsValid s → (i : ℕ) → i < s.num_blocks → without_blocks s a i < 256
    unfolding freed_listed freed_direct
    without_blocks-bytes v i h =
        let first = free_listed-bytes s.num_blocks a.block_no max_direct 0 s.free_blocks v.bytes in
        elim (Bool-cases (has_indirect s a)) [
          | inl e ↦ rw (without_blocks-indirect e) (
              ground (
                arith,
                free_listed-bytes s.num_blocks
                    (indirect_entry (dev.read s.disk a.indirect_block_no)) ptrs_per_block 0
                    freed_direct first i h,
              ))
          | inr e ↦ rw (without_blocks-direct e) (first i h)
        ]

  -- The file of the inode `i` is gone: its blocks in range are free, those of other files are
  -- as they were, its inode is unused, no other inode changes, and all is saved.
  pub record Deleted (s : FileSystem D) (i : ℕ) (s' : FileSystem D) : Type 0 where
    pub freed :
        (j : ℕ) → j < s.num_blocks → j < 0x8000_0000 → Owns s (s.inodes i) j → s'.free_blocks j ≡ 0
    pub kept : (j : ℕ) → ¬ Owns s (s.inodes i) j → s'.free_blocks j ≡ s.free_blocks j
    pub dead : (s'.inodes i).id ≡ minus_one
    pub no_direct : (d : ℕ) → d < max_direct → (s'.inodes i).block_no d ≡ minus_one
    pub no_indirect : (s'.inodes i).indirect_block_no ≡ minus_one
    pub empty : (s'.inodes i).file_size ≡ 0
    pub others : (j : ℕ) → j ≢ i → s'.inodes j ≡ s.inodes j
    pub same_count : s'.num_blocks ≡ s.num_blocks
    pub valid : IsValid s'
    pub unique : UniqueIds s'.inodes
    pub synced : IsSynced s'

  -- The two outcomes of `DeleteFile`.
  pub data DeleteOutcome (s : FileSystem D) (id : ℕ) : Bool × FileSystem D → Type 0 where
    missing : ((j : ℕ) → j < max_inodes → (s.inodes j).id ≢ id) → DeleteOutcome s id (false, s)
    deleted :
        (i : ℕ) (s' : FileSystem D)
        → i < max_inodes
        → (s.inodes i).id ≡ id
        → Deleted s i s'
        → DeleteOutcome s id (true, s')

  module _ (s : FileSystem D) (i : ℕ) (v : IsValid s) (u : UniqueIds s.inodes)
      (h : i < max_inodes) where
    dead_inode-IsWords : IsWords (dead_inode (s.inodes i))
    unfolding dead_inode
    dead_inode-IsWords = record {
      id = omega arith;
      block_no = λ d hd. ground arith;
      indirect_block_no = omega arith;
      file_size = omega arith;
      fs = (v.words i h).fs;
    }

    dead-UniqueIds : UniqueIds (with_inode s i (dead_inode (s.inodes i))).inodes
    unfolding dead_inode
    dead-UniqueIds j k hj hk same live = ground (arith, u j k hj hk)

    freed-IsValid : IsValid (record s { free_blocks = without_blocks s (s.inodes i) })
    freed-IsValid = record {
      words = v.words;
      bytes = without_blocks-bytes s (s.inodes i) v;
      count = v.count;
      address = v.address;
    }

    delete_at-Deleted : Deleted s i (delete_at s i)
    unfolding delete_at save_inodes save_free_blocks dead_inode
    delete_at-Deleted =
        let freed = record s { free_blocks = without_blocks s (s.inodes i) } in
        let dead = with_inode (save_free_blocks freed) i (dead_inode (s.inodes i)) in
        let now = with_inode-IsValid freed i _ dead_inode-IsWords freed-IsValid in
        record {
          freed = without_blocks-freed s (s.inodes i);
          kept = without_blocks-kept s (s.inodes i);
          dead = rw (put_self s.inodes i (dead_inode (s.inodes i)));
          no_direct = λ d hd. ground arith;
          no_indirect = rw (put_self s.inodes i (dead_inode (s.inodes i)));
          empty = rw (put_self s.inodes i (dead_inode (s.inodes i)));
          others = λ j ne. put_ne s.inodes i j _ (λ e. ne (sym e));
          same_count = refl;
          valid = record {
            words = now.words;
            bytes = now.bytes;
            count = now.count;
            address = now.address;
          };
          unique = dead-UniqueIds;
          synced = record {
            table = save_inodes-TableOnDisk dead;
            list =
                save_inodes-ListOnDisk dead (save_free_blocks-ListOnDisk freed freed-IsValid.bytes);
          };
        }

  -- On a valid file system with unique ids, `DeleteFile` refuses an id that no inode has, and
  -- otherwise deletes the file of an inode with that id.
  pub delete_file_outcome :
      (s : FileSystem D) (id : ℕ)
      → IsValid s
      → UniqueIds s.inodes
      → DeleteOutcome s id (delete_file s id)
  unfolding delete_file
  delete_file_outcome s id v u = elim (Option-cases (lookup_inode s.inodes id)) [
    | inl e ↦ rw (e, delete_file) (missing (lookup_inode-none s.inodes id e))
    | inr found ↦
        let (h, same) = lookup_inode-some s.inodes id found.0 found.1 in
        rw (found.1, delete_file) (deleted found.0 _ h same (delete_at-Deleted s found.0 v u h))
  ]
