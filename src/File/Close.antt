-- ===== src/File/Close.antt =====
-- MP7_Sources/file.C: what a write of 20 characters to a new file, and the close of a file of one block, change of the
-- file system.
use csce410_611_spring2026_p.BlockDevice.{BlockDevice, block_size}
use csce410_611_spring2026_p.FileSystem.{
  max_inodes, FileSystem, Inode, max_direct, with_inode, save_inodes,
}
use csce410_611_spring2026_p.FileSystem.Layout.{IsWords}
use csce410_611_spring2026_p.FileSystem.Persist.{
  IsValid, ListOnDisk, with_inode-IsValid, save_inodes-ListOnDisk,
}
use csce410_611_spring2026_p.FileSystem.Alloc.{
  Allocated, AllocOutcome, full, got, get_free_block_outcome,
}
use csce410_611_spring2026_p.FileSystem.Create.{UniqueIds}
use csce410_611_spring2026_p.File.{get_free_block, splice, zeros, write, part, close_file}
use csce410_611_spring2026_p.File.Single.{
  IsSingle, single, handle_at, close_file-single, empty_handle, write-new,
}
use csce410_611_spring2026_p.Base.{
  minus_one, ℕ, ◌+◌, ◌<◌, ◌≤◌, ◌≡◌, ◌≢◌, refl, sym, ◌∙◌, Option, some, arith, ◌==◌, if◌then◌else◌,
  put, put_ne, put_self, copy,
}

module _ {D : Type 0} ⦃dev : BlockDevice D⦄ where
  -- What every operation of the file system needs and keeps
  pub record IsSteady (s : FileSystem D) : Type 0 where
    pub valid : IsValid s
    pub unique : UniqueIds s.inodes
    pub list : ListOnDisk s.num_blocks s.free_blocks s.disk

  -- The block `b` holds what the handle has in its cache, the inode `i` lists that block and no other; no other block
  -- but that of the inode table has changed, and no other inode.
  pub record Closed (s : FileSystem D) (i b : ℕ) (cache : ℕ → ℕ) (s' : FileSystem D) : Type 0 where
    pub steady : IsSteady s'
    pub block : (k : ℕ) → k < block_size → dev.read s'.disk b k ≡ cache k
    pub other_blocks :
        (c k : ℕ)
        → c < dev.blocks
        → c ≢ 0
        → c ≢ b
        → k < block_size
        → dev.read s'.disk c k ≡ dev.read s.disk c k
    pub entry : IsSingle b (s.inodes i).file_size (s'.inodes i)
    pub same_id : (s'.inodes i).id ≡ (s.inodes i).id
    pub others : (j : ℕ) → j ≢ i → s'.inodes j ≡ s.inodes j
    pub same_list : s'.free_blocks ≡ s.free_blocks
    pub same_count : s'.num_blocks ≡ s.num_blocks

  same_id-UniqueIds :
      (s : FileSystem D) (i : ℕ) (a : Inode)
      → a.id ≡ (s.inodes i).id
      → UniqueIds s.inodes
      → UniqueIds (with_inode s i a).inodes
  same_id-UniqueIds s i a same u j k hj hk e live = ground (arith, u j k hj hk)

  module _ (s : FileSystem D) (i b position : ℕ) (cache : ℕ → ℕ) (steady : IsSteady s)
      (above : 2 ≤ b) (inside : b < dev.blocks) (small : b < 0x8000_0000) (hi : i < max_inodes)
      (bytes : (k : ℕ) → k < block_size → cache k < 256)
      (plain : (s.inodes i).indirect_block_no ≡ minus_one) where
    entry_of : Inode
    entry_of = record (s.inodes i) { block_no = copy max_direct (single b) (s.inodes i).block_no }

    stored_of : FileSystem D
    stored_of = record s { disk = dev.write s.disk b (part cache 0) }

    stored_block :
        (c k : ℕ)
        → c < dev.blocks
        → k < block_size
        → dev.read stored_of.disk c k ≡ (if c == b then cache k else dev.read s.disk c k)
    unfolding stored_of
    stored_block c k hc hk = ground (
      arith,
      dev.read-write_self s.disk b (part cache 0) k inside hk,
      dev.read-write_ne s.disk b (part cache 0) c k inside hc,
      bytes k hk,
    )

    stored_list : ListOnDisk s.num_blocks s.free_blocks stored_of.disk
    stored_list = record {
      list_image = λ k hk.
          stored_block 1 k (omega (arith, dev.has_metadata)) hk
          ∙ ground (arith, steady.list.list_image k hk);
    }

    entry-IsWords : IsWords entry_of
    unfolding entry_of
    entry-IsWords =
        let old = steady.valid.words i hi in
        record {
          id = old.id;
          block_no = λ d hd. ground (arith, old.block_no d hd);
          indirect_block_no = old.indirect_block_no;
          file_size = old.file_size;
          fs = old.fs;
        }

    saved_of : FileSystem D
    saved_of = save_inodes (with_inode stored_of i entry_of)

    saved_block :
        (c k : ℕ)
        → c < dev.blocks
        → c ≢ 0
        → k < block_size
        → dev.read saved_of.disk c k ≡ (if c == b then cache k else dev.read s.disk c k)
    unfolding saved_of save_inodes
    saved_block c k hc ne hk =
        dev.read-write_ne stored_of.disk 0 _ c k (omega (arith, dev.has_metadata)) hc
          (λ e. ne (sym e)) hk
        ∙ stored_block c k hc hk

    saved-IsSteady : IsSteady saved_of
    unfolding saved_of save_inodes stored_of entry_of
    saved-IsSteady =
        let now = with_inode-IsValid s i entry_of entry-IsWords steady.valid in
        record {
          valid = record {
            words = now.words;
            bytes = now.bytes;
            count = now.count;
            address = now.address;
          };
          unique = same_id-UniqueIds s i entry_of refl steady.unique;
          list = save_inodes-ListOnDisk (with_inode stored_of i entry_of) stored_list;
        }

    entry-IsSingle : IsSingle b (s.inodes i).file_size entry_of
    unfolding entry_of
    entry-IsSingle = record {
      first = refl;
      others = λ d pos hd. ground arith;
      no_indirect = plain;
      size = refl;
    }

    pub close_file-Closed : Closed s i b cache (close_file (handle_at i b position cache) s)
    unfolding saved_of stored_of save_inodes entry_of
    close_file-Closed = rw (close_file-single s i b position cache (ground arith)) (record {
      steady = saved-IsSteady;
      block = λ k hk. saved_block b k inside (omega arith) hk ∙ ground arith;
      other_blocks = λ c k hc ne apart hk. saved_block c k hc ne hk ∙ ground arith;
      entry = rw (put_self s.inodes i entry_of) entry-IsSingle;
      same_id = rw (put_self s.inodes i entry_of) refl;
      others = λ j ne. put_ne s.inodes i j entry_of (λ e. ne (sym e));
      same_list = refl;
      same_count = refl;
    })

  -- The inode `i` has the size 20 and is else as before; the block `b` was free and is taken.
  pub record WroteNew (s : FileSystem D) (i b : ℕ) (s' : FileSystem D) : Type 0 where
    pub steady : IsSteady s'
    pub inside : b < s.num_blocks
    pub was_free : s.free_blocks b ≡ 0
    pub marked : s'.free_blocks ≡ put s.free_blocks b 1
    pub same_count : s'.num_blocks ≡ s.num_blocks
    pub entry : s'.inodes i ≡ record (s.inodes i) { file_size = 20 }
    pub others : (j : ℕ) → j ≢ i → s'.inodes j ≡ s.inodes j

  sized-IsSteady :
      (s s₁ : FileSystem D) (i b : ℕ)
      → i < max_inodes
      → IsSteady s
      → Allocated s b s₁
      → IsSteady (with_inode s₁ i (record (s₁.inodes i) { file_size = 20 }))
  sized-IsSteady s s₁ i b hi steady a =
      let old = a.valid.words i hi in
      let sized : Inode = record (s₁.inodes i) { file_size = 20 } in
      record {
        valid =
            with_inode-IsValid s₁ i sized
              (record {
                id = old.id;
                block_no = old.block_no;
                indirect_block_no = old.indirect_block_no;
                file_size = omega arith;
                fs = old.fs;
              })
              a.valid;
        unique = same_id-UniqueIds s₁ i sized refl (rw a.same_inodes steady.unique);
        list = record { list_image = a.list.list_image };
      }

  -- A write of 20 characters to a new file succeeds while a block is free.
  pub write_new_lem :
      (s : FileSystem D) (i j : ℕ) (text : ℕ → ℕ)
      → IsSteady s
      → i < max_inodes
      → (s.inodes i).file_size ≡ 0
      → j < s.num_blocks
      → s.free_blocks j ≡ 0
      → (b : ℕ) × (s' : FileSystem D) × WroteNew s i b s'
        × (write s (empty_handle i) 20 text
            ≡ some (20, handle_at i b 20 (splice 0 20 (λ k. text (0 + k)) zeros), s'))
  write_new_lem s i j text steady hi empty hj free =
      from _ (get_free_block_outcome s steady.valid) refl
    where
      from :
          (r : Option ℕ × FileSystem D)
          → AllocOutcome s r
          → get_free_block s ≡ r
          → (b : ℕ) × (s' : FileSystem D) × WroteNew s i b s'
            × (write s (empty_handle i) 20 text
                ≡ some (20, handle_at i b 20 (splice 0 20 (λ k. text (0 + k)) zeros), s'))
      from r (full none_free) e = absurd (none_free j hj free)
      from r (got b s₁ a) e = (
        b,
        with_inode s₁ i (record (s₁.inodes i) { file_size = 20 }),
        record {
          steady = sized-IsSteady s s₁ i b hi steady a;
          inside = a.inside;
          was_free = a.was_free;
          marked = a.marked;
          same_count = a.same_count;
          entry = rw (put_self s₁.inodes i _, a.same_inodes) refl;
          others = λ k ne. put_ne s₁.inodes i k _ (λ e. ne (sym e)) ∙ rw a.same_inodes refl;
        },
        write-new s s₁ i b text e (rw a.same_inodes empty),
      )
