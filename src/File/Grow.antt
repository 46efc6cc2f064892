-- ===== src/File/Grow.antt =====
-- MP7_Sources/file.C: the invariant of an open file, and `get_or_alloc_block`.
use csce410_611_spring2026_p.Base.{
  ℕ, ◌+◌, ◌<◌, ◌≤◌, ◌≡◌, ◌≢◌, refl, inl, inr, true, false, Option, none, some, arith, ap, sym,
  ==_iff, put_self, put_ne, leb, put, Bool-cases, non_negative, ℕ_discrete,
}
use csce410_611_spring2026_p.BlockDevice.{BlockDevice}
use csce410_611_spring2026_p.FileSystem.{FileSystem, max_inodes, get_free_block}
use csce410_611_spring2026_p.FileSystem.Persist.{IsValid}
use csce410_611_spring2026_p.FileSystem.Alloc.{
  Allocated, AllocOutcome, full, got, get_free_block_outcome,
}
use csce410_611_spring2026_p.File.{File, max_file_blocks, max_file_size, get_or_alloc_block}

module _ {D : Type 0} where
  -- A data block that the free list marks as used
  pub record Used (s : FileSystem D) (b : ℕ) : Type 0 where
    pub data_block : 2 ≤ b
    pub inside : b < s.num_blocks
    pub marked : s.free_blocks b ≢ 0

  -- An open file on the inode `i`: the blocks of its map are used data blocks, all different.
  pub record IsOpen (f : File) (s : FileSystem D) (i : ℕ) : Type 0 where
    pub handle : f.inode ≡ some i
    pub inside : i < max_inodes
    pub position : f.current_position ≤ max_file_size
    pub mapped :
        (lb : ℕ)
        → lb < max_file_blocks
        → non_negative (f.block_map lb) ≡ true
        → Used s (f.block_map lb)
    pub distinct :
        (l k : ℕ)
        → l < max_file_blocks
        → k < max_file_blocks
        → non_negative (f.block_map l) ≡ true
        → f.block_map l ≡ f.block_map k
        → l ≡ k
    pub inodes_reserved : s.free_blocks 0 ≢ 0
    pub list_reserved : s.free_blocks 1 ≢ 0
    pub small : s.num_blocks ≤ 0x8000_0000

module _ {D : Type 0} ⦃dev : BlockDevice D⦄ where
  -- The logical block `lb` has the block `b`; the rest of the map, the cache, the position and the
  -- inodes are as they were, and no block was given back.
  pub record Grown (f : File) (s : FileSystem D) (i lb b : ℕ) (f' : File) (s' : FileSystem D)
      : Type 0 where
    pub now : f'.block_map lb ≡ b
    pub real : non_negative b ≡ true
    pub before : non_negative (f.block_map lb) ≡ true → f'.block_map lb ≡ f.block_map lb
    pub others : (l : ℕ) → l ≢ lb → f'.block_map l ≡ f.block_map l
    pub same_cache : f'.multi_block_cache ≡ f.multi_block_cache
    pub same_position : f'.current_position ≡ f.current_position
    pub same_inodes : s'.inodes ≡ s.inodes
    pub same_count : s'.num_blocks ≡ s.num_blocks
    pub still_used : (j : ℕ) → s.free_blocks j ≢ 0 → s'.free_blocks j ≢ 0
    pub still_open : IsOpen f' s' i
    pub valid : IsValid s'

  -- The outcomes of `get_or_alloc_block`
  pub data GrowOutcome (f : File) (s : FileSystem D) (i lb : ℕ)
      : Option ℕ × File × FileSystem D → Type 0 where
    too_large : max_file_blocks ≤ lb → GrowOutcome f s i lb (none, f, s)
    disk_full :
        ((j : ℕ) → j < s.num_blocks → s.free_blocks j ≢ 0) → GrowOutcome f s i lb (none, f, s)
    grown :
        (b : ℕ) (f' : File) (s' : FileSystem D)
        → lb < max_file_blocks
        → Grown f s i lb b f' s'
        → GrowOutcome f s i lb (some b, f', s')

  module _ (f : File) (s : FileSystem D) (i lb : ℕ) (o : IsOpen f s i) (v : IsValid s) where
    mapped-Grown : non_negative (f.block_map lb) ≡ true → Grown f s i lb (f.block_map lb) f s
    mapped-Grown e = record {
      now = refl;
      real = e;
      before = λ h. refl;
      others = λ l h. refl;
      same_cache = refl;
      same_position = refl;
      same_inodes = refl;
      same_count = refl;
      still_used = λ j h. h;
      still_open = o;
      valid = v;
    }

    -- The handle after a block was allocated
    abbrev extended : ℕ → File
    extended b = record f {
      block_map = put f.block_map lb b;
      num_allocated_blocks = f.num_allocated_blocks + 1;
    }

    module _ (b : ℕ) (s' : FileSystem D) (e : non_negative (f.block_map lb) ≡ false)
        (a : Allocated s b s') where
      entry : (j : ℕ) → s'.free_blocks j ≡ put s.free_blocks b 1 j
      entry j = ap (λ (g : ℕ → ℕ). g j) a.marked

      allocated-used : (j : ℕ) → s.free_blocks j ≢ 0 → s'.free_blocks j ≢ 0
      allocated-used j h = ground (arith, entry j)

      -- The block was free, so it is no block of the file, and none of the two reserved blocks.
      new_block-Used : Used s' b
      new_block-Used =
          let free = a.was_free in
          let two = o.inodes_reserved in
          let one = o.list_reserved in
          let count = a.same_count in
          let inside = a.inside in
          record {
            data_block = elim (ℕ_discrete b 0) [
              | yes e ↦ absurd (two (rw e at free))
              | no ne ↦ elim (ℕ_discrete b 1) [
                | yes e ↦ absurd (one (rw e at free))
                | no ne' ↦ omega arith
              ]
            ];
            inside = omega arith;
            marked = ground (arith, entry b);
          }

      new_block-ne :
          (l : ℕ) → l < max_file_blocks → non_negative (f.block_map l) ≡ true → f.block_map l ≢ b
      new_block-ne l h real same = (o.mapped l h real).marked (rw same a.was_free)

      allocated-mapped :
          (l : ℕ)
          → l < max_file_blocks
          → non_negative (put f.block_map lb b l) ≡ true
          → Used s' (put f.block_map lb b l)
      allocated-mapped l h real = elim (ℕ_discrete lb l) [
        | yes same ↦ rw ((==_iff lb l).1 same) new_block-Used
        | no ne ↦
            let old = rw (put_ne f.block_map lb l b ne) at real in
            let was = o.mapped l h old in
            rw (put_ne f.block_map lb l b ne) (record {
              data_block = was.data_block;
              inside = rw a.same_count was.inside;
              marked = allocated-used (f.block_map l) was.marked;
            })
      ]

      allocated-IsOpen : lb < max_file_blocks → IsOpen (extended b) s' i
      allocated-IsOpen h = record {
        handle = o.handle;
        inside = o.inside;
        position = o.position;
        mapped = allocated-mapped;
        distinct = λ l k hl hk real same.
            ground (arith, o.distinct l k hl hk, new_block-ne l hl, new_block-ne k hk);
        inodes_reserved = allocated-used 0 o.inodes_reserved;
        list_reserved = allocated-used 1 o.list_reserved;
        small = rw a.same_count o.small;
      }

      allocated-Grown : lb < max_file_blocks → Grown f s i lb b (extended b) s'
      allocated-Grown h = record {
        now = put_self f.block_map lb b;
        real = let inside = a.inside in let small = o.small in ground arith;
        before = λ real. cc;
        others = λ l ne. put_ne f.block_map lb l b (λ e. ne (sym e));
        same_cache = refl;
        same_position = refl;
        same_inodes = a.same_inodes;
        same_count = a.same_count;
        still_used = allocated-used;
        still_open = allocated-IsOpen h;
        valid = a.valid;
      }

    grow :
        {r : Option ℕ × FileSystem D}
        → AllocOutcome s r
        → get_free_block s ≡ r
        → leb max_file_blocks lb ≡ false
        → non_negative (f.block_map lb) ≡ false
        → GrowOutcome f s i lb (get_or_alloc_block f s lb)
    unfolding get_or_alloc_block
    grow (full none_free) e h fresh = rw (h, fresh, e, e, get_or_alloc_block) (disk_full none_free)
    grow (got b s' a) e h fresh =
        let inside : lb < max_file_blocks = ground arith in
        rw (h, fresh, e, e, get_or_alloc_block)
          (grown b (extended b) s' inside (allocated-Grown b s' fresh a inside))

    pub get_or_alloc_block_outcome : GrowOutcome f s i lb (get_or_alloc_block f s lb)
    unfolding get_or_alloc_block
    get_or_alloc_block_outcome = elim (Bool-cases (leb max_file_blocks lb)) [
      | inl far ↦ rw (far, get_or_alloc_block) (too_large (ground arith))
      | inr near ↦ elim (Bool-cases (non_negative (f.block_map lb))) [
        | inl real ↦
            rw (near, real, get_or_alloc_block)
              (grown (f.block_map lb) f s (ground arith) (mapped-Grown real))
        | inr fresh ↦ grow (get_free_block_outcome s v) refl near fresh
      ]
    ]
