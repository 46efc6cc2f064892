-- ===== src/File/Single.antt =====
-- MP7_Sources/file.C: a file of at most one block, from the open of a new file to the close, and open again.
use csce410_611_spring2026_p.Base.Search.{find_index}
use csce410_611_spring2026_p.BlockDevice.{BlockDevice, block_size}
use csce410_611_spring2026_p.FileSystem.{
  FileSystem, Inode, max_direct, zeros, with_inode, save_inodes, lookup_inode, get_free_block,
}
use csce410_611_spring2026_p.FileSystem.Create.{IsNewFile}
use csce410_611_spring2026_p.File.{
  File, max_file_blocks, splice, part, any_indirect, load_indirect_block, load_blocks, open_file,
  store_blocks, save_indirect_block, close_file, get_or_alloc_block, write_loop, write,
}
use csce410_611_spring2026_p.Base.{
  fun_ext, non_negative, minus_one, ℕ, zero, suc, ◌+◌, ◌<◌, ◌≡◌, refl, true, false, some, arith,
  ◌==◌, if◌then◌else◌, copy,
}

-- The block map with one block, and with none
abbrev pub single : ℕ → ℕ → ℕ
single b lb = if 0 == lb then b else minus_one

abbrev pub nothing : ℕ → ℕ
nothing lb = minus_one

-- A handle on the inode `i` that has just been opened, without blocks
abbrev pub empty_handle : ℕ → File
empty_handle i = record {
  inode = some i;
  current_position = 0;
  block_cache = zeros;
  multi_block_cache = zeros;
  block_map = nothing;
  num_allocated_blocks = 0;
}

-- A handle on the inode `i` with the one block `b`
abbrev pub handle_at : (i b position : ℕ) → (ℕ → ℕ) → File
handle_at i b position cache = record {
  inode = some i;
  current_position = position;
  block_cache = zeros;
  multi_block_cache = cache;
  block_map = single b;
  num_allocated_blocks = 1;
}

-- An inode of one block
pub record IsSingle (b bytes : ℕ) (a : Inode) : Type 0 where
  pub first : a.block_no 0 ≡ b
  pub others : (d : ℕ) → 0 < d → d < max_direct → a.block_no d ≡ minus_one
  pub no_indirect : a.indirect_block_no ≡ minus_one
  pub size : a.file_size ≡ bytes

no_indirect-single : (b : ℕ) → any_indirect (single b) ≡ false
unfolding any_indirect find_index
no_indirect-single b = refl

module _ {D : Type 0} ⦃dev : BlockDevice D⦄ where
  load_nothing :
      (d : D) (k lb : ℕ) (cache : ℕ → ℕ) (count : ℕ)
      → load_blocks d nothing k lb cache count ≡ (cache, count)
  unfolding load_blocks
  load_nothing d zero lb cache count = refl
  load_nothing d (suc k) lb cache count = load_nothing d k (lb + 1) cache count

  load_behind :
      (d : D) (b k lb : ℕ) (cache : ℕ → ℕ) (count : ℕ)
      → 0 < lb
      → load_blocks d (single b) k lb cache count ≡ (cache, count)
  unfolding load_blocks
  load_behind d b zero lb cache count pos = refl
  load_behind d b (suc k) lb cache count pos =
      let away : (0 == lb) ≡ false = ground arith in
      rw away (load_behind d b k (lb + 1) cache count (omega arith))

  store_behind :
      (d : D) (b k lb : ℕ) (cache : ℕ → ℕ) → 0 < lb → store_blocks (single b) cache k lb d ≡ d
  unfolding store_blocks
  store_behind d b zero lb cache pos = refl
  store_behind d b (suc k) lb cache pos =
      let away : (0 == lb) ≡ false = ground arith in
      rw away (store_behind d b k (lb + 1) cache (omega arith))

  load_single :
      (d : D) (b k : ℕ)
      → non_negative b ≡ true
      → load_blocks d (single b) (suc k) 0 zeros 0 ≡ (splice 0 block_size (dev.read d b) zeros, 1)
  unfolding load_blocks
  load_single d b k real = rw real (load_behind d b k 1 _ 1 (omega arith))

  load_no_indirect :
      (d : D) (a : Inode) (map : ℕ → ℕ)
      → a.indirect_block_no ≡ minus_one
      → load_indirect_block d a map ≡ map
  unfolding load_indirect_block
  load_no_indirect d a map e = rw e

  -- A new file is opened without blocks.
  pub open_file-new :
      (s : FileSystem D) (id self i : ℕ)
      → lookup_inode s.inodes id ≡ some i
      → IsNewFile id self (s.inodes i)
      → open_file s id ≡ empty_handle i
  unfolding open_file
  open_file-new s id self i found new =
      let direct : ℕ → ℕ = copy max_direct (s.inodes i).block_no (λ lb. minus_one) in
      let plain = load_no_indirect s.disk (s.inodes i) direct new.no_indirect in
      let map : direct ≡ nothing = fun_ext λ lb. ground (arith, new.no_direct lb) in
      rw (found, open_file) (rw (plain, map, load_nothing s.disk max_file_blocks 0 zeros 0))

  -- A file of one block is opened with it.
  pub open_file-single :
      (s : FileSystem D) (id i b bytes : ℕ)
      → lookup_inode s.inodes id ≡ some i
      → IsSingle b bytes (s.inodes i)
      → non_negative b ≡ true
      → open_file s id ≡ handle_at i b 0 (splice 0 block_size (dev.read s.disk b) zeros)
  unfolding open_file
  open_file-single s id i b bytes found one real =
      let direct : ℕ → ℕ = copy max_direct (s.inodes i).block_no (λ lb. minus_one) in
      let plain = load_no_indirect s.disk (s.inodes i) direct one.no_indirect in
      let map : direct ≡ single b = fun_ext λ lb. ground (arith, one.others lb, one.first) in
      rw (found, open_file) (rw (plain, map, load_single s.disk b 131 real))

  store_single :
      (d : D) (b k : ℕ) (cache : ℕ → ℕ)
      → non_negative b ≡ true
      → store_blocks (single b) cache (suc k) 0 d ≡ dev.write d b (part cache 0)
  unfolding store_blocks
  store_single d b k cache real =
      rw real (store_behind (dev.write d b (part cache 0)) b k 1 cache (omega arith))

  -- What the destructor leaves of a file system, for a handle with one block
  abbrev pub closed : FileSystem D → (i b : ℕ) → (ℕ → ℕ) → FileSystem D
  closed s i b cache = save_inodes (
      with_inode (record s { disk = dev.write s.disk b (part cache 0) }) i
        (record (s.inodes i) { block_no = copy max_direct (single b) (s.inodes i).block_no }))

  pub close_file-single :
      (s : FileSystem D) (i b position : ℕ) (cache : ℕ → ℕ)
      → non_negative b ≡ true
      → close_file (handle_at i b position cache) s ≡ closed s i b cache
  unfolding close_file save_indirect_block
  close_file-single s i b position cache real =
      rw (no_indirect-single b, store_single s.disk b 131 cache real)

  -- `Write` of 20 characters to a new file, when a block is free
  pub write-new :
      (s s₁ : FileSystem D) (i b : ℕ) (text : ℕ → ℕ)
      → get_free_block s ≡ (some b, s₁)
      → (s₁.inodes i).file_size ≡ 0
      → write s (empty_handle i) 20 text
        ≡ some (
          20,
          handle_at i b 20 (splice 0 20 (λ k. text (0 + k)) zeros),
          with_inode s₁ i (record (s₁.inodes i) { file_size = 20 }),
        )
  unfolding write write_loop get_or_alloc_block
  write-new s s₁ i b text got empty = rw (got, write) (rw (got, empty) refl)
