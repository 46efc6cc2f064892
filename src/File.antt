-- ===== src/File.antt =====
-- MP7_Sources/file.H and file.C: class File, a handle with a cache of the whole file. Its inode is
-- an index into the table of the file system, which the handle shares with the other handles, so an
-- operation takes the file system and returns the new one.
pub mod Close
pub mod Grow
pub mod ReadWrite
pub mod Single
mod Tests
pub mod Write
use csce410_611_spring2026_p.Base.{
  ℕ, zero, suc, ◌+◌, ◌-◌, ◌*◌, ◌/◌, ◌%◌, Bool, true, false, ◌&&◌, not, Option, none, some, ltb, leb,
  ◌==◌, if◌then◌else◌, put, copy, byte_of, non_negative, minus_one, word_size, is_some,
}
use csce410_611_spring2026_p.Base.Search.{find_index}
use csce410_611_spring2026_p.BlockDevice.{Block, BlockDevice, block_size}
use csce410_611_spring2026_p.FileSystem.{
  FileSystem, Inode, max_direct, ptrs_per_block, indirect_entry, with_inode, zeros, get_free_block,
  save_inodes, lookup_inode,
}

-- `PTRS_PER_INDIRECT` is `ptrs_per_block`.
abbrev pub max_file_blocks : ℕ
max_file_blocks = max_direct + ptrs_per_block

abbrev pub max_file_size : ℕ
max_file_size = max_file_blocks * block_size

-- `inode` is `none` for `nullptr`. `block_map` has `max_file_blocks` words and `multi_block_cache`
-- `max_file_size` bytes.
pub record File : Type 0 where
  pub inode : Option ℕ
  pub current_position : ℕ
  pub block_cache : ℕ → ℕ
  pub multi_block_cache : ℕ → ℕ
  pub block_map : ℕ → ℕ
  pub num_allocated_blocks : ℕ

-- `for (i = 0; i < n; i++) dst[at + i] = src[i]`
abbrev pub splice : ℕ → ℕ → (ℕ → ℕ) → (ℕ → ℕ) → ℕ → ℕ
splice at n src dst j = if leb at j && ltb j (at + n) then src (j - at) else dst j

-- The bytes of the block `lb` of a cache
abbrev pub part : (ℕ → ℕ) → ℕ → Block
part cache lb i = cache (lb * block_size + i)

-- The indirect block that `save_indirect_block` writes
unfoldable pub indirect_image : (ℕ → ℕ) → Block
indirect_image map j = if ltb j block_size then byte_of (map (max_direct + j / 4)) (j % 4) else 0

-- `any_indirect`
unfoldable pub any_indirect : (ℕ → ℕ) → Bool
any_indirect map = is_some (find_index (λ p. non_negative (map (max_direct + p))) ptrs_per_block)

-- The bytes that one round of the loop of `Write` takes
abbrev pub chunk_of : (position written to_write : ℕ) → ℕ
chunk_of position written to_write =
    let space = block_size - (position + written) % block_size in
    if ltb (to_write - written) space then to_write - written else space

abbrev pub with_chunk : File → (buf : ℕ → ℕ) (written chunk : ℕ) → File
with_chunk f buf written chunk = record f {
  multi_block_cache =
      splice (f.current_position + written) chunk (λ k. buf (written + k)) f.multi_block_cache;
}

module _ {D : Type 0} ⦃dev : BlockDevice D⦄ where
  -- The block map of a handle on the inode `a`, after `load_indirect_block`
  unfoldable pub load_indirect_block : D → Inode → (ℕ → ℕ) → ℕ → ℕ
  load_indirect_block d a map =
      if non_negative a.indirect_block_no
      then splice max_direct ptrs_per_block (indirect_entry (dev.read d a.indirect_block_no)) map
      else map

  -- The loop that reads the mapped blocks, with `k` rounds left, at block `lb`
  unfoldable pub load_blocks : D → (map : ℕ → ℕ) (k lb : ℕ) → (ℕ → ℕ) → ℕ → (ℕ → ℕ) × ℕ
  load_blocks d map zero lb cache count = (cache, count)
  load_blocks d map (suc k) lb cache count =
      let used = non_negative (map lb) in
      load_blocks d map k (lb + 1)
        (if used then splice (lb * block_size) block_size (dev.read d (map lb)) cache else cache)
        (if used then count + 1 else count)

  -- The constructor
  unfoldable pub open_file : FileSystem D → ℕ → File
  unfolding load_indirect_block
  open_file s id = elim (lookup_inode s.inodes id) [
    | none ↦ record {
      inode = none;
      current_position = 0;
      block_cache = zeros;
      multi_block_cache = zeros;
      block_map = λ lb. minus_one;
      num_allocated_blocks = 0;
    }
    | some i ↦
        let a = s.inodes i in
        let map = load_indirect_block s.disk a (copy max_direct a.block_no (λ lb. minus_one)) in
        let (cache, count) = load_blocks s.disk map max_file_blocks 0 zeros 0 in
        record {
          inode = some i;
          current_position = 0;
          block_cache = zeros;
          multi_block_cache = cache;
          block_map = map;
          num_allocated_blocks = count;
        }
  ]

  -- The loop of the destructor that writes the mapped blocks, with `k` rounds left, at block `lb`
  unfoldable pub store_blocks : (map cache : ℕ → ℕ) (k lb : ℕ) → D → D
  store_blocks map cache zero lb d = d
  store_blocks map cache (suc k) lb d =
      store_blocks map cache k (lb + 1)
        (if non_negative (map lb) then dev.write d (map lb) (part cache lb) else d)

  -- The end of `save_indirect_block`: the write of the block `ib`
  abbrev pub store_indirect : (map : ℕ → ℕ) → ℕ → FileSystem D → FileSystem D
  store_indirect map ib s = record s { disk = dev.write s.disk ib (indirect_image map) }

  -- The step of `save_indirect_block` that allocates the indirect block of the inode `i`
  unfoldable pub new_indirect : (map : ℕ → ℕ) (i : ℕ) → FileSystem D → FileSystem D
  new_indirect map i s =
      let (got, s') = get_free_block s in
      elim got [
        | none ↦ s'
        | some ib ↦
            store_indirect map ib
              (with_inode s' i (record (s'.inodes i) { indirect_block_no = ib }))
      ]

  -- `save_indirect_block` for a handle with this block map, on the inode `i`
  unfoldable pub save_indirect_block : (map : ℕ → ℕ) (i : ℕ) → FileSystem D → FileSystem D
  save_indirect_block map i s =
      if any_indirect map
      then (if non_negative (s.inodes i).indirect_block_no
          then store_indirect map (s.inodes i).indirect_block_no s
          else new_indirect map i s)
      else s

  -- The destructor
  unfoldable pub close_file : File → FileSystem D → FileSystem D
  close_file f s = elim f.inode [
    | none ↦ save_inodes s
    | some i ↦
        let stored = record s {
          disk = store_blocks f.block_map f.multi_block_cache max_file_blocks 0 s.disk;
        } in
        let s₁ = save_indirect_block f.block_map i stored in
        save_inodes (
          with_inode s₁ i (record (s₁.inodes i) {
            block_no = copy max_direct f.block_map (s₁.inodes i).block_no;
          }))
  ]

  -- `none` stands for -1.
  unfoldable pub get_or_alloc_block : File → FileSystem D → ℕ → Option ℕ × File × FileSystem D
  get_or_alloc_block f s lb =
      if leb max_file_blocks lb
      then (none, f, s)
      else if non_negative (f.block_map lb)
      then (some (f.block_map lb), f, s)
      else let (got, s') = get_free_block s in
        elim got [
          | none ↦ (none, f, s')
          | some b ↦ (
            some b,
            record f {
              block_map = put f.block_map lb b;
              num_allocated_blocks = f.num_allocated_blocks + 1;
            },
            s',
          )
        ]

  -- `Read`: the number of bytes, the caller's buffer, and the handle
  unfoldable pub read : FileSystem D → File → ℕ → (buf : ℕ → ℕ) → ℕ × (ℕ → ℕ) × File
  read s f n buf = elim f.inode [
    | none ↦ (0, buf, f)
    | some i ↦
        let size = (s.inodes i).file_size in
        if leb size f.current_position
        then (0, buf, f)
        else let left = size - f.current_position in
          let count = if ltb n left then n else left in
          (
            count,
            copy count (λ k. f.multi_block_cache (f.current_position + k)) buf,
            record f { current_position = f.current_position + count },
          )
  ]

  -- One round of the loop of `Write`, given what `get_or_alloc_block` returned and the rest of the
  -- loop: it stops where the disk is full.
  unfoldable pub write_round :
      (rest : ℕ → File → FileSystem D → Option (ℕ × File × FileSystem D))
      → (buf : ℕ → ℕ) (to_write written : ℕ) → Option ℕ × File × FileSystem D
      → Option (ℕ × File × FileSystem D)
  write_round rest buf to_write written (none, f, s) = some (written, f, s)
  write_round rest buf to_write written (some b, f, s) =
      let chunk = chunk_of f.current_position written to_write in
      rest (written + chunk) (with_chunk f buf written chunk) s

  -- The loop of `Write`, on fuel: `none` means that the fuel ran out.
  unfoldable pub write_loop :
      (fuel : ℕ) (buf : ℕ → ℕ) (to_write written : ℕ)
      → File
      → FileSystem D
      → Option (ℕ × File × FileSystem D)
  unfolding write_round
  write_loop zero buf to_write written f s = none
  write_loop (suc fuel) buf to_write written f s = elim (ltb written to_write) [
    | false ↦ some (written, f, s)
    | true ↦
        write_round (write_loop fuel buf to_write) buf to_write written
          (get_or_alloc_block f s ((f.current_position + written) / block_size))
  ]

  -- `Write`: the number of bytes, the handle and the file system
  unfoldable pub write : FileSystem D → File → ℕ → (buf : ℕ → ℕ) → Option (ℕ × File × FileSystem D)
  write s f n buf = elim f.inode [
    | none ↦ some (0, f, s)
    | some i ↦
        let space = (word_size + max_file_size - f.current_position) % word_size in
        let to_write = if ltb n space then n else space in
        elim (write_loop (to_write + 1) buf to_write 0 f s) [
          | none ↦ none
          | some (written, f', s') ↦
              let position = f'.current_position + written in
              let size = (s'.inodes i).file_size in
              some (
                written,
                record f' { current_position = position },
                with_inode s' i (record (s'.inodes i) {
                  file_size = if ltb size position then position else size;
                }),
              )
        ]
  ]

  -- `EoF`
  unfoldable pub at_end : FileSystem D → File → Bool
  at_end s f = elim f.inode [ none ↦ true | some i ↦ leb (s.inodes i).file_size f.current_position ]

-- `Reset`
unfoldable pub reset : File → File
reset f = record f { current_position = 0 }
