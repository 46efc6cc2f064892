-- ===== src/PageTable.antt =====
-- MP4_Sources/page_table.{H,C}: class PageTable. A table is the address of its page directory. Memory is reached by
-- address: through the mmu when paging is on, and directly before. A page fault inside the code ends the run
-- (`halted`). The list of registered pools holds the pools as they were registered: the fault handler reads only their
-- address and size, which do not change.
pub mod Access
pub mod Fault
pub mod Handle
pub mod Setup
pub mod Fill
pub mod FreePage
pub mod Steps
pub mod Take
pub mod Tests
use csce410_611_spring2026_p.Base.Run.{Run, ok, halted, ◌>>=◌}
use csce410_611_spring2026_p.MemPool.{page_size}
use csce410_611_spring2026_p.FramePool.{ContFramePool, Pools, get_frames, release_frames}
use csce410_611_spring2026_p.VmPool.{VmPool, is_legitimate}
use csce410_611_spring2026_p.Mmu.{Mmu, Frames, store, is_present}
use csce410_611_spring2026_p.Base.{
  ℕ, zero, suc, not, ◌+◌, ◌-◌, ◌*◌, ◌%◌, ◌<◌, ◌≤◌, ◌≡◌, ◌≢◌, refl, sym, ap, ◌∙◌, inl, inr, ◌⊎◌,
  Bool, true, false, ◌&&◌, ◌||◌, ◌/◌, ◌^◌, Option, some, none, List, [], ◌∷◌, ◌++◌, arith, ltb,
  ◌==◌, if◌then◌else◌, put, put_ne, put_self, ℕ_discrete, dec_lt, copy, field_of, with_field,
  with_field-lt, field_of-with_field, field_of-put, length, Bool-cases, word_size, leb,
}

-- The static members, memory, and the control registers
pub record Paging : Type 0 where
  pub current_directory : ℕ
  pub paging_enabled : ℕ
  pub kernel_mem_pool : ContFramePool
  pub process_mem_pool : ContFramePool
  pub shared_size : ℕ
  pub vm_pools : List VmPool
  pub memory : Frames
  pub cr0 : ℕ
  pub cr3 : ℕ

abbrev pub paging_bit : ℕ
paging_bit = 0x8000_0000

unfoldable pub init_paging : Paging → (kernel process : ContFramePool) → ℕ → Paging
init_paging s kernel process size = record s {
  kernel_mem_pool = kernel;
  process_mem_pool = process;
  shared_size = size;
}

-- `address | 3`: present and writable
abbrev pub mapped_entry : ℕ → ℕ
mapped_entry address = address / 4 * 4 + 3

-- `get_frames(1) * PAGE_SIZE` from the pool of the process, on fuel
unfoldable pub take_page : ℕ → Paging → Run (ℕ × Paging)
take_page fuel s =
    get_frames fuel s.process_mem_pool 1
    >>= (λ r. ok (r.0 * page_size % word_size, record s { process_mem_pool = r.1 }))

unfoldable pub register_pool : Paging → VmPool → Paging
register_pool s pool = record s { vm_pools = s.vm_pools ++ (pool ∷ []) }

-- The loop over the pools in `handle_fault`: whether `addr_present` is set, and whether `ptr` is not null behind it
unfoldable pub find_pool : List VmPool → ℕ → Bool × Bool
find_pool [] address = (false, false)
find_pool (p ∷ ps) address =
    let rest = find_pool ps address in if is_legitimate p address then (true, true) else rest

module _ ⦃mmu : Mmu⦄ where
  unfoldable pub translate : Paging → ℕ → Option ℕ
  translate s page =
      if leb paging_bit s.cr0 then mmu.frame_of s.memory (s.cr3 / 4096) page else some page

  unfoldable pub read_word : Paging → ℕ → Run ℕ
  read_word s address = elim (translate s (address / 4096)) [
    | some f ↦ ok (s.memory f (address % 4096 / 4))
    | none ↦ halted
  ]

  unfoldable pub write_word : Paging → (address v : ℕ) → Run Paging
  write_word s address v = elim (translate s (address / 4096)) [
    | some f ↦ ok (record s { memory = store s.memory f (address % 4096 / 4) v })
    | none ↦ halted
  ]

  -- The loops of the constructor: `k` words from index `i` of the array at `array`
  unfoldable pub fill : (value : ℕ → ℕ) → (k i array : ℕ) → Paging → Run Paging
  unfolding write_word
  fill value zero i array s = ok s
  fill value (suc k) i array s =
      write_word s ((array + 4 * i) % word_size) (value i) >>= fill value k (i + 1) array

  -- `PageTable::PageTable`: the address of the directory, and the state
  unfoldable pub new_page_table : ℕ → Paging → Run (ℕ × Paging)
  unfolding write_word take_page fill
  new_page_table fuel s = get_frames fuel s.kernel_mem_pool 1 >>= (λ r.
      let directory = r.0 * page_size % word_size in
      write_word (record s { kernel_mem_pool = r.1 }) ((directory + 4 * 1023) % word_size)
        (mapped_entry directory)
      >>= take_page fuel
      >>= (λ q.
          fill (λ i. mapped_entry (i * page_size)) 1024 0 q.0 q.1
          >>= (λ s'. write_word s' directory (mapped_entry q.0))
          >>= fill (λ i. 2) 1022 1 directory)
      >>= (λ s'. ok (directory, record s' { paging_enabled = 0 })))

  -- `load`; it shows an entry of the directory.
  unfoldable pub load : ℕ → Paging → Run Paging
  unfolding read_word
  load directory s =
      read_word s ((directory + 4) % word_size)
      >>= (λ shown. ok (record s { current_directory = directory; cr3 = directory }))

  unfoldable pub enable_paging : Paging → Paging
  enable_paging s = record s {
    cr0 = if leb paging_bit s.cr0 then s.cr0 else s.cr0 + paging_bit;
    paging_enabled = 1;
  }

  -- A table for the directory entry `i`, which is written through the last entry of the directory
  unfoldable pub new_table : ℕ → ℕ → Paging → Run Paging
  unfolding write_word take_page
  new_table fuel i s =
      take_page fuel s >>= (λ r. write_word r.1 (0xffff_f000 + 4 * i) (mapped_entry r.0))

  -- A page for entry `t` of the table of the directory entry `i`
  unfoldable pub new_page : ℕ → (i t : ℕ) → Paging → Run Paging
  unfolding write_word take_page
  new_page fuel i t s =
      take_page fuel s >>= (λ r. write_word r.1 (0xffc0_0000 + 4096 * i + 4 * t) (mapped_entry r.0))

  -- `handle_fault` at `address`, the contents of `cr2`
  unfoldable pub handle_fault : ℕ → ℕ → Paging → Run Paging
  unfolding read_word new_table new_page find_pool
  handle_fault fuel address s =
      let i = address / 2 ^ 22 in
      let t = address / 2 ^ 12 % 2 ^ 10 in
      let (addr_present, not_null) = find_pool s.vm_pools address in
      if not addr_present && not_null
      then halted
      else (read_word s ((s.current_directory + 4 * i) % word_size)
          >>= (λ entry. if is_present entry then ok s else new_table fuel i s)
          >>= new_page fuel i t)

  -- `release_frames` is static: it searches the list of all frame pools.
  abbrev pub with_pools : Paging → Pools → Run Paging
  with_pools s (kernel ∷ process ∷ []) =
      ok (record s { kernel_mem_pool = kernel; process_mem_pool = process })
  with_pools s other = halted

  -- `free_page`; `this` is the table whose directory is at `directory`.
  unfoldable pub free_page : ℕ → ℕ → Paging → Run Paging
  unfolding read_word write_word load
  free_page directory page_no s =
      let i = page_no % 4096 / 4 * 4 / 2 ^ 22 in
      let t = page_no % 1024 / 2 ^ 12 in
      let entry_address = 0xffc0_0000 + 4096 * i + 4 * t in
      read_word s entry_address
      >>= (λ entry. release_frames (s.kernel_mem_pool ∷ s.process_mem_pool ∷ []) (entry / 4096))
      >>= with_pools s
      >>= (λ s'. read_word s' entry_address >>= (λ entry.
          write_word s' entry_address (if entry / 2 % 2 == 1 then entry else entry + 2)))
      >>= load directory
