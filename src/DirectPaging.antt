-- ===== src/DirectPaging.antt =====
-- MP3_Sources/page_table.H and page_table.C: class PageTable. Its code reaches the directory and the tables at their
-- physical addresses. While paging is on, that is right for those below 4 MB, which are mapped to themselves: the
-- theorem on `handle_fault` asks that the kernel's pool, which has the directory and all tables, lies there. Memory is
-- an array of words of 32 bits, and a frame is 1024 of them; the frame pools are those of RunPool.
pub mod Walk
pub mod MapPage
pub mod AddTable
pub mod Fault
pub mod Setup
mod Tests
use csce410_611_spring2026_p.RunPool.{ContFramePool, get_frames}
use csce410_611_spring2026_p.Base.{
  ℕ, zero, suc, ◌+◌, ◌-◌, ◌*◌, ◌%◌, ◌<◌, ◌≤◌, ◌≡◌, ◌≢◌, refl, sym, ap, ◌∙◌, inl, inr, ◌⊎◌, Bool,
  true, false, ◌&&◌, ◌||◌, ◌/◌, ◌^◌, Option, some, none, List, [], ◌∷◌, ◌++◌, arith, ltb, ◌==◌,
  if◌then◌else◌, put, put_ne, put_self, ℕ_discrete, dec_lt, copy, field_of, with_field,
  with_field-lt, field_of-with_field, field_of-put, length, Bool-cases, word_size, leb,
}

-- The static variables, with CR3 as `current_page_table` and the memory. `loaded` is the page directory.
pub record Paging : Type 0 where
  pub memory : ℕ → ℕ
  pub kernel_mem_pool : ContFramePool
  pub process_mem_pool : ContFramePool
  pub shared_size : ℕ
  pub loaded : ℕ
  pub paging_enabled : Bool

-- `address | 0x3` for an address of four-byte words
abbrev pub present_entry : ℕ → ℕ
present_entry address = address / 4 * 4 + 3

-- `get_frames(1) * PAGE_SIZE`, from the number of the frame
abbrev pub frame_address : ℕ → ℕ
frame_address frame = frame * 4096 % word_size

-- The loop that sets `table[i] = value(i)`, with `k` indices left from `i` on
unfoldable pub fill : (value : ℕ → ℕ) (k i at : ℕ) → (ℕ → ℕ) → ℕ → ℕ
fill value zero i at memory = memory
fill value (suc k) i at memory = fill value k (i + 1) at (put memory (at + i) (value i))

-- The constructor: the page directory, and the paging system
unfoldable pub new_page_table : Paging → ℕ × Paging
new_page_table s =
    let (frame, pool₁) = get_frames s.kernel_mem_pool 1 in
    let (frame', pool₂) = get_frames pool₁ 1 in
    let directory = frame_address frame in
    let table = frame_address frame' in
    let m₁ = fill (λ i. present_entry (i * 4096)) 1024 0 (table / 4) s.memory in
    let m₂ = put m₁ (directory / 4) (present_entry table) in
    (
      directory,
      record s { memory = fill (λ i. 0) 1023 1 (directory / 4) m₂; kernel_mem_pool = pool₂ },
    )

unfoldable pub load : ℕ → Paging → Paging
load directory s = record s { loaded = directory }

-- `init_paging` and `enable_paging`
unfoldable pub init_paging : (kernel process : ContFramePool) (shared : ℕ) → Paging → Paging
init_paging kernel process shared s = record s {
  kernel_mem_pool = kernel;
  process_mem_pool = process;
  shared_size = shared;
}

unfoldable pub enable_paging : Paging → Paging
enable_paging s = record s { paging_enabled = true }

-- The index of the word with the directory entry, and of the word with the table entry
abbrev pub directory_word : (directory address : ℕ) → ℕ
directory_word directory address = directory / 4 + address / 2 ^ 22

abbrev pub table_word : (entry address : ℕ) → ℕ
table_word entry address = entry / 4096 * 4096 / 4 + address / 2 ^ 12 % 1024

-- The part of `handle_fault` that makes a page table
unfoldable pub add_table : (fault_addr : ℕ) → Paging → Paging
add_table fault_addr s =
    let (frame, pool) = get_frames s.kernel_mem_pool 1 in
    let new_pt = frame_address frame in
    record s {
      memory =
          put (fill (λ i. 0) 1024 0 (new_pt / 4) s.memory) (directory_word s.loaded fault_addr)
            (present_entry new_pt);
      kernel_mem_pool = pool;
    }

-- The part of `handle_fault` that maps the page
unfoldable pub map_page : (fault_addr : ℕ) → Paging → Paging
map_page fault_addr s =
    let (frame, pool) = get_frames s.process_mem_pool 1 in
    record s {
      memory =
          put s.memory (table_word (s.memory (directory_word s.loaded fault_addr)) fault_addr)
            (present_entry (frame_address frame));
      process_mem_pool = pool;
    }

-- `handle_fault` for the address in CR2
unfoldable pub handle_fault : (fault_addr : ℕ) → Paging → Paging
unfolding add_table map_page
handle_fault fault_addr s =
    map_page fault_addr
      (if s.memory (directory_word s.loaded fault_addr) % 2 == 0 then add_table fault_addr s else s)
