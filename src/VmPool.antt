-- ===== src/VmPool.antt =====
-- MP4_Sources/vm_pool.{H,C}: class VMPool, regions of virtual memory. The region array, which the code keeps in the
-- first page of the pool, is two functions of the index. The page has 512 entries (max_regions), which nothing checks:
-- the entry behind them lies in the first region's memory, so the theorems on `allocate` ask for a free one. The page
-- table of the kernel is that of PageTable, which asks a pool for `is_legitimate` only; `release` is in VmPool/Release.
pub mod Forget
pub mod Regions
pub mod Release
mod Tests
use csce410_611_spring2026_p.Base.Run.{Run, ok, halted, ◌>>=◌}
use csce410_611_spring2026_p.MemPool.{page_size}
use csce410_611_spring2026_p.Base.{
  ℕ, zero, suc, ◌+◌, ◌-◌, ◌*◌, ◌%◌, ◌<◌, ◌≤◌, ◌≡◌, ◌≢◌, refl, sym, ap, ◌∙◌, inl, inr, ◌⊎◌, Bool,
  true, false, ◌&&◌, ◌||◌, ◌/◌, ◌^◌, Option, some, none, List, [], ◌∷◌, ◌++◌, arith, ltb, ◌==◌,
  if◌then◌else◌, put, put_ne, put_self, ℕ_discrete, dec_lt, copy, field_of, with_field,
  with_field-lt, field_of-with_field, field_of-put, length, Bool-cases, word_size, leb,
}

pub record VmPool : Type 0 where
  pub base_address : ℕ
  pub size : ℕ
  pub region_count : ℕ
  pub remaining_size : ℕ
  pub region_base : ℕ → ℕ
  pub region_length : ℕ → ℕ

-- The entries of the region array in the first page of the pool: two words each
abbrev pub max_regions : ℕ
max_regions = page_size / 8

-- The constructor, on the memory of the object `raw`. It does not set `remaining_size`, but takes a page off it.
unfoldable pub new_vm_pool : VmPool → (base_address size : ℕ) → VmPool
new_vm_pool raw base_address size = record {
  base_address = base_address;
  size = size;
  region_count = 1;
  remaining_size = (word_size + raw.remaining_size - page_size) % word_size;
  region_base = put raw.region_base 0 base_address;
  region_length = put raw.region_length 0 page_size;
}

abbrev pub pages_for : ℕ → ℕ
pages_for size = size / page_size + (if ltb 0 (size % page_size) then 1 else 0)

-- `allocate`: the address of the region, and the pool
unfoldable pub allocate : VmPool → ℕ → Run (ℕ × VmPool)
allocate p size =
    if ltb p.remaining_size size
    then halted
    else (let last = p.region_count - 1 in
        let start = (p.region_base last + p.region_length last) % word_size in
        let length = pages_for size * page_size % word_size in
        ok (
          start,
          record p {
            region_base = put p.region_base p.region_count start;
            region_length = put p.region_length p.region_count length;
            region_count = p.region_count + 1;
            remaining_size = (word_size + p.remaining_size - length) % word_size;
          },
        ))

unfoldable pub is_legitimate : VmPool → ℕ → Bool
is_legitimate p address =
    if ltb ((p.base_address + p.size) % word_size) address || ltb address p.base_address
    then false
    else true
