-- ===== src/VmPool/Release.antt =====
-- MP4_Sources/vm_pool.C: `release`, over the page table of PageTable.
use csce410_611_spring2026_p.Base.Run.{Run, ok, ◌>>=◌}
use csce410_611_spring2026_p.MemPool.{page_size}
use csce410_611_spring2026_p.Mmu.{Mmu}
use csce410_611_spring2026_p.PageTable.{Paging, free_page}
use csce410_611_spring2026_p.VmPool.{VmPool}
use csce410_611_spring2026_p.Base.{
  ℕ, zero, suc, ◌+◌, ◌-◌, ◌%◌, ◌/◌, Option, some, none, ◌==◌, if◌then◌else◌, put, word_size,
}

-- The first loop, with `k` rounds left at index `i`: the last index at which a region starts at the address
unfoldable pub find_region : (ℕ → ℕ) → (address k i : ℕ) → Option ℕ → Option ℕ
find_region region_base address zero i region = region
find_region region_base address (suc k) i region =
    find_region region_base address k (i + 1) (if region_base i == address then some i else region)

-- The last loop on one of the arrays, with `k` rounds left at index `i`
unfoldable pub shift_from : (k i : ℕ) → (ℕ → ℕ) → ℕ → ℕ
shift_from zero i regions = regions
shift_from (suc k) i regions = shift_from k (i + 1) (put regions i (regions (i + 1)))

-- The two arrays behind the last loop, and the numbers; `region` is -1 if no region has the address: then the loop
-- does not run, as -1 is no smaller than the unsigned `region_count`, and `before`, the length that stands in memory
-- before the array, is taken for that of the region.
unfoldable pub drop_region : (before : ℕ) → VmPool → Option ℕ → VmPool
unfolding shift_from
drop_region before p (some region) =
    let lengths = shift_from (p.region_count - region) region p.region_length in
    record p {
      region_base = shift_from (p.region_count - region) region p.region_base;
      region_length = lengths;
      region_count = p.region_count - 1;
      remaining_size = (p.remaining_size + lengths region) % word_size;
    }
drop_region before p none = record p {
  region_count = p.region_count - 1;
  remaining_size = (p.remaining_size + before) % word_size;
}

unfoldable pub length_at : (before : ℕ) → VmPool → Option ℕ → ℕ
length_at before p (some region) = p.region_length region
length_at before p none = before

module _ ⦃mmu : Mmu⦄ where
  -- The loop over the pages, with `k` left
  unfoldable pub free_pages : (directory k start : ℕ) → Paging → Run Paging
  unfolding free_page
  free_pages directory zero start s = ok s
  free_pages directory (suc k) start s =
      free_page directory start s >>= free_pages directory k ((start + page_size) % word_size)

  -- `release`; `directory` is that of the pool's page table.
  unfoldable pub release : (directory before : ℕ) → VmPool → ℕ → Paging → Run (VmPool × Paging)
  unfolding find_region drop_region length_at free_pages
  release directory before p start s =
      let region = find_region p.region_base start (p.region_count - 1) 1 none in
      free_pages directory (length_at before p region / page_size) start s
      >>= (λ s'. ok (drop_region before p region, s'))
