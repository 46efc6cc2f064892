-- ===== src/PageTable/Tests.antt =====
-- Pools of 16 frames, and a kernel whose directory is in frame 512 and whose first table is in frame 1024.
use mathlib.Core.Path.{subst}
use csce410_611_spring2026_p.FramePool.{ContFramePool, free_state, head_state}
use csce410_611_spring2026_p.FramePool.Get.{IsValid}
use csce410_611_spring2026_p.Mmu.{is_present}
use csce410_611_spring2026_p.Mmu.Walk.{walking_mmu}
use csce410_611_spring2026_p.PageTable.{Paging, handle_fault, mapped_entry}
use csce410_611_spring2026_p.PageTable.Take.{GoodPool, InUse}
use csce410_611_spring2026_p.PageTable.Access.{IsPaged, table_of}
use csce410_611_spring2026_p.PageTable.Setup.{
  LowPool, StartOutcome, start_paging, start_paging-StartOutcome,
}
use csce410_611_spring2026_p.PageTable.Handle.{handle_fault-maps}
use csce410_611_spring2026_p.PageTable.Steps.{FaultOutcome}
use csce410_611_spring2026_p.Base.{
  ℕ, ◌*◌, ◌<◌, ◌≡◌, refl, sym, ◌∙◌, true, [], arith, ltb, ◌==◌, if◌then◌else◌,
}

-- The first frame is in use; the memory behind the bitmap is zero.
abbrev pub pool_at : ℕ → ContFramePool
pool_at base = record {
  bitmap = λ i. if i == 0 then head_state else if ltb i 16 then free_state else 0;
  n_free_frames = 15;
  base_frame_no = base;
  nframes = 16;
  info_frame_no = 0;
}

pool_at-IsValid : (base : ℕ) → IsValid (pool_at base)
pool_at-IsValid base = record {
  states = λ i h. ground arith;
  chained = λ i h. ground arith;
  counted = refl;
}

process_pool : GoodPool 16 (pool_at 1024)
process_pool = record {
  valid = pool_at-IsValid 1024;
  behind = omega arith;
  stop = refl;
  high = omega arith;
  fits = omega arith;
}

kernel_pool : LowPool 16 (pool_at 512)
kernel_pool = record {
  valid = pool_at-IsValid 512;
  behind = omega arith;
  stop = refl;
  low = omega arith;
}

abbrev at_boot : Paging
at_boot = record {
  current_directory = 0;
  paging_enabled = 0;
  kernel_mem_pool = pool_at 512;
  process_mem_pool = pool_at 1024;
  shared_size = 4194304;
  vm_pools = [];
  memory = λ f i. 0xcccc_cccc;
  cr0 = 0x11;
  cr3 = 0;
}

start_paging-StartOutcome_example : StartOutcome 16 at_boot (start_paging 17 at_boot)
start_paging-StartOutcome_example =
    start_paging-StartOutcome 16 17 at_boot (omega arith) (omega arith) process_pool kernel_pool

abbrev directory : ℕ → ℕ
directory i =
    if i == 0
    then mapped_entry (1024 * 4096)
    else if i == 1023
    then mapped_entry (512 * 4096)
    else 2

abbrev pub running : Paging
running = record at_boot {
  current_directory = 4096 * 512;
  paging_enabled = 1;
  memory = λ f i.
      if f == 512 then directory i else if f == 1024 then mapped_entry (i * 4096) else 0xcccc_cccc;
  cr0 = 0x8000_0011;
  cr3 = 4096 * 512;
}

only_first : (i : ℕ) → i < 1023 → is_present (running.memory 512 i) ≡ true → i ≡ 0
only_first i less here = ground arith

first-InUse : InUse (pool_at 1024) 1024
first-InUse = record { lower = omega arith; upper = omega arith; used = λ e. ground arith }

pub running-IsPaged : IsPaged 16 running 512
running-IsPaged = record {
  on = omega arith;
  current = refl;
  loaded = refl;
  low = omega arith;
  recursive = refl;
  first_table = refl;
  identity = refl;
  tables = λ i less here.
      subst (λ i. InUse (pool_at 1024) (table_of running.memory 512 i))
        (sym (only_first i less here)) first-InUse;
  separate = λ i j lessi lessj ne herei herej.
      absurd (ne (only_first i lessi herei ∙ sym (only_first j lessj herej)));
  pool = process_pool;
}

-- The first access to a pool at 512 MB, which needs a table
handle_fault-maps_example :
    FaultOutcome 16 running 512 0x2_0000 2 (handle_fault 17 0x2000_0123 running)
handle_fault-maps_example =
    handle_fault-maps 16 running 512 running-IsPaged 17 (omega arith) 0x2000_0123 (omega arith) refl
