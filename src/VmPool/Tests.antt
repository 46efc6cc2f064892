-- ===== src/VmPool/Tests.antt =====
-- A pool of 1 MB at 512 MB.
use csce410_611_spring2026_p.Base.Run.{ok}
use csce410_611_spring2026_p.PageTable.Tests.{running, running-IsPaged}
use csce410_611_spring2026_p.VmPool.{VmPool, new_vm_pool}
use csce410_611_spring2026_p.VmPool.Release.{release}
use csce410_611_spring2026_p.VmPool.Forget.{Dropped, release-Dropped}
use csce410_611_spring2026_p.Mmu.Walk.{walking_mmu}
use csce410_611_spring2026_p.Base.{◌+◌, ◌*◌, ◌≡◌, refl, arith}

-- The memory of the object held anything.
abbrev raw : VmPool
raw = record {
  base_address = 0;
  size = 0;
  region_count = 0;
  remaining_size = 0xcccc_cccc;
  region_base = λ i. 0xcccc_cccc;
  region_length = λ i. 0xcccc_cccc;
}

abbrev fresh : VmPool
fresh = new_vm_pool raw 0x2000_0000 0x10_0000

abbrev three : VmPool
three = record raw {
  base_address = 0x2000_0000;
  size = 0x10_0000;
  region_count = 3;
  region_base = λ i. 0x2000_0000 + 4096 * i;
  region_length = λ i. 4096;
}

release-Dropped_example :
    (p' : VmPool) × (release (4096 * 512) 7 three 0x2000_1000 running ≡ ok (p', running))
    × Dropped three 1 p'
release-Dropped_example =
    release-Dropped 16 running 512 running-IsPaged (omega arith) refl 7 three 1 (omega arith)
      (omega arith) (λ j a b. omega arith)
