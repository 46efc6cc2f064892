-- ===== src/MemoryTest/Tests.antt =====
-- The test of MP2_Sources/kernel.C on the pool of `main`
use csce410_611_spring2026_p.Base.Run.{ok}
use csce410_611_spring2026_p.Base.TwoBits.{field_of}
use csce410_611_spring2026_p.FrameStates.{free_state}
use csce410_611_spring2026_p.BitmapPool.{ContFramePool, get_state}
use csce410_611_spring2026_p.BitmapPool.States.{IsPool}
use csce410_611_spring2026_p.MemoryTest.{test_memory}
use csce410_611_spring2026_p.MemoryTest.Pass.{Passed, test_memory-Passed}
use csce410_611_spring2026_p.Base.{ℕ, suc, ◌≡◌, refl, arith, field_of}

-- The frames 512 to 1023, all free
abbrev kernel_mem_pool : ContFramePool
kernel_mem_pool = record { bitmap = λ i. 0; base_frame_no = 512; n_frames = 512; info_frame_no = 0 }

kernel_mem_pool-IsPool : IsPool 512 512 kernel_mem_pool
kernel_mem_pool-IsPool = record { at_base = refl; size = refl; bytes = λ i. omega arith }

all_free : (f : ℕ) → get_state kernel_mem_pool f ≡ free_state
unfolding get_state field_of
all_free f = ground arith

test_memory-Passed_example :
    (q : ContFramePool) × (memory : ℕ → ℕ) × (test_memory 32 (kernel_mem_pool, λ j. 7)
      ≡ ok (q, memory))
    × Passed 512 512 kernel_mem_pool (λ j. 7) q memory
test_memory-Passed_example =
    test_memory-Passed 32 512 512 512 kernel_mem_pool (λ j. 7) (omega arith) (omega arith)
      (omega arith) kernel_mem_pool-IsPool (λ f a b free used. ground (arith, all_free (suc f)))
      (omega arith) (omega arith) (λ f a b. all_free f)
