-- ===== src/FileTest/Tests.antt =====
-- The exercise of MP7_Sources/kernel.C on a disk in memory
use csce410_611_spring2026_p.Base.Run.{ok}
use csce410_611_spring2026_p.BlockDevice.Memory.{MemoryDisk, memory_device}
use csce410_611_spring2026_p.FileSystem.{FileSystem, blank, zeros, freelist_image}
use csce410_611_spring2026_p.FileSystem.Layout.{freelist_image-lt}
use csce410_611_spring2026_p.FileTest.{exercise_file_system, stress_test}
use csce410_611_spring2026_p.FileTest.Stages.{CanTest, Restored}
use csce410_611_spring2026_p.FileTest.Exercise.{exercise_file_system-Restored, stress_test-passes}
use csce410_611_spring2026_p.Base.{ℕ, ◌≡◌, refl, arith, ltb, ◌==◌, if◌then◌else◌}

abbrev taken : ℕ → ℕ
taken i = if ltb i 5 then 1 else 0

abbrev system : FileSystem MemoryDisk
system = record {
  disk = λ b. freelist_image 128 taken;
  size = 0;
  inodes = λ i. if i == 0 then record blank { id = 7 } else blank;
  free_blocks = taken;
  num_blocks = 128;
  self = 0x4000;
}

system-CanTest : CanTest system
system-CanTest = record {
  steady = record {
    valid = record {
      words = λ i h. ground arith;
      bytes = λ i h. ground arith;
      count = omega arith;
      address = omega arith;
    };
    unique = λ i j hi hj same live. ground arith;
    list = record {
      list_image = λ i h. ground (arith, freelist_image-lt 128 taken i (λ j hj. ground arith));
    };
  };
  on_disk = omega arith;
  small = omega arith;
  taken = λ j h. ground arith;
  no_file = λ id j lo hi h. ground arith;
  unused = (1, 2, omega arith, omega arith, omega arith, refl, refl);
  room = (5, 6, omega arith, omega arith, omega arith, refl, refl);
}

exercise_file_system-Restored_example :
    (s' : FileSystem MemoryDisk) × (exercise_file_system zeros system 3 ≡ ok s')
    × Restored system s'
exercise_file_system-Restored_example = exercise_file_system-Restored system zeros 3 system-CanTest

stress_test-passes_example :
    (s : FileSystem MemoryDisk) × (stress_test 0x4000 (λ i. 0xCC) (λ i. blank) zeros (λ b i. 0xFF)
      ≡ ok s)
stress_test-passes_example =
    stress_test-passes (λ b i. 0xFF) 0x4000 (λ i. 0xCC) (λ i. blank) zeros (omega arith)
      (λ i. omega arith) (omega arith)
