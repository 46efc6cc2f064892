-- ===== src/FileTest/Exercise.antt =====
-- MP7_Sources/kernel.C: `exercise_file_system` as a whole, and its repetition in `main`.
use csce410_611_spring2026_p.Base.Run.{ok}
use csce410_611_spring2026_p.BlockDevice.{BlockDevice, block_size}
use csce410_611_spring2026_p.FileSystem.{
  FileSystem, Inode, mount, format, max_inodes, freelist_image, blank,
}
use csce410_611_spring2026_p.FileSystem.Layout.{freelist_image-lt}
use csce410_611_spring2026_p.FileSystem.Persist.{IsValid, ListOnDisk, Holds, mount-format, reserved}
use csce410_611_spring2026_p.FileTest.{exercise_file_system, exercises, stress_test}
use csce410_611_spring2026_p.FileTest.Stages.{CanTest, Restored, Restored-CanTest, Restored-trans}
use csce410_611_spring2026_p.FileTest.Create.{create_files_lem}
use csce410_611_spring2026_p.FileTest.Write.{write_files_lem}
use csce410_611_spring2026_p.FileTest.Check.{check_files_lem}
use csce410_611_spring2026_p.FileTest.Remove.{remove_files_lem}
use csce410_611_spring2026_p.Base.{
  minus_one, ℕ, zero, suc, ◌+◌, ◌<◌, ◌≤◌, ◌≡◌, refl, ◌∙◌, arith, word_size,
}

module _ {D : Type 0} ⦃dev : BlockDevice D⦄ where
  -- On any disk and any file system that has no file 1 or 2, two unused inodes and two free blocks, every
  -- assertion of `exercise_file_system` holds, and it ends with the same blocks free and the same ids in the table.
  pub exercise_file_system-Restored :
      (s : FileSystem D) (raw : ℕ → ℕ) (iteration : ℕ)
      → CanTest s
      → (s' : FileSystem D) × (exercise_file_system raw s iteration ≡ ok s') × Restored s s'
  unfolding exercise_file_system
  exercise_file_system-Restored s raw iteration can =
      let (i₁, i₂, u, new, e) = create_files_lem s can in
      let (b₁, b₂, v, places, stored, e') = write_files_lem s u i₁ i₂ new iteration can in
      let (w, checked, e'') = check_files_lem s v i₁ i₂ b₁ b₂ raw iteration can places stored in
      let (x, back, done) = remove_files_lem s w i₁ i₂ b₁ b₂ _ _ can places checked in
      (x, rw (e, e', e'', done) refl, back)

  exercises-Restored :
      (raw : ℕ → ℕ) (k j : ℕ) (s : FileSystem D)
      → CanTest s
      → (s' : FileSystem D) × (exercises raw k j s ≡ ok s') × Restored s s'
  unfolding exercises
  exercises-Restored raw zero j s can = (
    s,
    refl,
    record {
      steady = can.steady;
      same_count = refl;
      same_free = λ i h. refl;
      same_ids = λ i. refl;
    },
  )
  exercises-Restored raw (suc k) j s can =
      let (t, e, back) = exercise_file_system-Restored s raw j can in
      let (u, e', rest) = exercises-Restored raw k (j + 1) t (Restored-CanTest s t can back) in
      (u, rw (e, e') refl, Restored-trans s t u back rest)

  -- A disk that is formatted and mounted
  module _ (d : D) (self : ℕ) (fresh : ℕ → ℕ) (table : ℕ → Inode) (address : self < word_size)
      (bytes : (i : ℕ) → fresh i < 256) where
    mounted : FileSystem D
    mounted = mount self fresh table (format d 0x10_0000)

    holds : Holds (λ i. blank) 2048 reserved self mounted
    unfolding mounted
    holds = mount-format d 0x10_0000 (omega arith) self fresh table

    mounted-IsValid : IsValid mounted
    unfolding mounted mount
    mounted-IsValid = record {
      words = λ i h.
          let same = holds.inode i h in
          record {
            id = omega (arith, same.id);
            block_no = λ k hk. omega (arith, same.block_no k hk);
            indirect_block_no = omega (arith, same.indirect_block_no);
            file_size = omega (arith, same.file_size);
            fs = omega (arith, same.fs);
          };
      bytes = λ i h. ground (arith, bytes i, dev.read-lt (format d 0x10_0000) 1 i);
      count = omega (arith, holds.count);
      address = address;
    }

    mounted_list :
        (k : ℕ) → k < block_size → dev.read mounted.disk 1 k ≡ freelist_image 2048 reserved k
    unfolding mounted mount format freelist_image
    mounted_list k hk =
        dev.read-write_self _ 1 _ k (omega (arith, dev.has_metadata)) hk
          (freelist_image-lt 2048 reserved k (λ j hj. ground arith))

    mounted-ListOnDisk : ListOnDisk mounted.num_blocks mounted.free_blocks mounted.disk
    unfolding freelist_image
    mounted-ListOnDisk = record {
      list_image = λ k hk. mounted_list k hk ∙ ground (arith, holds.count, holds.listed k);
    }

    mounted-CanTest : 2048 ≤ dev.blocks → CanTest mounted
    mounted-CanTest large =
        let count = holds.count in
        let free : (j : ℕ) → j < 508 → mounted.free_blocks j ≡ reserved j =
          λ j h. holds.listed j (omega arith) in
        let blank_id : (j : ℕ) → j < max_inodes → (mounted.inodes j).id ≡ minus_one =
          λ j h. (holds.inode j h).id in
        record {
          steady = record {
            valid = mounted-IsValid;
            unique = λ i j hi hj same live. absurd (live (blank_id i hi));
            list = mounted-ListOnDisk;
          };
          on_disk = omega arith;
          small = omega arith;
          taken = λ j h. rw (free j (omega arith)) (ground arith);
          no_file = λ id j lo hi h. rw (blank_id j h) (omega arith);
          unused = (
            0,
            1,
            omega arith,
            omega arith,
            omega arith,
            blank_id 0 (omega arith),
            blank_id 1 (omega arith),
          );
          room = (
            2,
            3,
            omega arith,
            omega arith,
            omega arith,
            free 2 (omega arith),
            free 3 (omega arith),
          );
        }

  -- On any disk of 2048 blocks or more, with any contents, `main` formats 1 MB and mounts it, and then all thirty
  -- runs of the exercise pass all their assertions, whatever the arrays hold that the code does not initialise.
  pub stress_test-passes :
      (d : D) (self : ℕ) (fresh : ℕ → ℕ) (table : ℕ → Inode) (raw : ℕ → ℕ)
      → self < word_size
      → ((i : ℕ) → fresh i < 256)
      → 2048 ≤ dev.blocks
      → (s : FileSystem D) × (stress_test self fresh table raw d ≡ ok s)
  unfolding stress_test mounted
  stress_test-passes d self fresh table raw address bytes large =
      let (s, e, back) =
        exercises-Restored raw 30 0 (mount self fresh table (format d 0x10_0000))
          (mounted-CanTest d self fresh table address bytes large) in
      (s, e)
