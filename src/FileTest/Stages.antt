-- ===== src/FileTest/Stages.antt =====
-- MP7_Sources/kernel.C: the states between the steps of `exercise_file_system`.
use csce410_611_spring2026_p.BlockDevice.{BlockDevice, block_size}
use csce410_611_spring2026_p.FileSystem.{FileSystem, max_inodes}
use csce410_611_spring2026_p.FileSystem.Create.{IsNewFile}
use csce410_611_spring2026_p.File.Single.{IsSingle}
use csce410_611_spring2026_p.File.Close.{IsSteady}
use csce410_611_spring2026_p.Base.{minus_one, ℕ, ◌<◌, ◌≤◌, ◌≡◌, ◌≢◌, ◌∙◌, arith, put}

-- The bytes of a cache whose file starts with the text
pub record Caches (text cache : ℕ → ℕ) : Type 0 where
  pub starts : (k : ℕ) → k < 20 → cache k ≡ text k
  pub bytes : (k : ℕ) → k < block_size → cache k < 256

module _ {D : Type 0} ⦃dev : BlockDevice D⦄ where
  -- What the exercise needs: the blocks 0 and 1 are taken, two blocks are free, no inode has the id 1 or 2, and two
  -- inodes are unused.
  pub record CanTest (s : FileSystem D) : Type 0 where
    pub steady : IsSteady s
    pub on_disk : s.num_blocks ≤ dev.blocks
    pub small : s.num_blocks ≤ 0x8000_0000
    pub taken : (j : ℕ) → j < 2 → s.free_blocks j ≢ 0
    pub no_file : (id j : ℕ) → 0 < id → id < 3 → j < max_inodes → (s.inodes j).id ≢ id
    pub unused :
        (p q : ℕ) × (p < max_inodes)
        × (q < max_inodes)
        × (p ≢ q)
        × ((s.inodes p).id ≡ minus_one)
        × ((s.inodes q).id ≡ minus_one)
    pub room :
        (x y : ℕ) × (x < s.num_blocks)
        × (y < s.num_blocks)
        × (x ≢ y)
        × (s.free_blocks x ≡ 0)
        × (s.free_blocks y ≡ 0)

  -- The file system lists the same blocks as free, and the same ids.
  pub record Restored (s s' : FileSystem D) : Type 0 where
    pub steady : IsSteady s'
    pub same_count : s'.num_blocks ≡ s.num_blocks
    pub same_free : (j : ℕ) → j < s.num_blocks → s'.free_blocks j ≡ s.free_blocks j
    pub same_ids : (j : ℕ) → (s'.inodes j).id ≡ (s.inodes j).id

  -- Where the two files are: their inodes and blocks
  pub record Places (s : FileSystem D) (i₁ i₂ b₁ b₂ : ℕ) : Type 0 where
    pub i₁_inside : i₁ < max_inodes
    pub i₂_inside : i₂ < max_inodes
    pub two_inodes : i₁ ≢ i₂
    pub i₁_unused : (s.inodes i₁).id ≡ minus_one
    pub i₂_unused : (s.inodes i₂).id ≡ minus_one
    pub b₁_inside : b₁ < s.num_blocks
    pub b₂_inside : b₂ < s.num_blocks
    pub two_blocks : b₁ ≢ b₂
    pub b₁_free : s.free_blocks b₁ ≡ 0
    pub b₂_free : s.free_blocks b₂ ≡ 0

  -- After the creation of both files
  pub record TwoNew (s : FileSystem D) (i₁ i₂ : ℕ) (s' : FileSystem D) : Type 0 where
    pub steady : IsSteady s'
    pub i₁_inside : i₁ < max_inodes
    pub i₂_inside : i₂ < max_inodes
    pub two_inodes : i₁ ≢ i₂
    pub i₁_unused : (s.inodes i₁).id ≡ minus_one
    pub i₂_unused : (s.inodes i₂).id ≡ minus_one
    pub new₁ : IsNewFile 1 s.self (s'.inodes i₁)
    pub new₂ : (self : ℕ) × IsNewFile 2 self (s'.inodes i₂)
    pub same_free : s'.free_blocks ≡ s.free_blocks
    pub same_count : s'.num_blocks ≡ s.num_blocks
    pub others : (j : ℕ) → j ≢ i₁ → j ≢ i₂ → s'.inodes j ≡ s.inodes j

  -- With the blocks taken and the sizes set
  pub record Sized (s : FileSystem D) (i₁ i₂ b₁ b₂ : ℕ) (s' : FileSystem D) : Type 0 where
    pub steady : IsSteady s'
    pub same_count : s'.num_blocks ≡ s.num_blocks
    pub marked : s'.free_blocks ≡ put (put s.free_blocks b₁ 1) b₂ 1
    pub id₁ : (s'.inodes i₁).id ≡ 1
    pub id₂ : (s'.inodes i₂).id ≡ 2
    pub size₁ : (s'.inodes i₁).file_size ≡ 20
    pub size₂ : (s'.inodes i₂).file_size ≡ 20
    pub plain₁ : (s'.inodes i₁).indirect_block_no ≡ minus_one
    pub plain₂ : (s'.inodes i₂).indirect_block_no ≡ minus_one
    pub others : (j : ℕ) → j ≢ i₁ → j ≢ i₂ → s'.inodes j ≡ s.inodes j

  -- With both files closed
  pub record Stored (s : FileSystem D) (i₁ i₂ b₁ b₂ : ℕ) (t₁ t₂ : ℕ → ℕ) (s' : FileSystem D)
      : Type 0 where
    pub sized : Sized s i₁ i₂ b₁ b₂ s'
    pub one : IsSingle b₁ 20 (s'.inodes i₁)
    pub two : IsSingle b₂ 20 (s'.inodes i₂)
    pub text₁ : (k : ℕ) → k < 20 → dev.read s'.disk b₁ k ≡ t₁ k
    pub text₂ : (k : ℕ) → k < 20 → dev.read s'.disk b₂ k ≡ t₂ k

  pub Restored-CanTest : (s s' : FileSystem D) → CanTest s → Restored s s' → CanTest s'
  Restored-CanTest s s' can r =
      let (p, q, hp, hq, ne, up, uq) = can.unused in
      let (x, y, hx, hy, apart, fx, fy) = can.room in
      record {
        steady = r.steady;
        on_disk = omega (arith, can.on_disk, r.same_count);
        small = omega (arith, can.small, r.same_count);
        taken = λ j h. rw (r.same_free j (omega arith)) (can.taken j h);
        no_file = λ id j lo hi h. rw (r.same_ids j) (can.no_file id j lo hi h);
        unused = (p, q, hp, hq, ne, r.same_ids p ∙ up, r.same_ids q ∙ uq);
        room = (
          x,
          y,
          omega (arith, r.same_count),
          omega (arith, r.same_count),
          apart,
          r.same_free x hx ∙ fx,
          r.same_free y hy ∙ fy,
        );
      }

  pub Restored-trans : (s s' s'' : FileSystem D) → Restored s s' → Restored s' s'' → Restored s s''
  Restored-trans s s' s'' r q = record {
    steady = q.steady;
    same_count = q.same_count ∙ r.same_count;
    same_free = λ j h. q.same_free j (omega (arith, r.same_count)) ∙ r.same_free j h;
    same_ids = λ j. q.same_ids j ∙ r.same_ids j;
  }
