-- ===== src/FileTest/Write.antt =====
-- MP7_Sources/kernel.C: the first block of `exercise_file_system`, which writes both files.
use csce410_611_spring2026_p.BlockDevice.{BlockDevice}
use csce410_611_spring2026_p.FileSystem.{FileSystem, max_inodes, lookup_inode, zeros}
use csce410_611_spring2026_p.FileSystem.Create.{lookup_inode-live}
use csce410_611_spring2026_p.File.{splice}
use csce410_611_spring2026_p.File.Single.{open_file-new}
use csce410_611_spring2026_p.File.Close.{IsSteady, WroteNew, write_new_lem}
use csce410_611_spring2026_p.FileTest.{ok, write_files, first_text, second_text}
use csce410_611_spring2026_p.FileTest.Stages.{CanTest, Places, TwoNew, Sized, Stored, Caches}
use csce410_611_spring2026_p.FileTest.Close.{close_both}
use csce410_611_spring2026_p.Base.{
  ℕ, ◌+◌, ◌<◌, ◌≡◌, ◌≢◌, refl, sym, ap, ◌∙◌, some, arith, put, ℕ_discrete,
}

first_text-lt : (iteration k : ℕ) → first_text iteration k < 256
first_text-lt iteration k = ground arith

second_text-lt : (iteration k : ℕ) → second_text iteration k < 256
second_text-lt iteration k = ground arith

written-Caches :
    (text : ℕ → ℕ) → ((k : ℕ) → text k < 256) → Caches text (splice 0 20 (λ k. text (0 + k)) zeros)
written-Caches text bytes = record {
  starts = λ k h. ground arith;
  bytes = λ k h. ground (arith, bytes k);
}

module _ {D : Type 0} ⦃dev : BlockDevice D⦄ where
  pub lookup_named :
      (u : FileSystem D) (i id : ℕ)
      → IsSteady u
      → i < max_inodes
      → id < 3
      → (u.inodes i).id ≡ id
      → lookup_inode u.inodes id ≡ some i
  lookup_named u i id steady hi small named =
      rw (← named) (lookup_inode-live u.inodes i steady.unique hi (ground (arith, named)))

  -- Of two free blocks, one is free after a write.
  still_free :
      (u r : FileSystem D) (i b x y : ℕ)
      → WroteNew u i b r
      → x < u.num_blocks
      → y < u.num_blocks
      → x ≢ y
      → u.free_blocks x ≡ 0
      → u.free_blocks y ≡ 0
      → (z : ℕ) × (z < r.num_blocks) × (r.free_blocks z ≡ 0)
  still_free u r i b x y w hx hy ne fx fy = elim (ℕ_discrete b x) [
    | yes at ↦ (y, rw w.same_count hy, rw w.marked (ground arith))
    | no apart ↦ (x, rw w.same_count hx, rw w.marked (ground arith))
  ]

  module _ (s u : FileSystem D) (i₁ i₂ : ℕ) (new : TwoNew s i₁ i₂ u) where
    two-Sized :
        (b₁ b₂ : ℕ) (r q : FileSystem D)
        → WroteNew u i₁ b₁ r
        → WroteNew r i₂ b₂ q
        → Sized s i₁ i₂ b₁ b₂ q
    two-Sized b₁ b₂ r q w x =
        let back : i₂ ≢ i₁ = λ e. new.two_inodes (sym e) in
        let (self, other) = new.new₂ in
        let mine : q.inodes i₁ ≡ record (u.inodes i₁) { file_size = 20 } =
          x.others i₁ new.two_inodes ∙ w.entry in
        let theirs : q.inodes i₂ ≡ record (u.inodes i₂) { file_size = 20 } =
          x.entry ∙ rw (w.others i₂ back) refl in
        record {
          steady = x.steady;
          same_count = x.same_count ∙ w.same_count ∙ new.same_count;
          marked = x.marked ∙ rw (w.marked, new.same_free) refl;
          id₁ = rw mine new.new₁.named;
          id₂ = rw theirs other.named;
          size₁ = rw mine refl;
          size₂ = rw theirs refl;
          plain₁ = rw mine new.new₁.no_indirect;
          plain₂ = rw theirs other.no_indirect;
          others = λ j ne ne'. x.others j ne' ∙ w.others j ne ∙ new.others j ne ne';
        }

    two-Places :
        (b₁ b₂ : ℕ) (r q : FileSystem D)
        → WroteNew u i₁ b₁ r
        → WroteNew r i₂ b₂ q
        → Places s i₁ i₂ b₁ b₂
    two-Places b₁ b₂ r q w x =
        let free : put s.free_blocks b₁ 1 b₂ ≡ 0 =
          rw (← new.same_free) (ap (λ (f : ℕ → ℕ). f b₂) (sym w.marked) ∙ x.was_free) in
        record {
          i₁_inside = new.i₁_inside;
          i₂_inside = new.i₂_inside;
          two_inodes = new.two_inodes;
          i₁_unused = new.i₁_unused;
          i₂_unused = new.i₂_unused;
          b₁_inside = rw (← new.same_count) w.inside;
          b₂_inside = rw (← new.same_count, ← w.same_count) x.inside;
          two_blocks = ground arith;
          b₁_free = rw (← new.same_free) w.was_free;
          b₂_free = ground arith;
        }

    -- On a file system that has just got both files, the first block ends, and leaves the texts in the files.
    pub write_files_lem :
        (iteration : ℕ)
        → CanTest s
        → (b₁ b₂ : ℕ) × (v : FileSystem D) × Places s i₁ i₂ b₁ b₂
          × Stored s i₁ i₂ b₁ b₂ (first_text iteration) (second_text iteration) v
          × (write_files iteration u ≡ ok v)
    unfolding write_files
    write_files_lem iteration can =
        let (x, y, hx, hy, ne, fx, fy) = can.room in
        let (self, other) = new.new₂ in
        let t₁ = first_text iteration in
        let t₂ = second_text iteration in
        let open₁ =
          open_file-new u 1 s.self i₁
            (lookup_named u i₁ 1 new.steady new.i₁_inside (omega arith) new.new₁.named) new.new₁ in
        let open₂ =
          open_file-new u 2 self i₂
            (lookup_named u i₂ 2 new.steady new.i₂_inside (omega arith) other.named) other in
        let (b₁, r, w, e₁) =
          write_new_lem u i₁ x t₁ new.steady new.i₁_inside new.new₁.empty (rw new.same_count hx)
            (rw new.same_free fx) in
        let (z, hz, fz) =
          still_free u r i₁ b₁ x y w (rw new.same_count hx) (rw new.same_count hy) ne
            (rw new.same_free fx) (rw new.same_free fy) in
        let back : i₂ ≢ i₁ = λ e. new.two_inodes (sym e) in
        let (b₂, q, w', e₂) =
          write_new_lem r i₂ z t₂ w.steady new.i₂_inside (rw (w.others i₂ back) other.empty) hz
            fz in
        let places = two-Places b₁ b₂ r q w w' in
        (
          b₁,
          b₂,
          _,
          places,
          close_both s can i₁ i₂ b₁ b₂ places t₁ t₂ _ _ 20 20
              (written-Caches t₁ (first_text-lt iteration))
              (written-Caches t₂ (second_text-lt iteration)) q (two-Sized b₁ b₂ r q w w'),
          rw (open₁, open₂, e₁, e₂) refl,
        )
