-- ===== src/FileTest/Close.antt =====
-- MP7_Sources/kernel.C: the writes of `exercise_file_system` to both files, and the destructors of both handles.
use csce410_611_spring2026_p.BlockDevice.{BlockDevice}
use csce410_611_spring2026_p.FileSystem.{FileSystem}
use csce410_611_spring2026_p.File.{close_file}
use csce410_611_spring2026_p.File.Single.{handle_at, IsSingle}
use csce410_611_spring2026_p.File.Close.{Closed, close_file-Closed}
use csce410_611_spring2026_p.FileTest.Stages.{CanTest, Places, Sized, Stored, Caches}
use csce410_611_spring2026_p.Base.{ℕ, ◌≤◌, ◌≡◌, ◌≢◌, sym, ◌∙◌, arith, dec_lt}

module _ {D : Type 0} ⦃dev : BlockDevice D⦄ (s : FileSystem D) (can : CanTest s) where
  taken-above : (b : ℕ) → s.free_blocks b ≡ 0 → 2 ≤ b
  taken-above b free = elim (dec_lt b 2) [
    | yes h ↦ absurd (can.taken b h free)
    | no h ↦ omega arith
  ]

  module _ (i₁ i₂ b₁ b₂ : ℕ) (at : Places s i₁ i₂ b₁ b₂) where
    -- Both destructors, the second file's first
    module _ (t₁ t₂ c₁ c₂ : ℕ → ℕ) (p₁ p₂ : ℕ) (h₁ : Caches t₁ c₁) (h₂ : Caches t₂ c₂)
        (q : FileSystem D) (sized : Sized s i₁ i₂ b₁ b₂ q) where
      first_closed : FileSystem D
      first_closed = close_file (handle_at i₂ b₂ p₂ c₂) q

      both_closed : FileSystem D
      both_closed = close_file (handle_at i₁ b₁ p₁ c₁) first_closed

      closed₂ : Closed q i₂ b₂ c₂ first_closed
      unfolding first_closed
      closed₂ =
          close_file-Closed q i₂ b₂ p₂ c₂ sized.steady (taken-above b₂ at.b₂_free)
            (omega (arith, can.on_disk, at.b₂_inside)) (omega (arith, can.small, at.b₂_inside))
            at.i₂_inside h₂.bytes sized.plain₂

      closed₁ : Closed first_closed i₁ b₁ c₁ both_closed
      unfolding both_closed
      closed₁ =
          close_file-Closed first_closed i₁ b₁ p₁ c₁ closed₂.steady (taken-above b₁ at.b₁_free)
            (omega (arith, can.on_disk, at.b₁_inside)) (omega (arith, can.small, at.b₁_inside))
            at.i₁_inside h₁.bytes (rw (closed₂.others i₁ at.two_inodes) sized.plain₁)

      one : IsSingle b₁ 20 (both_closed.inodes i₁)
      one = rw (← sized.size₁, ← closed₂.others i₁ at.two_inodes) closed₁.entry

      apart : i₂ ≢ i₁
      apart e = at.two_inodes (sym e)

      two : IsSingle b₂ 20 (both_closed.inodes i₂)
      two = rw (closed₁.others i₂ apart, ← sized.size₂) closed₂.entry

      both-Sized : Sized s i₁ i₂ b₁ b₂ both_closed
      both-Sized = record {
        steady = closed₁.steady;
        same_count = closed₁.same_count ∙ closed₂.same_count ∙ sized.same_count;
        marked = closed₁.same_list ∙ closed₂.same_list ∙ sized.marked;
        id₁ = closed₁.same_id ∙ rw (closed₂.others i₁ at.two_inodes) sized.id₁;
        id₂ = rw (closed₁.others i₂ apart) (closed₂.same_id ∙ sized.id₂);
        size₁ = one.size;
        size₂ = two.size;
        plain₁ = one.no_indirect;
        plain₂ = two.no_indirect;
        others = λ j ne ne'. closed₁.others j ne ∙ closed₂.others j ne' ∙ sized.others j ne ne';
      }

      -- The destructors leave each text in the block of its file.
      pub close_both :
          Stored s i₁ i₂ b₁ b₂ t₁ t₂
            (close_file (handle_at i₁ b₁ p₁ c₁) (close_file (handle_at i₂ b₂ p₂ c₂) q))
      unfolding both_closed first_closed
      close_both = record {
        sized = both-Sized;
        one = one;
        two = two;
        text₁ = λ k hk. closed₁.block k (omega arith) ∙ h₁.starts k hk;
        text₂ = λ k hk.
            closed₁.other_blocks b₂ k (omega (arith, can.on_disk, at.b₂_inside))
              (ground (arith, taken-above b₂ at.b₂_free)) (λ e. at.two_blocks (sym e)) (omega arith)
            ∙ closed₂.block k (omega arith)
            ∙ h₂.starts k hk;
      }
