-- ===== src/FileTest/Check.antt =====
-- MP7_Sources/kernel.C: the second block of `exercise_file_system`, which reads both files.
use csce410_611_spring2026_p.BlockDevice.{BlockDevice, block_size}
use csce410_611_spring2026_p.FileSystem.{FileSystem, zeros}
use csce410_611_spring2026_p.File.{splice, read, reset}
use csce410_611_spring2026_p.File.Single.{handle_at, open_file-single}
use csce410_611_spring2026_p.FileTest.{
  ok, check_files, check_file, same_text, first_text, second_text,
}
use csce410_611_spring2026_p.FileTest.Stages.{CanTest, Places, Stored, Caches}
use csce410_611_spring2026_p.FileTest.Close.{close_both}
use csce410_611_spring2026_p.FileTest.Write.{lookup_named}
use csce410_611_spring2026_p.Base.{ℕ, zero, suc, ◌+◌, ◌<◌, ◌≤◌, ◌≡◌, refl, true, arith, copy}

same_text-agree :
    (k i : ℕ) (result text : ℕ → ℕ)
    → ((j : ℕ) → i ≤ j → j < i + k → result j ≡ text j)
    → same_text k i result text ≡ true
unfolding same_text
same_text-agree zero i result text agree = refl
same_text-agree (suc k) i result text agree =
    let rest =
      same_text-agree k (i + 1) result text (λ j lo hi. agree j (omega arith) (omega arith)) in
    ground (arith, agree i (omega arith) (omega arith))

module _ {D : Type 0} ⦃dev : BlockDevice D⦄ where
  -- A file of 20 characters that are the text passes the assertions.
  check_file_lem :
      (raw text cache : ℕ → ℕ) (v : FileSystem D) (i b : ℕ)
      → (v.inodes i).file_size ≡ 20
      → ((k : ℕ) → k < 20 → cache k ≡ text k)
      → check_file raw text v (handle_at i b 0 cache) ≡ ok (handle_at i b 20 cache)
  unfolding check_file read reset
  check_file_lem raw text cache v i b size starts =
      let same =
        same_text-agree 20 0 (copy 20 (λ k. cache (0 + k)) raw) text
          (λ j lo hi. ground (arith, starts j)) in
      rw size (rw same refl)

  loaded-Caches :
      (v : FileSystem D) (b : ℕ) (text : ℕ → ℕ)
      → ((k : ℕ) → k < 20 → dev.read v.disk b k ≡ text k)
      → Caches text (splice 0 block_size (dev.read v.disk b) zeros)
  loaded-Caches v b text holds = record {
    starts = λ k h. ground (arith, holds k h);
    bytes = λ k h. ground (arith, dev.read-lt v.disk b k);
  }

  -- The second block passes its assertions, and leaves the files as they were.
  pub check_files_lem :
      (s v : FileSystem D) (i₁ i₂ b₁ b₂ : ℕ) (raw : ℕ → ℕ) (iteration : ℕ)
      → CanTest s
      → Places s i₁ i₂ b₁ b₂
      → Stored s i₁ i₂ b₁ b₂ (first_text iteration) (second_text iteration) v
      → (w : FileSystem D) × Stored s i₁ i₂ b₁ b₂ (first_text iteration) (second_text iteration) w
        × (check_files raw iteration v ≡ ok w)
  unfolding check_files
  check_files_lem s v i₁ i₂ b₁ b₂ raw iteration can at stored =
      let t₁ = first_text iteration in
      let t₂ = second_text iteration in
      let sized = stored.sized in
      let open₁ =
        open_file-single v 1 i₁ b₁ 20
          (lookup_named v i₁ 1 sized.steady at.i₁_inside (omega arith) sized.id₁) stored.one
          (ground (arith, can.small, at.b₁_inside)) in
      let open₂ =
        open_file-single v 2 i₂ b₂ 20
          (lookup_named v i₂ 2 sized.steady at.i₂_inside (omega arith) sized.id₂) stored.two
          (ground (arith, can.small, at.b₂_inside)) in
      let caches₁ = loaded-Caches v b₁ t₁ stored.text₁ in
      let caches₂ = loaded-Caches v b₂ t₂ stored.text₂ in
      let check₁ = check_file_lem raw t₁ _ v i₁ b₁ sized.size₁ caches₁.starts in
      let check₂ = check_file_lem raw t₂ _ v i₂ b₂ sized.size₂ caches₂.starts in
      (
        _,
        close_both s can i₁ i₂ b₁ b₂ at t₁ t₂ _ _ 20 20 caches₁ caches₂ v sized,
        rw (open₁, open₂, check₁, check₂) refl,
      )
