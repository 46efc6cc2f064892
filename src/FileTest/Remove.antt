-- ===== src/FileTest/Remove.antt =====
-- MP7_Sources/kernel.C: the end of `exercise_file_system`, which deletes both files.
use csce410_611_spring2026_p.Base.Run.{Run, ok, halted, ◌>>=◌}
use csce410_611_spring2026_p.BlockDevice.{BlockDevice}
use csce410_611_spring2026_p.FileSystem.{FileSystem, Inode, max_inodes, lookup_inode}
use csce410_611_spring2026_p.FileSystem.Delete.{
  Owns, direct, indirect, listed, Deleted, DeleteOutcome, missing, deleted, delete_file_outcome,
}
use csce410_611_spring2026_p.FileSystem.Names.{lookup-delete_file}
use csce410_611_spring2026_p.File.Single.{IsSingle}
use csce410_611_spring2026_p.File.Close.{IsSteady}
use csce410_611_spring2026_p.FileTest.{halted, ◌>>=◌, ok, remove_file, asserted}
use csce410_611_spring2026_p.FileTest.Stages.{CanTest, Places, Stored, Restored}
use mathlib.Core.Path.{subst}
use csce410_611_spring2026_p.Base.{
  ℕ, ◌<◌, ◌≤◌, ◌≡◌, ◌≢◌, refl, sym, ap, ◌∙◌, Bool, Option, some, none, arith, ◌==◌, if◌then◌else◌,
  ℕ_discrete,
}

module _ {D : Type 0} ⦃dev : BlockDevice D⦄ where
  -- A file of one block owns that block alone.
  Owns-single :
      (s : FileSystem D) (a : Inode) (b bytes j : ℕ)
      → IsSingle b bytes a
      → s.num_blocks ≤ 0x8000_0000
      → j < s.num_blocks
      → Owns s a j
      → j ≡ b
  Owns-single s a b bytes j one small h (direct d hd e) = ground (arith, one.others d, one.first)
  Owns-single s a b bytes j one small h (indirect e same) = ground (arith, one.no_indirect)
  Owns-single s a b bytes j one small h (listed p e hp same) = ground (arith, one.no_indirect)

  Deleted-IsSteady : (s : FileSystem D) (i : ℕ) (s' : FileSystem D) → Deleted s i s' → IsSteady s'
  Deleted-IsSteady s i s' d = record { valid = d.valid; unique = d.unique; list = d.synced.list }

  -- The free list after the deletion of a file of one block
  Deleted-free :
      (s : FileSystem D) (i b bytes j : ℕ) (s' : FileSystem D)
      → Deleted s i s'
      → IsSingle b bytes (s.inodes i)
      → s.num_blocks ≤ 0x8000_0000
      → j < s.num_blocks
      → s'.free_blocks j ≡ (if j == b then 0 else s.free_blocks j)
  Deleted-free s i b bytes j s' d one small h = elim (ℕ_discrete j b) [
    | yes e ↦ d.freed j h (omega arith) (direct 0 (omega arith) (one.first ∙ sym e)) ∙ ground arith
    | no ne ↦ d.kept j (λ owns. ne (Owns-single s _ b bytes j one small h owns)) ∙ ground arith
  ]

  remove_file_lem :
      (s : FileSystem D) (i id : ℕ)
      → IsSteady s
      → i < max_inodes
      → (s.inodes i).id ≡ id
      → id < 3
      → (s' : FileSystem D) × Deleted s i s' × (remove_file id s ≡ ok s')
  unfolding remove_file
  remove_file_lem s i id steady hi named small =
      from _ (delete_file_outcome s id steady.valid steady.unique)
        (lookup-delete_file s id id steady.valid steady.unique (omega arith) (omega arith)).1
    where
      from :
          (r : Bool × FileSystem D)
          → DeleteOutcome s id r
          → lookup_inode r.1.inodes id ≡ (if id == id then none else lookup_inode s.inodes id)
          → (s' : FileSystem D) × Deleted s i s'
            × ((asserted r
                  >>= (λ s'. elim (lookup_inode s'.inodes id) [ none ↦ ok s' | some j ↦ halted ]))
                ≡ ok s')
      from r (missing absent) gone = absurd (absent i hi named)
      from r (deleted k s' h same d) gone =
          let at : k ≡ i = steady.unique k i h hi (same ∙ sym named) (ground arith) in
          let none_left : lookup_inode s'.inodes id ≡ none = gone ∙ ground arith in
          (
            s',
            subst (λ x. Deleted s x s') at d,
            ap
                (λ (o : Option ℕ). elim o as (λ x. Run (FileSystem D)) [
                  | none ↦ ok s'
                  | some j ↦ halted
                ])
                none_left,
          )

  -- Both deletions succeed, and give back the blocks and the inodes.
  pub remove_files_lem :
      (s v : FileSystem D) (i₁ i₂ b₁ b₂ : ℕ) (t₁ t₂ : ℕ → ℕ)
      → CanTest s
      → Places s i₁ i₂ b₁ b₂
      → Stored s i₁ i₂ b₁ b₂ t₁ t₂ v
      → (w : FileSystem D) × Restored s w × ((remove_file 1 v >>= remove_file 2) ≡ ok w)
  remove_files_lem s v i₁ i₂ b₁ b₂ t₁ t₂ can at stored =
      let sized = stored.sized in
      let back : i₂ ≢ i₁ = λ e. at.two_inodes (sym e) in
      let (r, d, e) = remove_file_lem v i₁ 1 sized.steady at.i₁_inside sized.id₁ (omega arith) in
      let kept = d.others i₂ back in
      let (w, d', e') =
        remove_file_lem r i₂ 2 (Deleted-IsSteady v i₁ r d) at.i₂_inside (rw kept sized.id₂)
          (omega arith) in
      let count : r.num_blocks ≡ s.num_blocks = d.same_count ∙ sized.same_count in
      (
        w,
        record {
          steady = Deleted-IsSteady r i₂ w d';
          same_count = d'.same_count ∙ count;
          same_free = λ j h.
              Deleted-free r i₂ b₂ 20 j w d' (rw kept stored.two) (rw count can.small) (rw count h)
              ∙ ground (
                arith,
                Deleted-free v i₁ b₁ 20 j r d stored.one (rw sized.same_count can.small)
                    (rw sized.same_count h),
                sized.marked,
                at.b₁_free,
                at.b₂_free,
              );
          same_ids = λ j. elim (ℕ_discrete j i₂) [
            | yes e ↦ rw e (d'.dead ∙ sym at.i₂_unused)
            | no ne ↦ elim (ℕ_discrete j i₁) [
              | yes e ↦ rw (d'.others j ne, e) (d.dead ∙ sym at.i₁_unused)
              | no apart ↦ rw (d'.others j ne, d.others j apart, sized.others j apart ne) refl
            ]
          ];
        },
        rw e e',
      )
