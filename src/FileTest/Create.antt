-- ===== src/FileTest/Create.antt =====
-- MP7_Sources/kernel.C: the creation of the two files of `exercise_file_system`.
use csce410_611_spring2026_p.BlockDevice.{BlockDevice}
use csce410_611_spring2026_p.FileSystem.{FileSystem, max_inodes, create_file}
use csce410_611_spring2026_p.FileSystem.Create.{
  Created, CreateOutcome, exists, table_full, created, create_file_outcome,
}
use csce410_611_spring2026_p.File.Close.{IsSteady}
use csce410_611_spring2026_p.FileTest.{ok, ◌>>=◌, asserted}
use csce410_611_spring2026_p.FileTest.Stages.{CanTest, TwoNew}
use csce410_611_spring2026_p.Base.{
  minus_one, ℕ, ◌<◌, ◌≡◌, ◌≢◌, refl, sym, ◌∙◌, Bool, true, arith, ℕ_discrete,
}

module _ {D : Type 0} ⦃dev : BlockDevice D⦄ where
  -- An absent id is created while an inode is unused.
  create_absent :
      (s : FileSystem D) (id p : ℕ)
      → IsSteady s
      → id < 3
      → ((j : ℕ) → j < max_inodes → (s.inodes j).id ≢ id)
      → p < max_inodes
      → (s.inodes p).id ≡ minus_one
      → (i : ℕ) × (s' : FileSystem D) × Created s id i s' × (create_file s id ≡ (true, s'))
  create_absent s id p steady small absent hp unused =
      from _ (create_file_outcome s id steady.valid steady.unique steady.list (omega arith)) refl
    where
      from :
          (r : Bool × FileSystem D)
          → CreateOutcome s id r
          → create_file s id ≡ r
          → (i : ℕ) × (s' : FileSystem D) × Created s id i s' × (create_file s id ≡ (true, s'))
      from r (exists i h e) eq = absurd (absent i h e)
      from r (table_full f) eq = absurd ((f p hp).1 unused)
      from r (created i s' none_has c) eq = (i, s', c, eq)

  Created-IsSteady :
      (s : FileSystem D) (id i : ℕ) (s' : FileSystem D) → Created s id i s' → IsSteady s'
  Created-IsSteady s id i s' c = record { valid = c.valid; unique = c.unique; list = c.synced.list }

  two-TwoNew :
      (s s₁ s₂ : FileSystem D) (i₁ i₂ : ℕ)
      → Created s 1 i₁ s₁
      → Created s₁ 2 i₂ s₂
      → TwoNew s i₁ i₂ s₂
  two-TwoNew s s₁ s₂ i₁ i₂ c d =
      let named = c.new_file.named in
      let unused = d.was_unused in
      let apart : i₁ ≢ i₂ = λ e. ground (arith, e) in
      record {
        steady = Created-IsSteady s₁ 2 i₂ s₂ d;
        i₁_inside = c.inside;
        i₂_inside = d.inside;
        two_inodes = apart;
        i₁_unused = c.was_unused;
        i₂_unused = rw (← c.others i₂ (λ e. apart (sym e))) d.was_unused;
        new₁ = rw (d.others i₁ apart) c.new_file;
        new₂ = (s₁.self, d.new_file);
        same_free = d.same_list ∙ c.same_list;
        same_count = d.same_count ∙ c.same_count;
        others = λ j ne ne'. d.others j ne' ∙ c.others j ne;
      }

  pub create_files_lem :
      (s : FileSystem D)
      → CanTest s
      → (i₁ i₂ : ℕ) × (s' : FileSystem D) × TwoNew s i₁ i₂ s'
        × ((asserted (create_file s 1) >>= (λ t. asserted (create_file t 2))) ≡ ok s')
  create_files_lem s can =
      let (p, q, hp, hq, ne, up, uq) = can.unused in
      let (i₁, s₁, c, e) =
        create_absent s 1 p can.steady (omega arith)
          (λ j h. can.no_file 1 j (omega arith) (omega arith) h) hp up in
      let (k, hk, uk) : (k : ℕ) × (k < max_inodes) × ((s₁.inodes k).id ≡ minus_one) =
        elim (ℕ_discrete p i₁) [
          | yes at ↦ (q, hq, rw (c.others q (λ e. ne (at ∙ sym e))) uq)
          | no apart ↦ (p, hp, rw (c.others p apart) up)
        ] in
      let absent : (j : ℕ) → j < max_inodes → (s₁.inodes j).id ≢ 2 = λ j h. elim (ℕ_discrete j i₁) [
        | yes at ↦ let named = c.new_file.named in ground (arith, at)
        | no apart ↦ rw (c.others j apart) (can.no_file 2 j (omega arith) (omega arith) h)
      ] in
      let (i₂, s₂, d, e') =
        create_absent s₁ 2 k (Created-IsSteady s 1 i₁ s₁ c) (omega arith) absent hk uk in
      (i₁, i₂, s₂, two-TwoNew s s₁ s₂ i₁ i₂ c d, rw (e) (rw e' refl))
