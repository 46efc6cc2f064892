-- ===== src/FileSystem/Names.antt =====
-- MP7_Sources/file_system.C: how `CreateFile` and `DeleteFile` change what `LookupFile` finds.
use csce410_611_spring2026_p.Base.{
  ℕ, ◌<◌, ◌≡◌, ◌≢◌, refl, sym, is_some, inl, inr, Bool, true, none, some, arith, ◌==◌,
  if◌then◌else◌, Option-cases, word_size, minus_one, ℕ_discrete,
}
use csce410_611_spring2026_p.Base.Search.{find_index-congr}
use csce410_611_spring2026_p.BlockDevice.{BlockDevice}
use csce410_611_spring2026_p.FileSystem.{
  FileSystem, Inode, max_inodes, lookup_inode, create_file, delete_file,
}
use csce410_611_spring2026_p.FileSystem.Persist.{IsValid, IsSynced}
use csce410_611_spring2026_p.FileSystem.Create.{
  UniqueIds, lookup_inode-live, lookup_inode-some, Created, CreateOutcome, exists, table_full,
  created, create_file_outcome,
}
use csce410_611_spring2026_p.FileSystem.Delete.{
  Deleted, DeleteOutcome, missing, deleted, delete_file_outcome,
}

-- A change of one inode is seen only at its old and its new id.
lookup_inode-elsewhere :
    (old new : ℕ → Inode) (i id : ℕ)
    → ((j : ℕ) → j ≢ i → new j ≡ old j)
    → (old i).id ≢ id
    → (new i).id ≢ id
    → lookup_inode new id ≡ lookup_inode old id
unfolding lookup_inode
lookup_inode-elsewhere old new i id others ne ne' =
    find_index-congr _ _ max_inodes
      λ j h. elim (ℕ_discrete j i) [ yes e ↦ rw e (ground arith) | no apart ↦ rw (others j apart) ]

lookup_inode-absent :
    (table : ℕ → Inode) (id : ℕ)
    → ((j : ℕ) → j < max_inodes → (table j).id ≢ id)
    → lookup_inode table id ≡ none
lookup_inode-absent table id absent = elim (Option-cases (lookup_inode table id)) [
  | inl e ↦ e
  | inr found ↦
      let (h, same) = lookup_inode-some table id found.0 found.1 in absurd (absent found.0 h same)
]

module _ {D : Type 0} ⦃dev : BlockDevice D⦄ (s : FileSystem D) where
  -- What `LookupFile` finds after a call that gave the inode `i` to `id`.
  abbrev pub NowNamed : ℕ → ℕ → FileSystem D → Type 0
  NowNamed id i s' =
      (other : ℕ)
      → other ≢ minus_one
      → lookup_inode s'.inodes other ≡ (if id == other then some i else lookup_inode s.inodes other)

  Created-NowNamed :
      {id i : ℕ} {s' : FileSystem D} → id ≢ minus_one → Created s id i s' → NowNamed id i s'
  Created-NowNamed {id} {i} {s'} live c other real = elim (ℕ_discrete id other) [
    | yes e ↦
        let named = c.new_file.named in
        let found = lookup_inode-live s'.inodes i c.unique c.inside (ground arith) in
        ground (arith, found)
    | no ne ↦
        let named = c.new_file.named in
        let unused = c.was_unused in
        let same =
          lookup_inode-elsewhere s.inodes s'.inodes i other c.others (ground arith)
            (ground arith) in
        ground (arith, same)
  ]

  Deleted-unnamed :
      {i : ℕ} {s' : FileSystem D}
      → i < max_inodes
      → UniqueIds s.inodes
      → (s.inodes i).id ≢ minus_one
      → Deleted s i s'
      → (other : ℕ) → other ≢ minus_one
      → lookup_inode s'.inodes other
        ≡ (if (s.inodes i).id == other then none else lookup_inode s.inodes other)
  Deleted-unnamed {i} {s'} h u live d other real = elim (ℕ_discrete (s.inodes i).id other) [
    | yes e ↦
        let gone = lookup_inode-absent s'.inodes other λ j hj. elim (ℕ_discrete j i) [
          | yes at ↦ rw (at, d.dead) (λ e. real (sym e))
          | no apart ↦ rw (d.others j apart) (λ same. apart (u j i hj h (cc) (ground arith)))
        ] in
        ground (arith, gone)
    | no ne ↦
        let dead = d.dead in
        let same =
          lookup_inode-elsewhere s.inodes s'.inodes i other d.others (ground arith)
            (ground arith) in
        ground (arith, same)
  ]

  -- `CreateFile` of an id other than -1 on a valid, saved file system: if it returns true, no inode
  -- had the id, and afterwards `LookupFile` finds the id, and finds every other id as before.
  pub lookup-create_file :
      (id other : ℕ)
      → IsValid s
      → UniqueIds s.inodes
      → IsSynced s
      → id < word_size
      → id ≢ minus_one
      → other ≢ minus_one
      → (create_file s id).0 ≡ true
      → (i : ℕ) × (lookup_inode s.inodes id ≡ none)
        × (lookup_inode (create_file s id).1.inodes other
            ≡ (if id == other then some i else lookup_inode s.inodes other))
  lookup-create_file id other v u on word live real done =
      from _ (create_file_outcome s id v u on.list word) done
    where
      from :
          (r : Bool × FileSystem D)
          → CreateOutcome s id r
          → r.0 ≡ true
          → (i : ℕ) × (lookup_inode s.inodes id ≡ none)
            × (lookup_inode r.1.inodes other
                ≡ (if id == other then some i else lookup_inode s.inodes other))
      from r (exists i h e) t = cc
      from r (table_full f) t = cc
      from r (created i s' absent c) t =
          (i, lookup_inode-absent s.inodes id absent, Created-NowNamed live c other real)

  -- `DeleteFile` of an id other than -1 on a valid file system returns true exactly when
  -- `LookupFile` finds the id; afterwards `LookupFile` no longer finds it, and finds every other id
  -- as before.
  pub lookup-delete_file :
      (id other : ℕ)
      → IsValid s
      → UniqueIds s.inodes
      → id ≢ minus_one
      → other ≢ minus_one
      → ((delete_file s id).0 ≡ is_some (lookup_inode s.inodes id))
        × (lookup_inode (delete_file s id).1.inodes other
            ≡ (if id == other then none else lookup_inode s.inodes other))
  lookup-delete_file id other v u live real = from _ (delete_file_outcome s id v u)
    where
      from :
          (r : Bool × FileSystem D)
          → DeleteOutcome s id r
          → (r.0 ≡ is_some (lookup_inode s.inodes id))
            × (lookup_inode r.1.inodes other
                ≡ (if id == other then none else lookup_inode s.inodes other))
      from r (missing absent) =
          let e = lookup_inode-absent s.inodes id absent in (rw e, ground (arith, e))
      from r (deleted i s' h same d) =
          let found = lookup_inode-live s.inodes i u h (rw same live) in
          let rest = Deleted-unnamed h u (rw same live) d other real in
          (rw (← same, found), rw (← same) rest)

  -- `DeleteFile(-1)` deletes no file, but returns true whenever an inode is unused.
  pub delete_minus_one :
      (j : ℕ)
      → IsValid s
      → UniqueIds s.inodes
      → j < max_inodes
      → (s.inodes j).id ≡ minus_one
      → (delete_file s minus_one).0 ≡ true
  delete_minus_one j v u h unused = from _ (delete_file_outcome s minus_one v u)
    where
      from : (r : Bool × FileSystem D) → DeleteOutcome s minus_one r → r.0 ≡ true
      from r (missing absent) = absurd (absent j h unused)
      from r (deleted i s' hi same d) = refl
