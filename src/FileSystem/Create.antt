-- ===== src/FileSystem/Create.antt =====
-- MP7_Sources/file_system.C: `LookupFile` and `CreateFile`.
use csce410_611_spring2026_p.Base.{
  ℕ, ◌<◌, ◌≡◌, ◌≢◌, refl, inl, inr, Bool, true, false, none, some, arith, ◌==◌, Option-cases,
  word_size, minus_one, put_self, put_ne, sym,
}
use csce410_611_spring2026_p.Base.Search.{
  IsFirst, find_index-IsFirst, find_index-none, find_index-only,
}
use csce410_611_spring2026_p.BlockDevice.{BlockDevice}
use csce410_611_spring2026_p.FileSystem.{
  new_inode, with_inode, FileSystem, Inode, max_inodes, max_direct, save_inodes, lookup_inode,
  free_inode, create_at, create_file,
}
use csce410_611_spring2026_p.FileSystem.Layout.{IsWords}
use csce410_611_spring2026_p.FileSystem.Persist.{
  IsValid, with_inode-IsValid, IsSynced, ListOnDisk, save_inodes-ListOnDisk,
  save_inodes-TableOnDisk,
}

-- No two live inodes have the same id. An inode is live if its id is not -1.
abbrev pub UniqueIds : (ℕ → Inode) → Type 0
UniqueIds table =
    (i j : ℕ)
    → i < max_inodes
    → j < max_inodes
    → (table i).id ≡ (table j).id
    → (table i).id ≢ minus_one
    → i ≡ j

-- `LookupFile` finds the live inode with the id, and it alone.
pub lookup_inode-live :
    (table : ℕ → Inode) (i : ℕ)
    → UniqueIds table
    → i < max_inodes
    → (table i).id ≢ minus_one
    → lookup_inode table (table i).id ≡ some i
unfolding lookup_inode
lookup_inode-live table i unique h live =
    find_index-only _ max_inodes i h (ground arith) (λ j hj hit.
      let same : (table j).id ≡ (table i).id = ground arith in unique j i hj h same (rw same live))

-- What the scans of the inode table say.
module _ (table : ℕ → Inode) where
  pub lookup_inode-some :
      (id i : ℕ) → lookup_inode table id ≡ some i → (i < max_inodes) × ((table i).id ≡ id)
  unfolding lookup_inode
  lookup_inode-some id i e =
      let found : IsFirst (λ j. (table j).id == id) 0 max_inodes i = find_index-IsFirst _ _ e in
      (omega (arith, found.upper), ground (arith, found.passes))

  pub lookup_inode-none :
      (id : ℕ) → lookup_inode table id ≡ none → (j : ℕ) → j < max_inodes → (table j).id ≢ id
  unfolding lookup_inode
  lookup_inode-none id e j h = ground (arith, find_index-none _ max_inodes e j h)

  pub free_inode-some :
      (i : ℕ) → free_inode table ≡ some i → (i < max_inodes) × ((table i).id ≡ minus_one)
  unfolding free_inode
  free_inode-some i e =
      let found : IsFirst (λ j. (table j).id == minus_one) 0 max_inodes i =
        find_index-IsFirst _ _ e in
      (omega (arith, found.upper), ground (arith, found.passes))

  pub free_inode-none :
      free_inode table ≡ none → (j : ℕ) → j < max_inodes → (table j).id ≢ minus_one
  unfolding free_inode
  free_inode-none e j h = ground (arith, find_index-none _ max_inodes e j h)

-- An inode of an empty file
pub record IsNewFile (id self : ℕ) (a : Inode) : Type 0 where
  pub named : a.id ≡ id
  pub empty : a.file_size ≡ 0
  pub no_direct : (d : ℕ) → d < max_direct → a.block_no d ≡ minus_one
  pub no_indirect : a.indirect_block_no ≡ minus_one
  pub owner : a.fs ≡ self

module _ {D : Type 0} ⦃dev : BlockDevice D⦄ where
  -- The inode `i` was unused and becomes an empty file; nothing else changes, and all is saved.
  pub record Created (s : FileSystem D) (id i : ℕ) (s' : FileSystem D) : Type 0 where
    pub inside : i < max_inodes
    pub was_unused : (s.inodes i).id ≡ minus_one
    pub new_file : IsNewFile id s.self (s'.inodes i)
    pub others : (j : ℕ) → j ≢ i → s'.inodes j ≡ s.inodes j
    pub same_list : s'.free_blocks ≡ s.free_blocks
    pub same_count : s'.num_blocks ≡ s.num_blocks
    pub valid : IsValid s'
    pub unique : UniqueIds s'.inodes
    pub synced : IsSynced s'

  -- The three outcomes of `CreateFile`.
  pub data CreateOutcome (s : FileSystem D) (id : ℕ) : Bool × FileSystem D → Type 0 where
    exists : (i : ℕ) → i < max_inodes → (s.inodes i).id ≡ id → CreateOutcome s id (false, s)
    table_full :
        ((j : ℕ) → j < max_inodes → ((s.inodes j).id ≢ id) × ((s.inodes j).id ≢ minus_one))
        → CreateOutcome s id (false, s)
    created :
        (i : ℕ) (s' : FileSystem D)
        → ((j : ℕ) → j < max_inodes → (s.inodes j).id ≢ id)
        → Created s id i s'
        → CreateOutcome s id (true, s')

  module _ (s : FileSystem D) (id i : ℕ) (v : IsValid s) (u : UniqueIds s.inodes)
      (word : id < word_size) (h : i < max_inodes) (unused : (s.inodes i).id ≡ minus_one)
      (absent : (j : ℕ) → j < max_inodes → (s.inodes j).id ≢ id) where
    new_inode-IsWords : IsWords (new_inode (s.inodes i) id s.self)
    unfolding new_inode
    new_inode-IsWords = record {
      id = word;
      block_no = λ d hd. ground arith;
      indirect_block_no = omega arith;
      file_size = omega arith;
      fs = v.address;
    }

    named-UniqueIds : UniqueIds (with_inode s i (new_inode (s.inodes i) id s.self)).inodes
    unfolding new_inode
    named-UniqueIds j k hj hk same live = ground (arith, u j k hj hk, absent j hj, absent k hk)

    create_at-Created :
        ListOnDisk s.num_blocks s.free_blocks s.disk → Created s id i (create_at s i id)
    unfolding create_at save_inodes
    create_at-Created on =
        let named = with_inode s i (new_inode (s.inodes i) id s.self) in
        let now = with_inode-IsValid s i _ new_inode-IsWords v in
        record {
          inside = h;
          was_unused = unused;
          new_file = rw (put_self s.inodes i _) (record {
            named = refl;
            empty = refl;
            no_direct = λ d hd. ground arith;
            no_indirect = refl;
            owner = refl;
          });
          others = λ j ne. put_ne s.inodes i j _ (λ e. ne (sym e));
          same_list = refl;
          same_count = refl;
          valid = record {
            words = now.words;
            bytes = now.bytes;
            count = now.count;
            address = now.address;
          };
          unique = named-UniqueIds;
          synced = record {
            table = save_inodes-TableOnDisk named;
            list = save_inodes-ListOnDisk named on;
          };
        }

  -- On a valid file system with unique ids whose free list is on the disk, `CreateFile` refuses an
  -- id that an inode has, refuses when no inode is unused, and otherwise makes the file.
  pub create_file_outcome :
      (s : FileSystem D) (id : ℕ)
      → IsValid s
      → UniqueIds s.inodes
      → ListOnDisk s.num_blocks s.free_blocks s.disk
      → id < word_size
      → CreateOutcome s id (create_file s id)
  unfolding create_file
  create_file_outcome s id v u on word = elim (Option-cases (lookup_inode s.inodes id)) [
    | inl e ↦
        let absent = lookup_inode-none s.inodes id e in
        elim (Option-cases (free_inode s.inodes)) [
          | inl used ↦
              rw (e, used, create_file)
                (table_full λ j h. (absent j h, free_inode-none s.inodes used j h))
          | inr found ↦
              let (h, unused) = free_inode-some s.inodes found.0 found.1 in
              rw (e, found.1, create_file)
                (created found.0 _ absent
                  (create_at-Created s id found.0 v u word h unused absent on))
        ]
    | inr found ↦
        let (h, same) = lookup_inode-some s.inodes id found.0 found.1 in
        rw (found.1, create_file) (exists found.0 h same)
  ]
