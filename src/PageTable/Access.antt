-- ===== src/PageTable/Access.antt =====
-- MP4_Sources/page_table.C: the state of paging while the kernel runs, and what the code reaches through the last
-- entry of the page directory, which names the directory itself.
use csce410_611_spring2026_p.Mmu.{Mmu, Frames, store, is_present, frame_in}
use csce410_611_spring2026_p.PageTable.{Paging, paging_bit, translate, mapped_entry}
use csce410_611_spring2026_p.PageTable.Take.{GoodPool, InUse}
use csce410_611_spring2026_p.Base.{
  ℕ, ◌+◌, ◌*◌, ◌%◌, ◌<◌, ◌≤◌, ◌≡◌, ◌≢◌, refl, ap, ◌∙◌, true, ◌/◌, some, arith,
}

-- The frame of the table that entry `i` of the directory in frame `d` names
abbrev pub table_of : Frames → (d i : ℕ) → ℕ
table_of memory d i = frame_in (memory d i)

-- Paging is on with the directory in frame `d` of the first 4 MB, which are mapped to themselves there. The last entry
-- is the directory; the others name tables in frames of the process pool that are in use, each its own.
pub record IsPaged (z : ℕ) (s : Paging) (d : ℕ) : Type 0 where
  pub on : paging_bit ≤ s.cr0
  pub current : s.current_directory ≡ 4096 * d
  pub loaded : s.cr3 ≡ 4096 * d
  pub low : d < 1024
  pub recursive : s.memory d 1023 ≡ mapped_entry (4096 * d)
  pub first_table : is_present (s.memory d 0) ≡ true
  pub identity : s.memory (table_of s.memory d 0) d ≡ mapped_entry (4096 * d)
  pub tables :
      (i : ℕ)
      → i < 1023
      → is_present (s.memory d i) ≡ true
      → InUse s.process_mem_pool (table_of s.memory d i)
  pub separate :
      (i j : ℕ)
      → i < 1023
      → j < 1023
      → i ≢ j
      → is_present (s.memory d i) ≡ true
      → is_present (s.memory d j) ≡ true
      → table_of s.memory d i ≢ table_of s.memory d j
  pub pool : GoodPool z s.process_mem_pool

pub store_self : (m : Frames) (f i v : ℕ) → store m f i v f i ≡ v
store_self m f i v = ground arith

pub store_frame : (m : Frames) (f i v g j : ℕ) → f ≢ g → store m f i v g j ≡ m g j
store_frame m f i v g j h = ground arith

pub store_index : (m : Frames) (f i v g j : ℕ) → i ≢ j → store m f i v g j ≡ m g j
store_index m f i v g j h = ground arith

pub mapped_entry-frame : (f : ℕ) → frame_in (mapped_entry (f * 4096)) ≡ f
mapped_entry-frame f = omega arith

pub mapped_entry-present : (f : ℕ) → is_present (mapped_entry (f * 4096)) ≡ true
mapped_entry-present f = ground arith

module _ ⦃mmu : Mmu⦄ where
  -- A page whose two entries are present and name the tables `t` and `f`
  pub frame_of-at :
      (m : Frames) (d page t f : ℕ)
      → is_present (m d (page / 1024)) ≡ true
      → table_of m d (page / 1024) ≡ t
      → is_present (m t (page % 1024)) ≡ true
      → frame_in (m t (page % 1024)) ≡ f
      → mmu.frame_of m d page ≡ some f
  frame_of-at m d page t f p e p' e' =
      mmu.frame_of-some m d page p (ap (λ x. is_present (m x (page % 1024))) e ∙ p')
      ∙ ap (λ x. some (frame_in (m x (page % 1024)))) e
      ∙ ap some e'

  module _ (z : ℕ) (s : Paging) (d : ℕ) (v : IsPaged z s d) where
    pub translate-frame_of : (page : ℕ) → translate s page ≡ mmu.frame_of s.memory d page
    unfolding translate
    translate-frame_of page =
        let on = v.on in let at : s.cr3 / 4096 ≡ d = let l = v.loaded in omega arith in ground arith

    reach :
        (page i j t f : ℕ)
        → page / 1024 ≡ i
        → page % 1024 ≡ j
        → is_present (s.memory d i) ≡ true
        → table_of s.memory d i ≡ t
        → is_present (s.memory t j) ≡ true
        → frame_in (s.memory t j) ≡ f
        → translate s page ≡ some f
    reach page i j t f ei ej p e p' e' =
        translate-frame_of page
        ∙ frame_of-at s.memory d page t f (rw ei p) (rw ei e) (rw ej p') (rw ej e')

    last_present : is_present (s.memory d 1023) ≡ true
    last_present = rw v.recursive (ground arith)

    last_frame : table_of s.memory d 1023 ≡ d
    last_frame = rw v.recursive (omega arith)

    -- Page 2^20 - 1 is the directory.
    pub reach_directory : (page : ℕ) → page ≡ 0xfffff → translate s page ≡ some d
    reach_directory page e =
        reach page 1023 1023 d d (omega arith) (omega arith) last_present last_frame last_present
          last_frame

    -- The page of the directory is mapped to itself.
    pub reach_identity : (page : ℕ) → page ≡ d → translate s page ≡ some d
    reach_identity page e =
        let low = v.low in
        reach page 0 d (table_of s.memory d 0) d (omega arith) (omega arith) v.first_table refl
          (rw v.identity (ground arith)) (rw v.identity (omega arith))

    -- The tables follow each other from page 1023 * 1024 on.
    pub reach_table :
        (page i : ℕ)
        → i < 1023
        → is_present (s.memory d i) ≡ true
        → page ≡ 1023 * 1024 + i
        → translate s page ≡ some (table_of s.memory d i)
    reach_table page i less p e =
        reach page 1023 i d (table_of s.memory d i) (omega arith) (omega arith) last_present
          last_frame p refl
