-- ===== src/Mmu.antt =====
-- What the kernel relies on of the processor's paging (pages of 4 KB, for accesses of the kernel), as a record of the
-- operation and its laws. Memory is the words of each frame. `Walk` is an instance.
pub mod Walk
use csce410_611_spring2026_p.Base.{
  ℕ, zero, suc, ◌+◌, ◌-◌, ◌*◌, ◌%◌, ◌<◌, ◌≤◌, ◌≡◌, ◌≢◌, refl, sym, ap, ◌∙◌, inl, inr, ◌⊎◌, Bool,
  true, false, ◌&&◌, ◌||◌, ◌/◌, ◌^◌, Option, some, none, List, [], ◌∷◌, ◌++◌, arith, ltb, ◌==◌,
  if◌then◌else◌, put, put_ne, put_self, ℕ_discrete, dec_lt, copy, field_of, with_field,
  with_field-lt, field_of-with_field, field_of-put, length, Bool-cases, word_size, leb,
}

abbrev pub Frames : Type 0
Frames = ℕ → ℕ → ℕ

-- Word `i` of frame `f` is set to `v`.
abbrev pub store : Frames → (f i v : ℕ) → Frames
store memory f i v = put memory f (put (memory f) i v)

-- An entry of a page directory or of a page table
abbrev pub is_present : ℕ → Bool
is_present entry = entry % 2 == 1

abbrev pub frame_in : ℕ → ℕ
frame_in entry = entry / 4096

-- `frame_of memory d page` is the frame of a page under the directory in frame `d`; the entry of a page directory for
-- 1024 pages names the table of these pages.
pub record Mmu : Type 0 where
  pub frame_of : Frames → (d page : ℕ) → Option ℕ
  pub frame_of-some :
      (memory : Frames) (d page : ℕ)
      → is_present (memory d (page / 1024)) ≡ true
      → is_present (memory (frame_in (memory d (page / 1024))) (page % 1024)) ≡ true
      → frame_of memory d page
        ≡ some (frame_in (memory (frame_in (memory d (page / 1024))) (page % 1024)))
  pub frame_of-no_table :
      (memory : Frames) (d page : ℕ)
      → is_present (memory d (page / 1024)) ≡ false
      → frame_of memory d page ≡ none
  pub frame_of-no_page :
      (memory : Frames) (d page : ℕ)
      → is_present (memory d (page / 1024)) ≡ true
      → is_present (memory (frame_in (memory d (page / 1024))) (page % 1024)) ≡ false
      → frame_of memory d page ≡ none
