-- ===== src/DirectPaging/Walk.antt =====
-- MP3_Sources/page_table.C: the walk of the processor through the tables, and what keeps the tables apart.
use csce410_611_spring2026_p.FrameStates.{free_state}
use csce410_611_spring2026_p.RunPool.{get_state}
use csce410_611_spring2026_p.RunPool.States.{IsPool}
use csce410_611_spring2026_p.DirectPaging.{
  Paging, fill, directory_word, table_word, present_entry, frame_address,
}
use csce410_611_spring2026_p.Base.{
  ℕ, zero, suc, ◌+◌, ◌-◌, ◌*◌, ◌%◌, ◌<◌, ◌≤◌, ◌≡◌, ◌≢◌, refl, sym, ◌∙◌, true, ◌&&◌, ◌/◌, ◌^◌,
  Option, some, none, arith, ltb, ◌==◌, if◌then◌else◌, put, ℕ_discrete, leb,
}

-- The physical address of `address`, or `none` where the processor faults
unfoldable pub translate : (memory : ℕ → ℕ) (directory address : ℕ) → Option ℕ
translate memory directory address =
    let pde = memory (directory_word directory address) in
    let pte = memory (table_word pde address) in
    if pde % 2 == 0
    then none
    else if pte % 2 == 0
    then none
    else some (pte / 4096 * 4096 + address % 4096)

pub fill_lem :
    (value : ℕ → ℕ) (k i at : ℕ) (memory : ℕ → ℕ) (j : ℕ)
    → fill value k i at memory j
      ≡ (if leb (at + i) j && ltb j (at + (i + k)) then value (j - at) else memory j)
unfolding fill
fill_lem value zero i at memory j = ground arith
fill_lem value (suc k) i at memory j =
    fill_lem value k (i + 1) at (put memory (at + i) (value i)) j ∙ elim (ℕ_discrete j (at + i)) [
      | yes e ↦ let here : j - at ≡ i = omega arith in rw here (ground arith)
      | no ne ↦ ground arith
    ]

-- The entry `i` of the directory in the frame `dir`, and the frame of its table
abbrev pub entry_at : (ℕ → ℕ) → (dir i : ℕ) → ℕ
entry_at memory dir i = memory (dir * 1024 + i)

abbrev pub table_of : (ℕ → ℕ) → (dir i : ℕ) → ℕ
table_of memory dir i = entry_at memory dir i / 4096

-- The directory is in the frame `dir` of the kernel's pool, as are all tables, each in a frame of its own; their frames
-- are taken.
pub record IsPaging (base total dir : ℕ) (s : Paging) : Type 0 where
  pub pool : IsPool base total s.kernel_mem_pool
  pub at_dir : s.loaded ≡ dir * 4096
  pub dir_from : base ≤ dir
  pub dir_below : dir < base + total
  pub dir_taken : get_state s.kernel_mem_pool dir ≢ free_state
  pub table_from :
      (i : ℕ) → i < 1024 → entry_at s.memory dir i % 2 ≡ 1 → base ≤ table_of s.memory dir i
  pub table_below :
      (i : ℕ) → i < 1024 → entry_at s.memory dir i % 2 ≡ 1 → table_of s.memory dir i < base + total
  pub table_taken :
      (i : ℕ)
      → i < 1024
      → entry_at s.memory dir i % 2 ≡ 1
      → get_state s.kernel_mem_pool (table_of s.memory dir i) ≢ free_state
  pub not_directory :
      (i : ℕ) → i < 1024 → entry_at s.memory dir i % 2 ≡ 1 → table_of s.memory dir i ≢ dir
  pub apart :
      (i j : ℕ)
      → i < 1024
      → j < 1024
      → entry_at s.memory dir i % 2 ≡ 1
      → entry_at s.memory dir j % 2 ≡ 1
      → i ≢ j
      → table_of s.memory dir i ≢ table_of s.memory dir j

-- The walk, from the frame of the directory
pub translate_frame :
    (memory : ℕ → ℕ) (dir address : ℕ)
    → translate memory (dir * 4096) address ≡ (
        let pte =
          memory (table_of memory dir (address / 2 ^ 22) * 1024 + address / 2 ^ 12 % 1024) in
        if entry_at memory dir (address / 2 ^ 22) % 2 == 0
        then none
        else if pte % 2 == 0
        then none
        else some (pte / 4096 * 4096 + address % 4096))
unfolding translate
translate_frame memory dir address =
    let at : directory_word (dir * 4096) address ≡ dir * 1024 + address / 2 ^ 22 = omega arith in
    let table : table_word (entry_at memory dir (address / 2 ^ 22)) address
        ≡ table_of memory dir (address / 2 ^ 22) * 1024 + address / 2 ^ 12 % 1024 =
      omega arith in
    rw (at, table) refl

pub present_entry_frame :
    (frame : ℕ)
    → frame < 2 ^ 20
    → (present_entry (frame_address frame) % 2 ≡ 1)
      × (present_entry (frame_address frame) / 4096 ≡ frame)
present_entry_frame frame h = (omega arith, omega arith)

-- The walk from a directory entry on
abbrev pub walked : (memory : ℕ → ℕ) (pde address : ℕ) → Option ℕ
walked memory pde address =
    let pte = memory (pde / 4096 * 1024 + address / 2 ^ 12 % 1024) in
    if pde % 2 == 0
    then none
    else if pte % 2 == 0
    then none
    else some (pte / 4096 * 4096 + address % 4096)

pub translate-walked :
    (memory : ℕ → ℕ) (dir address : ℕ)
    → translate memory (dir * 4096) address
      ≡ walked memory (entry_at memory dir (address / 2 ^ 22)) address
translate-walked = translate_frame

pub walked-absent :
    (memory : ℕ → ℕ) (pde address : ℕ) → pde % 2 ≢ 1 → walked memory pde address ≡ none
walked-absent memory pde address h =
    let zero_bit : (pde % 2 == 0) ≡ true = ground arith in rw zero_bit refl

pub walked-empty :
    (memory : ℕ → ℕ) (pde address : ℕ)
    → memory (pde / 4096 * 1024 + address / 2 ^ 12 % 1024) ≡ 0
    → walked memory pde address ≡ none
walked-empty memory pde address h = rw h (ground arith)

pub walked-same :
    (memory memory' : ℕ → ℕ) (pde address : ℕ)
    → (pde % 2 ≡ 1
        → memory (pde / 4096 * 1024 + address / 2 ^ 12 % 1024)
          ≡ memory' (pde / 4096 * 1024 + address / 2 ^ 12 % 1024))
    → walked memory pde address ≡ walked memory' pde address
walked-same memory memory' pde address same = elim (ℕ_discrete (pde % 2) 1) [
  | yes e ↦ rw (same e) refl
  | no ne ↦ walked-absent memory pde address ne ∙ sym (walked-absent memory' pde address ne)
]
