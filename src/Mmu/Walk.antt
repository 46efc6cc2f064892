-- ===== src/Mmu/Walk.antt =====
-- A walk through the directory and the table, which meets the laws of the interface.
use csce410_611_spring2026_p.Mmu.{Frames, Mmu, is_present, frame_in}
use csce410_611_spring2026_p.Base.{ℕ, ◌%◌, ◌&&◌, ◌/◌, Option, some, none, if◌then◌else◌}

abbrev walk : Frames → (d page : ℕ) → Option ℕ
walk memory d page =
    let directory_entry = memory d (page / 1024) in
    let table_entry = memory (frame_in directory_entry) (page % 1024) in
    if is_present directory_entry && is_present table_entry
    then some (frame_in table_entry)
    else none

instance abbrev pub walking_mmu : Mmu
walking_mmu = record {
  frame_of = walk;
  frame_of-some = λ memory d page table here. rw (table, here);
  frame_of-no_table = λ memory d page table. rw table;
  frame_of-no_page = λ memory d page table here. rw (table, here);
}
