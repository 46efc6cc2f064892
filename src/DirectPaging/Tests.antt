-- ===== src/DirectPaging/Tests.antt =====
-- The page table of MP3_Sources/page_table.C with pools of 16 frames
use csce410_611_spring2026_p.Base.TwoBits.{field_of, with_field}
use csce410_611_spring2026_p.FrameStates.Loops.{set_all}
use csce410_611_spring2026_p.RunPool.{
  ContFramePool, get_state, set_state, find_run, mark_found, get_frames,
}
use csce410_611_spring2026_p.RunPool.States.{IsPool}
use csce410_611_spring2026_p.DirectPaging.{Paging, new_page_table, load, handle_fault}
use csce410_611_spring2026_p.DirectPaging.Setup.{Started, new_page_table-Started}
use csce410_611_spring2026_p.DirectPaging.Fault.{Mapped, handle_fault_lem}
use csce410_611_spring2026_p.Base.{ℕ, ◌≡◌, ◌∙◌, refl, false, arith, field_of, with_field}

abbrev empty_pool : ℕ → ContFramePool
empty_pool base = record { bitmap = λ i. 0; base_frame_no = base; n_frames = 16; n_info_frames = 1 }

abbrev paging : Paging
paging = record {
  memory = λ j. 7;
  kernel_mem_pool = empty_pool 512;
  process_mem_pool = empty_pool 1024;
  shared_size = 0x40_0000;
  loaded = 0;
  paging_enabled = false;
}

empty_pool-IsPool : IsPool 512 16 (empty_pool 512)
empty_pool-IsPool = record { at_base = refl; size = refl; bytes = λ i. omega arith }

first_frame : (get_frames (empty_pool 512) 1).0 ≡ 512
unfolding get_frames find_run mark_found get_state field_of
first_frame = refl

second_frame : (get_frames (get_frames (empty_pool 512) 1).1 1).0 ≡ 513
unfolding get_frames find_run mark_found get_state set_state field_of set_all with_field
second_frame = refl

third_frame : (get_frames (get_frames (get_frames (empty_pool 512) 1).1 1).1 1).0 ≡ 514
unfolding get_frames find_run mark_found get_state set_state field_of set_all with_field
third_frame = refl

page_frame : (get_frames (empty_pool 1024) 1).0 ≡ 1024
unfolding get_frames find_run mark_found get_state field_of
page_frame = refl

abbrev started : Paging
started = load (new_page_table paging).0 (new_page_table paging).1

new_page_table-Started_example : Started 512 16 started
new_page_table-Started_example =
    new_page_table-Started 512 16 paging empty_pool-IsPool (omega arith)
      (rw first_frame (omega arith)) (rw second_frame (omega arith))

started-Started : Started 512 16 started
started-Started =
    new_page_table-Started 512 16 paging empty_pool-IsPool (omega arith)
      (rw first_frame (omega arith)) (rw second_frame (omega arith))

kernel_pool : started.kernel_mem_pool ≡ (get_frames (get_frames (empty_pool 512) 1).1 1).1
unfolding load new_page_table
kernel_pool = refl

process_pool : started.process_mem_pool ≡ empty_pool 1024
unfolding load new_page_table
process_pool = refl

handle_fault_lem_example :
    Mapped 512 16 started-Started.dir 0x80_1234 started (handle_fault 0x80_1234 started)
handle_fault_lem_example =
    handle_fault_lem 512 16 started-Started.dir 0x80_1234 started started-Started.tables
      (omega arith) (omega arith) (λ w h. started-Started.shared w (omega arith) ∙ ground arith)
      (started-Started.shared 0x80_1234 (omega arith) ∙ refl)
      (rw (process_pool, page_frame) (omega arith))
      (λ absent. rw (kernel_pool, third_frame) (omega arith))
