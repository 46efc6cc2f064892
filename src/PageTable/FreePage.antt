-- ===== src/PageTable/FreePage.antt =====
-- MP4_Sources/page_table.C: `free_page`, whose masks keep bits that the shifts drop.
use csce410_611_spring2026_p.Base.Run.{ok}
use csce410_611_spring2026_p.FramePool.{release_frames}
use csce410_611_spring2026_p.FramePool.Cycle.{release_frames-Unowned}
use csce410_611_spring2026_p.Mmu.{Mmu, Frames, store}
use csce410_611_spring2026_p.PageTable.{
  Paging, translate, read_word, write_word, mapped_entry, load, free_page,
}
use csce410_611_spring2026_p.PageTable.Access.{IsPaged, table_of, reach_table, reach_identity}
use csce410_611_spring2026_p.PageTable.Steps.{read_word-ok, write_word-ok}
use csce410_611_spring2026_p.Base.{
  fun_ext, ℕ, ◌+◌, ◌*◌, ◌%◌, ◌<◌, ◌≡◌, refl, sym, ap, ◌∙◌, ◌/◌, some, [], ◌∷◌, arith, word_size,
}

store-same : (m : Frames) (f i : ℕ) → store m f i (m f i) ≡ m
store-same m f i = fun_ext (λ g. fun_ext (λ j. ground arith))

module _ ⦃mmu : Mmu⦄ (z : ℕ) (s : Paging) (d : ℕ) (v : IsPaged z s d) where
  load-same : load (4096 * d) s ≡ ok s
  unfolding load
  load-same =
      let low = v.low in
      let read =
        read_word-ok s ((4096 * d + 4) % word_size) d
          (reach_identity z s d v ((4096 * d + 4) % word_size / 4096) (omega arith)) in
      rw read (
        ap (λ a. ok (record s { current_directory = a; cr3 = a })) (sym v.current)
        ∙ ap (λ a. ok (record s { cr3 = a })) (v.current ∙ sym v.loaded))

  -- In a valid state of paging where page 0 is mapped to itself and frame 0 is below the kernel pool, `free_page` of
  -- any page changes nothing.
  pub free_page-idle :
      (page_no : ℕ)
      → 0 < s.kernel_mem_pool.base_frame_no
      → s.memory (table_of s.memory d 0) 0 ≡ mapped_entry 0
      → free_page (4096 * d) page_no s ≡ ok s
  unfolding free_page
  free_page-idle page_no above first_page =
      let i : page_no % 4096 / 4 * 4 / 4194304 ≡ 0 = omega arith in
      let t : page_no % 1024 / 4096 ≡ 0 = omega arith in
      let at : translate s (0xffc0_0000 / 4096) ≡ some (table_of s.memory d 0) =
        reach_table z s d v (0xffc0_0000 / 4096) 0 (omega arith) v.first_table refl in
      let read : read_word s 0xffc0_0000 ≡ ok 3 =
        read_word-ok s 0xffc0_0000 (table_of s.memory d 0) at ∙ ap ok first_page in
      let wrote : write_word s 0xffc0_0000 3 ≡ ok s =
        write_word-ok s 0xffc0_0000 3 (table_of s.memory d 0) at
        ∙ ap (λ w. ok (record s { memory = store s.memory (table_of s.memory d 0) 0 w }))
            (sym first_page)
        ∙ ap (λ m. ok (record s { memory = m })) (store-same s.memory (table_of s.memory d 0) 0) in
      let high = v.pool.high in
      let kept : release_frames (s.kernel_mem_pool ∷ s.process_mem_pool ∷ []) 0
          ≡ ok (s.kernel_mem_pool ∷ s.process_mem_pool ∷ []) =
        release_frames-Unowned (s.kernel_mem_pool ∷ s.process_mem_pool ∷ []) 0
          (ground arith, (ground arith, tt)) in
      rw (i, t, read, kept, read, wrote) load-same
