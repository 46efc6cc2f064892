-- ===== src/PageTable/Steps.antt =====
-- MP4_Sources/page_table.C: the two steps of `handle_fault`, a new table and a new page, with the pages that they keep.
use csce410_611_spring2026_p.Base.Run.{Run, ok, halted, ◌>>=◌}
use csce410_611_spring2026_p.MemPool.{page_size}
use csce410_611_spring2026_p.Mmu.{Mmu, Frames, store, is_present, frame_in}
use csce410_611_spring2026_p.PageTable.{
  Paging, translate, read_word, write_word, mapped_entry, new_table, new_page,
}
use csce410_611_spring2026_p.PageTable.Take.{
  IsFree, InUse-IsFree, TakeOutcome, taken, none_left, take_page_outcome,
}
use csce410_611_spring2026_p.PageTable.Access.{
  IsPaged, table_of, store_self, store_frame, store_index, mapped_entry-frame, mapped_entry-present,
  frame_of-at, reach_directory, reach_table,
}
use csce410_611_spring2026_p.PageTable.Fault.{
  pool-IsPaged, with_table, new_entry, old_entry, present_ne, table-IsPaged, with_page,
  same_directory, page-IsPaged, table_ne,
}
use csce410_611_spring2026_p.Base.{
  ℕ, ◌+◌, ◌*◌, ◌%◌, ◌<◌, ◌≡◌, ◌≢◌, sym, ap, ◌∙◌, inl, inr, true, false, ◌/◌, some, arith,
  ℕ_discrete, Bool-cases,
}

module _ ⦃mmu : Mmu⦄ where
  pub read_word-ok :
      (s : Paging) (a f : ℕ)
      → translate s (a / 4096) ≡ some f
      → read_word s a ≡ ok (s.memory f (a % 4096 / 4))
  unfolding read_word
  read_word-ok s a f e = rw (e, read_word)

  pub write_word-ok :
      (s : Paging) (a v f : ℕ)
      → translate s (a / 4096) ≡ some f
      → write_word s a v ≡ ok (record s { memory = store s.memory f (a % 4096 / 4) v })
  unfolding write_word
  write_word-ok s a v f e = rw (e, write_word)

  -- Two memories with the same entries for a page, of which the first is present
  frame_of-same :
      (m m' : Frames) (d q : ℕ)
      → is_present (m d (q / 1024)) ≡ true
      → m' d (q / 1024) ≡ m d (q / 1024)
      → m' (table_of m d (q / 1024)) (q % 1024) ≡ m (table_of m d (q / 1024)) (q % 1024)
      → mmu.frame_of m' d q ≡ mmu.frame_of m d q
  frame_of-same m m' d q here same same_page =
      let table = table_of m d (q / 1024) in
      let here' : is_present (m' d (q / 1024)) ≡ true = rw same here in
      let table' : table_of m' d (q / 1024) ≡ table = ap frame_in same in
      elim (Bool-cases (is_present (m table (q % 1024)))) [
        | inl page ↦
            frame_of-at m' d q table (frame_in (m table (q % 1024))) here' table'
              (rw same_page page) (ap frame_in same_page)
            ∙ sym (mmu.frame_of-some m d q here page)
        | inr absent ↦
            mmu.frame_of-no_page m' d q here' (rw (table', same_page) absent)
            ∙ sym (mmu.frame_of-no_page m d q here absent)
      ]

  -- The pages of the tables that are there keep their frames, but for one page.
  abbrev pub Keeps : (page d : ℕ) → Frames → Frames → Type 0
  Keeps page d m m' =
      (q : ℕ)
      → q / 1024 < 1023
      → q ≢ page
      → is_present (m d (q / 1024)) ≡ true
      → mmu.frame_of m' d q ≡ mmu.frame_of m d q

  pub data TableOutcome (z : ℕ) (s : Paging) (d i : ℕ) : Run Paging → Type 0 where
    table :
        (s' : Paging)
        → IsPaged z s' d
        → is_present (s'.memory d i) ≡ true
        → ((j : ℕ) → is_present (s.memory d j) ≡ true → is_present (s'.memory d j) ≡ true)
        → ((page : ℕ) → Keeps page d s.memory s'.memory)
        → ((f : ℕ) → IsFree s'.process_mem_pool f → IsFree s.process_mem_pool f)
        → s'.process_mem_pool.n_free_frames + 1 ≡ s.process_mem_pool.n_free_frames
        → TableOutcome z s d i (ok s')
    no_table : s.process_mem_pool.n_free_frames ≡ 0 → TableOutcome z s d i halted

  -- The two outcomes of a fault at a page that needs `needed` frames
  pub data FaultOutcome (z : ℕ) (s : Paging) (d page needed : ℕ) : Run Paging → Type 0 where
    mapped :
        (s' : Paging) (f : ℕ)
        → IsPaged z s' d
        → IsFree s.process_mem_pool f
        → mmu.frame_of s'.memory d page ≡ some f
        → Keeps page d s.memory s'.memory
        → s'.process_mem_pool.n_free_frames + needed ≡ s.process_mem_pool.n_free_frames
        → FaultOutcome z s d page needed (ok s')
    no_frame : s.process_mem_pool.n_free_frames < needed → FaultOutcome z s d page needed halted

  module _ (z : ℕ) (s : Paging) (d : ℕ) (v : IsPaged z s d) (fuel : ℕ) (enough : z < fuel) where
    module _ (i : ℕ) (less : i < 1023) (absent : is_present (s.memory d i) ≡ false) where
      table_from :
          {r : Run (ℕ × Paging)}
          → TakeOutcome z s r
          → TableOutcome z s d i
              (r >>= (λ r. write_word r.1 (0xffff_f000 + 4 * i) (mapped_entry r.0)))
      table_from (none_left zero_free) = no_table zero_free
      table_from (taken f p free used kept back count good) =
          let s1 = record s { process_mem_pool = p } in
          let v1 = pool-IsPaged z s d p v kept good in
          let at : (0xffff_f000 + 4 * i) % 4096 / 4 ≡ i = omega arith in
          let written =
            write_word-ok s1 (0xffff_f000 + 4 * i) (mapped_entry (f * page_size)) d
              (reach_directory z s1 d v1 ((0xffff_f000 + 4 * i) / 4096) (omega arith)) in
          let fresh : (j : ℕ)
              → j < 1023
              → is_present (s.memory d j) ≡ true
              → table_of s.memory d j ≢ f =
            λ j lessj here.
              InUse-IsFree s.process_mem_pool (table_of s.memory d j) f (v.tables j lessj here)
                free in
          rw (written, at)
            (table (record s1 { memory = with_table z s1 d v1 i f less absent used fresh })
              (table-IsPaged z s1 d v1 i f less absent used fresh)
              (ap is_present (new_entry z s1 d v1 i f less absent used fresh)
                ∙ mapped_entry-present f)
              (λ j herej.
                ap is_present (
                  old_entry z s1 d v1 i f less absent used fresh j
                    (present_ne z s1 d v1 i f less absent used fresh j herej))
                ∙ herej)
              (λ page q lessq ne hereq.
                frame_of-same s.memory (with_table z s1 d v1 i f less absent used fresh) d q hereq
                  (old_entry z s1 d v1 i f less absent used fresh (q / 1024)
                    (present_ne z s1 d v1 i f less absent used fresh (q / 1024) hereq))
                  (store_frame s.memory d i (mapped_entry (f * page_size))
                    (table_of s.memory d (q / 1024)) (q % 1024)
                    (λ same. table_ne z s d v (q / 1024) lessq hereq (sym same))))
              back count)

      pub table_outcome : TableOutcome z s d i (new_table fuel i s)
      unfolding new_table
      table_outcome = table_from (take_page_outcome z s v.pool fuel enough)

    module _ (page : ℕ) (less : page / 1024 < 1023)
        (here : is_present (s.memory d (page / 1024)) ≡ true) (ne : page ≢ d) where
      page_from :
          {r : Run (ℕ × Paging)}
          → TakeOutcome z s r
          → FaultOutcome z s d page 1 (
              r >>= (λ r.
                write_word r.1
                  (0xffc0_0000 + 4096 * (page / 1024) + 4 * (page % 1024))
                  (mapped_entry r.0)))
      page_from (none_left zero_free) = no_frame (omega arith)
      page_from (taken f p free used kept back count good) =
          let i = page / 1024 in
          let t = page % 1024 in
          let a = 0xffc0_0000 + 4096 * i + 4 * t in
          let w = mapped_entry (f * page_size) in
          let s1 = record s { process_mem_pool = p } in
          let v1 = pool-IsPaged z s d p v kept good in
          let at : a % 4096 / 4 ≡ t = omega arith in
          let written =
            write_word-ok s1 a w (table_of s.memory d i)
              (reach_table z s1 d v1 (a / 4096) i less here (omega arith)) in
          let other : 1024 * i + t ≢ d = λ e. ne (omega arith) in
          let same_entries = same_directory z s1 d v1 i t w less here other in
          rw (written, at)
            (mapped (record s1 { memory = with_page z s1 d v1 i t w less here other }) f
              (page-IsPaged z s1 d v1 i t w less here other) free
              (frame_of-at (with_page z s1 d v1 i t w less here other) d page
                (table_of s.memory d i) f (ap is_present (same_entries i) ∙ here)
                (ap frame_in (same_entries i))
                (ap is_present (store_self s.memory (table_of s.memory d i) t w)
                  ∙ mapped_entry-present f)
                (ap frame_in (store_self s.memory (table_of s.memory d i) t w)
                  ∙ mapped_entry-frame f))
              (λ q lessq neq hereq.
                frame_of-same s.memory (with_page z s1 d v1 i t w less here other) d q hereq
                  (same_entries (q / 1024))
                  (elim (ℕ_discrete i (q / 1024)) [
                    | yes e ↦
                        store_index s.memory (table_of s.memory d i) t w
                          (table_of s.memory d (q / 1024)) (q % 1024) (λ same. neq (omega arith))
                    | no away ↦
                        store_frame s.memory (table_of s.memory d i) t w
                          (table_of s.memory d (q / 1024)) (q % 1024)
                          (v.separate i (q / 1024) less lessq away here hereq)
                  ]))
              count)

      pub page_outcome : FaultOutcome z s d page 1 (new_page fuel (page / 1024) (page % 1024) s)
      unfolding new_page
      page_outcome = page_from (take_page_outcome z s v.pool fuel enough)
