-- ===== src/PageTable/Setup.antt =====
-- MP4_Sources/page_table.C and kernel.C: the constructor, `load` and `enable_paging`, as the kernel calls them.
use mathlib.Core.Path.{subst}
use csce410_611_spring2026_p.Base.Run.{Run, ok, halted, ◌>>=◌}
use csce410_611_spring2026_p.MemPool.{page_size}
use csce410_611_spring2026_p.FramePool.{ContFramePool, is_used}
use csce410_611_spring2026_p.FramePool.Get.{IsValid, GetOutcome, got, refused, get_frames_outcome}
use csce410_611_spring2026_p.Mmu.{Mmu, Frames, store, is_present, frame_in}
use csce410_611_spring2026_p.PageTable.{
  Paging, paging_bit, write_word, mapped_entry, take_page, fill, new_page_table, load,
  enable_paging,
}
use csce410_611_spring2026_p.PageTable.Fill.{Built, fill-Built, write_frame, read_word-direct}
use csce410_611_spring2026_p.PageTable.Take.{
  GoodPool, InUse, TakeOutcome, taken, none_left, take_page_outcome, none_free-count,
}
use csce410_611_spring2026_p.PageTable.Access.{
  IsPaged, table_of, store_self, mapped_entry-frame, mapped_entry-present, frame_of-at,
}
use csce410_611_spring2026_p.Base.{
  ℕ, ◌+◌, ◌*◌, ◌%◌, ◌<◌, ◌≤◌, ◌≡◌, refl, sym, ap, ◌∙◌, inl, inr, ◌⊎◌, true, false, ◌/◌, some, none,
  arith, word_size,
}

-- The kernel pool hands out frames of the first 4 MB; the byte at `z` ends its search.
pub record LowPool (z : ℕ) (p : ContFramePool) : Type 0 where
  pub valid : IsValid p
  pub behind : p.nframes ≤ z
  pub stop : is_used (p.bitmap z) ≡ false
  pub low : p.base_frame_no + p.nframes ≤ 1024

module _ ⦃mmu : Mmu⦄ where
  -- `PageTable pt1; pt1.load(); PageTable::enable_paging();`
  abbrev pub start_paging : ℕ → Paging → Run Paging
  start_paging fuel s =
      new_page_table fuel s >>= (λ r. load r.0 r.1) >>= (λ s'. ok (enable_paging s'))

  pub data StartOutcome (z : ℕ) (s : Paging) : Run Paging → Type 0 where
    ready :
        (s' : Paging) (d : ℕ)
        → IsPaged z s' d
        → ((page : ℕ) → page < 1024 → mmu.frame_of s'.memory d page ≡ some page)
        → ((page : ℕ) → 1024 ≤ page → page / 1024 < 1023 → mmu.frame_of s'.memory d page ≡ none)
        → StartOutcome z s (ok s')
    no_frame :
        (s.kernel_mem_pool.n_free_frames ≡ 0) ⊎ (s.process_mem_pool.n_free_frames ≡ 0)
        → StartOutcome z s halted

  -- Everything behind the two frames
  module _ (z : ℕ) (s : Paging) (d t : ℕ) (m : Frames) (off : s.cr0 < paging_bit) (low : d < 1024)
      (used : InUse s.process_mem_pool t) (good : GoodPool z s.process_mem_pool)
      (built : Built d t s.memory m)
      (recursive : s.memory d 1023 ≡ mapped_entry (d * page_size)) where
    first_frame : table_of m d 0 ≡ t
    first_frame = ap frame_in built.first ∙ mapped_entry-frame t

    only_first : (i : ℕ) → i < 1023 → is_present (m d i) ≡ true → i ≡ 0
    only_first i less here = ground (arith, built.absent i)

    direct_entry :
        (page : ℕ) → page < 1024 → m (table_of m d 0) page ≡ mapped_entry (page * page_size)
    direct_entry page less = ap (λ f. m f page) first_frame ∙ built.identity page less

    direct : (page : ℕ) → page < 1024 → mmu.frame_of m d page ≡ some page
    direct page less =
        let zeroth : page / 1024 ≡ 0 = omega arith in
        let at : page % 1024 ≡ page = omega arith in
        frame_of-at m d page t page
          (ap (λ i. is_present (m d i)) zeroth ∙ ap is_present built.first ∙ mapped_entry-present t)
          (ap (λ i. table_of m d i) zeroth ∙ first_frame)
          (ap (λ j. is_present (m t j)) at
            ∙ ap is_present (built.identity page less)
            ∙ mapped_entry-present page)
          (ap (λ j. frame_in (m t j)) at
            ∙ ap frame_in (built.identity page less)
            ∙ mapped_entry-frame page)

    unmapped : (page : ℕ) → 1024 ≤ page → page / 1024 < 1023 → mmu.frame_of m d page ≡ none
    unmapped page high less =
        mmu.frame_of-no_table m d page
          (ap is_present (built.absent (page / 1024) (omega arith) less))

    abbrev started : Paging
    started = enable_paging (record s {
      memory = m;
      current_directory = d * page_size;
      cr3 = d * page_size;
      paging_enabled = 0;
    })

    started-IsPaged : IsPaged z started d
    unfolding enable_paging
    started-IsPaged = record {
      on = ground arith;
      current = omega arith;
      loaded = omega arith;
      low = low;
      recursive = built.last ∙ recursive ∙ ap mapped_entry (omega arith);
      first_table = ap is_present built.first ∙ mapped_entry-present t;
      identity = direct_entry d low ∙ ap mapped_entry (omega arith);
      tables = λ i less here.
          subst (λ f. InUse s.process_mem_pool f)
            (sym (ap (λ i. table_of m d i) (only_first i less here) ∙ first_frame)) used;
      separate = λ i j lessi lessj ne herei herej.
          absurd (ne (only_first i lessi herei ∙ sym (only_first j lessj herej)));
      pool = good;
    }

  load-direct :
      (s : Paging) (directory : ℕ)
      → s.cr0 < paging_bit
      → load directory s ≡ ok (record s { current_directory = directory; cr3 = directory })
  unfolding load
  load-direct s directory off = rw (read_word-direct s ((directory + 4) % word_size) off) refl

  -- The last steps of the constructor, `load` and `enable_paging`
  abbrev finished : ℕ → Paging → Run (ℕ × Paging)
  finished directory s = ok (directory, record s { paging_enabled = 0 })

  abbrev started_run : Run (ℕ × Paging) → Run Paging
  started_run r = r >>= (λ r. load r.0 r.1) >>= (λ s'. ok (enable_paging s'))

  -- The two loops, with the entry for the table between them
  abbrev filled_run : ℕ → ℕ × Paging → Run Paging
  filled_run directory q =
      fill (λ i. mapped_entry (i * page_size)) 1024 0 q.0 q.1
      >>= (λ s'. write_word s' directory (mapped_entry q.0))
      >>= fill (λ i. 2) 1022 1 directory

  module _ (z fuel : ℕ) (s : Paging) (off : s.cr0 < paging_bit) (enough : z < fuel)
      (good : GoodPool z s.process_mem_pool) where
    module _ (d : ℕ) (low : d < 1024) (p : ContFramePool) where
      abbrev with_directory : Paging
      with_directory = record s {
        kernel_mem_pool = p;
        memory = store s.memory d 1023 (mapped_entry (d * page_size));
      }

      second :
          {r : Run (ℕ × Paging)}
          → TakeOutcome z with_directory r
          → StartOutcome z s
              (started_run (r >>= filled_run (d * page_size) >>= finished (d * page_size)))
      unfolding enable_paging
      second (none_left zero_free) = no_frame (inr zero_free)
      second (taken t q free used kept back count good') =
          let s1 = record with_directory { process_mem_pool = q } in
          let above = used.lower in
          let below = used.upper in
          let high = good'.high in
          let fits = good'.fits in
          let (m, run, built) = fill-Built s1 d t off (omega arith) (omega arith) (omega arith) in
          let last = store_self s.memory d 1023 (mapped_entry (d * page_size)) in
          let loaded =
            load-direct (record s1 { memory = m; paging_enabled = 0 }) (d * page_size) off in
          subst (λ r. StartOutcome z s (started_run (r >>= finished (d * page_size)))) (sym run)
            (subst (λ r. StartOutcome z s (r >>= (λ s'. ok (enable_paging s')))) (sym loaded)
              (ready (started z s1 d t m off low used good' built last) d
                (started-IsPaged z s1 d t m off low used good' built last)
                (direct z s1 d t m off low used good' built last)
                (unmapped z s1 d t m off low used good' built last)))

    first :
        {r : Run (ℕ × ContFramePool)}
        → LowPool z s.kernel_mem_pool
        → GetOutcome s.kernel_mem_pool 1 r
        → StartOutcome z s (
            started_run (
              r >>= (λ r.
                let directory = r.0 * page_size % word_size in
                write_word
                  (record s { kernel_mem_pool = r.1 })
                  ((directory + 4 * 1023) % word_size)
                  (mapped_entry directory)
                >>= take_page fuel
                >>= filled_run directory
                >>= finished directory)))
    first k (refused none_free) = no_frame (
        inl (
          k.valid.counted
          ∙ none_free-count s.kernel_mem_pool.bitmap s.kernel_mem_pool.nframes
              (λ i h e. none_free i (omega arith) (λ k a b. ground arith))))
    first k (got i p h free others t) =
        let d = s.kernel_mem_pool.base_frame_no + i in
        let bound = k.low in
        let low : d < 1024 = omega arith in
        let whole : d * page_size ≡ d * page_size % word_size = omega arith in
        let s1 = record s { kernel_mem_pool = p } in
        subst
          (λ directory. StartOutcome z s (
            started_run (
              write_word s1 ((directory + 4 * 1023) % word_size) (mapped_entry directory)
              >>= take_page fuel
              >>= filled_run directory
              >>= finished directory)))
          whole
          (subst
            (λ r. StartOutcome z s (
              started_run
                (r >>= take_page fuel >>= filled_run (d * page_size) >>= finished (d * page_size))))
            (sym (
              write_frame s1 d 1023 (mapped_entry (d * page_size)) off (omega arith) (omega arith)))
            (second d low p (take_page_outcome z (with_directory d low p) good fuel enough)))

    -- With paging off, a good process pool, a kernel pool in the first 4 MB, and fuel above `z`, the constructor,
    -- `load` and `enable_paging` end in a valid state of paging, whatever memory held: the first 4 MB are mapped to
    -- themselves, and no other page below 0xffc00000 is mapped. They fail an assertion if one of the pools has no free
    -- frame.
    pub start_paging-StartOutcome :
        LowPool z s.kernel_mem_pool → StartOutcome z s (start_paging fuel s)
    unfolding new_page_table
    start_paging-StartOutcome k =
        first k (
          get_frames_outcome s.kernel_mem_pool 1 k.valid (omega arith) fuel z k.behind k.stop
            enough)
