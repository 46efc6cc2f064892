-- ===== src/DirectPaging/Fault.antt =====
-- MP3_Sources/page_table.C: `handle_fault` as a whole.
use mathlib.Core.Option.{none-ne-some}
use csce410_611_spring2026_p.RunPool.{get_frames}
use csce410_611_spring2026_p.DirectPaging.{
  Paging, directory_word, table_word, add_table, map_page, handle_fault,
}
use csce410_611_spring2026_p.DirectPaging.Walk.{
  translate, entry_at, IsPaging, translate-walked, walked-absent,
}
use csce410_611_spring2026_p.DirectPaging.MapPage.{
  directory_at, map_page-IsPaging, map_page_lem, map_page_memory,
}
use csce410_611_spring2026_p.DirectPaging.AddTable.{
  add_table-IsPaging, add_table_lem, add_table_low, add_table_rest, add_table_present,
}
use csce410_611_spring2026_p.Base.{
  ℕ, ◌+◌, ◌*◌, ◌%◌, ◌<◌, ◌≤◌, ◌≡◌, ◌≢◌, refl, sym, ap, none, put_ne, dec_lt, ◌∙◌, true, false, ◌/◌,
  ◌^◌, some, arith, ◌==◌, if◌then◌else◌, ℕ_discrete, word_size,
}

-- What a handled fault at `v` leaves: the tables are apart, the page of `v` is in the frame from the process pool, and
-- every other address is translated as before, so the first 4 MB are still mapped to themselves. The words that are
-- read and written lie there.
pub record Mapped (base total dir v : ℕ) (s s' : Paging) : Type 0 where
  pub tables : IsPaging base total dir s'
  pub page :
      (w : ℕ)
      → w < word_size
      → translate s'.memory s'.loaded w ≡ (
          if w / 4096 == v / 4096
          then some ((get_frames s.process_mem_pool 1).0 * 4096 + w % 4096)
          else translate s.memory s.loaded w)
  pub still_shared : (w : ℕ) → w < 0x40_0000 → translate s'.memory s'.loaded w ≡ some w
  pub directory_low : directory_word s.loaded v < 2 ^ 20
  pub table_low : table_word (s'.memory (directory_word s.loaded v)) v < 2 ^ 20
  pub writes_low : (j : ℕ) → 2 ^ 20 ≤ j → s'.memory j ≡ s.memory j

-- An address that is translated has a table.
table_present :
    (memory : ℕ → ℕ) (dir w a : ℕ)
    → translate memory (dir * 4096) w ≡ some a
    → entry_at memory dir (w / 2 ^ 22) % 2 ≡ 1
table_present memory dir w a e = elim (ℕ_discrete (entry_at memory dir (w / 2 ^ 22) % 2) 1) [
  | yes there ↦ there
  | no absent ↦
      let nothing =
        translate-walked memory dir w
        ∙ walked-absent memory (entry_at memory dir (w / 2 ^ 22)) w absent in
      absurd (none-ne-some _ (sym nothing ∙ e))
]

module _ (base total dir v : ℕ) (s : Paging) (sys : IsPaging base total dir s)
    (address : v < word_size) (low : base + total ≤ 1024)
    (shared : (w : ℕ) → w < 0x40_0000 → translate s.memory s.loaded w ≡ some w)
    (fault : translate s.memory s.loaded v ≡ none)
    (frame_below : (get_frames s.process_mem_pool 1).0 < 2 ^ 20) where
  -- The address is not in the first 4 MB, as those are mapped.
  fault_high : 0x40_0000 ≤ v
  fault_high = elim (dec_lt v 0x40_0000) [
    | yes h ↦ absurd (none-ne-some _ (sym fault ∙ shared v h))
    | no h ↦ omega arith
  ]

  Mapped-present :
      (t : Paging)
      → IsPaging base total dir t
      → entry_at t.memory dir (v / 2 ^ 22) % 2 ≡ 1
      → t.process_mem_pool ≡ s.process_mem_pool
      → ((w : ℕ)
          → w < word_size
          → translate t.memory (dir * 4096) w ≡ translate s.memory (dir * 4096) w)
      → ((j : ℕ) → 2 ^ 20 ≤ j → t.memory j ≡ s.memory j)
      → Mapped base total dir v s (map_page v t)
  Mapped-present t sys' present pool same kept =
      let below : (get_frames t.process_mem_pool 1).0 < 2 ^ 20 = rw pool frame_below in
      let after = map_page-IsPaging base total dir v t sys' address present below in
      let memory = map_page_memory base total dir v t sys' address present below in
      let page = map_page_lem base total dir v t sys' address present below in
      let high = fault_high in
      let in_dir = sys.dir_below in
      let at = directory_at base total dir v s sys address in
      let mapped : translate (map_page v t).memory (dir * 4096) v
          ≡ some ((get_frames t.process_mem_pool 1).0 * 4096 + v % 4096) =
        page v address ∙ ground arith in
      let there = table_present (map_page v t).memory dir v _ mapped in
      let table = after.table_below (v / 2 ^ 22) (omega arith) there in
      record {
        tables = after;
        page = λ w hw. rw (after.at_dir, sys.at_dir) (page w hw ∙ rw (pool, same w hw) refl);
        still_shared = λ w hw.
            let before : translate s.memory (dir * 4096) w ≡ some w =
              rw (← sys.at_dir) (shared w hw) in
            let whole : w < word_size = omega arith in
            let old : translate t.memory (dir * 4096) w ≡ some w = same w whole ∙ before in
            rw (after.at_dir, page w whole, old) (ground arith);
        directory_low = omega (arith, at);
        table_low = rw at (omega (arith, table));
        writes_low = λ j h.
            ap (λ (m : ℕ → ℕ). m j) memory
            ∙ put_ne t.memory _ j _
                (λ e. absurd (omega (arith, sys'.table_below (v / 2 ^ 22) (omega arith) present)))
            ∙ kept j h;
      }

  -- In MP3, with the tables apart, the kernel's pool in the first 4 MB, these mapped to themselves, and a frame of the
  -- process pool below 2 ^ 20, and with a frame in the kernel's pool if the page table is missing: `handle_fault` at an
  -- address that is not mapped maps its page to that frame of the process pool, leaves the translation of every other
  -- address, so that the first 4 MB are still mapped to themselves, and keeps the tables apart. The words of the
  -- directory and of the table that it reads, and all words that it changes, lie in the first 4 MB.
  pub handle_fault_lem :
      (entry_at s.memory dir (v / 2 ^ 22) % 2 ≢ 1 → (get_frames s.kernel_mem_pool 1).0 ≢ 0)
      → Mapped base total dir v s (handle_fault v s)
  unfolding handle_fault
  handle_fault_lem room =
      let fits : base + total ≤ 2 ^ 20 = omega arith in
      let at = directory_at base total dir v s sys address in
      elim (ℕ_discrete (entry_at s.memory dir (v / 2 ^ 22) % 2) 1) [
        | yes present ↦
            let bit : (s.memory (directory_word s.loaded v) % 2 == 0) ≡ false =
              rw at (ground arith) in
            rw bit (Mapped-present s sys present refl (λ w hw. refl) (λ j h. refl))
        | no absent ↦
            let bit : (s.memory (directory_word s.loaded v) % 2 == 0) ≡ true =
              rw at (ground arith) in
            rw bit (
              Mapped-present (add_table v s)
                (add_table-IsPaging base total dir v s sys address fits absent (room absent))
                (add_table_present base total dir v s sys address fits absent (room absent))
                (add_table_rest base total dir v s sys address fits absent (room absent)).0
                (add_table_lem base total dir v s sys address fits absent (room absent))
                (add_table_low base total dir v s sys address fits absent (room absent) low))
      ]
