-- ===== src/DirectPaging/AddTable.antt =====
-- MP3_Sources/page_table.C: the part of `handle_fault` that makes a page table.
use csce410_611_spring2026_p.FrameStates.{free_state, head_state}
use csce410_611_spring2026_p.FrameStates.Outcome.{Got-found}
use csce410_611_spring2026_p.RunPool.{get_state, get_frames}
use csce410_611_spring2026_p.RunPool.States.{IsPool}
use csce410_611_spring2026_p.RunPool.Get.{get_frames-Got}
use csce410_611_spring2026_p.DirectPaging.{
  Paging, fill, directory_word, present_entry, frame_address, add_table,
}
use csce410_611_spring2026_p.DirectPaging.Walk.{
  walked, translate-walked, walked-absent, walked-empty, walked-same, translate, fill_lem, entry_at,
  table_of, IsPaging, present_entry_frame,
}
use csce410_611_spring2026_p.DirectPaging.MapPage.{directory_at}
use csce410_611_spring2026_p.Base.{
  ℕ, ◌+◌, ◌*◌, ◌%◌, ◌<◌, ◌≤◌, ◌≡◌, ◌≢◌, refl, sym, ap, ◌∙◌, inl, inr, ◌⊎◌, ◌&&◌, ◌/◌, ◌^◌, arith,
  ltb, ◌==◌, if◌then◌else◌, put, put_ne, ℕ_discrete, word_size, leb,
}

-- The words after a cleared table and a directory entry
word_after :
    (memory : ℕ → ℕ) (table at entry j : ℕ)
    → put (fill (λ i. 0) 1024 0 table memory) at entry j
      ≡ (if at == j then entry else if leb table j && ltb j (table + 1024) then 0 else memory j)
word_after memory table at entry j =
    let filled = fill_lem (λ i. 0) 1024 0 table memory j in
    elim (ℕ_discrete at j) [
      | yes e ↦ ground arith
      | no ne ↦ put_ne (fill (λ i. 0) 1024 0 table memory) at j entry ne ∙ filled ∙ ground arith
    ]

module _ (base total dir v : ℕ) (s : Paging) (sys : IsPaging base total dir s)
    (address : v < word_size) (fits : base + total ≤ 2 ^ 20)
    (absent : entry_at s.memory dir (v / 2 ^ 22) % 2 ≢ 1)
    (found : (get_frames s.kernel_mem_pool 1).0 ≢ 0) where
  frame : ℕ
  frame = (get_frames s.kernel_mem_pool 1).0

  -- The new frame was free, and is taken now; no other state changes.
  frame_found :
      (base ≤ frame)
      × (frame < base + total)
      × (get_state s.kernel_mem_pool frame ≡ free_state)
      × IsPool base total (get_frames s.kernel_mem_pool 1).1
      × ((g : ℕ)
          → base ≤ g
          → g < base + total
          → get_state (get_frames s.kernel_mem_pool 1).1 g
            ≡ (if frame == g then head_state else get_state s.kernel_mem_pool g))
  unfolding frame
  frame_found =
      let ((from, inside, free, first), fine, marked) =
        Got-found get_state (IsPool base total) base (base + total) 1 s.kernel_mem_pool
          (get_frames s.kernel_mem_pool 1)
          (get_frames-Got base total s.kernel_mem_pool 1 sys.pool (omega arith) (omega arith))
          found in
      (
        from,
        omega arith,
        free _ (omega arith) (omega arith),
        fine,
        λ g a b. marked g a b ∙ ground arith,
      )

  new_word :
      (j : ℕ)
      → (add_table v s).memory j ≡ (
          if dir * 1024 + v / 2 ^ 22 == j
          then present_entry (frame_address frame)
          else if leb (frame * 1024) j && ltb j (frame * 1024 + 1024)
          then 0
          else s.memory j)
  unfolding add_table frame
  new_word j =
      let (from, below, free, fine, marked) = frame_found in
      let at = directory_at base total dir v s sys address in
      let table : frame_address frame / 4 ≡ frame * 1024 = omega arith in
      word_after s.memory (frame_address frame / 4) (directory_word s.loaded v)
        (present_entry (frame_address frame)) j
      ∙ rw (at, table) refl

  -- With the pool below 4 MB no word from there on changes.
  pub add_table_low :
      base + total ≤ 1024 → (j : ℕ) → 2 ^ 20 ≤ j → (add_table v s).memory j ≡ s.memory j
  add_table_low low j h =
      let (from, below, free, fine, marked) = frame_found in
      let dir_below = sys.dir_below in new_word j ∙ ground arith

  add_table_pool : (add_table v s).kernel_mem_pool ≡ (get_frames s.kernel_mem_pool 1).1
  unfolding add_table
  add_table_pool = refl

  pub add_table_rest :
      ((add_table v s).process_mem_pool ≡ s.process_mem_pool) × ((add_table v s).loaded ≡ s.loaded)
  unfolding add_table
  add_table_rest = (refl, refl)

  frame-dir : frame ≢ dir
  frame-dir e = let (from, below, free, fine, marked) = frame_found in sys.dir_taken (rw e at free)

  frame-table :
      (i : ℕ) → i < 1024 → entry_at s.memory dir i % 2 ≡ 1 → frame ≢ table_of s.memory dir i
  frame-table i h there e =
      let (from, below, free, fine, marked) = frame_found in
      sys.table_taken i h there (rw e at free)

  entry_new : entry_at (add_table v s).memory dir (v / 2 ^ 22) ≡ present_entry (frame_address frame)
  entry_new = new_word (dir * 1024 + v / 2 ^ 22) ∙ ground arith

  pub add_table_present : entry_at (add_table v s).memory dir (v / 2 ^ 22) % 2 ≡ 1
  add_table_present =
      let (from, below, free, fine, marked) = frame_found in
      ap (λ x. x % 2) entry_new ∙ (present_entry_frame frame (omega arith)).0

  entry_old :
      (i : ℕ)
      → i < 1024
      → i ≢ v / 2 ^ 22
      → entry_at (add_table v s).memory dir i ≡ entry_at s.memory dir i
  entry_old i h ne = new_word (dir * 1024 + i) ∙ ground (arith, frame-dir)

  state_kept :
      (g : ℕ)
      → base ≤ g
      → g < base + total
      → get_state s.kernel_mem_pool g ≢ free_state
      → get_state (add_table v s).kernel_mem_pool g ≢ free_state
  state_kept g a b taken =
      let (from, below, free, fine, marked) = frame_found in
      rw (add_table_pool, marked g a b) (ground arith)

  -- A table that is there afterwards is the new one, or was there before.
  table_cases :
      (i : ℕ)
      → i < 1024
      → entry_at (add_table v s).memory dir i % 2 ≡ 1
      → ((i ≡ v / 2 ^ 22) × (table_of (add_table v s).memory dir i ≡ frame))
        ⊎ ((entry_at s.memory dir i % 2 ≡ 1)
            × (table_of (add_table v s).memory dir i ≡ table_of s.memory dir i))
  table_cases i h there = elim (ℕ_discrete i (v / 2 ^ 22)) [
    | yes e ↦
        let (from, below, free, fine, marked) = frame_found in
        inl (e, rw e (ap (λ x. x / 4096) entry_new ∙ (present_entry_frame frame (omega arith)).1))
    | no ne ↦
        let same = entry_old i h ne in
        inr (sym (ap (λ x. x % 2) same) ∙ there, ap (λ x. x / 4096) same)
  ]

  pub add_table-IsPaging : IsPaging base total dir (add_table v s)
  add_table-IsPaging =
      let (from, below, free, fine, marked) = frame_found in
      record {
        pool = rw add_table_pool fine;
        at_dir = add_table_rest.1 ∙ sys.at_dir;
        dir_from = sys.dir_from;
        dir_below = sys.dir_below;
        dir_taken = state_kept dir sys.dir_from sys.dir_below sys.dir_taken;
        table_from = λ i h e. elim (table_cases i h e) [
          | inl (at, new) ↦ rw new from
          | inr (there, old) ↦ rw old (sys.table_from i h there)
        ];
        table_below = λ i h e. elim (table_cases i h e) [
          | inl (at, new) ↦ rw new below
          | inr (there, old) ↦ rw old (sys.table_below i h there)
        ];
        table_taken = λ i h e. elim (table_cases i h e) [
          | inl (at, new) ↦ rw (new, add_table_pool, marked frame from below) (ground arith)
          | inr (there, old) ↦ rw old (
              state_kept _ (sys.table_from i h there) (sys.table_below i h there)
                (sys.table_taken i h there))
        ];
        not_directory = λ i h e. elim (table_cases i h e) [
          | inl (at, new) ↦ rw new frame-dir
          | inr (there, old) ↦ rw old (sys.not_directory i h there)
        ];
        apart = λ i j hi hj e e' ne. elim (table_cases i hi e) [
          | inl (at, new) ↦ elim (table_cases j hj e') [
            | inl (at', new') ↦ absurd (ne (at ∙ sym at'))
            | inr (there, old) ↦ rw (new, old) (frame-table j hj there)
          ]
          | inr (there, old) ↦ elim (table_cases j hj e') [
            | inl (at', new') ↦ rw (old, new') (λ same. frame-table i hi there (sym same))
            | inr (there', old') ↦ rw (old, old') (sys.apart i j hi hj there there' ne)
          ]
        ];
      }

  -- The walk finds the same pages as before.
  pub add_table_lem :
      (w : ℕ)
      → w < word_size
      → translate (add_table v s).memory (dir * 4096) w ≡ translate s.memory (dir * 4096) w
  add_table_lem w hw =
      translate-walked (add_table v s).memory dir w
      ∙ elim (ℕ_discrete (w / 2 ^ 22) (v / 2 ^ 22)) [
        | yes e ↦
            let (from, below, free, fine, marked) = frame_found in
            let back = (present_entry_frame frame (omega arith)).1 in
            walked-empty (add_table v s).memory (entry_at (add_table v s).memory dir (w / 2 ^ 22)) w
              (rw (e, entry_new, back)
                (new_word (frame * 1024 + w / 2 ^ 12 % 1024) ∙ ground (arith, frame-dir)))
            ∙ sym (walked-absent s.memory (entry_at s.memory dir (w / 2 ^ 22)) w (rw e absent))
        | no ne ↦
            ap (λ x. walked (add_table v s).memory x w) (entry_old (w / 2 ^ 22) (omega arith) ne)
            ∙ walked-same (add_table v s).memory s.memory (entry_at s.memory dir (w / 2 ^ 22)) w
                (λ there.
                  new_word (table_of s.memory dir (w / 2 ^ 22) * 1024 + w / 2 ^ 12 % 1024)
                  ∙ ground (
                    arith,
                    frame-table (w / 2 ^ 22) (omega arith) there,
                    sys.not_directory (w / 2 ^ 22) (omega arith) there,
                  ))
      ]
      ∙ sym (translate-walked s.memory dir w)
