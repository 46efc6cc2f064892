-- ===== src/DirectPaging/MapPage.antt =====
-- MP3_Sources/page_table.C: the part of `handle_fault` that maps the page, when its table is there.
use csce410_611_spring2026_p.RunPool.{get_frames}
use csce410_611_spring2026_p.DirectPaging.{
  Paging, directory_word, table_word, present_entry, frame_address, map_page,
}
use csce410_611_spring2026_p.DirectPaging.Walk.{
  translate, entry_at, table_of, IsPaging, translate_frame, present_entry_frame,
}
use csce410_611_spring2026_p.Base.{
  ℕ, ◌+◌, ◌*◌, ◌%◌, ◌<◌, ◌≡◌, ◌≢◌, refl, ap, ◌∙◌, inl, inr, true, false, ◌/◌, ◌^◌, some, arith,
  ◌==◌, if◌then◌else◌, put, ℕ_discrete, Bool-cases, word_size,
}

-- The tables stay apart where the directory and the kernel's pool do not change.
IsPaging-same :
    (base total dir : ℕ) (s s' : Paging)
    → IsPaging base total dir s
    → s'.kernel_mem_pool ≡ s.kernel_mem_pool
    → s'.loaded ≡ s.loaded
    → ((i : ℕ) → i < 1024 → entry_at s'.memory dir i ≡ entry_at s.memory dir i)
    → IsPaging base total dir s'
IsPaging-same base total dir s s' sys kernel loaded same = record {
  pool = rw kernel sys.pool;
  at_dir = loaded ∙ sys.at_dir;
  dir_from = sys.dir_from;
  dir_below = sys.dir_below;
  dir_taken = rw kernel sys.dir_taken;
  table_from = λ i h e. rw (same i h) (sys.table_from i h (rw (same i h) at e));
  table_below = λ i h e. rw (same i h) (sys.table_below i h (rw (same i h) at e));
  table_taken = λ i h e. rw (kernel, same i h) (sys.table_taken i h (rw (same i h) at e));
  not_directory = λ i h e. rw (same i h) (sys.not_directory i h (rw (same i h) at e));
  apart = λ i j hi hj e e' ne.
      rw (same i hi, same j hj)
        (sys.apart i j hi hj (rw (same i hi) at e) (rw (same j hj) at e') ne);
}

-- Where the processor finds the words of an address
module _ (base total dir v : ℕ) (s : Paging) (sys : IsPaging base total dir s)
    (address : v < word_size) where
  pub directory_at : directory_word s.loaded v ≡ dir * 1024 + v / 2 ^ 22
  directory_at = omega (arith, sys.at_dir)

  pub table_at :
      table_word (s.memory (directory_word s.loaded v)) v
      ≡ table_of s.memory dir (v / 2 ^ 22) * 1024 + v / 2 ^ 12 % 1024
  table_at = rw directory_at (omega arith)

  -- The page gets the frame from the process pool, when its table is present.
  module _ (present : entry_at s.memory dir (v / 2 ^ 22) % 2 ≡ 1)
      (frame_below : (get_frames s.process_mem_pool 1).0 < 2 ^ 20) where
    pub map_page_memory :
        (map_page v s).memory
        ≡ put s.memory
            (table_of s.memory dir (v / 2 ^ 22) * 1024 + v / 2 ^ 12 % 1024)
            (present_entry (frame_address (get_frames s.process_mem_pool 1).0))
    unfolding map_page
    map_page_memory = rw table_at refl

    map_page_rest :
        ((map_page v s).kernel_mem_pool ≡ s.kernel_mem_pool) × ((map_page v s).loaded ≡ s.loaded)
    unfolding map_page
    map_page_rest = (refl, refl)

    map_page_entry :
        (i : ℕ) → i < 1024 → entry_at (map_page v s).memory dir i ≡ entry_at s.memory dir i
    map_page_entry i h =
        ap (λ (m : ℕ → ℕ). m (dir * 1024 + i)) map_page_memory
        ∙ ground (arith, sys.not_directory (v / 2 ^ 22) (omega arith) present)

    pub map_page-IsPaging : IsPaging base total dir (map_page v s)
    map_page-IsPaging =
        IsPaging-same base total dir s (map_page v s) sys map_page_rest.0 map_page_rest.1
          map_page_entry

    -- The table word of `w`, if its table is present
    map_page_word :
        (w : ℕ)
        → w < word_size
        → entry_at s.memory dir (w / 2 ^ 22) % 2 ≡ 1
        → (map_page v s).memory (table_of s.memory dir (w / 2 ^ 22) * 1024 + w / 2 ^ 12 % 1024) ≡ (
            if w / 4096 == v / 4096
            then present_entry (frame_address (get_frames s.process_mem_pool 1).0)
            else s.memory (table_of s.memory dir (w / 2 ^ 22) * 1024 + w / 2 ^ 12 % 1024))
    map_page_word w hw there =
        ap (λ (m : ℕ → ℕ). m (table_of s.memory dir (w / 2 ^ 22) * 1024 + w / 2 ^ 12 % 1024))
          map_page_memory
        ∙ elim (ℕ_discrete (w / 2 ^ 22) (v / 2 ^ 22)) [
          | yes e ↦ rw e (ground arith)
          | no ne ↦
              let other =
                sys.apart (w / 2 ^ 22) (v / 2 ^ 22) (omega arith) (omega arith) there present ne in
              ground arith
        ]

    pub map_page_lem :
        (w : ℕ)
        → w < word_size
        → translate (map_page v s).memory (dir * 4096) w ≡ (
            if w / 4096 == v / 4096
            then some ((get_frames s.process_mem_pool 1).0 * 4096 + w % 4096)
            else translate s.memory (dir * 4096) w)
    map_page_lem w hw =
        let (odd, back) = present_entry_frame (get_frames s.process_mem_pool 1).0 frame_below in
        translate_frame (map_page v s).memory dir w
        ∙ rw (translate_frame s.memory dir w, map_page_entry (w / 2 ^ 22) (omega arith))
            (elim (ℕ_discrete (entry_at s.memory dir (w / 2 ^ 22) % 2) 1) [
              | yes there ↦
                  let is_there : (entry_at s.memory dir (w / 2 ^ 22) % 2 == 0) ≡ false =
                    ground arith in
                  rw (map_page_word w hw there, is_there)
                    (elim (Bool-cases (w / 4096 == v / 4096)) [
                      | inl e ↦ rw (e, back) (ground (arith, odd))
                      | inr e ↦ rw e refl
                    ])
              | no absent ↦
                  let is_absent : (entry_at s.memory dir (w / 2 ^ 22) % 2 == 0) ≡ true =
                    ground arith in
                  let apart : w / 4096 ≢ v / 4096 = λ e.
                    let same : w / 2 ^ 22 ≡ v / 2 ^ 22 = omega arith in absent (rw same present) in
                  let far : (w / 4096 == v / 4096) ≡ false = ground arith in
                  rw (is_absent, far) refl
            ])
