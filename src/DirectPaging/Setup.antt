-- ===== src/DirectPaging/Setup.antt =====
-- MP3_Sources/page_table.C: the constructor maps the first 4 MB to themselves, and nothing else.
use csce410_611_spring2026_p.FrameStates.{free_state, head_state}
use csce410_611_spring2026_p.FrameStates.Outcome.{Got-found}
use csce410_611_spring2026_p.RunPool.{ContFramePool, get_state, get_frames}
use csce410_611_spring2026_p.RunPool.States.{IsPool}
use csce410_611_spring2026_p.RunPool.Get.{get_frames-Got}
use csce410_611_spring2026_p.DirectPaging.{
  Paging, fill, present_entry, frame_address, new_page_table, load,
}
use csce410_611_spring2026_p.DirectPaging.Walk.{
  translate, fill_lem, entry_at, table_of, IsPaging, translate-walked, walked, walked-absent,
  present_entry_frame,
}
use csce410_611_spring2026_p.Base.{
  ℕ, ◌+◌, ◌-◌, ◌*◌, ◌%◌, ◌<◌, ◌≤◌, ◌≡◌, ◌≢◌, refl, sym, ap, ◌∙◌, false, ◌&&◌, ◌/◌, ◌^◌, some, none,
  arith, ltb, ◌==◌, if◌then◌else◌, put, put_ne, ℕ_discrete, word_size, leb,
}

-- The words that the constructor writes, for any two frames
set_up_word :
    (memory : ℕ → ℕ) (d t entry j : ℕ)
    → d ≢ t
    → fill
        (λ i. 0)
        1023
        1
        (d * 1024)
        (put (fill (λ i. present_entry (i * 4096)) 1024 0 (t * 1024) memory) (d * 1024) entry)
        j
      ≡ (if j == d * 1024
          then entry
          else if leb (d * 1024) j && ltb j (d * 1024 + 1024)
          then 0
          else if leb (t * 1024) j && ltb j (t * 1024 + 1024)
          then present_entry ((j - t * 1024) * 4096)
          else memory j)
set_up_word memory d t entry j ne =
    let table = fill_lem (λ i. present_entry (i * 4096)) 1024 0 (t * 1024) memory j in
    fill_lem (λ i. 0) 1023 1 (d * 1024)
      (put (fill (λ i. present_entry (i * 4096)) 1024 0 (t * 1024) memory) (d * 1024) entry) j
    ∙ elim (ℕ_discrete (d * 1024) j) [
      | yes e ↦ rw (← e) (ground arith)
      | no ne' ↦
          rw
            (
              put_ne (fill (λ i. present_entry (i * 4096)) 1024 0 (t * 1024) memory) (d * 1024) j
                  entry ne',
              table,
            )
            (ground arith)
    ]

-- An address below 4 MB whose table entry maps its page to itself
walked-itself :
    (memory : ℕ → ℕ) (pde table w : ℕ)
    → pde % 2 ≡ 1
    → pde / 4096 ≡ table
    → memory (table * 1024 + w / 2 ^ 12 % 1024) ≡ present_entry (w / 4096 % 1024 * 4096)
    → w < 0x40_0000
    → walked memory pde w ≡ some w
walked-itself memory pde table w odd back word low =
    let is_there : (pde % 2 == 0) ≡ false = ground arith in
    let entry : (present_entry (w / 4096 % 1024 * 4096) % 2 == 0) ≡ false = ground arith in
    let itself : present_entry (w / 4096 % 1024 * 4096) / 4096 * 4096 + w % 4096 ≡ w =
      omega arith in
    rw (back, word, is_there, entry) (ap some itself)

-- One frame from a pool: it was free, and is taken now.
one_frame :
    (base total : ℕ) (p : ContFramePool)
    → IsPool base total p
    → base + total ≤ 2 ^ 20
    → (get_frames p 1).0 ≢ 0
    → (base ≤ (get_frames p 1).0)
      × ((get_frames p 1).0 < base + total)
      × (get_state p (get_frames p 1).0 ≡ free_state)
      × IsPool base total (get_frames p 1).1
      × ((g : ℕ)
          → base ≤ g
          → g < base + total
          → get_state (get_frames p 1).1 g
            ≡ (if (get_frames p 1).0 == g then head_state else get_state p g))
one_frame base total p pool fits found =
    let ((from, inside, free, first), fine, marked) =
      Got-found get_state (IsPool base total) base (base + total) 1 p (get_frames p 1)
        (get_frames-Got base total p 1 pool (omega arith) (omega arith)) found in
    (
      from,
      omega arith,
      free _ (omega arith) (omega arith),
      fine,
      λ g a b. marked g a b ∙ ground arith,
    )

-- What the constructor and the load leave
pub record Started (base total : ℕ) (s' : Paging) : Type 0 where
  pub dir : ℕ
  pub tables : IsPaging base total dir s'
  pub shared :
      (w : ℕ)
      → w < word_size
      → translate s'.memory s'.loaded w ≡ (if ltb w 0x40_0000 then some w else none)

module _ (base total : ℕ) (s : Paging) (pool : IsPool base total s.kernel_mem_pool)
    (fits : base + total ≤ 2 ^ 20) (found : (get_frames s.kernel_mem_pool 1).0 ≢ 0)
    (found' : (get_frames (get_frames s.kernel_mem_pool 1).1 1).0 ≢ 0) where
  frame : ℕ
  frame = (get_frames s.kernel_mem_pool 1).0

  frame' : ℕ
  frame' = (get_frames (get_frames s.kernel_mem_pool 1).1 1).0

  started : Paging
  started = load (new_page_table s).0 (new_page_table s).1

  started_word :
      (j : ℕ)
      → frame ≢ frame'
      → frame < 2 ^ 20
      → frame' < 2 ^ 20
      → started.memory j ≡ (
          if j == frame * 1024
          then present_entry (frame_address frame')
          else if leb (frame * 1024) j && ltb j (frame * 1024 + 1024)
          then 0
          else if leb (frame' * 1024) j && ltb j (frame' * 1024 + 1024)
          then present_entry ((j - frame' * 1024) * 4096)
          else s.memory j)
  unfolding started frame frame' load new_page_table
  started_word j ne h h' =
      let at : frame_address frame / 4 ≡ frame * 1024 = omega arith in
      let at' : frame_address frame' / 4 ≡ frame' * 1024 = omega arith in
      rw (at, at') (set_up_word s.memory frame frame' (frame' * 1024 * 4 + 3) j ne)

  started_pool : started.kernel_mem_pool ≡ (get_frames (get_frames s.kernel_mem_pool 1).1 1).1
  unfolding started load new_page_table
  started_pool = refl

  started_at : frame < 2 ^ 20 → started.loaded ≡ frame * 4096
  unfolding started load new_page_table frame
  started_at h = omega arith

  two_frames :
      (frame ≢ frame')
      × (base ≤ frame)
      × (frame < base + total)
      × (base ≤ frame')
      × (frame' < base + total)
      × IsPool base total started.kernel_mem_pool
      × (get_state started.kernel_mem_pool frame ≢ free_state)
      × (get_state started.kernel_mem_pool frame' ≢ free_state)
  unfolding frame frame'
  two_frames =
      let (from, below, free, fine, marked) =
        one_frame base total s.kernel_mem_pool pool fits found in
      let (from', below', free', fine', marked') =
        one_frame base total (get_frames s.kernel_mem_pool 1).1 fine fits found' in
      let taken = marked _ from below in
      let ne : (get_frames s.kernel_mem_pool 1).0
          ≢ (get_frames (get_frames s.kernel_mem_pool 1).1 1).0 =
        λ e. ground (arith, rw e at taken) in
      (
        ne,
        from,
        below,
        from',
        below',
        rw started_pool fine',
        rw started_pool (ground (arith, marked' _ from below)),
        rw started_pool (ground (arith, marked' _ from' below')),
      )

  module _ (ne : frame ≢ frame') (small : frame < 2 ^ 20) (small' : frame' < 2 ^ 20) where
    first_entry : entry_at started.memory frame 0 ≡ present_entry (frame_address frame')
    first_entry = started_word (frame * 1024 + 0) ne small small' ∙ ground arith

    no_entry : (i : ℕ) → i < 1024 → i ≢ 0 → entry_at started.memory frame i ≡ 0
    no_entry i h pos = started_word (frame * 1024 + i) ne small small' ∙ ground arith

    only_first : (i : ℕ) → i < 1024 → entry_at started.memory frame i % 2 ≡ 1 → i ≡ 0
    only_first i h e = elim (ℕ_discrete i 0) [
      | yes z ↦ z
      | no pos ↦ let none_there = no_entry i h pos in ground arith
    ]

    table_first :
        (i : ℕ)
        → i < 1024
        → entry_at started.memory frame i % 2 ≡ 1
        → table_of started.memory frame i ≡ frame'
    table_first i h e =
        rw (only_first i h e)
          (ap (λ x. x / 4096) first_entry ∙ (present_entry_frame frame' small').1)

    shared_lem :
        (w : ℕ)
        → w < word_size
        → translate started.memory (frame * 4096) w ≡ (if ltb w 0x40_0000 then some w else none)
    shared_lem w hw = translate-walked started.memory frame w ∙ elim (ℕ_discrete (w / 2 ^ 22) 0) [
      | yes e ↦
          let (odd, back) = present_entry_frame frame' small' in
          let first : entry_at started.memory frame (w / 2 ^ 22)
              ≡ present_entry (frame_address frame') =
            rw e first_entry in
          walked-itself started.memory (entry_at started.memory frame (w / 2 ^ 22)) frame' w
            (rw first odd) (rw first back)
            (started_word (frame' * 1024 + w / 2 ^ 12 % 1024) ne small small' ∙ ground arith)
            (omega arith)
          ∙ ground arith
      | no high ↦
          walked-absent started.memory (entry_at started.memory frame (w / 2 ^ 22)) w
            (rw (no_entry (w / 2 ^ 22) (omega arith) high) (omega arith))
          ∙ ground arith
    ]

  started-Started : Started base total started
  started-Started =
      let (ne, from, below, from', below', fine, taken, taken') = two_frames in
      let small : frame < 2 ^ 20 = omega arith in
      let small' : frame' < 2 ^ 20 = omega arith in
      let table = table_first ne small small' in
      record {
        dir = frame;
        tables = record {
          pool = fine;
          at_dir = started_at small;
          dir_from = from;
          dir_below = below;
          dir_taken = taken;
          table_from = λ i h e. rw (table i h e) from';
          table_below = λ i h e. rw (table i h e) below';
          table_taken = λ i h e. rw (table i h e) taken';
          not_directory = λ i h e. rw (table i h e) (λ same. ne (sym same));
          apart = λ i j hi hj e e' differ. absurd (
              differ
                (only_first ne small small' i hi e ∙ sym (only_first ne small small' j hj e')));
        };
        shared = λ w hw. rw (started_at small) (shared_lem ne small small' w hw);
      }

  -- From a kernel pool that has two frames for it, the constructor and the load leave tables that are apart; addresses
  -- below 4 MB are translated to themselves, and no other address is mapped.
  pub new_page_table-Started : Started base total (load (new_page_table s).0 (new_page_table s).1)
  unfolding started
  new_page_table-Started = started-Started
