-- ===== src/PageTable/Handle.antt =====
-- MP4_Sources/page_table.C: `handle_fault` as a whole.
use csce410_611_spring2026_p.Base.Run.{Run, ok, ◌>>=◌}
use csce410_611_spring2026_p.VmPool.{VmPool}
use csce410_611_spring2026_p.Mmu.{Mmu, is_present}
use csce410_611_spring2026_p.PageTable.{Paging, find_pool, new_table, new_page, handle_fault}
use csce410_611_spring2026_p.PageTable.Access.{IsPaged, reach_identity, translate-frame_of}
use csce410_611_spring2026_p.PageTable.Steps.{
  read_word-ok, TableOutcome, table, no_table, FaultOutcome, mapped, no_frame, table_outcome,
  page_outcome,
}
use csce410_611_spring2026_p.Base.{
  not, ℕ, ◌+◌, ◌*◌, ◌%◌, ◌<◌, ◌≡◌, ◌≢◌, refl, sym, ◌∙◌, inl, inr, false, ◌&&◌, ◌/◌, ◌^◌, some, none,
  List, [], ◌∷◌, arith, if◌then◌else◌, Bool-cases, word_size,
}

-- No registered pool is left at the end of the search, unless the address is in it.
find_pool-same :
    (ps : List VmPool) (address : ℕ) → (find_pool ps address).0 ≡ (find_pool ps address).1
unfolding find_pool
find_pool-same [] address = refl
find_pool-same (p ∷ ps) address = ground (arith, find_pool-same ps address)

module _ ⦃mmu : Mmu⦄ where
  ne-none : {f : ℕ} → some f ≡ none → ⊥
  ne-none same = cc

  module _ (z : ℕ) (s : Paging) (d : ℕ) (v : IsPaged z s d) (fuel : ℕ) (enough : z < fuel) where
    after_table :
        (page : ℕ) {r : Run Paging}
        → page / 1024 < 1023
        → page ≢ d
        → TableOutcome z s d (page / 1024) r
        → FaultOutcome z s d page 2 (r >>= new_page fuel (page / 1024) (page % 1024))
    after_table page less ne (no_table zero_free) = no_frame (omega arith)
    after_table page less ne (table s' v' here still kept back count) =
        add_table (page_outcome z s' d v' fuel enough page less here ne)
      where
        add_table : {r : Run Paging} → FaultOutcome z s' d page 1 r → FaultOutcome z s d page 2 r
        add_table (mapped s'' f v'' free at keeps count') =
            mapped s'' f v'' (back f free) at
              (λ q lessq neq hereq.
                keeps q lessq neq (still (q / 1024) hereq) ∙ kept page q lessq neq hereq)
              (omega arith)
        add_table (no_frame few) = no_frame (omega arith)

    -- The search of the pools changes nothing.
    handle_fault-steps :
        (address : ℕ)
        → address < 0xffc0_0000
        → let i = address / 2 ^ 22 in
          handle_fault fuel address s ≡ (
            (if is_present (s.memory d i) then ok s else new_table fuel i s)
            >>= new_page fuel i (address / 2 ^ 12 % 2 ^ 10))
    unfolding handle_fault
    handle_fault-steps address below =
        let a = (s.current_directory + 4 * (address / 2 ^ 22)) % word_size in
        let low = v.low in
        let current = v.current in
        let read = read_word-ok s a d (reach_identity z s d v (a / 4096) (omega arith)) in
        let at : a % 4096 / 4 ≡ address / 2 ^ 22 = omega arith in
        let pools : (not (find_pool s.vm_pools address).0 && (find_pool s.vm_pools address).1)
            ≡ false =
          ground (arith, find_pool-same s.vm_pools address) in
        rw (pools, read, at) refl

    handle_fault-cases :
        (page : ℕ)
        → page / 1024 < 1023
        → page ≢ d
        → FaultOutcome z s d page (if is_present (s.memory d (page / 1024)) then 1 else 2) (
            (if is_present (s.memory d (page / 1024)) then ok s else new_table fuel (page / 1024) s)
            >>= new_page fuel (page / 1024) (page % 1024))
    handle_fault-cases page less ne = elim (Bool-cases (is_present (s.memory d (page / 1024)))) [
      | inl here ↦ rw here (page_outcome z s d v fuel enough page less here ne)
      | inr absent ↦
          rw absent
            (after_table page less ne (table_outcome z s d v fuel enough (page / 1024) less absent))
    ]

    -- A fault at an address below the tables, in a page that has no frame, either maps the page to a frame that was
    -- free and leaves the other pages of the tables that there are as they were, or ends the run, as the pool has
    -- fewer free frames than the fault needs: one for the page, and one for its table if there is none yet.
    pub handle_fault-maps :
        (address : ℕ)
        → address < 0xffc0_0000
        → mmu.frame_of s.memory d (address / 4096) ≡ none
        → FaultOutcome z s d
            (address / 4096)
            (if is_present (s.memory d (address / 4096 / 1024)) then 1 else 2)
            (handle_fault fuel address s)
    handle_fault-maps address low unmapped =
        let page = address / 4096 in
        let i : address / 2 ^ 22 ≡ page / 1024 = omega arith in
        let t : address / 2 ^ 12 % 2 ^ 10 ≡ page % 1024 = omega arith in
        let ne : page ≢ d = λ e.
          ne-none
            (sym (reach_identity z s d v page e) ∙ translate-frame_of z s d v page ∙ unmapped) in
        rw (handle_fault-steps address low, i, t) (handle_fault-cases page (omega arith) ne)
