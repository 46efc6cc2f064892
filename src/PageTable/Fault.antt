-- ===== src/PageTable/Fault.antt =====
-- MP4_Sources/page_table.C: a new table and a new page keep the state of paging valid.
use mathlib.Core.Path.{subst}
use csce410_611_spring2026_p.FramePool.{ContFramePool}
use csce410_611_spring2026_p.Mmu.{Frames, store, is_present, frame_in}
use csce410_611_spring2026_p.PageTable.{Paging, mapped_entry}
use csce410_611_spring2026_p.PageTable.Take.{GoodPool, InUse}
use csce410_611_spring2026_p.PageTable.Access.{
  IsPaged, table_of, store_self, store_frame, store_index, mapped_entry-frame,
}
use csce410_611_spring2026_p.Base.{
  ℕ, ◌+◌, ◌*◌, ◌<◌, ◌≡◌, ◌≢◌, sym, ap, ◌∙◌, true, false, arith, ℕ_discrete,
}

-- The pool changes, and what was in use still is.
pub pool-IsPaged :
    (z : ℕ) (s : Paging) (d : ℕ) (p : ContFramePool)
    → IsPaged z s d
    → ((g : ℕ) → InUse s.process_mem_pool g → InUse p g)
    → GoodPool z p
    → IsPaged z (record s { process_mem_pool = p }) d
pool-IsPaged z s d p v kept good = record {
  on = v.on;
  current = v.current;
  loaded = v.loaded;
  low = v.low;
  recursive = v.recursive;
  first_table = v.first_table;
  identity = v.identity;
  tables = λ i less here. kept (table_of s.memory d i) (v.tables i less here);
  separate = v.separate;
  pool = good;
}

module _ (z : ℕ) (s : Paging) (d : ℕ) (v : IsPaged z s d) where
  -- No table is the directory, which lies below the pool.
  pub table_ne : (i : ℕ) → i < 1023 → is_present (s.memory d i) ≡ true → table_of s.memory d i ≢ d
  table_ne i less here same =
      let u = v.tables i less here in
      let lower = u.lower in let high = v.pool.high in let low = v.low in absurd (omega arith)

  -- A new table for an absent entry
  module _ (i f : ℕ) (less : i < 1023) (absent : is_present (s.memory d i) ≡ false)
      (used : InUse s.process_mem_pool f)
      (fresh : (j : ℕ)
        → j < 1023
        → is_present (s.memory d j) ≡ true
        → table_of s.memory d j ≢ f) where
    abbrev pub with_table : Frames
    with_table = store s.memory d i (mapped_entry (f * 4096))

    pub new_entry : with_table d i ≡ mapped_entry (f * 4096)
    new_entry = store_self s.memory d i (mapped_entry (f * 4096))

    pub new_entry-frame : table_of with_table d i ≡ f
    new_entry-frame = ap frame_in new_entry ∙ mapped_entry-frame f

    pub old_entry : (j : ℕ) → i ≢ j → with_table d j ≡ s.memory d j
    old_entry j ne = store_index s.memory d i (mapped_entry (f * 4096)) d j ne

    pub present_ne : (j : ℕ) → is_present (s.memory d j) ≡ true → i ≢ j
    present_ne j here same =
        let gone : is_present (s.memory d j) ≡ false =
          subst (λ j. is_present (s.memory d j) ≡ false) same absent in
        cc

    table-tables :
        (j : ℕ)
        → j < 1023
        → is_present (with_table d j) ≡ true
        → InUse s.process_mem_pool (table_of with_table d j)
    table-tables j lessj here = elim (ℕ_discrete i j) [
      | yes e ↦
          subst (λ j. InUse s.process_mem_pool (table_of with_table d j)) e
            (rw new_entry-frame used)
      | no ne ↦ let old = old_entry j ne in rw old (v.tables j lessj (rw (← old) here))
    ]

    -- An old table is not the new one.
    new_old :
        (j k : ℕ)
        → i ≡ k
        → i ≢ j
        → j < 1023
        → is_present (with_table d j) ≡ true
        → table_of with_table d j ≢ table_of with_table d k
    new_old j k e ne lessj here same =
        let old = old_entry j ne in
        fresh j lessj (rw (← old) here) (
          ap frame_in (sym old)
          ∙ same
          ∙ ap (λ k. table_of with_table d k) (sym e)
          ∙ new_entry-frame)

    table-separate :
        (j k : ℕ)
        → j < 1023
        → k < 1023
        → j ≢ k
        → is_present (with_table d j) ≡ true
        → is_present (with_table d k) ≡ true
        → table_of with_table d j ≢ table_of with_table d k
    table-separate j k lessj lessk ne herej herek same = elim (ℕ_discrete i j) [
      | yes e ↦ new_old k j e (λ ek. ne (sym e ∙ ek)) lessk herek (sym same)
      | no nej ↦ elim (ℕ_discrete i k) [
        | yes e ↦ new_old j k e nej lessj herej same
        | no nek ↦
            let oldj = old_entry j nej in
            let oldk = old_entry k nek in
            v.separate j k lessj lessk ne (rw (← oldj) herej) (rw (← oldk) herek)
              (ap frame_in (sym oldj) ∙ same ∙ ap frame_in oldk)
      ]
    ]

    pub table-IsPaged : IsPaged z (record s { memory = with_table }) d
    table-IsPaged =
        let zeroth = old_entry 0 (present_ne 0 v.first_table) in
        record {
          on = v.on;
          current = v.current;
          loaded = v.loaded;
          low = v.low;
          recursive = old_entry 1023 (omega arith) ∙ v.recursive;
          first_table = rw zeroth v.first_table;
          identity = rw zeroth (
              store_frame s.memory d i (mapped_entry (f * 4096)) (table_of s.memory d 0) d
                (λ same. table_ne 0 (omega arith) v.first_table (sym same))
              ∙ v.identity);
          tables = table-tables;
          separate = table-separate;
          pool = v.pool;
        }

  -- A new page in a table
  module _ (i t w : ℕ) (less : i < 1023) (here : is_present (s.memory d i) ≡ true)
      (ne : 1024 * i + t ≢ d) where
    abbrev pub with_page : Frames
    with_page = store s.memory (table_of s.memory d i) t w

    pub same_directory : (j : ℕ) → with_page d j ≡ s.memory d j
    same_directory j = store_frame s.memory (table_of s.memory d i) t w d j (table_ne i less here)

    same_identity : with_page (table_of s.memory d 0) d ≡ s.memory (table_of s.memory d 0) d
    same_identity = elim (ℕ_discrete i 0) [
      | yes e ↦
          store_index s.memory (table_of s.memory d i) t w (table_of s.memory d 0) d (omega arith)
      | no other ↦
          store_frame s.memory (table_of s.memory d i) t w (table_of s.memory d 0) d
            (v.separate i 0 less (omega arith) other here v.first_table)
    ]

    pub page-IsPaged : IsPaged z (record s { memory = with_page }) d
    page-IsPaged = record {
      on = v.on;
      current = v.current;
      loaded = v.loaded;
      low = v.low;
      recursive = same_directory 1023 ∙ v.recursive;
      first_table = rw (same_directory 0) v.first_table;
      identity = rw (same_directory 0) (same_identity ∙ v.identity);
      tables =
          λ j lessj herej. rw (same_directory j) (v.tables j lessj (rw (← same_directory j) herej));
      separate = λ j k lessj lessk nejk herej herek.
          rw (same_directory j, same_directory k)
            (v.separate j k lessj lessk nejk (rw (← same_directory j) herej)
              (rw (← same_directory k) herek));
      pool = v.pool;
    }
