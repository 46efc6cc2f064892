-- ===== src/VmPool/Forget.antt =====
-- MP4_Sources/vm_pool.C: what `release` of a region comes to.
use csce410_611_spring2026_p.Base.Run.{ok}
use csce410_611_spring2026_p.MemPool.{page_size}
use csce410_611_spring2026_p.Mmu.{Mmu}
use csce410_611_spring2026_p.PageTable.{Paging, mapped_entry}
use csce410_611_spring2026_p.PageTable.Access.{IsPaged, table_of}
use csce410_611_spring2026_p.PageTable.FreePage.{free_page-idle}
use csce410_611_spring2026_p.VmPool.{VmPool}
use csce410_611_spring2026_p.VmPool.Release.{
  find_region, shift_from, drop_region, length_at, free_pages, release,
}
use csce410_611_spring2026_p.Base.{
  ℕ, zero, suc, ◌+◌, ◌-◌, ◌*◌, ◌%◌, ◌<◌, ◌≤◌, ◌≡◌, ◌≢◌, refl, ap, ◌∙◌, true, ◌&&◌, ◌/◌, Option,
  some, none, arith, ltb, ◌==◌, if◌then◌else◌, put, ℕ_discrete, word_size, leb,
}

find_region-keeps :
    (bases : ℕ → ℕ) (address k i : ℕ) (found : Option ℕ)
    → ((j : ℕ) → i ≤ j → j < i + k → bases j ≢ address)
    → find_region bases address k i found ≡ found
unfolding find_region
find_region-keeps bases address zero i found others = refl
find_region-keeps bases address (suc k) i found others =
    let here = others i (omega arith) (omega arith) in
    let rest =
      find_region-keeps bases address k (i + 1) found
        (λ j a b. others j (omega arith) (omega arith)) in
    ground (arith, rest)

find_region-some :
    (bases : ℕ → ℕ) (k i r : ℕ) (found : Option ℕ)
    → i ≤ r
    → r < i + k
    → ((j : ℕ) → r < j → j < i + k → bases j ≢ bases r)
    → find_region bases (bases r) k i found ≡ some r
unfolding find_region
find_region-some bases zero i r found lower upper others = absurd (omega arith)
find_region-some bases (suc k) i r found lower upper others = elim (ℕ_discrete i r) [
  | yes e ↦
      (let here : (bases i == bases r) ≡ true = ground (arith, ap bases e) in
        rw here (
          find_region-keeps bases (bases r) k (i + 1) (some i)
            (λ j a b. others j (omega arith) (omega arith))
          ∙ ap some e))
  | no ne ↦
      find_region-some bases k (i + 1) r (if bases i == bases r then some i else found)
        (omega arith) (omega arith) (λ j a b. others j a (omega arith))
]

shift_from-at :
    (k i : ℕ) (regions : ℕ → ℕ) (j : ℕ)
    → shift_from k i regions j ≡ (if leb i j && ltb j (i + k) then regions (j + 1) else regions j)
unfolding shift_from
shift_from-at zero i regions j = ground arith
shift_from-at (suc k) i regions j =
    let rest = shift_from-at k (i + 1) (put regions i (regions (i + 1))) j in ground (arith, rest)

-- The region `r` is gone; those behind it have moved down by one place. The size that is added is that of the next one.
pub record Dropped (p : VmPool) (r : ℕ) (p' : VmPool) : Type 0 where
  pub count : p'.region_count + 1 ≡ p.region_count
  pub before :
      (i : ℕ)
      → i < r
      → (p'.region_base i ≡ p.region_base i) × (p'.region_length i ≡ p.region_length i)
  pub behind :
      (i : ℕ)
      → r ≤ i
      → i < p'.region_count
      → (p'.region_base i ≡ p.region_base (i + 1)) × (p'.region_length i ≡ p.region_length (i + 1))
  pub remaining : p'.remaining_size ≡ (p.remaining_size + p.region_length (r + 1)) % word_size

drop_region-Dropped :
    (before : ℕ) (p : VmPool) (r : ℕ)
    → r < p.region_count
    → Dropped p r (drop_region before p (some r))
unfolding drop_region
drop_region-Dropped before p r less =
    let bases = shift_from-at (p.region_count - r) r p.region_base in
    let lengths = shift_from-at (p.region_count - r) r p.region_length in
    record {
      count = omega arith;
      before = λ i h. (ground (arith, bases i), ground (arith, lengths i));
      behind = λ i a b. (ground (arith, bases i), ground (arith, lengths i));
      remaining = ap (λ l. (p.remaining_size + l) % word_size) (ground (arith, lengths r));
    }

module _ ⦃mmu : Mmu⦄ (z : ℕ) (s : Paging) (d : ℕ) (v : IsPaged z s d)
    (above : 0 < s.kernel_mem_pool.base_frame_no)
    (first_page : s.memory (table_of s.memory d 0) 0 ≡ mapped_entry 0) where
  free_pages-idle : (k start : ℕ) → free_pages (4096 * d) k start s ≡ ok s
  unfolding free_pages
  free_pages-idle zero start = refl
  free_pages-idle (suc k) start =
      rw (free_page-idle z s d v start above first_page)
        (free_pages-idle k ((start + page_size) % word_size))

  -- In a valid state of paging where page 0 is mapped to itself and frame 0 is below the kernel pool, `release` of the
  -- last region (not the first one) that starts at an address takes it out of the two arrays and adds the length of the
  -- next region to `remaining_size`. Memory with its page tables, the frame pools and the registers do not change.
  pub release-Dropped :
      (before : ℕ) (p : VmPool) (r : ℕ)
      → 0 < r
      → r < p.region_count
      → ((j : ℕ) → r < j → j < p.region_count → p.region_base j ≢ p.region_base r)
      → (p' : VmPool) × (release (4096 * d) before p (p.region_base r) s ≡ ok (p', s))
        × Dropped p r p'
  unfolding release
  release-Dropped before p r pos less unique =
      let found =
        find_region-some p.region_base (p.region_count - 1) 1 r none (omega arith) (omega arith)
          (λ j a b. unique j a (omega arith)) in
      (
        drop_region before p (some r),
        rw (found, free_pages-idle (length_at before p (some r) / page_size) (p.region_base r))
            refl,
        drop_region-Dropped before p r less,
      )
