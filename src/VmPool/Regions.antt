-- ===== src/VmPool/Regions.antt =====
-- MP4_Sources/vm_pool.C: `allocate`, and the constructor.
use csce410_611_spring2026_p.Base.Run.{Run, ok, halted}
use csce410_611_spring2026_p.MemPool.{page_size}
use csce410_611_spring2026_p.VmPool.{VmPool, max_regions, new_vm_pool, is_legitimate}
use csce410_611_spring2026_p.Base.{
  ℕ, suc, ◌+◌, ◌-◌, ◌%◌, ◌<◌, ◌≤◌, ◌≡◌, refl, true, arith, put, length, word_size,
}

-- The address behind the last region
abbrev pub end_of : VmPool → ℕ
end_of p = p.region_base (p.region_count - 1) + p.region_length (p.region_count - 1)

-- The regions follow each other from the pool's start on, inside the pool and in the entries of the array. This says
-- nothing of `remaining_size`.
pub record IsLaidOut (p : VmPool) : Type 0 where
  pub some_region : 0 < p.region_count
  pub first : p.region_base 0 ≡ p.base_address
  pub chained :
      (i : ℕ) → suc i < p.region_count → p.region_base (suc i) ≡ p.region_base i + p.region_length i
  pub few : p.region_count ≤ max_regions
  pub inside : end_of p ≤ p.base_address + p.size
  pub fits : p.base_address + p.size < word_size

-- The two outcomes of `allocate`
pub data AllocateOutcome (p : VmPool) (size : ℕ) : Run (ℕ × VmPool) → Type 0 where
  allocated :
      (p' : VmPool) (start length : ℕ)
      → IsLaidOut p'
      → p'.region_count ≡ p.region_count + 1
      → p'.region_base p.region_count ≡ start
      → p'.region_length p.region_count ≡ length
      → ((i : ℕ)
          → i < p.region_count
          → (p'.region_base i ≡ p.region_base i)
            × (p'.region_length i ≡ p.region_length i)
            × (p.region_base i + p.region_length i ≤ start))
      → (size ≤ length) × (length < size + page_size)
      → ((a : ℕ) → start ≤ a → a < start + length → is_legitimate p' a ≡ true)
      → p'.remaining_size ≡ (word_size + p.remaining_size - length) % word_size
      → AllocateOutcome p size (ok (start, p'))
  no_space : p.remaining_size < size → AllocateOutcome p size halted

module _ (p : VmPool) (v : IsLaidOut p) where
  abbrev last : ℕ
  last = p.region_count - 1

  abbrev end : ℕ
  end = end_of p

  -- The pool with one more region behind the last one
  abbrev grown : ℕ → ℕ → VmPool
  grown length remaining = record p {
    region_base = put p.region_base p.region_count end;
    region_length = put p.region_length p.region_count length;
    region_count = p.region_count + 1;
    remaining_size = remaining;
  }

-- The constructor leaves that layout whatever the memory of the object holds, so whatever is in `remaining_size`.
pub new_vm_pool-IsLaidOut :
    (raw : VmPool) (base size : ℕ)
    → page_size ≤ size
    → base + size < word_size
    → IsLaidOut (new_vm_pool raw base size)
unfolding new_vm_pool
new_vm_pool-IsLaidOut raw base size one fits = record {
  some_region = omega arith;
  first = refl;
  chained = λ i h. absurd (omega arith);
  few = omega arith;
  inside = omega arith;
  fits = fits;
}
