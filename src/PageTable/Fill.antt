-- ===== src/PageTable/Fill.antt =====
-- MP4_Sources/page_table.C: accesses to memory before paging is on, and the loops of the constructor.
use mathlib.Core.Path.{subst}
use csce410_611_spring2026_p.Base.Run.{ok, ◌>>=◌}
use csce410_611_spring2026_p.MemPool.{page_size}
use csce410_611_spring2026_p.Mmu.{Mmu, Frames, store}
use csce410_611_spring2026_p.PageTable.{
  Paging, paging_bit, translate, read_word, write_word, mapped_entry, fill,
}
use csce410_611_spring2026_p.PageTable.Access.{store_self, store_frame, store_index}
use csce410_611_spring2026_p.Base.{
  ℕ, zero, suc, ◌+◌, ◌*◌, ◌%◌, ◌<◌, ◌≤◌, ◌≡◌, ◌≢◌, refl, sym, ap, ◌∙◌, inl, inr, ◌⊎◌, false, ◌/◌,
  ◌^◌, arith, ℕ_discrete, word_size, leb,
}

module _ ⦃mmu : Mmu⦄ where
  -- Before paging is on, an address is one of physical memory.
  pub write_word-direct :
      (s : Paging) (a v : ℕ)
      → s.cr0 < paging_bit
      → write_word s a v ≡ ok (record s { memory = store s.memory (a / 4096) (a % 4096 / 4) v })
  unfolding write_word translate
  write_word-direct s a v off =
      let big : leb paging_bit s.cr0 ≡ false = ground arith in rw (big, write_word) refl

  pub read_word-direct :
      (s : Paging) (a : ℕ)
      → s.cr0 < paging_bit
      → read_word s a ≡ ok (s.memory (a / 4096) (a % 4096 / 4))
  unfolding read_word translate
  read_word-direct s a off =
      let big : leb paging_bit s.cr0 ≡ false = ground arith in rw (big, read_word) refl

  pub write_frame :
      (s : Paging) (f i v : ℕ)
      → s.cr0 < paging_bit
      → f < 2 ^ 20
      → i < 1024
      → write_word s ((f * page_size + 4 * i) % word_size) v
        ≡ ok (record s { memory = store s.memory f i v })
  write_frame s f i v off fits less =
      let a = (f * page_size + 4 * i) % word_size in
      let frame : a / 4096 ≡ f = omega arith in
      let at : a % 4096 / 4 ≡ i = omega arith in
      write_word-direct s a v off
      ∙ ap (λ g. ok (record s { memory = store s.memory g (a % 4096 / 4) v })) frame
      ∙ ap (λ j. ok (record s { memory = store s.memory f j v })) at

  -- Frame `f` holds `value` from index `i` on, at `k` places; the rest is as before.
  pub record Filled (value : ℕ → ℕ) (k i f : ℕ) (m m' : Frames) : Type 0 where
    pub inside : (j : ℕ) → i ≤ j → j < i + k → m' f j ≡ value j
    pub outside : (j : ℕ) → (j < i) ⊎ (i + k ≤ j) → m' f j ≡ m f j
    pub others : (g j : ℕ) → g ≢ f → m' g j ≡ m g j

  pub fill-Filled :
      (value : ℕ → ℕ) (k i f : ℕ) (s : Paging)
      → s.cr0 < paging_bit
      → i + k ≤ 1024
      → f < 2 ^ 20
      → (m : Frames) × (fill value k i (f * page_size) s ≡ ok (record s { memory = m }))
        × Filled value k i f s.memory m
  unfolding fill
  fill-Filled value zero i f s off room fits = (
    s.memory,
    refl,
    record {
      inside = λ j lower upper. absurd (omega arith);
      outside = λ j out. refl;
      others = λ g j ne. refl;
    },
  )
  fill-Filled value (suc k) i f s off room fits =
      let s1 = record s { memory = store s.memory f i (value i) } in
      let (m, run, filled) = fill-Filled value k (i + 1) f s1 off (omega arith) fits in
      let before = filled.outside in
      (
        m,
        ap (λ r. r >>= fill value k (i + 1) (f * page_size))
              (write_frame s f i (value i) off fits (omega arith))
            ∙ run,
        record {
          inside = λ j lower upper. elim (ℕ_discrete i j) [
            | yes e ↦
                subst (λ j. m f j ≡ value j) e
                  (filled.outside i (inl (omega arith)) ∙ store_self s.memory f i (value i))
            | no ne ↦ filled.inside j (omega arith) (omega arith)
          ];
          outside = λ j out.
              filled.outside j (ground arith)
              ∙ store_index s.memory f i (value i) f j (ground arith);
          others = λ g j ne.
              filled.others g j ne ∙ store_frame s.memory f i (value i) g j (λ e. ne (sym e));
        },
      )

  -- What the constructor writes into the table in frame `t` and into the directory in frame `d`
  pub record Built (d t : ℕ) (m m' : Frames) : Type 0 where
    pub identity : (j : ℕ) → j < 1024 → m' t j ≡ mapped_entry (j * page_size)
    pub first : m' d 0 ≡ mapped_entry (t * page_size)
    pub absent : (j : ℕ) → 0 < j → j < 1023 → m' d j ≡ 2
    pub last : m' d 1023 ≡ m d 1023

  pub fill-Built :
      (s : Paging) (d t : ℕ)
      → s.cr0 < paging_bit
      → d < 2 ^ 20
      → t < 2 ^ 20
      → d ≢ t
      → (m : Frames) × ((fill (λ i. mapped_entry (i * page_size)) 1024 0 (t * page_size) s
            >>= (λ s'. write_word s' (d * page_size) (mapped_entry (t * page_size)))
            >>= fill (λ i. 2) 1022 1 (d * page_size))
          ≡ ok (record s { memory = m }))
        × Built d t s.memory m
  fill-Built s d t off fitsd fitst ne =
      let (m1, run1, table) =
        fill-Filled (λ i. mapped_entry (i * page_size)) 1024 0 t s off (omega arith) fitst in
      let s1 = record s { memory = m1 } in
      let address : (d * page_size + 4 * 0) % word_size ≡ d * page_size = omega arith in
      let entry = mapped_entry (t * page_size) in
      let s2 = record s { memory = store m1 d 0 entry } in
      let wrote : write_word s1 (d * page_size) entry ≡ ok s2 =
        ap (λ a. write_word s1 a entry) (sym address)
        ∙ write_frame s1 d 0 entry off fitsd (omega arith) in
      let (m3, run3, directory) = fill-Filled (λ i. 2) 1022 1 d s2 off (omega arith) fitsd in
      (
        m3,
        ap
              (λ r.
                r
                >>= (λ s'. write_word s' (d * page_size) entry)
                >>= fill (λ i. 2) 1022 1 (d * page_size))
              run1
            ∙ ap (λ r. r >>= fill (λ i. 2) 1022 1 (d * page_size)) wrote
            ∙ run3,
        record {
          identity = λ j less.
              directory.others t j (λ e. ne (sym e))
              ∙ store_frame m1 d 0 entry t j ne
              ∙ table.inside j (omega arith) (omega arith);
          first = directory.outside 0 (inl (omega arith)) ∙ store_self m1 d 0 entry;
          absent = λ j pos less. directory.inside j (omega arith) (omega arith);
          last =
              directory.outside 1023 (inr (omega arith))
              ∙ store_index m1 d 0 entry d 1023 (omega arith)
              ∙ table.others d 1023 ne;
        },
      )
