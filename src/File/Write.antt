-- ===== src/File/Write.antt =====
-- MP7_Sources/file.C: `Write`. The loop ends, and what it has written is a prefix of the request.
use csce410_611_spring2026_p.Base.{
  ℕ, zero, suc, ◌+◌, ◌-◌, ◌/◌, ◌%◌, ◌<◌, ◌≤◌, ◌≡◌, ◌≢◌, ◌∙◌, refl, inl, inr, true, ◌&&◌, Option,
  some, arith, dec_lt, ℕ_discrete, leb, ltb, if◌then◌else◌, Bool-cases, non_negative,
}
use csce410_611_spring2026_p.BlockDevice.{BlockDevice, block_size}
use csce410_611_spring2026_p.FileSystem.{FileSystem}
use csce410_611_spring2026_p.File.{
  write_round, File, max_file_size, write_loop, chunk_of, with_chunk,
}
use csce410_611_spring2026_p.FileSystem.Persist.{IsValid}
use csce410_611_spring2026_p.File.Grow.{
  IsOpen, Grown, GrowOutcome, too_large, disk_full, grown, get_or_alloc_block_outcome,
}

-- A round takes at least one byte, stays in the request and in the block.
chunk_lem :
    (p w n : ℕ)
    → w < n
    → (0 < chunk_of p w n)
      × (w + chunk_of p w n ≤ n)
      × ((p + w) % block_size + chunk_of p w n ≤ block_size)
chunk_lem p w n h = ground arith

-- Bytes of one block have one block number.
block_of :
    (start c j : ℕ)
    → start ≤ j
    → j < start + c
    → start % block_size + c ≤ block_size
    → j / block_size ≡ start / block_size
block_of start c j lo hi fits = omega arith

-- Two adjacent pieces of the request, put into the cache one after the other
splice_join :
    (buf cache : ℕ → ℕ) (p w c done j : ℕ)
    → w + c ≤ done
    → (if leb (p + (w + c)) j && ltb j (p + done)
        then buf (j - p)
        else if leb (p + w) j && ltb j (p + w + c)
        then buf (w + (j - (p + w)))
        else cache j)
      ≡ (if leb (p + w) j && ltb j (p + done) then buf (j - p) else cache j)
splice_join buf cache p w c done j h =
    let shift : p + w ≤ j → w + (j - (p + w)) ≡ j - p = λ e. omega arith in ground arith

module _ {D : Type 0} ⦃dev : BlockDevice D⦄ where
  -- What the loop has done when it stops at `done`, started at `w` on the handle `f`
  pub record Wrote (f : File) (s : FileSystem D) (i : ℕ) (buf : ℕ → ℕ) (n w done : ℕ) (f' : File)
      (s' : FileSystem D) : Type 0 where
    pub lower : w ≤ done
    pub upper : done ≤ n
    pub cache :
        (j : ℕ)
        → f'.multi_block_cache j ≡ (
            if leb (f.current_position + w) j && ltb j (f.current_position + done)
            then buf (j - f.current_position)
            else f.multi_block_cache j)
    pub covered :
        (j : ℕ)
        → f.current_position + w ≤ j
        → j < f.current_position + done
        → non_negative (f'.block_map (j / block_size)) ≡ true
    pub kept_map : (l : ℕ) → non_negative (f.block_map l) ≡ true → f'.block_map l ≡ f.block_map l
    pub short : done < n → (j : ℕ) → j < s.num_blocks → s'.free_blocks j ≢ 0
    pub same_position : f'.current_position ≡ f.current_position
    pub same_inodes : s'.inodes ≡ s.inodes
    pub same_count : s'.num_blocks ≡ s.num_blocks
    pub still_used : (j : ℕ) → s.free_blocks j ≢ 0 → s'.free_blocks j ≢ 0
    pub still_open : IsOpen f' s' i
    pub valid : IsValid s'

  abbrev pub LoopDone :
      File → FileSystem D → ℕ → (ℕ → ℕ) → ℕ → ℕ → Option (ℕ × File × FileSystem D) → Type 0
  LoopDone f s i buf n w r =
      (done : ℕ) × (f' : File) × (s' : FileSystem D) × (r ≡ some (done, f', s'))
      × Wrote f s i buf n w done f' s'

  with_chunk-IsOpen :
      (f : File) (s : FileSystem D) (i : ℕ) (buf : ℕ → ℕ) (w c : ℕ)
      → IsOpen f s i
      → IsOpen (with_chunk f buf w c) s i
  with_chunk-IsOpen f s i buf w c o = record {
    handle = o.handle;
    inside = o.inside;
    position = o.position;
    mapped = o.mapped;
    distinct = o.distinct;
    inodes_reserved = o.inodes_reserved;
    list_reserved = o.list_reserved;
    small = o.small;
  }

  -- A stop of the loop, with nothing more written
  stop-Wrote :
      (f : File) (s : FileSystem D) (i : ℕ) (buf : ℕ → ℕ) (n w : ℕ)
      → w ≤ n
      → IsOpen f s i
      → IsValid s
      → (w < n → (j : ℕ) → j < s.num_blocks → s.free_blocks j ≢ 0)
      → Wrote f s i buf n w w f s
  stop-Wrote f s i buf n w h o v short = record {
    lower = omega arith;
    upper = h;
    cache = λ j. ground arith;
    covered = λ j lo hi. absurd (omega arith);
    kept_map = λ l e. refl;
    short = short;
    same_position = refl;
    same_inodes = refl;
    same_count = refl;
    still_used = λ j e. e;
    still_open = o;
    valid = v;
  }

  -- One round and the rest of the loop
  module _ (f : File) (s : FileSystem D) (i : ℕ) (buf : ℕ → ℕ) (n w b done : ℕ) (f₁ f' : File)
      (s₁ s' : FileSystem D) (h : w < n)
      (g : Grown f s i ((f.current_position + w) / block_size) b f₁ s₁)
      (r : Wrote
        (with_chunk f₁ buf w (chunk_of f₁.current_position w n))
        s₁
        i
        buf
        n
        (w + chunk_of f₁.current_position w n)
        done
        f'
        s') where
    step-cache :
        (j : ℕ)
        → f'.multi_block_cache j ≡ (
            if leb (f.current_position + w) j && ltb j (f.current_position + done)
            then buf (j - f.current_position)
            else f.multi_block_cache j)
    step-cache j =
        r.cache j
        ∙ splice_join buf f₁.multi_block_cache f₁.current_position w
            (chunk_of f₁.current_position w n) done j r.lower
        ∙ rw (g.same_position, g.same_cache)

    step-covered :
        (j : ℕ)
        → f.current_position + w ≤ j
        → j < f.current_position + done
        → non_negative (f'.block_map (j / block_size)) ≡ true
    step-covered j lo hi =
        let same : f₁.current_position ≡ f.current_position = g.same_position in
        let (some_byte, fits, in_block) = chunk_lem f₁.current_position w n h in
        let next = f₁.current_position + (w + chunk_of f₁.current_position w n) in
        elim (dec_lt j next) [
          | no past ↦ r.covered j (omega arith) (omega arith)
          | yes here ↦
              let lb : j / block_size ≡ (f.current_position + w) / block_size = rw same at (
                block_of (f₁.current_position + w) (chunk_of f₁.current_position w n) j
                  (omega arith) (omega arith) in_block) in
              let kept = r.kept_map ((f.current_position + w) / block_size) (rw g.now g.real) in
              rw (lb, kept, g.now) g.real
        ]

    step-before : (l : ℕ) → non_negative (f.block_map l) ≡ true → f₁.block_map l ≡ f.block_map l
    step-before l e = elim (ℕ_discrete l ((f.current_position + w) / block_size)) [
      | yes at ↦ rw at (g.before (rw at at e))
      | no ne ↦ g.others l ne
    ]

    step-Wrote : Wrote f s i buf n w done f' s'
    step-Wrote = record {
      lower = omega (arith, r.lower);
      upper = r.upper;
      cache = step-cache;
      covered = step-covered;
      kept_map = λ l e. r.kept_map l (rw (step-before l e) e) ∙ step-before l e;
      short = λ less j hj. r.short less j (rw g.same_count hj);
      same_position = r.same_position ∙ g.same_position;
      same_inodes = r.same_inodes ∙ g.same_inodes;
      same_count = r.same_count ∙ g.same_count;
      still_used = λ j e. r.still_used j (g.still_used j e);
      still_open = r.still_open;
      valid = r.valid;
    }

  -- A round, by the outcome of `get_or_alloc_block`; `rest` is the rest of the loop.
  round-Wrote :
      (rest : ℕ → File → FileSystem D → Option (ℕ × File × FileSystem D)) (buf : ℕ → ℕ) (n w i : ℕ)
      (f : File) (s : FileSystem D)
      → w < n
      → f.current_position + n ≤ max_file_size
      → IsOpen f s i
      → IsValid s
      → ((w' : ℕ) (f' : File) (s' : FileSystem D)
          → w < w'
          → w' ≤ n
          → f'.current_position ≡ f.current_position
          → IsOpen f' s' i
          → IsValid s'
          → LoopDone f' s' i buf n w' (rest w' f' s'))
      → {r : Option ℕ × File × FileSystem D}
      → GrowOutcome f s i ((f.current_position + w) / block_size) r
      → LoopDone f s i buf n w (write_round rest buf n w r)
  unfolding write_round
  round-Wrote rest buf n w i f s h fits o v go (too_large far) = absurd (omega arith)
  round-Wrote rest buf n w i f s h fits o v go (disk_full none_free) =
      (w, f, s, refl, stop-Wrote f s i buf n w (omega arith) o v (λ less. none_free))
  round-Wrote rest buf n w i f s h fits o v go (grown b f₁ s₁ inside g) =
      let (some_byte, in_request, in_block) = chunk_lem f₁.current_position w n h in
      let c = chunk_of f₁.current_position w n in
      let (done, f', s', e, r) =
        go (w + c) (with_chunk f₁ buf w c) s₁ (omega arith) in_request g.same_position
          (with_chunk-IsOpen f₁ s₁ i buf w c g.still_open) g.valid in
      (done, f', s', e, step-Wrote f s i buf n w b done f₁ f' s₁ s' h g r)

  -- Enough fuel: the loop ends, whatever the disk has left.
  pub write_loop-Wrote :
      (fuel : ℕ) (buf : ℕ → ℕ) (n w i : ℕ) (f : File) (s : FileSystem D)
      → n < w + fuel
      → w ≤ n
      → f.current_position + n ≤ max_file_size
      → IsOpen f s i
      → IsValid s
      → LoopDone f s i buf n w (write_loop fuel buf n w f s)
  unfolding write_loop
  write_loop-Wrote zero buf n w i f s enough h fits o v = absurd (omega arith)
  write_loop-Wrote (suc fuel) buf n w i f s enough h fits o v = elim (Bool-cases (ltb w n)) [
    | inr last ↦
        rw (last, write_loop)
          (w, f, s, refl, stop-Wrote f s i buf n w h o v (λ less. absurd (ground arith)))
    | inl more ↦
        rw (more, write_loop)
          (round-Wrote (write_loop fuel buf n) buf n w i f s (ground arith) fits o v
            (λ w' f' s' later in_request same o' v'.
              write_loop-Wrote fuel buf n w' i f' s' (omega arith) in_request (rw same fits) o' v')
            (get_or_alloc_block_outcome f s i ((f.current_position + w) / block_size) o v))
  ]
