-- ===== src/File/ReadWrite.antt =====
-- MP7_Sources/file.C: `Write` and `Read` as a whole, and a read of what was written.
use csce410_611_spring2026_p.Base.{
  ◌⊎◌, inl, inr, dec_lt, ◌↔◌, ℕ, ◌+◌, ◌-◌, ◌/◌, ◌%◌, ◌<◌, ◌≤◌, ◌≡◌, ◌≢◌, ◌∙◌, sym, true, ◌&&◌, some,
  arith, leb, ltb, if◌then◌else◌, put_self, put_ne, non_negative, word_size, min,
}
use native.Mathlib.Nat.{add-zero}
use csce410_611_spring2026_p.BlockDevice.{BlockDevice, block_size}
use csce410_611_spring2026_p.FileSystem.{FileSystem, with_inode}
use csce410_611_spring2026_p.FileSystem.Layout.{IsWords}
use csce410_611_spring2026_p.FileSystem.Persist.{IsValid, with_inode-IsValid}
use csce410_611_spring2026_p.File.{File, max_file_size, write_loop, write, read, reset, at_end}
use csce410_611_spring2026_p.File.Grow.{IsOpen}
use csce410_611_spring2026_p.File.Write.{Wrote, write_loop-Wrote}

-- The bytes that `Write` tries to take: the request, up to the largest size of a file.
abbrev pub request : File → ℕ → ℕ
request f n = min n (max_file_size - f.current_position)

module _ {D : Type 0} ⦃dev : BlockDevice D⦄ where
  -- No block is free.
  abbrev pub DiskFull : FileSystem D → Type 0
  DiskFull s = (j : ℕ) → j < s.num_blocks → s.free_blocks j ≢ 0

  -- `Write` took `done` bytes of the buffer.
  pub record Written (f : File) (s : FileSystem D) (i : ℕ) (buf : ℕ → ℕ) (n done : ℕ) (f' : File)
      (s' : FileSystem D) : Type 0 where
    pub upper : done ≤ request f n
    pub cache :
        (j : ℕ)
        → f'.multi_block_cache j ≡ (
            if leb f.current_position j && ltb j (f.current_position + done)
            then buf (j - f.current_position)
            else f.multi_block_cache j)
    pub covered :
        (j : ℕ)
        → f.current_position ≤ j
        → j < f.current_position + done
        → non_negative (f'.block_map (j / block_size)) ≡ true
    pub kept_map : (l : ℕ) → non_negative (f.block_map l) ≡ true → f'.block_map l ≡ f.block_map l
    pub short : (done ≡ request f n) ⊎ DiskFull s'
    pub position : f'.current_position ≡ f.current_position + done
    pub size : (s'.inodes i).file_size ≡ (
        if ltb (s.inodes i).file_size (f.current_position + done)
        then f.current_position + done
        else (s.inodes i).file_size)
    pub others : (k : ℕ) → k ≢ i → s'.inodes k ≡ s.inodes k
    pub same_count : s'.num_blocks ≡ s.num_blocks
    pub still_open : IsOpen f' s' i
    pub valid : IsValid s'

  module _ (f : File) (s : FileSystem D) (i n : ℕ) (buf : ℕ → ℕ) (o : IsOpen f s i)
      (v : IsValid s) where
    -- The last assignments of `Write`
    finished_handle : ℕ → File → File
    finished_handle done f' = record f' { current_position = f'.current_position + done }

    finished_system : ℕ → File → FileSystem D → FileSystem D
    finished_system done f' s' =
        let position = f'.current_position + done in
        let size = (s'.inodes i).file_size in
        with_inode s' i
          (record (s'.inodes i) { file_size = if ltb size position then position else size })

    write-some :
        (done : ℕ) (f' : File) (s' : FileSystem D)
        → write_loop (request f n + 1) buf (request f n) 0 f s ≡ some (done, f', s')
        → write s f n buf ≡ some (done, finished_handle done f', finished_system done f' s')
    unfolding write finished_handle finished_system
    write-some done f' s' e =
        let space : (word_size + max_file_size - f.current_position) % word_size
            ≡ max_file_size - f.current_position =
          let fits = o.position in omega arith in
        let count : (if ltb n (max_file_size - f.current_position)
              then n
              else max_file_size - f.current_position)
            ≡ request f n =
          ground arith in
        rw (o.handle, space, count, e, write)

    module _ (done : ℕ) (f' : File) (s' : FileSystem D)
        (r : Wrote f s i buf (request f n) 0 done f' s') where
      grown_inode-IsWords : IsWords ((finished_system done f' s').inodes i)
      unfolding finished_system
      grown_inode-IsWords =
          let old = r.valid.words i o.inside in
          let same = r.same_position in
          let fits = o.position in
          let upper = r.upper in
          rw (put_self s'.inodes i _) (record {
            id = old.id;
            block_no = old.block_no;
            indirect_block_no = old.indirect_block_no;
            file_size = ground (arith, old.file_size);
            fs = old.fs;
          })

      finished-IsOpen : IsOpen (finished_handle done f') (finished_system done f' s') i
      unfolding finished_handle finished_system
      finished-IsOpen =
          let now = r.still_open in
          let same = r.same_position in
          let fits = o.position in
          let upper = r.upper in
          record {
            handle = now.handle;
            inside = now.inside;
            position = omega arith;
            mapped = λ lb h real.
                let used = now.mapped lb h real in
                record { data_block = used.data_block; inside = used.inside; marked = used.marked };
            distinct = now.distinct;
            inodes_reserved = now.inodes_reserved;
            list_reserved = now.list_reserved;
            small = now.small;
          }

      finished-Written :
          Written f s i buf n done (finished_handle done f') (finished_system done f' s')
      unfolding finished_handle finished_system
      finished-Written =
          let same = r.same_position in
          let table = r.same_inodes in
          let valid =
            with_inode-IsValid s' i _ (rw (put_self s'.inodes i _) at grown_inode-IsWords)
              r.valid in
          record {
            upper = r.upper;
            cache = λ j. rw add-zero at (r.cache j);
            covered = λ j lo hi. r.covered j (omega arith) hi;
            kept_map = r.kept_map;
            short = elim (dec_lt done (request f n)) [
              | yes less ↦ inr (λ j h. r.short less j (rw (← r.same_count) h))
              | no all ↦ inl (let upper = r.upper in omega arith)
            ];
            position = rw r.same_position;
            size = rw (put_self s'.inodes i _, r.same_position, r.same_inodes);
            others = λ k ne. put_ne s'.inodes i k _ (λ e. ne (sym e)) ∙ rw r.same_inodes;
            same_count = r.same_count;
            still_open = finished-IsOpen;
            valid = record {
              words = valid.words;
              bytes = valid.bytes;
              count = valid.count;
              address = valid.address;
            };
          }

    -- `Write` of an open file on a valid file system ends. It takes a prefix of the request, which is
    -- `n` bytes or what is left up to the largest size; it stops short of it only if no block is
    -- free. It puts those bytes into the cache and nothing else, moves the position behind them,
    -- extends the size up to the position, and touches no other inode.
    pub write_lem :
        (done : ℕ) × (f' : File) × (s' : FileSystem D) × (write s f n buf ≡ some (done, f', s'))
        × Written f s i buf n done f' s'
    write_lem =
        let fits = o.position in
        let (done, f', s', e, r) =
          write_loop-Wrote (request f n + 1) buf (request f n) 0 i f s (omega arith) (omega arith)
            (omega arith) o v in
        (
          done,
          finished_handle done f',
          finished_system done f' s',
          write-some done f' s' e,
          finished-Written done f' s' r,
        )

  -- `Read` returns as many bytes as asked for and left before the end of the file; it copies them
  -- from the cache at the position, leaves the rest of the buffer, and moves the position on.
  pub read_lem :
      (s : FileSystem D) (f : File) (i n : ℕ) (buf : ℕ → ℕ)
      → f.inode ≡ some i
      → let (count, buf', f') = read s f n buf in
        (count ≡ min n ((s.inodes i).file_size - f.current_position))
        × ((k : ℕ)
            → buf' k
              ≡ (if ltb k count then f.multi_block_cache (f.current_position + k) else buf k))
        × (f' ≡ record f { current_position = f.current_position + count })
  unfolding read
  read_lem s f i n buf e = (ground arith, λ k. ground arith, ground arith)

  -- `EoF` is true exactly when `Read` of one byte returns none.
  pub at_end-read :
      (s : FileSystem D) (f : File) (i : ℕ) (buf : ℕ → ℕ)
      → f.inode ≡ some i
      → (at_end s f ≡ true) ↔ ((read s f 1 buf).0 ≡ 0)
  unfolding at_end
  at_end-read s f i buf e =
      let (count, bytes, handle) = read_lem s f i 1 buf e in rw e (ground arith)

  -- `Write` at the start of an open file on a valid file system ends, and stops short of the request
  -- only if no block is free; what it took, `Reset` and `Read` give back, byte for byte.
  pub read-reset-write :
      (f : File) (s : FileSystem D) (i n : ℕ) (buf other : ℕ → ℕ)
      → IsOpen f s i
      → IsValid s
      → f.current_position ≡ 0
      → (done : ℕ) × (f' : File) × (s' : FileSystem D) × (write s f n buf ≡ some (done, f', s'))
        × ((read s' (reset f') done other).0 ≡ done)
        × ((k : ℕ) → (read s' (reset f') done other).1 k ≡ (if ltb k done then buf k else other k))
        × ((done ≡ request f n) ⊎ DiskFull s')
  unfolding reset
  read-reset-write f s i n buf other o v start =
      let (done, f', s', e, w) = write_lem f s i n buf o v in
      let (count, bytes, handle) = read_lem s' (reset f') i done other w.still_open.handle in
      let size = w.size in
      let all : (read s' (reset f') done other).0 ≡ done = count ∙ ground arith in
      (done, f', s', e, all, λ k. bytes k ∙ ground (arith, w.cache k, all), w.short)
