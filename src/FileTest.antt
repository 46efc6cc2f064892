-- ===== src/FileTest.antt =====
-- MP7_Sources/kernel.C: the exercise of the file system, and the part of `main` that runs it on a new one. A failed
-- assertion ends the run. Arrays that the code does not initialise are arguments.
pub mod Stages
pub mod Check
pub mod Create
pub mod Close
pub mod Write
pub mod Remove
pub mod Exercise
mod OnAta
mod Tests
use csce410_611_spring2026_p.Base.Run.{Run, ok, halted, out_of_fuel, ◌>>=◌}
use csce410_611_spring2026_p.BlockDevice.{BlockDevice}
use csce410_611_spring2026_p.FileSystem.{
  FileSystem, Inode, mount, format, create_file, delete_file, lookup_inode,
}
use csce410_611_spring2026_p.File.{File, open_file, close_file, write, read, reset}
use csce410_611_spring2026_p.Base.{
  ℕ, zero, suc, ◌+◌, ◌-◌, ◌*◌, ◌%◌, ◌<◌, ◌≤◌, ◌≡◌, ◌≢◌, refl, sym, ap, ◌∙◌, inl, inr, ◌⊎◌, Bool,
  true, false, ◌&&◌, ◌||◌, ◌/◌, ◌^◌, Option, some, none, List, [], ◌∷◌, ◌++◌, arith, ltb, ◌==◌,
  if◌then◌else◌, put, put_ne, put_self, ℕ_discrete, dec_lt, copy, field_of, with_field,
  with_field-lt, field_of-with_field, field_of-put, length, Bool-cases, word_size, leb,
}

-- `STRING1` and `STRING2`
abbrev pub string1 : ℕ → ℕ
string1 k = if ltb k 20 then 48 + k % 10 else 0

abbrev pub string2 : ℕ → ℕ
string2 k = if ltb k 20 then 97 + k % 10 else 0

abbrev pub first_text : ℕ → ℕ → ℕ
first_text iteration = if iteration % 2 == 0 then string1 else string2

abbrev pub second_text : ℕ → ℕ → ℕ
second_text iteration = if iteration % 2 == 0 then string2 else string1

-- The loop of assertions over the characters read, with `k` left at index `i`
unfoldable pub same_text : (k i : ℕ) (result text : ℕ → ℕ) → Bool
same_text zero i result text = true
same_text (suc k) i result text =
    let rest = same_text k (i + 1) result text in if result i == text i then rest else false

-- The result of a loop that takes fuel
abbrev pub ended {ℓ} : {A : Type ℓ} → Option A → Run A
ended (some a) = ok a
ended none = out_of_fuel

module _ {D : Type 0} ⦃dev : BlockDevice D⦄ where
  -- `assert` of a call that returns whether it succeeded
  abbrev pub asserted : Bool × FileSystem D → Run (FileSystem D)
  asserted (true, s) = ok s
  asserted (false, s) = halted

  -- The first block: both files are opened, then written; the destructors run in the reverse order.
  unfoldable pub write_files : ℕ → FileSystem D → Run (FileSystem D)
  write_files iteration s =
      let f₁ = open_file s 1 in
      let f₂ = open_file s 2 in
      ended (write s f₁ 20 (first_text iteration)) >>= (λ r.
        ended (write r.2 f₂ 20 (second_text iteration))
        >>= (λ q. ok (close_file r.1 (close_file q.1 q.2))))

  -- `Reset`, and a `Read` of 20 characters into `raw` that must give the text
  unfoldable pub check_file : (raw text : ℕ → ℕ) → FileSystem D → File → Run File
  unfolding same_text
  check_file raw text s f =
      let (count, result, f') = read s (reset f) 20 raw in
      if count == 20 && same_text 20 0 result text then ok f' else halted

  -- The second block
  unfoldable pub check_files : (raw : ℕ → ℕ) → ℕ → FileSystem D → Run (FileSystem D)
  unfolding check_file
  check_files raw iteration s =
      let f₁ = open_file s 1 in
      let f₂ = open_file s 2 in
      check_file raw (first_text iteration) s f₁ >>= (λ g₁.
        check_file raw (second_text iteration) s f₂
        >>= (λ g₂. ok (close_file g₁ (close_file g₂ s))))

  -- `assert(DeleteFile(id))` and `assert(LookupFile(id) == nullptr)`
  unfoldable pub remove_file : ℕ → FileSystem D → Run (FileSystem D)
  remove_file id s =
      asserted (delete_file s id)
      >>= (λ s'. elim (lookup_inode s'.inodes id) [ none ↦ ok s' | some i ↦ halted ])

  unfoldable pub exercise_file_system : (raw : ℕ → ℕ) → FileSystem D → ℕ → Run (FileSystem D)
  unfolding write_files check_files remove_file
  exercise_file_system raw s iteration =
      asserted (create_file s 1)
      >>= (λ s'. asserted (create_file s' 2))
      >>= write_files iteration
      >>= check_files raw iteration
      >>= remove_file 1
      >>= remove_file 2

  -- The loop of `main`, with `k` iterations left at `j`
  unfoldable pub exercises : (raw : ℕ → ℕ) (k j : ℕ) → FileSystem D → Run (FileSystem D)
  unfolding exercise_file_system
  exercises raw zero j s = ok s
  exercises raw (suc k) j s = exercise_file_system raw s j >>= exercises raw k (j + 1)

  -- `main` from the format of 1 MB to the end of the loop; `fresh` and `table` are the arrays that `Mount` makes.
  unfoldable pub stress_test :
      (self : ℕ) (fresh : ℕ → ℕ) (table : ℕ → Inode) (raw : ℕ → ℕ) → D → Run (FileSystem D)
  unfolding exercises
  stress_test self fresh table raw d =
      exercises raw 30 0 (mount self fresh table (format d 0x10_0000))
