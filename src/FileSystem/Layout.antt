-- ===== src/FileSystem/Layout.antt =====
-- MP7_Sources/file_system.C: the inode table and the free list as bytes of a block. What
-- `save_inodes` and `save_free_blocks` lay out is what `load_inodes` and `load_free_blocks` read.
use csce410_611_spring2026_p.Base.{
  ℕ, ◌+◌, ◌-◌, ◌*◌, ◌/◌, ◌%◌, ◌<◌, ◌≡◌, ◌∙◌, arith, byte_of, word_at, word_size, word_at-byte_of,
}
use csce410_611_spring2026_p.BlockDevice.{Block, block_size}
use csce410_611_spring2026_p.FileSystem.{
  Inode, max_direct, max_inodes, inode_word, raw_inodes, inode_at, freelist_image, bitmap_bytes,
}

-- Every field of an inode is a word.
pub record IsWords (a : Inode) : Type 0 where
  pub id : a.id < word_size
  pub block_no : (d : ℕ) → d < max_direct → a.block_no d < word_size
  pub indirect_block_no : a.indirect_block_no < word_size
  pub file_size : a.file_size < word_size
  pub fs : a.fs < word_size

-- Two inodes with the same fields, in the range of the array `block_no`.
pub record SameInode (a b : Inode) : Type 0 where
  pub id : a.id ≡ b.id
  pub block_no : (d : ℕ) → d < max_direct → a.block_no d ≡ b.block_no d
  pub indirect_block_no : a.indirect_block_no ≡ b.indirect_block_no
  pub file_size : a.file_size ≡ b.file_size
  pub fs : a.fs ≡ b.fs

pub inode_word-lt : (a : Inode) (k : ℕ) → IsWords a → inode_word a k < word_size
unfolding inode_word
inode_word-lt a k v = ground (arith, v.block_no (k - 1))

pub raw_inodes-lt : (table : ℕ → Inode) (j : ℕ) → raw_inodes table j < 256
unfolding raw_inodes
raw_inodes-lt table j = omega arith

-- The byte `c` of the word `k` of the inode `i`.
raw_inodes_byte :
    (table : ℕ → Inode) (i k c j : ℕ)
    → k < 8
    → c < 4
    → j ≡ 32 * i + 4 * k + c
    → raw_inodes table j ≡ byte_of (inode_word (table i) k) c
unfolding raw_inodes
raw_inodes_byte table i k c j hk hc e =
    let at_inode : j / 32 ≡ i = omega arith in
    let at_word : j % 32 / 4 ≡ k = omega arith in
    let at_byte : j % 32 % 4 ≡ c = omega arith in rw (at_inode, at_word, at_byte)

-- The word `k` of the inode `i`, read from any block that agrees with the table.
module _ (table : ℕ → Inode) (buf : Block)
    (same : (j : ℕ) → j < block_size → buf j ≡ raw_inodes table j) (i : ℕ) (hi : i < max_inodes)
    (words : IsWords (table i)) where
  word_at-raw : (k at : ℕ) → k < 8 → at ≡ 32 * i + 4 * k → word_at buf at ≡ inode_word (table i) k
  word_at-raw k at hk e =
      word_at-byte_of buf at (inode_word (table i) k) (inode_word-lt (table i) k words)
        (byte 0 at (omega arith) (omega arith)) (byte 1 (at + 1) (omega arith) (omega arith))
        (byte 2 (at + 2) (omega arith) (omega arith)) (byte 3 (at + 3) (omega arith) (omega arith))
    where
      byte : (c j : ℕ) → c < 4 → j ≡ at + c → buf j ≡ byte_of (inode_word (table i) k) c
      byte c j hc ej = same j (omega arith) ∙ raw_inodes_byte table i k c j hk hc (omega arith)

  pub inode_at-raw : SameInode (inode_at buf (32 * i)) (table i)
  unfolding inode_at inode_word
  inode_at-raw = record {
    id = word_at-raw 0 (32 * i) (omega arith) (omega arith);
    block_no =
        λ d h. word_at-raw (d + 1) (32 * i + 4 + 4 * d) (omega arith) (omega arith) ∙ ground arith;
    indirect_block_no = word_at-raw 5 (32 * i + 20) (omega arith) (omega arith);
    file_size = word_at-raw 6 (32 * i + 24) (omega arith) (omega arith);
    fs = word_at-raw 7 (32 * i + 28) (omega arith) (omega arith);
  }

-- The free list in its block
pub freelist_image-lt :
    (n : ℕ) (free : ℕ → ℕ) (j : ℕ)
    → ((i : ℕ) → i < n → free i < 256)
    → freelist_image n free j < 256
unfolding freelist_image
freelist_image-lt n free j bytes = ground (arith, bytes j)

module _ (n : ℕ) (free buf : ℕ → ℕ)
    (same : (j : ℕ) → j < block_size → buf j ≡ freelist_image n free j) where
  pub freelist-count : n < word_size → word_at buf 508 ≡ n
  unfolding freelist_image
  freelist-count h =
      word_at-byte_of buf 508 n h (same 508 (omega arith)) (same 509 (omega arith))
        (same 510 (omega arith)) (same 511 (omega arith))

  pub freelist-byte : (i : ℕ) → i < bitmap_bytes n → buf i ≡ free i
  unfolding freelist_image
  freelist-byte i h = ground (arith, same i)
