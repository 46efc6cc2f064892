-- ===== src/SimpleDisk/RoundTrip.antt =====
-- MP7_Sources/simple_disk.C: what a read after a write returns.
use csce410_611_spring2026_p.Base.Run.{ok}
use csce410_611_spring2026_p.SimpleDisk.{PortBus, buffer_word, ata_read_block, ata_write_block}
use csce410_611_spring2026_p.SimpleDisk.Drive.{AtaDrive}
use csce410_611_spring2026_p.SimpleDisk.Transfer.{
  Rests, block_byte, ata_read_block_lem, ata_write_block_lem,
}
use csce410_611_spring2026_p.Base.{
  ℕ, ◌+◌, ◌*◌, ◌%◌, ◌<◌, ◌≡◌, ◌∙◌, ◌&&◌, ◌/◌, ◌^◌, arith, ltb, ◌==◌, if◌then◌else◌, ℕ_discrete,
  dec_lt,
}

-- The bytes of a block whose words are those of a buffer
pub buffer_word_byte :
    (word buf : ℕ → ℕ) (j : ℕ)
    → j < 512
    → ((i : ℕ) → i < 256 → word i ≡ buffer_word buf i)
    → (if j % 2 == 0 then word (j / 2) % 256 else word (j / 2) / 256 % 256) ≡ buf j % 256
buffer_word_byte word buf j h same =
    rw (same (j / 2) (omega arith)) (elim (ℕ_discrete (2 * (j / 2)) j) [
      | yes e ↦ let even : j % 2 ≡ 0 = omega arith in rw e (ground arith)
      | no ne ↦
          let odd : j % 2 ≡ 1 = omega arith in
          let at : 2 * (j / 2) + 1 ≡ j = omega arith in rw at (ground arith)
    ])

module _ {M : Type 0} ⦃bus : PortBus M⦄ ⦃drive : AtaDrive M⦄ where
  module _ (fuel raw b c : ℕ) (buf out : ℕ → ℕ) (m : M) (rests : Rests m)
      (enough : drive.slowest < fuel) (b_inside : b % 2 ^ 28 < drive.blocks)
      (c_inside : c % 2 ^ 28 < drive.blocks) where
    written_byte :
        (ws : ℕ → ℕ → ℕ) (j : ℕ)
        → j < 512
        → ((d i : ℕ)
            → ws d i ≡ (
                if b % 2 ^ 28 == d && ltb i 256
                then buffer_word buf i
                else (drive.view m).words d i))
        → block_byte ws (c % 2 ^ 28) j ≡ (
            if b % 2 ^ 28 == c % 2 ^ 28
            then buf j % 256
            else block_byte (drive.view m).words (c % 2 ^ 28) j)
    written_byte ws j h words = elim (ℕ_discrete (b % 2 ^ 28) (c % 2 ^ 28)) [
      | yes e ↦ rw e (
          buffer_word_byte (ws (c % 2 ^ 28)) buf j h
            (λ i hi. words (c % 2 ^ 28) i ∙ rw e (ground arith))
          ∙ ground arith)
      | no ne ↦ rw (words (c % 2 ^ 28) (j / 2)) (ground arith)
    ]

    -- On a working drive that waits for a command, with fuel for its slowest command, and whether or not it takes the
    -- flush: a write of a block ends, and so does a read of any block after it; the read returns the bytes written if
    -- it is the same block, modulo 2 ^ 28, and else the bytes that the block had, and leaves the rest of the buffer.
    pub ata_write_block-ata_read_block :
        (m₁ : M) × (m₂ : M) × (out' : ℕ → ℕ) × (ata_write_block fuel raw b buf m ≡ ok m₁)
        × (ata_read_block fuel raw c out m₁ ≡ ok (out', m₂))
        × Rests m₂
        × ((j : ℕ)
            → out' j ≡ (
                if ltb j 512
                then (if b % 2 ^ 28 == c % 2 ^ 28
                    then buf j % 256
                    else block_byte (drive.view m).words (c % 2 ^ 28) j)
                else out j))
    ata_write_block-ata_read_block =
        let (m₁, wrote, rests₁, words) =
          ata_write_block_lem fuel raw b buf m rests enough b_inside in
        let (out', m₂, read_back, rests₂, same, bytes) =
          ata_read_block_lem fuel raw c out m₁ rests₁ enough c_inside in
        (
          m₁,
          m₂,
          out',
          wrote,
          read_back,
          rests₂,
          λ j. bytes j ∙ elim (dec_lt j 512) [
            | yes h ↦ ground (arith, written_byte _ j h words)
            | no h ↦ ground arith
          ],
        )
