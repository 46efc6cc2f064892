-- ===== src/SimpleDisk/Transfer.antt =====
-- MP7_Sources/simple_disk.C: `ata_read_block` and `ata_write_block` on a working drive.
use csce410_611_spring2026_p.Base.Run.{ok}
use csce410_611_spring2026_p.SimpleDisk.{
  PortBus, read_operation, write_operation, buffer_word, read_words, write_words, ata_read_block,
  ata_write_block, ide_write, ide_port,
}
use csce410_611_spring2026_p.SimpleDisk.Drive.{
  Phase, idle, sending, receiving, DriveView, next_phase, put_word, AtaDrive,
}
use csce410_611_spring2026_p.SimpleDisk.Command.{polled_lem, issue_lem}
use csce410_611_spring2026_p.Base.{
  ℕ, zero, suc, ◌+◌, ◌*◌, ◌%◌, ◌<◌, ◌≤◌, ◌≡◌, ◌≢◌, refl, ap, ◌∙◌, true, false, ◌&&◌, ◌/◌, ◌^◌,
  arith, ltb, ◌==◌, if◌then◌else◌, ℕ_discrete, leb,
}

-- The phase in which the word `i` is the next one
abbrev phase_at : (ℕ → ℕ → Phase) → ℕ → ℕ → Phase
phase_at moving b i = if i == 256 then idle else moving b i

-- The bytes of a block that is kept as words
abbrev pub block_byte : (ℕ → ℕ → ℕ) → (b j : ℕ) → ℕ
block_byte words b j = if j % 2 == 0 then words b (j / 2) % 256 else words b (j / 2) / 256 % 256

-- The bytes from the word `i` on are those from the next word on and the two of this word.
block_byte_step :
    (word : ℕ → ℕ) (i j other : ℕ)
    → i < 256
    → let byte = if j % 2 == 0 then word (j / 2) % 256 else word (j / 2) / 256 % 256 in
      (if leb (2 * (i + 1)) j && ltb j 512
        then byte
        else if i * 2 + 1 == j
        then word i / 256 % 256
        else if i * 2 == j
        then word i % 256
        else other)
      ≡ (if leb (2 * i) j && ltb j 512 then byte else other)
block_byte_step word i j other h = elim (ℕ_discrete (i * 2) j) [
  | yes e ↦
      let half : j / 2 ≡ i = omega arith in
      let even : j % 2 ≡ 0 = omega arith in rw (half, even) (ground arith)
  | no ne ↦ elim (ℕ_discrete (i * 2 + 1) j) [
    | yes e ↦
        let half : j / 2 ≡ i = omega arith in
        let odd : j % 2 ≡ 1 = omega arith in rw (half, odd) (ground arith)
    | no ne' ↦ ground arith
  ]
]

put_word_step :
    (words : ℕ → ℕ → ℕ) (b i : ℕ) (word : ℕ → ℕ) (c j : ℕ)
    → i < 256
    → (if b == c && leb (i + 1) j && ltb j 256 then word j else put_word words b i (word i) c j)
      ≡ (if b == c && leb i j && ltb j 256 then word j else words c j)
put_word_step words b i word c j h = elim (ℕ_discrete i j) [
  | yes e ↦ elim (ℕ_discrete b c) [ yes e' ↦ rw (← e, ← e') (ground arith) | no ne ↦ ground arith ]
  | no ne ↦ elim (ℕ_discrete b c) [ yes e' ↦ rw (← e') (ground arith) | no ne' ↦ ground arith ]
]

module _ {M : Type 0} ⦃bus : PortBus M⦄ ⦃drive : AtaDrive M⦄ where
  -- The drive waits for a command, though it may be busy for a while.
  pub record Rests (m : M) : Type 0 where
    pub at_rest : (drive.view m).phase ≡ idle
    pub patience : (drive.view m).busy ≤ drive.slowest

  read_words_lem :
      (k i : ℕ) (m : M) (v : DriveView) (b : ℕ) (buf : ℕ → ℕ)
      → i + k ≡ 256
      → drive.view m ≡ v
      → v.phase ≡ phase_at sending b i
      → v.busy ≡ 0
      → (drive.view (read_words k i m buf).1 ≡ record v { phase = idle })
        × ((j : ℕ)
            → (read_words k i m buf).0 j
              ≡ (if leb (2 * i) j && ltb j 512 then block_byte v.words b j else buf j))
  unfolding read_words
  read_words_lem zero i m v b buf len e phase ready =
      let over : v.phase ≡ idle = phase ∙ ground arith in
      (e ∙ ap (λ p. record v { phase = p }) over, λ j. ground arith)
  read_words_lem (suc k) i m v b buf len e phase ready =
      let here : v.phase ≡ sending b i = phase ∙ ground arith in
      let (word, next) = drive.data_in m b i (rw e here) (rw e ready) (omega arith) in
      let now : drive.view (bus.inportw m 0x1F0).1 ≡ record v { phase = next_phase sending b i } =
        next ∙ rw e refl in
      let got : (bus.inportw m 0x1F0).0 ≡ v.words b i = word ∙ rw e refl in
      let (after, bytes) =
        read_words_lem k (i + 1) _ (record v { phase = next_phase sending b i }) b _ (omega arith)
          now (ground arith) ready in
      (after, λ j. bytes j ∙ rw got (block_byte_step (v.words b) i j (buf j) (omega arith)))

  write_words_lem :
      (k i : ℕ) (m : M) (v : DriveView) (b : ℕ) (buf : ℕ → ℕ)
      → i + k ≡ 256
      → drive.view m ≡ v
      → v.phase ≡ phase_at receiving b i
      → v.busy ≤ drive.slowest
      → (i ≢ 256 → v.busy ≡ 0)
      → (ws : ℕ → ℕ → ℕ) × (l : ℕ) × (l ≤ drive.slowest)
        × (drive.view (write_words k i buf m) ≡ record v { phase = idle; words = ws; busy = l })
        × ((c j : ℕ)
            → ws c j ≡ (if b == c && leb i j && ltb j 256 then buffer_word buf j else v.words c j))
  unfolding write_words
  write_words_lem zero i m v b buf len e phase below ready =
      let over : v.phase ≡ idle = phase ∙ ground arith in
      (v.words, v.busy, below, e ∙ ap (λ p. record v { phase = p }) over, λ c j. ground arith)
  write_words_lem (suc k) i m v b buf len e phase below ready =
      let here : v.phase ≡ receiving b i = phase ∙ ground arith in
      let (n, below', more, next) =
        drive.data_out m b i (buffer_word buf i) (rw e here) (rw e (ready (omega arith)))
          (omega arith) (omega arith) in
      let (ws, l, short, after, words) =
        write_words_lem k (i + 1) (bus.outportw m 0x1F0 (buffer_word buf i))
          (record v {
            words = put_word v.words b i (buffer_word buf i);
            phase = next_phase receiving b i;
            busy = n;
          })
          b buf (omega arith) (next ∙ rw e refl) (ground arith) below' (λ ne. more (omega arith)) in
      (
        ws,
        l,
        short,
        after,
        λ c j. words c j ∙ put_word_step v.words b i (buffer_word buf) c j (omega arith),
      )

  module _ (fuel raw block_no : ℕ) (buf : ℕ → ℕ) (m : M) (rests : Rests m)
      (enough : drive.slowest < fuel) (inside : block_no % 2 ^ 28 < drive.blocks) where
    -- `ata_read_block` of a block, with the number taken modulo 2 ^ 28, fills the first 512 bytes of the buffer with
    -- the block, and changes no block.
    pub ata_read_block_lem :
        (buf' : ℕ → ℕ) × (m' : M) × (ata_read_block fuel raw block_no buf m ≡ ok (buf', m'))
        × Rests m'
        × ((drive.view m').words ≡ (drive.view m).words)
        × ((j : ℕ)
            → buf' j ≡ (
                if ltb j 512 then block_byte (drive.view m).words (block_no % 2 ^ 28) j else buf j))
    unfolding ata_read_block
    ata_read_block_lem =
        let (m₁, k, sent, below, started) =
          issue_lem fuel read_operation block_no m (drive.view m) refl rests.at_rest
            (omega (arith, rests.patience)) inside in
        let (m₂, ready, waiting) =
          polled_lem fuel raw true m₁ _ started (omega arith) (λ e. refl) in
        let (after, bytes) =
          read_words_lem 256 0 m₂ _ (block_no % 2 ^ 28) buf refl waiting refl refl in
        (
          (read_words 256 0 m₂ buf).0,
          (read_words 256 0 m₂ buf).1,
          rw (sent, ready) refl,
          record { at_rest = rw after refl; patience = rw after (omega arith) },
          rw after refl,
          λ j. bytes j ∙ ground arith,
        )

    -- `ata_write_block`, whether or not the drive takes the flush, puts the first 512 bytes of the buffer into the
    -- block, and changes no other block.
    pub ata_write_block_lem :
        (m' : M) × (ata_write_block fuel raw block_no buf m ≡ ok m')
        × Rests m'
        × ((c j : ℕ)
            → (drive.view m').words c j ≡ (
                if block_no % 2 ^ 28 == c && ltb j 256
                then buffer_word buf j
                else (drive.view m).words c j))
    unfolding ata_write_block ide_write ide_port
    ata_write_block_lem =
        let (m₁, k, sent, below, started) =
          issue_lem fuel write_operation block_no m (drive.view m) refl rests.at_rest
            (omega (arith, rests.patience)) inside in
        let (m₂, ready, waiting) =
          polled_lem fuel raw false m₁ _ started (omega arith) (λ e. absurd (ground arith)) in
        let (ws, busy, short, after, words) =
          write_words_lem 256 0 m₂ _ (block_no % 2 ^ 28) buf refl waiting refl (omega arith)
            (λ ne. refl) in
        let m₃ = write_words 256 0 buf m₂ in
        let (l, below', flushed) = drive.command_flush m₃ (rw after refl) (rw after short) in
        let (m₄, done, rested) =
          polled_lem fuel raw false (bus.outportb m₃ 0x1F7 0xE7) _ flushed (omega arith)
            (λ e. absurd (ground arith)) in
        (
          m₄,
          rw (sent, ready, done) refl,
          record { at_rest = rw (rested, after) refl; patience = rw rested (omega arith) },
          λ c j. rw (rested, after) (words c j ∙ ground arith),
        )
