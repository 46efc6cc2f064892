-- ===== src/FileTest/OnAta.antt =====
-- MP7_Sources/kernel.C: the exercise of the file system on the driver of MP7_Sources/simple_disk.C.
use csce410_611_spring2026_p.Base.Run.{ok}
use csce410_611_spring2026_p.FileSystem.{FileSystem, Inode}
use csce410_611_spring2026_p.SimpleDisk.{PortBus}
use csce410_611_spring2026_p.SimpleDisk.Drive.{AtaDrive}
use csce410_611_spring2026_p.SimpleDisk.Device.{Disk, ata_device}
use csce410_611_spring2026_p.FileTest.{stress_test}
use csce410_611_spring2026_p.FileTest.Exercise.{stress_test-passes}
use csce410_611_spring2026_p.Base.{ℕ, ◌<◌, ◌≤◌, ◌≡◌, word_size}

-- On a working ATA drive of 2048 blocks or more, all thirty runs of the exercise pass all their assertions.
stress_test-ata :
    (M : Type 0) ⦃bus : PortBus M⦄ ⦃drive : AtaDrive M⦄
    → (d : Disk M) (self : ℕ) (fresh : ℕ → ℕ) (table : ℕ → Inode) (raw : ℕ → ℕ) → self < word_size
    → ((i : ℕ) → fresh i < 256)
    → 2048 ≤ drive.blocks
    → (s : FileSystem (Disk M)) × (stress_test self fresh table raw d ≡ ok s)
stress_test-ata M d self fresh table raw = stress_test-passes d self fresh table raw
