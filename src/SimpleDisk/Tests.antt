-- ===== src/SimpleDisk/Tests.antt =====
-- The driver of MP7_Sources/simple_disk.C on an emulated drive
use csce410_611_spring2026_p.Base.Run.{ok, halted}
use csce410_611_spring2026_p.FileSystem.{zeros}
use csce410_611_spring2026_p.SimpleDisk.{ide_port, polled, ata_read_block, ata_write_block}
use csce410_611_spring2026_p.SimpleDisk.Drive.{DriveView, idle}
use csce410_611_spring2026_p.SimpleDisk.Emulated.{emulated_bus, emulated_drive}
use csce410_611_spring2026_p.SimpleDisk.Transfer.{Rests, block_byte}
use csce410_611_spring2026_p.SimpleDisk.RoundTrip.{ata_write_block-ata_read_block}
use csce410_611_spring2026_p.SimpleDisk.Device.{Disk, ReadRun, WriteRun, ata_device-implemented}
use csce410_611_spring2026_p.Base.{ℕ, ◌%◌, ◌≡◌, refl, true, false, some, arith, ltb, if◌then◌else◌}

abbrev machine : DriveView
machine = record { registers = zeros; phase = idle; busy = 2; words = λ b i. b }

machine-Rests : Rests machine
machine-Rests = record { at_rest = refl; patience = omega arith }

abbrev disk : Disk DriveView
disk = record { machine = machine; rests = machine-Rests }

abbrev text : ℕ → ℕ
text j = j % 256

-- The alternate status is not at its port: 0x3F8 belongs to the serial port.
alternate_status : ide_port 0x0C ≡ some 0x3F8
unfolding ide_port
alternate_status = refl

ata_write_block-ata_read_block_example :
    (m₁ : DriveView) × (m₂ : DriveView) × (out : ℕ → ℕ) × (ata_write_block 4 0 7 text machine
      ≡ ok m₁)
    × (ata_read_block 4 0 7 zeros m₁ ≡ ok (out, m₂))
    × Rests m₂
    × ((j : ℕ)
        → out j ≡ (
            if ltb j 512
            then (if true then text j % 256 else block_byte (emulated_drive.view machine).words 7 j)
            else 0))
ata_write_block-ata_read_block_example =
    ata_write_block-ata_read_block 4 0 7 7 text zeros machine machine-Rests (omega arith)
      (omega arith) (omega arith)

ata_device-implemented_example :
    ReadRun disk 7 (ata_read_block 4 0 7 zeros machine)
    × WriteRun disk 7 text (ata_write_block 4 0 7 text machine)
ata_device-implemented_example = ata_device-implemented disk 7 text (omega arith)

-- The polling of a write looks at no error: on an idle drive, which asks for no data, that of a read fails, and that of
-- a write goes on.
polled_runs :
    (polled 4 0 true machine ≡ halted)
    × (polled 4 0 false machine ≡ ok (record machine { busy = 0 }))
unfolding polled
polled_runs = (refl, refl)
