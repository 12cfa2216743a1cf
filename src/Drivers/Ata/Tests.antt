-- ===== src/Drivers/Ata/Tests.antt =====
-- Runs of drivers/ata.c on the drive of Drivers.Ata.Sample.
use black_hole_os.Prelude.{ℕ, zero, suc, ◌^◌, ◌<◌, ◌≡◌, arith, [], ◌++◌, some, replicate, All}
use black_hole_os.Drivers.Ata.{ata_read_sector, ata_write_sector, ata_wait_bsy}
use black_hole_os.Drivers.Ata.Disk.{read_sector, write_sector}
use black_hole_os.Drivers.Ata.Polling.{Ends, ata_wait_bsy-Ends}
use black_hole_os.Drivers.Ata.Transfer.{
  AtRest, disk_of, ata_read_sector-disk_of, ata_write_sector-disk_of,
}
use black_hole_os.Drivers.Ata.Sample.{
  AtaUnit, unit_ports, unit_drive, unit_IsAta, unit_TakesAtOnce, first_state, first_state-AtRest,
}

bytes_All : (n b : ℕ) → b < 2 ^ 8 → All (λ b. b < 2 ^ 8) (replicate n b)
bytes_All zero b small = tt
bytes_All (suc n) b small = (small, bytes_All n b small)

ata_wait_bsy-Ends_example :
    Ends unit_drive (ata_wait_bsy unit_ports 2 first_state) first_state.looks
ata_wait_bsy-Ends_example = ata_wait_bsy-Ends unit_IsAta 2 first_state (omega arith)

ata_read_sector-disk_of_example :
    (s' : AtaUnit) × (ata_read_sector unit_ports 2 0x10000005 (replicate 512 7) first_state
      ≡ some (read_sector 0x10000005 (disk_of unit_drive first_state) ++ [], s'))
    × AtRest unit_drive s'
    × ((l : ℕ) → disk_of unit_drive s' l ≡ disk_of unit_drive first_state l)
ata_read_sector-disk_of_example =
    ata_read_sector-disk_of unit_IsAta 2 0x10000005 (replicate 512 7) first_state (omega arith)
      (omega arith) first_state-AtRest

ata_write_sector-disk_of_example :
    (s' : AtaUnit) × (ata_write_sector unit_ports 2 9 (replicate 512 7) first_state ≡ some s')
    × AtRest unit_drive s'
    × ((l : ℕ)
        → disk_of unit_drive s' l
          ≡ write_sector 9 (replicate 512 7) (disk_of unit_drive first_state) l)
ata_write_sector-disk_of_example =
    ata_write_sector-disk_of unit_IsAta unit_TakesAtOnce 2 9 (replicate 512 7) first_state
      (omega arith) (omega arith) (bytes_All 512 7 (omega arith)) first_state-AtRest
