-- ===== src/Disk.antt =====
-- disk.c: block transfers to the ATA disk. The disk is what answers the ports, so it is given as
-- its sectors; what the code sends to select them is written out.
pub mod Transfer
use os_2024_doors.Base.{
  ℕ, zero, suc, ◌+◌, ◌*◌, ◌/◌, ◌%◌, ◌^◌, List, [], ◌++◌, if◌then◌else◌, ◌==◌, take, drop,
}

abbrev pub block_size : ℕ
block_size = 512

-- The 512 bytes of each sector.
abbrev pub Disk : Type 0
Disk = ℕ → List ℕ

-- The bytes sent to ports 0x1F6, 0x1F2, 0x1F3, 0x1F4, 0x1F5 and 0x1F7.
pub record TaskFile : Type 0 where
  pub drive : ℕ
  pub sectors : ℕ
  pub low : ℕ
  pub mid : ℕ
  pub high : ℕ
  pub command : ℕ

abbrev pub read_command : ℕ
read_command = 0x20

abbrev pub write_command : ℕ
write_command = 0x30

-- The six `out` calls. `0xE0 | x` with x below 16 is a sum.
unfoldable pub task_file : ℕ → ℕ → ℕ → TaskFile
task_file command logical_block_address block_count = record {
  drive = 0xE0 + logical_block_address / 2 ^ 24 % 16;
  sectors = block_count % 256;
  low = logical_block_address % 256;
  mid = logical_block_address / 2 ^ 8 % 256;
  high = logical_block_address / 2 ^ 16 % 256;
  command = command;
}

-- The sector that an ATA drive in LBA mode starts at: four bits of the drive register, three bytes.
unfoldable pub addressed : TaskFile → ℕ
addressed t = t.drive % 16 * 2 ^ 24 + t.high * 2 ^ 16 + t.mid * 2 ^ 8 + t.low

-- The loop over `in16`: the drive moves on to the next sector after each block.
unfoldable pub read_sectors : Disk → ℕ → ℕ → List ℕ
read_sectors d a zero = []
read_sectors d a (suc n) = d a ++ read_sectors d (a + 1) n

abbrev pub update_sector : Disk → ℕ → List ℕ → Disk
update_sector d a bytes b = if a == b then bytes else d b

-- The loop over `out16`.
unfoldable pub write_sectors : Disk → ℕ → List ℕ → ℕ → Disk
write_sectors d a bytes zero = d
write_sectors d a bytes (suc n) =
    write_sectors (update_sector d a (take block_size bytes)) (a + 1) (drop block_size bytes) n

-- The bytes that `read_blocks` stores at `ptr`.
unfoldable pub read_blocks : Disk → ℕ → ℕ → List ℕ
read_blocks d logical_block_address block_count =
    read_sectors d (addressed (task_file read_command logical_block_address block_count))
      block_count

-- `bytes` is the memory at `ptr`.
unfoldable pub write_blocks : Disk → List ℕ → ℕ → ℕ → Disk
write_blocks d bytes logical_block_address block_count =
    write_sectors d (addressed (task_file write_command logical_block_address block_count)) bytes
      block_count
