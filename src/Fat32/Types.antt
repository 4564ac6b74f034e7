-- ===== src/Fat32/Types.antt =====
-- Constants and structures of header/filesystem/fat32.h, and the tests that the driver makes on an
-- entry.
use os_2024_doors.Base.{
  ℕ, ◌+◌, ◌-◌, ◌*◌, ◌/◌, ◌%◌, ◌^◌, Bool, not, ◌&&◌, List, ◌==◌, ltb, leb, if◌then◌else◌, Run, ok,
  fault, none, some, get_elem?, set, get_or, length, replicate, tabulate, is_zero,
}
use os_2024_doors.Disk.{Disk}
use os_2024_doors.Strings.{memcmp}
use Prim.Native.Nat.{bit_and}

abbrev pub boot_sector : ℕ
boot_sector = 0

abbrev pub cluster_block_count : ℕ
cluster_block_count = 4

abbrev pub cluster_size : ℕ
cluster_size = 2048

abbrev pub cluster_map_size : ℕ
cluster_map_size = 512

-- CLUSTER_SIZE / sizeof(struct FAT32DirectoryEntry)
abbrev pub entry_count : ℕ
entry_count = 64

abbrev pub cluster_0_value : ℕ
cluster_0_value = 0x0FFFFFF0

abbrev pub cluster_1_value : ℕ
cluster_1_value = 0x0FFFFFFF

abbrev pub end_of_file : ℕ
end_of_file = 0x0FFFFFFF

abbrev pub empty_entry : ℕ
empty_entry = 0

abbrev pub attr_subdirectory : ℕ
attr_subdirectory = 0x10

abbrev pub uattr_not_empty : ℕ
uattr_not_empty = 0xAA

-- struct FAT32DirectoryEntry
pub record DirectoryEntry : Type 0 where
  pub name : List ℕ
  pub ext : List ℕ
  pub attribute : ℕ
  pub user_attribute : ℕ
  pub undelete : ℕ
  pub create_time : ℕ
  pub create_date : ℕ
  pub access_date : ℕ
  pub cluster_high : ℕ
  pub modified_time : ℕ
  pub modified_date : ℕ
  pub cluster_low : ℕ
  pub filesize : ℕ

-- struct FAT32DirectoryTable
abbrev pub DirectoryTable : Type 0
DirectoryTable = List DirectoryEntry

-- What `memset(&entry, 0, sizeof entry)` leaves.
abbrev pub zero_entry : DirectoryEntry
zero_entry = record {
  name = replicate 8 0;
  ext = replicate 3 0;
  attribute = 0;
  user_attribute = 0;
  undelete = 0;
  create_time = 0;
  create_date = 0;
  access_date = 0;
  cluster_high = 0;
  modified_time = 0;
  modified_date = 0;
  cluster_low = 0;
  filesize = 0;
}

-- The memory behind a pointer, by offset.
abbrev pub Memory : Type 0
Memory = ℕ → ℕ

-- `n` bytes from offset `o`, and a write of bytes at offset `o`.
abbrev pub fetch : Memory → ℕ → ℕ → List ℕ
fetch m o n = tabulate n o m

unfoldable pub store : Memory → ℕ → List ℕ → Memory
store m o bytes a = if leb o a && ltb a (o + length bytes) then get_or bytes (a - o) 0 else m a

-- struct FAT32DriverRequest, with the memory at `buf`.
pub record Request : Type 0 where
  pub buf : Memory
  pub name : List ℕ
  pub ext : List ℕ
  pub parent_cluster_number : ℕ
  pub buffer_size : ℕ

-- struct FAT32DriverState and the disk. `cluster_buf` is never used.
pub record State : Type 0 where
  pub cluster_map : List ℕ
  pub dir_table_buf : DirectoryTable
  pub disk : Disk

-- Reads and writes of `cluster_map`: an index past the array is a fault.
unfoldable pub get_fat : List ℕ → ℕ → Run ℕ
get_fat m c = elim (get_elem? m c) [ none ↦ fault | some v ↦ ok v ]

unfoldable pub set_fat : List ℕ → ℕ → ℕ → Run (List ℕ)
set_fat m c v = if ltb c (length m) then ok (set m c v) else fault

-- user_attribute & UATTR_NOT_EMPTY
abbrev pub in_use : DirectoryEntry → Bool
in_use e = not (bit_and e.user_attribute uattr_not_empty == 0)

-- attribute & ATTR_SUBDIRECTORY
abbrev pub is_directory : DirectoryEntry → Bool
is_directory e = not (bit_and e.attribute attr_subdirectory == 0)

-- memcmp(entry.name, request.name, 8) == 0, and the same of `ext`
abbrev pub same_name : DirectoryEntry → Request → Bool
same_name e r = is_zero (memcmp e.name r.name 8)

abbrev pub same_ext : DirectoryEntry → Request → Bool
same_ext e r = is_zero (memcmp e.ext r.ext 3)

-- (cluster_high << 16) | cluster_low; `cluster_low` is a uint16_t, so the bits do not overlap.
abbrev pub cluster_number : DirectoryEntry → ℕ
cluster_number e = (e.cluster_high * 2 ^ 16 + e.cluster_low) % 2 ^ 32

-- The assignments of (uint16_t)i and (uint16_t)(i >> 16).
abbrev pub set_cluster : DirectoryEntry → ℕ → DirectoryEntry
set_cluster e i = record e { cluster_low = i % 2 ^ 16; cluster_high = i / 2 ^ 16 % 2 ^ 16 }
