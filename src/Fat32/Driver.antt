-- ===== src/Fat32/Driver.antt =====
-- fat32.c: cluster transfers, directory initialisation, formatting and mounting.
use os_2024_doors.Base.{
  ℕ, ◌*◌, ◌%◌, ◌^◌, Bool, not, List, [], ◌∷◌, ◌++◌, if◌then◌else◌, is_zero, get_or, set, take, drop,
  replicate,
}
use os_2024_doors.Strings.{memcmp}
use os_2024_doors.Disk.{Disk, block_size, read_blocks, write_blocks}
use os_2024_doors.Fat32.Types.{
  DirectoryTable, zero_entry, State, set_cluster, boot_sector, cluster_block_count,
  cluster_map_size, entry_count, cluster_0_value, cluster_1_value, end_of_file, empty_entry,
  attr_subdirectory, uattr_not_empty,
}
use os_2024_doors.Fat32.Layout.{encode_table, decode_table, encode_fat, decode_fat}

-- The text that starts the signature block.
abbrev pub signature_text : List ℕ
signature_text =
    67 ∷ 111 ∷ 117 ∷ 114 ∷ 115 ∷ 101 ∷ 32 ∷ 32 ∷ 32 ∷ 32 ∷ 32 ∷ 32 ∷ 32 ∷ 32 ∷ 32 ∷ 32 ∷ 68 ∷ 101
    ∷ 115 ∷ 105 ∷ 103 ∷ 110 ∷ 101 ∷ 100 ∷ 32 ∷ 98 ∷ 121 ∷ 32 ∷ 32 ∷ 32 ∷ 32 ∷ 32 ∷ 76 ∷ 97 ∷ 98 ∷ 32
    ∷ 83 ∷ 105 ∷ 115 ∷ 116 ∷ 101 ∷ 114 ∷ 32 ∷ 73 ∷ 84 ∷ 66 ∷ 32 ∷ 32 ∷ 77 ∷ 97 ∷ 100 ∷ 101 ∷ 32
    ∷ 119 ∷ 105 ∷ 116 ∷ 104 ∷ 32 ∷ 60 ∷ 51 ∷ 32 ∷ 32 ∷ 32 ∷ 32 ∷ 45 ∷ 45 ∷ 45 ∷ 45 ∷ 45 ∷ 45 ∷ 45
    ∷ 45 ∷ 45 ∷ 45 ∷ 45 ∷ 50 ∷ 48 ∷ 50 ∷ 52 ∷ 10 ∷ []

-- `fs_signature`: the text, zeros, and "Ok" in the last two bytes.
unfoldable pub fs_signature : List ℕ
fs_signature = signature_text ++ (replicate 430 0 ++ (79 ∷ 107 ∷ []))

abbrev pub cluster_to_lba : ℕ → ℕ
cluster_to_lba cluster = cluster * cluster_block_count % 2 ^ 32

-- `write_blocks` and `read_blocks` take the block count as a byte.
unfoldable pub write_clusters : Disk → List ℕ → ℕ → ℕ → Disk
write_clusters d bytes cluster_number cluster_count =
    write_blocks d bytes (cluster_to_lba cluster_number) (cluster_to_lba cluster_count % 256)

unfoldable pub read_clusters : Disk → ℕ → ℕ → List ℕ
read_clusters d cluster_number cluster_count =
    read_blocks d (cluster_to_lba cluster_number) (cluster_to_lba cluster_count % 256)

-- read_clusters(&fat32_driver_state.dir_table_buf, cluster, 1)
unfoldable pub load_dir : State → ℕ → State
load_dir s c = record s { dir_table_buf = decode_table entry_count (read_clusters s.disk c 1) }

-- write_clusters(&fat32_driver_state.dir_table_buf, cluster, 1)
unfoldable pub save_dir : State → ℕ → State
save_dir s c = record s { disk = write_clusters s.disk (encode_table s.dir_table_buf) c 1 }

-- write_clusters(&fat32_driver_state, 1, 1): the driver state starts with the allocation table,
-- which fills a cluster.
unfoldable pub save_fat : State → State
save_fat s = record s { disk = write_clusters s.disk (encode_fat s.cluster_map) 1 1 }

-- The entry `table[1]`: `memcpy(name, "..", 3)` leaves the other five bytes as they are.
unfoldable pub init_directory_table : DirectoryTable → List ℕ → ℕ → DirectoryTable
init_directory_table t name parent_dir_cluster =
    let self = get_or t 0 zero_entry in
    let parent = get_or t 1 zero_entry in
    record self {
      name = take 8 name;
      attribute = attr_subdirectory;
      user_attribute = uattr_not_empty;
      undelete = 0;
    }
    ∷ record (set_cluster parent parent_dir_cluster) {
      name = 46 ∷ 46 ∷ 0 ∷ drop 3 parent.name;
      attribute = attr_subdirectory;
      user_attribute = uattr_not_empty;
      undelete = 0;
    }
    ∷ replicate 62 zero_entry

unfoldable pub is_empty_storage : Disk → Bool
is_empty_storage d = not (is_zero (memcmp (read_blocks d boot_sector 1) fs_signature block_size))

-- The table that `create_fat32` builds.
unfoldable pub initial_map : List ℕ
initial_map = cluster_0_value ∷ cluster_1_value ∷ end_of_file ∷ replicate 509 empty_entry

-- "root" has five bytes and eight are copied: `past` is the memory behind the literal.
unfoldable pub create_fat32 : List ℕ → State → State
create_fat32 past s =
    let table = init_directory_table s.dir_table_buf (114 ∷ 111 ∷ 111 ∷ 116 ∷ 0 ∷ past) 2 in
    let self = record (get_or table 0 zero_entry) { cluster_high = 0; cluster_low = 2 } in
    let formatted : State = record {
      cluster_map = initial_map;
      dir_table_buf = set table 0 self;
      disk = write_blocks s.disk fs_signature boot_sector 1;
    } in
    save_fat (save_dir formatted 2)

unfoldable pub initialize_filesystem_fat32 : List ℕ → State → State
initialize_filesystem_fat32 past s =
    if is_empty_storage s.disk then create_fat32 past s else record s {
      cluster_map = decode_fat cluster_map_size (read_blocks s.disk (cluster_to_lba 1) 4);
    }
