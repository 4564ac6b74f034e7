-- ===== src/Fat32/Tests.antt =====
-- Runs of the driver on a small disk.
use os_2024_doors.Base.{
  ◌≢◌, ◌<◌, ◌^◌, List, All, All-set, All-replicate, false, Bool-cases, inl, inr, ◌==◌,
  if◌then◌else◌, set, arith, ℕ, ◌≡◌, refl, [], ◌∷◌, ◌>>=◌, Run, ok, ℤ, pos, replicate, ◌+◌, ◌%◌,
}
use os_2024_doors.Strings.{memcmp}
use os_2024_doors.Disk.{
  read_blocks, write_blocks, task_file, addressed, read_sectors, write_sectors,
}
use os_2024_doors.Fat32.Types.{
  zero_entry, store, DirectoryEntry, end_of_file, Memory, Request, State, get_fat, set_fat,
}
use os_2024_doors.Fat32.Layout.{
  encode_table, decode_table, encode_entry, decode_entry, encode_fat, decode_fat,
}
use os_2024_doors.Fat32.Driver.{
  fs_signature, write_clusters, read_clusters, load_dir, save_dir, save_fat, init_directory_table,
  is_empty_storage, initial_map, create_fat32, initialize_filesystem_fat32,
}
use os_2024_doors.Fat32.Find.{read, read_entries, read_file, read_chain}
use os_2024_doors.Fat32.Write.{
  write, write_at, write_entry, scan_entries, find_empty, write_file, write_folder, new_entry,
  commit, alloc_loop, alloc_step, take_cluster, num_of_cluster,
}
use os_2024_doors.Fat32.Codec.{IsByte}
use os_2024_doors.Fat32.Store.{free_from}
use os_2024_doors.Fat32.Clusters.{read_clusters-write_clusters, read_clusters-write_clusters_ne}
use os_2024_doors.Fat32.Decode.{IsDisk}
use os_2024_doors.Fat32.Mount.{Mounted, FileRequest}
use os_2024_doors.Fat32.WriteRead.{read-write}
use os_2024_doors.Fat32.Delete.{delete, delete_entries}
use os_2024_doors.Fat32.DeleteFile.{FileAt, Deleted, delete-Deleted}
use os_2024_doors.Fat32.Unchanged.{SameStore, write-SameStore, delete-SameStore}
use os_2024_doors.Fat32.Format.{initialize-create}

abbrev blank : State
blank = record {
  cluster_map = replicate 512 0;
  dir_table_buf = replicate 64 zero_entry;
  disk = λ _. replicate 512 0;
}

abbrev hello : Request
hello = record {
  buf = λ o. (o + 7) % 251;
  name = 104 ∷ 101 ∷ 108 ∷ 108 ∷ 111 ∷ 0 ∷ 0 ∷ 0 ∷ [];
  ext = 116 ∷ 120 ∷ 116 ∷ [];
  parent_cluster_number = 2;
  buffer_size = 2050;
}

formatted : State
unfolding initialize_filesystem_fat32 is_empty_storage create_fat32 memcmp task_file addressed
    read_sectors write_sectors encode_entry decode_entry read_blocks write_blocks fs_signature
    write_clusters read_clusters save_dir save_fat load_dir init_directory_table initial_map
    encode_table decode_table encode_fat decode_fat
formatted = initialize_filesystem_fat32 (0 ∷ 0 ∷ 0 ∷ []) blank

abbrev outcome : Run (ℤ × State) → ℤ
outcome (ok (c, s)) = c
outcome _ = pos 99

written : Run (ℤ × State)
unfolding formatted get_fat set_fat write write_at write_entry scan_entries find_empty write_file
    write_folder new_entry commit alloc_loop alloc_step take_cluster num_of_cluster
written = write formatted hello

code_written : outcome written ≡ pos 0
unfolding written
code_written = refl

read_back : Run ℕ
unfolding written read read_entries read_file read_chain store
read_back =
    written >>= λ (c, s). read s (record hello { buf = λ _. 0 }) >>= λ (c', s', m). ok (m 2049)

read_back_byte : read_back ≡ ok (2056 % 251)
unfolding read_back
read_back_byte = refl

-- A table and a disk with the file "x" of five bytes in the root folder, in cluster 3.
abbrev pub sector_of_folder : List ℕ
sector_of_folder = set (set (set (set (replicate 512 0) 64 120) 76 0xAA) 90 3) 92 5

abbrev pub one_file : State
one_file = record {
  cluster_map = set initial_map 3 end_of_file;
  dir_table_buf = replicate 64 zero_entry;
  disk = λ a. if a == 8 then sector_of_folder else replicate 512 0;
}

abbrev pub x_request : Request
x_request = record {
  buf = λ _. 0;
  name = 120 ∷ replicate 7 0;
  ext = replicate 3 0;
  parent_cluster_number = 2;
  buffer_size = 5;
}

zeros-IsByte : All IsByte (replicate 512 0)
zeros-IsByte = All-replicate IsByte 512 0 (omega arith)

sector-IsByte : All IsByte sector_of_folder
sector-IsByte =
    let named_bytes = All-set IsByte (replicate 512 0) 64 120 zeros-IsByte (omega arith) in
    let marked = set (replicate 512 0) 64 120 in
    let marked_bytes = All-set IsByte marked 76 0xAA named_bytes (omega arith) in
    let placed_bytes = All-set IsByte (set marked 76 0xAA) 90 3 marked_bytes (omega arith) in
    All-set IsByte (set (set marked 76 0xAA) 90 3) 92 5 placed_bytes (omega arith)

one_file-IsDisk : IsDisk one_file.disk
one_file-IsDisk a = elim (Bool-cases (a == 8)) [
  | inl e ↦ rw e (refl, sector-IsByte)
  | inr e ↦ rw e (refl, zeros-IsByte)
]

abbrev x_entry : DirectoryEntry
x_entry = record zero_entry {
  name = 120 ∷ replicate 7 0;
  ext = replicate 3 0;
  user_attribute = 0xAA;
  cluster_low = 3;
  filesize = 5;
}

x_at : FileAt one_file x_request [] x_entry (replicate 61 zero_entry) (3 ∷ [])
unfolding initial_map read_clusters read_blocks task_file addressed read_sectors decode_table
    decode_entry memcmp
x_at = record {
  map_length = refl;
  words =
      All-set (λ c. c < 2 ^ 32) initial_map 3 end_of_file
        (
          omega arith,
          (omega arith, (omega arith, All-replicate (λ c. c < 2 ^ 32) 509 0 (omega arith))),
        )
        (omega arith);
  disk = one_file-IsDisk;
  parent_lt = omega arith;
  parent_ne = omega arith;
  parent_eof = refl;
  table = refl;
  no_earlier = tt;
  target = refl;
  file = refl;
  chain = (refl, omega arith, refl);
  not_parent = refl;
  not_fat = refl;
}

delete-Deleted_example :
    (z : State) × (delete one_file x_request ≡ ok (pos 0, z))
    × Deleted one_file z 2 (2 + 0) (3 ∷ [])
delete-Deleted_example = delete-Deleted x_at

-- A disk of zeros with the table of a formatted one.
abbrev fresh : State
fresh = record blank { cluster_map = initial_map }

fresh-Mounted : Mounted fresh
unfolding initial_map
fresh-Mounted = record {
  map_length = refl;
  reserved = λ h. omega (arith, h);
  disk = λ a. (refl, zeros-IsByte);
}

hello-FileRequest : FileRequest fresh hello
unfolding initial_map free_from
hello-FileRequest = record {
  parent_lt = omega arith;
  parent_ne = omega arith;
  name_length = refl;
  name_bytes = (
    omega arith,
    (
      omega arith,
      (omega arith, (omega arith, (omega arith, (omega arith, (omega arith, (omega arith, tt)))))),
    ),
  );
  ext_length = refl;
  ext_bytes = (omega arith, (omega arith, (omega arith, tt)));
  nonempty = omega arith;
  room = omega arith;
}

abbrev state_after : Run (ℤ × State) → State
state_after (ok (c, s)) = s
state_after _ = blank

hello_written : State
unfolding memcmp task_file addressed read_sectors write_sectors encode_entry decode_entry
    read_blocks write_blocks write_clusters read_clusters save_dir save_fat load_dir initial_map
    encode_table decode_table encode_fat get_fat set_fat write write_at write_entry scan_entries
    find_empty write_file write_folder new_entry commit alloc_loop alloc_step take_cluster
    num_of_cluster
hello_written = state_after (write fresh hello)

hello_stored : write fresh hello ≡ ok (pos 0, hello_written)
unfolding hello_written
hello_stored = refl

read-write_example :
    (m : Memory) × (read hello_written (record hello { buf = λ _. 0; buffer_size = 3000 })
      ≡ ok (pos 0, load_dir hello_written 2, m))
    × ((o : ℕ) → o < 2050 → m o ≡ hello.buf o)
read-write_example =
    read-write (λ _. 0) 3000 fresh-Mounted hello-FileRequest hello_stored (omega arith)

-- The file is there already.
x_present : write one_file x_request ≡ ok (pos 1, load_dir one_file 2)
unfolding memcmp task_file addressed read_sectors decode_entry read_blocks read_clusters load_dir
    initial_map decode_table get_fat write write_at scan_entries
x_present = refl

one_zero : pos 1 ≢ pos 0
one_zero h = cc

write-SameStore_example : SameStore one_file (load_dir one_file 2)
write-SameStore_example = write-SameStore x_request x_present one_zero

-- The file is not there.
hello_missing : delete fresh hello ≡ ok (pos 1, load_dir fresh 2)
unfolding memcmp task_file addressed read_sectors decode_entry read_blocks read_clusters load_dir
    initial_map decode_table get_fat delete delete_entries
hello_missing = refl

delete-SameStore_example : SameStore fresh (load_dir fresh 2)
delete-SameStore_example = delete-SameStore hello hello_missing one_zero

-- The machine is started again: its memory is blank, and the disk is formatted.
abbrev restarted : State
restarted = record blank { disk = (create_fat32 (0 ∷ 0 ∷ 0 ∷ []) blank).disk }

initialize-create_example :
    (is_empty_storage restarted.disk ≡ false)
    × (initialize_filesystem_fat32 (0 ∷ 0 ∷ 0 ∷ []) restarted
        ≡ record restarted { cluster_map = (create_fat32 (0 ∷ 0 ∷ 0 ∷ []) blank).cluster_map })
initialize-create_example = initialize-create (0 ∷ 0 ∷ 0 ∷ []) blank restarted refl

read_clusters-write_clusters_example :
    read_clusters (write_clusters blank.disk (replicate 2048 7) 5 1) 5 1 ≡ replicate 2048 7
read_clusters-write_clusters_example =
    read_clusters-write_clusters blank.disk (replicate 2048 7) 5 refl

read_clusters-write_clusters_ne_example :
    read_clusters (write_clusters blank.disk (replicate 2048 7) 5 1) 6 1
    ≡ read_clusters blank.disk 6 1
read_clusters-write_clusters_ne_example =
    read_clusters-write_clusters_ne blank.disk (replicate 2048 7) 5 6 (omega arith) (omega arith)
      (omega arith)
