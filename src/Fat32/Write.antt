-- ===== src/Fat32/Write.antt =====
-- fat32.c: `write`, which makes a file or, with `buffer_size == 0`, a folder.
use os_2024_doors.Base.{
  ℕ, zero, suc, ◌+◌, ◌*◌, ◌/◌, ◌%◌, ◌^◌, not, ◌&&◌, List, [], ◌∷◌, Option, none, some, ◌==◌, ltb,
  if◌then◌else◌, Run, ok, ◌>>=◌, ℤ, pos, minus_one, get_or, set, take, drop, replicate,
}
use os_2024_doors.Disk.{Disk}
use os_2024_doors.Fat32.Types.{
  DirectoryEntry, DirectoryTable, zero_entry, Memory, fetch, Request, State, get_fat, in_use,
  same_ext, set_cluster, cluster_size, entry_count, end_of_file, empty_entry, attr_subdirectory,
  uattr_not_empty,
}
use os_2024_doors.Fat32.Layout.{encode_table}
use os_2024_doors.Fat32.Driver.{write_clusters, load_dir, save_dir, save_fat, init_directory_table}
use os_2024_doors.Fat32.Find.{named}

-- What the first loop of `write` finds: an entry with the name and extension, or `first`.
pub data Scan : Type 0 where
  exists : Scan
  slot : ℕ → Scan

-- `i` is the index of the entry at hand; `first` is 0 until an unused entry is met.
unfoldable pub scan_entries : Request → DirectoryTable → ℕ → ℕ → Scan
scan_entries r [] i first = slot first
scan_entries r (e ∷ es) i first =
    let rest = scan_entries r es (i + 1) (if not (in_use e) && (first == 0) then i else first) in
    if named r e && same_ext e r then exists else rest

-- The index from `i` on of the first empty entry of the map.
unfoldable pub find_empty : List ℕ → ℕ → Option ℕ
find_empty [] i = none
find_empty (c ∷ cs) i =
    let rest = find_empty cs (i + 1) in if c == empty_entry then some i else rest

-- The variables of the loop that stores a file.
pub record Alloc : Type 0 where
  pub map : List ℕ
  pub entry : DirectoryEntry
  pub disk : Disk
  pub idx : ℕ
  pub curr : ℕ

-- The body of the `if` in that loop, at an index `i` of the array.
unfoldable pub take_cluster : Memory → ℕ → Alloc → Alloc
take_cluster buf i a = record {
  map = if a.curr == 0 then a.map else set a.map a.curr i;
  entry = if a.curr == 0 then set_cluster (record a.entry { attribute = 0 }) i else a.entry;
  disk = write_clusters a.disk (fetch buf (a.idx * cluster_size) cluster_size) i 1;
  idx = (a.idx + 1) % 2 ^ 16;
  curr = i;
}

unfoldable pub alloc_step : Memory → ℕ → Alloc → Alloc
alloc_step buf i a = if get_or a.map i end_of_file == empty_entry then take_cluster buf i a else a

-- `for (i; i < CLUSTER_MAP_SIZE && idx < num_of_cluster; i++)`, by the rounds left.
unfoldable pub alloc_loop : ℕ → ℕ → ℕ → Memory → Alloc → Alloc
alloc_loop zero i num buf a = a
alloc_loop (suc n) i num buf a =
    let next = alloc_loop n (i + 1) num buf (alloc_step buf i a) in
    if ltb a.idx num then next else a

-- `num_of_cluster` is a uint16_t.
unfoldable pub num_of_cluster : ℕ → ℕ
num_of_cluster size = (size / cluster_size + (if size % cluster_size == 0 then 0 else 1)) % 2 ^ 16

-- The two writes that end `write`.
unfoldable pub commit : State → ℕ → State
commit s parent = save_fat (save_dir s parent)

unfoldable pub write_folder : State → Request → ℕ → DirectoryEntry → State
write_folder s r first e = elim (find_empty (drop 3 s.cluster_map) 3) [
  | none ↦ record s { dir_table_buf = set s.dir_table_buf first e }
  | some i ↦
      let e' = set_cluster (record e { attribute = attr_subdirectory }) i in
      let dt =
        init_directory_table (replicate entry_count zero_entry) r.name r.parent_cluster_number in
      let self = set_cluster (get_or dt 0 zero_entry) i in
      record {
        cluster_map = set s.cluster_map i end_of_file;
        dir_table_buf = set s.dir_table_buf first e';
        disk = write_clusters s.disk (encode_table (set dt 0 self)) i 1;
      }
]

unfoldable pub write_file : State → Request → ℕ → DirectoryEntry → State
write_file s r first e =
    let start : Alloc = record {
      map = s.cluster_map;
      entry = e;
      disk = s.disk;
      idx = 0;
      curr = 0;
    } in
    let a = alloc_loop 509 3 (num_of_cluster r.buffer_size) r.buf start in
    record {
      cluster_map = set a.map a.curr end_of_file;
      dir_table_buf = set s.dir_table_buf first a.entry;
      disk = a.disk;
    }

-- The unused entry with its size, mark, name and extension.
unfoldable pub new_entry : DirectoryTable → ℕ → Request → DirectoryEntry
new_entry t first r = record (get_or t first zero_entry) {
  filesize = r.buffer_size;
  user_attribute = uattr_not_empty;
  name = take 8 r.name;
  ext = take 3 r.ext;
}

unfoldable pub write_entry : State → Request → ℕ → State
write_entry s r first =
    let e = new_entry s.dir_table_buf first r in
    commit (if r.buffer_size == 0 then write_folder s r first e else write_file s r first e)
      r.parent_cluster_number

-- What follows the scan, at the loaded folder.
unfoldable pub write_at : State → Request → Scan → ℤ × State
write_at s r exists = (pos 1, s)
write_at s r (slot first) = if first == 0 then (minus_one, s) else (pos 0, write_entry s r first)

unfoldable pub write : State → Request → Run (ℤ × State)
write s r = get_fat s.cluster_map r.parent_cluster_number >>= λ parent.
    if not (parent == end_of_file)
    then ok (pos 2, s)
    else let s' = load_dir s r.parent_cluster_number in
      ok (write_at s' r (scan_entries r (drop 2 s'.dir_table_buf) 2 0))
