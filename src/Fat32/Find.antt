-- ===== src/Fat32/Find.antt =====
-- fat32.c: the operations that read: `read_directory`, `read`, `search_file`, `get_cluster_number`.
use os_2024_doors.Base.{
  ℕ, zero, suc, ◌+◌, ◌*◌, Bool, not, ◌&&◌, List, [], ◌∷◌, ◌==◌, ltb, if◌then◌else◌, Run, ok,
  out_of_fuel, ◌>>=◌, ℤ, pos, minus_one, drop,
}
use os_2024_doors.Disk.{Disk}
use os_2024_doors.Fat32.Types.{
  DirectoryEntry, DirectoryTable, Memory, store, Request, State, get_fat, in_use, is_directory,
  same_name, same_ext, cluster_number, cluster_size, end_of_file,
}
use os_2024_doors.Fat32.Driver.{read_clusters, load_dir}

-- One round for each cluster of a chain that does not repeat, and one for its end.
abbrev pub chain_fuel : ℕ
chain_fuel = 513

-- The loop `while (cluster_number != FAT32_FAT_END_OF_FILE)` that reads a file's clusters.
unfoldable pub read_chain : ℕ → List ℕ → Disk → ℕ → ℕ → Memory → Run Memory
read_chain zero map d c idx m = out_of_fuel
read_chain (suc fuel) map d c idx m =
    let step = get_fat map c >>= λ next.
    read_chain fuel map d next (idx + 1) (store m (cluster_size * idx) (read_clusters d c 1)) in
    if c == end_of_file then ok m else step

-- An entry in use with the name that is asked for.
abbrev pub named : Request → DirectoryEntry → Bool
named r e = in_use e && same_name e r

-- A file in use with the name and the extension that are asked for.
abbrev pub is_file : Request → DirectoryEntry → Bool
is_file r e = named r e && (not (is_directory e) && same_ext e r)

-- A folder in use with the name that is asked for.
abbrev pub is_folder : Request → DirectoryEntry → Bool
is_folder r e = named r e && is_directory e

unfoldable pub read_directory_entries : Request → Disk → DirectoryTable → ℤ → ℤ × Memory
read_directory_entries r d [] code = (code, r.buf)
read_directory_entries r d (e ∷ es) code =
    let rest = read_directory_entries r d es (if named r e then pos 1 else code) in
    if is_folder r e then (pos 0, store r.buf 0 (read_clusters d (cluster_number e) 1)) else rest

unfoldable pub read_directory : State → Request → Run (ℤ × State × Memory)
read_directory s r = get_fat s.cluster_map r.parent_cluster_number >>= λ parent.
    if not (parent == end_of_file)
    then ok (minus_one, s, r.buf)
    else if not (r.buffer_size == cluster_size)
    then ok (minus_one, s, r.buf)
    else let s' = load_dir s r.parent_cluster_number in
      let (code, m) = read_directory_entries r s'.disk (drop 1 s'.dir_table_buf) (pos 2) in
      ok (code, s', m)

-- The body of the hit: the size test and the chain.
unfoldable pub read_file : Request → List ℕ → Disk → DirectoryEntry → Run (ℤ × Memory)
read_file r map d e =
    if ltb r.buffer_size e.filesize
    then ok (minus_one, r.buf)
    else read_chain chain_fuel map d (cluster_number e) 0 r.buf >>= λ m. ok (pos 0, m)

unfoldable pub read_entries : Request → List ℕ → Disk → DirectoryTable → ℤ → Run (ℤ × Memory)
read_entries r map d [] code = ok (code, r.buf)
read_entries r map d (e ∷ es) code =
    let rest = read_entries r map d es (if is_folder r e then pos 1 else code) in
    if is_file r e then read_file r map d e else rest

unfoldable pub read : State → Request → Run (ℤ × State × Memory)
read s r = get_fat s.cluster_map r.parent_cluster_number >>= λ parent.
    if not (parent == end_of_file)
    then ok (minus_one, s, r.buf)
    else let s' = load_dir s r.parent_cluster_number in
      read_entries r s'.cluster_map s'.disk (drop 2 s'.dir_table_buf) (pos 2) >>= λ (code, m).
      ok (code, s', m)

unfoldable pub search_entries : Request → DirectoryTable → ℤ → ℤ
search_entries r [] code = code
search_entries r (e ∷ es) code =
    let rest = search_entries r es (if named r e then pos 1 else code) in
    if is_file r e then pos 0 else rest

unfoldable pub search_file : State → Request → Run (ℤ × State)
search_file s r = get_fat s.cluster_map r.parent_cluster_number >>= λ parent.
    if not (parent == end_of_file)
    then ok (minus_one, s)
    else let s' = load_dir s r.parent_cluster_number in
      ok (search_entries r (drop 2 s'.dir_table_buf) (pos 2), s')

unfoldable pub cluster_entries : Request → DirectoryTable → ℕ
cluster_entries r [] = 0
cluster_entries r (e ∷ es) =
    let rest = cluster_entries r es in if is_folder r e then cluster_number e else rest

unfoldable pub get_cluster_number : State → Request → Run (ℕ × State)
get_cluster_number s r = get_fat s.cluster_map r.parent_cluster_number >>= λ parent.
    if not (parent == end_of_file)
    then ok (0, s)
    else let s' = load_dir s r.parent_cluster_number in
      ok (cluster_entries r (drop 2 s'.dir_table_buf), s')
