-- ===== src/Fat32/Delete.antt =====
-- fat32.c: `delete`, `rec_delete` and `delete_folder_rec`.
use os_2024_doors.Base.{
  ℕ, zero, suc, ◌+◌, Bool, not, ◌&&◌, ◌||◌, false, List, [], ◌∷◌, ◌==◌, if◌then◌else◌, Run, ok,
  out_of_fuel, ◌>>=◌, ℤ, pos, minus_one, get_or, set, drop, replicate,
}
use os_2024_doors.Disk.{Disk}
use os_2024_doors.Fat32.Types.{
  DirectoryEntry, DirectoryTable, zero_entry, Request, State, get_fat, set_fat, in_use,
  is_directory, same_ext, cluster_number, cluster_size, entry_count, end_of_file, empty_entry,
}
use os_2024_doors.Fat32.Layout.{decode_table}
use os_2024_doors.Fat32.Driver.{read_clusters, write_clusters, load_dir, save_dir, save_fat}
use os_2024_doors.Fat32.Find.{chain_fuel, named}

-- The buffer `b` that both functions fill with zeros.
unfoldable pub zero_cluster : List ℕ
zero_cluster = replicate cluster_size 0

-- The loop that clears a file's clusters and gives them back.
unfoldable pub free_chain : ℕ → List ℕ → Disk → ℕ → Run (List ℕ × Disk)
free_chain zero map d c = out_of_fuel
free_chain (suc fuel) map d c =
    let step = get_fat map c >>= λ next. set_fat map c empty_entry >>= λ map'.
    free_chain fuel map' (write_clusters d zero_cluster c 1) next in
    if c == end_of_file then ok (map, d) else step

-- Is any of the entries in use?
unfoldable pub any_in_use : DirectoryTable → Bool
any_in_use [] = false
any_in_use (e ∷ es) = in_use e || any_in_use es

-- The entries from the second on of the folder at `cluster`.
unfoldable pub folder_entries : Disk → ℕ → DirectoryTable
folder_entries d cluster = drop 2 (decode_table entry_count (read_clusters d cluster 1))

-- Clear one cluster and its map entry.
unfoldable pub free_cluster : State → ℕ → Run State
free_cluster s c = set_fat s.cluster_map c empty_entry >>= λ map.
    ok (record s { cluster_map = map; disk = write_clusters s.disk zero_cluster c 1 })

unfoldable pub free_file : State → ℕ → Run State
free_file s c = free_chain chain_fuel s.cluster_map s.disk c >>= λ (map, d).
    ok (record s { cluster_map = map; disk = d })

-- Reload the folder, clear entry `i`, and write the folder and the map.
unfoldable pub remove_entry : State → ℕ → ℕ → State
remove_entry s parent i =
    let t = load_dir s parent in
    save_fat (save_dir (record t { dir_table_buf = set t.dir_table_buf i zero_entry }) parent)

-- What `delete` does at the entry `e` with index `i`.
unfoldable pub delete_entry : State → ℕ → DirectoryEntry → ℕ → Run (ℤ × State)
delete_entry s parent e i =
    let c = cluster_number e in
    if is_directory e
    then (if any_in_use (folder_entries s.disk c)
        then ok (pos 2, s)
        else free_cluster s c >>= λ s'. ok (pos 0, remove_entry s' parent i))
    else free_file s c >>= λ s'. ok (pos 0, remove_entry s' parent i)

-- An entry in use with the name and the extension that are asked for.
abbrev pub is_target : Request → DirectoryEntry → Bool
is_target r e = named r e && same_ext e r

unfoldable pub delete_entries : State → Request → DirectoryTable → ℕ → Run (ℤ × State)
delete_entries s r [] i = ok (pos 1, s)
delete_entries s r (e ∷ es) i =
    let rest = delete_entries s r es (i + 1) in
    if is_target r e then delete_entry s r.parent_cluster_number e i else rest

unfoldable pub delete : State → Request → Run (ℤ × State)
delete s r = get_fat s.cluster_map r.parent_cluster_number >>= λ parent.
    if not (parent == end_of_file)
    then ok (minus_one, s)
    else let s' = load_dir s r.parent_cluster_number in
      delete_entries s' r (drop 2 s'.dir_table_buf) 2

-- The loop of `rec_delete` over the entries from `i` on, by the rounds left; `descend` is the
-- recursive call. The directory buffer is loaded again after each.
unfoldable pub rec_loop : (State → ℕ → Run State) → ℕ → ℕ → ℕ → State → Run State
rec_loop descend zero i dir s = ok s
rec_loop descend (suc n) i dir s =
    let e = get_or s.dir_table_buf i zero_entry in
    let c = cluster_number e in
    let body : Run State =
      if not (in_use e)
      then ok s
      else if is_directory e
      then (descend s c >>= λ s'. ok (load_dir s' dir))
      else free_file s c in
    body >>= λ s'. rec_loop descend n (i + 1) dir s'

-- By the depth that the folders may have.
unfoldable pub rec_delete : ℕ → State → ℕ → Run State
rec_delete zero s dir = out_of_fuel
rec_delete (suc depth) s dir =
    rec_loop (λ s' c. rec_delete depth s' c) 62 2 dir (load_dir s dir) >>= λ s'. free_cluster s' dir

unfoldable pub delete_folder_entries :
    ℕ → State → Request → DirectoryTable → ℕ → ℤ → Run (ℤ × State)
delete_folder_entries depth s r [] i code = ok (code, s)
delete_folder_entries depth s r (e ∷ es) i code =
    let rest = delete_folder_entries depth s r es (i + 1) (if is_target r e then pos 1 else code) in
    let hit = rec_delete depth s (cluster_number e) >>= λ s'.
    ok (pos 0, remove_entry s' r.parent_cluster_number i) in
    if is_target r e && is_directory e then hit else rest

unfoldable pub delete_folder_rec : ℕ → State → Request → Run (ℤ × State)
delete_folder_rec depth s r = get_fat s.cluster_map r.parent_cluster_number >>= λ parent.
    if not (parent == end_of_file)
    then ok (minus_one, s)
    else let s' = load_dir s r.parent_cluster_number in
      delete_folder_entries depth s' r (drop 2 s'.dir_table_buf) 2 (pos 2)
