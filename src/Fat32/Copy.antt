-- ===== src/Fat32/Copy.antt =====
-- fat32.c: `copy_folder` and `copy_file`. The clusters of a file are collected in an array on the
-- stack, whose first contents are the argument `uninit`.
use os_2024_doors.Base.{
  ℕ, zero, suc, ◌+◌, not, [], ◌∷◌, ◌==◌, if◌then◌else◌, Run, ok, out_of_fuel, ◌>>=◌, ℤ, pos,
  minus_one, Option, none, some, get_or, take, drop,
}
use os_2024_doors.Fat32.Types.{
  DirectoryEntry, DirectoryTable, zero_entry, Memory, Request, State, get_fat, in_use, is_directory,
  cluster_number, end_of_file,
}
use os_2024_doors.Fat32.Driver.{load_dir}
use os_2024_doors.Fat32.Find.{chain_fuel, read_chain, is_file, get_cluster_number}
use os_2024_doors.Fat32.Write.{write}
use os_2024_doors.Fat32.Delete.{delete}

-- The folder case: create the folder, look its cluster up, copy into it.
unfoldable pub copy_subfolder :
    (State → ℕ → ℕ → Run (ℤ × State)) → Memory → State → ℕ → DirectoryEntry → Run State
copy_subfolder descend uninit s dest_cluster e =
    let req : Request = record {
      buf = uninit;
      name = take 8 e.name;
      ext = 0 ∷ 0 ∷ 0 ∷ [];
      parent_cluster_number = dest_cluster;
      buffer_size = 0;
    } in
    write s req >>= λ (_, s1). get_cluster_number s1 req >>= λ (curr_dest_cluster, s2).
    descend s2 (cluster_number e) curr_dest_cluster >>= λ (_, s3). ok s3

-- The file case: read the source's chain, and write a file of the same name.
unfoldable pub copy_one_file : Memory → State → ℕ → DirectoryEntry → Run State
copy_one_file uninit s dest_cluster e =
    read_chain chain_fuel s.cluster_map s.disk (cluster_number e) 0 uninit >>= λ buf.
    write s (record {
      buf = buf;
      name = take 8 e.name;
      ext = take 3 e.ext;
      parent_cluster_number = dest_cluster;
      buffer_size = e.filesize;
    })
    >>= λ (_, s'). ok s'

-- The loop over the entries from `i` on, by the rounds left; the source directory is loaded again
-- after each copy.
unfoldable pub copy_loop :
    (State → ℕ → ℕ → Run (ℤ × State)) → Memory → ℕ → ℕ → ℕ → ℕ → State → Run State
copy_loop descend uninit zero i src_cluster dest_cluster s = ok s
copy_loop descend uninit (suc n) i src_cluster dest_cluster s =
    let e = get_or s.dir_table_buf i zero_entry in
    let copied : Run State =
      if is_directory e
      then copy_subfolder descend uninit s dest_cluster e
      else copy_one_file uninit s dest_cluster e in
    let body : Run State =
      if not (in_use e) then ok s else copied >>= λ s'. ok (load_dir s' src_cluster) in
    body >>= λ s'. copy_loop descend uninit n (i + 1) src_cluster dest_cluster s'

-- By the depth that the folders may have.
unfoldable pub copy_folder : Memory → ℕ → State → ℕ → ℕ → Run (ℤ × State)
copy_folder uninit zero s src_cluster dest_cluster = out_of_fuel
copy_folder uninit (suc depth) s src_cluster dest_cluster =
    get_fat s.cluster_map src_cluster >>= λ parent.
    let loop =
      copy_loop (λ s' a b. copy_folder uninit depth s' a b) uninit 62 2 src_cluster dest_cluster
        (load_dir s src_cluster) in
    if not (parent == end_of_file) then ok (minus_one, s) else loop >>= λ s'. ok (pos 0, s')

-- The first entry that is the file asked for.
unfoldable pub find_file : Request → DirectoryTable → Option DirectoryEntry
find_file r [] = none
find_file r (e ∷ es) = let rest = find_file r es in if is_file r e then some e else rest

-- What follows once the source is read: the destination is deleted if it is there, and written.
unfoldable pub copy_to : State → Request → Memory → ℕ → Run (ℤ × State)
copy_to s dest buf filesize =
    let s' = load_dir s dest.parent_cluster_number in
    let req = record dest {
      buf = buf;
      name = take 8 dest.name;
      ext = take 3 dest.ext;
      buffer_size = filesize;
    } in
    elim (find_file dest (drop 2 s'.dir_table_buf)) [
      | none ↦ write s' req
      | some _ ↦ delete s' req >>= λ (_, s''). write s'' req
    ]

-- A source entry with cluster number 0 is taken as not found.
unfoldable pub copy_file : Memory → State → Request → Request → Run (ℤ × State)
copy_file uninit s src dest = get_fat s.cluster_map src.parent_cluster_number >>= λ parent.
    if not (parent == end_of_file)
    then ok (minus_one, s)
    else let s' = load_dir s src.parent_cluster_number in
      elim (find_file src (drop 2 s'.dir_table_buf)) [
        | none ↦ ok (pos 1, s')
        | some e ↦
            if cluster_number e == 0
            then ok (pos 1, s')
            else read_chain chain_fuel s'.cluster_map s'.disk (cluster_number e) 0 uninit >>= λ buf.
                copy_to s' dest buf e.filesize
      ]
