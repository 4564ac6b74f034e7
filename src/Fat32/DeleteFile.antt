-- ===== src/Fat32/DeleteFile.antt =====
-- `delete` of a file, fat32.c: the allocation table, the folder and the clusters after it.
use os_2024_doors.Base.{
  ℕ, ◌+◌, ◌^◌, ◌<◌, ◌≡◌, ◌≢◌, refl, sym, ap, ◌∙◌, true, false, List, [], ◌∷◌, ◌++◌, arith,
  if◌then◌else◌, ok, pos, length, get_or, set, length-set, All-set, drop, All,
}
use mathlib.Core.Path.{subst}
use os_2024_doors.Fat32.Types.{
  DirectoryEntry, DirectoryTable, zero_entry, State, Request, is_directory, cluster_number,
  end_of_file, empty_entry,
}
use os_2024_doors.Fat32.Layout.{encode_table, decode_table, encode_fat, decode_fat}
use os_2024_doors.Fat32.Driver.{read_clusters, write_clusters, load_dir, save_dir, save_fat}
use os_2024_doors.Fat32.Delete.{
  zero_cluster, is_target, remove_entry, delete_entry, delete_entries, delete,
}
use os_2024_doors.Fat32.Clusters.{
  cluster_limit, read_clusters-write_clusters, read_clusters-write_clusters_ne,
}
use os_2024_doors.Fat32.Codec.{
  IsEntry, decode_table-encode_table, length-encode_table, decode_fat-encode_fat, length-encode_fat,
}
use os_2024_doors.Fat32.Decode.{IsDisk, length-decode_table, zero-IsEntry, read_clusters-IsEntry}
use os_2024_doors.Fat32.Chain.{Chain, has}
use os_2024_doors.Fat32.FreeChain.{
  freed_map, freed_disk, free_file-freed, length-freed_map, get_or-freed_map, All-freed_map,
  read_clusters-freed_disk, Chain-InTable,
}
use os_2024_doors.Fat32.ReadChain.{get_fat-ok}

-- The search of `delete` comes to the first entry that is asked for.
delete_entries-first :
    (s : State) (r : Request) (before after : DirectoryTable) (e : DirectoryEntry) (i : ℕ)
    → All (λ x. is_target r x ≡ false) before
    → is_target r e ≡ true
    → delete_entries s r (before ++ e ∷ after) i
      ≡ delete_entry s r.parent_cluster_number e (i + length before)
unfolding delete_entries
delete_entries-first s r [] after e i h hit =
    rw hit (ap (delete_entry s r.parent_cluster_number e) (omega arith))
delete_entries-first s r (x ∷ xs) after e i h hit = rw (h.0) (
    delete_entries-first s r xs after e (i + 1) h.1 hit
    ∙ ap (delete_entry s r.parent_cluster_number e) (omega arith))

-- What the disk holds once the folder at `parent`, with entry `i` cleared, and the allocation table
-- are written.
pub record Removed (s z : State) (parent i : ℕ) : Type 0 where
  pub same_map : z.cluster_map ≡ s.cluster_map
  pub folder :
      decode_table 64 (read_clusters z.disk parent 1)
      ≡ set (decode_table 64 (read_clusters s.disk parent 1)) i zero_entry
  pub fat : decode_fat 512 (read_clusters z.disk 1 1) ≡ s.cluster_map
  pub others :
      (j : ℕ)
      → j < cluster_limit
      → j ≢ parent
      → j ≢ 1
      → read_clusters z.disk j 1 ≡ read_clusters s.disk j 1

module _ (s : State) (parent i : ℕ) (ml : length s.cluster_map ≡ 512)
    (words : All (λ c. c < 2 ^ 32) s.cluster_map) (lt : parent < 512) (ne : parent ≢ 1)
    (entries : All IsEntry
      (set (decode_table 64 (read_clusters s.disk parent 1)) i zero_entry)) where
  abbrev t : DirectoryTable
  t = set (decode_table 64 (read_clusters s.disk parent 1)) i zero_entry

  length-t : length t ≡ 64
  length-t =
      length-set (decode_table 64 (read_clusters s.disk parent 1)) i zero_entry
      ∙ length-decode_table 64 (read_clusters s.disk parent 1)

  remove_entry-Removed : Removed s (remove_entry s parent i) parent i
  unfolding remove_entry save_fat save_dir load_dir
  remove_entry-Removed = record {
    same_map = refl;
    folder =
        ap (decode_table 64) (
          read_clusters-write_clusters_ne (write_clusters s.disk (encode_table t) parent 1)
            (encode_fat s.cluster_map) 1 parent (omega arith) (omega arith) (λ e. ne (sym e))
          ∙ read_clusters-write_clusters s.disk (encode_table t) parent
              (omega (arith, length-encode_table t entries, length-t)))
        ∙ subst (λ n. decode_table n (encode_table t) ≡ t) length-t
            (decode_table-encode_table t entries);
    fat =
        ap (decode_fat 512) (
          read_clusters-write_clusters (write_clusters s.disk (encode_table t) parent 1)
            (encode_fat s.cluster_map) 1 (omega (arith, length-encode_fat s.cluster_map)))
        ∙ subst (λ n. decode_fat n (encode_fat s.cluster_map) ≡ s.cluster_map) ml
            (decode_fat-encode_fat s.cluster_map words);
    others = λ j h nep ne1.
        read_clusters-write_clusters_ne (write_clusters s.disk (encode_table t) parent 1)
          (encode_fat s.cluster_map) 1 j (omega arith) h (λ e. ne1 (sym e))
        ∙ read_clusters-write_clusters_ne s.disk (encode_table t) parent j (omega arith) h
            (λ e. nep (sym e));
  }

-- What `delete` has done with the entry at index `i` of the folder at `parent`, whose clusters are
-- those of the list.
pub record Deleted (s z : State) (parent i : ℕ) (cs : List ℕ) : Type 0 where
  pub freed :
      (j : ℕ)
      → get_or z.cluster_map j 0 ≡ (if has j cs then empty_entry else get_or s.cluster_map j 0)
  pub folder :
      decode_table 64 (read_clusters z.disk parent 1)
      ≡ set (decode_table 64 (read_clusters s.disk parent 1)) i zero_entry
  pub fat : decode_fat 512 (read_clusters z.disk 1 1) ≡ z.cluster_map
  pub clusters :
      (j : ℕ)
      → j < cluster_limit
      → j ≢ parent
      → j ≢ 1
      → read_clusters z.disk j 1 ≡ (if has j cs then zero_cluster else read_clusters s.disk j 1)

-- The file that is asked for: the first entry with the name and extension, with its clusters.
pub record FileAt (s : State) (r : Request) (before : DirectoryTable) (e : DirectoryEntry)
    (after : DirectoryTable) (cs : List ℕ) : Type 0 where
  pub map_length : length s.cluster_map ≡ 512
  pub words : All (λ c. c < 2 ^ 32) s.cluster_map
  pub disk : IsDisk s.disk
  pub parent_lt : r.parent_cluster_number < 512
  pub parent_ne : r.parent_cluster_number ≢ 1
  pub parent_eof : get_or s.cluster_map r.parent_cluster_number 0 ≡ end_of_file
  pub table :
      drop 2 (decode_table 64 (read_clusters s.disk r.parent_cluster_number 1))
      ≡ before ++ e ∷ after
  pub no_earlier : All (λ x. is_target r x ≡ false) before
  pub target : is_target r e ≡ true
  pub file : is_directory e ≡ false
  pub chain : Chain s.cluster_map (cluster_number e) cs
  pub not_parent : has r.parent_cluster_number cs ≡ false
  pub not_fat : has 1 cs ≡ false

module _ {s : State} {r : Request} {before : DirectoryTable} {e : DirectoryEntry}
    {after : DirectoryTable} {cs : List ℕ} (f : FileAt s r before e after cs) where
  abbrev index : ℕ
  index = 2 + length before

  abbrev freed_state : State
  freed_state = record (load_dir s r.parent_cluster_number) {
    cluster_map = freed_map s.cluster_map cs;
    disk = freed_disk s.disk cs;
  }

  abbrev result : State
  result = remove_entry freed_state r.parent_cluster_number index

  freed_cluster :
      (j : ℕ)
      → j < cluster_limit
      → read_clusters (freed_disk s.disk cs) j 1
        ≡ (if has j cs then zero_cluster else read_clusters s.disk j 1)
  freed_cluster j =
      read_clusters-freed_disk s.disk cs j
        (Chain-InTable s.cluster_map (cluster_number e) cs f.map_length f.chain)

  same_folder :
      read_clusters (freed_disk s.disk cs) r.parent_cluster_number 1
      ≡ read_clusters s.disk r.parent_cluster_number 1
  same_folder = freed_cluster r.parent_cluster_number (omega (arith, f.parent_lt)) ∙ rw f.not_parent

  removed : Removed freed_state result r.parent_cluster_number index
  removed =
      remove_entry-Removed freed_state r.parent_cluster_number index
        (length-freed_map s.cluster_map cs ∙ f.map_length)
        (All-freed_map (λ c. c < 2 ^ 32) s.cluster_map cs (omega arith) f.words) f.parent_lt
        f.parent_ne
        (rw same_folder (
          All-set IsEntry (decode_table 64 (read_clusters s.disk r.parent_cluster_number 1)) index
            zero_entry (read_clusters-IsEntry s.disk r.parent_cluster_number f.disk) zero-IsEntry))

  result-Deleted : Deleted s result r.parent_cluster_number index cs
  result-Deleted = record {
    freed = λ j.
        ap (λ m. get_or m j 0) removed.same_map
        ∙ get_or-freed_map s.cluster_map cs j f.map_length
            (Chain-InTable s.cluster_map (cluster_number e) cs f.map_length f.chain);
    folder = removed.folder ∙ ap (λ b. set (decode_table 64 b) index zero_entry) same_folder;
    fat = removed.fat ∙ sym removed.same_map;
    clusters = λ j lt nep ne1. removed.others j lt nep ne1 ∙ freed_cluster j lt;
  }

  delete-result : delete s r ≡ ok (pos 0, result)
  unfolding delete load_dir delete_entry
  delete-result =
      rw
        (
          get_fat-ok s.cluster_map r.parent_cluster_number
              (omega (arith, f.parent_lt, f.map_length)),
          f.parent_eof,
        )
        (rw
          (
            f.table,
            delete_entries-first (load_dir s r.parent_cluster_number) r before after e 2
                f.no_earlier f.target,
          )
          (rw (
            f.file,
            free_file-freed (load_dir s r.parent_cluster_number) (cluster_number e) cs f.map_length
                f.chain,
          )))

-- `delete` of the first entry with the name and the extension, where that is a file whose clusters
-- form a chain that ends and spares its folder and the table, returns 0: exactly the chain's entries
-- of the allocation table become empty, the file's entry in its folder is cleared and the other
-- entries stay, the table on the disk is the one in memory, and of the other clusters on the disk
-- exactly the chain's are cleared.
pub delete-Deleted :
    {s : State} {r : Request} {before : DirectoryTable} {e : DirectoryEntry}
    {after : DirectoryTable} {cs : List ℕ}
    → FileAt s r before e after cs
    → (z : State) × (delete s r ≡ ok (pos 0, z))
      × Deleted s z r.parent_cluster_number (2 + length before) cs
delete-Deleted f = (result f, delete-result f, result-Deleted f)
