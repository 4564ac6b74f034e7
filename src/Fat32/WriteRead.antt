-- ===== src/Fat32/WriteRead.antt =====
-- `read` of a file after `write`, fat32.c.
use os_2024_doors.Base.{
  All-set, All-get_or, ℕ, ◌-◌, ◌≤◌, ◌<◌, ◌≡◌, refl, sym, ap, ◌∙◌, true, false, List, ◌∷◌, arith,
  ◌==◌, ltb, length, get_or, get_or_default, set, length-set, drop, length-drop, ok, ◌>>=◌, pos,
  All, length-take_of_le,
}
use mathlib.Core.Path.{subst}
use os_2024_doors.Disk.{Disk}
use os_2024_doors.Fat32.Types.{
  DirectoryEntry, DirectoryTable, zero_entry, Memory, Request, State, cluster_number, end_of_file,
}
use os_2024_doors.Fat32.Layout.{encode_table, decode_table, encode_fat}
use os_2024_doors.Fat32.Driver.{read_clusters, write_clusters, load_dir, save_dir, save_fat}
use os_2024_doors.Fat32.Find.{is_file, read, read_file, chain_fuel}
use os_2024_doors.Fat32.Write.{
  Alloc, num_of_cluster, alloc_loop, new_entry, write_file, write_entry, write, commit,
}
use os_2024_doors.Fat32.Clusters.{read_clusters-write_clusters, read_clusters-write_clusters_ne}
use os_2024_doors.Fat32.Codec.{IsEntry, decode_table-encode_table, length-encode_table}
use os_2024_doors.Fat32.Decode.{All-take, length-decode_table, read_clusters-IsEntry}
use os_2024_doors.Fat32.Chain.{Chain, has}
use os_2024_doors.Fat32.Store.{closed, Holds}
use os_2024_doors.Fat32.Placement.{
  Placement, start, alloc_loop-Placement, has_of_Free, Holds-write, free_from-le,
}
use os_2024_doors.Fat32.ReadChain.{loaded, get_fat-ok, read_chain-loaded, loaded-Holds}
use os_2024_doors.Fat32.Mount.{Mounted, FileRequest, Slot, write-Slot}
use os_2024_doors.Fat32.Scan.{
  memcmp-take, scan_entries-none, scan_entries-range, drop-set, read_entries-set, not-is_file,
}

-- A file that is large enough for the buffer, on a chain.
read_file-loaded :
    (r : Request) (map : List ℕ) (d : Disk) (e : DirectoryEntry) (c : ℕ) (cs : List ℕ)
    → ltb r.buffer_size e.filesize ≡ false
    → cluster_number e ≡ c
    → length map ≡ 512
    → Chain map c cs
    → length cs ≤ 509
    → read_file r map d e ≡ ok (pos 0, loaded d 0 cs r.buf)
unfolding read_file
read_file-loaded r map d e c cs small ec ml ch few =
    rw (small, ec, read_chain-loaded chain_fuel map d c 0 r.buf cs ml ch (omega arith))

-- `read` in a directory where the file stands at index `f` and nowhere else.
read-entry :
    (s : State) (r : Request) (t : DirectoryTable) (f : ℕ) (e : DirectoryEntry)
    → r.parent_cluster_number < length s.cluster_map
    → get_or s.cluster_map r.parent_cluster_number 0 ≡ end_of_file
    → decode_table 64 (read_clusters s.disk r.parent_cluster_number 1) ≡ set t f e
    → 2 ≤ f
    → f - 2 < length (drop 2 t)
    → All (λ x. is_file r x ≡ false) (drop 2 t)
    → is_file r e ≡ true
    → read s r ≡ (
        read_file r s.cluster_map s.disk e >>= λ (code, m).
        ok (code, load_dir s r.parent_cluster_number, m))
unfolding read load_dir
read-entry s r t f e lt eof folder ge range others hit =
    rw (get_fat-ok s.cluster_map r.parent_cluster_number lt, eof)
      (rw (folder, drop-set t f e ge)
        (rw
          (read_entries-set r s.cluster_map s.disk (drop 2 t) (f - 2) e (pos 2) others range hit)))

module _ {s s' : State} {r : Request} (mt : Mounted s) (fr : FileRequest s r)
    (sl : Slot s s' r) where
  abbrev folder : DirectoryTable
  folder = decode_table 64 (read_clusters s.disk r.parent_cluster_number 1)

  abbrev entry : DirectoryEntry
  entry = new_entry folder sl.first r

  abbrev end : Alloc
  end = alloc_loop 509 3 (num_of_cluster r.buffer_size) r.buf (start s.cluster_map entry s.disk)

  placement : Placement s.cluster_map entry s.disk r.buf r.buffer_size end
  placement =
      alloc_loop-Placement s.cluster_map entry s.disk r.buf r.buffer_size mt.map_length fr.nonempty
        fr.room

  abbrev final : State
  final =
      commit
        (record {
          cluster_map = closed end;
          dir_table_buf = set folder sl.first end.entry;
          disk = end.disk;
        })
        r.parent_cluster_number

  s'-final : s' ≡ final
  unfolding write_entry write_file load_dir
  s'-final = sl.written ∙ rw nonzero
    where
      nonzero : (r.buffer_size == 0) ≡ false
      nonzero = ground (arith, fr.nonempty)

  slot_range : (2 ≤ sl.first) × (sl.first < 64)
  unfolding load_dir decode_table
  slot_range = omega (
    arith,
    scan_entries-range r (drop 2 folder) 2 sl.first (omega arith) sl.found sl.ne_zero,
    length-drop 2 folder,
    length-decode_table 64 (read_clusters s.disk r.parent_cluster_number 1),
  )

  entry-IsEntry : IsEntry entry
  unfolding new_entry
  entry-IsEntry = record {
    name_length = length-take_of_le 8 r.name (omega (arith, fr.name_length));
    name_bytes = All-take 8 r.name fr.name_bytes;
    ext_length = length-take_of_le 3 r.ext (omega (arith, fr.ext_length));
    ext_bytes = All-take 3 r.ext fr.ext_bytes;
    attribute_byte = b.attribute_byte;
    user_attribute_byte = omega arith;
    undelete_byte = b.undelete_byte;
    create_time_word = b.create_time_word;
    create_date_word = b.create_date_word;
    access_date_word = b.access_date_word;
    cluster_high_word = b.cluster_high_word;
    modified_time_word = b.modified_time_word;
    modified_date_word = b.modified_date_word;
    cluster_low_word = b.cluster_low_word;
    filesize_word = omega (arith, fr.room, free_from-le 509 3 s.cluster_map);
  }
    where
      b : IsEntry (get_or folder sl.first zero_entry)
      b =
          All-get_or IsEntry folder sl.first zero_entry
            (read_clusters-IsEntry s.disk r.parent_cluster_number mt.disk)
            (omega (
              arith,
              slot_range,
              length-decode_table 64 (read_clusters s.disk r.parent_cluster_number 1),
            ))

  placed-IsEntry : IsEntry end.entry
  placed-IsEntry = subst IsEntry (sym placement.entry) (record {
    name_length = v.name_length;
    name_bytes = v.name_bytes;
    ext_length = v.ext_length;
    ext_bytes = v.ext_bytes;
    attribute_byte = omega arith;
    user_attribute_byte = v.user_attribute_byte;
    undelete_byte = v.undelete_byte;
    create_time_word = v.create_time_word;
    create_date_word = v.create_date_word;
    access_date_word = v.access_date_word;
    cluster_high_word = omega arith;
    modified_time_word = v.modified_time_word;
    modified_date_word = v.modified_date_word;
    cluster_low_word = omega arith;
    filesize_word = v.filesize_word;
  })
    where
      v : IsEntry entry
      v = entry-IsEntry

  abbrev table : DirectoryTable
  table = set folder sl.first end.entry

  table-IsEntry : All IsEntry table
  table-IsEntry =
      All-set IsEntry folder sl.first end.entry
        (read_clusters-IsEntry s.disk r.parent_cluster_number mt.disk) placed-IsEntry

  length-table : length table ≡ 64
  length-table =
      length-set folder sl.first end.entry
      ∙ length-decode_table 64 (read_clusters s.disk r.parent_cluster_number 1)

  abbrev clusters : List ℕ
  clusters = placement.first ∷ placement.others

  not_parent : has r.parent_cluster_number clusters ≡ false
  not_parent = has_of_Free s.cluster_map r.parent_cluster_number clusters placement.free (
      omega (
        arith,
        sl.parent,
        get_or_default s.cluster_map r.parent_cluster_number 0 end_of_file
            (omega (arith, mt.map_length, fr.parent_lt)),
      ))

  not_fat : has 1 clusters ≡ false
  not_fat = has_of_Free s.cluster_map 1 clusters placement.free mt.reserved

  -- The folder on the disk is the table with the new entry.
  final_folder : decode_table 64 (read_clusters final.disk r.parent_cluster_number 1) ≡ table
  unfolding commit save_dir save_fat
  final_folder =
      ap (decode_table 64) (
        read_clusters-write_clusters_ne
          (write_clusters end.disk (encode_table table) r.parent_cluster_number 1)
          (encode_fat (closed end)) 1 r.parent_cluster_number (omega arith)
          (omega (arith, fr.parent_lt)) (λ e. fr.parent_ne (sym e))
        ∙ read_clusters-write_clusters end.disk (encode_table table) r.parent_cluster_number
            (omega (arith, length-encode_table table table-IsEntry, length-table)))
      ∙ subst (λ n. decode_table n (encode_table table) ≡ table) length-table
          (decode_table-encode_table table table-IsEntry)

  final-Holds : Holds final.disk r.buf 0 clusters
  unfolding commit save_dir save_fat
  final-Holds =
      Holds-write (write_clusters end.disk (encode_table table) r.parent_cluster_number 1) r.buf
        (encode_fat (closed end)) 1 0 3 clusters placement.range (omega arith) not_fat
        (Holds-write end.disk r.buf (encode_table table) r.parent_cluster_number 0 3 clusters
          placement.range fr.parent_lt not_parent placement.holds)

  final_parent : get_or (closed end) r.parent_cluster_number 0 ≡ end_of_file
  final_parent = placement.other_entries r.parent_cluster_number not_parent ∙ sl.parent

  module _ (b : Memory) (n : ℕ) (fits : r.buffer_size ≤ n) where
    abbrev request : Request
    request = record r { buf = b; buffer_size = n }

    is_file-end : is_file request end.entry ≡ true
    unfolding new_entry
    is_file-end = rw placement.entry (rw (memcmp-take 8 r.name, memcmp-take 3 r.ext))

    filesize-end : end.entry.filesize ≡ r.buffer_size
    unfolding new_entry
    filesize-end = ap (λ e. e.filesize) placement.entry

    cluster_number-end : cluster_number end.entry ≡ placement.first
    cluster_number-end = ap cluster_number placement.entry ∙ omega (arith, placement.range.0)

    read_file-end :
        read_file request (closed end) final.disk end.entry
        ≡ ok (pos 0, loaded final.disk 0 clusters b)
    read_file-end =
        read_file-loaded request (closed end) final.disk end.entry placement.first clusters
          (ground (arith, filesize-end)) cluster_number-end placement.closed_length placement.chain
          placement.few

    map-final : final.cluster_map ≡ closed end
    unfolding commit save_dir save_fat
    map-final = refl

    not_files : All (λ e. is_file request e ≡ false) (drop 2 folder)
    unfolding load_dir
    not_files =
        not-is_file request (drop 2 folder)
          (scan_entries-none r (drop 2 folder) 2 0 sl.first sl.found)

    read-final :
        read final request
        ≡ ok (pos 0, load_dir final r.parent_cluster_number, loaded final.disk 0 clusters b)
    read-final =
        read-entry final request folder sl.first end.entry
          (omega (arith, fr.parent_lt, placement.closed_length, ap length map-final))
          (ap (λ m. get_or m r.parent_cluster_number 0) map-final ∙ final_parent) final_folder
          slot_range.0
          (omega (
            arith,
            slot_range,
            length-drop 2 folder,
            length-decode_table 64 (read_clusters s.disk r.parent_cluster_number 1),
          ))
          not_files is_file-end
        ∙ rw map-final (rw read_file-end)

    loaded-final : (o : ℕ) → o < r.buffer_size → loaded final.disk 0 clusters b o ≡ r.buf o
    loaded-final o lt =
        loaded-Holds final.disk r.buf 0 clusters b o final-Holds (omega (arith, placement.total))
        ∙ ground arith

-- After `write` has returned 0 for a file in a mounted directory with room for it, `read` with the
-- same name, extension and directory and a buffer that is large enough returns 0, and the first
-- `buffer_size` bytes of the buffer are those that were written.
pub read-write :
    {s s' : State} {r : Request} (b : Memory) (n : ℕ)
    → Mounted s
    → FileRequest s r
    → write s r ≡ ok (pos 0, s')
    → r.buffer_size ≤ n
    → (m : Memory) × (read s' (record r { buf = b; buffer_size = n })
        ≡ ok (pos 0, load_dir s' r.parent_cluster_number, m))
      × ((o : ℕ) → o < r.buffer_size → m o ≡ r.buf o)
read-write {s} {s'} {r} b n mt fr w fits = rw (s'-final mt fr sl) (
  loaded (final mt fr sl).disk 0 (clusters mt fr sl) b,
  read-final mt fr sl b n fits,
  loaded-final mt fr sl b n fits,
)
  where
    sl : Slot s s' r
    sl = write-Slot s s' r (omega (arith, mt.map_length, fr.parent_lt)) w
