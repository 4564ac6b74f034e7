-- ===== src/Fat32/Mount.antt =====
-- The states and requests for which `write` of fat32.c stores a file, and what its code 0 means.
use os_2024_doors.Base.{
  ℕ, ◌*◌, ◌≤◌, ◌<◌, ◌≡◌, ◌≢◌, refl, sym, ap, inl, inr, arith, ◌==◌, Bool-cases, length, get_or,
  drop, ok, pos, All,
}
use os_2024_doors.Fat32.Types.{Request, State, end_of_file, empty_entry, cluster_size}
use os_2024_doors.Fat32.Driver.{load_dir}
use os_2024_doors.Fat32.Write.{Scan, exists, slot, scan_entries, write_entry, write_at, write}
use os_2024_doors.Fat32.Codec.{IsByte}
use os_2024_doors.Fat32.Decode.{IsDisk}
use os_2024_doors.Fat32.Store.{free_from}
use os_2024_doors.Fat32.ReadChain.{get_fat-ok}

-- The table of the driver is mounted: it has its size, cluster 1 is reserved, and the disk is made
-- of sectors of bytes.
pub record Mounted (s : State) : Type 0 where
  pub map_length : length s.cluster_map ≡ 512
  pub reserved : get_or s.cluster_map 1 end_of_file ≢ empty_entry
  pub disk : IsDisk s.disk

-- A request for a file in a directory: its name and extension fill their fields, and there is
-- room for the file.
pub record FileRequest (s : State) (r : Request) : Type 0 where
  pub parent_lt : r.parent_cluster_number < 512
  pub parent_ne : r.parent_cluster_number ≢ 1
  pub name_length : length r.name ≡ 8
  pub name_bytes : All IsByte r.name
  pub ext_length : length r.ext ≡ 3
  pub ext_bytes : All IsByte r.ext
  pub nonempty : 0 < r.buffer_size
  pub room : r.buffer_size ≤ cluster_size * free_from 509 3 s.cluster_map

-- What `write` returned 0 for: a slot was found, and the file was written to it.
pub record Slot (s s' : State) (r : Request) : Type 0 where
  pub first : ℕ
  pub found :
      scan_entries r (drop 2 (load_dir s r.parent_cluster_number).dir_table_buf) 2 0 ≡ slot first
  pub ne_zero : first ≢ 0
  pub written : s' ≡ write_entry (load_dir s r.parent_cluster_number) r first
  pub parent : get_or s.cluster_map r.parent_cluster_number 0 ≡ end_of_file

module _ (s s' : State) (r : Request) where
  write_at-Slot :
      (x : Scan)
      → scan_entries r (drop 2 (load_dir s r.parent_cluster_number).dir_table_buf) 2 0 ≡ x
      → get_or s.cluster_map r.parent_cluster_number 0 ≡ end_of_file
      → write_at (load_dir s r.parent_cluster_number) r x ≡ (pos 0, s')
      → Slot s s' r
  unfolding write_at
  write_at-Slot exists e p h = cc (ap (λ q. q.0) h)
  write_at-Slot (slot f) e p h = elim (Bool-cases (f == 0)) [
    | inl z ↦ cc (ap (λ q. q.0) (rw z at h))
    | inr nz ↦ record {
      first = f;
      found = e;
      ne_zero = ground arith;
      written = ap (λ q. q.1) (sym (rw nz at h));
      parent = p;
    }
  ]

  pub write-Slot :
      r.parent_cluster_number < length s.cluster_map → write s r ≡ ok (pos 0, s') → Slot s s' r
  unfolding write
  write-Slot lt h =
      elim (Bool-cases (get_or s.cluster_map r.parent_cluster_number 0 == end_of_file)) [
        | inl yes' ↦
            write_at-Slot _ refl (ground arith)
              (cc (rw (get_fat-ok s.cluster_map r.parent_cluster_number lt, yes') at h))
        | inr no' ↦
            absurd
              (ground (arith, rw (get_fat-ok s.cluster_map r.parent_cluster_number lt, no') at h))
      ]
