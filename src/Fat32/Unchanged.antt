-- ===== src/Fat32/Unchanged.antt =====
-- The allocation table and the disk under the failing operations of fat32.c.
use os_2024_doors.Base.{
  ℕ, ◌≡◌, ◌≢◌, refl, sym, ap, inl, inr, [], ◌∷◌, ◌==◌, Bool-cases, ok, >>=-eq-ok, ok-injective, ◌+◌,
  ℤ, pos,
}
use os_2024_doors.Fat32.Types.{
  DirectoryEntry, DirectoryTable, State, Request, get_fat, end_of_file, cluster_number,
  is_directory,
}
use os_2024_doors.Fat32.Driver.{load_dir}
use os_2024_doors.Fat32.Write.{Scan, exists, slot, write_at, write}
use os_2024_doors.Fat32.Delete.{
  is_target, any_in_use, folder_entries, free_cluster, free_file, delete_entry, delete_entries,
  delete,
}

-- The allocation table and the disk are the same.
pub record SameStore (s z : State) : Type 0 where
  pub map : z.cluster_map ≡ s.cluster_map
  pub disk : z.disk ≡ s.disk

load_dir-SameStore : (s : State) (c : ℕ) → SameStore s (load_dir s c)
unfolding load_dir
load_dir-SameStore s c = record { map = refl; disk = refl }

write_at-SameStore :
    (s z : State) (r : Request) (x : Scan) (code : ℤ)
    → write_at s r x ≡ (code, z)
    → code ≢ pos 0
    → SameStore s z
unfolding write_at
write_at-SameStore s z r exists code h ne =
    let e = ap (λ q. q.1) h in rw (← e) (record { map = refl; disk = refl })
write_at-SameStore s z r (slot f) code h ne = elim (Bool-cases (f == 0)) [
  | inl none ↦ let e = ap (λ q. q.1) (rw none at h) in rw (← e) (record { map = refl; disk = refl })
  | inr some ↦ absurd (ne (sym (ap (λ q. q.0) (rw some at h))))
]

-- `write` that returns another code than 0 leaves the allocation table and the disk as they were.
pub write-SameStore :
    {s z : State} (r : Request) {code : ℤ} → write s r ≡ ok (code, z) → code ≢ pos 0 → SameStore s z
unfolding write load_dir
write-SameStore {s} {z} r {code} h ne =
    let (parent, _, body) = >>=-eq-ok (get_fat s.cluster_map r.parent_cluster_number) _ h in
    elim (Bool-cases (parent == end_of_file)) [
      | inl eof ↦
          let x =
            write_at-SameStore (load_dir s r.parent_cluster_number) z r _ code
              (ok-injective (rw eof at body)) ne in
          record { map = x.map; disk = x.disk }
      | inr other ↦
          let e = ap (λ q. q.1) (ok-injective (rw other at body)) in
          rw (← e) (record { map = refl; disk = refl })
    ]

delete_entry-SameStore :
    (s z : State) (p : ℕ) (e : DirectoryEntry) (i : ℕ) (code : ℤ)
    → delete_entry s p e i ≡ ok (code, z)
    → code ≢ pos 0
    → SameStore s z
unfolding delete_entry
delete_entry-SameStore s z p e i code h ne = elim (Bool-cases (is_directory e)) [
  | inl dir ↦ elim (Bool-cases (any_in_use (folder_entries s.disk (cluster_number e)))) [
    | inl full ↦
        let q = ap (λ q. q.1) (ok-injective (rw (dir, full) at h)) in
        rw (← q) (record { map = refl; disk = refl })
    | inr empty ↦
        let (_, _, k) = >>=-eq-ok (free_cluster s (cluster_number e)) _ (rw (dir, empty) at h) in
        absurd (ne (sym (ap (λ q. q.0) (ok-injective k))))
  ]
  | inr file ↦
      let (_, _, k) = >>=-eq-ok (free_file s (cluster_number e)) _ (rw file at h) in
      absurd (ne (sym (ap (λ q. q.0) (ok-injective k))))
]

delete_entries-SameStore :
    (s z : State) (r : Request) (es : DirectoryTable) (i : ℕ) (code : ℤ)
    → delete_entries s r es i ≡ ok (code, z)
    → code ≢ pos 0
    → SameStore s z
unfolding delete_entries
delete_entries-SameStore s z r [] i code h ne =
    let q = ap (λ q. q.1) (ok-injective h) in rw (← q) (record { map = refl; disk = refl })
delete_entries-SameStore s z r (e ∷ es) i code h ne = elim (Bool-cases (is_target r e)) [
  | inl hit ↦ delete_entry-SameStore s z r.parent_cluster_number e i code (rw hit at h) ne
  | inr miss ↦ delete_entries-SameStore s z r es (i + 1) code (rw miss at h) ne
]

-- `delete` that returns another code than 0 leaves the allocation table and the disk as they were.
pub delete-SameStore :
    {s z : State} (r : Request) {code : ℤ}
    → delete s r ≡ ok (code, z)
    → code ≢ pos 0
    → SameStore s z
unfolding delete load_dir
delete-SameStore {s} {z} r {code} h ne =
    let (parent, _, body) = >>=-eq-ok (get_fat s.cluster_map r.parent_cluster_number) _ h in
    elim (Bool-cases (parent == end_of_file)) [
      | inl eof ↦
          let x =
            delete_entries-SameStore (load_dir s r.parent_cluster_number) z r _ 2 code
              (rw eof at body) ne in
          record { map = x.map; disk = x.disk }
      | inr other ↦
          let e = ap (λ q. q.1) (ok-injective (rw other at body)) in
          rw (← e) (record { map = refl; disk = refl })
    ]
