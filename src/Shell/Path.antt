-- ===== src/Shell/Path.antt =====
-- user/command.c: paths. `get_curr_and_parent_cluster` with what it stores behind its pointers.
use os_2024_doors.Base.{
  ℕ, zero, suc, ◌+◌, ◌*◌, Bool, not, ◌&&◌, List, [], ◌∷◌, ltb, ◌==◌, if◌then◌else◌, Option, none,
  some, take, drop, replicate, set, get_or, length, Run, ok, fault, out_of_fuel, ◌>>=◌, is_zero,
}
use os_2024_doors.Strings.{memcmp}
use os_2024_doors.Strings.Split.{strsplit}
use os_2024_doors.Disk.{Disk}
use os_2024_doors.Fat32.Types.{DirectoryEntry, DirectoryTable, in_use, is_directory, cluster_number}
use os_2024_doors.Shell.{table_of, str_len}

-- The memory from a row of `char buf[16][256]` on.
abbrev pub row : List ℕ → ℕ → List ℕ
row buf j = drop (256 * j) buf

-- An entry in use with the name and the extension.
abbrev pub is_entry : List ℕ → List ℕ → DirectoryEntry → Bool
is_entry name ext e = in_use e && (is_zero (memcmp e.name name 8) && is_zero (memcmp e.ext ext 3))

-- The loop over a table from entry 1 on, as far as the first entry asked for.
unfoldable pub find_entry : List ℕ → List ℕ → DirectoryTable → Option DirectoryEntry
find_entry name ext [] = none
find_entry name ext (e ∷ es) =
    let rest = find_entry name ext es in if is_entry name ext e then some e else rest

abbrev pub no_ext : List ℕ
no_ext = 0 ∷ 0 ∷ 0 ∷ []

-- Where the loop over the folders of a path ends: at the last piece, or at a piece that is no folder.
pub data Walk : Type 0 where
  arrived : (index parent : ℕ) → Walk
  astray : (parent : ℕ) → Walk

-- The loop from `index` on. There are 16 pieces, so 16 rounds are enough.
unfoldable pub walk : ℕ → ℕ → List ℕ → Disk → ℕ → Run Walk
unfolding str_len find_entry
walk zero index buf d parent = out_of_fuel
walk (suc n) index buf d parent =
    let deeper : ℕ → Run Walk = λ p. walk n (index + 1) buf d p in
    str_len (row buf (index + 1)) >>= λ after.
    if after == 0
    then ok (arrived index parent)
    else (str_len (row buf index) >>= λ size.
        if ltb 8 size
        then ok (astray parent)
        else elim (find_entry (row buf index) no_ext (drop 1 (table_of d parent))) [
          | none ↦ ok (astray parent)
          | some e ↦ if is_directory e then deeper (cluster_number e) else ok (astray parent)
        ])

-- The result code, and what stands behind the pointers.
pub record Resolved : Type 0 where
  pub result : ℕ
  pub parent_cluster : ℕ
  pub current_cluster : ℕ
  pub filename : List ℕ
  pub ext : List ℕ

-- What the commands hand over: a folder, and variables that are cleared.
abbrev pub at_folder : ℕ → Resolved
at_folder parent = record {
  result = 0;
  parent_cluster = parent;
  current_cluster = 0;
  filename = replicate 8 0;
  ext = replicate 3 0;
}

-- Codes 3, 4 and 5 leave the other variables as they were.
abbrev pub unresolved : ℕ → ℕ → Resolved → Resolved
unresolved result parent before = record before { result = result; parent_cluster = parent }

-- The part that looks for the last piece, with its name and its extension in `file_buf`.
unfoldable pub find_last : Disk → ℕ → List ℕ → Resolved → Run Resolved
unfolding str_len find_entry
find_last d parent file_buf before =
    let name = row file_buf 0 in
    let ext = row file_buf 1 in
    str_len name >>= λ name_size.
    if ltb 8 name_size
    then ok (unresolved 4 parent before)
    else (str_len ext >>= λ ext_size.
        if ltb 3 ext_size
        then ok (unresolved 5 parent before)
        else (let stored : Resolved = record {
          result = 2;
          parent_cluster = parent;
          current_cluster = before.current_cluster;
          filename = take 8 name;
          ext = take 3 ext;
        } in
            elim (find_entry name ext (drop 1 (table_of d parent))) [
              | none ↦ ok stored
              | some e ↦ ok (record stored {
                result = if is_directory e then 1 else 0;
                current_cluster = cluster_number e;
              })
            ]))

-- `path` is the memory from the path on; `before` is what the variables behind the pointers hold.
unfoldable pub get_curr_and_parent_cluster : Disk → List ℕ → Resolved → Run Resolved
unfolding strsplit walk find_last
get_curr_and_parent_cluster d path before = strsplit path 47 (replicate 4096 0) >>= λ buf.
    walk 16 0 buf d before.parent_cluster >>= λ end. elim end [
      | astray p ↦ ok (unresolved 3 p before)
      | arrived index p ↦ strsplit (row buf index) 46 (replicate 4096 0) >>= λ file_buf.
          find_last d p file_buf before
    ]

-- The loop of `move_back`, from index i - 1 down.
unfoldable pub move_back_from : ℕ → List ℕ → List ℕ
move_back_from zero c = c
move_back_from (suc i) c =
    let rest = move_back_from i (set c i 0) in if get_or c i 0 == 47 then set c i 0 else rest

unfoldable pub move_back : List ℕ → List ℕ
unfolding move_back_from
move_back c = move_back_from 256 c

-- Bytes of `src` up to its end, and the byte 0, stored from index `i` on.
unfoldable pub append_at : List ℕ → ℕ → List ℕ → Run (List ℕ)
append_at dest i [] = fault
append_at dest i (c ∷ cs) =
    let rest = append_at (set dest i c) (i + 1) cs in
    if not (ltb i (length dest)) then fault else if c == 0 then ok (set dest i 0) else rest

unfoldable pub str_cat : List ℕ → List ℕ → Run (List ℕ)
unfolding str_len append_at
str_cat dest src = str_len dest >>= λ n. append_at dest n src
