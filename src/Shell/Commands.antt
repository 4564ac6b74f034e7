-- ===== src/Shell/Commands.antt =====
-- user/command.c: the commands that list and change folders, and that show, find and delete files.
use os_2024_doors.Base.{
  ℕ, zero, suc, ◌+◌, ◌-◌, List, [], ◌∷◌, ◌++◌, ltb, ◌==◌, if◌then◌else◌, none, some, take, drop,
  replicate, get_or, length, tabulate, Run, ok, out_of_fuel, ◌>>=◌, is_zero, ℤ, pos, negsuc,
}
use os_2024_doors.Strings.{memcmp, contains}
use os_2024_doors.Strings.Split.{strsplit}
use os_2024_doors.Disk.{Disk}
use os_2024_doors.Fat32.Types.{
  DirectoryEntry, DirectoryTable, Request, Memory, is_directory, cluster_number, cluster_size,
  uattr_not_empty, attr_subdirectory,
}
use os_2024_doors.Fat32.Find.{read}
use os_2024_doors.Fat32.Write.{write}
use os_2024_doors.Fat32.Delete.{delete, delete_folder_rec}
use os_2024_doors.Interrupt.Syscall.{with_fs}
use os_2024_doors.Shell.{
  Command, ◌⨾◌, skip, fs, with_machine, put_chars, put_char, say, quoted, put_string, print_int,
  set_cursor_col_api, on_fs, table_of, str_len, no_bytes, root_cluster_number,
}
use os_2024_doors.Shell.Path.{
  Resolved, at_folder, row, no_ext, find_entry, get_curr_and_parent_cluster, move_back, str_cat,
}

-- Resolve a path from the working directory.
abbrev pub resolve : List ℕ → (Resolved → Command) → Command
resolve path next w =
    get_curr_and_parent_cluster (fs w).disk path (at_folder w.shell.work_dir) >>= λ r. next r w

abbrev pub not_found : List ℕ → Command
not_found name = quoted name 0xC ⨾ say " is not found.\n" 16 0xC

-- The tests on the result codes 3, 4 and 5 that the commands share.
abbrev pub path_ok : ℕ → Command → Command
path_ok result next =
    if result == 3
    then say "Invalid Path.\n" 15 0xC
    else if result == 4
    then say "Maximum file name length is 8.\n" 32 0xC
    else if result == 5
    then say "Maximum extension name length is 3.\n" 37 0xC
    else next

-- A line of `ls`.
abbrev pub list_line : ℕ → DirectoryEntry → Command
list_line idx e =
    print_int idx
    ⨾ set_cursor_col_api 7
    ⨾ put_chars e.name 8 0xF
    ⨾ set_cursor_col_api 16
    ⨾ put_chars e.ext 3 0xF
    ⨾ set_cursor_col_api 24
    ⨾ (if e.attribute == attr_subdirectory then say "folder" 6 0xF else say "file" 4 0xF)
    ⨾ set_cursor_col_api 33
    ⨾ print_int e.filesize
    ⨾ put_char 10 0xF

unfoldable pub list_entries : ℕ → DirectoryTable → Command
list_entries idx [] = skip
list_entries idx (e ∷ es) =
    if e.user_attribute == uattr_not_empty
    then list_line (idx + 1) e ⨾ list_entries (idx + 1) es
    else list_entries idx es

unfoldable pub ls : Command
unfolding list_entries
ls =
    say "no     name     ext     type     size\n" 39 0xF
    ⨾ say "=====================================\n" 39 0xF
    ⨾ (λ w. list_entries 0 (drop 2 (table_of (fs w).disk w.shell.work_dir)) w)

-- Where the loop of `cd` ends: at the end of the path, with the folder and its name, or with an error.
pub data Moved : Type 0 where
  moved : (cluster : ℕ) (path : List ℕ) → Moved
  too_long no_folder : Moved

-- The path after a piece.
abbrev pub path_after : List ℕ → ℕ → List ℕ → Run (List ℕ)
path_after piece cluster path = str_len piece >>= λ size.
    if is_zero (memcmp piece (46 ∷ 46 ∷ 0 ∷ []) size)
    then ok (if cluster == root_cluster_number then path else move_back path)
    else (str_cat path (47 ∷ 0 ∷ []) >>= λ p. str_cat p piece)

-- The loop from `index` on; a piece past the 16 rows is a fault.
unfoldable pub cd_walk : ℕ → ℕ → List ℕ → Disk → ℕ → List ℕ → Run Moved
cd_walk zero index buf d cluster path = out_of_fuel
cd_walk (suc n) index buf d cluster path =
    let deeper : ℕ → List ℕ → Run Moved = λ c p. cd_walk n (index + 1) buf d c p in
    let piece = row buf index in
    str_len piece >>= λ size.
    if size == 0
    then ok (moved cluster path)
    else if ltb 8 size
    then ok too_long
    else elim (find_entry piece no_ext (drop 1 (table_of d cluster))) [
      | none ↦ ok no_folder
      | some e ↦
          if is_directory e
          then (path_after piece cluster path >>= λ p. deeper (cluster_number e) p)
          else ok no_folder
    ]

unfoldable pub cd : List ℕ → Command
unfolding cd_walk
cd name w = strsplit name 47 (replicate 4096 0) >>= λ buf.
    cd_walk 17 0 buf (fs w).disk w.shell.work_dir w.shell.work_dir_name >>= λ end. elim end [
      | too_long ↦ say "The maximum length of folder name is 8 characters.\n" 51 0xC w
      | no_folder ↦ say "Invalid path name\n" 19 0xC w
      | moved cluster path ↦
          ok (record w { shell = record w.shell { work_dir = cluster; work_dir_name = path } })
    ]

-- What `mkdir` says about the code of `write`.
unfoldable pub mkdir_says : List ℕ → ℤ → Command
mkdir_says name (pos zero) = quoted name 0xF ⨾ say " is created successfully.\n" 26 0xF
mkdir_says name (pos (suc zero)) = quoted name 0xC ⨾ say " already exists.\n" 17 0xC
mkdir_says name (pos (suc (suc zero))) = say "Parent folder is undefined\n" 27 0xC
mkdir_says name (pos (suc (suc (suc n)))) = say "Unexpected error occured\n" 25 0xC
mkdir_says name (negsuc n) = say "Unexpected error occured\n" 25 0xC

abbrev pub folder_request : List ℕ → ℕ → Request
folder_request name parent = record {
  buf = no_bytes;
  name = take 8 name;
  ext = no_ext;
  parent_cluster_number = parent;
  buffer_size = 0;
}

unfoldable pub mkdir : List ℕ → Command
unfolding mkdir_says
mkdir name w = str_len name >>= λ size.
    if ltb 8 size
    then say "The maximum length of folder name is 8 characters.\n" 51 0xC w
    else if contains (λ a. get_or name a 0) 0 46 size
    then (quoted name 0xC ⨾ say " contains '.' which is not allowed.\n" 36 0xC) w
    else on_fs (λ s. write s (folder_request name w.shell.work_dir)) (mkdir_says name) w

abbrev pub request_for : Resolved → ℕ → Request
request_for r size = record {
  buf = no_bytes;
  name = r.filename;
  ext = r.ext;
  parent_cluster_number = r.parent_cluster;
  buffer_size = size;
}

-- The array of 256 bytes that starts with the bytes.
abbrev pub padded : List ℕ → List ℕ
padded bytes = bytes ++ replicate (256 - length bytes) 0

unfoldable pub rm_says : List ℕ → Resolved → ℤ → Command
rm_says path r (pos zero) =
    say "'" 1 0xF
    ⨾ put_string (padded r.filename) 0xF
    ⨾ (λ w. str_len (padded r.ext) >>= λ size.
        (if size == 0 then skip else put_char 46 0xF ⨾ put_chars r.ext 3 0xF) w)
    ⨾ say "'" 1 0xF
    ⨾ say " has been deleted successfully.\n" 33 0xF
rm_says path r (pos (suc zero)) = not_found path
rm_says path r (pos (suc (suc zero))) =
    quoted path 0xC
    ⨾ say " is not an empty directory. Use recursive flag to delete this directory\n" 73 0xC
rm_says path r (pos (suc (suc (suc n)))) = say "Unexpected error occured.\n" 27 0xC
rm_says path r (negsuc n) = say "Unexpected error occured.\n" 27 0xC

unfoldable pub rm : List ℕ → Command
unfolding rm_says
rm path = resolve path (λ r.
    if r.result == 2
    then not_found path
    else path_ok r.result (on_fs (λ s. delete s (request_for r 0)) (rm_says path r)))

-- `name` is an array of 8 bytes: eight characters have no end there.
unfoldable pub rm_rec_says : List ℕ → Resolved → ℤ → Command
rm_rec_says path r (pos zero) =
    quoted r.filename 0xF ⨾ say " has been deleted successfully.\n" 33 0xF
rm_rec_says path r (pos (suc zero)) = quoted path 0xC ⨾ say " is not a directory.\n" 29 0xC
rm_rec_says path r (pos (suc (suc zero))) = not_found path
rm_rec_says path r (pos (suc (suc (suc n)))) = say "Unexpected error occured\n" 25 0xC
rm_rec_says path r (negsuc n) = say "Unexpected error occured\n" 25 0xC

-- `depth` is the depth that folders may have.
unfoldable pub rm_rec : ℕ → List ℕ → Command
unfolding rm_rec_says
rm_rec depth path = resolve path (λ r.
    if r.result == 0
    then quoted path 0xC ⨾ say " is not a directory.\n" 29 0xC
    else if r.result == 2
    then not_found path
    else path_ok r.result (
        on_fs (λ s. delete_folder_rec depth s (folder_request r.filename r.parent_cluster))
          (rm_rec_says path r)))

unfoldable pub cat_says : List ℕ → Memory → ℤ → Command
cat_says path m (pos zero) =
    put_chars (tabulate cluster_size 0 m) cluster_size 0xB ⨾ put_char 10 0x7
cat_says path m (pos (suc zero)) = quoted path 0xC ⨾ say " is not a file.\n" 17 0xC
cat_says path m (pos (suc (suc zero))) = not_found path
cat_says path m (pos (suc (suc (suc n)))) = say "unexpected error occured\n" 26 0xC
cat_says path m (negsuc n) = say "unexpected error occured\n" 26 0xC

unfoldable pub cat : List ℕ → Command
unfolding cat_says
cat path = resolve path (λ r.
    if r.result == 1
    then quoted path 0xC ⨾ say " is not a file.\n" 29 0xC
    else if r.result == 2
    then not_found path
    else path_ok r.result (λ w. read (fs w) (request_for r cluster_size) >>= λ (code, s, m).
        cat_says path m code (with_machine w (with_fs w.machine s))))
