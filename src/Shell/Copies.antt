-- ===== src/Shell/Copies.antt =====
-- user/command.c: the commands that copy and move, and the search for a name.
use os_2024_doors.Base.{
  ℕ, zero, suc, Bool, true, false, not, ◌&&◌, ◌||◌, List, [], ◌∷◌, ◌==◌, if◌then◌else◌, drop, Run,
  ok, out_of_fuel, ◌>>=◌, is_zero, ℤ,
}
use os_2024_doors.Strings.{memcmp}
use os_2024_doors.Fat32.Types.{
  DirectoryEntry, DirectoryTable, Request, Memory, in_use, is_directory, cluster_number,
}
use os_2024_doors.Fat32.Layout.{encode_entry}
use os_2024_doors.Fat32.Find.{get_cluster_number}
use os_2024_doors.Fat32.Write.{write}
use os_2024_doors.Fat32.Delete.{delete, delete_folder_rec}
use os_2024_doors.Fat32.Copy.{copy_folder, copy_file}
use os_2024_doors.Interrupt.Syscall.{with_fs}
use os_2024_doors.Shell.{
  World, Command, ◌⨾◌, skip, fs, with_machine, put_chars, put_char, say, quoted, put_string, on_fs,
  table_of,
}
use os_2024_doors.Shell.Path.{Resolved, no_ext, is_entry, str_cat}
use os_2024_doors.Shell.Commands.{resolve, not_found, path_ok, request_for, folder_request}

-- The request for the name of `r` in a folder, without bytes.
abbrev pub request_in : Resolved → ℕ → Request
request_in r parent = record (request_for r 0) { parent_cluster_number = parent }

-- The end of a line that says from where to where.
abbrev pub from_to : List ℕ → List ℕ → ℕ → Command
from_to src dest n =
    quoted src 0xF ⨾ say " to " n 0xF ⨾ say "'" 1 0xF ⨾ put_string dest 0xF ⨾ say "'\n" 2 0xF

-- The destination of a file: in a folder that is there it keeps its name.
unfoldable pub file_dest : Resolved → Resolved → Request
file_dest src dest =
    if dest.result == 1
    then request_in src dest.current_cluster
    else request_in dest dest.parent_cluster

-- `stack` is what an uninitialised buffer holds, and `depth` the depth that folders may have.
module _ (stack : Memory) (depth : ℕ) where
  unfoldable pub move_file : List ℕ → List ℕ → Resolved → Resolved → Command
  unfolding file_dest
  move_file src dest r q =
      on_fs (λ s. copy_file stack s (request_for r 0) (file_dest r q))
        (λ code.
          if is_zero code
          then on_fs (λ s. delete s (request_for r 0))
              (λ _. say "Succesfully moved file " 24 0xF ⨾ from_to src dest 5)
          else say "Failed to move file\n" 21 0xC)

  -- The part of `mv` from the creation of the destination on.
  unfoldable pub move_folder_to : List ℕ → List ℕ → Resolved → Resolved → Command
  move_folder_to src dest r q =
      let target = request_in q q.parent_cluster in
      on_fs (λ s. write s target)
        (λ made. if not (is_zero made) then say "Failed to move folder\n" 23 0xC else (λ w.
          get_cluster_number (fs w) target >>= λ (cluster, s).
          on_fs (λ s'. copy_folder stack depth s' r.current_cluster cluster)
            (λ copied.
              if is_zero copied
              then on_fs (λ s'. delete_folder_rec depth s' (request_for r 0))
                  (λ _. say "Succesfully moved folder " 26 0xF ⨾ from_to src dest 4)
              else say "Failed to copy folder\n" 23 0xC)
            (with_machine w (with_fs w.machine s))))

  unfoldable pub move_folder : List ℕ → List ℕ → Resolved → Resolved → Command
  unfolding move_folder_to
  move_folder src dest r q =
      if q.result == 0
      then say "Unable to move folder to file\n" 31 0xC
      else if q.result == 1
      then on_fs (λ s. delete_folder_rec depth s (request_in q q.parent_cluster))
          (λ code.
            if not (is_zero code)
            then say "Failed to move folder\n" 23 0xC
            else move_folder_to src dest r q)
      else move_folder_to src dest r q

  unfoldable pub mv : List ℕ → List ℕ → Command
  unfolding move_file move_folder
  mv src dest = resolve src (λ r.
      if r.result == 2
      then not_found src
      else path_ok r.result (
          resolve dest (λ q.
            path_ok q.result
              (if r.result == 0 then move_file src dest r q else move_folder src dest r q))))

  unfoldable pub cp : List ℕ → List ℕ → Command
  unfolding file_dest
  cp src dest = resolve src (λ r.
      if r.result == 1
      then say "Unable to copy directory without recursive flag\n" 49 0xC
      else if r.result == 2
      then not_found src
      else path_ok r.result (
          resolve dest (λ q. path_ok q.result (
            on_fs (λ s. copy_file stack s (request_for r 0) (file_dest r q))
              (λ code.
                if is_zero code
                then say "Succesfully copied file " 23 0xF ⨾ from_to src dest 4
                else say "Failed to copy file\n" 21 0xC)))))

  abbrev pub copied_says : List ℕ → List ℕ → ℤ → Command
  copied_says src dest code =
      if is_zero code
      then say "Succesfully copied folder " 27 0xF ⨾ from_to src dest 4
      else say "Failed to copy folder\n" 23 0xC

  -- A folder is made and the source copied into it; with `check` a missing folder is an error.
  unfoldable pub copy_into : Bool → List ℕ → List ℕ → Resolved → Request → Command
  copy_into check src dest r target =
      on_fs (λ s. write s target)
        (λ made. if not (is_zero made) then say "Failed to copy folder\n" 23 0xC else (λ w.
          get_cluster_number (fs w) target >>= λ (cluster, s).
          (if check && cluster == 0
              then say "Failed to copy folder\n" 23 0xC
              else on_fs (λ s'. copy_folder stack depth s' r.current_cluster cluster)
                  (copied_says src dest))
            (with_machine w (with_fs w.machine s))))

  unfoldable pub cp_rec : List ℕ → List ℕ → Command
  unfolding copy_into
  cp_rec src dest = resolve src (λ r.
      if r.result == 0
      then say "Unable to copy file with recursive flag\n" 41 0xC
      else if r.result == 2
      then not_found src
      else path_ok r.result (
          resolve dest (λ q.
            if q.result == 0
            then say "Unable to copy directory to file.\n" 35 0xC
            else path_ok q.result (
                if q.result == 1
                then copy_into true src dest r (folder_request r.filename q.current_cluster)
                else copy_into false src dest r (request_in q q.parent_cluster)))))

-- What `find` prints for an entry with the name.
abbrev pub found_line : List ℕ → List ℕ → List ℕ → DirectoryEntry → Command
found_line path name ext e =
    put_string path 0xF
    ⨾ put_chars name 8 0xF
    ⨾ (if not (is_directory e) && not (is_zero (memcmp e.ext no_ext 3))
        then put_char 46 0xF ⨾ put_chars ext 3 0xF
        else skip)
    ⨾ put_char 10 0xF

-- The path of a folder: its name is read to its end, through the bytes of its entry.
abbrev pub path_into : List ℕ → DirectoryEntry → Run (List ℕ)
path_into path e = str_cat path (encode_entry e) >>= λ p. str_cat p (47 ∷ 0 ∷ [])

-- The loop over a table, with `descend` for a folder. The result says whether an entry was found.
unfoldable pub find_entries :
    (ℕ → List ℕ → Bool → World → Run (Bool × World))
    → List ℕ
    → List ℕ
    → List ℕ
    → DirectoryTable
    → Bool
    → World
    → Run (Bool × World)
find_entries descend name ext path [] found w = ok (found, w)
find_entries descend name ext path (e ∷ es) found w =
    let rest : Bool → World → Run (Bool × World) =
      λ b z. find_entries descend name ext path es b z in
    let hit = is_entry name ext e in
    if not (in_use e)
    then rest found w
    else ((if hit then found_line path name ext e w else ok w) >>= λ z.
        if is_directory e
        then (path_into path e >>= λ p.
            descend (cluster_number e) p (found || hit) z >>= λ (b, z'). rest b z')
        else rest (found || hit) z)

-- By the depth that folders may have.
unfoldable pub find : ℕ → ℕ → List ℕ → List ℕ → Bool → List ℕ → World → Run (Bool × World)
unfolding find_entries
find zero cluster name ext found path w = out_of_fuel
find (suc depth) cluster name ext found path w =
    find_entries (λ c p b z. find depth c name ext b p z) name ext path
      (drop 2 (table_of (fs w).disk cluster)) found w
