-- ===== src/Shell/Whole.antt =====
-- user/command.c: whole paths, `get_curr_and_parent_cluster` against a walk along the names.
use os_2024_doors.Base.{ℕ, ◌<◌, List, [], length, All, get_or, replicate, Run, ok, ◌>>=◌}
use os_2024_doors.Strings.Split.{IsText, pieces, first_piece, more_pieces, strsplit}
use os_2024_doors.Disk.{Disk}
use os_2024_doors.Shell.Path.{row, Walk, arrived, astray, Resolved, unresolved, find_last}
use os_2024_doors.Shell.Resolve.{go}
use os_2024_doors.Shell.Last.{last_of}

-- What a path leads to from a folder: the walk along its names, and the last name with what stands
-- behind its first dot.
abbrev pub resolved : Disk → List ℕ → Resolved → Walk → Resolved
resolved d path before (astray p) = unresolved 3 p before
resolved d path before (arrived index p) =
    let piece = get_or (pieces 47 path) index [] in
    last_of d p (first_piece 46 piece) (get_or (more_pieces 46 piece) 0 []) before

abbrev pub walked : Disk → List ℕ → ℕ → Walk
walked d path parent = go d 0 parent (first_piece 47 path) (more_pieces 47 path)

-- A path that fits its arrays: at most 15 names, which are not empty behind the first one, with at
-- most 15 dots in a name.
pub record IsPath (path : List ℕ) : Type 0 where
  pub text : IsText path
  pub short : length path < 256
  pub few : length (more_pieces 47 path) < 15
  pub named : All (λ q. 0 < length q) (more_pieces 47 path)
  pub dots : All (λ q. length (more_pieces 46 q) < 16) (pieces 47 path)

-- The loop's end, and what follows it.
abbrev continue_from : Disk → List ℕ → Resolved → Walk → Run Resolved
continue_from d buf before end = elim end [
  | astray p ↦ ok (unresolved 3 p before)
  | arrived index p ↦
      strsplit (row buf index) 46 (replicate 4096 0) >>= λ file_buf. find_last d p file_buf before
]
