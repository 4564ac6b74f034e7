-- ===== src/Fat32/Search.antt =====
-- What `search_file` and `get_cluster_number` of fat32.c answer, by the entries of the folder.
use os_2024_doors.Base.{Bool, false, ◌||◌, [], ◌∷◌}
use os_2024_doors.Fat32.Types.{DirectoryEntry, DirectoryTable}

-- Does an entry pass the test?
abbrev pub any : (DirectoryEntry → Bool) → DirectoryTable → Bool
any p [] = false
any p (e ∷ es) = p e || any p es
