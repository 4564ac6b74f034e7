-- ===== src/Fat32/WriteCode.antt =====
-- The code that `write` of fat32.c returns, by the entries of the folder.
use os_2024_doors.Base.{Bool, not, ◌||◌, ◌==◌, if◌then◌else◌, ℤ, pos, minus_one}
use os_2024_doors.Fat32.Types.{DirectoryTable, Request, in_use}
use os_2024_doors.Fat32.Write.{Scan, exists, slot}
use os_2024_doors.Fat32.Delete.{is_target}
use os_2024_doors.Fat32.Search.{any}

answer : Scan → ℤ
answer exists = pos 1
answer (slot f) = if f == 0 then minus_one else pos 0

-- The code for the entries of a folder, when `held` says that an unused one has been met.
abbrev pub code_for : Request → Bool → DirectoryTable → ℤ
code_for r held es =
    if any (is_target r) es
    then pos 1
    else if held || any (λ e. not (in_use e)) es
    then pos 0
    else minus_one
