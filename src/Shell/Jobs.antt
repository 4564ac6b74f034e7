-- ===== src/Shell/Jobs.antt =====
-- user/command.c: the commands on processes.
use os_2024_doors.Base.{
  ℕ, ◌+◌, ◌-◌, ◌*◌, ◌%◌, ◌^◌, not, ◌||◌, List, [], ◌∷◌, ◌++◌, ◌==◌, if◌then◌else◌, take, drop,
  replicate, get_or, length, ◌>>=◌,
}
use os_2024_doors.Fat32.Types.{Request}
use os_2024_doors.Process.{
  Metadata, ProcessState, blocked, ready, running, CreateCode, success, max_process_exceeded,
  invalid_entrypoint, not_enough_memory, fs_read_failure, process_create_user_process,
  process_destroy, get_process_list, Kernel,
}
use os_2024_doors.Shell.{
  World, Command, ◌⨾◌, skip, with_machine, put_chars, say, quoted, print_int, set_cursor_col_api,
  str_len, no_bytes,
}
use os_2024_doors.Shell.Path.{Resolved, no_ext}
use os_2024_doors.Shell.Commands.{resolve, not_found, path_ok, padded}

-- The kernel's processes after a call.
abbrev pub with_kernel : World → Kernel → World
with_kernel w k = with_machine w (record w.machine { processes = k })

abbrev pub exec_says : CreateCode → Command
exec_says success = say "Process created succesfully\n" 29 0xF
exec_says max_process_exceeded = say "Maximum process exceeded\n" 26 0xC
exec_says invalid_entrypoint = say "Invalid entrypoint\n" 20 0xC
exec_says not_enough_memory = say "Not enough memory\n" 19 0xC
exec_says fs_read_failure = say "File system read failure\n" 26 0xC

-- The bytes of the name up to its end are copied; the extension is not.
abbrev pub exec_request : Resolved → ℕ → Request
exec_request r size = record {
  buf = no_bytes;
  name = take 8 (take size r.filename ++ replicate 8 0);
  ext = no_ext;
  parent_cluster_number = r.parent_cluster;
  buffer_size = 0x100000;
}

unfoldable pub exec : List ℕ → Command
exec path = resolve path (λ r.
    if r.result == 1
    then quoted path 0xC ⨾ say " is not a file.\n" 17 0xC
    else if r.result == 2
    then not_found path
    else path_ok r.result (λ w. str_len (padded r.filename) >>= λ size.
        process_create_user_process w.machine.processes 0 (exec_request r size) >>= λ (code, k).
        exec_says code (with_kernel w k)))

-- `*pid - '0'` of one character, with the characters as unsigned numbers.
abbrev pub digit_of : ℕ → ℕ
digit_of c = (c + 2 ^ 32 - 48) % 2 ^ 32

-- The number of one digit or two.
unfoldable pub parse_pid : List ℕ → ℕ → ℕ
parse_pid pid size =
    if size == 1
    then digit_of (get_or pid 0 0)
    else (digit_of (get_or pid 0 0) * 10 + digit_of (get_or pid 1 0)) % 2 ^ 32

unfoldable pub kill : List ℕ → Command
unfolding parse_pid
kill pid w = str_len pid >>= λ size.
    if size == 1 || size == 2
    then (process_destroy w.machine.processes (parse_pid pid size) >>= λ (done, k).
        (if not done
            then say "Fail to kill process\n" 22 0xC
            else say "Process killed succesfully\n" 28 0xF)
          (with_kernel w k))
    else say "Maximum process identifier is 16\n" 34 0xC w

abbrev pub state_says : ProcessState → Command
state_says running = say "RUNNING\n" 9 0xF
state_says ready = say "READY\n" 7 0xF
state_says blocked = say "BLOCKED\n" 9 0xF

unfoldable pub list_processes : List Metadata → Command
list_processes [] = skip
list_processes (d ∷ ds) =
    print_int d.pid
    ⨾ set_cursor_col_api 8
    ⨾ put_chars d.process_name 8 0xF
    ⨾ set_cursor_col_api 17
    ⨾ state_says d.state
    ⨾ list_processes ds

-- The list is `pl.metadata` as far as `pl.size`.
unfoldable pub ps : Command
unfolding list_processes
ps w =
    let entries = get_process_list w.machine.processes in
    let w' = with_machine w (record w.machine {
      metadata_list = entries ++ drop (length entries) w.machine.metadata_list;
    }) in
    (if length entries == 0
        then say "No process currently available\n" 32 0xC
        else say "pid     name     state\n" 24 0xF
          ⨾ say "======================\n" 24 0xF
          ⨾ list_processes entries)
      w'
