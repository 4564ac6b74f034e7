-- ===== src/Shell/Line.antt =====
-- user/command.c: the line that is typed, and the commands it is taken for.
use os_2024_doors.Base.{
  ℕ, ◌+◌, ◌-◌, Bool, false, not, ◌&&◌, ◌||◌, List, [], ◌∷◌, ◌++◌, ltb, ◌==◌, if◌then◌else◌, take,
  drop, replicate, set, ok, ◌>>=◌, is_zero,
}
use Prim.Native.String.{String}
use os_2024_doors.Strings.{memcmp}
use os_2024_doors.Strings.Split.{strsplit}
use os_2024_doors.Fat32.Types.{Memory}
use os_2024_doors.Fat32.Layout.{le32}
use os_2024_doors.Keyboard.{get_buffer, is_shift}
use os_2024_doors.Framebuffer.{move_screen}
use os_2024_doors.Shell.{
  ShellState, Command, ◌⨾◌, skip, with_machine, put_chars, put_char, say, codes, on_console,
  clear_screen_api, print_working_dir, str_len, root_cluster_number,
}
use os_2024_doors.Shell.Path.{row}
use os_2024_doors.Shell.Commands.{ls, cd, mkdir, rm, rm_rec, cat}
use os_2024_doors.Shell.Copies.{mv, cp, cp_rec, find}
use os_2024_doors.Shell.Jobs.{exec, kill, ps}

-- memcmp(cmd, name, cmd_len) == 0, where `cmd_len` is the length of the name
abbrev pub is_command : List ℕ → ℕ → String → ℕ → Bool
is_command cmd size name n = size == n && is_zero (memcmp cmd (codes name ++ 0 ∷ []) n)

-- memcmp(buf[1], "-r", strlen(buf[1])) == 0, or the same of "-R"
abbrev pub is_recursive : List ℕ → ℕ → Bool
is_recursive arg size =
    is_zero (memcmp arg (45 ∷ 114 ∷ 0 ∷ []) size) || is_zero (memcmp arg (45 ∷ 82 ∷ 0 ∷ []) size)

abbrev pub complain : String → ℕ → Command
complain text n = say text n 0xC ⨾ put_char 10 0xC

unfoldable pub help : Command
help =
    say "Available commands: \n" 22 0xB
    ⨾ say "cat [filename]        show content of file\n" 44 0xB
    ⨾ say "cd [target]           move current directory to target\n" 56 0xB
    ⨾ say "clear                 clear current screen\n" 44 0xB
    ⨾ say "cls                   clear current screen\n" 44 0xB
    ⨾ say "cp [-r] source dest   copy file/folder to destination\n" 55 0xB
    ⨾ say "ls [foldername]       show current or target directory contents\n" 65 0xB
    ⨾ say "mkdir dirname         create new directory\n" 44 0xB
    ⨾ say "mv source dest        move file/folder to destination\n" 55 0xB
    ⨾ say "rm [-r] target        delete folder/ file\n" 43 0xB
    ⨾ say "find name             find file/folder with given name\n" 56 0xB
    ⨾ say "kill [pid]            kill process with process id pid\n" 56 0xB
    ⨾ say "exec [filename]       execute binary file\n" 43 0xB
    ⨾ say "./[filename]          execute binary file\n" 43 0xB
    ⨾ say "ps                    show process list\n" 43 0xB

-- Between the lines the program sleeps, which has no state.
unfoldable pub doors : Command
doors =
    say "      _        ___       ____\n" 31 0x6
    ⨾ say "   __| | ___  / _ \\ _ __/ ___|\n" 32 0x6
    ⨾ say "  / _` |/ _ \\| | | | '__\\___ \\\n" 32 0x6
    ⨾ say " | (_| | (_) | |_| | |   ___) |\n" 33 0x6
    ⨾ say "  \\__,_|\\___/ \\___/|_|  |____/\n\n" 33 0x6

-- `uninit` holds the 256 bytes of `curr_path`, of which two are set.
unfoldable pub find_command : ℕ → List ℕ → List ℕ → Command
find_command depth uninit arg w = strsplit arg 46 (replicate 4096 0) >>= λ parts.
    find depth root_cluster_number (take 8 (row parts 0)) (take 3 (row parts 1)) false
      (126 ∷ 47 ∷ drop 2 uninit) w
    >>= λ (found, z). (if not found then say "No such file or folder\n" 24 0xC else skip) z

-- The memory behind the buffer is the rest of the shell's state.
abbrev pub command_memory : ShellState → List ℕ
command_memory s = s.curr_command_buffer ++ le32 s.curr_command_size ++ s.work_dir_name

-- The last character is taken back.
unfoldable pub drop_char : ShellState → ShellState
drop_char s = record s {
  curr_command_size = s.curr_command_size - 1;
  curr_command_buffer = set s.curr_command_buffer (s.curr_command_size - 1) 0;
}

unfoldable pub store_char : ShellState → ℕ → ShellState
store_char s c = record s {
  curr_command_size = s.curr_command_size + 1;
  curr_command_buffer = set s.curr_command_buffer s.curr_command_size c;
}

abbrev pub edit : (ShellState → ShellState) → Command
edit f w = ok (record w { shell = f w.shell })

-- The parameters are what uninitialised arrays hold and the depth that folders may have.
module _ (stack : Memory) (uninit : List ℕ) (depth : ℕ) where
  -- The commands by their name and its length, with the lengths of the words behind it.
  unfoldable pub choose : List ℕ → ℕ → List ℕ → ℕ → ℕ → ℕ → Command
  choose cmd size buf n1 n2 n3 =
      let arg : ℕ → List ℕ = λ i. row buf i in
      if is_command cmd size "ls" 2
      then (if n1 == 0
          then ls
          else say "'" 1 0xC
            ⨾ put_chars cmd size 0xC
            ⨾ say "'" 1 0xC
            ⨾ complain " only receive one argument." 24)
      else if is_command cmd size "cd" 2
      then (if n1 == 0 then complain "Expected directory name" 23 else cd (arg 1))
      else if is_command cmd size "clear" 5 || is_command cmd size "cls" 3
      then clear_screen_api
      else if is_command cmd size "mkdir" 5
      then (if n1 == 0
          then complain "Expected directory name" 23
          else if not (n2 == 0)
          then complain "Too many arguments" 18
          else mkdir (arg 1))
      else if is_command cmd size "rm" 2
      then (if n1 == 0
          then complain "Expected file/folder name" 26
          else if is_recursive (arg 1) n1
          then (if n2 == 0
              then complain "Expected file/folder name" 26
              else if not (n3 == 0)
              then complain "Too many arguments" 19
              else rm_rec depth (arg 2))
          else if not (n2 == 0)
          then complain "Too many arguments" 19
          else rm (arg 1))
      else if is_command cmd size "cp" 2
      then (if n1 == 0 || n2 == 0
          then complain "Expected file/folder names" 26
          else if is_recursive (arg 1) n1
          then (if n2 == 0 || n3 == 0
              then complain "Expected file/folder names" 26
              else cp_rec stack depth (arg 2) (arg 3))
          else cp stack depth (arg 1) (arg 2))
      else if is_command cmd size "mv" 2
      then (if n1 == 0 || n2 == 0
          then complain "Expected file/folder names" 26
          else mv stack depth (arg 1) (arg 2))
      else if is_command cmd size "cat" 3
      then (if n1 == 0 then complain "Expected file name" 18 else cat (arg 1))
      else if is_command cmd size "help" 4
      then help
      else if is_command cmd size "ps" 2
      then ps
      else if is_command cmd size "kill" 4
      then (if n1 == 0 then say "Expected process identifier\n" 29 0xC else kill (arg 1))
      else if is_command cmd size "exec" 4
      then (if n1 == 0 then say "Expected binary file name\n" 27 0xC else exec (arg 1))
      else if is_command cmd size "uwu" 3
      then doors
      else if is_zero (memcmp cmd (46 ∷ 47 ∷ []) 2)
      then exec (take size (drop 2 cmd) ++ replicate (256 - size) 0)
      else if is_command cmd size "find" 4
      then (if n1 == 0
          then complain "Expected target directory name" 31
          else find_command depth uninit (arg 1))
      else say "'" 1 0xC
        ⨾ put_chars cmd size 0xC
        ⨾ say "'" 1 0xC
        ⨾ complain " is not recognized as an internal command." 42

  unfoldable pub run_line : Command
  unfolding choose
  run_line w = strsplit (command_memory w.shell) 32 (replicate 4096 0) >>= λ buf.
      str_len (take 256 buf) >>= λ size. str_len (row buf 1) >>= λ n1. str_len (row buf 2) >>= λ n2.
      str_len (row buf 3) >>= λ n3. choose (take 256 buf) size buf n1 n2 n3 w

  unfoldable pub run_command : Command
  unfolding run_line print_working_dir
  run_command w =
      ((if not (w.shell.curr_command_size == 0)
            then put_char 10 0xF ⨾ run_line
            else put_char 10 0xC)
          ⨾ print_working_dir)
        w

  -- The body of `type_command` for a character.
  unfoldable pub key_typed : ℕ → Command
  unfolding run_command drop_char store_char
  key_typed c w =
      let check = w.machine.console.is_cursor_viewable in
      let room = ltb w.shell.curr_command_size 256 in
      (if c == 8 && check
          then (if not (w.shell.curr_command_size == 0)
              then put_char c 0xF ⨾ edit drop_char
              else skip)
          else if c == 10 && check
          then run_command
          else if c == 0x11 || c == 0x13
          then (if is_shift w.machine.keyboard then on_console (λ s. move_screen s c) else skip)
          else if not (c == 0) && (not (c == 0x12) && (not (c == 0x14) && check))
          then (if room then put_char c 0xF ⨾ edit (λ s. store_char s c) else skip)
          else skip)
        w

  unfoldable pub type_command : Command
  unfolding key_typed
  type_command w =
      let (c, k) = get_buffer w.machine.keyboard in
      key_typed c (with_machine w (record w.machine { keyboard = k }))
