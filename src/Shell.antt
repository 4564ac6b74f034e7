-- ===== src/Shell.antt =====
-- user/command.c: the shell. Its calls of user/syscall.c stand for the cases of `syscall` in
-- interrupt.c: each acts on the kernel's state as that case does, on the structures themselves. A
-- character array is the list of its bytes; reading a string past its array is a fault.
pub mod Path
pub mod Commands
pub mod Copies
pub mod Jobs
pub mod Line
pub mod Editor
pub mod Undo
pub mod Resolve
pub mod Last
pub mod Whole
mod Tests
use os_2024_doors.Base.{
  ℕ, zero, suc, ◌+◌, ◌*◌, ◌/◌, ◌%◌, ◌^◌, List, [], ◌∷◌, ◌++◌, ◌==◌, if◌then◌else◌, replicate, Run,
  ok, fault, ◌>>=◌, ℤ, pos, negsuc,
}
use Prim.Native.String.{String}
use Prim.Native.Char.{code}
use os_2024_doors.Disk.{Disk}
use os_2024_doors.Fat32.Types.{State, DirectoryTable, Request, Memory, entry_count}
use os_2024_doors.Fat32.Layout.{decode_table}
use os_2024_doors.Fat32.Driver.{read_clusters}
use os_2024_doors.Framebuffer.{Console, clear_screen, set_cursor_col, move_screen}
use os_2024_doors.Framebuffer.Text.{put_char_color, puts}
use os_2024_doors.Interrupt.{Machine}
use os_2024_doors.Interrupt.Syscall.{with_console, with_fs}

-- struct ShellState
pub record ShellState : Type 0 where
  pub work_dir : ℕ
  pub curr_command_buffer : List ℕ
  pub curr_command_size : ℕ
  pub work_dir_name : List ℕ

abbrev pub root_cluster_number : ℕ
root_cluster_number = 2

-- The shell and the kernel that it runs on.
pub record World : Type 0 where
  pub shell : ShellState
  pub machine : Machine

abbrev pub Command : Type 0
Command = World → Run World

-- One statement after the other.
infixr 4 ◌⨾◌
abbrev pub ◌⨾◌ : Command → Command → Command
(c ⨾ d) w = c w >>= d

abbrev pub skip : Command
skip w = ok w

abbrev pub codes : String → List ℕ
codes String.[] = []
codes (String.◌∷◌ c s) = code c ∷ codes s

abbrev pub fs : World → State
fs w = w.machine.processes.fs

abbrev pub with_machine : World → Machine → World
with_machine w m = record w { machine = m }

-- A call that changes the console.
abbrev pub on_console : (Console → Run Console) → Command
on_console f w = f w.machine.console >>= λ s. ok (with_machine w (with_console w.machine s))

abbrev pub put_chars : List ℕ → ℕ → ℕ → Command
put_chars bytes count color = on_console (λ s. puts s bytes count color)

abbrev pub put_char : ℕ → ℕ → Command
put_char c color = on_console (λ s. put_char_color s c color)

-- A literal, with the byte 0 that ends it.
abbrev pub say : String → ℕ → ℕ → Command
say text count color = put_chars (codes text ++ 0 ∷ []) count color

abbrev pub clear_screen_api : Command
clear_screen_api = on_console (λ s. ok (clear_screen s))

abbrev pub set_cursor_col_api : ℕ → Command
set_cursor_col_api col = on_console (λ s. ok (set_cursor_col s col))

-- A result code of the file system.
abbrev pub on_fs : (State → Run (ℤ × State)) → (ℤ → Command) → Command
on_fs f next w = f (fs w) >>= λ (code, s). next code (with_machine w (with_fs w.machine s))

-- read_clusters_api(&table, cluster, 1)
abbrev pub table_of : Disk → ℕ → DirectoryTable
table_of d cluster = decode_table entry_count (read_clusters d cluster 1)

abbrev pub no_bytes : Memory
no_bytes a = 0

-- strlen of the string that starts with the list.
unfoldable pub str_len : List ℕ → Run ℕ
str_len [] = fault
str_len (c ∷ cs) = let rest = str_len cs >>= λ n. ok (suc n) in if c == 0 then ok 0 else rest

-- put_chars(str, strlen(str), color)
abbrev pub put_string : List ℕ → ℕ → Command
put_string str color w = str_len str >>= λ n. put_chars str n color w

abbrev pub quoted : List ℕ → ℕ → Command
quoted str color = say "'" 1 color ⨾ put_string str color ⨾ say "'" 1 color

-- The first loop of `print_int`, by the rounds left: a number below 2 ^ 32 has at most ten digits.
unfoldable pub reverse_digits : ℕ → ℕ → ℕ → ℕ
reverse_digits zero num temp = temp
reverse_digits (suc n) num temp =
    let rest = reverse_digits n (num / 10) ((temp * 10 + num % 10) % 2 ^ 32) in
    if num == 0 then temp else rest

-- The characters of its second loop, in order.
unfoldable pub print_digits : ℕ → ℕ → List ℕ
print_digits zero temp = []
print_digits (suc n) temp =
    let rest = (temp % 10 + 48) ∷ print_digits n (temp / 10) in if temp == 0 then [] else rest

unfoldable pub int_chars : ℕ → List ℕ
unfolding reverse_digits print_digits
int_chars num = (if num == 0 then 48 ∷ [] else []) ++ print_digits 10 (reverse_digits 10 num 0)

abbrev pub put_each : List ℕ → Command
put_each [] = skip
put_each (c ∷ cs) = put_char c 0xF ⨾ put_each cs

unfoldable pub print_int : ℕ → Command
unfolding int_chars
print_int num = put_each (int_chars num)

unfoldable pub print_working_dir : Command
print_working_dir =
    say "user@doOrS" 10 0xA
    ⨾ say ":" 1 0x7
    ⨾ (λ w. put_chars w.shell.work_dir_name 256 0x9 w)
    ⨾ say "$ " 2 0x7
    ⨾ (λ w. ok (record w {
      shell = record w.shell { curr_command_size = 0; curr_command_buffer = replicate 256 0 };
    }))
