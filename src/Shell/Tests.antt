-- ===== src/Shell/Tests.antt =====
-- The shell at concrete lines and numbers.
use os_2024_doors.Base.{
  ℕ, ◌<◌, ◌≡◌, refl, arith, List, [], ◌∷◌, ◌++◌, length, replicate, get_or, get_or-replicate, ok,
}
use os_2024_doors.Strings.Split.{strsplit, strsplit-pieces, row_byte}
use os_2024_doors.Framebuffer.{clear_screen}
use os_2024_doors.Framebuffer.Page.{empty_page}
use os_2024_doors.Framebuffer.Printing.{clear_screen-ShowsPage}
use os_2024_doors.Interrupt.Syscall.{with_console}
use os_2024_doors.Interrupt.Tests.{machine}
use os_2024_doors.Shell.{World, codes, int_chars, reverse_digits, print_digits}
use os_2024_doors.Shell.Path.{move_back, move_back_from}
use os_2024_doors.Shell.Line.{key_typed}
use os_2024_doors.Shell.Undo.{key_typed-undone}
use os_2024_doors.Shell.{◌⨾◌}
use os_2024_doors.Shell.Jobs.{parse_pid}
use os_2024_doors.Shell.Editor.{Typing, type_keys, type_keys-Typing}

abbrev start : World
start = record {
  shell = record {
    work_dir = 2;
    curr_command_buffer = replicate 256 0;
    curr_command_size = 0;
    work_dir_name = 126 ∷ replicate 255 0;
  };
  machine = with_console machine (clear_screen machine.console);
}

start-Typing : Typing start [] empty_page
start-Typing = record {
  line = record {
    size = refl;
    capacity = refl;
    text = refl;
    clear = λ i le. get_or-replicate 256 i 0;
  };
  page = clear_screen-ShowsPage machine.console;
}

type_keys-Typing_example :
    (z : World) × (type_keys (λ a. 0) [] 1 (codes "ls") start ≡ ok z)
    × Typing z (codes "ls") (record { above = []; line = codes "ls" })
type_keys-Typing_example =
    type_keys-Typing (λ a. 0) [] 1 start [] empty_page (codes "ls") start-Typing
      (omega arith, (omega arith, tt)) (omega arith) (omega arith)

key_typed-undone_example :
    (z : World) × ((key_typed (λ a. 0) [] 1 108 ⨾ key_typed (λ a. 0) [] 1 8) start ≡ ok z)
    × Typing z [] empty_page
key_typed-undone_example =
    key_typed-undone (λ a. 0) [] 1 start [] empty_page 108 start-Typing (omega arith) (omega arith)
      (omega arith)

strsplit-pieces_example :
    (res : List ℕ) × (strsplit (codes "cd home" ++ 0 ∷ 7 ∷ []) 32 (replicate 4096 0) ≡ ok res)
    × (length res ≡ 4096)
    × ((row o : ℕ)
        → o < 256
        → row_byte res row o ≡ get_or (get_or (codes "cd" ∷ codes "home" ∷ []) row []) o 0)
strsplit-pieces_example =
    strsplit-pieces (codes "cd home") (7 ∷ []) 32
      ((λ e. cc), ((λ e. cc), ((λ e. cc), ((λ e. cc), ((λ e. cc), ((λ e. cc), ((λ e. cc), tt)))))))
      (record { first = omega arith; others = (omega arith, tt); rows = omega arith })

-- 207 is printed as it is, 10 as 1.
print_207 : int_chars 207 ≡ codes "207"
unfolding int_chars reverse_digits print_digits
print_207 = refl

print_10 : int_chars 10 ≡ codes "1"
unfolding int_chars reverse_digits print_digits
print_10 = refl

parse_12 : parse_pid (codes "12" ++ 0 ∷ []) 2 ≡ 12
unfolding parse_pid
parse_12 = refl

leave_folder : move_back (codes "~/a/bc" ++ replicate 250 0) ≡ codes "~/a" ++ replicate 253 0
unfolding move_back move_back_from
leave_folder = refl
