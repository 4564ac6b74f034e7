-- ===== src/Lib.antt =====
-- A verification library for the kernel: disk, file system, memory, processes, interrupts, console,
-- keyboard and clock.
--
-- The parts and where they are modelled:
-- - `Base`: lists, integers and outcomes that the parts share. An array access out of range is the
--   outcome `fault`, and a loop that is still running when its fuel is spent is `out_of_fuel`.
-- - `Strings`: src/stdlib/string.c but for `itoa`; `Strings/Split` has `strsplit`. The loops to the end of a string are
--   on fuel, enough if it exceeds the length, see `Strings/Move`.
-- - `Disk`: src/disk.c. The disk is a function from block addresses to their bytes. `task_file` holds
--   what the code sends to the drive, `addressed` the block that this selects.
-- - `Fat32`: src/fat32.c and src/header/filesystem/fat32.h. The state is `cluster_map`,
--   `dir_table_buf` and the disk. `Layout` gives the packed bytes of the structures; `Driver` has
--   formatting and mounting, `Find` the functions that read, `Write`, `Delete` and `Copy` the others.
--   A loop along the clusters of a file has 513 rounds of fuel: a chain that ends has at most 512
--   clusters, see `Fat32/Finite`. `rec_delete` and `copy_folder` are given their depth.
-- - `Paging`: src/paging.c and src/header/memory/paging.h. A page directory is a function from the
--   index of an entry to the entry.
-- - `Process`: src/process.c and src/scheduler.c. A pointer to a block is its index, a pointer to a
--   page directory one of `null`, `kernel` and `listed i`. `process_create_user_process` calls
--   `paging_*` and `read`, so the state `Kernel` holds the memory manager and the file system.
--   `switch_to_next` returns the context that the assembly code restores.
-- - `Keyboard`: src/keyboard.c. The handler takes the byte that the port gives.
-- - `Cmos`: src/cmos.c. The registers of the clock are arguments.
-- - `Framebuffer`: src/framebuffer.c. The state is the lines kept, the cursor's variables, the screen
--   and the cursor's ports. An `int` is a 32-bit word. `Framebuffer/Page` describes what is shown as a
--   page of text, `Framebuffer/Drawing` what the drawing of it leaves in the memory of the screen.
-- - `Interrupt`: src/interrupt.c. `Machine` holds the states of all parts. `Interrupt/Syscall` gives
--   each system call on the memory of the interrupted process, where requests and results stand by
--   address; a result stored outside the memory of the process is a `fault`. `Interrupt/Steps` has
--   the sequences of interrupts. `pic_ack` is in `Keyboard`.
-- - `Cpu`: src/gdt.c, src/idt.c and src/kernel.c. The addresses of stubs and of the task state segment
--   are arguments.
-- - `Shell`: src/user/command.c. A command acts on the shell's state and on `Machine`, and a system
--   call stands for its case in `syscall`. `Shell/Path` resolves paths; the loop over a path has 16
--   rounds, as many as pieces. `find`, `rm_rec`, `cp_rec` and `mv` are given the depth of folders.
--   `Shell/Line` has the typed line.
--
-- Not modelled: inline assembly and assembly code, port input and output but for the bytes that are
-- sent, `loading_bar` and `sleep` of the shell, the main programs in src/user, and src/external.
-- Waits for a device have no state.
-- The physical memory behind page frames is no part of the state, so the bytes that a new process
-- loads are not modelled; the buffer of a request is a function from offsets to bytes.
pub mod Base
pub mod Strings
pub mod Disk
pub mod Fat32
pub mod Paging
pub mod Process
pub mod Keyboard
pub mod Cmos
pub mod Framebuffer
pub mod Interrupt
pub mod Cpu
pub mod Shell
