-- ===== src/Interrupt/Tests.antt =====
-- Interrupts of a kernel with three processes.
use os_2024_doors.Base.{
  Option, none, Run, ok, ℕ, ◌≤◌, ◌≡◌, refl, some, [], ◌∷◌, replicate, false, true, fault,
}
use os_2024_doors.Process.{zero_cpu, current_running, save_context}
use os_2024_doors.Process.Tests.{three, three-IsConsistent, three_current, registers}
use os_2024_doors.Process.Turns.{turns, switch_to_next_runs}
use os_2024_doors.Fat32.Types.{Memory, store}
use os_2024_doors.Paging
use os_2024_doors.Paging.{listed, set_entry, zero_directory, zero_entry, kernel_flag}
use os_2024_doors.Keyboard.{initial}
use os_2024_doors.Framebuffer.{clear_screen}
use os_2024_doors.Interrupt.{
  Machine, InterruptFrame, timer, pic_remap, io_wait, activate_keyboard_interrupt,
  activate_timer_interrupt,
}
use os_2024_doors.Interrupt.Syscall.{syscall, dispatch, with_console}
use os_2024_doors.Interrupt.Steps.{Steps}
use os_2024_doors.Interrupt.Preempt.{Preempted, timer-Preempted, save_context-LeavesWaiting}

abbrev pub machine : Machine
machine = record {
  processes = three;
  keyboard = initial;
  console = record {
    size = 1;
    buffer = λ i. record { size = 0; line_buf = replicate 79 0; color_buf = replicate 79 0 };
    cursor_row = 0;
    cursor_col = 0;
    frame_row_pointer = 0;
    is_cursor_viewable = true;
    screen = λ p. 0;
    cursor_enabled = false;
    cursor_position = 0;
  };
  clock = record { second = 0; minute = 0; hour = 0; day = 1; month = 1; year = 24; status = 6 };
  metadata_list = [];
  sent = [];
}

abbrev frame : ℕ → ℕ → InterruptFrame
frame number eax = record {
  cpu = record zero_cpu { eax = eax };
  int_number = number;
  int_stack = record { error_code = 0; eip = 42; cs = 0x18; eflags = 0x202; esp = 0 };
}

-- The screen is cleared by a system call.
abbrev cleared_machine : Machine
cleared_machine = with_console machine (clear_screen machine.console)

-- A pointer to the kernel's memory is not checked.
kernel_pointer_test :
    syscall
      (λ p. 0)
      0
      machine
      (λ p. 0)
      (record (frame 0x30 17) { cpu = record zero_cpu { eax = 17; ebx = 0xC0000000 } })
    ≡ fault
unfolding syscall dispatch
kernel_pointer_test = refl

-- A process with the page frame 3 at its address 0.
abbrev mapped_machine : Machine
mapped_machine = record machine {
  processes = record three {
    cr3 = listed 0;
    paging = record Paging.initial {
      page_directory_list =
          set_entry zero_directory 0 (record zero_entry { flag = kernel_flag; lower_address = 3 })
          ∷ [];
    };
  };
}

abbrev byte_at : ℕ → Run (Memory × Machine) → Option ℕ
byte_at a (ok (u, m)) = some (u a)
byte_at a r = none

is_shift_test :
    byte_at 0x1000 (
      syscall
        (λ p. 0)
        0
        mapped_machine
        (λ p. 9)
        (record (frame 0x30 17) { cpu = record zero_cpu { eax = 17; ebx = 0x1000 } }))
    ≡ some 0
unfolding syscall dispatch store
is_shift_test = refl

timer-Preempted_example :
    Preempted three
      (frame 0x20 0)
      0
      (timer machine (frame 0x20 0)).0
      (timer machine (frame 0x20 0)).1.processes
timer-Preempted_example = timer-Preempted machine (frame 0x20 0) 0 three-IsConsistent three_current

-- Process 2 is ready while process 0 runs, whose context is saved before each switch.
switch_to_next_runs_example :
    (n : ℕ) × (n ≤ 16) × (current_running (turns (λ k. save_context k registers) n three) ≡ some 2)
switch_to_next_runs_example =
    switch_to_next_runs (λ k. save_context k registers) three 0 2
      (save_context-LeavesWaiting registers 2)
      (record { consistent = three-IsConsistent; current = three_current; waiting = refl })

-- The master controller's interrupts start at 0x20, the slave's at 0x28.
remap_test :
    pic_remap
    ≡ (0x20, 0x11)
      ∷ (0x80, 0)
      ∷ (0xA0, 0x11)
      ∷ (0x80, 0)
      ∷ (0x21, 0x20)
      ∷ (0x80, 0)
      ∷ (0xA1, 0x28)
      ∷ (0x80, 0)
      ∷ (0x21, 4)
      ∷ (0x80, 0)
      ∷ (0xA1, 2)
      ∷ (0x80, 0)
      ∷ (0x21, 1)
      ∷ (0x80, 0)
      ∷ (0xA1, 1)
      ∷ (0x80, 0)
      ∷ (0x21, 0xFF)
      ∷ (0xA1, 0xFF)
      ∷ []
unfolding pic_remap io_wait
remap_test = refl

keyboard_mask_test : activate_keyboard_interrupt 0xFF ≡ (0x21, 0xFD) ∷ []
unfolding activate_keyboard_interrupt
keyboard_mask_test = refl

timer_rate_test :
    activate_timer_interrupt 0xFD ≡ (0x43, 0x36) ∷ (0x40, 0xA9) ∷ (0x40, 0x04) ∷ (0x21, 0xFC) ∷ []
unfolding activate_timer_interrupt
timer_rate_test = refl
