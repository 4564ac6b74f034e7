-- ===== src/Interrupt/Steps.antt =====
-- Sequences of interrupts, interrupt.c: what the process table keeps.
use os_2024_doors.Base.{ℕ, ◌≡◌, ok}
use os_2024_doors.Fat32.Types.{Memory}
use os_2024_doors.Process.Table.{IsConsistent}
use os_2024_doors.Process.Switch.{HasProcess}
use os_2024_doors.Interrupt.{Machine, InterruptFrame, Ending}
use os_2024_doors.Interrupt.Syscall.{main_interrupt_handler}

abbrev pub Keeps : Machine → Type 0
Keeps m = IsConsistent m.processes

-- An interrupt of any kind that returns, from a state where some process is ready or running if it is
-- the timer's, and that stores no result outside the memory of the running process, where the call is
-- a `fault`. Between two interrupts processes change no part of the kernel's state.
pub data Step (m : Machine) : Machine → Type 0 where
  interrupt :
      (stack : Memory) (depth scancode : ℕ) (u : Memory) (f : InterruptFrame) (e : Ending)
      (m' : Machine)
      → (f.int_number ≡ 0x20 → HasProcess m.processes)
      → main_interrupt_handler stack depth scancode m u f ≡ ok (e, m')
      → Step m m'

pub data Steps (m : Machine) : Machine → Type 0 where
  stay : Steps m m
  more : (m1 m2 : Machine) → Steps m m1 → Step m1 m2 → Steps m m2
