-- ===== src/Interrupt.antt =====
-- interrupt.c: the interrupt handler over the whole kernel's state. The bytes sent to ports are
-- recorded with their ports, in order. Structures in the memory of the interrupted process are
-- read and written there, by address.
pub mod Syscall
pub mod Steps
pub mod Preempt
pub mod Tests
use os_2024_doors.Base.{
  ℕ, ◌+◌, ◌-◌, ◌/◌, ◌%◌, ◌^◌, List, [], ◌∷◌, ◌++◌, leb, if◌then◌else◌, bit_and, bit_or, Run, ok,
  ◌>>=◌, ◌==◌,
}
use os_2024_doors.Fat32.Types.{Memory}
use os_2024_doors.Process.{
  Kernel, CpuRegister, Context, Metadata, save_context, switch_to_next, start_running,
}
use os_2024_doors.Paging.{null}
use os_2024_doors.Keyboard.{KeyboardState, keyboard_isr, pic_ack}
use os_2024_doors.Framebuffer.{Console}
use os_2024_doors.Cmos.{Registers}

abbrev pub pic1_offset : ℕ
pic1_offset = 0x20

abbrev pub pic2_offset : ℕ
pic2_offset = 0x28

abbrev pub pic1_command : ℕ
pic1_command = 0x20

abbrev pub pic1_data : ℕ
pic1_data = 0x21

abbrev pub pic2_command : ℕ
pic2_command = 0xA0

abbrev pub pic2_data : ℕ
pic2_data = 0xA1

abbrev pub pic_disable_all_mask : ℕ
pic_disable_all_mask = 0xFF

abbrev pub icw1_icw4 : ℕ
icw1_icw4 = 0x01

abbrev pub icw1_init : ℕ
icw1_init = 0x10

abbrev pub icw4_8086 : ℕ
icw4_8086 = 0x01

abbrev pub irq_timer : ℕ
irq_timer = 0

abbrev pub irq_keyboard : ℕ
irq_keyboard = 1

abbrev pub pit_timer_counter : ℕ
pit_timer_counter = 1193182 / 1000

abbrev pub pit_command_register : ℕ
pit_command_register = 0x43

-- The square wave, the low byte before the high one.
abbrev pub pit_command_value : ℕ
pit_command_value = bit_or 6 48

abbrev pub pit_channel_0_data : ℕ
pit_channel_0_data = 0x40

-- Bytes that are sent, each with its port.
abbrev pub Sent : Type 0
Sent = List (ℕ × ℕ)

-- struct InterruptStack
pub record InterruptStack : Type 0 where
  pub error_code : ℕ
  pub eip : ℕ
  pub cs : ℕ
  pub eflags : ℕ
  pub esp : ℕ

-- struct InterruptFrame
pub record InterruptFrame : Type 0 where
  pub cpu : CpuRegister
  pub int_number : ℕ
  pub int_stack : InterruptStack

-- The kernel's state: its processes, files and frames, the keyboard, the console, the registers of
-- the clock, `metadata_list`, and what was sent to ports.
pub record Machine : Type 0 where
  pub processes : Kernel
  pub keyboard : KeyboardState
  pub console : Console
  pub clock : Registers
  pub metadata_list : List Metadata
  pub sent : Sent

-- `port_in` is the byte that the port holds.
unfoldable pub activate_keyboard_interrupt : ℕ → Sent
activate_keyboard_interrupt port_in =
    (pic1_data, bit_and port_in (2 ^ 32 - 1 - 2 ^ irq_keyboard) % 256) ∷ []

unfoldable pub io_wait : Sent
io_wait = (0x80, 0) ∷ []

-- A byte for the controllers, and the wait.
abbrev pub slowly : ℕ → ℕ → Sent
unfolding io_wait
slowly port data_byte = (port, data_byte) ∷ io_wait

unfoldable pub pic_remap : Sent
pic_remap =
    slowly pic1_command (bit_or icw1_init icw1_icw4)
    ++ slowly pic2_command (bit_or icw1_init icw1_icw4)
    ++ slowly pic1_data pic1_offset
    ++ slowly pic2_data pic2_offset
    ++ slowly pic1_data 4
    ++ slowly pic2_data 2
    ++ slowly pic1_data icw4_8086
    ++ slowly pic2_data icw4_8086
    ++ (pic1_data, pic_disable_all_mask) ∷ (pic2_data, pic_disable_all_mask) ∷ []

unfoldable pub activate_timer_interrupt : ℕ → Sent
activate_timer_interrupt port_in =
    (pit_command_register, pit_command_value)
    ∷ (pit_channel_0_data, pit_timer_counter % 256)
    ∷ (pit_channel_0_data, pit_timer_counter / 256 % 256)
    ∷ (pic1_data, bit_and port_in (2 ^ 32 - 1 - 2 ^ irq_timer) % 256)
    ∷ []

-- scheduler.c
unfoldable pub scheduler_init : Machine → ℕ → Machine
unfolding activate_timer_interrupt start_running
scheduler_init m port_in = record m {
  processes = start_running m.processes;
  sent = m.sent ++ activate_timer_interrupt port_in;
}

-- How an interrupt ends: at the instruction that was interrupted, with the memory of its process, or
-- in the context of a process that is switched to.
pub data Ending : Type 0 where
  resumed : Memory → Ending
  switched : Context → Ending

-- The registers of the frame; the page directory of `ctx` is not set, and not read either.
abbrev pub frame_context : InterruptFrame → Context
frame_context f = record {
  cpu = f.cpu;
  eip = f.int_stack.eip;
  eflags = f.int_stack.eflags;
  page_directory = null;
}

-- The case of the timer.
unfoldable pub timer : Machine → InterruptFrame → Ending × Machine
timer m f =
    let (ctx, k) = switch_to_next (save_context m.processes (frame_context f)) in
    (switched ctx, record m { processes = k; sent = m.sent ++ pic_ack irq_timer })

-- The case of the keyboard, with the byte read from its port.
unfoldable pub key : Machine → ℕ → Machine
key m scancode =
    let (s, sent) = keyboard_isr m.keyboard scancode in
    record m { keyboard = s; sent = m.sent ++ sent }
