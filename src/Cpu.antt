-- ===== src/Cpu.antt =====
-- gdt.c and idt.c: the tables that the processor reads, and kernel.c, which sets up the kernel. The
-- addresses of the interrupt stubs and of the task state segment are arguments.
pub mod Gates
mod Tests
use os_2024_doors.Base.{
  ℕ, zero, suc, ◌+◌, ◌-◌, ◌*◌, ◌/◌, ◌%◌, ◌^◌, List, [], ◌∷◌, ◌++◌, ◌==◌, if◌then◌else◌, get_or, set,
  replicate, Run, ok, ◌>>=◌, none, some, Option,
}
use os_2024_doors.Fat32.Types.{Memory, Request}
use os_2024_doors.Fat32.Driver.{initialize_filesystem_fat32}
use os_2024_doors.Process.{Kernel, Context, CreateCode, process_create_user_process, switch_to_next}
use os_2024_doors.Framebuffer.{
  Console, init_frame_buffer, framebuffer_clear, framebuffer_set_cursor,
}
use os_2024_doors.Interrupt.{Machine, pic_remap, activate_keyboard_interrupt, scheduler_init}

-- struct SegmentDescriptor
pub record SegmentDescriptor : Type 0 where
  pub segment_low : ℕ
  pub base_low : ℕ
  pub base_mid : ℕ
  pub type_bit : ℕ
  pub non_system : ℕ
  pub privilege_level : ℕ
  pub segment_present : ℕ
  pub segment_high : ℕ
  pub available_bits : ℕ
  pub code_segment : ℕ
  pub default_ops_size : ℕ
  pub granularity : ℕ
  pub base_high : ℕ

abbrev pub gdt_max_entry_count : ℕ
gdt_max_entry_count = 32

abbrev pub null_descriptor : SegmentDescriptor
null_descriptor = record {
  segment_low = 0;
  base_low = 0;
  base_mid = 0;
  type_bit = 0;
  non_system = 0;
  privilege_level = 0;
  segment_present = 0;
  segment_high = 0;
  available_bits = 0;
  code_segment = 0;
  default_ops_size = 0;
  granularity = 0;
  base_high = 0;
}

abbrev pub kernel_code : SegmentDescriptor
kernel_code = record {
  segment_low = 0xFFFF;
  base_low = 0;
  base_mid = 0;
  type_bit = 0xA;
  non_system = 1;
  privilege_level = 0;
  segment_present = 1;
  segment_high = 0xF;
  available_bits = 0;
  code_segment = 0;
  default_ops_size = 1;
  granularity = 1;
  base_high = 0;
}

abbrev pub kernel_data : SegmentDescriptor
kernel_data = record kernel_code { type_bit = 0x2 }

abbrev pub user_code : SegmentDescriptor
user_code = record kernel_code { privilege_level = 3 }

abbrev pub user_data : SegmentDescriptor
user_data = record kernel_data { privilege_level = 3 }

-- sizeof(struct TSSEntry), which has 26 words
abbrev pub tss_size : ℕ
tss_size = 104

abbrev pub tss_descriptor : SegmentDescriptor
tss_descriptor = record null_descriptor {
  segment_low = tss_size;
  type_bit = 0x9;
  segment_present = 1;
  segment_high = tss_size / 2 ^ 16 % 16;
  default_ops_size = 1;
}

abbrev pub global_descriptor_table : List SegmentDescriptor
global_descriptor_table =
    null_descriptor
    ∷ kernel_code
    ∷ kernel_data
    ∷ user_code
    ∷ user_data
    ∷ tss_descriptor
    ∷ replicate (gdt_max_entry_count - 6) null_descriptor

-- `base` is the address of `_interrupt_tss_entry`.
unfoldable pub gdt_install_tss : List SegmentDescriptor → ℕ → List SegmentDescriptor
gdt_install_tss table base = set table 5 (record (get_or table 5 null_descriptor) {
  base_high = base / 2 ^ 24 % 256;
  base_mid = base / 2 ^ 16 % 256;
  base_low = base % 2 ^ 16;
})

-- struct IDTGate
pub record IdtGate : Type 0 where
  pub offset_low : ℕ
  pub segment : ℕ
  pub reserved : ℕ
  pub r_bit_1 : ℕ
  pub r_bit_2 : ℕ
  pub gate_32 : ℕ
  pub r_bit_3 : ℕ
  pub privilege_level : ℕ
  pub valid_bit : ℕ
  pub offset_high : ℕ

abbrev pub isr_stub_table_limit : ℕ
isr_stub_table_limit = 64

abbrev pub kernel_code_selector : ℕ
kernel_code_selector = 0x8

-- A gate of the table before it is set.
abbrev pub zero_gate : IdtGate
zero_gate = record {
  offset_low = 0;
  segment = 0;
  reserved = 0;
  r_bit_1 = 0;
  r_bit_2 = 0;
  gate_32 = 0;
  r_bit_3 = 0;
  privilege_level = 0;
  valid_bit = 0;
  offset_high = 0;
}

-- The gate that `set_interrupt_gate` writes: all its fields are assigned.
abbrev pub gate : ℕ → ℕ → ℕ → IdtGate
gate handler_address gdt_seg_selector privilege = record {
  offset_low = handler_address % 2 ^ 16;
  segment = gdt_seg_selector;
  reserved = 0;
  r_bit_1 = 0;
  r_bit_2 = 6;
  gate_32 = 1;
  r_bit_3 = 0;
  privilege_level = privilege % 4;
  valid_bit = 1;
  offset_high = handler_address / 2 ^ 16 % 2 ^ 16;
}

unfoldable pub set_interrupt_gate : List IdtGate → ℕ → ℕ → ℕ → ℕ → List IdtGate
set_interrupt_gate table int_vector handler_address gdt_seg_selector privilege =
    set table (int_vector % 256) (gate handler_address gdt_seg_selector privilege)

-- The loop from `i` on, by the rounds left.
unfoldable pub set_gates : ℕ → ℕ → (ℕ → ℕ) → List IdtGate → List IdtGate
unfolding set_interrupt_gate
set_gates zero i stubs table = table
set_gates (suc n) i stubs table =
    set_gates n (i + 1) stubs
      (set_interrupt_gate table i (stubs i) kernel_code_selector (if i == 0x30 then 3 else 0))

-- `stubs` is `isr_stub_table`.
unfoldable pub initialize_idt : (ℕ → ℕ) → List IdtGate → List IdtGate
unfolding set_gates
initialize_idt stubs table = set_gates isr_stub_table_limit 0 stubs table

-- The request for the shell's executable, "shell" in the root.
abbrev pub shell_request : Memory → Request
shell_request loaded = record {
  buf = loaded;
  name = 115 ∷ 104 ∷ 101 ∷ 108 ∷ 108 ∷ 0 ∷ 0 ∷ 0 ∷ [];
  ext = 0 ∷ 0 ∷ 0 ∷ [];
  parent_cluster_number = 2;
  buffer_size = 0x100000;
}

abbrev pub home : Console → Console
home s =
    let s' = init_frame_buffer s in
    framebuffer_set_cursor (record s' { screen = framebuffer_clear s'.screen }) 0 0

-- Past the processor's tables. `past` is what follows the literal of the file system's root, `mask`
-- and `mask'` the bytes at the controller's port, and `loaded` the memory at address 0.
unfoldable pub kernel_setup :
    List ℕ → ℕ → ℕ → Memory → Machine → Run (CreateCode × Context × Machine)
unfolding scheduler_init
kernel_setup past mask mask' loaded m =
    let m1 : Machine = record m {
      console = home m.console;
      processes = record m.processes { fs = initialize_filesystem_fat32 past m.processes.fs };
      sent = m.sent ++ pic_remap ++ activate_keyboard_interrupt mask;
    } in
    process_create_user_process m1.processes 0 (shell_request loaded) >>= λ (code, k).
    let m2 = scheduler_init (record m1 { processes = k }) mask' in
    let (ctx, k') = switch_to_next m2.processes in ok (code, ctx, record m2 { processes = k' })
