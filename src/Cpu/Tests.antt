-- ===== src/Cpu/Tests.antt =====
-- The kernel's tables, and its start from a disk that holds a shell.
use os_2024_doors.Base.{
  ℕ, ◌+◌, ◌*◌, ◌<◌, ◌≤◌, ◌≡◌, ◌⊎◌, refl, sym, ap, ◌∙◌, arith, false, List, [], ◌∷◌, ◌==◌,
  if◌then◌else◌, get_or, set, replicate, get_or-replicate, Run, ok,
}
use os_2024_doors.Strings.{memcmp}
use os_2024_doors.Disk.{Disk, read_blocks, read_sectors, task_file, addressed}
use os_2024_doors.Fat32.Types.{zero_entry, get_fat, store}
use os_2024_doors.Fat32.Layout.{decode_table, decode_entry, decode_fat}
use os_2024_doors.Fat32.Driver.{
  fs_signature, load_dir, read_clusters, is_empty_storage, initialize_filesystem_fat32,
}
use os_2024_doors.Fat32.Find.{read, read_entries, read_file, read_chain}
use os_2024_doors.Paging.{
  initial, frames_needed, paging_allocate_check, paging_create_new_page_directory, null, first_free,
  new_directory, paging_allocate_user_page_frame, take_frame, update_page_directory_entry,
}
use os_2024_doors.Process.{
  Kernel, Context, zero_pcb, zero_cpu, success, process_create_user_process, create_in,
  load_process, finish_process, new_pcb, map_frames, record_frames, process_list_get_inactive_index,
  CreateCode,
}
use os_2024_doors.Process.Table.{IsConsistent}
use os_2024_doors.Process.Switch.{Switched}
use os_2024_doors.Interrupt.{Machine}
use os_2024_doors.Interrupt.Tests.{machine}
use os_2024_doors.Cpu.{
  null_descriptor, global_descriptor_table, gdt_install_tss, IdtGate, zero_gate, initialize_idt,
  kernel_setup,
}
use os_2024_doors.Cpu.Gates.{
  SetGate, gate_at, Installed, initialize_idt-SetGate, gdt_install_tss-Installed,
  kernel_setup-Switched,
}

abbrev stubs : ℕ → ℕ
stubs i = 0xC0100000 + 16 * i

abbrev empty_table : List IdtGate
empty_table = replicate 256 zero_gate

initialize_idt-SetGate_example :
    ((0x30 < 64) × SetGate stubs 0x30 (gate_at (initialize_idt stubs empty_table) 0x30))
    ⊎ ((64 ≤ 0x30) × (gate_at (initialize_idt stubs empty_table) 0x30 ≡ gate_at empty_table 0x30))
initialize_idt-SetGate_example =
    initialize_idt-SetGate stubs empty_table 0x30 refl (λ i lt. omega arith)

gdt_install_tss-Installed_example :
    Installed 0xC0123456 5
      (get_or global_descriptor_table 5 null_descriptor)
      (get_or (gdt_install_tss global_descriptor_table 0xC0123456) 5 null_descriptor)
gdt_install_tss-Installed_example =
    gdt_install_tss-Installed global_descriptor_table 0xC0123456 5 refl (omega arith)

-- A disk with a file system that holds "shell", of five bytes in cluster 3.
abbrev map_sector : List ℕ
map_sector =
    0xF0
    ∷ 0xFF
    ∷ 0xFF
    ∷ 0x0F
    ∷ 0xFF
    ∷ 0xFF
    ∷ 0xFF
    ∷ 0x0F
    ∷ 0xFF
    ∷ 0xFF
    ∷ 0xFF
    ∷ 0x0F
    ∷ 0xFF
    ∷ 0xFF
    ∷ 0xFF
    ∷ 0x0F
    ∷ replicate 496 0

abbrev root_sector : List ℕ
root_sector =
    set
      (set
        (set (set (set (set (set (set (replicate 512 0) 64 115) 65 104) 66 101) 67 108) 68 108) 76
          0xAA)
        90 3)
      92 5

unfoldable shell_disk : Disk
unfolding fs_signature
shell_disk a =
    if a == 0
    then fs_signature
    else if a == 4
    then map_sector
    else if a == 8
    then root_sector
    else replicate 512 0

-- The kernel before its first process.
abbrev no_process : Kernel
no_process = record {
  process_list = replicate 16 zero_pcb;
  active_process_count = 0;
  pid_used = replicate 16 false;
  paging = initial;
  fs = record {
    cluster_map = replicate 512 0;
    dir_table_buf = replicate 64 zero_entry;
    disk = shell_disk;
  };
  cr3 = null;
}

no_process-IsConsistent : IsConsistent no_process
no_process-IsConsistent = record {
  blocks = refl;
  pids = refl;
  named = λ i h. let e = sym (get_or-replicate 16 i false) ∙ h in cc;
  unused = λ i h. ap (λ b. b.metadata.state) (get_or-replicate 16 i zero_pcb);
  alone = λ i j h g.
      let e = sym (ap (λ b. b.metadata.state) (get_or-replicate 16 i zero_pcb)) ∙ h in cc;
  counted = refl;
}

abbrev off : Machine
off = record machine { processes = no_process }

abbrev then_machine : Run (CreateCode × Context × Machine) → Context × Machine
then_machine (ok (c, ctx, z)) = (ctx, z)
then_machine _ = (record { cpu = zero_cpu; eip = 0; eflags = 0; page_directory = null }, off)

unfoldable started_machine : Context × Machine
unfolding kernel_setup process_create_user_process create_in load_process finish_process new_pcb
    map_frames record_frames process_list_get_inactive_index first_free frames_needed
    paging_allocate_check paging_create_new_page_directory new_directory
    paging_allocate_user_page_frame take_frame update_page_directory_entry read read_entries
    read_file read_chain get_fat load_dir read_clusters read_blocks read_sectors task_file addressed
    decode_table decode_entry decode_fat memcmp initialize_filesystem_fat32 is_empty_storage
    shell_disk store
started_machine = then_machine (kernel_setup [] 0xFF 0xFD (λ i. 0) off)

start : kernel_setup [] 0xFF 0xFD (λ i. 0) off ≡ ok (success, started_machine.0, started_machine.1)
unfolding started_machine
start = refl

kernel_setup-Switched_example : Switched started_machine.0 started_machine.1.processes
kernel_setup-Switched_example =
    kernel_setup-Switched [] 0xFF 0xFD (λ i. 0) off started_machine.1 started_machine.0
      no_process-IsConsistent start
