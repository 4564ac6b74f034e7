-- ===== src/Process.antt =====
-- process.c, scheduler.c and their headers: process control blocks, creation and destruction of
-- processes, and the round-robin scheduler.
pub mod Table
pub mod Scheduler
pub mod Switch
pub mod Create
pub mod Destroy
pub mod Saved
pub mod Turns
pub mod Tests
use os_2024_doors.Base.{
  ℤ, ℕ, zero, suc, ◌+◌, ◌-◌, ◌*◌, ◌%◌, ◌^◌, Bool, true, false, not, ◌&&◌, ◌||◌, List, [], ◌∷◌,
  Option, none, some, ◌==◌, ltb, leb, if◌then◌else◌, Run, ok, fault, ◌>>=◌, is_zero, get_or, set,
  take, replicate, bit_or,
}
use os_2024_doors.Paging.{
  Paging, DirPtr, null, kernel, listed, first_free, page_frame_size, frames_needed,
  paging_allocate_check, paging_allocate_user_page_frame, paging_create_new_page_directory,
  paging_free_page_directory,
}
use os_2024_doors.Fat32.Types.{State, Request}
use os_2024_doors.Fat32.Find.{read}

abbrev pub process_count_max : ℕ
process_count_max = 16

abbrev pub process_page_frame_count_max : ℕ
process_page_frame_count_max = 8

abbrev pub kernel_virtual_address_base : ℕ
kernel_virtual_address_base = 0xC0000000

abbrev pub user_data_selector : ℕ
user_data_selector = 0x20

-- enum PROCESS_STATE
pub data ProcessState : Type 0 where
  blocked ready running : ProcessState

-- struct CPURegister
pub record CpuRegister : Type 0 where
  pub edi : ℕ
  pub esi : ℕ
  pub ebp : ℕ
  pub esp : ℕ
  pub ebx : ℕ
  pub edx : ℕ
  pub ecx : ℕ
  pub eax : ℕ
  pub gs : ℕ
  pub fs : ℕ
  pub es : ℕ
  pub ds : ℕ

-- struct Context
pub record Context : Type 0 where
  pub cpu : CpuRegister
  pub eip : ℕ
  pub eflags : ℕ
  pub page_directory : DirPtr

-- The `metadata` of a block.
pub record Metadata : Type 0 where
  pub pid : ℕ
  pub state : ProcessState
  pub process_name : List ℕ

-- struct ProcessControlBlock
pub record Pcb : Type 0 where
  pub metadata : Metadata
  pub context : Context
  pub virtual_addr_used : List ℕ
  pub page_frame_used_count : ℕ

abbrev pub zero_cpu : CpuRegister
zero_cpu = record {
  edi = 0;
  esi = 0;
  ebp = 0;
  esp = 0;
  ebx = 0;
  edx = 0;
  ecx = 0;
  eax = 0;
  gs = 0;
  fs = 0;
  es = 0;
  ds = 0;
}

-- A block of zeros: state 0 is BLOCKED, and the pointer is NULL.
abbrev pub zero_pcb : Pcb
zero_pcb = record {
  metadata = record { pid = 0; state = blocked; process_name = replicate 8 0 };
  context = record { cpu = zero_cpu; eip = 0; eflags = 0; page_directory = null };
  virtual_addr_used = replicate process_page_frame_count_max 0;
  page_frame_used_count = 0;
}

-- `_process_list`, `process_manager_state`, the memory manager, the file system and the directory
-- that CR3 points at. The loaded bytes of a process are not part of the state.
pub record Kernel : Type 0 where
  pub process_list : List Pcb
  pub active_process_count : ℕ
  pub pid_used : List Bool
  pub paging : Paging
  pub fs : State
  pub cr3 : DirPtr

-- PROCESS_CREATE_*
pub data CreateCode : Type 0 where
  success max_process_exceeded invalid_entrypoint not_enough_memory fs_read_failure : CreateCode

-- `none` is -1.
unfoldable pub process_list_get_inactive_index : Kernel → Option ℕ
unfolding first_free
process_list_get_inactive_index k = first_free k.pid_used 0

abbrev pub is_running : ProcessState → Bool
is_running running = true
is_running _ = false

abbrev pub is_ready : ProcessState → Bool
is_ready ready = true
is_ready _ = false

-- The index from `i` on of the first block in use that is running.
unfoldable pub running_index : List Bool → List Pcb → ℕ → Option ℕ
running_index [] ps i = none
running_index (u ∷ us) [] i = none
running_index (u ∷ us) (p ∷ ps) i =
    let rest = running_index us ps (i + 1) in
    if u && is_running p.metadata.state then some i else rest

-- `process_get_current_running_pcb_pointer`: the pointer is an index of `_process_list`.
unfoldable pub current_running : Kernel → Option ℕ
unfolding running_index
current_running k = running_index k.pid_used k.process_list 0

abbrev pub pcb : Kernel → ℕ → Pcb
pcb k i = get_or k.process_list i zero_pcb

abbrev pub set_pcb : Kernel → ℕ → Pcb → Kernel
set_pcb k i p = record k { process_list = set k.process_list i p }

abbrev pub set_state : Pcb → ProcessState → Pcb
set_state p s = record p { metadata = record p.metadata { state = s } }

-- The loop that maps the frames of a new process; its results are ignored.
unfoldable pub map_frames : ℕ → ℕ → Paging → ℕ → ℕ → Paging
map_frames zero i p d buf = p
map_frames (suc n) i p d buf =
    map_frames n (i + 1)
      (paging_allocate_user_page_frame p d ((buf + i * page_frame_size) % 2 ^ 32)).1 d buf

-- The loop that records the addresses of the frames.
unfoldable pub record_frames : ℕ → ℕ → List ℕ → ℕ → List ℕ
record_frames zero i used buf = used
record_frames (suc n) i used buf =
    record_frames n (i + 1) (set used i ((buf + i * page_frame_size) % 2 ^ 32)) buf

-- The block of a new process: the fields that are not assigned keep what was there.
unfoldable pub new_pcb : Pcb → ℕ → ℕ → ℕ → Request → DirPtr → Pcb
new_pcb old index frames buf r dir = record {
  metadata = record { pid = index; state = ready; process_name = take 8 r.name };
  context = record old.context {
    cpu = record old.context.cpu {
      ds = user_data_selector;
      es = user_data_selector;
      fs = user_data_selector;
      gs = user_data_selector;
      esp = page_frame_size;
    };
    eflags = bit_or old.context.eflags (bit_or 0x2 0x200);
    page_directory = dir;
  };
  virtual_addr_used = record_frames frames 0 old.virtual_addr_used buf;
  page_frame_used_count = frames;
}

-- After the read: its code and the file system. An index of -1 is a fault.
unfoldable pub finish_process :
    Kernel → Paging → State → ℤ → ℕ → ℕ → Request → DirPtr → Run (CreateCode × Kernel)
unfolding process_list_get_inactive_index new_pcb
finish_process k p fs' code buf frames r dir =
    if not (is_zero code)
    then ok (fs_read_failure, record k { paging = p; fs = fs' })
    else elim (process_list_get_inactive_index k) [
      | none ↦ fault
      | some i ↦ ok (
        success,
        record k {
          process_list = set k.process_list i (new_pcb (pcb k i) i frames buf r dir);
          active_process_count = k.active_process_count + 1;
          pid_used = set k.pid_used i true;
          paging = p;
          fs = fs';
        },
      )
    ]

-- Once the frames are mapped: read the executable and fill the block. `p` is the memory manager
-- after the mapping.
unfoldable pub load_process : Kernel → Paging → ℕ → ℕ → Request → DirPtr → Run (CreateCode × Kernel)
load_process k p buf frames r dir =
    read k.fs r >>= λ (code, fs', _). finish_process k p fs' code buf frames r dir

-- With the result of `paging_create_new_page_directory`, which is never the kernel's directory.
unfoldable pub create_in : Kernel → ℕ → ℕ → Request → DirPtr → Paging → Run (CreateCode × Kernel)
unfolding map_frames
create_in k buf frames r null p = ok (not_enough_memory, k)
create_in k buf frames r kernel p = fault
create_in k buf frames r (listed d) p =
    load_process k (map_frames frames 0 p d buf) buf frames r (listed d)

-- `buf` is the address in `request.buf`. CR3 is restored on every path that changed it.
unfoldable pub process_create_user_process : Kernel → ℕ → Request → Run (CreateCode × Kernel)
unfolding create_in load_process finish_process
process_create_user_process k buf r =
    let frames = frames_needed r.buffer_size in
    if leb process_count_max k.active_process_count
    then ok (max_process_exceeded, k)
    else if leb kernel_virtual_address_base buf
    then ok (invalid_entrypoint, k)
    else if not (paging_allocate_check k.paging r.buffer_size)
        || ltb process_page_frame_count_max frames
    then ok (not_enough_memory, k)
    else let (dir, p) = paging_create_new_page_directory k.paging in create_in k buf frames r dir p

-- The rest of `process_destroy`, with the result of `paging_free_page_directory`.
unfoldable pub destroyed : Kernel → ℕ → Bool → Paging → Run (Bool × Kernel)
destroyed k pid check p =
    if not check
    then ok (false, record (set_pcb k pid (set_state (pcb k pid) blocked)) { paging = p })
    else ok (
      true,
      record k {
        process_list = set k.process_list pid zero_pcb;
        active_process_count = (k.active_process_count + 2 ^ 32 - 1) % 2 ^ 32;
        pid_used = set k.pid_used pid false;
        paging = p;
      },
    )

unfoldable pub process_destroy : Kernel → ℕ → Run (Bool × Kernel)
unfolding destroyed
process_destroy k pid =
    if leb process_count_max pid
    then ok (false, k)
    else if not (get_or k.pid_used pid false)
    then ok (false, k)
    else (paging_free_page_directory k.paging (pcb k pid).context.page_directory >>= λ (check, p).
        destroyed k pid check p)

unfoldable pub process_exit : Kernel → Run Kernel
process_exit k = elim (current_running k) [
  | none ↦ ok k
  | some i ↦ process_destroy k (pcb k i).metadata.pid >>= λ (_, k'). ok k'
]

-- The entries that `get_process_list` fills; its `size` is their number.
unfoldable pub used_metadata : List Bool → List Pcb → List Metadata
used_metadata [] ps = []
used_metadata (u ∷ us) [] = []
used_metadata (u ∷ us) (p ∷ ps) =
    if u then p.metadata ∷ used_metadata us ps else used_metadata us ps

unfoldable pub get_process_list : Kernel → List Metadata
unfolding used_metadata
get_process_list k = used_metadata k.pid_used k.process_list

-- `scheduler_init`, past the activation of the timer interrupt.
unfoldable pub start_running : Kernel → Kernel
start_running k = elim (current_running k) [
  | none ↦ k
  | some i ↦ set_pcb k i (set_state (pcb k i) running)
]

-- `scheduler_save_context_to_current_running_pcb`
unfoldable pub save_context : Kernel → Context → Kernel
save_context k ctx = elim (current_running k) [
  | none ↦ k
  | some i ↦
      let p = pcb k i in
      set_pcb k i (record p {
        context = record p.context { cpu = ctx.cpu; eip = ctx.eip; eflags = ctx.eflags };
      })
]

-- The loop of the scheduler from `idx` on, by the rounds left.
unfoldable pub find_ready : ℕ → Kernel → ℕ → ℕ
find_ready zero k idx = idx
find_ready (suc n) k idx =
    let next = find_ready n k ((idx + 1) % process_count_max) in
    if is_ready (pcb k idx).metadata.state then idx else next

-- The running process gives up its turn, and `idx` is where the search starts.
unfoldable pub yield_turn : Kernel → Kernel × ℕ
yield_turn k = elim (current_running k) [
  | none ↦ (k, 0)
  | some i ↦
      (set_pcb k i (set_state (pcb k i) ready), ((pcb k i).metadata.pid + 1) % process_count_max)
]

-- `scheduler_switch_to_next_process`, with the context that it switches to.
unfoldable pub switch_to_next : Kernel → Context × Kernel
switch_to_next k =
    let (k1, start) = yield_turn k in
    let idx = find_ready process_count_max k1 start in
    let next = set_state (pcb k1 idx) running in
    (next.context, record (set_pcb k1 idx next) { cr3 = next.context.page_directory })
