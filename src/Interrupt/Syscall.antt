-- ===== src/Interrupt/Syscall.antt =====
-- interrupt.c: `syscall` and `main_interrupt_handler`. The memory is that of the interrupted
-- process, by address; `stack` is what an uninitialised buffer of the kernel holds, and `depth` the
-- depth that folders may have. The code stores results where the process says, without a check and
-- with the kernel's rights. A result that would leave the memory of the process is the outcome
-- `fault`: what the code does once a page is missing or the kernel's own variables are overwritten
-- is not modelled.
use os_2024_doors.Base.{
  ℕ, zero, suc, ◌+◌, ◌-◌, ◌*◌, ◌%◌, ◌^◌, Bool, false, not, ◌&&◌, ◌||◌, List, [], ◌∷◌, ◌++◌, leb,
  if◌then◌else◌, Run, ok, fault, ◌>>=◌, ◌==◌, ℤ, pos, negsuc, get_or, length, drop,
}
use os_2024_doors.Fat32.Types.{
  Memory, Request, State, DirectoryTable, cluster_size, cluster_number, end_of_file, fetch, store,
}
use os_2024_doors.Fat32.Layout.{le16, le32, word32}
use os_2024_doors.Fat32.Driver.{read_clusters}
use os_2024_doors.Fat32.Find.{
  chain_fuel, is_file, read, read_directory, search_file, get_cluster_number,
}
use os_2024_doors.Fat32.Write.{write}
use os_2024_doors.Fat32.Delete.{delete, delete_folder_rec}
use os_2024_doors.Fat32.Copy.{copy_folder, copy_file}
use os_2024_doors.Process.{
  Metadata, ProcessState, blocked, ready, running, CreateCode, success, max_process_exceeded,
  invalid_entrypoint, not_enough_memory, fs_read_failure, process_exit, process_destroy,
  process_create_user_process, get_process_list,
}
use os_2024_doors.Paging.{null, kernel, listed, directory, page_index}
use os_2024_doors.Keyboard.{activate, get_buffer, is_shift}
use os_2024_doors.Framebuffer.{
  clear_screen, set_cursor_col, move_screen, framebuffer_write, disable_cursor, enable_cursor,
  Console,
}
use os_2024_doors.Framebuffer.Text.{put_char_color, puts}
use os_2024_doors.Cmos.{Time, read_rtc, get_timestamp}
use os_2024_doors.Interrupt.{
  pic1_offset, irq_keyboard, irq_timer, Machine, InterruptFrame, Ending, resumed, timer, key,
}

-- The values of the `switch`, from 0 on.
pub data Call : Type 0 where
  call_read call_read_directory call_write call_delete : Call
  call_keyboard_char call_put_char call_puts call_activate_keyboard call_clear_screen : Call
  call_read_clusters call_set_cursor_col : Call
  call_search_file call_cluster_number call_copy_folder call_copy_file call_delete_rec : Call
  call_move_screen call_is_shift call_is_cursor_viewable : Call
  call_exit call_kill call_exec call_ps : Call
  call_time call_write_cell call_timestamp call_disable_cursor call_enable_cursor : Call
  call_unknown : Call

abbrev pub calls : List Call
calls =
    call_read ∷ call_read_directory ∷ call_write ∷ call_delete ∷ call_keyboard_char ∷ call_put_char
    ∷ call_puts ∷ call_activate_keyboard ∷ call_clear_screen ∷ call_read_clusters
    ∷ call_set_cursor_col ∷ call_search_file ∷ call_cluster_number ∷ call_copy_folder
    ∷ call_copy_file ∷ call_delete_rec ∷ call_move_screen ∷ call_is_shift ∷ call_is_cursor_viewable
    ∷ call_exit ∷ call_kill ∷ call_exec ∷ call_ps ∷ call_time ∷ call_write_cell ∷ call_timestamp
    ∷ call_disable_cursor ∷ call_enable_cursor ∷ []

-- struct FAT32DriverRequest at an address, with the memory behind its pointer.
abbrev pub buf_at : Memory → ℕ → ℕ
buf_at m p = word32 (fetch m p 4) 0

abbrev pub request_at : Memory → ℕ → Request
request_at m p = record {
  buf = λ i. m (buf_at m p + i);
  name = fetch m (p + 4) 8;
  ext = fetch m (p + 12) 3;
  parent_cluster_number = word32 (fetch m (p + 15) 4) 0;
  buffer_size = word32 (fetch m (p + 19) 4) 0;
}

-- Does the directory in use map the page of an address to a frame of the process? The kernel is in
-- page frame 0.
abbrev pub own_page : Machine → ℕ → Bool
own_page m a = elim m.processes.cr3 [
  | null ↦ false
  | kernel ↦ false
  | listed i ↦
      let e = directory m.processes.paging i (page_index a) in
      e.flag.present_bit && not (e.lower_address == 0)
]

-- Are the bytes in memory of the process? No result is as long as a page.
abbrev pub own : Machine → ℕ → ℕ → Bool
own m p n = n == 0 || (own_page m p && (own_page m (p + n - 1) && leb (p + n) (2 ^ 32)))

-- Bytes stored at an address of the process.
abbrev pub put : Machine → Memory → ℕ → List ℕ → Run Memory
put m u p bs = if own m p (length bs) then ok (store u p bs) else fault

-- The memory once that behind a pointer is replaced.
abbrev pub behind : Memory → ℕ → Memory → Memory
behind m p b a = if leb p a then b (a - p) else m a

-- The buffer of a request, replaced by what the file system leaves in it: so many clusters.
abbrev pub put_buffer : ℕ → Machine → Memory → ℕ → Memory → Run Memory
put_buffer clusters m u p b =
    if own m (buf_at u p) (clusters * cluster_size) then ok (behind u (buf_at u p) b) else fault

-- How many clusters `read` and `read_directory` store: with the result 0 the chain of the file, or
-- the table of the folder, else none.
abbrev pub chain_extent : ℕ → List ℕ → ℕ → ℕ
chain_extent zero map c = 0
chain_extent (suc n) map c =
    let rest = chain_extent n map (get_or map c 0) in if c == end_of_file then 0 else suc rest

abbrev pub file_extent : Request → List ℕ → DirectoryTable → ℕ
file_extent r map [] = 0
file_extent r map (e ∷ es) =
    let rest = file_extent r map es in
    if is_file r e then chain_extent chain_fuel map (cluster_number e) else rest

abbrev pub stored_clusters : ℤ → ℕ → ℕ
stored_clusters (pos n) clusters = if n == 0 then clusters else 0
stored_clusters (negsuc n) clusters = 0

-- A number as an int8_t.
abbrev pub int8 : ℤ → List ℕ
int8 (pos n) = n % 256 ∷ []
int8 (negsuc n) = (255 - n % 256) ∷ []

abbrev pub bool_byte : Bool → List ℕ
bool_byte b = (if b then 1 else 0) ∷ []

abbrev pub create_code : CreateCode → ℕ
create_code success = 0
create_code max_process_exceeded = 1
create_code invalid_entrypoint = 2
create_code not_enough_memory = 3
create_code fs_read_failure = 4

abbrev pub state_code : ProcessState → ℕ
state_code blocked = 0
state_code ready = 1
state_code running = 2

-- struct ProcessList
abbrev pub encode_metadata : List Metadata → List ℕ
encode_metadata [] = []
encode_metadata (d ∷ ds) =
    le32 d.pid ++ le32 (state_code d.state) ++ d.process_name ++ encode_metadata ds

-- The six pointers are read before the call.
abbrev pub put_time : Machine → Memory → ℕ → Time → Run Memory
put_time m u p t =
    let at : ℕ → ℕ = λ i. word32 (fetch u (p + i) 4) 0 in
    put m u (at 20) (le16 t.second) >>= λ u1. put m u1 (at 16) (le16 t.minute) >>= λ u2.
    put m u2 (at 12) (le16 t.hour) >>= λ u3. put m u3 (at 8) (le16 t.day) >>= λ u4.
    put m u4 (at 4) (le16 t.month) >>= λ u5. put m u5 (at 0) (le16 t.year)

-- The state after a change of one part.
abbrev pub with_fs : Machine → State → Machine
with_fs m s = record m { processes = record m.processes { fs = s } }

abbrev pub with_console : Machine → Console → Machine
with_console m s = record m { console = s }

-- A result, stored at an address.
abbrev pub answer : Memory → ℕ → List ℕ → Machine → Run (Memory × Machine)
answer u p bs m = put m u p bs >>= λ w. ok (w, m)

-- A result code of the file system, stored at an address.
abbrev pub reply : Machine → Memory → ℕ → Run (ℤ × State) → Run (Memory × Machine)
reply m u p r = r >>= λ (code, s). answer u p (int8 code) (with_fs m s)

abbrev pub shown : Machine → Memory → Run Console → Run (Memory × Machine)
shown m u r = r >>= λ s. ok (u, with_console m s)

unfoldable pub dispatch : Memory → ℕ → Call → Machine → Memory → ℕ → ℕ → ℕ → Run (Memory × Machine)
dispatch stack depth call_read m u b c d =
    read m.processes.fs (request_at u b) >>= λ (code, s, buf).
    put_buffer
      (stored_clusters code (file_extent (request_at u b) s.cluster_map (drop 2 s.dir_table_buf))) m
      u b buf
    >>= λ w. answer w c (int8 code) (with_fs m s)
dispatch stack depth call_read_directory m u b c d =
    read_directory m.processes.fs (request_at u b) >>= λ (code, s, buf).
    put_buffer (stored_clusters code 1) m u b buf >>= λ w. answer w c (int8 code) (with_fs m s)
dispatch stack depth call_write m u b c d = reply m u c (write m.processes.fs (request_at u b))
dispatch stack depth call_delete m u b c d = reply m u c (delete m.processes.fs (request_at u b))
dispatch stack depth call_keyboard_char m u b c d =
    let (char, k) = get_buffer m.keyboard in answer u b (char ∷ []) (record m { keyboard = k })
dispatch stack depth call_put_char m u b c d = shown m u (put_char_color m.console (b % 256) c)
dispatch stack depth call_puts m u b c d = shown m u (puts m.console (fetch u b c) c d)
dispatch stack depth call_activate_keyboard m u b c d =
    ok (u, record m { keyboard = activate m.keyboard })
dispatch stack depth call_clear_screen m u b c d = ok (u, with_console m (clear_screen m.console))
dispatch stack depth call_read_clusters m u b c d =
    answer u b (read_clusters m.processes.fs.disk c (d % 256)) m
dispatch stack depth call_set_cursor_col m u b c d =
    ok (u, with_console m (set_cursor_col m.console b))
dispatch stack depth call_search_file m u b c d =
    reply m u c (search_file m.processes.fs (request_at u b))
dispatch stack depth call_cluster_number m u b c d =
    get_cluster_number m.processes.fs (request_at u b) >>= λ (n, s).
    answer u c (le32 n) (with_fs m s)
dispatch stack depth call_copy_folder m u b c d =
    reply m u d (copy_folder stack depth m.processes.fs b c)
dispatch stack depth call_copy_file m u b c d =
    reply m u d (copy_file stack m.processes.fs (request_at u b) (request_at u c))
dispatch stack depth call_delete_rec m u b c d =
    reply m u c (delete_folder_rec depth m.processes.fs (request_at u b))
dispatch stack depth call_move_screen m u b c d = shown m u (move_screen m.console (b % 256))
dispatch stack depth call_is_shift m u b c d = answer u b (bool_byte (is_shift m.keyboard)) m
dispatch stack depth call_is_cursor_viewable m u b c d =
    answer u b (bool_byte m.console.is_cursor_viewable) m
dispatch stack depth call_exit m u b c d =
    process_exit m.processes >>= λ k. ok (u, record m { processes = k })
dispatch stack depth call_kill m u b c d =
    process_destroy m.processes (word32 (fetch u b 4) 0) >>= λ (done, k).
    answer u c (bool_byte done) (record m { processes = k })
dispatch stack depth call_exec m u b c d =
    process_create_user_process m.processes (buf_at u b) (request_at u b) >>= λ (code, k).
    answer u c (le32 (create_code code)) (record m { processes = k })
dispatch stack depth call_ps m u b c d =
    let entries = get_process_list m.processes in
    let all = entries ++ drop (length entries) m.metadata_list in
    answer u b (encode_metadata all ++ le32 (length entries)) (record m { metadata_list = all })
dispatch stack depth call_time m u b c d = put_time m u b (read_rtc m.clock) >>= λ w. ok (w, m)
dispatch stack depth call_write_cell m u b c d =
    ok (u, with_console m (framebuffer_write m.console b c (d % 256) 0xA 0))
dispatch stack depth call_timestamp m u b c d = answer u b (le32 (get_timestamp m.clock)) m
dispatch stack depth call_disable_cursor m u b c d =
    ok (u, with_console m (disable_cursor m.console))
dispatch stack depth call_enable_cursor m u b c d = ok (u, with_console m (enable_cursor m.console))
dispatch stack depth call_unknown m u b c d = ok (u, m)

unfoldable pub syscall : Memory → ℕ → Machine → Memory → InterruptFrame → Run (Memory × Machine)
syscall stack depth m u f =
    dispatch stack depth (get_or calls f.cpu.eax call_unknown) m u f.cpu.ebx f.cpu.ecx f.cpu.edx

-- `scancode` is the byte that the keyboard's port holds.
unfoldable pub main_interrupt_handler :
    Memory → ℕ → ℕ → Machine → Memory → InterruptFrame → Run (Ending × Machine)
main_interrupt_handler stack depth scancode m u f =
    if f.int_number == pic1_offset + irq_keyboard
    then ok (resumed u, key m scancode)
    else if f.int_number == pic1_offset + irq_timer
    then ok (timer m f)
    else if f.int_number == 0x30
    then (syscall stack depth m u f >>= λ (u', m'). ok (resumed u', m'))
    else ok (resumed u, m)
