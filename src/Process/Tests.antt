-- ===== src/Process/Tests.antt =====
-- Examples for process.c and scheduler.c.
use os_2024_doors.Base.{
  ℕ, zero, suc, ◌+◌, ◌%◌, ◌<◌, ◌≡◌, ◌≢◌, ◌⊎◌, sym, refl, ap, ◌∙◌, true, false, ◌∷◌, some, replicate,
  get_or, get_or-replicate, Run, ok,
}
use os_2024_doors.Paging.{
  initial, listed, paging_free_page_directory, free_entries, free_frame,
  paging_free_user_page_frame, frames_needed, paging_allocate_check,
  paging_create_new_page_directory,
}
use os_2024_doors.Fat32.Types.{State, zero_entry}
use os_2024_doors.Process.{
  Kernel, Pcb, ProcessState, zero_pcb, blocked, ready, running, process_destroy, destroyed,
  process_create_user_process, switch_to_next, find_ready, yield_turn, current_running,
  running_index, pcb,
}
use os_2024_doors.Strings.{memcmp}
use os_2024_doors.Disk.{read_blocks, read_sectors, task_file, addressed}
use os_2024_doors.Fat32.Types.{get_fat, store}
use os_2024_doors.Fat32.Layout.{decode_table, decode_entry}
use os_2024_doors.Fat32.Driver.{load_dir, read_clusters, initial_map}
use os_2024_doors.Fat32.Find.{read, read_entries, read_file, read_chain}
use os_2024_doors.Fat32.Tests.{one_file, x_request}
use os_2024_doors.Paging.{
  first_free, new_directory, paging_allocate_user_page_frame, take_frame,
  update_page_directory_entry,
}
use os_2024_doors.Process.{
  create_in, load_process, finish_process, new_pcb, map_frames, record_frames,
  process_list_get_inactive_index,
}
use os_2024_doors.Process.Table.{IsConsistent}
use os_2024_doors.Process.Switch.{
  HasProcess, Switched, switch_to_next-Switched, switch_to_next-fair,
}
use os_2024_doors.Base.{length, get_elem?}
use os_2024_doors.Process.{save_context, get_process_list, Context}
use os_2024_doors.Process.Saved.{Saved, save_context-Saved, get_process_list_complete}
use os_2024_doors.Process.Destroy.{Destroyed, destroy-Removed}

abbrev block : ℕ → ProcessState → Pcb
block i s = record zero_pcb {
  metadata = record { pid = i; state = s; process_name = 97 ∷ replicate 7 0 };
  context = record zero_pcb.context { page_directory = listed i };
}

abbrev no_files : State
no_files = record {
  cluster_map = replicate 512 0;
  dir_table_buf = replicate 64 zero_entry;
  disk = λ _. replicate 512 0;
}

-- Process 0 is running, process 1 is blocked and process 2 is ready.
abbrev pub three : Kernel
three = record {
  process_list = block 0 running ∷ block 1 blocked ∷ block 2 ready ∷ replicate 13 zero_pcb;
  active_process_count = 3;
  pid_used = true ∷ true ∷ true ∷ replicate 13 false;
  paging = record initial { page_directory_used = true ∷ true ∷ true ∷ replicate 29 false };
  fs = no_files;
  cr3 = listed 0;
}

rest_blocked : (i : ℕ) → (get_or (replicate 13 zero_pcb) i zero_pcb).metadata.state ≡ blocked
rest_blocked i = ap (λ b. b.metadata.state) (get_or-replicate 13 i zero_pcb)

rest_unused : (i : ℕ) → get_or (replicate 13 false) i false ≢ true
rest_unused i h = let e = sym (get_or-replicate 13 i false) ∙ h in cc

blocked_running : blocked ≢ running
blocked_running h = cc

only_first : (i : ℕ) → (pcb three i).metadata.state ≡ running → i ≡ 0
only_first zero h = refl
only_first (suc zero) h = absurd (blocked_running h)
only_first (suc (suc zero)) h = absurd cc
only_first (suc (suc (suc i))) h = absurd (blocked_running (sym (rest_blocked i) ∙ h))

three_named : (i : ℕ) → get_or three.pid_used i false ≡ true → (pcb three i).metadata.pid ≡ i
three_named zero h = refl
three_named (suc zero) h = refl
three_named (suc (suc zero)) h = refl
three_named (suc (suc (suc i))) h = absurd (rest_unused i h)

three_unused :
    (i : ℕ) → get_or three.pid_used i false ≡ false → (pcb three i).metadata.state ≡ blocked
three_unused zero h = absurd cc
three_unused (suc zero) h = refl
three_unused (suc (suc zero)) h = absurd cc
three_unused (suc (suc (suc i))) h = rest_blocked i

pub three-IsConsistent : IsConsistent three
three-IsConsistent = record {
  blocks = refl;
  pids = refl;
  named = three_named;
  unused = three_unused;
  alone = λ i j h g. only_first i h ∙ sym (only_first j g);
  counted = refl;
}

pub three-HasProcess : HasProcess three
three-HasProcess = (0, λ h. cc)

pub three_current : current_running three ≡ some 0
unfolding current_running running_index
three_current = refl

switch_to_next-Switched_example : let (ctx, k') = switch_to_next three in Switched ctx k'
switch_to_next-Switched_example = switch_to_next-Switched three three-IsConsistent three-HasProcess

switch_to_next-fair_example :
    (m : ℕ) × (m < 16)
    × (current_running (switch_to_next three).1 ≡ some ((0 + 1 + m) % 16))
    × ((j : ℕ) → j < m → (pcb three ((0 + 1 + j) % 16)).metadata.state ≢ ready)
    × (((0 + 1 + m) % 16 ≡ 0) ⊎ ((pcb three ((0 + 1 + m) % 16)).metadata.state ≡ ready))
switch_to_next-fair_example = switch_to_next-fair three three-IsConsistent 0 three_current

-- The turn goes from process 0 to process 2.
next_turn : current_running (switch_to_next three).1 ≡ some 2
unfolding current_running running_index switch_to_next find_ready yield_turn
next_turn = refl

abbrev after {ℓ} : {A : Type ℓ} → Run (A × Kernel) → Kernel
after (ok (a, k)) = k
after _ = three

unfoldable destroyed_two : Kernel
unfolding process_destroy destroyed paging_free_page_directory free_entries
    paging_free_user_page_frame free_frame
destroyed_two = after (process_destroy three 2)

destroy_two : process_destroy three 2 ≡ ok (true, destroyed_two)
unfolding destroyed_two
destroy_two = refl

destroy-Removed_example : Destroyed three 2 true destroyed_two
destroy-Removed_example = destroy-Removed three three-IsConsistent 2 destroy_two

-- The same kernel with a disk that holds the file "x".
abbrev with_file : Kernel
with_file = record three { fs = one_file }

unfoldable created_x : Kernel
unfolding process_create_user_process create_in load_process finish_process new_pcb map_frames
    record_frames process_list_get_inactive_index first_free frames_needed paging_allocate_check
    paging_create_new_page_directory new_directory paging_allocate_user_page_frame take_frame
    update_page_directory_entry read read_entries read_file read_chain get_fat load_dir
    read_clusters read_blocks read_sectors task_file addressed decode_table decode_entry memcmp
    initial_map store
created_x = after (process_create_user_process with_file 0 x_request)

abbrev pub registers : Context
registers = record zero_pcb.context { eip = 42; eflags = 0x202 }

save_context-Saved_example : Saved registers 0 three (save_context three registers)
save_context-Saved_example = save_context-Saved three registers 0 three-IsConsistent three_current

get_process_list_complete_example :
    (length (get_process_list three) ≡ 3)
    × ((i : ℕ)
        → get_or three.pid_used i false ≡ true
        → (j : ℕ) × (get_elem? (get_process_list three) j ≡ some (pcb three i).metadata))
get_process_list_complete_example = get_process_list_complete three three-IsConsistent
