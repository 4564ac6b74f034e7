-- ===== src/Process/Saved.antt =====
-- Saving the context of the running process in scheduler.c, and the list of processes of process.c.
use os_2024_doors.Base.{
  ℕ, suc, ◌+◌, ◌≡◌, refl, sym, ap, ◌∙◌, Bool, true, false, List, [], ◌∷◌, none, some, arith, length,
  get_or, get_elem?, zero, get_or-set_cases, get_or-true_lt, inl, inr,
}
use os_2024_doors.Paging.Frames.{free_count}
use os_2024_doors.Process.{
  Kernel, Pcb, Context, pcb, set_pcb, zero_pcb, current_running, save_context, used_metadata,
  get_process_list,
}
use os_2024_doors.Process.Table.{IsConsistent, set-IsTable}
use os_2024_doors.Process.Switch.{current-some, current-running}

-- The state after the running process `i` was saved: it is still the one that runs, and its block
-- holds the registers, while its page directory is as it was.
pub record Saved (ctx : Context) (i : ℕ) (k k' : Kernel) : Type 0 where
  pub consistent : IsConsistent k'
  pub current : current_running k' ≡ some i
  pub context :
      (pcb k' i).context ≡ record ctx { page_directory = (pcb k i).context.page_directory }

pub save_context-none :
    (k : Kernel) (ctx : Context) → current_running k ≡ none → save_context k ctx ≡ k
unfolding save_context
save_context-none k ctx e = rw (e, save_context)

pub save_context-some :
    (k : Kernel) (ctx : Context) (i : ℕ)
    → current_running k ≡ some i
    → save_context k ctx
      ≡ set_pcb k i (record (pcb k i) {
        context = record (pcb k i).context { cpu = ctx.cpu; eip = ctx.eip; eflags = ctx.eflags };
      })
unfolding save_context
save_context-some k ctx i e = rw (e, save_context)

-- From a consistent state with `i` running, saving a context keeps the state consistent and `i`
-- running, and stores the registers in its block with its own page directory.
pub save_context-Saved :
    (k : Kernel) (ctx : Context) (i : ℕ)
    → IsConsistent k
    → current_running k ≡ some i
    → Saved ctx i k (save_context k ctx)
save_context-Saved k ctx i t e =
    let c = current-some k t i e in
    let q : Pcb = record (pcb k i) {
      context = record (pcb k i).context { cpu = ctx.cpu; eip = ctx.eip; eflags = ctx.eflags };
    } in
    let after = set-IsTable t i q c.0 (t.named i c.0) (λ r j h. t.alone i j c.1 h) in
    let here : pcb (set_pcb k i q) i ≡ q =
      elim (get_or-set_cases k.process_list i i q zero_pcb
        (omega (arith, get_or-true_lt k.pid_used i c.0, t.pids, t.blocks))) [
          | inl (same, at) ↦ at
          | inr (ne, at) ↦ absurd (ne refl)
        ] in
    rw (save_context-some k ctx i e) (record {
      consistent = after;
      current = current-running (set_pcb k i q) after i (ap (λ b. b.metadata.state) here ∙ c.1);
      context = ap (λ b. b.context) here;
    })

length-used :
    (us : List Bool) (ps : List Pcb)
    → length us ≡ length ps
    → length (used_metadata us ps) + free_count us ≡ length us
unfolding used_metadata
length-used [] ps e = refl
length-used (u ∷ us) [] e = absurd (omega arith)
length-used (true ∷ us) (p ∷ ps) e = omega (arith, length-used us ps (omega arith))
length-used (false ∷ us) (p ∷ ps) e = omega (arith, length-used us ps (omega arith))

member :
    (us : List Bool) (ps : List Pcb) (i : ℕ)
    → get_or us i false ≡ true
    → length us ≡ length ps
    → (j : ℕ) × (get_elem? (used_metadata us ps) j ≡ some (get_or ps i zero_pcb).metadata)
unfolding used_metadata
member [] ps i h e = absurd cc
member (u ∷ us) [] i h e = absurd (omega arith)
member (true ∷ us) (p ∷ ps) zero h e = (0, refl)
member (false ∷ us) (p ∷ ps) zero h e = absurd cc
member (true ∷ us) (p ∷ ps) (suc i) h e = let r = member us ps i h (omega arith) in (suc r.0, r.1)
member (false ∷ us) (p ∷ ps) (suc i) h e = member us ps i h (omega arith)

-- In a consistent state the list of processes has as many entries as processes are counted, and the
-- metadata of each pid in use is one of them.
pub get_process_list_complete :
    (k : Kernel)
    → IsConsistent k
    → (length (get_process_list k) ≡ k.active_process_count)
      × ((i : ℕ)
          → get_or k.pid_used i false ≡ true
          → (j : ℕ) × (get_elem? (get_process_list k) j ≡ some (pcb k i).metadata))
unfolding get_process_list
get_process_list_complete k t =
    let same : length k.pid_used ≡ length k.process_list = t.pids ∙ sym t.blocks in
    (
      omega (arith, length-used k.pid_used k.process_list same, t.counted, t.pids),
      λ i h. member k.pid_used k.process_list i h same,
    )
