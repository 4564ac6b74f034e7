-- ===== src/Interrupt/Preempt.antt =====
-- Processes that the timer interrupts and resumes, interrupt.c.
use os_2024_doors.Base.{ℕ, ◌≡◌, sym, ap, ◌∙◌, inl, inr, arith, some}
use os_2024_doors.Process.{Kernel, Pcb, Context, pcb, current_running, save_context, running}
use os_2024_doors.Process.Table.{IsConsistent}
use os_2024_doors.Process.Switch.{
  switch_to_next-Switched, current-some, state_of, active_lt, state_of-set,
}
use os_2024_doors.Process.Saved.{save_context-Saved, save_context-some}
use os_2024_doors.Process.Turns.{switch_to_next-Kept, LeavesWaiting}
use os_2024_doors.Interrupt.{Machine, InterruptFrame, Ending, switched, timer, frame_context}

-- What the timer's interrupt has done to the process `i` that it interrupted: its block holds the
-- registers of the frame, with the page directory that it had, and the context that is switched to
-- is that of the process that runs now, whose directory is in CR3.
pub record Preempted (k : Kernel) (f : InterruptFrame) (i : ℕ) (end : Ending) (k' : Kernel)
    : Type 0 where
  pub next : ℕ
  pub current : current_running k' ≡ some next
  pub ending : end ≡ switched (pcb k' next).context
  pub directory : k'.cr3 ≡ (pcb k' next).context.page_directory
  pub consistent : IsConsistent k'
  pub saved :
      (pcb k' i).context
      ≡ record (frame_context f) { page_directory = (pcb k i).context.page_directory }

-- From a consistent process table with `i` running, the timer's interrupt saves the registers of its
-- frame in the block of `i`, with the page directory that `i` had, and ends in the context of the
-- process that runs then; the table stays consistent and CR3 holds that process's page directory.
pub timer-Preempted :
    (m : Machine) (f : InterruptFrame) (i : ℕ)
    → IsConsistent m.processes
    → current_running m.processes ≡ some i
    → Preempted m.processes f i (timer m f).0 (timer m f).1.processes
unfolding timer
timer-Preempted m f i t e =
    let k = m.processes in
    let k1 = save_context k (frame_context f) in
    let s = save_context-Saved k (frame_context f) i t e in
    let is = (current-some k1 s.consistent i s.current).1 in
    let sw = switch_to_next-Switched k1 s.consistent (i, λ b. cc) in
    record {
      next = sw.index;
      current = sw.current;
      ending = ap switched sw.restored;
      directory = sw.directory ∙ ap (λ c. c.page_directory) sw.restored;
      consistent = sw.consistent;
      saved = (switch_to_next-Kept k1 s.consistent i s.current).contexts i ∙ s.context;
    }

-- Saving a context leaves a ready process waiting.
pub save_context-LeavesWaiting : (ctx : Context) (e : ℕ) → LeavesWaiting (λ k. save_context k ctx) e
save_context-LeavesWaiting ctx e k i w =
    let s = save_context-Saved k ctx i w.consistent w.current in
    let c = current-some k w.consistent i w.current in
    let q : Pcb = record (pcb k i) {
      context = record ctx { page_directory = (pcb k i).context.page_directory };
    } in
    record {
      consistent = s.consistent;
      current = s.current;
      waiting =
          rw (save_context-some k ctx i w.current)
            (elim (state_of-set k i e q
              (omega (arith, active_lt k w.consistent i (λ b. cc), w.consistent.blocks))) [
                | inl (same, at) ↦ let r : state_of k e ≡ running = rw (sym same) c.1 in cc
                | inr (ne, at) ↦ at ∙ w.waiting
              ]);
    }
