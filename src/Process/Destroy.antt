-- ===== src/Process/Destroy.antt =====
-- Destruction of processes in process.c, and the process table after it.
use os_2024_doors.Base.{
  ℕ, ◌+◌, ◌%◌, ◌-◌, ◌^◌, ◌<◌, ◌≤◌, ◌≡◌, refl, sym, ◌∙◌, inl, inr, Bool, true, false, arith,
  Bool-cases, length, get_or, set, get_or-true_lt, length-set, Run, ok, ◌>>=◌, >>=-eq-ok,
  ok-injective, leb,
}
use mathlib.Core.Path.{subst}
use os_2024_doors.Paging.{Paging, paging_free_page_directory}
use os_2024_doors.Paging.Frames.{free_count, free_count-release, free_count-le}
use os_2024_doors.Process.{
  Kernel, pcb, blocked, zero_pcb, set_pcb, set_state, process_destroy, destroyed, process_count_max,
}
use os_2024_doors.Process.Table.{
  IsTable, IsConsistent, update-IsTable, set-IsTable, other_pid, self_pid, bool_apart,
}

destroy_result :
    (k : Kernel) (pid : ℕ)
    → pid < 16
    → get_or k.pid_used pid false ≡ true
    → process_destroy k pid ≡ (
        paging_free_page_directory k.paging (pcb k pid).context.page_directory >>= λ (check, p).
        destroyed k pid check p)
unfolding process_destroy destroyed
destroy_result k pid lt used =
    let small : leb process_count_max pid ≡ false = ground arith in
    rw (small, used, process_destroy)

module _ (k : Kernel) (t : IsConsistent k) (pid : ℕ) (lt : pid < 16)
    (used : get_or k.pid_used pid false ≡ true) where
  -- Only the state is changed where the page directory is not released.
  stop-IsConsistent : IsConsistent (set_pcb k pid (set_state (pcb k pid) blocked))
  stop-IsConsistent =
      set-IsTable t pid (set_state (pcb k pid) blocked) used (t.named pid used) (λ h j g. cc)

  removed-IsTable :
      IsTable
        (set k.process_list pid zero_pcb)
        (set k.pid_used pid false)
        ((k.active_process_count + 2 ^ 32 - 1) % 2 ^ 32)
  removed-IsTable =
      let il : pid < length k.pid_used = omega (arith, lt, t.pids) in
      update-IsTable t pid zero_pcb (set k.pid_used pid false) _ lt
        (length-set k.pid_used pid false ∙ t.pids) (λ j ne. other_pid k.pid_used pid j false il ne)
        (λ u. absurd (bool_apart (sym u ∙ self_pid k.pid_used pid false il))) (λ u. refl)
        (λ h j g. cc) (omega (arith, free_count-release k.pid_used pid il used, t.counted, full_le))
    where
      full_le : free_count (set k.pid_used pid false) ≤ 16
      full_le =
          omega (
            arith,
            free_count-le (set k.pid_used pid false),
            length-set k.pid_used pid false,
            t.pids,
          )

-- What `process_destroy` has done: it returns true exactly where the pid is given back, with its
-- block cleared and one process fewer counted.
pub data Removed (k : Kernel) (pid : ℕ) : Bool → Kernel → Type 0 where
  kept :
      (k' : Kernel)
      → k'.pid_used ≡ k.pid_used
      → k'.active_process_count ≡ k.active_process_count
      → Removed k pid false k'
  removed :
      (k' : Kernel)
      → get_or k.pid_used pid false ≡ true
      → k'.pid_used ≡ set k.pid_used pid false
      → k'.process_list ≡ set k.process_list pid zero_pcb
      → k'.active_process_count + 1 ≡ k.active_process_count
      → Removed k pid true k'

abbrev pub Destroyed : Kernel → ℕ → Bool → Kernel → Type 0
Destroyed k pid b z = IsConsistent z × Removed k pid b z

module _ (k : Kernel) (t : IsConsistent k) (pid : ℕ) {b : Bool} {k' : Kernel} where
  transported :
      (c : Bool) (z : Kernel)
      → ◌≡◌ {A = Run (Bool × Kernel)} (ok (c, z)) (ok (b, k'))
      → Destroyed k pid c z
      → Destroyed k pid b k'
  transported c z h g = subst (λ x. Destroyed k pid x.0 x.1) (ok-injective h) g

  destroyed-Removed :
      (check : Bool) (p : Paging)
      → pid < 16
      → get_or k.pid_used pid false ≡ true
      → destroyed k pid check p ≡ ok (b, k')
      → Destroyed k pid b k'
  unfolding destroyed
  destroyed-Removed false p lt used h =
      transported false _ h (stop-IsConsistent k t pid lt used, kept _ refl refl)
  destroyed-Removed true p lt used h =
      let after = removed-IsTable k t pid lt used in
      let il : pid < length k.pid_used = omega (arith, lt, t.pids) in
      transported true _ h (
        after,
        removed _ used refl refl
            (omega (arith, after.counted, t.counted, free_count-release k.pid_used pid il used)),
      )

  -- From a consistent state, destroying a process that returns keeps the table consistent; it
  -- returns true only for a pid in use, which is then unused with its block cleared and one process
  -- fewer counted, and where it returns false the pids in use and their count are as they were.
  pub destroy-Removed : process_destroy k pid ≡ ok (b, k') → Destroyed k pid b k'
  unfolding process_destroy
  destroy-Removed h = elim (Bool-cases (leb process_count_max pid)) [
    | inl e ↦ transported false k (rw e at h) (t, kept k refl refl)
    | inr e ↦ elim (Bool-cases (get_or k.pid_used pid false)) [
      | inr e' ↦ transported false k (rw (e, e') at h) (t, kept k refl refl)
      | inl e' ↦
          let lt : pid < 16 = omega (arith, get_or-true_lt k.pid_used pid e', t.pids) in
          let (a, p, q) =
            >>=-eq-ok (paging_free_page_directory k.paging (pcb k pid).context.page_directory) _
              (sym (destroy_result k pid lt e') ∙ h) in
          destroyed-Removed a.0 a.1 lt e' q
    ]
  ]
