-- ===== src/Process/Create.antt =====
-- Creation of processes in process.c, and the process table after it.
use os_2024_doors.Base.{
  ℕ, ◌+◌, ◌<◌, ◌≡◌, refl, sym, ap, ◌∙◌, inl, inr, true, false, arith, not, Bool-cases, ℤ,
  Option-cases, ◌||◌, ◌≢◌, none, some, length, get_or, take, set, length-set, Run, ok, fault,
  >>=-eq-ok, ok-injective, leb, ltb, is_zero,
}
use mathlib.Core.Path.{subst}
use os_2024_doors.Paging.{
  first_free, Paging, DirPtr, null, kernel, listed, frames_needed, paging_allocate_check,
  paging_create_new_page_directory,
}
use os_2024_doors.Paging.Frames.{found_free, free_count-use}
use os_2024_doors.Fat32.Types.{Request, State}
use os_2024_doors.Fat32.Find.{read}
use os_2024_doors.Process.{
  Kernel, pcb, Pcb, running, ready, CreateCode, success, max_process_exceeded, invalid_entrypoint,
  not_enough_memory, create_in, finish_process, fs_read_failure, load_process, new_pcb,
  process_create_user_process, process_list_get_inactive_index, map_frames, process_count_max,
  kernel_virtual_address_base, process_page_frame_count_max,
}
use os_2024_doors.Process.Table.{IsConsistent, update-IsTable, other_pid, self_pid, bool_apart}

-- What a call that creates a process has done: on failure the table is as it was; on success an
-- unused index holds a ready block, with that index as pid and the request's name.
pub data Created (k : Kernel) (r : Request) : CreateCode → Kernel → Type 0 where
  failed :
      (code : CreateCode) (k' : Kernel)
      → code ≢ success
      → k'.process_list ≡ k.process_list
      → k'.pid_used ≡ k.pid_used
      → k'.active_process_count ≡ k.active_process_count
      → Created k r code k'
  started :
      (i : ℕ) (q : Pcb) (k' : Kernel)
      → get_or k.pid_used i true ≡ false
      → i < length k.pid_used
      → q.metadata ≡ record { pid = i; state = ready; process_name = take 8 r.name }
      → k'.process_list ≡ set k.process_list i q
      → k'.pid_used ≡ set k.pid_used i true
      → k'.active_process_count ≡ k.active_process_count + 1
      → Created k r success k'

fault-ok {ℓ} : {A : Type ℓ} {a : A} → fault ≡ ok a → ⊥
fault-ok h = absurd cc

module _ (k : Kernel) (p : Paging) (fs' : State) (c : ℤ) (buf frames : ℕ) (r : Request)
    (dir : DirPtr) where
  finish-failed :
      is_zero c ≡ false
      → finish_process k p fs' c buf frames r dir
        ≡ ok (fs_read_failure, record k { paging = p; fs = fs' })
  unfolding finish_process
  finish-failed e = rw (e, finish_process)

  finish-full :
      is_zero c ≡ true
      → first_free k.pid_used 0 ≡ none
      → finish_process k p fs' c buf frames r dir ≡ fault
  unfolding finish_process process_list_get_inactive_index
  finish-full e e' = rw (e, e', finish_process)

  finish-started :
      (i : ℕ)
      → is_zero c ≡ true
      → first_free k.pid_used 0 ≡ some i
      → finish_process k p fs' c buf frames r dir
        ≡ ok (
          success,
          record k {
            process_list = set k.process_list i (new_pcb (pcb k i) i frames buf r dir);
            active_process_count = k.active_process_count + 1;
            pid_used = set k.pid_used i true;
            paging = p;
            fs = fs';
          },
        )
  unfolding finish_process process_list_get_inactive_index
  finish-started i e e' = rw (e, e', finish_process)

  finish-Created :
      {code : CreateCode} {k' : Kernel}
      → finish_process k p fs' c buf frames r dir ≡ ok (code, k')
      → Created k r code k'
  unfolding new_pcb
  finish-Created {code} {k'} h = elim (Bool-cases (is_zero c)) [
    | inr bad ↦
        subst (λ z. Created k r z.0 z.1) (ok-injective (sym (finish-failed bad) ∙ h))
          (failed fs_read_failure _ (λ z. cc) refl refl refl)
    | inl good ↦ elim (Option-cases (first_free k.pid_used 0)) [
      | inl full ↦ let z = sym (finish-full good full) ∙ h in absurd (fault-ok z)
      | inr (i, found) ↦
          let f = found_free k.pid_used i found in
          subst (λ z. Created k r z.0 z.1) (ok-injective (sym (finish-started i good found) ∙ h))
            (started i _ _ f.1 f.0 refl refl refl refl)
    ]
  ]

module _ (k : Kernel) (buf : ℕ) (r : Request) {code : CreateCode} {k' : Kernel} where
  load-Created :
      (p : Paging) (frames : ℕ) (dir : DirPtr)
      → load_process k p buf frames r dir ≡ ok (code, k')
      → Created k r code k'
  unfolding load_process
  load-Created p frames dir h =
      let (a, e, e') = >>=-eq-ok (read k.fs r) _ h in finish-Created k p a.1 a.0 buf frames r dir e'

  refused :
      (c : CreateCode)
      → c ≢ success
      → ◌≡◌ {A = Run (CreateCode × Kernel)} (ok (c, k)) (ok (code, k'))
      → Created k r code k'
  refused c ne h = subst (λ z. Created k r z.0 z.1) (ok-injective h) (failed c k ne refl refl refl)

  create_in-Created :
      (frames : ℕ) (dir : DirPtr) (p : Paging)
      → create_in k buf frames r dir p ≡ ok (code, k')
      → Created k r code k'
  unfolding create_in
  create_in-Created frames null p h = refused not_enough_memory (λ z. cc) h
  create_in-Created frames kernel p h = absurd (fault-ok h)
  create_in-Created frames (listed d) p h =
      load-Created (map_frames frames 0 p d buf) frames (listed d) h

  pub create-Created : process_create_user_process k buf r ≡ ok (code, k') → Created k r code k'
  unfolding process_create_user_process
  create-Created h =
      let frames : ℕ = frames_needed r.buffer_size in
      elim (Bool-cases (leb process_count_max k.active_process_count)) [
        | inl e ↦ refused max_process_exceeded (λ z. cc) (rw e at h)
        | inr e ↦ elim (Bool-cases (leb kernel_virtual_address_base buf)) [
          | inl e' ↦ refused invalid_entrypoint (λ z. cc) (rw (e, e') at h)
          | inr e' ↦
              elim (Bool-cases (
                not (paging_allocate_check k.paging r.buffer_size)
                || ltb process_page_frame_count_max frames)) [
                  | inl e'' ↦ refused not_enough_memory (λ z. cc) (rw (e, e', e'') at h)
                  | inr e'' ↦
                      let np = paging_create_new_page_directory k.paging in
                      create_in-Created frames np.0 np.1 (rw (e, e', e'') at h)
                ]
        ]
      ]

states_apart : ready ≢ running
states_apart h = cc

-- What was created keeps the table consistent.
Created-IsConsistent :
    (k : Kernel) (r : Request) {code : CreateCode} {k' : Kernel}
    → IsConsistent k
    → Created k r code k'
    → IsConsistent k'
Created-IsConsistent k r t (failed code k' ne e1 e2 e3) = rw (e1, e2, e3) t
Created-IsConsistent k r t (started i q k' free lt meta e1 e2 e3) =
    rw (e1, e2, e3)
      (update-IsTable t i q (set k.pid_used i true) (k.active_process_count + 1)
        (omega (arith, lt, t.pids)) (length-set k.pid_used i true ∙ t.pids)
        (λ j ne. other_pid k.pid_used i j true lt ne) (λ u. ap (λ m. m.pid) meta)
        (λ u. absurd (bool_apart (sym (self_pid k.pid_used i true lt) ∙ u)))
        (λ run j h. absurd (states_apart (sym (ap (λ m. m.state) meta) ∙ run)))
        (omega (arith, free_count-use k.pid_used i lt free, t.counted)))

pub create-IsConsistent :
    (k : Kernel) (buf : ℕ) (r : Request) {code : CreateCode} {k' : Kernel}
    → IsConsistent k
    → process_create_user_process k buf r ≡ ok (code, k')
    → IsConsistent k'
create-IsConsistent k buf r t h = Created-IsConsistent k r t (create-Created k buf r h)
