-- ===== src/Process/Switch.antt =====
-- The context switch of scheduler.c: the state after it, and whose turn it is.
use os_2024_doors.Base.{
  ℕ, ◌+◌, ◌%◌, ◌<◌, ◌≡◌, refl, sym, ap, ◌∙◌, inl, inr, ◌⊎◌, true, false, arith, Option-cases,
  dec_lt, ◌≢◌, ◌-◌, none, some, length, get_or, get_or-set_cases, get_or-true_lt,
}
use os_2024_doors.Process.{
  Kernel, pcb, is_ready, find_ready, Pcb, ProcessState, running, ready, blocked, zero_pcb, set_pcb,
  set_state, current_running, yield_turn, switch_to_next, Context, process_count_max,
}
use os_2024_doors.Process.Table.{IsConsistent, set-IsTable, active_used}
use os_2024_doors.Process.Scheduler.{
  FirstReady, ready_after, find_ready-FirstReady, running_index-some, running_index-none,
}

abbrev pub state_of : Kernel → ℕ → ProcessState
state_of k i = (pcb k i).metadata.state

-- Some process is ready or running.
abbrev pub HasProcess : Kernel → Type 0
HasProcess k = (e : ℕ) × (state_of k e ≢ blocked)

ready_or_running : (s : ProcessState) → s ≢ blocked → (s ≡ ready) ⊎ (s ≡ running)
ready_or_running blocked h = absurd (h refl)
ready_or_running ready h = inl refl
ready_or_running running h = inr refl

is_ready-true : (s : ProcessState) → is_ready s ≡ true → s ≡ ready
is_ready-true blocked h = absurd cc
is_ready-true ready h = refl
is_ready-true running h = absurd cc

-- A block's state after a write of one block.
pub state_of-set :
    (k : Kernel) (i j : ℕ) (q : Pcb)
    → i < length k.process_list
    → ((i ≡ j) × (state_of (set_pcb k i q) j ≡ q.metadata.state))
      ⊎ ((i ≢ j) × (state_of (set_pcb k i q) j ≡ state_of k j))
state_of-set k i j q lt = elim (get_or-set_cases k.process_list i j q zero_pcb lt) [
  | inl (same, at) ↦ inl (same, ap (λ x. x.metadata.state) at)
  | inr (ne, at) ↦ inr (ne, ap (λ x. x.metadata.state) at)
]

module _ (k : Kernel) (t : IsConsistent k) where
  pub current-some :
      (i : ℕ)
      → current_running k ≡ some i
      → (get_or k.pid_used i false ≡ true) × (state_of k i ≡ running)
  unfolding current_running
  current-some i e =
      let r = running_index-some k.pid_used k.process_list 0 i e in
      let d : i - 0 ≡ i = omega arith in (rw d at r.1, rw d at r.2)

  pub current-none : current_running k ≡ none → (j : ℕ) → state_of k j ≢ running
  unfolding current_running
  current-none e j run =
      running_index-none k.pid_used k.process_list 0 e j (active_used t j (λ b. cc)) run

  pub current-running : (i : ℕ) → state_of k i ≡ running → current_running k ≡ some i
  current-running i run = elim (Option-cases (current_running k)) [
    | inl e ↦ absurd (current-none e i run)
    | inr (j, e) ↦ e ∙ ap some (t.alone j i (current-some j e).1 run)
  ]

  pub active_lt : (i : ℕ) → state_of k i ≢ blocked → i < 16
  active_lt i h = omega (arith, get_or-true_lt k.pid_used i (active_used t i h), t.pids)

-- The state once the running process has given up its turn.
pub record Yielded (k1 : Kernel) (start : ℕ) : Type 0 where
  pub consistent : IsConsistent k1
  pub idle : (j : ℕ) → state_of k1 j ≢ running
  pub awake : (e : ℕ) × (state_of k1 e ≡ ready)
  pub in_table : start < 16

yield-none : (k : Kernel) → current_running k ≡ none → yield_turn k ≡ (k, 0)
unfolding yield_turn
yield-none k e = rw (e, yield_turn)

pub yield-some :
    (k : Kernel) (i : ℕ)
    → current_running k ≡ some i
    → yield_turn k
      ≡ (set_pcb k i (set_state (pcb k i) ready), ((pcb k i).metadata.pid + 1) % process_count_max)
unfolding yield_turn
yield-some k i e = rw (e, yield_turn)

module _ (k : Kernel) (t : IsConsistent k) (h : HasProcess k) where
  idle-Yielded : current_running k ≡ none → Yielded k 0
  idle-Yielded e = record {
    consistent = t;
    idle = current-none k t e;
    awake = elim (ready_or_running (state_of k h.0) h.1) [
      | inl r ↦ (h.0, r)
      | inr r ↦ absurd (current-none k t e h.0 r)
    ];
    in_table = omega arith;
  }

  pub busy-Yielded :
      (i : ℕ)
      → current_running k ≡ some i
      → Yielded
          (set_pcb k i (set_state (pcb k i) ready))
          (((pcb k i).metadata.pid + 1) % process_count_max)
  busy-Yielded i e =
      let c = current-some k t i e in
      let lt : i < length k.process_list =
        omega (arith, get_or-true_lt k.pid_used i c.0, t.pids, t.blocks) in
      let q = set_state (pcb k i) ready in
      record {
        consistent = set-IsTable t i q c.0 (t.named i c.0) (λ r j u. cc);
        idle = λ j r. elim (state_of-set k i j q lt) [
          | inl (same, at) ↦ cc
          | inr (ne, at) ↦ ne (t.alone i j c.1 (sym at ∙ r))
        ];
        awake = elim (state_of-set k i i q lt) [
          | inl (same, at) ↦ (i, at)
          | inr (ne, at) ↦ absurd (ne refl)
        ];
        in_table = omega arith;
      }

-- The state after the switch: consistent, and the process that is running is the one whose context
-- is restored and whose directory is in CR3.
pub record Switched (ctx : Context) (k : Kernel) : Type 0 where
  pub index : ℕ
  pub consistent : IsConsistent k
  pub current : current_running k ≡ some index
  pub restored : ctx ≡ (pcb k index).context
  pub directory : k.cr3 ≡ ctx.page_directory

-- The search of a whole round stops at a ready block.
pub find_ready-ready :
    (k : Kernel) (start : ℕ) → Yielded k start → state_of k (find_ready 16 k start) ≡ ready
find_ready-ready k start y =
    let f = find_ready-FirstReady 16 k start y.in_table in
    let e = y.awake.0 in
    let lt : e < 16 = active_lt k y.consistent e (λ b. cc) in
    let j : ℕ = (e + 16 - start) % 16 in
    let at : (start + j) % 16 ≡ e = omega (arith, y.in_table) in
    elim f.stopped [
      | inl all ↦
          let dead = f.first j (omega (arith, all)) in
          let live : ready_after k start j ≡ true = rw at (rw y.awake.1) in absurd cc
      | inr found ↦ is_ready-true _ (rw f.place found)
    ]

-- The last part of `switch_to_next`: the block `idx` runs.
abbrev pub run_block : Kernel → ℕ → Context × Kernel
run_block k1 idx =
    let next = set_state (pcb k1 idx) running in
    (next.context, record (set_pcb k1 idx next) { cr3 = next.context.page_directory })

run_block-Switched :
    (k1 : Kernel) (start idx : ℕ)
    → Yielded k1 start
    → state_of k1 idx ≡ ready
    → let (ctx, k') = run_block k1 idx in (sw : Switched ctx k') × (sw.index ≡ idx)
run_block-Switched k1 start idx y is =
    let q = set_state (pcb k1 idx) running in
    let used = active_used y.consistent idx (λ b. cc) in
    let lt : idx < length k1.process_list =
      omega (arith, get_or-true_lt k1.pid_used idx used, y.consistent.pids, y.consistent.blocks) in
    let t =
      set-IsTable y.consistent idx q used (y.consistent.named idx used)
        (λ r j h. absurd (y.idle j h)) in
    let k' = (run_block k1 idx).1 in
    let here : pcb k' idx ≡ q = elim (get_or-set_cases k1.process_list idx idx q zero_pcb lt) [
      | inl (same, at) ↦ at
      | inr (ne, at) ↦ absurd (ne refl)
    ] in
    (
      record {
        index = idx;
        consistent = t;
        current = current-running k' t idx (ap (λ x. x.metadata.state) here);
        restored = ap (λ x. x.context) (sym here);
        directory = refl;
      },
      refl,
    )

pub switch-yielded :
    (k k1 : Kernel) (start : ℕ)
    → yield_turn k ≡ (k1, start)
    → switch_to_next k ≡ run_block k1 (find_ready 16 k1 start)
unfolding switch_to_next
switch-yielded k k1 start e = ap (λ p. run_block p.0 (find_ready 16 p.0 p.1)) e

-- The process that yields is found after 15 steps at the latest.
self_ready :
    (k : Kernel) (i : ℕ)
    → i < 16
    → i < length k.process_list
    → is_ready (state_of (set_pcb k i (set_state (pcb k i) ready)) ((i + 1 + 15) % 16)) ≡ true
self_ready k i lt len =
    let around : (i + 1 + 15) % 16 ≡ i = omega (arith, lt) in
    elim (state_of-set k i ((i + 1 + 15) % 16) (set_state (pcb k i) ready) len) [
      | inl (same, at) ↦ ap is_ready at
      | inr (ne, at) ↦ absurd (ne (sym around))
    ]

steps_lt :
    (k : Kernel) (start idx : ℕ) (f : FirstReady 16 k start idx)
    → ready_after k start 15 ≡ true
    → f.steps < 16
steps_lt k start idx f self = elim (dec_lt f.steps 16) [
  | yes h ↦ h
  | no h ↦ let early = f.first 15 (omega (arith, h)) in absurd cc
]

module _ (k : Kernel) (t : IsConsistent k) where
  -- From a consistent state with a process that is ready or running, the switch ends in a
  -- consistent state, where exactly one process is running; its context is the one restored, and
  -- its page directory is in CR3.
  pub switch_to_next-Switched : HasProcess k → let (ctx, k') = switch_to_next k in Switched ctx k'
  switch_to_next-Switched h = elim (Option-cases (current_running k)) [
    | inl e ↦
        let y = idle-Yielded k t h e in
        rw (switch-yielded k _ _ (yield-none k e))
          (run_block-Switched k 0 _ y (find_ready-ready k 0 y)).0
    | inr (i, e) ↦
        let y = busy-Yielded k t h i e in
        rw (switch-yielded k _ _ (yield-some k i e))
          (run_block-Switched _ _ _ y (find_ready-ready _ _ y)).0
  ]

  -- From a consistent state with `i` running, the switch goes to the first ready process after it, around the table, and
  -- back to `i` if there is none.
  pub switch_to_next-fair :
      (i : ℕ)
      → current_running k ≡ some i
      → (m : ℕ) × (m < 16)
        × (current_running (switch_to_next k).1 ≡ some ((i + 1 + m) % 16))
        × ((j : ℕ) → j < m → state_of k ((i + 1 + j) % 16) ≢ ready)
        × (((i + 1 + m) % 16 ≡ i) ⊎ (state_of k ((i + 1 + m) % 16) ≡ ready))
  switch_to_next-fair i e =
      let c = current-some k t i e in
      let q : Pcb = set_state (pcb k i) ready in
      let lt : i < 16 = active_lt k t i (λ b. cc) in
      let len : i < length k.process_list = omega (arith, lt, t.blocks) in
      let k1 : Kernel = set_pcb k i q in
      let start : ℕ = ((pcb k i).metadata.pid + 1) % 16 in
      let at_start : start ≡ (i + 1) % 16 = rw (t.named i c.0) refl in
      let y : Yielded k1 start = busy-Yielded k t (i, λ b. cc) i e in
      let f = find_ready-FirstReady 16 k1 start y.in_table in
      let m : ℕ = f.steps in
      let idx : ℕ = find_ready 16 k1 start in
      let place : (j : ℕ) → (start + j) % 16 ≡ (i + 1 + j) % 16 = λ j. omega (arith, at_start) in
      let idx_at : idx ≡ (i + 1 + m) % 16 = f.place ∙ place m in
      let self : ready_after k1 start 15 ≡ true = rw (place 15) (self_ready k i lt len) in
      let bound : m < 16 = steps_lt k1 start idx f self in
      let r = find_ready-ready k1 start y in
      let sw = run_block-Switched k1 start idx y r in
      (
        m,
        bound,
        ap (λ z. current_running z.1) (switch-yielded k k1 start (yield-some k i e))
            ∙ sw.0.current
            ∙ ap some (sw.1 ∙ idx_at),
        λ j less is. elim (state_of-set k i ((i + 1 + j) % 16) q len) [
          | inl (same, at) ↦ absurd (omega (arith, same, lt, less, bound))
          | inr (ne, at) ↦
              let dead = f.first j less in
              let live : ready_after k1 start j ≡ true = rw (place j) (rw at (rw is)) in cc
        ],
        elim (state_of-set k i ((i + 1 + m) % 16) q len) [
          | inl (same, at) ↦ inl (sym same)
          | inr (ne, at) ↦ inr (sym at ∙ ap (state_of k1) (sym idx_at) ∙ r)
        ],
      )
