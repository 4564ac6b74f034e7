-- ===== src/Process/Turns.antt =====
-- The turns that processes have, scheduler.c: what a switch leaves of each block, and how long a
-- ready process waits.
use os_2024_doors.Base.{
  ℕ, zero, suc, ◌+◌, ◌-◌, ◌%◌, ◌<◌, ◌≤◌, ◌≡◌, ◌≢◌, ◌⊎◌, refl, sym, ap, ◌∙◌, inl, inr, arith, some,
  length, get_or-set_cases, ℕ_discrete, dec_lt,
}
use mathlib.Core.Path.{subst}
use os_2024_doors.Process.{
  Kernel, Pcb, pcb, set_pcb, set_state, zero_pcb, running, ready, current_running, switch_to_next,
  find_ready,
}
use os_2024_doors.Process.Table.{IsConsistent}
use os_2024_doors.Process.Switch.{
  state_of, current-some, yield-some, switch-yielded, busy-Yielded, find_ready-ready, active_lt,
  switch_to_next-Switched, switch_to_next-fair, Switched,
}

-- A block after a write of one block.
pub pcb-set :
    (k : Kernel) (i j : ℕ) (q : Pcb)
    → i < length k.process_list
    → ((i ≡ j) × (pcb (set_pcb k i q) j ≡ q)) ⊎ ((i ≢ j) × (pcb (set_pcb k i q) j ≡ pcb k j))
pcb-set k i j q lt = get_or-set_cases k.process_list i j q zero_pcb lt

-- What a switch from the process `i` leaves of the others: contexts stay, and a block other than
-- those of `i` and of the process that runs then is as it was.
pub record Kept (k : Kernel) (i : ℕ) (k' : Kernel) : Type 0 where
  pub contexts : (j : ℕ) → (pcb k' j).context ≡ (pcb k j).context
  pub others : (j : ℕ) → j ≢ i → state_of k' j ≢ running → pcb k' j ≡ pcb k j

context-set_state :
    (k : Kernel) (i j : ℕ)
    → i < length k.process_list
    → (q : Pcb) → q.context ≡ (pcb k i).context
    → (pcb (set_pcb k i q) j).context ≡ (pcb k j).context
context-set_state k i j lt q e = elim (pcb-set k i j q lt) [
  | inl (same, at) ↦ ap (λ b. b.context) at ∙ e ∙ ap (λ x. (pcb k x).context) same
  | inr (ne, at) ↦ ap (λ b. b.context) at
]

module _ (k : Kernel) (t : IsConsistent k) (i : ℕ) (e : current_running k ≡ some i) where
  pub switch_to_next-Kept : Kept k i (switch_to_next k).1
  switch_to_next-Kept =
      let c = current-some k t i e in
      let k1 : Kernel = set_pcb k i (set_state (pcb k i) ready) in
      let start : ℕ = ((pcb k i).metadata.pid + 1) % 16 in
      let y = busy-Yielded k t (i, λ b. cc) i e in
      let idx : ℕ = find_ready 16 k1 start in
      let r = find_ready-ready k1 start y in
      let il : i < length k.process_list = omega (arith, active_lt k t i (λ b. cc), t.blocks) in
      let xl : idx < length k1.process_list =
        omega (arith, active_lt k1 y.consistent idx (λ b. cc), y.consistent.blocks) in
      let q : Pcb = set_state (pcb k1 idx) running in
      subst (Kept k i) (sym (ap (λ z. z.1) (switch-yielded k k1 start (yield-some k i e))))
        (record {
          contexts = λ j.
              context-set_state k1 idx j xl q refl
              ∙ context-set_state k i j il (set_state (pcb k i) ready) refl;
          others = λ j ne stopped. elim (pcb-set k1 idx j q xl) [
            | inl (same, at) ↦ absurd (stopped (ap (λ b. b.metadata.state) at))
            | inr (apart, at) ↦ elim (pcb-set k i j (set_state (pcb k i) ready) il) [
              | inl (same', at') ↦ absurd (ne (sym same'))
              | inr (ne', at') ↦ at ∙ at'
            ]
          ];
        })

-- The state after turns of the processes: before each switch, the process that runs works.
abbrev pub turns : (Kernel → Kernel) → ℕ → Kernel → Kernel
turns work zero k = k
turns work (suc n) k = turns work n (switch_to_next (work k)).1

-- The process `i` runs, and `e` waits for its turn.
pub record Waits (k : Kernel) (i e : ℕ) : Type 0 where
  pub consistent : IsConsistent k
  pub current : current_running k ≡ some i
  pub waiting : state_of k e ≡ ready

-- The place of `e` in the round that starts after `i`.
abbrev pub before : ℕ → ℕ → ℕ
before i e = (e + 15 - i) % 16

-- After a switch, either `e` runs, or it waits with fewer processes before it.
pub turn :
    (k : Kernel) (i e : ℕ)
    → Waits k i e
    → (current_running (switch_to_next k).1 ≡ some e)
      ⊎ ((i' : ℕ) × Waits (switch_to_next k).1 i' e × (before i' e < before i e))
turn k i e w =
    let k' = (switch_to_next k).1 in
    let (m, bound, now, skipped, hit) = switch_to_next-fair k w.consistent i w.current in
    let c = current-some k w.consistent i w.current in
    let apart : e ≢ i = λ same. let is : state_of k e ≡ running = rw same c.1 in cc in
    let el : e < 16 = active_lt k w.consistent e (λ b. cc) in
    let il : i < 16 = active_lt k w.consistent i (λ b. cc) in
    let i' : ℕ = (i + 1 + m) % 16 in
    let sw : Switched (switch_to_next k).0 k' =
      switch_to_next-Switched k w.consistent (e, λ b. cc) in
    elim (ℕ_discrete i' e) [
      | yes same ↦ inl (now ∙ ap some same)
      | no other ↦
          let place : (i + 1 + before i e) % 16 ≡ e = omega (arith, el, il) in
          let early : m ≤ before i e = elim (dec_lt (before i e) m) [
            | yes lt ↦ absurd (skipped (before i e) lt (ap (state_of k) place ∙ w.waiting))
            | no ge ↦ omega (arith, ge)
          ] in
          let stopped : state_of k' e ≢ running =
            λ run. other (sw.consistent.alone i' e (current-some k' sw.consistent i' now).1 run) in
          let same_block =
            (switch_to_next-Kept k w.consistent i w.current).others e apart stopped in
          inr (
            i',
            record {
              consistent = sw.consistent;
              current = now;
              waiting = ap (λ b. b.metadata.state) same_block ∙ w.waiting;
            },
            omega (arith, early, other, el, il, bound),
          )
    ]

-- What a process does while it runs leaves `e` waiting.
abbrev pub LeavesWaiting : (Kernel → Kernel) → ℕ → Type 0
LeavesWaiting work e = (k : Kernel) (i : ℕ) → Waits k i e → Waits (work k) i e

runs_within :
    (d : ℕ) (work : Kernel → Kernel) (k : Kernel) (i e : ℕ)
    → LeavesWaiting work e
    → Waits k i e
    → before i e < d
    → (n : ℕ) × (n ≤ d) × (current_running (turns work n k) ≡ some e)
runs_within zero work k i e leaves w lt = absurd (omega arith)
runs_within (suc d) work k i e leaves w lt = elim (turn (work k) i e (leaves k i w)) [
  | inl now ↦ (1, omega arith, now)
  | inr (i', w', less) ↦
      let (n, few, again) =
        runs_within d work (switch_to_next (work k)).1 i' e leaves w' (omega (arith, less)) in
      (suc n, omega (arith, few), again)
]

-- While a process runs and `e` is ready in a consistent table, `e` runs after at most 16 switches,
-- whatever the processes do between the switches that leaves the table consistent, the same process
-- running and `e` ready.
pub switch_to_next_runs :
    (work : Kernel → Kernel) (k : Kernel) (i e : ℕ)
    → LeavesWaiting work e
    → Waits k i e
    → (n : ℕ) × (n ≤ 16) × (current_running (turns work n k) ≡ some e)
switch_to_next_runs work k i e leaves w = runs_within 16 work k i e leaves w (omega arith)
