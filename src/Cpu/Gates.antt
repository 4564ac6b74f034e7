-- ===== src/Cpu/Gates.antt =====
-- The interrupt gates and the segments that the processor sees, and the first process.
use os_2024_doors.Base.{
  ℕ, zero, suc, ◌+◌, ◌*◌, ◌/◌, ◌%◌, ◌^◌, ◌<◌, ◌≤◌, ◌≡◌, ◌≢◌, ◌⊎◌, refl, sym, ap, ◌∙◌, inl, inr,
  arith, false, List, ◌==◌, if◌then◌else◌, length, get_or, set, length-set, get_or-set_cases, ok,
  ok-injective, >>=-eq-ok, Option-cases, ℕ_discrete, dec_lt,
}
use mathlib.Core.Path.{subst}
use os_2024_doors.Fat32.Types.{Memory, Request}
use os_2024_doors.Fat32.Driver.{initialize_filesystem_fat32}
use os_2024_doors.Process.{
  Kernel, Context, success, process_create_user_process, current_running, start_running, pcb,
  set_state, zero_pcb, ready, running,
}
use os_2024_doors.Process.Table.{IsConsistent, set-IsTable}
use os_2024_doors.Process.Switch.{
  Switched, switch_to_next-Switched, HasProcess, current-some, active_lt, state_of-set,
}
use os_2024_doors.Process.Create.{Created, failed, started, create-Created, create-IsConsistent}
use os_2024_doors.Interrupt.{Machine, scheduler_init}
use os_2024_doors.Cpu.{
  SegmentDescriptor, null_descriptor, gdt_install_tss, IdtGate, zero_gate, gate, set_interrupt_gate,
  set_gates, initialize_idt, kernel_setup, shell_request,
}

-- The address that a gate leads to, and the base of a segment, as the processor reads them.
abbrev pub offset : IdtGate → ℕ
offset g = g.offset_low + 2 ^ 16 * g.offset_high

abbrev pub base : SegmentDescriptor → ℕ
base d = d.base_low + 2 ^ 16 * d.base_mid + 2 ^ 24 * d.base_high

-- What the loop from `i` on leaves at a vector.
set_gates_lem :
    (n i : ℕ) (stubs : ℕ → ℕ) (table : List IdtGate) (v : ℕ)
    → length table ≡ 256
    → i + n ≤ 64
    → (((v < i) ⊎ (i + n ≤ v))
        × (get_or (set_gates n i stubs table) v zero_gate ≡ get_or table v zero_gate))
      ⊎ ((i ≤ v)
          × (v < i + n)
          × (get_or (set_gates n i stubs table) v zero_gate
              ≡ gate (stubs v) 8 (if v == 0x30 then 3 else 0)))
unfolding set_gates set_interrupt_gate
set_gates_lem zero i stubs table v len le = elim (dec_lt v i) [
  | yes lt ↦ inl (inl lt, refl)
  | no ge ↦ inl (inr (omega (arith, ge)), refl)
]
set_gates_lem (suc n) i stubs table v len le =
    let g : IdtGate = gate (stubs i) 8 (if i == 0x30 then 3 else 0) in
    let at : i % 256 ≡ i = omega (arith, le) in
    let r =
      set_gates_lem n (i + 1) stubs (set table (i % 256) g) v (length-set table (i % 256) g ∙ len)
        (omega arith) in
    elim r [
      | inr (ge, lt, e) ↦ inr (omega (arith, ge), omega (arith, lt), e)
      | inl (out, e) ↦
          elim (get_or-set_cases table (i % 256) v g zero_gate (omega (arith, len, le))) [
            | inl (same, h) ↦
                let here : i ≡ v = sym at ∙ same in
                inr (
                  omega (arith, here),
                  omega (arith, here),
                  e ∙ h ∙ ap (λ x. gate (stubs x) 8 (if x == 0x30 then 3 else 0)) here,
                )
            | inr (ne, h) ↦ inl (
              elim out [
                | inl lt ↦ inl (omega (arith, lt, ne, at))
                | inr ge ↦ inr (omega (arith, ge))
              ],
              e ∙ h,
            )
          ]
    ]

-- The gate of a vector: present, in the kernel's code segment, it leads to the vector's stub, and
-- has privilege 3 for the system call's vector only.
pub record SetGate (stubs : ℕ → ℕ) (v : ℕ) (g : IdtGate) : Type 0 where
  pub stub : offset g ≡ stubs v
  pub segment : g.segment ≡ 8
  pub present : g.valid_bit ≡ 1
  pub level : ((v ≡ 0x30) × (g.privilege_level ≡ 3)) ⊎ ((v ≢ 0x30) × (g.privilege_level ≡ 0))

abbrev pub gate_at : List IdtGate → ℕ → IdtGate
gate_at table v = get_or table v zero_gate

-- After `initialize_idt` every vector below 64 has a present gate in the kernel's code segment that
-- leads to its stub, of privilege 3 for the system call's vector 0x30 and of privilege 0 for the
-- others, and the other gates are as they were; the table has 256 gates and the stubs' addresses are
-- 32-bit.
pub initialize_idt-SetGate :
    (stubs : ℕ → ℕ) (table : List IdtGate) (v : ℕ)
    → length table ≡ 256
    → ((i : ℕ) → i < 64 → stubs i < 2 ^ 32)
    → ((v < 64) × SetGate stubs v (gate_at (initialize_idt stubs table) v))
      ⊎ ((64 ≤ v) × (gate_at (initialize_idt stubs table) v ≡ gate_at table v))
unfolding initialize_idt
initialize_idt-SetGate stubs table v len bound =
    elim (set_gates_lem 64 0 stubs table v len (omega arith)) [
      | inl (inl lt, e) ↦ absurd (omega (arith, lt))
      | inl (inr ge, e) ↦ inr (ge, e)
      | inr (ge, lt, e) ↦ inl (
        lt,
        rw e (record {
          stub = omega (arith, bound v lt);
          segment = refl;
          present = refl;
          level = level v;
        }),
      )
    ]
  where
    level :
        (v : ℕ)
        → ((v ≡ 0x30) × ((if v == 0x30 then 3 else 0) % 4 ≡ 3))
          ⊎ ((v ≢ 0x30) × ((if v == 0x30 then 3 else 0) % 4 ≡ 0))
    level v = elim (ℕ_discrete v 0x30) [
      | yes e ↦ inl (e, rw e refl)
      | no ne ↦ let other : (v == 0x30) ≡ false = ground (arith, ne) in inr (ne, rw other refl)
    ]

-- Descriptor 5 has the base, and all else is as it was.
abbrev pub Installed : ℕ → ℕ → SegmentDescriptor → SegmentDescriptor → Type 0
Installed address i d d' =
    ((i ≡ 5)
      × (base d' ≡ address)
      × (d'
          ≡ record d { base_low = d'.base_low; base_mid = d'.base_mid; base_high = d'.base_high }))
    ⊎ ((i ≢ 5) × (d' ≡ d))

-- `gdt_install_tss` makes the base of descriptor 5 the segment's address, and keeps that descriptor's
-- limit and its other fields, and the other descriptors; the table has 32 descriptors and the address
-- is 32-bit.
pub gdt_install_tss-Installed :
    (table : List SegmentDescriptor) (address : ℕ) (i : ℕ)
    → length table ≡ 32
    → address < 2 ^ 32
    → Installed address i
        (get_or table i null_descriptor)
        (get_or (gdt_install_tss table address) i null_descriptor)
unfolding gdt_install_tss
gdt_install_tss-Installed table address i len lt =
    let q : SegmentDescriptor = record (get_or table 5 null_descriptor) {
      base_high = address / 2 ^ 24 % 256;
      base_mid = address / 2 ^ 16 % 256;
      base_low = address % 2 ^ 16;
    } in
    elim (get_or-set_cases table 5 i q null_descriptor (omega (arith, len))) [
      | inl (same, h) ↦ inl (sym same, ap base h ∙ omega (arith, lt), rw h (rw same refl))
      | inr (ne, h) ↦ inr (λ e. ne (sym e), h)
    ]

-- The process that runs, if any, is running already.
start_running-IsConsistent : (k : Kernel) → IsConsistent k → IsConsistent (start_running k)
unfolding start_running
start_running-IsConsistent k t = elim (Option-cases (current_running k)) [
  | inl e ↦ rw (e, start_running) t
  | inr (i, e) ↦
      let c = current-some k t i e in
      rw (e, start_running)
        (set-IsTable t i (set_state (pcb k i) running) c.0 (t.named i c.0)
          (λ r j h. t.alone i j c.1 h))
]

start_running-HasProcess :
    (k : Kernel) → IsConsistent k → HasProcess k → HasProcess (start_running k)
unfolding start_running
start_running-HasProcess k t h = elim (Option-cases (current_running k)) [
  | inl e ↦ rw (e, start_running) h
  | inr (i, e) ↦
      let c = current-some k t i e in
      rw (e, start_running)
        (
          i,
          elim (state_of-set k i i (set_state (pcb k i) running)
              (omega (arith, active_lt k t i (λ b. cc), t.blocks))) [
                | inl (same, at) ↦ λ b. cc
                | inr (ne, at) ↦ absurd (ne refl)
              ],
        )
]

Created-HasProcess :
    (k k' : Kernel) (r : Request) → IsConsistent k → Created k r success k' → HasProcess k'
Created-HasProcess k k' r t (failed code z bad l p c) = absurd (bad refl)
Created-HasProcess k k' r t (started i q z free lt meta l p c) = (
  i,
  λ b.
      let here : pcb z i ≡ q = ap (λ x. get_or x i zero_pcb) l ∙ self in
      let r : (pcb z i).metadata.state ≡ ready =
        ap (λ x. x.metadata.state) here ∙ ap (λ x. x.state) meta in
      cc,
)
  where
    self : get_or (set k.process_list i q) i zero_pcb ≡ q
    self =
        elim (get_or-set_cases k.process_list i i q zero_pcb
          (omega (arith, lt, t.pids, t.blocks))) [
            | inl (same, at) ↦ at
            | inr (ne, at) ↦ absurd (ne refl)
          ]

-- Where `kernel_setup` starts from a consistent process table, and the shell's process is created, it
-- ends in the context of a process that runs, with a consistent table and that process's page
-- directory in CR3.
pub kernel_setup-Switched :
    (past : List ℕ) (mask mask' : ℕ) (loaded : Memory) (m m' : Machine) (ctx : Context)
    → IsConsistent m.processes
    → kernel_setup past mask mask' loaded m ≡ ok (success, ctx, m')
    → Switched ctx m'.processes
unfolding kernel_setup scheduler_init
kernel_setup-Switched past mask mask' loaded m m' ctx t h =
    let k = record m.processes { fs = initialize_filesystem_fat32 past m.processes.fs } in
    let (a, p, q) = >>=-eq-ok (process_create_user_process k 0 (shell_request loaded)) _ h in
    let made : a.0 ≡ success = ap (λ z. z.0) (ok-injective q) in
    let t' = create-IsConsistent k 0 (shell_request loaded) t p in
    let some_process = Created-HasProcess k a.1 (shell_request loaded) t (
      subst (λ c. Created k (shell_request loaded) c a.1) made
        (create-Created k 0 (shell_request loaded) p)) in
    let sw =
      switch_to_next-Switched (start_running a.1) (start_running-IsConsistent a.1 t')
        (start_running-HasProcess a.1 t' some_process) in
    subst (λ z. Switched z.1 z.2.processes) (ok-injective q) sw
