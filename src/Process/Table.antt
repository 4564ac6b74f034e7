-- ===== src/Process/Table.antt =====
-- The well-formed process table of process.c.
use os_2024_doors.Base.{
  ℕ, ◌+◌, ◌<◌, ◌≡◌, refl, sym, ◌∙◌, inl, inr, Bool, true, false, arith, Bool-cases, List, length,
  get_or, set, length-set, get_or-set_cases, get_or-true_lt, ◌≢◌,
}
use mathlib.Core.Path.{subst}
use os_2024_doors.Paging.Frames.{free_count}
use os_2024_doors.Process.{Kernel, Pcb, zero_pcb, blocked, running}

-- An entry of `pid_used` after a write.
pub other_pid :
    (us : List Bool) (i j : ℕ) (b : Bool)
    → i < length us
    → i ≢ j
    → get_or (set us i b) j false ≡ get_or us j false
other_pid us i j b lt ne = elim (get_or-set_cases us i j b false lt) [
  | inl (same, at) ↦ absurd (ne same)
  | inr (ne', at) ↦ at
]

pub self_pid : (us : List Bool) (i : ℕ) (b : Bool) → i < length us → get_or (set us i b) i false ≡ b
self_pid us i b lt = elim (get_or-set_cases us i i b false lt) [
  | inl (same, at) ↦ at
  | inr (ne, at) ↦ absurd (ne refl)
]

pub bool_apart : true ≢ false
bool_apart h = cc

-- The blocks and `pid_used` agree: a used block has its index as pid, an unused one is blocked, at
-- most one is running, and `n` counts the used ones.
pub record IsTable (ps : List Pcb) (us : List Bool) (n : ℕ) : Type 0 where
  pub blocks : length ps ≡ 16
  pub pids : length us ≡ 16
  pub named : (i : ℕ) → get_or us i false ≡ true → (get_or ps i zero_pcb).metadata.pid ≡ i
  pub unused : (i : ℕ) → get_or us i false ≡ false → (get_or ps i zero_pcb).metadata.state ≡ blocked
  pub alone :
      (i j : ℕ)
      → (get_or ps i zero_pcb).metadata.state ≡ running
      → (get_or ps j zero_pcb).metadata.state ≡ running
      → i ≡ j
  pub counted : n + free_count us ≡ 16

abbrev pub IsConsistent : Kernel → Type 0
IsConsistent k = IsTable k.process_list k.pid_used k.active_process_count

module _ {ps : List Pcb} {us : List Bool} {n : ℕ} (t : IsTable ps us n) where
  -- The block `i` and its entry of `pid_used` are replaced.
  pub update-IsTable :
      (i : ℕ) (q : Pcb) (vs : List Bool) (m : ℕ)
      → i < 16
      → length vs ≡ 16
      → ((j : ℕ) → i ≢ j → get_or vs j false ≡ get_or us j false)
      → (get_or vs i false ≡ true → q.metadata.pid ≡ i)
      → (get_or vs i false ≡ false → q.metadata.state ≡ blocked)
      → (q.metadata.state ≡ running
          → (j : ℕ) → (get_or ps j zero_pcb).metadata.state ≡ running
          → i ≡ j)
      → m + free_count vs ≡ 16
      → IsTable (set ps i q) vs m
  update-IsTable i q vs m lt len others pid stop only cnt =
      let il : i < length ps = omega (arith, t.blocks) in
      record {
        blocks = length-set ps i q ∙ t.blocks;
        pids = len;
        named = λ j u. elim (get_or-set_cases ps i j q zero_pcb il) [
          | inl (e, h) ↦ rw h (pid (subst (λ x. get_or vs x false ≡ true) (sym e) u) ∙ e)
          | inr (ne, h) ↦ rw h (t.named j (sym (others j ne) ∙ u))
        ];
        unused = λ j u. elim (get_or-set_cases ps i j q zero_pcb il) [
          | inl (e, h) ↦ rw h (stop (subst (λ x. get_or vs x false ≡ false) (sym e) u))
          | inr (ne, h) ↦ rw h (t.unused j (sym (others j ne) ∙ u))
        ];
        alone = λ j k u v. elim (get_or-set_cases ps i j q zero_pcb il) [
          | inl (e, h) ↦ elim (get_or-set_cases ps i k q zero_pcb il) [
            | inl (e', h') ↦ sym e ∙ e'
            | inr (ne', h') ↦ sym e ∙ only (rw h at u) k (rw h' at v)
          ]
          | inr (ne, h) ↦ elim (get_or-set_cases ps i k q zero_pcb il) [
            | inl (e', h') ↦ sym (only (rw h' at v) j (rw h at u)) ∙ e'
            | inr (ne', h') ↦ t.alone j k (rw h at u) (rw h' at v)
          ]
        ];
        counted = cnt;
      }

  -- A used block is replaced by one with its pid; if it runs, no other block does.
  pub set-IsTable :
      (i : ℕ) (q : Pcb)
      → get_or us i false ≡ true
      → q.metadata.pid ≡ i
      → (q.metadata.state ≡ running
          → (j : ℕ) → (get_or ps j zero_pcb).metadata.state ≡ running
          → i ≡ j)
      → IsTable (set ps i q) us n
  set-IsTable i q used pid only =
      update-IsTable i q us n (omega (arith, get_or-true_lt us i used, t.pids)) t.pids
        (λ j ne. refl) (λ _. pid) (λ e. cc) only t.counted

  -- A block that is ready or running is in use.
  pub active_used :
      (i : ℕ) → (get_or ps i zero_pcb).metadata.state ≢ blocked → get_or us i false ≡ true
  active_used i ne = elim (Bool-cases (get_or us i false)) [
    | inl e ↦ e
    | inr e ↦ absurd (ne (t.unused i e))
  ]
