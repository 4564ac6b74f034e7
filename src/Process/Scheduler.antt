-- ===== src/Process/Scheduler.antt =====
-- The round robin of scheduler.c: which process is switched to.
use os_2024_doors.Base.{
  ℕ, zero, suc, ◌+◌, ◌%◌, ◌<◌, ◌≤◌, ◌≡◌, refl, sym, ap, ◌∙◌, inl, inr, ◌⊎◌, Bool, true, false,
  arith, Bool-cases, ◌&&◌, ◌≢◌, ◌-◌, List, [], ◌∷◌, none, some, get_or,
}
use mathlib.Core.Path.{subst}
use os_2024_doors.Process.{
  Kernel, pcb, is_ready, find_ready, Pcb, ProcessState, is_running, running, ready, blocked,
  zero_pcb, running_index,
}

-- The block `m` places after `i`, around the table, is ready.
abbrev pub ready_after : Kernel → ℕ → ℕ → Bool
ready_after k i m = is_ready (pcb k ((i + m) % 16)).metadata.state

-- What the search of `n` rounds from `i` on has found at `idx`.
pub record FirstReady (n : ℕ) (k : Kernel) (i idx : ℕ) : Type 0 where
  pub steps : ℕ
  pub bounded : steps ≤ n
  pub place : idx ≡ (i + steps) % 16
  pub first : (j : ℕ) → j < steps → ready_after k i j ≡ false
  pub stopped : (steps ≡ n) ⊎ (ready_after k i steps ≡ true)

before-suc :
    (f g : ℕ → Bool) (n : ℕ)
    → f 0 ≡ false
    → ((j : ℕ) → f (suc j) ≡ g j)
    → ((j : ℕ) → j < n → g j ≡ false)
    → (j : ℕ) → j < suc n
    → f j ≡ false
before-suc f g n z s h zero lt = z
before-suc f g n z s h (suc j) lt = s j ∙ h j (omega arith)

-- `find_ready` stops at the first ready block from `i` on, around the table, or after its rounds.
pub find_ready-FirstReady :
    (n : ℕ) (k : Kernel) (i : ℕ) → i < 16 → FirstReady n k i (find_ready n k i)
unfolding find_ready
find_ready-FirstReady zero k i lt = record {
  steps = 0;
  bounded = omega arith;
  place = omega arith;
  first = λ j h. absurd (omega arith);
  stopped = inl refl;
}
find_ready-FirstReady (suc n) k i lt =
    let here : (i + 0) % 16 ≡ i = omega arith in
    elim (Bool-cases (is_ready (pcb k i).metadata.state)) [
      | inl e ↦ record {
        steps = 0;
        bounded = omega arith;
        place = rw e (sym here);
        first = λ j h. absurd (omega arith);
        stopped = inr (subst (λ x. is_ready (pcb k x).metadata.state ≡ true) (sym here) e);
      }
      | inr e ↦
          let r = find_ready-FirstReady n k ((i + 1) % 16) (omega arith) in
          let shift : (j : ℕ) → ready_after k i (suc j) ≡ ready_after k ((i + 1) % 16) j =
            λ j. ap (λ x. is_ready (pcb k x).metadata.state) (omega arith) in
          record {
            steps = suc r.steps;
            bounded = omega (arith, r.bounded);
            place = rw e (r.place ∙ omega arith);
            first =
                before-suc (ready_after k i) (ready_after k ((i + 1) % 16)) r.steps
                  (subst (λ x. is_ready (pcb k x).metadata.state ≡ false) (sym here) e) shift
                  r.first;
            stopped = elim r.stopped [
              | inl all ↦ inl (ap suc all)
              | inr found ↦ inr (shift r.steps ∙ found)
            ];
          }
    ]

and_running : (u : Bool) (s : ProcessState) → u && is_running s ≡ true → (u ≡ true) × (s ≡ running)
and_running true running h = (refl, refl)
and_running true ready h = absurd cc
and_running true blocked h = absurd cc
and_running false s h = absurd cc

-- The running process that is found is in use and running, and `none` means that there is none.
pub running_index-some :
    (us : List Bool) (ps : List Pcb) (i k : ℕ)
    → running_index us ps i ≡ some k
    → (i ≤ k)
      × (get_or us (k - i) false ≡ true)
      × ((get_or ps (k - i) zero_pcb).metadata.state ≡ running)
unfolding running_index
running_index-some [] ps i k h = absurd cc
running_index-some (u ∷ us) [] i k h = absurd cc
running_index-some (u ∷ us) (p ∷ ps) i k h = elim (Bool-cases (u && is_running p.metadata.state)) [
  | inl e ↦
      let b = and_running u p.metadata.state e in
      let same : some i ≡ some k = rw e at h in
      let at : k ≡ i = cc in let d : k - i ≡ 0 = omega arith in (omega arith, rw d b.0, rw d b.1)
  | inr e ↦
      let r = running_index-some us ps (i + 1) k (rw e at h) in
      let d : k - i ≡ suc (k - (i + 1)) = omega (arith, r.0) in
      (omega (arith, r.0), rw d r.1, rw d r.2)
]

pub running_index-none :
    (us : List Bool) (ps : List Pcb) (i : ℕ)
    → running_index us ps i ≡ none
    → (j : ℕ) → get_or us j false ≡ true
    → (get_or ps j zero_pcb).metadata.state ≢ running
unfolding running_index
running_index-none [] ps i h j u = absurd cc
running_index-none (v ∷ us) [] i h j u = λ r. cc
running_index-none (true ∷ us) (p ∷ ps) i h zero u = λ r. cc
running_index-none (false ∷ us) (p ∷ ps) i h zero u = absurd cc
running_index-none (v ∷ us) (p ∷ ps) i h (suc j) u =
    elim (Bool-cases (v && is_running p.metadata.state)) [
      | inl e ↦ let found : some i ≡ none = rw e at h in absurd cc
      | inr e ↦ running_index-none us ps (i + 1) (rw e at h) j u
    ]
