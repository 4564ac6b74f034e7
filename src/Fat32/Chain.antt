-- ===== src/Fat32/Chain.antt =====
-- Cluster chains of the allocation table, as fat32.c follows them.
use os_2024_doors.Base.{
  ℕ, ◌≤◌, ◌<◌, ◌≡◌, refl, Bool, false, ◌||◌, List, [], ◌∷◌, arith, ◌==◌, All, length, get_or, set,
  get_or-set, length-set,
}
use os_2024_doors.Fat32.Types.{end_of_file}

-- From cluster `c` the table leads through the clusters of the list to the end of the file.
abbrev pub Chain : List ℕ → ℕ → List ℕ → Type 0
Chain m c [] = c ≡ end_of_file
Chain m c (x ∷ xs) = (x ≡ c) × (c < length m) × Chain m (get_or m c 0) xs

abbrev pub has : ℕ → List ℕ → Bool
has c [] = false
has c (x ∷ xs) = (c == x) || has c xs

abbrev pub Distinct : List ℕ → Type 0
Distinct [] = Unit
Distinct (x ∷ xs) = (has x xs ≡ false) × Distinct xs

-- The clusters lie from `i` on and in the table.
abbrev pub InRange : ℕ → List ℕ → Type 0
InRange i = All λ c. (i ≤ c) × (c < 512)

pub has_of_lt : (i j : ℕ) (cs : List ℕ) → InRange i cs → j < i → has j cs ≡ false
has_of_lt i j [] r h = refl
has_of_lt i j (c ∷ cs) r h = ground (arith, has_of_lt i j cs r.1 h)

pub InRange-weaken : (i j : ℕ) (cs : List ℕ) → InRange i cs → j ≤ i → InRange j cs
InRange-weaken i j [] r h = tt
InRange-weaken i j (c ∷ cs) r h = ((omega arith, r.0.1), InRange-weaken i j cs r.1 h)

-- A write to the table outside a chain leaves the chain.
pub Chain-set :
    (m : List ℕ) (c x v : ℕ) (cs : List ℕ)
    → Chain m x cs
    → c < length m
    → has c cs ≡ false
    → Chain (set m c v) x cs
Chain-set m c x v [] h p out = h
Chain-set m c x v (y ∷ ys) (e, lt, t) p out = (
  e,
  rw (length-set m c v) lt,
  rw (get_or-set m c x v 0 p, other) (Chain-set m c (get_or m x 0) v ys t p (ground arith)),
)
  where
    other : (c == x) ≡ false
    other = ground arith
