-- ===== src/Fat32/Finite.antt =====
-- The length of a cluster chain that ends, for the fuel of the loops over chains, fat32.c.
use os_2024_doors.Base.{
  ℕ, zero, suc, ◌≤◌, ◌<◌, ◌≡◌, refl, ap, inl, inr, true, false, List, [], ◌∷◌, arith, ◌==◌,
  if◌then◌else◌, Bool-cases, All, length, get_or,
}
use os_2024_doors.Fat32.Chain.{Chain, has, Distinct}

-- The table leads from a cluster in one way only.
pub length-Chain_unique :
    (m : List ℕ) (c : ℕ) (xs ys : List ℕ)
    → length m ≡ 512
    → Chain m c xs
    → Chain m c ys
    → length xs ≡ length ys
length-Chain_unique m c [] [] ml h k = refl
length-Chain_unique m c [] (y ∷ ys) ml h (e, lt, k) = absurd (omega arith)
length-Chain_unique m c (x ∷ xs) [] ml (e, lt, h) k = absurd (omega arith)
length-Chain_unique m c (x ∷ xs) (y ∷ ys) ml (e, lt, h) (e', lt', k) =
    ap suc (length-Chain_unique m (get_or m c 0) xs ys ml h k)

-- From a cluster of a chain, the rest of it is a chain.
Chain-suffix :
    (m : List ℕ) (c j : ℕ) (xs : List ℕ)
    → Chain m c xs
    → has j xs ≡ true
    → (ys : List ℕ) × Chain m j ys × (length ys ≤ length xs)
Chain-suffix m c j [] h k = absurd (ground arith)
Chain-suffix m c j (x ∷ xs) (e, lt, h) k = elim (Bool-cases (j == x)) [
  | inl here ↦ let same : j ≡ c = ground arith in (x ∷ xs, rw same (e, lt, h), omega arith)
  | inr there ↦
      let (ys, ch, le) = Chain-suffix m (get_or m c 0) j xs h (ground arith) in
      (ys, ch, omega arith)
]

-- So no cluster of a chain comes twice.
pub Chain-Distinct :
    (m : List ℕ) (c : ℕ) (xs : List ℕ) → length m ≡ 512 → Chain m c xs → Distinct xs
Chain-Distinct m c [] ml h = tt
Chain-Distinct m c (x ∷ xs) ml (e, lt, h) = (
  elim (Bool-cases (has x xs)) [
    | inl again ↦
        let (ys, ch, le) = Chain-suffix m (get_or m c 0) x xs h again in
        absurd (omega (arith, length-Chain_unique m c (x ∷ xs) ys ml (e, lt, h) (rw e at ch)))
    | inr once ↦ once
  ],
  Chain-Distinct m (get_or m c 0) xs ml h,
)

-- The list without a number.
without : ℕ → List ℕ → List ℕ
without n [] = []
without n (x ∷ xs) = let rest = without n xs in if n == x then rest else x ∷ rest

without_absent : (n : ℕ) (xs : List ℕ) → has n xs ≡ false → without n xs ≡ xs
unfolding without
without_absent n [] h = refl
without_absent n (x ∷ xs) h = ground (arith, without_absent n xs)

length-without : (n : ℕ) (xs : List ℕ) → Distinct xs → length xs ≤ suc (length (without n xs))
unfolding without
length-without n [] d = omega arith
length-without n (x ∷ xs) d = elim (Bool-cases (n == x)) [
  | inl here ↦
      let same : n ≡ x = ground arith in
      rw here (omega (arith, ap length (without_absent n xs (rw same d.0))))
  | inr there ↦ rw there (omega (arith, length-without n xs d.1))
]

has-without : (n j : ℕ) (xs : List ℕ) → has j xs ≡ false → has j (without n xs) ≡ false
unfolding without
has-without n j [] h = refl
has-without n j (x ∷ xs) h = ground (arith, has-without n j xs)

Distinct-without : (n : ℕ) (xs : List ℕ) → Distinct xs → Distinct (without n xs)
unfolding without
Distinct-without n [] d = tt
Distinct-without n (x ∷ xs) d = elim (Bool-cases (n == x)) [
  | inl here ↦ rw here (Distinct-without n xs d.1)
  | inr there ↦ rw there (has-without n x xs d.0, Distinct-without n xs d.1)
]

abbrev Below : ℕ → List ℕ → Type 0
Below n = All λ c. c < n

Below-without : (n : ℕ) (xs : List ℕ) → Below (suc n) xs → Below n (without n xs)
unfolding without
Below-without n [] h = tt
Below-without n (x ∷ xs) h = elim (Bool-cases (n == x)) [
  | inl here ↦ rw here (Below-without n xs h.1)
  | inr there ↦ rw there (ground arith, Below-without n xs h.1)
]

-- Distinct numbers below `n` are at most `n`.
length-Distinct : (n : ℕ) (xs : List ℕ) → Distinct xs → Below n xs → length xs ≤ n
length-Distinct zero [] d h = omega arith
length-Distinct zero (x ∷ xs) d h = absurd (omega arith)
length-Distinct (suc n) xs d h = omega (
  arith,
  length-without n xs d,
  length-Distinct n (without n xs) (Distinct-without n xs d) (Below-without n xs h),
)

Chain-Below : (m : List ℕ) (c : ℕ) (xs : List ℕ) → length m ≡ 512 → Chain m c xs → Below 512 xs
Chain-Below m c [] ml h = tt
Chain-Below m c (x ∷ xs) ml (e, lt, h) = (omega arith, Chain-Below m (get_or m c 0) xs ml h)

-- A chain that ends has at most 512 clusters.
pub length-Chain :
    (m : List ℕ) (c : ℕ) (xs : List ℕ) → length m ≡ 512 → Chain m c xs → length xs ≤ 512
length-Chain m c xs ml h =
    length-Distinct 512 xs (Chain-Distinct m c xs ml h) (Chain-Below m c xs ml h)
