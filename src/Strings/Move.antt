-- ===== src/Strings/Move.antt =====
-- `memmove` of stdlib/string.c on ranges that may overlap, and the end of a string.
use os_2024_doors.Base.{
  ℕ, zero, suc, ◌+◌, ◌<◌, ◌≤◌, ◌≡◌, ◌≢◌, ◌⊎◌, inl, inr, refl, sym, ap, ◌∙◌, true, false, arith, ltb,
  ◌==◌, Bool-cases, ltb→lt, ==_iff, ok, ℕ_discrete,
}
use mathlib.Core.Path.{subst}
use os_2024_doors.Strings.{Memory, put, copy_up, copy_down, memmove, find_end, strlen}

put_self : (m : Memory) (p q v : ℕ) → p ≡ q → put m p v q ≡ v
put_self m p q v e = ground (arith, e)

put_ne : (m : Memory) (p q v : ℕ) → p ≢ q → put m p v q ≡ m q
put_ne m p q v h = ground (arith, h)

-- An address out of the range that is written.
abbrev pub Outside : ℕ → ℕ → ℕ → Type 0
Outside start n a = (a < start) ⊎ (start + n ≤ a)

copy_up-Outside :
    (n i : ℕ) (m : Memory) (d s a : ℕ) → Outside (d + i) n a → copy_up n i m d s a ≡ m a
unfolding copy_up
copy_up-Outside zero i m d s a out = refl
copy_up-Outside (suc n) i m d s a out =
    copy_up-Outside n (i + 1) (put m (d + i) (m (s + i))) d s a (next out)
    ∙ put_ne m (d + i) a (m (s + i)) (omega (arith, out))
  where
    next : Outside (d + i) (suc n) a → Outside (d + (i + 1)) n a
    next (inl h) = inl (omega (arith, h))
    next (inr h) = inr (omega (arith, h))

copy_up-inside :
    (n i : ℕ) (m : Memory) (d s k : ℕ)
    → d < s
    → k < n
    → copy_up n i m d s (d + (i + k)) ≡ m (s + (i + k))
unfolding copy_up
copy_up-inside zero i m d s k lt h = absurd (omega arith)
copy_up-inside (suc n) i m d s zero lt h =
    copy_up-Outside n (i + 1) (put m (d + i) (m (s + i))) d s (d + (i + 0)) (inl (omega arith))
    ∙ put_self m (d + i) (d + (i + 0)) (m (s + i)) (omega arith)
    ∙ at
  where
    at : m (s + i) ≡ m (s + (i + 0))
    at = ap m (omega arith)
copy_up-inside (suc n) i m d s (suc k) lt h =
    let e : i + suc k ≡ i + 1 + k = omega arith in
    let w = put m (d + i) (m (s + i)) in
    rw e (
      copy_up-inside n (i + 1) w d s k lt (omega arith)
      ∙ put_ne m (d + i) (s + (i + 1 + k)) (m (s + i)) (omega arith))

copy_down-Outside : (n : ℕ) (m : Memory) (d s a : ℕ) → Outside d n a → copy_down n m d s a ≡ m a
unfolding copy_down
copy_down-Outside zero m d s a out = refl
copy_down-Outside (suc n) m d s a out =
    copy_down-Outside n (put m (d + n) (m (s + n))) d s a (next out)
    ∙ put_ne m (d + n) a (m (s + n)) (omega (arith, out))
  where
    next : Outside d (suc n) a → Outside d n a
    next (inl h) = inl h
    next (inr h) = inr (omega (arith, h))

copy_down-inside :
    (n : ℕ) (m : Memory) (d s k : ℕ) → s ≤ d → k < n → copy_down n m d s (d + k) ≡ m (s + k)
unfolding copy_down
copy_down-inside zero m d s k le h = absurd (omega arith)
copy_down-inside (suc n) m d s k le h =
    let w = put m (d + n) (m (s + n)) in
    elim (ℕ_discrete k n) [
      | yes e ↦
          copy_down-Outside n w d s (d + k) (inr (omega (arith, e)))
          ∙ put_self m (d + n) (d + k) (m (s + n)) (omega (arith, e))
          ∙ ap (λ x. m (s + x)) (sym e)
      | no ne ↦
          copy_down-inside n w d s k le (omega (arith, ne))
          ∙ put_ne m (d + n) (s + k) (m (s + n)) (omega (arith, ne))
    ]

-- After `memmove` the `n` bytes at the destination are those that were at the source, also where the
-- two ranges overlap, and every other byte is as it was.
pub memmove-moved :
    (m : Memory) (dest src n : ℕ)
    → ((k : ℕ) → k < n → memmove m dest src n (dest + k) ≡ m (src + k))
      × ((a : ℕ) → Outside dest n a → memmove m dest src n a ≡ m a)
unfolding memmove
memmove-moved m dest src n = elim (Bool-cases (ltb dest src)) [
  | inl e ↦ rw e (
    λ k lt. from_start k (copy_up-inside n 0 m dest src k (ltb→lt dest src e) lt),
    λ a out. copy_up-Outside n 0 m dest src a (at_start a out),
  )
  | inr e ↦ rw e (
    λ k lt. copy_down-inside n m dest src k (ground (arith, e)) lt,
    λ a out. copy_down-Outside n m dest src a out,
  )
]
  where
    from_start :
        (k : ℕ)
        → copy_up n 0 m dest src (dest + (0 + k)) ≡ m (src + (0 + k))
        → copy_up n 0 m dest src (dest + k) ≡ m (src + k)
    from_start k =
        let z : 0 + k ≡ k = omega arith in
        subst (λ x. copy_up n 0 m dest src (dest + x) ≡ m (src + x)) z

    at_start : (a : ℕ) → Outside dest n a → Outside (dest + 0) n a
    at_start a (inl h) = inl (omega (arith, h))
    at_start a (inr h) = inr (omega (arith, h))

-- From index `i`, the byte 0 is `n` places on.
find_end-ends :
    (m : Memory) (str n fuel i k : ℕ)
    → ((j : ℕ) → j < k → m (str + j) ≢ 0)
    → m (str + k) ≡ 0
    → n < fuel
    → i + n ≡ k
    → find_end fuel m str i ≡ ok k
unfolding find_end
find_end-ends m str n zero i k before end lt e = absurd (omega arith)
find_end-ends m str zero (suc fuel) i k before end lt e =
    let same : i ≡ k = omega arith in
    let hit : (m (str + i) == 0) ≡ true =
      (==_iff (m (str + i)) 0).1 (ap (λ x. m (str + x)) same ∙ end) in
    rw hit (ap ok same)
find_end-ends m str (suc n) (suc fuel) i k before end lt e =
    let miss : (m (str + i) == 0) ≡ false = ground (arith, before i (omega arith)) in
    rw miss (find_end-ends m str n fuel (i + 1) k before end (omega arith) (omega arith))

-- For a string whose first byte 0 stands at index `k`, `strlen` with more than `k` rounds of fuel
-- returns `k`.
pub strlen-ends :
    (m : Memory) (str k fuel : ℕ)
    → ((i : ℕ) → i < k → m (str + i) ≢ 0)
    → m (str + k) ≡ 0
    → k < fuel
    → strlen fuel m str ≡ ok k
unfolding strlen
strlen-ends m str k fuel before end lt = find_end-ends m str k fuel 0 k before end lt (omega arith)
