-- ===== src/Strings.antt =====
-- stdlib/string.c: the memory and string routines. The comparison is over the bytes that it is
-- given; the others act on the memory, a function from addresses to bytes. `strsplit` is in
-- `Split`; `itoa` is not modelled.
pub mod Move
pub mod Split
mod Tests
use os_2024_doors.Base.{
  ℕ, zero, suc, ◌+◌, ◌%◌, Bool, true, false, List, [], ◌∷◌, ℤ, pos, negsuc, ltb, ◌==◌,
  if◌then◌else◌, Run, ok, out_of_fuel, ◌>>=◌,
}

-- `memcmp` over the first `n` bytes. A list that ends early stands for memory that the model does
-- not hold; no caller reads past its arrays.
unfoldable pub memcmp : List ℕ → List ℕ → ℕ → ℤ
memcmp xs ys zero = pos 0
memcmp [] ys (suc n) = pos 0
memcmp (x ∷ xs) [] (suc n) = pos 0
memcmp (x ∷ xs) (y ∷ ys) (suc n) =
    let rest = memcmp xs ys n in if ltb x y then negsuc 0 else if ltb y x then pos 1 else rest

abbrev pub Memory : Type 0
Memory = ℕ → ℕ

abbrev pub put : Memory → ℕ → ℕ → Memory
put m p v q = if p == q then v else m q

-- The loop from `i` on, by the rounds left.
unfoldable pub set_loop : ℕ → ℕ → Memory → ℕ → ℕ → Memory
set_loop zero i m s c = m
set_loop (suc n) i m s c = set_loop n (i + 1) (put m (s + i) (c % 256)) s c

unfoldable pub memset : Memory → ℕ → ℕ → ℕ → Memory
unfolding set_loop
memset m s c n = set_loop n 0 m s c

-- The loop that copies upwards, from `i` on.
unfoldable pub copy_up : ℕ → ℕ → Memory → ℕ → ℕ → Memory
copy_up zero i m dest src = m
copy_up (suc n) i m dest src = copy_up n (i + 1) (put m (dest + i) (m (src + i))) dest src

-- The loop that copies downwards.
unfoldable pub copy_down : ℕ → Memory → ℕ → ℕ → Memory
copy_down zero m dest src = m
copy_down (suc n) m dest src = copy_down n (put m (dest + n) (m (src + n))) dest src

unfoldable pub memcpy : Memory → ℕ → ℕ → ℕ → Memory
unfolding copy_up
memcpy m dest src n = copy_up n 0 m dest src

unfoldable pub memmove : Memory → ℕ → ℕ → ℕ → Memory
unfolding copy_up copy_down
memmove m dest src n = if ltb dest src then copy_up n 0 m dest src else copy_down n m dest src

-- The index, from `i` on, of the byte 0 that ends a string.
unfoldable pub find_end : ℕ → Memory → ℕ → ℕ → Run ℕ
find_end zero m str i = out_of_fuel
find_end (suc fuel) m str i =
    let rest = find_end fuel m str (i + 1) in if m (str + i) == 0 then ok i else rest

unfoldable pub strlen : ℕ → Memory → ℕ → Run ℕ
unfolding find_end
strlen fuel m str = find_end fuel m str 0

-- The second loop of `strcat`, with the byte 0 that is stored behind.
unfoldable pub append_loop : ℕ → Memory → ℕ → ℕ → ℕ → ℕ → Run Memory
append_loop zero m dest src i j = out_of_fuel
append_loop (suc fuel) m dest src i j =
    let rest = append_loop fuel (put m (dest + i) (m (src + j))) dest src (i + 1) (j + 1) in
    if m (src + j) == 0 then ok (put m (dest + i) 0) else rest

unfoldable pub strcat : ℕ → Memory → ℕ → ℕ → Run Memory
unfolding find_end append_loop
strcat fuel m dest src = find_end fuel m dest 0 >>= λ i. append_loop fuel m dest src i 0

-- `len` is a byte.
unfoldable pub strset : Memory → ℕ → ℕ → ℕ → Memory
unfolding set_loop
strset m str c len = put (set_loop (len % 256) 0 m str c) (str + len % 256) 0

-- The loop from `i` on, by the rounds left.
unfoldable pub contains_from : ℕ → ℕ → Memory → ℕ → ℕ → Bool
contains_from zero i m str c = false
contains_from (suc n) i m str c =
    let rest = contains_from n (i + 1) m str c in
    if m (str + i) == 0 then false else if m (str + i) == c then true else rest

unfoldable pub contains : Memory → ℕ → ℕ → ℕ → Bool
unfolding contains_from
contains m str c n = contains_from n 0 m str c
