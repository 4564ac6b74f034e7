-- ===== src/Strings/Split.antt =====
-- `strsplit` of stdlib/string.c. The list is the memory from `str` on; the 16 rows of `result` lie
-- behind each other, and a write past them is a fault, as is a string without an end.
use os_2024_doors.Base.{
  ℕ, zero, suc, ◌+◌, ◌*◌, ◌<◌, ◌≤◌, ◌≡◌, ◌≢◌, refl, ap, ◌∙◌, inl, inr, arith, false, Bool-cases,
  List, [], ◌∷◌, ◌++◌, length, All, replicate, length-replicate, get_or-replicate, get_or, set,
  length-set, get_or-set_cases, ltb, lt→ltb, ◌==◌, if◌then◌else◌, Run, ok, fault, ◌>>=◌,
}

-- result[j][k] = c
abbrev pub put_char_at : List ℕ → ℕ → ℕ → ℕ → Run (List ℕ)
put_char_at res j k c =
    if ltb (256 * j + k) (length res) then ok (set res (256 * j + k) c) else fault

unfoldable pub split_loop : List ℕ → ℕ → ℕ → ℕ → List ℕ → Run (List ℕ)
split_loop [] delim j k res = fault
split_loop (c ∷ cs) delim j k res =
    let at_delim = put_char_at res j k 0 >>= λ r. split_loop cs delim (j + 1) 0 r in
    let at_char = put_char_at res j k c >>= λ r. split_loop cs delim j (k + 1) r in
    if c == 0 then put_char_at res j k 0 else if c == delim then at_delim else at_char

unfoldable pub strsplit : List ℕ → ℕ → List ℕ → Run (List ℕ)
unfolding split_loop
strsplit str delim result = split_loop str delim 0 0 result

-- The pieces of a text: the first one, and those behind a delimiter.
abbrev pub first_piece : ℕ → List ℕ → List ℕ
first_piece delim [] = []
first_piece delim (c ∷ cs) = let rest = first_piece delim cs in if c == delim then [] else c ∷ rest

abbrev pub more_pieces : ℕ → List ℕ → List (List ℕ)
more_pieces delim [] = []
more_pieces delim (c ∷ cs) =
    let rest = more_pieces delim cs in if c == delim then first_piece delim cs ∷ rest else rest

-- The pieces fit: each is shorter than a row, and there are rows left for all.
pub record Fits (delim : ℕ) (xs : List ℕ) (j k : ℕ) : Type 0 where
  pub first : k + length (first_piece delim xs) < 256
  pub others : All (λ p. length p < 256) (more_pieces delim xs)
  pub rows : j + length (more_pieces delim xs) < 16

abbrev pub IsText : List ℕ → Type 0
IsText xs = All (λ c. c ≢ 0) xs

-- From row `j`, column `k` on the result holds the pieces, and before it is as it was.
pub record Split (delim : ℕ) (xs : List ℕ) (j k : ℕ) (res res' : List ℕ) : Type 0 where
  pub size : length res' ≡ 4096
  pub first :
      (o : ℕ) → k + o < 256 → get_or res' (256 * j + k + o) 0 ≡ get_or (first_piece delim xs) o 0
  pub others :
      (r o : ℕ)
      → o < 256
      → get_or res' (256 * (j + 1 + r) + o) 0 ≡ get_or (get_or (more_pieces delim xs) r []) o 0
  pub before : (i : ℕ) → i < 256 * j + k → get_or res' i 0 ≡ get_or res i 0

abbrev Clear : List ℕ → ℕ → Type 0
Clear res n = (i : ℕ) → n ≤ i → get_or res i 0 ≡ 0

-- A write keeps the places before it, and leaves those behind it clear.
set_before :
    (res : List ℕ) (n c i : ℕ) → n < length res → i < n → get_or (set res n c) i 0 ≡ get_or res i 0
set_before res n c i lt less = elim (get_or-set_cases res n i c 0 lt) [
  | inl (same, at) ↦ absurd (omega (arith, same))
  | inr (ne, at) ↦ at
]

set_here : (res : List ℕ) (n c : ℕ) → n < length res → get_or (set res n c) n 0 ≡ c
set_here res n c lt = elim (get_or-set_cases res n n c 0 lt) [
  | inl (same, at) ↦ at
  | inr (ne, at) ↦ absurd (ne refl)
]

set_behind : (res : List ℕ) (n c : ℕ) → n < length res → Clear res n → Clear (set res n c) (suc n)
set_behind res n c lt h i le = elim (get_or-set_cases res n i c 0 lt) [
  | inl (same, at) ↦ absurd (omega (arith, same))
  | inr (ne, at) ↦ at ∙ h i (omega arith)
]

set-Clear : (res : List ℕ) (n : ℕ) → n < length res → Clear res n → Clear (set res n 0) n
set-Clear res n lt h i le = elim (get_or-set_cases res n i 0 0 lt) [
  | inl (same, at) ↦ at
  | inr (ne, at) ↦ at ∙ h i le
]

put_char_at-ok :
    (res : List ℕ) (j k c : ℕ)
    → 256 * j + k < length res
    → put_char_at res j k c ≡ ok (set res (256 * j + k) c)
put_char_at-ok res j k c lt = rw (lt→ltb (256 * j + k) (length res) lt) refl

-- The rows behind a delimiter: the first piece of the rest, and its others.
rows_after :
    (cs : List ℕ) (delim j : ℕ) {res : List ℕ} (res' : List ℕ)
    → Split delim cs (j + 1) 0 res res'
    → (row o : ℕ) → o < 256
    → get_or res' (256 * (j + 1 + row) + o) 0
      ≡ get_or (get_or (first_piece delim cs ∷ more_pieces delim cs) row []) o 0
rows_after cs delim j res' sp zero o h =
    ap (λ i. get_or res' i 0) (omega arith) ∙ sp.first o (omega arith)
rows_after cs delim j res' sp (suc row) o h =
    ap (λ i. get_or res' i 0) (omega arith) ∙ sp.others row o h

-- The piece that starts with the character stored.
first_after :
    (cs : List ℕ) (delim j k c : ℕ) (res res' : List ℕ)
    → get_or res (256 * j + k) 0 ≡ c
    → Split delim cs j (k + 1) res res'
    → (o : ℕ) → k + o < 256
    → get_or res' (256 * j + k + o) 0 ≡ get_or (c ∷ first_piece delim cs) o 0
first_after cs delim j k c res res' e sp zero h =
    ap (λ i. get_or res' i 0) (omega arith) ∙ sp.before (256 * j + k) (omega arith) ∙ e
first_after cs delim j k c res res' e sp (suc o) h =
    ap (λ i. get_or res' i 0) (omega arith) ∙ sp.first o (omega arith)

split_loop-Split :
    (xs rest : List ℕ) (delim j k : ℕ) (res : List ℕ)
    → IsText xs
    → Fits delim xs j k
    → length res ≡ 4096
    → Clear res (256 * j + k)
    → (res' : List ℕ) × (split_loop (xs ++ 0 ∷ rest) delim j k res ≡ ok res')
      × Split delim xs j k res res'
unfolding split_loop
split_loop-Split [] rest delim j k res t f len clear =
    let lt : 256 * j + k < length res = omega (arith, len, f.first, f.rows) in
    let behind = set-Clear res (256 * j + k) lt clear in
    (
      set res (256 * j + k) 0,
      put_char_at-ok res j k 0 lt,
      record {
        size = length-set res (256 * j + k) 0 ∙ len;
        first = λ o h. behind (256 * j + k + o) (omega arith);
        others = λ r o h. behind (256 * (j + 1 + r) + o) (omega (arith, f.first));
        before = λ i h. set_before res (256 * j + k) 0 i lt h;
      },
    )
split_loop-Split (c ∷ cs) rest delim j k res t f len clear =
    let some_char : (c == 0) ≡ false = ground (arith, t.0) in
    let lt : 256 * j + k < length res = omega (arith, len, f.first, f.rows) in
    elim (Bool-cases (c == delim)) [
      | inl e ↦
          let others = rw e at f.others in
          let rows = rw e at f.rows in
          let r = set res (256 * j + k) 0 in
          let clear' = set-Clear res (256 * j + k) lt clear in
          let (res', run, sp) =
            split_loop-Split cs rest delim (j + 1) 0 r t.1
              (record {
                first = omega (arith, others.0);
                others = others.1;
                rows = omega (arith, rows);
              })
              (length-set res (256 * j + k) 0 ∙ len)
              (λ i le. clear' i (omega (arith, le, f.first))) in
          (
            res',
            rw (some_char, e) (rw (put_char_at-ok res j k 0 lt) run),
            record {
              size = sp.size;
              first = λ o h. rw e (
                  sp.before (256 * j + k + o) (omega (arith, h))
                  ∙ clear' (256 * j + k + o) (omega arith));
              others = λ row o h. rw e (rows_after cs delim j res' sp row o h);
              before = λ i h.
                  sp.before i (omega (arith, h, f.first)) ∙ set_before res (256 * j + k) 0 i lt h;
            },
          )
      | inr e ↦
          let first = rw e at f.first in
          let others = rw e at f.others in
          let rows = rw e at f.rows in
          let r = set res (256 * j + k) c in
          let behind = set_behind res (256 * j + k) c lt clear in
          let (res', run, sp) =
            split_loop-Split cs rest delim j (k + 1) r t.1
              (record { first = omega (arith, first); others = others; rows = rows })
              (length-set res (256 * j + k) c ∙ len) (λ i le. behind i (omega (arith, le))) in
          (
            res',
            rw (some_char, e) (rw (put_char_at-ok res j k c lt) run),
            record {
              size = sp.size;
              first = λ o h.
                  rw e (first_after cs delim j k c r res' (set_here res (256 * j + k) c lt) sp o h);
              others = λ row o h. rw e (sp.others row o h);
              before =
                  λ i h. sp.before i (omega (arith, h)) ∙ set_before res (256 * j + k) c i lt h;
            },
          )
    ]

-- The bytes of row `row` of a result.
abbrev pub row_byte : List ℕ → ℕ → ℕ → ℕ
row_byte result row o = get_or result (256 * row + o) 0

abbrev pub pieces : ℕ → List ℕ → List (List ℕ)
pieces delim xs = first_piece delim xs ∷ more_pieces delim xs

-- With a cleared result, a text of bytes other than 0 whose pieces between the delimiters are at
-- most 16, each shorter than 256, is split: `strsplit` returns, the result keeps its size, each row
-- holds its piece, and every byte behind a piece and in the rows behind the last one is 0.
pub strsplit-pieces :
    (xs rest : List ℕ) (delim : ℕ)
    → IsText xs
    → Fits delim xs 0 0
    → (res : List ℕ) × (strsplit (xs ++ 0 ∷ rest) delim (replicate 4096 0) ≡ ok res)
      × (length res ≡ 4096)
      × ((row o : ℕ) → o < 256 → row_byte res row o ≡ get_or (get_or (pieces delim xs) row []) o 0)
unfolding strsplit
strsplit-pieces xs rest delim t f =
    let (res, run, sp) =
      split_loop-Split xs rest delim 0 0 (replicate 4096 0) t f (length-replicate {A = ℕ} 4096 0)
        (λ i le. get_or-replicate {A = ℕ} 4096 i 0) in
    (res, run, sp.size, rows res sp)
  where
    rows :
        (res : List ℕ)
        → Split delim xs 0 0 (replicate 4096 0) res
        → (row o : ℕ) → o < 256
        → row_byte res row o ≡ get_or (get_or (pieces delim xs) row []) o 0
    rows res sp zero o h = ap (λ i. get_or res i 0) (omega arith) ∙ sp.first o (omega arith)
    rows res sp (suc row) o h = ap (λ i. get_or res i 0) (omega arith) ∙ sp.others row o h
