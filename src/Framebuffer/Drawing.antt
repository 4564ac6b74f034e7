-- ===== src/Framebuffer/Drawing.antt =====
-- framebuffer.c: what drawing the lines in view leaves in the memory of the screen.
use os_2024_doors.Base.{
  ℕ, zero, suc, ◌+◌, ◌*◌, ◌%◌, ◌≤◌, ◌<◌, ◌≡◌, ◌≢◌, ◌⊎◌, refl, ap, ◌∙◌, inl, inr, true, false, arith,
  if◌then◌else◌, ltb, get_or, ok, lt→ltb, dec_lt, ◌==◌, ℕ_discrete,
}
use mathlib.Core.Path.{subst}
use os_2024_doors.Framebuffer.{
  Console, Line, Screen, add_int, poke, draw_line, draw_rows, framebuffer_clear,
}

-- No line is wider than the 79 columns of its array.
abbrev pub IsNarrow : (ℕ → Line) → Type 0
IsNarrow b = (i : ℕ) → (b i).size ≤ 79

-- The character in a column of a line, and what else is there behind the line's last one.
abbrev pub char_or : Line → ℕ → ℕ → ℕ
char_or l c v = if ltb c l.size then get_or l.line_buf c 0 else v

-- The position of a cell of the screen.
abbrev pub cell : ℕ → ℕ → ℕ
cell r c = r * 160 + c * 2

-- Each of the 25 rows of 80 cells holds the characters of its line in view, and no character behind
-- them.
abbrev pub OnScreen : (ℕ → Line) → ℕ → Screen → Type 0
OnScreen b frp m = (r c : ℕ) → r < 25 → c < 80 → m (cell r c) ≡ char_or (b (r + frp)) c 0

pub poke_self : (m : Screen) (p v : ℕ) → poke m p v p ≡ v
poke_self m p v = let e : (p == p) ≡ true = ground arith in rw e refl

pub poke_ne : (m : Screen) (p v q : ℕ) → p ≢ q → poke m p v q ≡ m q
poke_ne m p v q h = let e : (p == q) ≡ false = ground (arith, h) in rw e refl

-- A cell with its colour.
abbrev pub poke_cell : Screen → ℕ → ℕ → ℕ → Screen
poke_cell m p v w = poke (poke m p v) (p + 1) w

pub poke_cell_self : (m : Screen) (p v w : ℕ) → poke_cell m p v w p ≡ v
poke_cell_self m p v w = poke_ne (poke m p v) (p + 1) w p (omega arith) ∙ poke_self m p v

pub poke_cell_ne : (m : Screen) (p v w q : ℕ) → p ≢ q → p + 1 ≢ q → poke_cell m p v w q ≡ m q
poke_cell_ne m p v w q a b = poke_ne (poke m p v) (p + 1) w q b ∙ poke_ne m p v q a

-- What the loop over the columns leaves: the characters in its columns, and the rest as it was.
record LineDrawn (n j i : ℕ) (l : Line) (m z : Screen) : Type 0 where
  pub kept : (p : ℕ) → ((p < cell i j) ⊎ (cell i (j + n) ≤ p)) → z p ≡ m p
  pub char : (c : ℕ) → j ≤ c → c < j + n → z (cell i c) ≡ get_or l.line_buf c 0

draw_line-LineDrawn :
    (n j i : ℕ) (l : Line) (m : Screen)
    → j + n ≤ 79
    → (z : Screen) × (draw_line n j i l m ≡ ok z) × LineDrawn n j i l m z
unfolding draw_line
draw_line-LineDrawn zero j i l m h =
    (m, refl, record { kept = λ p e. refl; char = λ c le lt. absurd (omega arith) })
draw_line-LineDrawn (suc n) j i l m h =
    let v = get_or l.line_buf j 0 in
    let w = get_or l.color_buf j 0 in
    let r = draw_line-LineDrawn n (j + 1) i l (poke_cell m (cell i j) v w) (omega arith) in
    let a : ltb 79 j ≡ false = ground arith in
    let b : ltb j 79 ≡ true = ground arith in
    (
      r.0,
      rw (a, b) r.1,
      record {
        kept = λ p e. elim e [
          | inl lt ↦
              r.2.kept p (inl (omega arith))
              ∙ poke_cell_ne m (cell i j) v w p (omega arith) (omega arith)
          | inr le ↦
              r.2.kept p (inr (omega arith))
              ∙ poke_cell_ne m (cell i j) v w p (omega arith) (omega arith)
        ];
        char = λ c le lt. elim (ℕ_discrete j c) [
          | yes e ↦
              subst (λ k. r.0 (cell i k) ≡ get_or l.line_buf k 0) e
                (r.2.kept (cell i j) (inl (omega arith)) ∙ poke_cell_self m (cell i j) v w)
          | no ne ↦ r.2.char c (omega arith) (omega arith)
        ];
      },
    )

-- What the loop over the rows leaves.
pub record RowsDrawn (n i : ℕ) (s : Console) (m z : Screen) : Type 0 where
  pub kept : (p : ℕ) → ((p < cell i 0) ⊎ (cell (i + n) 0 ≤ p)) → z p ≡ m p
  pub char :
      (r c : ℕ)
      → i ≤ r
      → r < i + n
      → c < 80
      → z (cell r c) ≡ char_or (s.buffer (r + s.frame_row_pointer)) c (m (cell r c))

-- One row.
row-char :
    (l : Line) (r c : ℕ) (m z : Screen)
    → LineDrawn l.size 0 r l m z
    → z (cell r c) ≡ char_or l c (m (cell r c))
row-char l r c m z h = elim (dec_lt c l.size) [
  | yes lt ↦
      let e : ltb c l.size ≡ true = lt→ltb c l.size lt in
      rw e (h.char c (omega arith) (omega arith))
  | no ge ↦
      let e : ltb c l.size ≡ false = ground arith in rw e (h.kept (cell r c) (inr (omega arith)))
]

-- The first row and the others, by what its parts give.
draw_rows-eq :
    (n i k : ℕ) (s : Console) (m l z : Screen)
    → add_int i s.frame_row_pointer ≡ k
    → ltb k 4096 ≡ true
    → draw_line (s.buffer k).size 0 i (s.buffer k) m ≡ ok l
    → draw_rows n (i + 1) s l ≡ ok z
    → draw_rows (suc n) i s m ≡ ok z
unfolding draw_rows
draw_rows-eq n i k s m l z index inside line rows = rw index (rw inside (rw line rows))

pub draw_rows-RowsDrawn :
    (n i : ℕ) (s : Console) (m : Screen)
    → IsNarrow s.buffer
    → i + n + s.frame_row_pointer ≤ 4096
    → (z : Screen) × (draw_rows n i s m ≡ ok z) × RowsDrawn n i s m z
unfolding draw_rows
draw_rows-RowsDrawn zero i s m w h =
    (m, refl, record { kept = λ p e. refl; char = λ r c le lt k. absurd (omega arith) })
draw_rows-RowsDrawn (suc n) i s m w h =
    let k = i + s.frame_row_pointer in
    let index : add_int i s.frame_row_pointer ≡ k = omega arith in
    let narrow = w k in
    let l = draw_line-LineDrawn (s.buffer k).size 0 i (s.buffer k) m (omega (arith, narrow)) in
    let q = draw_rows-RowsDrawn n (i + 1) s l.0 w (omega arith) in
    let a : ltb k 4096 ≡ true = ground arith in
    (
      q.0,
      draw_rows-eq n i k s m l.0 q.0 index a l.1 q.1,
      record {
        kept = λ p e. elim e [
          | inl lt ↦ q.2.kept p (inl (omega arith)) ∙ l.2.kept p (inl (omega arith))
          | inr le ↦ q.2.kept p (inr (omega arith)) ∙ l.2.kept p (inr (omega (arith, narrow)))
        ];
        char = λ r c le lt col. elim (ℕ_discrete i r) [
          | yes e ↦
              subst
                (λ x.
                  q.0 (cell x c) ≡ char_or (s.buffer (x + s.frame_row_pointer)) c (m (cell x c)))
                e (q.2.kept (cell i c) (inl (omega arith)) ∙ row-char (s.buffer k) i c m l.0 l.2)
          | no ne ↦
              q.2.char r c (omega arith) (omega arith) col
              ∙ ap (char_or (s.buffer (r + s.frame_row_pointer)) c)
                  (l.2.kept (cell r c) (inr (omega (arith, narrow))))
        ];
      },
    )

-- The cleared screen has no character in its cells.
pub framebuffer_clear-blank :
    (m : Screen) (r c : ℕ) → r < 25 → c < 80 → framebuffer_clear m (cell r c) ≡ 0
unfolding framebuffer_clear
framebuffer_clear-blank m r c a b =
    let inside : ltb (cell r c) 8000 ≡ true = lt→ltb (cell r c) 8000 (omega arith) in
    let even : (cell r c % 2 == 0) ≡ true = ground arith in rw inside (rw even refl)

-- A line without characters is blank.
pub char_or-empty : (l : Line) (c v : ℕ) → l.size ≡ 0 → char_or l c v ≡ v
char_or-empty l c v e = let none : ltb c l.size ≡ false = ground (arith, e) in rw none refl
