-- ===== src/Framebuffer/Cells.antt =====
-- framebuffer.c: a cell of the screen is written together with its place in the buffer.
use os_2024_doors.Base.{
  ℕ, suc, ◌+◌, ◌≤◌, ◌<◌, ◌≡◌, ◌≢◌, refl, sym, ap, ◌∙◌, true, false, arith, ltb, lt→ltb, List,
  length, set, get_or, get_or-set, dec_lt, ◌==◌, ℕ_discrete,
}
use mathlib.Core.Path.{subst}
use os_2024_doors.Framebuffer.{Line, Screen}
use os_2024_doors.Framebuffer.Drawing.{
  OnScreen, cell, char_or, poke_cell, poke_cell_self, poke_cell_ne,
}
use os_2024_doors.Framebuffer.Page.{update, update_self, update_ne}

-- The line changes in one column only, and the cell of that column is written.
pub OnScreen-update :
    (b : ℕ → Line) (frp : ℕ) (m : Screen) (l : Line) (row col v w : ℕ)
    → OnScreen b frp m
    → row < 25
    → col < 80
    → char_or l col 0 ≡ v
    → ((c : ℕ) → col ≢ c → char_or l c 0 ≡ char_or (b (row + frp)) c 0)
    → OnScreen (update b (row + frp) l) frp (poke_cell m (cell row col) v w)
OnScreen-update b frp m l row col v w h row_lt col_lt here others r c r_lt c_lt =
    elim (ℕ_discrete row r) [
      | no other ↦
          poke_cell_ne m (cell row col) v w (cell r c) (omega (arith, other, col_lt, c_lt))
            (omega (arith, other, col_lt, c_lt))
          ∙ h r c r_lt c_lt
          ∙ sym
              (ap (λ x. char_or x c 0) (update_ne b (row + frp) (r + frp) l (omega (arith, other))))
      | yes e ↦ elim (ℕ_discrete col c) [
        | no other ↦
            poke_cell_ne m (cell row col) v w (cell r c) (omega (arith, e, other))
              (omega (arith, e, other))
            ∙ h r c r_lt c_lt
            ∙ subst
                (λ x. char_or (b (x + frp)) c 0 ≡ char_or (update b (row + frp) l (x + frp)) c 0) e
                (sym (ap (λ x. char_or x c 0) (update_self b (row + frp) l) ∙ others c other))
        | yes e' ↦
            subst
              (λ x.
                poke_cell m (cell row col) v w (cell x c)
                ≡ char_or (update b (row + frp) l (x + frp)) c 0)
              e
              (subst
                (λ y.
                  poke_cell m (cell row col) v w (cell row y)
                  ≡ char_or (update b (row + frp) l (row + frp)) y 0)
                e'
                (poke_cell_self m (cell row col) v w
                  ∙ sym (ap (λ x. char_or x col 0) (update_self b (row + frp) l) ∙ here)))
      ]
    ]

-- A line with a character behind its last one.
abbrev longer : Line → ℕ → ℕ → ℕ → Line
longer l n c attr = record l {
  size = suc n;
  line_buf = set l.line_buf n c;
  color_buf = set l.color_buf n attr;
}

char_or-in : (l : Line) (c : ℕ) → c < l.size → char_or l c 0 ≡ get_or l.line_buf c 0
char_or-in l c lt = let e : ltb c l.size ≡ true = lt→ltb c l.size lt in rw e refl

char_or-behind : (l : Line) (c : ℕ) → l.size ≤ c → char_or l c 0 ≡ 0
char_or-behind l c le = let e : ltb c l.size ≡ false = ground arith in rw e refl

-- The screen after a character is stored behind the last one of its line.
pub store-OnScreen :
    (b : ℕ → Line) (frp : ℕ) (m : Screen) (row n c attr : ℕ)
    → OnScreen b frp m
    → row < 25
    → n < 79
    → (b (row + frp)).size ≡ n
    → length (b (row + frp)).line_buf ≡ 79
    → OnScreen
        (update b (row + frp) (longer (b (row + frp)) n c attr))
        frp
        (poke_cell m (cell row n) c attr)
store-OnScreen b frp m row n c attr h row_lt lt size width =
    let old = b (row + frp) in
    let l = longer old n c attr in
    let inside : n < length old.line_buf = omega (arith, width) in
    OnScreen-update b frp m l row n c attr h row_lt (omega arith)
      (char_or-in l n (omega arith) ∙ stored old.line_buf n inside)
      (λ q other. elim (dec_lt q n) [
        | yes before ↦
            char_or-in l q (omega arith)
            ∙ others old.line_buf n q inside other
            ∙ sym (char_or-in old q (omega (arith, size)))
        | no behind ↦
            char_or-behind l q (omega (arith, other))
            ∙ sym (char_or-behind old q (omega (arith, size, behind)))
      ])
  where
    stored : (xs : List ℕ) (n : ℕ) → n < length xs → get_or (set xs n c) n 0 ≡ c
    stored xs n lt = let e : (n == n) ≡ true = ground arith in get_or-set xs n n c 0 lt ∙ rw e refl

    others :
        (xs : List ℕ) (n q : ℕ) → n < length xs → n ≢ q → get_or (set xs n c) q 0 ≡ get_or xs q 0
    others xs n q lt other =
        let e : (n == q) ≡ false = ground (arith, other) in get_or-set xs n q c 0 lt ∙ rw e refl

-- The screen after the last character of a line is erased.
pub erase-OnScreen :
    (b : ℕ → Line) (frp : ℕ) (m : Screen) (row n w : ℕ)
    → OnScreen b frp m
    → row < 25
    → n < 79
    → (b (row + frp)).size ≡ suc n
    → OnScreen
        (update b (row + frp) (record (b (row + frp)) { size = n }))
        frp
        (poke_cell m (cell row n) 0 w)
erase-OnScreen b frp m row n w h row_lt lt size =
    let old = b (row + frp) in
    let l : Line = record old { size = n } in
    OnScreen-update b frp m l row n 0 w h row_lt (omega arith) (char_or-behind l n (omega arith))
      (λ q other. elim (dec_lt q n) [
        | yes before ↦ char_or-in l q before ∙ sym (char_or-in old q (omega (arith, size)))
        | no behind ↦
            char_or-behind l q (omega (arith, behind))
            ∙ sym (char_or-behind old q (omega (arith, size, behind, other)))
      ])
