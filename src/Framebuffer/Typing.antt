-- ===== src/Framebuffer/Typing.antt =====
-- framebuffer.c: characters stored at the end of the page.
use os_2024_doors.Base.{
  ℕ, suc, ◌+◌, ◌*◌, ◌%◌, ◌≤◌, ◌<◌, ◌≡◌, ◌≢◌, refl, sym, ap, ◌∙◌, inr, true, false, arith, ltb, [],
  ◌∷◌, ◌++◌, length, set, length-append, ok, lt→ltb, ◌==◌, ℕ_discrete,
}
use mathlib.Core.Path.{subst}
use os_2024_doors.Framebuffer.{
  Console, Line, slt, next, add_int, cursor_line, new_frame_buffer_view, poke,
}
use os_2024_doors.Framebuffer.Text.{put_cell, advance, store_char}
use os_2024_doors.Framebuffer.Drawing.{OnScreen, cell}
use os_2024_doors.Framebuffer.Cells.{store-OnScreen}
use os_2024_doors.Framebuffer.View.{slt_of_lt}
use os_2024_doors.Framebuffer.Page.{
  Page, IsText, ShowsPage, new_line, type_char, height, update, new_line-IsText, store-IsText,
}
use os_2024_doors.Framebuffer.Breaks.{view-Viewed, line_lem}

-- A character before the last column.
put_cell-eq :
    (l : Line) (col c attr : ℕ)
    → l.size ≡ col
    → col < 79
    → put_cell l col c attr
      ≡ ok (record l {
        size = suc col;
        line_buf = set l.line_buf col c;
        color_buf = set l.color_buf col attr;
      })
unfolding put_cell
put_cell-eq l col c attr e lt =
    let inside : ltb col 79 ≡ true = lt→ltb col 79 lt in
    let grows : slt l.size (next col) ≡ true =
      slt_of_lt l.size (next col) (omega (arith, e)) (omega arith) in
    let cut : next col % 256 ≡ suc col = omega arith in rw inside (rw grows (rw cut refl))

-- A character at the end of the page, by what its parts give.
store_char-eq :
    (s v : Console) (k c attr : ℕ) (l : Line)
    → cursor_line s ≡ k
    → ltb k 4096 ≡ true
    → put_cell (s.buffer k) s.cursor_col c attr ≡ ok l
    → new_frame_buffer_view false (
        advance (record s {
          screen =
              poke
                (poke s.screen (add_int (s.cursor_row * 160) (s.cursor_col * 2)) c)
                (next (add_int (s.cursor_row * 160) (s.cursor_col * 2)))
                attr;
          buffer = update s.buffer k l;
        }))
      ≡ ok v
    → store_char s c attr ≡ ok v
unfolding store_char
store_char-eq s v k c attr l line inside cell view = rw line (rw inside (rw cell view))

-- The page with the character, before a line that is full is left.
abbrev typed : Page → ℕ → Page
typed t c = record t { line = t.line ++ c ∷ [] }

advance_within :
    (s : Console) (n : ℕ) → s.cursor_col ≡ n → n < 78 → advance s ≡ record s { cursor_col = suc n }
unfolding advance
advance_within s n e lt =
    let col : next s.cursor_col ≡ suc n = omega (arith, e) in
    rw col (rw (slt_of_lt (suc n) 79 (omega arith) (omega arith)) refl)

advance_full :
    (s : Console)
    → s.cursor_col ≡ 78
    → advance s ≡ record s { size = next s.size; cursor_row = next s.cursor_row; cursor_col = 0 }
unfolding advance
advance_full s e = let col : next s.cursor_col ≡ 79 = omega (arith, e) in rw col refl

-- The stored character, with the line that is left when it is full.
pub type_char-within : (t : Page) (c : ℕ) → c ≢ 10 → length t.line < 78 → type_char t c ≡ typed t c
type_char-within t c plain lt =
    let a : (c == 10) ≡ false = ground (arith, plain) in
    let b : (length t.line == 78) ≡ false = ground arith in rw (a, b) refl

pub type_char-full :
    (t : Page) (c : ℕ) → c ≢ 10 → length t.line ≡ 78 → type_char t c ≡ new_line (typed t c)
type_char-full t c plain e =
    let a : (c == 10) ≡ false = ground (arith, plain) in
    let b : (length t.line == 78) ≡ true = ground (arith, e) in rw (a, b) refl

-- The console once the character is in its arrays, by the line that holds it then.
abbrev stored : Console → ℕ → ℕ → ℕ → Line → Console
stored s k c attr l = record s {
  screen =
      poke (poke s.screen (add_int (s.cursor_row * 160) (s.cursor_col * 2)) c)
        (next (add_int (s.cursor_row * 160) (s.cursor_col * 2))) attr;
  buffer = update s.buffer k l;
}

-- The view after a character that leaves room in the line.
stored-within :
    (s : Console) (t : Page) (c attr k : ℕ) (l : Line)
    → ShowsPage s t
    → IsText s.size (update s.buffer k l) (typed t c)
    → OnScreen (update s.buffer k l) s.frame_row_pointer (stored s k c attr l).screen
    → length t.line < 78
    → (v : Console) × (new_frame_buffer_view false (advance (stored s k c attr l)) ≡ ok v)
      × ShowsPage v (typed t c)
stored-within s t c attr k l h x drawn lt =
    let n = length t.line in
    let v =
      view-Viewed false (record (stored s k c attr l) { cursor_col = suc n }) (typed t c) x
        (record { last = h.last; room = h.room; row_le = omega (arith, h.row_lt) })
        (inr (λ r. drawn)) in
    let grown = length-append t.line (c ∷ []) in
    (
      v.0,
      ap (new_frame_buffer_view false) (advance_within (stored s k c attr l) n h.column lt) ∙ v.1,
      record {
        text = v.2.text;
        last = v.2.last;
        room = v.2.room;
        row_lt = v.2.row_lt;
        column = omega (arith, v.2.col, grown);
        column_lt = omega (arith, v.2.col);
        visible = v.2.viewable ∙ h.visible;
        screen = v.2.screen;
      },
    )

-- The view after a character that fills the line.
stored-full :
    (s : Console) (t : Page) (c attr k : ℕ) (l : Line)
    → ShowsPage s t
    → IsText s.size (update s.buffer k l) (typed t c)
    → OnScreen (update s.buffer k l) s.frame_row_pointer (stored s k c attr l).screen
    → length t.line ≡ 78
    → s.size < 4096
    → (v : Console) × (new_frame_buffer_view false (advance (stored s k c attr l)) ≡ ok v)
      × ShowsPage v (new_line (typed t c))
stored-full s t c attr k l h x drawn full lt =
    let n = s.size in
    let u : Console = record (stored s k c attr l) {
      size = next n;
      cursor_row = next s.cursor_row;
      cursor_col = 0;
    } in
    let grown : next n ≡ n + 1 = omega arith in
    let y : IsText (next n) u.buffer (new_line (typed t c)) =
      subst (λ i. IsText i u.buffer (new_line (typed t c))) (sym grown)
        (new_line-IsText n u.buffer (typed t c) x) in
    let v =
      view-Viewed false u (new_line (typed t c)) y
        (record {
          last = omega (arith, h.last, h.row_lt, h.room);
          room = omega arith;
          row_le = omega (arith, h.row_lt);
        })
        (inr (λ r. drawn)) in
    (
      v.0,
      ap (new_frame_buffer_view false) (advance_full (stored s k c attr l) (h.column ∙ full)) ∙ v.1,
      record {
        text = v.2.text;
        last = v.2.last;
        room = v.2.room;
        row_lt = v.2.row_lt;
        column = v.2.col;
        column_lt = omega (arith, v.2.col);
        visible = v.2.viewable ∙ h.visible;
        screen = v.2.screen;
      },
    )

-- The screen with the character, which may stand in the last column.
stored-OnScreen :
    (s : Console) (t : Page) (c attr : ℕ)
    → ShowsPage s t
    → OnScreen
        (update s.buffer (length t.above) (record (s.buffer (length t.above)) {
          size = suc s.cursor_col;
          line_buf = set (s.buffer (length t.above)).line_buf s.cursor_col c;
          color_buf = set (s.buffer (length t.above)).color_buf s.cursor_col attr;
        }))
        s.frame_row_pointer
        (poke
          (poke s.screen (add_int (s.cursor_row * 160) (s.cursor_col * 2)) c)
          (next (add_int (s.cursor_row * 160) (s.cursor_col * 2)))
          attr)
stored-OnScreen s t c attr h =
    let k : s.cursor_row + s.frame_row_pointer ≡ length t.above =
      omega (arith, h.last, h.text.count) in
    let size = subst (λ i. (s.buffer i).size ≡ length t.line) (sym k) h.text.line.size in
    let p : cell s.cursor_row s.cursor_col ≡ add_int (s.cursor_row * 160) (s.cursor_col * 2) =
      omega (arith, h.row_lt, h.column_lt) in
    let p' : cell s.cursor_row s.cursor_col + 1
        ≡ next (add_int (s.cursor_row * 160) (s.cursor_col * 2)) =
      omega (arith, h.row_lt, h.column_lt) in
    at (length t.above) k (add_int (s.cursor_row * 160) (s.cursor_col * 2)) p
      (next (add_int (s.cursor_row * 160) (s.cursor_col * 2))) p'
      (store-OnScreen s.buffer s.frame_row_pointer s.screen s.cursor_row s.cursor_col c attr
        h.screen h.row_lt h.column_lt (size ∙ sym h.column)
        (h.text.shape (s.cursor_row + s.frame_row_pointer)))
  where
    Drawn : ℕ → ℕ → ℕ → Type 0
    Drawn i p q =
        OnScreen
          (update s.buffer i (record (s.buffer i) {
            size = suc s.cursor_col;
            line_buf = set (s.buffer i).line_buf s.cursor_col c;
            color_buf = set (s.buffer i).color_buf s.cursor_col attr;
          }))
          s.frame_row_pointer (poke (poke s.screen p c) q attr)

    at :
        (i : ℕ)
        → s.cursor_row + s.frame_row_pointer ≡ i
        → (p : ℕ) → cell s.cursor_row s.cursor_col ≡ p
        → (q : ℕ) → cell s.cursor_row s.cursor_col + 1 ≡ q
        → Drawn
            (s.cursor_row + s.frame_row_pointer)
            (cell s.cursor_row s.cursor_col)
            (cell s.cursor_row s.cursor_col + 1)
        → Drawn i p q
    at i e p f q g h =
        subst (λ x. Drawn i p x) g
          (subst (λ x. Drawn i x (cell s.cursor_row s.cursor_col + 1)) f
            (subst
              (λ x. Drawn x (cell s.cursor_row s.cursor_col) (cell s.cursor_row s.cursor_col + 1)) e
              h))

pub store_char-ShowsPage :
    (s : Console) (t : Page) (c attr : ℕ)
    → ShowsPage s t
    → c ≢ 10
    → height (type_char t c) ≤ 4096
    → (z : Console) × (store_char s c attr ≡ ok z) × ShowsPage z (type_char t c)
store_char-ShowsPage s t c attr h plain room =
    let k = length t.above in
    let line : cursor_line s ≡ k = line_lem s t h in
    let inside : ltb k 4096 ≡ true = lt→ltb k 4096 (omega (arith, h.room, h.text.count)) in
    let cell =
      put_cell-eq (s.buffer k) s.cursor_col c attr (h.text.line.size ∙ sym h.column) h.column_lt in
    let l : Line = record (s.buffer k) {
      size = suc s.cursor_col;
      line_buf = set (s.buffer k).line_buf s.cursor_col c;
      color_buf = set (s.buffer k).color_buf s.cursor_col attr;
    } in
    let x : IsText s.size (update s.buffer k l) (typed t c) =
      subst
        (λ n.
          IsText s.size
            (update s.buffer k (record (s.buffer k) {
              size = suc n;
              line_buf = set (s.buffer k).line_buf n c;
              color_buf = set (s.buffer k).color_buf n attr;
            }))
            (typed t c))
        (sym h.column)
        (store-IsText s.size s.buffer t c attr k h.text (omega (arith, h.column, h.column_lt))
          refl) in
    let drawn = stored-OnScreen s t c attr h in
    elim (ℕ_discrete (length t.line) 78) [
      | yes full ↦
          let e = type_char-full t c plain full in
          let tall : height (new_line (typed t c)) ≤ 4096 = subst (λ q. height q ≤ 4096) e room in
          let v = stored-full s t c attr k l h x drawn full (omega (arith, h.text.count)) in
          (
            v.0,
            store_char-eq s v.0 k c attr l line inside cell v.1,
            subst (ShowsPage v.0) (sym e) v.2,
          )
      | no short ↦
          let lt : length t.line < 78 = omega (arith, h.column, h.column_lt, short) in
          let e = type_char-within t c plain lt in
          let v = stored-within s t c attr k l h x drawn lt in
          (
            v.0,
            store_char-eq s v.0 k c attr l line inside cell v.1,
            subst (ShowsPage v.0) (sym e) v.2,
          )
    ]
