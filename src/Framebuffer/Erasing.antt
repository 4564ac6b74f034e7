-- ===== src/Framebuffer/Erasing.antt =====
-- framebuffer.c: the backspace behind a character of the last line.
use os_2024_doors.Base.{
  inr, ℕ, suc, ◌+◌, ◌*◌, ◌%◌, ◌^◌, ◌-◌, ◌≤◌, ◌<◌, ◌≡◌, refl, sym, ap, ◌∙◌, true, false, arith, ltb,
  List, [], ◌∷◌, ◌++◌, length, take, length-append, ok, ◌>>=◌, lt→ltb, ◌==◌,
}
use mathlib.Core.Path.{subst}
use os_2024_doors.Framebuffer.{Console, Line, Screen, slt, next, prev, cursor_line, place_cursor}
use os_2024_doors.Framebuffer.Text.{
  framebuffer_erase, erase_char, backspace, new_char, handle_new_char,
}
use os_2024_doors.Framebuffer.Drawing.{OnScreen, cell, poke_cell}
use os_2024_doors.Framebuffer.Cells.{erase-OnScreen}
use os_2024_doors.Framebuffer.View.{slt_of_lt, slt_of_le}
use os_2024_doors.Framebuffer.Page.{
  Page, Holds, IsText, ShowsPage, type_char, height, update, update_self, update_ne, update-all,
  HoldsAll-update,
}
use os_2024_doors.Framebuffer.Breaks.{line_lem, place_cursor-ShowsPage}
use os_2024_doors.Framebuffer.Typing.{type_char-within}
use os_2024_doors.Framebuffer.Printing.{in_buffer, handle_new_char-eq, handle_new_char-ShowsPage}

pub take-prefix :
    (xs ys : List ℕ) (c : ℕ)
    → take (length (xs ++ c ∷ [])) ys ≡ xs ++ c ∷ []
    → take (length xs) ys ≡ xs
take-prefix [] ys c h = refl
take-prefix (x ∷ xs) [] c h = absurd cc
take-prefix (x ∷ xs) (y ∷ ys) c h =
    let head : y ≡ x = cc in
    let tail : take (length (xs ++ c ∷ [])) ys ≡ xs ++ c ∷ [] = cc in
    rw head (ap (λ r. x ∷ r) (take-prefix xs ys c tail))

-- The page with a character behind its last one.
abbrev pub behind : Page → ℕ → Page
behind t c = record t { line = t.line ++ c ∷ [] }

-- The line becomes one shorter.
erase-IsText :
    (n k : ℕ) (b : ℕ → Line) (t : Page) (c : ℕ)
    → IsText n b (behind t c)
    → k ≡ length t.above
    → IsText n (update b k (record (b k) { size = length t.line })) t
erase-IsText n k b t c h e =
    let l : Line = record (b k) { size = length t.line } in
    let here : Holds (b k) (t.line ++ c ∷ []) =
      subst (λ i. Holds (b i) (t.line ++ c ∷ [])) (sym e) h.line in
    let grown = length-append t.line (c ∷ []) in
    let wide = h.narrow k in
    let after : Holds l t.line = record {
      size = refl;
      text = take-prefix t.line (b k).line_buf c here.text;
    } in
    record {
      count = h.count;
      line =
          subst (λ x. Holds x t.line) (sym (ap (update b k l) (sym e) ∙ update_self b k l)) after;
      above = HoldsAll-update b k l t.above h.above (omega (arith, e));
      below = λ i le.
          ap (λ x. x.size) (update_ne b k i l (omega (arith, h.count, e, le))) ∙ h.below i le;
      narrow = update-all (λ x. x.size ≤ 79) b k l h.narrow (omega (arith, here.size, grown, wide));
      shape = update-all (λ x. length x.line_buf ≡ 79) b k l h.shape (h.shape k);
    }

framebuffer_erase-eq :
    (s : Console) (n : ℕ)
    → s.cursor_col ≡ suc n
    → n < 79
    → s.cursor_row < 25
    → framebuffer_erase s
      ≡ record s { screen = poke_cell s.screen (cell s.cursor_row n) 0x00 0x07; cursor_col = n }
unfolding framebuffer_erase
framebuffer_erase-eq s n e lt row =
    let right : slt 0 s.cursor_col ≡ true =
      slt_of_lt 0 s.cursor_col (omega (arith, e)) (omega (arith, e)) in
    let left : prev s.cursor_col ≡ n = omega (arith, e) in
    let stays : slt n 0 ≡ false = slt_of_le n 0 (omega arith) (omega arith) in
    let p : (160 * s.cursor_row + (s.cursor_col % 80 + 2 ^ 32 - 1) * 2) % 2 ^ 32
        ≡ cell s.cursor_row n =
      omega (arith, e, lt, row) in
    let p' : next (cell s.cursor_row n) ≡ cell s.cursor_row n + 1 = omega (arith, lt, row) in
    rw p (rw p' (rw right (rw left (rw stays refl))))

erase_char-eq :
    (s : Console) (n k : ℕ) (m : Screen)
    → framebuffer_erase s ≡ record s { screen = m; cursor_col = n }
    → cursor_line s ≡ k
    → ltb k 4096 ≡ true
    → ((s.buffer k).size + 255) % 256 ≡ n
    → erase_char s
      ≡ ok (record s {
        screen = m;
        cursor_col = n;
        buffer = update s.buffer k (record (s.buffer k) { size = n });
      })
unfolding erase_char
erase_char-eq s n k m e line inside size = rw e (rw line (rw inside (rw size refl)))

backspace-eq :
    (s : Console) (fg bg : ℕ)
    → slt 0 s.cursor_col ≡ true
    → (s.cursor_col == 0) ≡ false
    → new_char s 8 fg bg ≡ erase_char s
unfolding new_char backspace
backspace-eq s fg bg e z = rw e (rw z refl)

-- A backspace behind a character of the last line takes that character back.
pub backspace-ShowsPage :
    (s : Console) (t : Page) (c fg bg : ℕ)
    → ShowsPage s (behind t c)
    → (z : Console) × (handle_new_char s 8 fg bg ≡ ok z) × ShowsPage z t
backspace-ShowsPage s t c fg bg h =
    let n = length t.line in
    let k = length t.above in
    let grown = length-append t.line (c ∷ []) in
    let col : s.cursor_col ≡ suc n = omega (arith, h.column, grown) in
    let lt : n < 79 = omega (arith, col, h.column_lt) in
    let line : cursor_line s ≡ k = line_lem s (behind t c) h in
    let inside : ltb k 4096 ≡ true = lt→ltb k 4096 (omega (arith, h.room, h.text.count)) in
    let size : ((s.buffer k).size + 255) % 256 ≡ n = omega (arith, h.text.line.size, grown, lt) in
    let right : slt 0 s.cursor_col ≡ true =
      slt_of_lt 0 s.cursor_col (omega (arith, col)) (omega (arith, col, lt)) in
    let some_col : (s.cursor_col == 0) ≡ false = ground (arith, col) in
    let m = poke_cell s.screen (cell s.cursor_row n) 0x00 0x07 in
    let e = framebuffer_erase-eq s n col lt h.row_lt in
    let z : Console = record s {
      screen = m;
      cursor_col = n;
      buffer = update s.buffer k (record (s.buffer k) { size = n });
    } in
    let run = backspace-eq s fg bg right some_col ∙ erase_char-eq s n k m e line inside size in
    let row : s.cursor_row + s.frame_row_pointer ≡ k = omega (arith, h.last, h.text.count) in
    let wide : (s.buffer (s.cursor_row + s.frame_row_pointer)).size ≡ suc n =
      subst (λ i. (s.buffer i).size ≡ suc n) (sym row) (h.text.line.size ∙ omega (arith, grown)) in
    let drawn : OnScreen z.buffer s.frame_row_pointer m =
      subst
        (λ i. OnScreen (update s.buffer i (record (s.buffer i) { size = n })) s.frame_row_pointer m)
        row
        (erase-OnScreen s.buffer s.frame_row_pointer s.screen s.cursor_row n 0x07 h.screen h.row_lt
          lt wide) in
    let shows : ShowsPage z t = record {
      text = erase-IsText s.size k s.buffer t c h.text refl;
      last = h.last;
      room = h.room;
      row_lt = h.row_lt;
      column = refl;
      column_lt = lt;
      visible = h.visible;
      screen = drawn;
    } in
    (
      place_cursor z,
      handle_new_char-eq s z 8 fg bg refl (in_buffer s (behind t c) h) run,
      place_cursor-ShowsPage z t shows,
    )

-- On a console that shows a page, a character from 32 on that leaves room in its line and the
-- backspace after it both return, and the console shows the page that it showed before: in the
-- buffer, in the cursor's variables, and in the characters of the screen's cells.
pub backspace-typed :
    (s : Console) (t : Page) (c fg bg : ℕ)
    → ShowsPage s t
    → 32 ≤ c
    → length t.line < 78
    → (z : Console) × ((handle_new_char s c fg bg >>= λ u. handle_new_char u 8 fg bg) ≡ ok z)
      × ShowsPage z t
backspace-typed s t c fg bg h plain lt =
    let e = type_char-within t c (λ x. absurd (omega arith)) lt in
    let fits : height (type_char t c) ≤ 4096 =
      subst (λ p. height p ≤ 4096) (sym e) (omega (arith, h.room, h.text.count)) in
    let v = handle_new_char-ShowsPage s t c fg bg h (inr plain) fits in
    let b = backspace-ShowsPage v.0 t c fg bg (subst (ShowsPage v.0) e v.2) in
    (b.0, ap (λ r. r >>= λ u. handle_new_char u 8 fg bg) v.1 ∙ b.1, b.2)
