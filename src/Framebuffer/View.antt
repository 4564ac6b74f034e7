-- ===== src/Framebuffer/View.antt =====
-- The view of framebuffer.c: the cursor is brought back to it, and its lines are drawn.
use os_2024_doors.Base.{
  ℕ, ◌+◌, ◌%◌, ◌^◌, ◌≤◌, ◌<◌, ◌≡◌, ◌⊎◌, refl, sym, ap, ◌∙◌, inl, inr, Bool, true, false, not, ◌||◌,
  arith, Bool-cases, ok, lt→ltb, dec_lt,
}
use os_2024_doors.Framebuffer.{
  Console, Screen, slt, next, view_rows, redraw, adjust, framebuffer_clear, new_frame_buffer_view,
}
use os_2024_doors.Framebuffer.Drawing.{
  IsNarrow, OnScreen, cell, char_or, char_or-empty, framebuffer_clear-blank, draw_rows-RowsDrawn,
}

-- The cursor stands on the last line, in the rows in view or just below.
pub record IsLast (n row frp : ℕ) : Type 0 where
  pub last : row + frp + 1 ≡ n
  pub room : n ≤ 4096
  pub row_le : row ≤ 25

-- Numbers that are not negative are compared as they are.
pub slt_of_lt : (a b : ℕ) → a < b → b ≤ 2 ^ 20 → slt a b ≡ true
slt_of_lt a b h k = lt→ltb ((a + 2 ^ 31) % 2 ^ 32) ((b + 2 ^ 31) % 2 ^ 32) (omega arith)

pub slt_of_le : (a b : ℕ) → b ≤ a → a ≤ 2 ^ 20 → slt a b ≡ false
slt_of_le a b h k =
    let le : (b + 2 ^ 31) % 2 ^ 32 ≤ (a + 2 ^ 31) % 2 ^ 32 = omega arith in ground (arith, le)

pub adjust-within : (s : Console) → s.cursor_row < 25 → adjust s ≡ s
unfolding adjust
adjust-within s h =
    rw
      (
        slt_of_le s.cursor_row 0 (omega arith) (omega arith),
        slt_of_lt s.cursor_row 25 h (omega arith),
      )
      refl

pub adjust-below :
    (s : Console)
    → s.cursor_row ≡ 25
    → adjust s ≡ record s { frame_row_pointer = next s.frame_row_pointer; cursor_row = 24 }
unfolding adjust
adjust-below s h =
    rw
      (
        slt_of_le s.cursor_row 0 (omega arith) (omega arith),
        slt_of_le s.cursor_row 25 (omega arith) (omega arith),
      )
      refl

-- The lines in view are drawn: those below the last one have no characters.
pub redraw-OnScreen :
    (s : Console)
    → IsNarrow s.buffer
    → ((i : ℕ) → s.size ≤ i → (s.buffer i).size ≡ 0)
    → s.frame_row_pointer ≤ s.size
    → s.size < s.frame_row_pointer + 256
    → s.size ≤ 4096
    → (z : Screen) × (redraw s ≡ ok (record s { screen = z }))
      × OnScreen s.buffer s.frame_row_pointer z
unfolding redraw
redraw-OnScreen s w below le lt room =
    let few : view_rows s + s.frame_row_pointer ≤ s.size = ground arith in
    let blank = framebuffer_clear s.screen in
    let q = draw_rows-RowsDrawn (view_rows s) 0 s blank w (omega (arith, few, room)) in
    (
      q.0,
      rw q.1 refl,
      λ r c a b. elim (dec_lt r (view_rows s)) [
        | yes in_view ↦
            q.2.char r c (omega arith) (omega arith) b
            ∙ ap (char_or (s.buffer (r + s.frame_row_pointer)) c)
                (framebuffer_clear-blank s.screen r c a b)
        | no out ↦
            let line = s.buffer (r + s.frame_row_pointer) in
            let past : s.size ≤ r + s.frame_row_pointer = ground (arith, out) in
            q.2.kept (cell r c) (inr (omega arith))
            ∙ framebuffer_clear-blank s.screen r c a b
            ∙ sym (char_or-empty line c 0 (below (r + s.frame_row_pointer) past))
      ],
    )

abbrev outside : Console → Bool
outside s = slt s.cursor_row 0 || not (slt s.cursor_row 25)

view-redraw :
    (change : Bool) (s : Console)
    → (outside s || change) ≡ true
    → new_frame_buffer_view change s ≡ redraw (adjust s)
unfolding new_frame_buffer_view
view-redraw change s h = rw h refl

view-same :
    (change : Bool) (s : Console)
    → (outside s || change) ≡ false
    → new_frame_buffer_view change s ≡ ok s
unfolding new_frame_buffer_view
view-same change s h = rw h refl

-- The cursor is brought back among the rows in view, and the lines in view are on the screen.
pub view-within :
    (change : Bool) (s : Console)
    → IsNarrow s.buffer
    → ((i : ℕ) → s.size ≤ i → (s.buffer i).size ≡ 0)
    → IsLast s.size s.cursor_row s.frame_row_pointer
    → ((change ≡ true) ⊎ OnScreen s.buffer s.frame_row_pointer s.screen)
    → s.cursor_row < 25
    → (z : Screen) × (new_frame_buffer_view change s ≡ ok (record s { screen = z }))
      × OnScreen s.buffer s.frame_row_pointer z
view-within change s w below h drawn lt = elim (Bool-cases (outside s || change)) [
  | inr e ↦ (s.screen, view-same change s e, kept change s drawn e)
  | inl e ↦
      let r = redraw-OnScreen s w below (omega (arith, h.last)) (omega (arith, h.last)) h.room in
      (r.0, view-redraw change s e ∙ ap redraw (adjust-within s lt) ∙ r.1, r.2)
]
  where
    kept :
        (change : Bool) (s : Console)
        → ((change ≡ true) ⊎ OnScreen s.buffer s.frame_row_pointer s.screen)
        → (outside s || change) ≡ false
        → OnScreen s.buffer s.frame_row_pointer s.screen
    kept change s (inr h) e = h
    kept change s (inl h) e = absurd (ground (arith, h, e))

pub view-below :
    (change : Bool) (s : Console)
    → IsNarrow s.buffer
    → ((i : ℕ) → s.size ≤ i → (s.buffer i).size ≡ 0)
    → IsLast s.size s.cursor_row s.frame_row_pointer
    → s.cursor_row ≡ 25
    → (z : Screen) × (new_frame_buffer_view change s
        ≡ ok (record s {
          frame_row_pointer = next s.frame_row_pointer;
          cursor_row = 24;
          screen = z;
        }))
      × OnScreen s.buffer (next s.frame_row_pointer) z
view-below change s w below h at =
    let t : Console = record s { frame_row_pointer = next s.frame_row_pointer; cursor_row = 24 } in
    let e : outside s ≡ true =
      rw (slt_of_le s.cursor_row 25 (omega arith) (omega arith)) (or_true (slt s.cursor_row 0)) in
    let e' : (outside s || change) ≡ true = rw e refl in
    let r =
      redraw-OnScreen t w below (omega (arith, t_last.last)) (omega (arith, t_last.last)) h.room in
    (r.0, view-redraw change s e' ∙ ap redraw (adjust-below s at) ∙ r.1, r.2)
  where
    or_true : (b : Bool) → b || true ≡ true
    or_true true = refl
    or_true false = refl

    t_last : IsLast s.size 24 (next s.frame_row_pointer)
    t_last = record {
      last = omega (arith, h.last, h.room, at);
      room = h.room;
      row_le = omega arith;
    }
