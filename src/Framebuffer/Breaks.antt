-- ===== src/Framebuffer/Breaks.antt =====
-- framebuffer.c: drawing the view again, and line breaks at the end of the page.
use os_2024_doors.Base.{
  ℕ, ◌+◌, ◌≤◌, ◌<◌, ◌≡◌, ◌⊎◌, refl, sym, ◌∙◌, inl, inr, Bool, true, false, arith, ltb, length, ok,
  lt→ltb, dec_lt,
}
use mathlib.Core.Path.{subst}
use os_2024_doors.Framebuffer.{
  Console, slt, next, add_int, cursor_line, place_cursor, framebuffer_set_cursor, enable_cursor,
  disable_cursor, new_frame_buffer_view,
}
use os_2024_doors.Framebuffer.Text.{break_line}
use os_2024_doors.Framebuffer.Drawing.{OnScreen}
use os_2024_doors.Framebuffer.View.{IsLast, slt_of_le, view-within, view-below}
use os_2024_doors.Framebuffer.Page.{
  Page, IsText, ShowsPage, new_line, update, new_line-IsText, clear-IsText,
}

-- What the drawing of the view leaves.
pub record Viewed (u v : Console) (t : Page) : Type 0 where
  pub text : IsText v.size v.buffer t
  pub last : v.cursor_row + v.frame_row_pointer + 1 ≡ v.size
  pub room : v.size ≤ 4096
  pub row_lt : v.cursor_row < 25
  pub col : v.cursor_col ≡ u.cursor_col
  pub viewable : v.is_cursor_viewable ≡ u.is_cursor_viewable
  pub screen : OnScreen v.buffer v.frame_row_pointer v.screen

pub view-Viewed :
    (change : Bool) (u : Console) (t : Page)
    → IsText u.size u.buffer t
    → IsLast u.size u.cursor_row u.frame_row_pointer
    → ((change ≡ true) ⊎ (u.cursor_row < 25 → OnScreen u.buffer u.frame_row_pointer u.screen))
    → (v : Console) × (new_frame_buffer_view change u ≡ ok v) × Viewed u v t
view-Viewed change u t x h drawn = elim (dec_lt u.cursor_row 25) [
  | yes lt ↦
      let r = view-within change u x.narrow x.below h (from change u drawn lt) lt in
      (
        record u { screen = r.0 },
        r.1,
        record {
          text = x;
          last = h.last;
          room = h.room;
          row_lt = lt;
          col = refl;
          viewable = refl;
          screen = r.2;
        },
      )
  | no ge ↦
      let at : u.cursor_row ≡ 25 = omega (arith, h.row_le, ge) in
      let r = view-below change u x.narrow x.below h at in
      (
        record u { frame_row_pointer = next u.frame_row_pointer; cursor_row = 24; screen = r.0 },
        r.1,
        record {
          text = x;
          last = omega (arith, h.last, h.room, at);
          room = h.room;
          row_lt = omega arith;
          col = refl;
          viewable = refl;
          screen = r.2;
        },
      )
]
  where
    from :
        (change : Bool) (u : Console)
        → ((change ≡ true) ⊎ (u.cursor_row < 25 → OnScreen u.buffer u.frame_row_pointer u.screen))
        → u.cursor_row < 25
        → (change ≡ true) ⊎ OnScreen u.buffer u.frame_row_pointer u.screen
    from change u (inl e) lt = inl e
    from change u (inr f) lt = inr (f lt)

pub place_cursor-ShowsPage : (s : Console) (t : Page) → ShowsPage s t → ShowsPage (place_cursor s) t
unfolding framebuffer_set_cursor enable_cursor disable_cursor
place_cursor-ShowsPage s t h = rw h.visible (record {
  text = h.text;
  last = h.last;
  room = h.room;
  row_lt = h.row_lt;
  column = h.column;
  column_lt = h.column_lt;
  visible = refl;
  screen = h.screen;
})

-- The cursor's line and the one below, as indices.
pub line_lem : (s : Console) (t : Page) → ShowsPage s t → cursor_line s ≡ length t.above
line_lem s t h = omega (arith, h.last, h.room, h.text.count)

-- A line break at the end of the page, by what its parts give.
break_line-eq :
    (s v : Console) (n : ℕ)
    → add_int (next s.cursor_row) s.frame_row_pointer ≡ n
    → ltb n 4096 ≡ true
    → slt n s.size ≡ false
    → new_frame_buffer_view true (record s {
      cursor_row = next s.cursor_row;
      buffer = update s.buffer n (record (s.buffer n) { size = 0 });
      size = next s.size;
    })
      ≡ ok v
    → break_line s ≡ ok (record v { cursor_col = 0 })
unfolding break_line
break_line-eq s v n line inside new view = rw line (rw inside (rw line (rw new (rw view refl))))

pub break_line-ShowsPage :
    (s : Console) (t : Page)
    → ShowsPage s t
    → s.size < 4096
    → (z : Console) × (break_line s ≡ ok z) × ShowsPage z (new_line t)
unfolding break_line
break_line-ShowsPage s t h lt =
    let n = s.size in
    let line : add_int (next s.cursor_row) s.frame_row_pointer ≡ n =
      omega (arith, h.last, h.room) in
    let inside : ltb n 4096 ≡ true = lt→ltb n 4096 lt in
    let new : slt n n ≡ false = slt_of_le n n (omega arith) (omega arith) in
    let u : Console = record s {
      cursor_row = next s.cursor_row;
      buffer = update s.buffer n (record (s.buffer n) { size = 0 });
      size = next n;
    } in
    let cleared = clear-IsText n s.buffer t h.text in
    let grown : next n ≡ n + 1 = omega arith in
    let x : IsText (next n) u.buffer (new_line t) =
      subst (λ k. IsText k u.buffer (new_line t)) (sym grown)
        (new_line-IsText n u.buffer t cleared) in
    let v =
      view-Viewed true u (new_line t) x
        (record {
          last = omega (arith, h.last, h.row_lt, h.room);
          room = omega arith;
          row_le = omega (arith, h.row_lt);
        })
        (inl refl) in
    (
      record v.0 { cursor_col = 0 },
      break_line-eq s v.0 n line inside new v.1,
      record {
        text = v.2.text;
        last = v.2.last;
        room = v.2.room;
        row_lt = v.2.row_lt;
        column = refl;
        column_lt = omega arith;
        visible = v.2.viewable ∙ h.visible;
        screen = v.2.screen;
      },
    )
