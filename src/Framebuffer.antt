-- ===== src/Framebuffer.antt =====
-- framebuffer.c: the text console. The screen is the memory from FRAMEBUFFER_MEMORY_OFFSET on, the
-- two ports of the cursor are its register of the position and its switch. The `int` variables are
-- 32-bit words, compared as signed numbers. A line or a column outside the arrays is a fault:
-- the numbers from 4096 on name no line of `buffer`.
pub mod Text
pub mod Drawing
pub mod View
pub mod Page
pub mod Cells
pub mod Breaks
pub mod Typing
pub mod Printing
pub mod Erasing
pub mod Scrolling
mod Tests
use os_2024_doors.Base.{
  ℕ, zero, suc, ◌+◌, ◌-◌, ◌*◌, ◌/◌, ◌%◌, ◌^◌, Bool, true, false, not, ◌&&◌, ◌||◌, List, [], ◌∷◌,
  ◌==◌, ltb, leb, if◌then◌else◌, get_or, set, replicate, bit_or, Run, ok, fault, ◌>>=◌,
}

abbrev pub buffer_height_view : ℕ
buffer_height_view = 25

abbrev pub buffer_width_view : ℕ
buffer_width_view = 79

abbrev pub buffer_max_height : ℕ
buffer_max_height = 4096

abbrev pub arrow_up : ℕ
arrow_up = 0x11

abbrev pub arrow_left : ℕ
arrow_left = 0x12

abbrev pub arrow_down : ℕ
arrow_down = 0x13

abbrev pub arrow_right : ℕ
arrow_right = 0x14

-- struct LineBuffer
pub record Line : Type 0 where
  pub size : ℕ
  pub line_buf : List ℕ
  pub color_buf : List ℕ

abbrev pub Screen : Type 0
Screen = ℕ → ℕ

-- `frame_buffer`, the cursor's variables, and the hardware.
pub record Console : Type 0 where
  pub size : ℕ
  pub buffer : ℕ → Line
  pub cursor_row : ℕ
  pub cursor_col : ℕ
  pub frame_row_pointer : ℕ
  pub is_cursor_viewable : Bool
  pub screen : Screen
  pub cursor_enabled : Bool
  pub cursor_position : ℕ

-- `a < b` of the type int.
abbrev pub slt : ℕ → ℕ → Bool
slt a b = ltb ((a + 2 ^ 31) % 2 ^ 32) ((b + 2 ^ 31) % 2 ^ 32)

-- x + y, x + 1 and x - 1 of the type int.
abbrev pub add_int : ℕ → ℕ → ℕ
add_int x y = (x + y) % 2 ^ 32

abbrev pub next : ℕ → ℕ
next x = (x + 1) % 2 ^ 32

abbrev pub prev : ℕ → ℕ
prev x = (x + 2 ^ 32 - 1) % 2 ^ 32

-- The index of the cursor's line.
abbrev pub cursor_line : Console → ℕ
cursor_line s = add_int s.cursor_row s.frame_row_pointer

abbrev pub line_at : Console → ℕ → Run Line
line_at s i = if ltb i buffer_max_height then ok (s.buffer i) else fault

abbrev pub put_line : Console → ℕ → Line → Run Console
put_line s i l =
    if ltb i buffer_max_height
    then ok (record s { buffer = λ k. if i == k then l else s.buffer k })
    else fault

abbrev pub poke : Screen → ℕ → ℕ → Screen
poke m p v q = if p == q then v else m q

unfoldable pub init_frame_buffer : Console → Console
init_frame_buffer s = record s {
  size = 1;
  is_cursor_viewable = true;
  buffer = λ i. record (s.buffer i) { size = 0 };
}

unfoldable pub enable_cursor : Console → Console
enable_cursor s = record s { cursor_enabled = true }

unfoldable pub disable_cursor : Console → Console
disable_cursor s = record s { cursor_enabled = false }

-- The parameters are of type uint8_t.
unfoldable pub framebuffer_set_cursor : Console → ℕ → ℕ → Console
unfolding enable_cursor disable_cursor
framebuffer_set_cursor s r c =
    if not s.is_cursor_viewable
    then disable_cursor s
    else record (enable_cursor s) { cursor_position = (80 * (r % 256) + c % 256) % 2 ^ 16 }

abbrev pub place_cursor : Console → Console
place_cursor s = framebuffer_set_cursor s s.cursor_row s.cursor_col

-- The loop over the 8000 bytes, by pairs of a blank and its colour.
unfoldable pub framebuffer_clear : Screen → Screen
framebuffer_clear m p = if ltb p 8000 then (if p % 2 == 0 then 0x00 else 0x07) else m p

-- A line with its arrays of 79 columns cleared.
unfoldable pub cleared : Line → Line
cleared l = record { size = 0; line_buf = replicate 79 0; color_buf = replicate 79 0 }

unfoldable pub clear_screen : Console → Console
unfolding framebuffer_clear framebuffer_set_cursor cleared
clear_screen s =
    let home =
      framebuffer_set_cursor
        (record s {
          screen = framebuffer_clear s.screen;
          frame_row_pointer = 0;
          cursor_col = 0;
          cursor_row = 0;
          is_cursor_viewable = true;
        })
        0 0 in
    record home { buffer = λ i. cleared (s.buffer i); size = 1 }

unfoldable pub set_cursor_col : Console → ℕ → Console
unfolding framebuffer_set_cursor
set_cursor_col s col = place_cursor (record s { cursor_col = col })

-- The loop over the columns of one line from `j` on, by the rounds left: column 79 is read past the
-- end of `line_buf`, and the columns above it are skipped.
unfoldable pub draw_line : ℕ → ℕ → ℕ → Line → Screen → Run Screen
draw_line zero j i l m = ok m
draw_line (suc n) j i l m =
    let rest = draw_line n (j + 1) i l (
      poke (poke m (i * 160 + j * 2) (get_or l.line_buf j 0)) (i * 160 + j * 2 + 1)
        (get_or l.color_buf j 0)) in
    if ltb 79 j then ok m else if ltb j 79 then rest else fault

-- The loop over the rows from `i` on, by the rounds left.
unfoldable pub draw_rows : ℕ → ℕ → Console → Screen → Run Screen
unfolding draw_line
draw_rows zero i s m = ok m
draw_rows (suc n) i s m = line_at s (add_int i s.frame_row_pointer) >>= λ l.
    draw_line l.size 0 i l m >>= λ m'. draw_rows n (i + 1) s m'

-- How many rows are drawn: the difference is cut to a byte.
abbrev pub view_rows : Console → ℕ
view_rows s =
    let row = (s.size + 2 ^ 32 - s.frame_row_pointer) % 256 in if ltb 25 row then 25 else row

-- Clear the screen and draw the lines in view.
unfoldable pub redraw : Console → Run Console
unfolding framebuffer_clear draw_rows
redraw s =
    draw_rows (view_rows s) 0 s (framebuffer_clear s.screen) >>= λ m. ok (record s { screen = m })

-- The two cases of the switch.
unfoldable pub scroll : Console → ℕ → Console
scroll s c =
    if c == arrow_up
    then (if slt 0 s.frame_row_pointer
        then record s { frame_row_pointer = prev s.frame_row_pointer }
        else s)
    else if c == arrow_down
    then (if slt (add_int s.frame_row_pointer buffer_height_view) s.size
        then record s { frame_row_pointer = next s.frame_row_pointer }
        else s)
    else s

unfoldable pub move_screen : Console → ℕ → Run Console
unfolding scroll redraw framebuffer_set_cursor
move_screen s c =
    let t = scroll s c in
    if c == arrow_up || c == arrow_down
    then (redraw (record t {
      is_cursor_viewable =
          slt t.frame_row_pointer t.size
          && not (slt (add_int t.frame_row_pointer buffer_height_view) t.size);
    })
        >>= λ u. ok (place_cursor u))
    else ok (place_cursor t)

-- The cursor is brought back to the rows in view.
unfoldable pub adjust : Console → Console
adjust s =
    if slt s.cursor_row 0
    then record s { frame_row_pointer = prev s.frame_row_pointer; cursor_row = 0 }
    else if not (slt s.cursor_row buffer_height_view)
    then record s { frame_row_pointer = next s.frame_row_pointer; cursor_row = 24 }
    else s

unfoldable pub new_frame_buffer_view : Bool → Console → Run Console
unfolding adjust redraw
new_frame_buffer_view change s =
    if (slt s.cursor_row 0 || not (slt s.cursor_row buffer_height_view)) || change
    then redraw (adjust s)
    else ok s

-- The colour byte, cut to 8 bits.
abbrev pub attribute : ℕ → ℕ → ℕ
attribute fg bg = bit_or (bg * 16) fg % 256

-- The parameters are of type uint8_t.
unfoldable pub framebuffer_write : Console → ℕ → ℕ → ℕ → ℕ → ℕ → Console
framebuffer_write s row col c fg bg =
    let p = row % 256 * 160 + col % 256 * 2 in
    record s { screen = poke (poke s.screen p c) (p + 1) (attribute fg bg) }
