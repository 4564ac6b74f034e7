-- ===== src/Framebuffer/Tests.antt =====
-- The console at concrete texts.
use os_2024_doors.Base.{
  ℕ, zero, suc, ◌≤◌, ◌≡◌, refl, ap, false, List, [], ◌∷◌, replicate, length, Run, ok, ◌>>=◌, ◌==◌,
  if◌then◌else◌, Bool-cases, inl, inr, arith,
}
use os_2024_doors.Framebuffer.{
  Console, arrow_up, move_screen, clear_screen, cleared, framebuffer_clear, framebuffer_set_cursor,
  enable_cursor, new_frame_buffer_view, redraw, adjust, draw_rows, draw_line,
}
use os_2024_doors.Framebuffer.Text.{
  puts, handle_new_char, new_char, put_char, break_line, store_char, put_cell, advance, backspace,
  erase_char, erase_break, framebuffer_erase, move_up, move_left, move_right,
}
use os_2024_doors.Framebuffer.Page.{Page, IsText, HoldsAll, ShowsPage, empty_page}
use os_2024_doors.Framebuffer.Scrolling.{Scrolled, move_screen-Scrolled}
use os_2024_doors.Framebuffer.Erasing.{backspace-typed}
use os_2024_doors.Framebuffer.Printing.{puts-ShowsPage, clear_screen-puts, clear_screen-ShowsPage}

-- A console before it is cleared.
abbrev console : Console
console = record {
  size = 5;
  buffer = λ i. record { size = 3; line_buf = replicate 79 7; color_buf = replicate 79 7 };
  cursor_row = 4;
  cursor_col = 2;
  frame_row_pointer = 0;
  is_cursor_viewable = false;
  screen = λ p. 0;
  cursor_enabled = false;
  cursor_position = 0;
}

-- Two lines.
abbrev two_lines : List ℕ
two_lines = 72 ∷ 105 ∷ 10 ∷ 33 ∷ []

clear_screen-puts_example :
    (z : Console) × (puts (clear_screen console) two_lines 4 0x0F ≡ ok z)
    × ShowsPage z (record { above = (72 ∷ 105 ∷ []) ∷ []; line = 33 ∷ [] })
clear_screen-puts_example =
    clear_screen-puts console two_lines 0x0F
      (inr (omega arith), (inr (omega arith), (inl refl, (inr (omega arith), tt)))) (omega arith)

puts-ShowsPage_example :
    (z : Console) × (puts (clear_screen console) two_lines 9 0x0F ≡ ok z)
    × ShowsPage z (record { above = (72 ∷ 105 ∷ []) ∷ []; line = 33 ∷ [] })
puts-ShowsPage_example =
    puts-ShowsPage (clear_screen console) empty_page two_lines 9 0x0F
      (clear_screen-ShowsPage console)
      (inr (omega arith), (inr (omega arith), (inl refl, (inr (omega arith), tt)))) (omega arith)
      (omega arith)

backspace-typed_example :
    (z : Console) × ((handle_new_char (clear_screen console) 72 15 0 >>= λ u.
    handle_new_char u 8 15 0)
      ≡ ok z)
    × ShowsPage z empty_page
backspace-typed_example =
    backspace-typed (clear_screen console) empty_page 72 15 0 (clear_screen-ShowsPage console)
      (omega arith) (omega arith)

-- A page of 29 empty lines and one with a character, of which the last 25 are in view.
abbrev tall_console : Console
tall_console = record console {
  size = 30;
  buffer = λ i.
      if i == 29
      then record { size = 1; line_buf = 33 ∷ replicate 78 0; color_buf = replicate 79 15 }
      else record { size = 0; line_buf = replicate 79 0; color_buf = replicate 79 0 };
  cursor_row = 24;
  cursor_col = 1;
  frame_row_pointer = 5;
}

abbrev no_text : List ℕ
no_text = []

abbrev tall_page : Page
tall_page = record { above = replicate 29 no_text; line = 33 ∷ [] }

tall_page-IsText : IsText 30 tall_console.buffer tall_page
tall_page-IsText = record {
  count = refl;
  line = record { size = refl; text = refl };
  above = empty_lines 29 (omega arith);
  below = λ i le. let e : (i == 29) ≡ false = ground arith in rw e refl;
  narrow =
      λ i. elim (Bool-cases (i == 29)) [ inl e ↦ rw e (omega arith) | inr e ↦ rw e (omega arith) ];
  shape = λ i. elim (Bool-cases (i == 29)) [ inl e ↦ rw e refl | inr e ↦ rw e refl ];
}
  where
    length-same : (n : ℕ) (xs : List ℕ) → length (replicate n xs) ≡ n
    length-same zero xs = refl
    length-same (suc n) xs = ap suc (length-same n xs)

    empty_lines : (n : ℕ) → n ≤ 29 → HoldsAll tall_console.buffer (replicate n [])
    empty_lines zero le = tt
    empty_lines (suc n) le =
        let len = length-same n [] in
        let e : (length (replicate n no_text) == 29) ≡ false = ground (arith, len) in
        (rw e (record { size = refl; text = refl }), empty_lines n (omega arith))

move_screen-Scrolled_example :
    (z : Console) × (move_screen tall_console arrow_up ≡ ok z) × Scrolled tall_console z 4
move_screen-Scrolled_example =
    move_screen-Scrolled tall_console tall_page arrow_up tall_page-IsText (omega arith)
      (omega arith) (omega arith) (inl refl)

-- The cursor's row and column and the number of lines after keys.
abbrev place : Run Console → List ℕ
place (ok s) = s.cursor_row ∷ s.cursor_col ∷ s.size ∷ []
place r = []

backspace_test : place (puts (clear_screen console) (72 ∷ 10 ∷ 8 ∷ 8 ∷ []) 4 0x0F) ≡ 0 ∷ 0 ∷ 1 ∷ []
unfolding puts handle_new_char new_char put_char break_line store_char put_cell advance backspace
    erase_char erase_break framebuffer_erase clear_screen cleared framebuffer_set_cursor
    enable_cursor new_frame_buffer_view redraw adjust draw_rows draw_line framebuffer_clear
backspace_test = refl

arrows_test :
    place (puts (clear_screen console) (72 ∷ 10 ∷ 0x12 ∷ 0x14 ∷ 0x11 ∷ []) 9 0x0F) ≡ 0 ∷ 0 ∷ 2 ∷ []
unfolding puts handle_new_char new_char put_char break_line store_char put_cell advance move_up
    move_left move_right clear_screen cleared framebuffer_set_cursor enable_cursor
    new_frame_buffer_view redraw adjust draw_rows draw_line framebuffer_clear
arrows_test = refl
