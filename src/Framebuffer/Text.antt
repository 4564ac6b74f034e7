-- ===== src/Framebuffer/Text.antt =====
-- framebuffer.c: characters written at the cursor, and the keys that move it.
use os_2024_doors.Base.{
  ℕ, zero, suc, ◌+◌, ◌-◌, ◌*◌, ◌/◌, ◌%◌, ◌^◌, true, false, not, ◌&&◌, ◌||◌, List, [], ◌∷◌, ◌==◌,
  ltb, if◌then◌else◌, set, Run, ok, fault, ◌>>=◌,
}
use os_2024_doors.Framebuffer.{
  Console, Line, slt, add_int, next, prev, cursor_line, line_at, put_line, poke, attribute,
  place_cursor, framebuffer_set_cursor, new_frame_buffer_view, init_frame_buffer, buffer_width_view,
  buffer_max_height, arrow_up, arrow_down, arrow_left, arrow_right,
}

-- The body of `put_char` at a line break, once there is a line below.
unfoldable pub break_line : Console → Run Console
break_line s =
    let down = record s { cursor_row = next s.cursor_row } in
    line_at down (cursor_line down) >>= λ l.
    put_line down (cursor_line down) (record l { size = 0 }) >>= λ t.
    (if slt (cursor_line t) t.size
      then new_frame_buffer_view true t
      else ok (record t { size = next t.size }))
    >>= λ u. new_frame_buffer_view true u >>= λ v. ok (record v { cursor_col = 0 })

-- The character and its colour in the line's arrays of 79 columns, and the line's size.
unfoldable pub put_cell : Line → ℕ → ℕ → ℕ → Run Line
put_cell l col c attr =
    if ltb col buffer_width_view
    then ok (record l {
      size = if slt l.size (next col) then next col % 256 else l.size;
      line_buf = set l.line_buf col c;
      color_buf = set l.color_buf col attr;
    })
    else fault

-- The cursor after a character, on the next line after the last column.
unfoldable pub advance : Console → Console
advance s =
    let col = next s.cursor_col in
    if not (slt col buffer_width_view)
    then record s { size = next s.size; cursor_row = next s.cursor_row; cursor_col = 0 }
    else record s { cursor_col = col }

-- The body of `put_char` for a character that is stored.
unfoldable pub store_char : Console → ℕ → ℕ → Run Console
unfolding put_cell advance
store_char s c attr =
    let p = add_int (s.cursor_row * 160) (s.cursor_col * 2) in
    line_at s (cursor_line s) >>= λ l. put_cell l s.cursor_col c attr >>= λ l'.
    put_line (record s { screen = poke (poke s.screen p c) (next p) attr }) (cursor_line s) l'
    >>= λ t. new_frame_buffer_view false (advance t)

unfoldable pub put_char : Console → ℕ → ℕ → ℕ → Run Console
unfolding break_line store_char framebuffer_set_cursor
put_char s c fg bg =
    let body : Run Console =
      if c == 10
      then (if slt (cursor_line s) (buffer_max_height - 1) then break_line s else ok s)
      else if not (c == 13)
      then (if slt (next s.cursor_col) buffer_width_view
            || slt (cursor_line s) (buffer_max_height - 1)
          then store_char s c (attribute fg bg)
          else ok s)
      else ok s in
    if slt (cursor_line s) buffer_max_height then (body >>= λ t. ok (place_cursor t)) else ok s

-- `framebuffer_erase` with the cursor's variables as its arguments. A position before the screen
-- wraps around.
unfoldable pub framebuffer_erase : Console → Console
framebuffer_erase s =
    let p = (160 * s.cursor_row + (s.cursor_col % 80 + 2 ^ 32 - 1) * 2) % 2 ^ 32 in
    let t = record s { screen = poke (poke s.screen p 0x00) (next p) 0x07 } in
    if slt 0 s.cursor_col || slt 0 s.cursor_row
    then (if slt (prev s.cursor_col) 0
        then record t { cursor_row = prev s.cursor_row; cursor_col = 79 }
        else record t { cursor_col = prev s.cursor_col })
    else t

-- The column is kept where the line is long enough.
abbrev pub clamp_col : Console → Run Console
clamp_col s = line_at s (cursor_line s) >>= λ l.
    ok (record s { cursor_col = if slt s.cursor_col l.size then s.cursor_col else l.size })

unfoldable pub move_up : Console → Run Console
move_up s =
    if slt 0 (cursor_line s)
    then (clamp_col (record s { cursor_row = prev s.cursor_row }) >>= λ t.
        new_frame_buffer_view false t)
    else ok s

unfoldable pub move_down : Console → Run Console
move_down s =
    if slt (cursor_line s) (prev s.size)
    then (clamp_col (record s { cursor_row = next s.cursor_row }) >>= λ t.
        new_frame_buffer_view false t)
    else ok s

unfoldable pub move_left : Console → Run Console
move_left s =
    let t = record s { cursor_col = prev s.cursor_col } in
    if slt t.cursor_col 0
    then (if slt 0 (cursor_line t)
        then (let u = record t { cursor_row = prev t.cursor_row } in
            line_at u (cursor_line u) >>= λ l.
            new_frame_buffer_view false (record u { cursor_col = l.size }))
        else ok (record t { cursor_col = next t.cursor_col }))
    else ok t

unfoldable pub move_right : Console → Run Console
move_right s =
    let t = record s { cursor_col = next s.cursor_col } in
    line_at t (cursor_line t) >>= λ l.
    if slt l.size t.cursor_col
    then (if slt (cursor_line t) (prev t.size)
        then new_frame_buffer_view false
            (record t { cursor_col = 0; cursor_row = next t.cursor_row })
        else ok (record t { cursor_col = prev t.cursor_col }))
    else ok t

-- A backspace in column 0: the line above is joined.
unfoldable pub erase_break : Console → Run Console
unfolding framebuffer_erase
erase_break s = line_at s (cursor_line s) >>= λ l.
    let t =
      if l.size == 0 && cursor_line s == prev s.size then record s { size = prev s.size } else s in
    let above = prev (cursor_line t) in
    line_at t above >>= λ k.
    (if not (ltb k.size buffer_width_view)
      then (put_line t above (record k { size = (k.size + 255) % 256 }) >>= λ u.
          ok (framebuffer_erase u))
      else new_frame_buffer_view true (record t { cursor_row = prev t.cursor_row }))
    >>= λ u. line_at u (cursor_line u) >>= λ m. ok (record u { cursor_col = m.size })

unfoldable pub erase_char : Console → Run Console
unfolding framebuffer_erase
erase_char s =
    let t = framebuffer_erase s in
    line_at t (cursor_line t) >>= λ l.
    put_line t (cursor_line t) (record l { size = (l.size + 255) % 256 })

unfoldable pub backspace : Console → Run Console
unfolding erase_break erase_char
backspace s =
    if slt 0 s.cursor_col || slt 0 (cursor_line s)
    then (if s.cursor_col == 0 then erase_break s else erase_char s)
    else ok s

-- The part of `handle_new_char` by characters.
unfoldable pub new_char : Console → ℕ → ℕ → ℕ → Run Console
unfolding put_char move_up move_down move_left move_right backspace
new_char s c fg bg =
    if c == 10
    then put_char s c fg bg
    else if c == arrow_up
    then move_up s
    else if c == arrow_down
    then move_down s
    else if c == arrow_left
    then move_left s
    else if c == arrow_right
    then move_right s
    else if c == 8
    then backspace s
    else put_char s c fg bg

unfoldable pub handle_new_char : Console → ℕ → ℕ → ℕ → Run Console
unfolding new_char framebuffer_set_cursor
handle_new_char s c fg bg =
    if c == 0
    then ok s
    else ((if slt (cursor_line s) buffer_max_height then new_char s c fg bg else ok s) >>= λ t.
        ok (place_cursor t))

-- The foreground of a colour and its background.
abbrev pub fore : ℕ → ℕ
fore color = color % 16

abbrev pub back : ℕ → ℕ
back color = color / 16 % 16

unfoldable pub put_char_color : Console → ℕ → ℕ → Run Console
unfolding handle_new_char
put_char_color s c color = handle_new_char s c (fore color) (back color)

-- The list is the memory at `str`; the loop stops after `cnt` characters or at the byte 0.
unfoldable pub puts : Console → List ℕ → ℕ → ℕ → Run Console
unfolding handle_new_char
puts s [] cnt color = ok s
puts s (c ∷ cs) zero color = ok s
puts s (c ∷ cs) (suc cnt) color =
    let rest = handle_new_char s c (fore color) (back color) >>= λ t. puts t cs cnt color in
    if c == 0 then ok s else rest

-- The part of `init_keyboard_state` that concerns the console.
unfoldable pub init_console : Console → Console
unfolding init_frame_buffer
init_console s = record (init_frame_buffer s) {
  cursor_row = 0;
  cursor_col = 0;
  frame_row_pointer = 0;
}
