-- ===== src/Framebuffer/Printing.antt =====
-- A string printed at the end of the page, framebuffer.c: `puts` follows `type_text`.
use os_2024_doors.Base.{
  ℕ, zero, suc, ◌≤◌, ◌≡◌, ◌⊎◌, refl, sym, ap, ◌∙◌, inl, inr, Bool, true, false, ◌||◌, arith,
  if◌then◌else◌, Bool-cases, List, [], ◌∷◌, length, All, Run, ok, ◌>>=◌, ◌==◌, dec_lt,
}
use mathlib.Core.Path.{subst}
use os_2024_doors.Framebuffer.{
  clear_screen, cleared, enable_cursor, Console, slt, next, cursor_line, place_cursor,
  framebuffer_set_cursor, attribute,
}
use os_2024_doors.Framebuffer.Drawing.{char_or-empty, framebuffer_clear-blank}
use os_2024_doors.Framebuffer.Text.{
  break_line, store_char, put_char, new_char, handle_new_char, puts, fore, back,
}
use os_2024_doors.Framebuffer.View.{slt_of_lt}
use os_2024_doors.Framebuffer.Page.{
  Page, empty_page, ShowsPage, new_line, type_char, type_text, height,
}
use os_2024_doors.Framebuffer.Breaks.{line_lem, place_cursor-ShowsPage, break_line-ShowsPage}
use os_2024_doors.Framebuffer.Typing.{type_char-full, store_char-ShowsPage}

-- A line break, or a character that is no control character.
abbrev pub IsPrinted : ℕ → Type 0
IsPrinted c = (c ≡ 10) ⊎ (32 ≤ c)

-- The two ways a character reaches the page, by the tests that decide.
put_char_break :
    (s z : Console) (fg bg : ℕ)
    → slt (cursor_line s) 4096 ≡ true
    → slt (cursor_line s) 4095 ≡ true
    → break_line s ≡ ok z
    → put_char s 10 fg bg ≡ ok (place_cursor z)
unfolding put_char
put_char_break s z fg bg a b e = rw a (rw b (rw e refl))

put_char_store :
    (s z : Console) (c fg bg : ℕ)
    → slt (cursor_line s) 4096 ≡ true
    → 32 ≤ c
    → (slt (next s.cursor_col) 79 || slt (cursor_line s) 4095) ≡ true
    → store_char s c (attribute fg bg) ≡ ok z
    → put_char s c fg bg ≡ ok (place_cursor z)
unfolding put_char
put_char_store s z c fg bg a h b e =
    let no_break : (c == 10) ≡ false = ground arith in
    let no_return : (c == 13) ≡ false = ground arith in
    rw no_break (rw no_return (rw a (rw b (rw e refl))))

new_char_printed : (s : Console) (c fg bg : ℕ) → 32 ≤ c → new_char s c fg bg ≡ put_char s c fg bg
unfolding new_char
new_char_printed s c fg bg h =
    let a : (c == 10) ≡ false = ground arith in
    let u : (c == 0x11) ≡ false = ground arith in
    let d : (c == 0x13) ≡ false = ground arith in
    let l : (c == 0x12) ≡ false = ground arith in
    let r : (c == 0x14) ≡ false = ground arith in
    let b : (c == 8) ≡ false = ground arith in rw (a, u, d, l, r, b) refl

new_char_break : (s : Console) (fg bg : ℕ) → new_char s 10 fg bg ≡ put_char s 10 fg bg
unfolding new_char
new_char_break s fg bg = refl

pub handle_new_char-eq :
    (s z : Console) (c fg bg : ℕ)
    → (c == 0) ≡ false
    → slt (cursor_line s) 4096 ≡ true
    → new_char s c fg bg ≡ ok z
    → handle_new_char s c fg bg ≡ ok (place_cursor z)
unfolding handle_new_char
handle_new_char-eq s z c fg bg a b e =
    let run : Bool → Run Console =
      λ i. (if i then new_char s c fg bg else ok s) >>= λ t. ok (place_cursor t) in
    ap (λ i. if i then ok s else run (slt (cursor_line s) 4096)) a
    ∙ ap run b
    ∙ ap (λ r. r >>= λ t. ok (place_cursor t)) e

or_true : (b : Bool) → (b || true) ≡ true
or_true true = refl
or_true false = refl

abbrev Prints : Console → Page → ℕ → ℕ → ℕ → Type 0
Prints s t c fg bg = (z : Console) × (handle_new_char s c fg bg ≡ ok z) × ShowsPage z t

pub in_buffer : (s : Console) (t : Page) → ShowsPage s t → slt (cursor_line s) 4096 ≡ true
in_buffer s t h =
    let line = line_lem s t h in
    slt_of_lt (cursor_line s) 4096 (omega (arith, line, h.room, h.text.count)) (omega arith)

-- A character of the text.
pub handle_new_char-ShowsPage :
    (s : Console) (t : Page) (c fg bg : ℕ)
    → ShowsPage s t
    → IsPrinted c
    → height (type_char t c) ≤ 4096
    → Prints s (type_char t c) c fg bg
handle_new_char-ShowsPage s t c fg bg h (inl e) room =
    let tall : height (new_line t) ≤ 4096 = subst (λ x. height (type_char t x) ≤ 4096) e room in
    let line = line_lem s t h in
    let inside = in_buffer s t h in
    let b : slt (cursor_line s) 4095 ≡ true =
      slt_of_lt (cursor_line s) 4095 (omega (arith, line, tall)) (omega arith) in
    let v = break_line-ShowsPage s t h (omega (arith, h.text.count, tall)) in
    let put = put_char_break s v.0 fg bg inside b v.1 in
    let step =
      handle_new_char-eq s (place_cursor v.0) 10 fg bg refl inside (new_char_break s fg bg ∙ put) in
    subst (λ x. Prints s (type_char t x) x fg bg) (sym e)
      (
        place_cursor (place_cursor v.0),
        step,
        place_cursor-ShowsPage (place_cursor v.0) (new_line t)
            (place_cursor-ShowsPage v.0 (new_line t) v.2),
      )
handle_new_char-ShowsPage s t c fg bg h (inr p) room =
    let inside = in_buffer s t h in
    let v = store_char-ShowsPage s t c (attribute fg bg) h (λ e. absurd (omega arith)) room in
    let put = put_char_store s v.0 c fg bg inside p (room_for s t c h p room) v.1 in
    let some_char : (c == 0) ≡ false = ground arith in
    let step =
      handle_new_char-eq s (place_cursor v.0) c fg bg some_char inside
        (new_char_printed s c fg bg p ∙ put) in
    (
      place_cursor (place_cursor v.0),
      step,
      place_cursor-ShowsPage (place_cursor v.0) (type_char t c)
          (place_cursor-ShowsPage v.0 (type_char t c) v.2),
    )
  where
    room_for :
        (s : Console) (t : Page) (c : ℕ)
        → ShowsPage s t
        → 32 ≤ c
        → height (type_char t c) ≤ 4096
        → (slt (next s.cursor_col) 79 || slt (cursor_line s) 4095) ≡ true
    room_for s t c h p room = elim (dec_lt (length t.line) 78) [
      | yes lt ↦
          let e : slt (next s.cursor_col) 79 ≡ true =
            slt_of_lt (next s.cursor_col) 79 (omega (arith, h.column, lt)) (omega arith) in
          rw e refl
      | no ge ↦
          let full : length t.line ≡ 78 = omega (arith, h.column, h.column_lt, ge) in
          let tall =
            subst (λ q. height q ≤ 4096) (type_char-full t c (λ e. absurd (omega arith)) full)
              room in
          let line = line_lem s t h in
          let e : slt (cursor_line s) 4095 ≡ true =
            slt_of_lt (cursor_line s) 4095 (omega (arith, line, tall)) (omega arith) in
          rw e (or_true (slt (next s.cursor_col) 79))
    ]

height-type_char : (t : Page) (c : ℕ) → height t ≤ height (type_char t c)
height-type_char t c = elim (Bool-cases (c == 10)) [
  | inl e ↦ rw e (omega arith)
  | inr e ↦ elim (Bool-cases (length t.line == 78)) [
    | inl full ↦ rw (e, full) (omega arith)
    | inr short ↦ rw (e, short) (omega arith)
  ]
]

pub height-type_text : (t : Page) (xs : List ℕ) → height t ≤ height (type_text t xs)
height-type_text t [] = omega arith
height-type_text t (c ∷ cs) =
    let rest = height-type_text (type_char t c) cs in
    let first = height-type_char t c in omega (arith, first, rest)

puts-eq :
    (s v z : Console) (c : ℕ) (cs : List ℕ) (n color : ℕ)
    → (c == 0) ≡ false
    → handle_new_char s c (fore color) (back color) ≡ ok v
    → puts v cs n color ≡ ok z
    → puts s (c ∷ cs) (suc n) color ≡ ok z
unfolding puts
puts-eq s v z c cs n color a e f =
    let run : Run Console → Run Console = λ r. r >>= λ t. puts t cs n color in
    ap (λ i. if i then ok s else run (handle_new_char s c (fore color) (back color))) a
    ∙ ap run e
    ∙ f

printed-some : (c : ℕ) → IsPrinted c → (c == 0) ≡ false
printed-some c (inl e) = rw e refl
printed-some c (inr p) = ground arith

-- On a console that shows a page, a text of line breaks and characters from 32 on is printed at the
-- end of the page whenever the page then has at most 4096 lines and `cnt` is not below the text's
-- length: `puts` returns, and what the buffer holds, the cursor's variables, the scrolled view and
-- the characters in the cells of the screen follow the page with each character behind its last
-- one, where a line is left once it has 79 characters.
pub puts-ShowsPage :
    (s : Console) (t : Page) (xs : List ℕ) (cnt color : ℕ)
    → ShowsPage s t
    → All IsPrinted xs
    → length xs ≤ cnt
    → height (type_text t xs) ≤ 4096
    → (z : Console) × (puts s xs cnt color ≡ ok z) × ShowsPage z (type_text t xs)
unfolding puts
puts-ShowsPage s t [] cnt color h p le room = (s, refl, h)
puts-ShowsPage s t (c ∷ cs) zero color h p le room = absurd (omega arith)
puts-ShowsPage s t (c ∷ cs) (suc n) color h p le room =
    let fits : height (type_char t c) ≤ 4096 =
      let rest = height-type_text (type_char t c) cs in omega (arith, rest, room) in
    let v = handle_new_char-ShowsPage s t c (fore color) (back color) h p.0 fits in
    let z = puts-ShowsPage v.0 (type_char t c) cs n color v.2 p.1 (omega arith) room in
    (z.0, puts-eq s v.0 z.0 c cs n color (printed-some c p.0) v.1 z.1, z.2)

-- The cleared console is the empty page.
pub clear_screen-ShowsPage : (s : Console) → ShowsPage (clear_screen s) empty_page
unfolding clear_screen cleared framebuffer_set_cursor enable_cursor
clear_screen-ShowsPage s = record {
  text = record {
    count = refl;
    line = record { size = refl; text = refl };
    above = tt;
    below = λ i le. refl;
    narrow = λ i. omega arith;
    shape = λ i. refl;
  };
  last = refl;
  room = omega arith;
  row_lt = omega arith;
  column = refl;
  column_lt = omega arith;
  visible = refl;
  screen = λ r c a b.
      framebuffer_clear-blank s.screen r c a b
      ∙ sym (char_or-empty (cleared (s.buffer r)) c 0 refl);
}

-- After `clear_screen`, whatever was shown before, a text of line breaks and characters from 32 on
-- that fills at most 4096 lines is printed to its end: the buffer holds that text alone, the
-- cursor's variables stand at its end, and the cells of the screen have the characters of its last
-- lines, those in view, and no others.
pub clear_screen-puts :
    (s : Console) (xs : List ℕ) (color : ℕ)
    → All IsPrinted xs
    → height (type_text empty_page xs) ≤ 4096
    → (z : Console) × (puts (clear_screen s) xs (length xs) color ≡ ok z)
      × ShowsPage z (type_text empty_page xs)
clear_screen-puts s xs color p room =
    puts-ShowsPage (clear_screen s) empty_page xs (length xs) color (clear_screen-ShowsPage s) p
      (omega arith) room
