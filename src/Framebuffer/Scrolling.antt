-- ===== src/Framebuffer/Scrolling.antt =====
-- framebuffer.c: the view moved by `move_screen`.
use os_2024_doors.Base.{
  ℕ, ◌+◌, ◌-◌, ◌≤◌, ◌<◌, ◌≡◌, ◌⊎◌, refl, sym, ap, ◌∙◌, inl, inr, true, false, not, ◌&&◌, arith, ltb,
  leb, if◌then◌else◌, ok, ◌==◌, dec_lt, Bool-cases,
}
use os_2024_doors.Framebuffer.{
  Console, slt, next, prev, add_int, scroll, redraw, move_screen, place_cursor, arrow_up,
  arrow_down, framebuffer_set_cursor, enable_cursor, disable_cursor,
}
use os_2024_doors.Framebuffer.Drawing.{OnScreen}
use os_2024_doors.Framebuffer.View.{redraw-OnScreen, slt_of_lt, slt_of_le}
use os_2024_doors.Framebuffer.Page.{Page, IsText}

-- Where the view starts after an arrow: a line up as far as there is one, or a line down as far as
-- there are lines below the view.
abbrev pub scrolled : ℕ → ℕ → ℕ → ℕ
scrolled c frp n = if c == arrow_up then frp - 1 else if ltb (frp + 25) n then frp + 1 else frp

-- What moving the view leaves: the lines as they were, those from the view's start on drawn, and the
-- cursor shown just where the last line is in view.
pub record Scrolled (s z : Console) (frp : ℕ) : Type 0 where
  pub buffer : z.buffer ≡ s.buffer
  pub size : z.size ≡ s.size
  pub cursor : (z.cursor_row ≡ s.cursor_row) × (z.cursor_col ≡ s.cursor_col)
  pub start : z.frame_row_pointer ≡ frp
  pub screen : OnScreen s.buffer frp z.screen
  pub viewable : z.is_cursor_viewable ≡ leb s.size (frp + 25)
  pub enabled : z.cursor_enabled ≡ leb s.size (frp + 25)

scroll-scrolled :
    (s : Console) (c : ℕ)
    → (c ≡ arrow_up) ⊎ (c ≡ arrow_down)
    → s.frame_row_pointer < s.size
    → s.size ≤ 4096
    → scroll s c ≡ record s { frame_row_pointer = scrolled c s.frame_row_pointer s.size }
unfolding scroll
scroll-scrolled s c (inl e) lt room = rw e (elim (dec_lt 0 s.frame_row_pointer) [
  | yes above ↦
      let a : slt 0 s.frame_row_pointer ≡ true =
        slt_of_lt 0 s.frame_row_pointer above (omega (arith, lt, room)) in
      let b : prev s.frame_row_pointer ≡ s.frame_row_pointer - 1 = omega (arith, above, lt, room) in
      rw a (ap (λ k. record s { frame_row_pointer = k }) b)
  | no top ↦
      let a : slt 0 s.frame_row_pointer ≡ false =
        slt_of_le 0 s.frame_row_pointer (omega (arith, top)) (omega arith) in
      let b : s.frame_row_pointer ≡ s.frame_row_pointer - 1 = omega (arith, top) in
      rw a (ap (λ k. record s { frame_row_pointer = k }) b)
])
scroll-scrolled s c (inr e) lt room = rw e (
    let sum : add_int s.frame_row_pointer 25 ≡ s.frame_row_pointer + 25 = omega (arith, lt, room) in
    rw sum (elim (dec_lt (s.frame_row_pointer + 25) s.size) [
      | yes more ↦
          let a : slt (s.frame_row_pointer + 25) s.size ≡ true =
            slt_of_lt (s.frame_row_pointer + 25) s.size more (omega (arith, room)) in
          let b : ltb (s.frame_row_pointer + 25) s.size ≡ true = ground arith in
          let k : next s.frame_row_pointer ≡ s.frame_row_pointer + 1 = omega (arith, lt, room) in
          rw (a, b) (ap (λ k. record s { frame_row_pointer = k }) k)
      | no less ↦
          let a : slt (s.frame_row_pointer + 25) s.size ≡ false =
            slt_of_le (s.frame_row_pointer + 25) s.size (omega (arith, less))
              (omega (arith, lt, room)) in
          let b : ltb (s.frame_row_pointer + 25) s.size ≡ false = ground arith in rw (a, b) refl
    ]))

scrolled-bounds : (c frp n : ℕ) → frp < n → (scrolled c frp n < n) × (frp ≤ scrolled c frp n + 1)
scrolled-bounds c frp n lt = elim (Bool-cases (c == arrow_up)) [
  | inl e ↦ rw e (omega arith, omega arith)
  | inr e ↦ rw e (elim (Bool-cases (ltb (frp + 25) n)) [
    | inl m ↦ rw m (ground arith, omega arith)
    | inr m ↦ rw m (lt, omega arith)
  ])
]

-- The arrow keys' case, by what its parts give.
move_screen-eq :
    (s t : Console) (c : ℕ) (u : Console)
    → (c ≡ arrow_up) ⊎ (c ≡ arrow_down)
    → scroll s c ≡ t
    → redraw (record t {
      is_cursor_viewable =
          slt t.frame_row_pointer t.size && not (slt (add_int t.frame_row_pointer 25) t.size);
    })
      ≡ ok u
    → move_screen s c ≡ ok (place_cursor u)
unfolding move_screen
move_screen-eq s t c u (inl e) moved drawn =
    let a : (c == arrow_up) ≡ true = rw e refl in rw moved (rw a (rw drawn refl))
move_screen-eq s t c u (inr e) moved drawn =
    let a : (c == arrow_up) ≡ false = rw e refl in
    let b : (c == arrow_down) ≡ true = rw e refl in rw moved (rw (a, b) (rw drawn refl))

in_view :
    (frp n : ℕ)
    → frp < n
    → n ≤ 4096
    → (slt frp n && not (slt (add_int frp 25) n)) ≡ leb n (frp + 25)
in_view frp n lt room =
    let sum : add_int frp 25 ≡ frp + 25 = omega (arith, lt, room) in
    let start : slt frp n ≡ true = slt_of_lt frp n lt (omega (arith, room)) in
    elim (dec_lt (frp + 25) n) [
      | yes more ↦
          let a : slt (frp + 25) n ≡ true = slt_of_lt (frp + 25) n more (omega (arith, room)) in
          let b : leb n (frp + 25) ≡ false = ground arith in rw (sum, start) (rw (a, b) refl)
      | no less ↦
          let a : slt (frp + 25) n ≡ false =
            slt_of_le (frp + 25) n (omega (arith, less)) (omega (arith, lt, room)) in
          let b : leb n (frp + 25) ≡ true = ground (arith, less) in rw (sum, start) (rw (a, b) refl)
    ]

place_cursor-Scrolled :
    (s u : Console) (frp : ℕ)
    → u.buffer ≡ s.buffer
    → u.size ≡ s.size
    → (u.cursor_row ≡ s.cursor_row) × (u.cursor_col ≡ s.cursor_col)
    → u.frame_row_pointer ≡ frp
    → OnScreen s.buffer frp u.screen
    → u.is_cursor_viewable ≡ leb s.size (frp + 25)
    → Scrolled s (place_cursor u) frp
unfolding framebuffer_set_cursor enable_cursor disable_cursor
place_cursor-Scrolled s u frp b n c f d v = elim (Bool-cases u.is_cursor_viewable) [
  | inl e ↦ rw e (record {
    buffer = b;
    size = n;
    cursor = c;
    start = f;
    screen = d;
    viewable = sym e ∙ v;
    enabled = sym e ∙ v;
  })
  | inr e ↦ rw e (record {
    buffer = b;
    size = n;
    cursor = c;
    start = f;
    screen = d;
    viewable = sym e ∙ v;
    enabled = sym e ∙ v;
  })
]

-- On a console whose buffer holds a page that the view starts in, less than 255 lines from its end, an
-- arrow up or down returns: the view starts one line higher as far as there is a line above it, or one
-- line lower as far as there are lines below it; the cells of the screen have the characters of the
-- lines from there on, and no others; the lines, `cursor_row` and `cursor_col` stay; and the cursor is
-- viewable and switched on just where the page's last line is in view.
pub move_screen-Scrolled :
    (s : Console) (t : Page) (c : ℕ)
    → IsText s.size s.buffer t
    → s.size ≤ 4096
    → s.frame_row_pointer < s.size
    → s.size < s.frame_row_pointer + 255
    → (c ≡ arrow_up) ⊎ (c ≡ arrow_down)
    → (z : Console) × (move_screen s c ≡ ok z)
      × Scrolled s z (scrolled c s.frame_row_pointer s.size)
move_screen-Scrolled s t c x room lt near arrow =
    let frp = scrolled c s.frame_row_pointer s.size in
    let bounds = scrolled-bounds c s.frame_row_pointer s.size lt in
    let moved = scroll-scrolled s c arrow lt room in
    let down : Console = record s {
      frame_row_pointer = frp;
      is_cursor_viewable = slt frp s.size && not (slt (add_int frp 25) s.size);
    } in
    let r =
      redraw-OnScreen down x.narrow x.below (omega (arith, bounds.0))
        (omega (arith, bounds.1, near)) room in
    (
      place_cursor (record down { screen = r.0 }),
      move_screen-eq s (record s { frame_row_pointer = frp }) c (record down { screen = r.0 }) arrow
          moved r.1,
      place_cursor-Scrolled s (record down { screen = r.0 }) frp refl refl (refl, refl) refl r.2
          (in_view frp s.size bounds.0 room),
    )
