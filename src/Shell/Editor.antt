-- ===== src/Shell/Editor.antt =====
-- user/command.c: the line that is typed, with its echo on the console.
use os_2024_doors.Base.{
  ℕ, ◌+◌, ◌<◌, ◌≤◌, ◌≡◌, refl, sym, ap, ◌∙◌, inl, inr, arith, Bool, true, false, List, [], ◌∷◌,
  ◌++◌, length, length-append, length-set, All, set, get_or, take, get_or-set_cases, ltb, lt→ltb,
  ◌==◌, if◌then◌else◌, ok, ◌>>=◌,
}
use mathlib.Core.Path.{subst}
use os_2024_doors.Fat32.Types.{Memory}
use os_2024_doors.Framebuffer.{Console}
use os_2024_doors.Framebuffer.Text.{handle_new_char, put_char_color}
use os_2024_doors.Framebuffer.Page.{Page, ShowsPage, type_char, type_text, height, take-set}
use os_2024_doors.Framebuffer.Printing.{handle_new_char-ShowsPage, height-type_text}
use os_2024_doors.Interrupt.Syscall.{with_console}
use os_2024_doors.Shell.{ShellState, World, Command, skip, put_char, with_machine, ◌⨾◌}
use os_2024_doors.Shell.Line.{store_char, key_typed, edit}

-- The buffer of the command holds the line, and zeros behind it.
pub record IsLine (s : ShellState) (xs : List ℕ) : Type 0 where
  pub size : s.curr_command_size ≡ length xs
  pub capacity : length s.curr_command_buffer ≡ 256
  pub text : take (length xs) s.curr_command_buffer ≡ xs
  pub clear : (i : ℕ) → length xs ≤ i → get_or s.curr_command_buffer i 0 ≡ 0

store_char-IsLine :
    (s : ShellState) (xs : List ℕ) (c : ℕ)
    → IsLine s xs
    → length xs < 256
    → IsLine (store_char s c) (xs ++ c ∷ [])
unfolding store_char
store_char-IsLine s xs c h lt =
    let grown = length-append xs (c ∷ []) in
    let place = h.size in
    record {
      size = omega (arith, grown, h.size);
      capacity = length-set s.curr_command_buffer s.curr_command_size c ∙ h.capacity;
      text =
          subst (λ n. take (length (xs ++ c ∷ [])) (set s.curr_command_buffer n c) ≡ xs ++ c ∷ [])
            (sym h.size)
            (take-set xs s.curr_command_buffer c h.text (omega (arith, h.capacity, lt)));
      clear = λ i le.
          elim (get_or-set_cases s.curr_command_buffer s.curr_command_size i c 0
            (omega (arith, h.size, h.capacity, lt))) [
              | inl (same, at) ↦ absurd (omega (arith, same, le, grown, h.size))
              | inr (ne, at) ↦ at ∙ h.clear i (omega (arith, le, grown))
            ];
    }

append_nil : (xs : List ℕ) → xs ++ [] ≡ xs
append_nil [] = refl
append_nil (x ∷ xs) = ap (λ r. x ∷ r) (append_nil xs)

append_assoc : (xs ys zs : List ℕ) → (xs ++ ys) ++ zs ≡ xs ++ (ys ++ zs)
append_assoc [] ys zs = refl
append_assoc (x ∷ xs) ys zs = ap (λ r. x ∷ r) (append_assoc xs ys zs)

-- The line, and the page that is shown.
pub record Typing (w : World) (xs : List ℕ) (t : Page) : Type 0 where
  pub line : IsLine w.shell xs
  pub page : ShowsPage w.machine.console t

module _ (stack : Memory) (uninit : List ℕ) (depth : ℕ) where
  key_typed-eq :
      (w : World) (c : ℕ) (s : Console)
      → 32 ≤ c
      → w.machine.console.is_cursor_viewable ≡ true
      → ltb w.shell.curr_command_size 256 ≡ true
      → put_char_color w.machine.console c 15 ≡ ok s
      → key_typed stack uninit depth c w
        ≡ ok (record w { shell = store_char w.shell c; machine = with_console w.machine s })
  unfolding key_typed
  key_typed-eq w c s h check room e =
      let a : (c == 8) ≡ false = ground arith in
      let b : (c == 10) ≡ false = ground arith in
      let u : (c == 0x11) ≡ false = ground arith in
      let d : (c == 0x13) ≡ false = ground arith in
      let z : (c == 0) ≡ false = ground arith in
      let l : (c == 0x12) ≡ false = ground arith in
      let r : (c == 0x14) ≡ false = ground arith in
      let store : Command = put_char c 0xF ⨾ edit (λ x. store_char x c) in
      let typed : Bool → Command = λ i. if i then store else skip in
      rw (a, b, u, d)
        (rw (z, l, r)
          (ap (λ i. (if i then typed (ltb w.shell.curr_command_size 256) else skip) w) check
            ∙ ap (λ i. typed i w) room
            ∙ ap
                (λ q.
                  (q >>= λ x. ok (with_machine w (with_console w.machine x)))
                  >>= edit (λ x. store_char x c))
                e))

pub put_char_color-eq : (s : Console) (c : ℕ) → put_char_color s c 15 ≡ handle_new_char s c 15 0
unfolding put_char_color
put_char_color-eq s c = refl

module _ (stack : Memory) (uninit : List ℕ) (depth : ℕ) where
  pub key_typed-Typing :
      (w : World) (xs : List ℕ) (t : Page) (c : ℕ)
      → Typing w xs t
      → 32 ≤ c
      → length xs < 256
      → height (type_char t c) ≤ 4096
      → (z : World) × (key_typed stack uninit depth c w ≡ ok z)
        × Typing z (xs ++ c ∷ []) (type_char t c)
  key_typed-Typing w xs t c h plain lt room =
      let v = handle_new_char-ShowsPage w.machine.console t c 15 0 h.page (inr plain) room in
      let some_room : ltb w.shell.curr_command_size 256 ≡ true =
        lt→ltb w.shell.curr_command_size 256 (omega (arith, h.line.size, lt)) in
      (
        record w { shell = store_char w.shell c; machine = with_console w.machine v.0 },
        key_typed-eq stack uninit depth w c v.0 plain h.page.visible some_room
            (put_char_color-eq w.machine.console c ∙ v.1),
        record { line = store_char-IsLine w.shell xs c h.line lt; page = v.2 },
      )

  -- The keys of a text, one after the other.
  abbrev pub type_keys : List ℕ → Command
  type_keys [] = skip
  type_keys (c ∷ cs) = key_typed stack uninit depth c ⨾ type_keys cs

  -- While the cursor is in view, a text of characters from 32 on is typed behind the line, as far as
  -- the line then has at most 256 characters and the page at most 4096 lines: every key returns, the
  -- buffer of the command then holds the line with the text, with zeros behind, and the console shows
  -- the page with the text printed at its end, in its buffer, in the cursor's variables and in the
  -- characters of the screen's cells.
  pub type_keys-Typing :
      (w : World) (xs : List ℕ) (t : Page) (cs : List ℕ)
      → Typing w xs t
      → All (λ c. 32 ≤ c) cs
      → length xs + length cs ≤ 256
      → height (type_text t cs) ≤ 4096
      → (z : World) × (type_keys cs w ≡ ok z) × Typing z (xs ++ cs) (type_text t cs)
  type_keys-Typing w xs t [] h p lt room =
      (w, refl, subst (λ l. Typing w l t) (sym (append_nil xs)) h)
  type_keys-Typing w xs t (c ∷ cs) h p lt room =
      let fits : height (type_char t c) ≤ 4096 =
        let rest = height-type_text (type_char t c) cs in omega (arith, rest, room) in
      let v = key_typed-Typing w xs t c h p.0 (omega (arith, lt)) fits in
      let grown = length-append xs (c ∷ []) in
      let z =
        type_keys-Typing v.0 (xs ++ c ∷ []) (type_char t c) cs v.2 p.1 (omega (arith, lt, grown))
          room in
      (
        z.0,
        ap (λ r. r >>= type_keys cs) v.1 ∙ z.1,
        subst (λ l. Typing z.0 l (type_text t (c ∷ cs))) (append_assoc xs (c ∷ []) cs) z.2,
      )
