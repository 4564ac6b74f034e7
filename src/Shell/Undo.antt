-- ===== src/Shell/Undo.antt =====
-- user/command.c: a character that is typed and taken back.
use os_2024_doors.Base.{
  ℕ, zero, suc, ◌-◌, ◌<◌, ◌≤◌, ◌≡◌, refl, sym, ap, ◌∙◌, inl, inr, arith, Bool, true, false, not,
  List, [], ◌∷◌, ◌++◌, length, length-append, length-set, set, take, get_or-set_cases, ltb, ◌==◌,
  if◌then◌else◌, ok, ◌>>=◌,
}
use mathlib.Core.Path.{subst}
use os_2024_doors.Fat32.Types.{Memory}
use os_2024_doors.Framebuffer.{Console}
use os_2024_doors.Framebuffer.Text.{put_char_color}
use os_2024_doors.Framebuffer.Page.{Page, ShowsPage, type_char, height}
use os_2024_doors.Framebuffer.Typing.{type_char-within}
use os_2024_doors.Framebuffer.Erasing.{take-prefix, backspace-ShowsPage}
use os_2024_doors.Interrupt.Syscall.{with_console}
use os_2024_doors.Shell.{ShellState, World, Command, put_char, skip, with_machine, ◌⨾◌}
use os_2024_doors.Shell.Line.{drop_char, store_char, key_typed, edit}
use os_2024_doors.Shell.Editor.{IsLine, Typing, key_typed-Typing, put_char_color-eq}

take-set_end : (n v : ℕ) (ys : List ℕ) → take n (set ys n v) ≡ take n ys
take-set_end zero v [] = refl
take-set_end zero v (y ∷ ys) = refl
take-set_end (suc n) v [] = refl
take-set_end (suc n) v (y ∷ ys) = ap (λ r. y ∷ r) (take-set_end n v ys)

drop_char-IsLine :
    (s : ShellState) (xs : List ℕ) (c : ℕ)
    → IsLine s (xs ++ c ∷ [])
    → length xs < 256
    → IsLine (drop_char s) xs
unfolding drop_char
drop_char-IsLine s xs c h lt =
    let grown = length-append xs (c ∷ []) in
    let n : s.curr_command_size - 1 ≡ length xs = omega (arith, h.size, grown) in
    let buf = s.curr_command_buffer in
    record {
      size = n;
      capacity = length-set buf (s.curr_command_size - 1) 0 ∙ h.capacity;
      text =
          subst (λ i. take (length xs) (set buf i 0) ≡ xs) (sym n)
            (take-set_end (length xs) 0 buf ∙ take-prefix xs buf c h.text);
      clear = λ i le.
          elim (get_or-set_cases buf (s.curr_command_size - 1) i 0 0
            (omega (arith, n, h.capacity, lt))) [
              | inl (same, at) ↦ at
              | inr (ne, at) ↦ at ∙ h.clear i (omega (arith, le, grown, ne, n))
            ];
    }

module _ (stack : Memory) (uninit : List ℕ) (depth : ℕ) where
  key_back-eq :
      (w : World) (s : Console)
      → w.machine.console.is_cursor_viewable ≡ true
      → (w.shell.curr_command_size == 0) ≡ false
      → put_char_color w.machine.console 8 15 ≡ ok s
      → key_typed stack uninit depth 8 w
        ≡ ok (record w { shell = drop_char w.shell; machine = with_console w.machine s })
  unfolding key_typed
  key_back-eq w s check some_size e =
      let erase : Command = put_char 8 0xF ⨾ edit drop_char in
      let typed : Bool → Command = λ i. if not i then erase else skip in
      let store : Command =
        if ltb w.shell.curr_command_size 256
        then put_char 8 0xF ⨾ edit (λ x. store_char x 8)
        else skip in
      ap (λ i. (if i then typed (w.shell.curr_command_size == 0) else if i then store else skip) w)
        check
      ∙ ap (λ i. typed i w) some_size
      ∙ ap (λ q. (q >>= λ x. ok (with_machine w (with_console w.machine x))) >>= edit drop_char) e

  -- From a line and a page that are shown with the cursor in view, a key from 32 on that the line and
  -- its row on the console have room for, and the backspace after it, both return, and leave the same
  -- line in the buffer of the command and the same page on the console, in its buffer, in the cursor's
  -- variables and in the characters of the screen's cells.
  pub key_typed-undone :
      (w : World) (xs : List ℕ) (t : Page) (c : ℕ)
      → Typing w xs t
      → 32 ≤ c
      → length xs < 256
      → length t.line < 78
      → (z : World) × ((key_typed stack uninit depth c ⨾ key_typed stack uninit depth 8) w ≡ ok z)
        × Typing z xs t
  key_typed-undone w xs t c h plain lt row =
      let e = type_char-within t c (λ x. absurd (omega arith)) row in
      let fits : height (type_char t c) ≤ 4096 =
        subst (λ p. height p ≤ 4096) (sym e) (omega (arith, h.page.room, h.page.text.count)) in
      let v = key_typed-Typing stack uninit depth w xs t c h plain lt fits in
      let shown = subst (ShowsPage v.0.machine.console) e v.2.page in
      let b = backspace-ShowsPage v.0.machine.console t c 15 0 shown in
      let grown = length-append xs (c ∷ []) in
      let some_size : (v.0.shell.curr_command_size == 0) ≡ false =
        let size = v.2.line.size in ground (arith, size, grown) in
      let run =
        key_back-eq v.0 b.0 shown.visible some_size
          (put_char_color-eq v.0.machine.console 8 ∙ b.1) in
      (
        record v.0 { shell = drop_char v.0.shell; machine = with_console v.0.machine b.0 },
        ap (λ r. r >>= key_typed stack uninit depth 8) v.1 ∙ run,
        record { line = drop_char-IsLine v.0.shell xs c v.2.line lt; page = b.2 },
      )
