-- ===== src/Keyboard.antt =====
-- keyboard.c: the keyboard driver. A byte read from port 0x60 is an argument of the handler, and
-- the acknowledgement to the interrupt controller is among its results.
pub mod Sequences
mod Tests
use os_2024_doors.Base.{
  ℕ, ◌-◌, ◌/◌, ◌%◌, Bool, true, false, not, ◌&&◌, ◌||◌, xor, List, [], ◌∷◌, ◌++◌, ◌==◌, ltb, leb,
  if◌then◌else◌, get_or, replicate,
}

-- `keyboard_scancode_1_to_ascii_map`
abbrev pub ascii_map : List ℕ
ascii_map =
    0
    ∷ 27
    ∷ 49
    ∷ 50
    ∷ 51
    ∷ 52
    ∷ 53
    ∷ 54
    ∷ 55
    ∷ 56
    ∷ 57
    ∷ 48
    ∷ 45
    ∷ 61
    ∷ 8
    ∷ 9
    ∷ 113
    ∷ 119
    ∷ 101
    ∷ 114
    ∷ 116
    ∷ 121
    ∷ 117
    ∷ 105
    ∷ 111
    ∷ 112
    ∷ 91
    ∷ 93
    ∷ 10
    ∷ 0
    ∷ 97
    ∷ 115
    ∷ 100
    ∷ 102
    ∷ 103
    ∷ 104
    ∷ 106
    ∷ 107
    ∷ 108
    ∷ 59
    ∷ 39
    ∷ 96
    ∷ 0
    ∷ 92
    ∷ 122
    ∷ 120
    ∷ 99
    ∷ 118
    ∷ 98
    ∷ 110
    ∷ 109
    ∷ 44
    ∷ 46
    ∷ 47
    ∷ 0
    ∷ 42
    ∷ 0
    ∷ 32
    ∷ 0
    ∷ 0
    ∷ 0
    ∷ 0
    ∷ 0
    ∷ 0
    ∷ 0
    ∷ 0
    ∷ 0
    ∷ 0
    ∷ 0
    ∷ 0
    ∷ 0
    ∷ 0
    ∷ 0
    ∷ 0
    ∷ 45
    ∷ 0
    ∷ 0
    ∷ 0
    ∷ 43
    ∷ replicate 177 0

-- `shift_map`
abbrev pub shift_map : List ℕ
shift_map =
    0 ∷ 0 ∷ 0 ∷ 0 ∷ 0 ∷ 0 ∷ 0 ∷ 0 ∷ 0 ∷ 0 ∷ 0 ∷ 0 ∷ 0 ∷ 0 ∷ 0 ∷ 0 ∷ 0 ∷ 0 ∷ 0 ∷ 0 ∷ 0 ∷ 0 ∷ 0 ∷ 0
    ∷ 0 ∷ 0 ∷ 0 ∷ 0 ∷ 0 ∷ 0 ∷ 0 ∷ 0 ∷ 0 ∷ 0 ∷ 0 ∷ 0 ∷ 0 ∷ 0 ∷ 0 ∷ 34 ∷ 0 ∷ 0 ∷ 0 ∷ 0 ∷ 60 ∷ 95 ∷ 62
    ∷ 63 ∷ 41 ∷ 33 ∷ 64 ∷ 35 ∷ 36 ∷ 37 ∷ 94 ∷ 38 ∷ 42 ∷ 40 ∷ 0 ∷ 58 ∷ 0 ∷ 43 ∷ 0 ∷ 0 ∷ 0 ∷ 0 ∷ 0 ∷ 0
    ∷ 0 ∷ 0 ∷ 0 ∷ 0 ∷ 0 ∷ 0 ∷ 0 ∷ 0 ∷ 0 ∷ 0 ∷ 0 ∷ 0 ∷ 0 ∷ 0 ∷ 0 ∷ 0 ∷ 0 ∷ 0 ∷ 0 ∷ 0 ∷ 0 ∷ 0 ∷ 0
    ∷ 123 ∷ 124 ∷ 125 ∷ 0 ∷ 0 ∷ 126 ∷ []

-- struct KeyboardDriverState
pub record KeyboardState : Type 0 where
  pub read_extended_mode : Bool
  pub keyboard_input_on : Bool
  pub capslock : Bool
  pub left_shift : Bool
  pub right_shift : Bool
  pub keyboard_buffer : ℕ

-- The initial value of `keyboard_state`.
abbrev pub initial : KeyboardState
initial = record {
  read_extended_mode = false;
  keyboard_input_on = false;
  capslock = false;
  left_shift = false;
  right_shift = false;
  keyboard_buffer = 0;
}

unfoldable pub activate : KeyboardState → KeyboardState
activate s = record s {
  keyboard_input_on = true;
  capslock = false;
  left_shift = false;
  right_shift = false;
}

unfoldable pub deactivate : KeyboardState → KeyboardState
deactivate s = record s { keyboard_input_on = false }

-- The character that is stored at `buf`, and the flushed state.
unfoldable pub get_buffer : KeyboardState → ℕ × KeyboardState
get_buffer s = (s.keyboard_buffer, record s { keyboard_buffer = 0 })

abbrev pub is_shift : KeyboardState → Bool
is_shift s = s.left_shift || s.right_shift

-- The last `else` of the key press: letters by caps lock and shift, other keys by `shift_map`.
unfoldable pub mapped : KeyboardState → ℕ → ℕ
mapped s scancode =
    let c = get_or ascii_map scancode 0 in
    let shifted = get_or shift_map c 0 in
    if xor s.capslock (is_shift s) && (leb 97 c && leb c 122)
    then c - 32
    else if is_shift s && (ltb c 97 && not (shifted == 0))
    then shifted
    else c

-- A scancode below 0x80.
unfoldable pub key_press : KeyboardState → ℕ → KeyboardState
key_press s scancode =
    if scancode == 0x3A
    then record s { capslock = not s.capslock }
    else if scancode == 0x2A
    then record s { left_shift = true }
    else if scancode == 0x36
    then record s { right_shift = true }
    else if scancode == 0x48
    then record s { keyboard_buffer = 0x11 }
    else if scancode == 0x4B
    then record s { keyboard_buffer = 0x12 }
    else if scancode == 0x50
    then record s { keyboard_buffer = 0x13 }
    else if scancode == 0x4D
    then record s { keyboard_buffer = 0x14 }
    else record s { keyboard_buffer = mapped s scancode }

unfoldable pub key_release : KeyboardState → ℕ → KeyboardState
key_release s scancode =
    if scancode == 0xAA
    then record s { left_shift = false }
    else if scancode == 0xB6
    then record s { right_shift = false }
    else s

-- interrupt.c: the bytes that `pic_ack` sends, each with its port.
unfoldable pub pic_ack : ℕ → List (ℕ × ℕ)
pic_ack irq = (if leb 8 irq then (0xA0, 0x20) ∷ [] else []) ++ (0x20, 0x20) ∷ []

-- `scancode & 0x80` of a byte.
abbrev pub is_release : ℕ → Bool
is_release scancode = not (scancode / 128 % 2 == 0)

unfoldable pub keyboard_isr : KeyboardState → ℕ → KeyboardState × List (ℕ × ℕ)
unfolding key_press key_release mapped
keyboard_isr s scancode = (
  (if s.keyboard_input_on
      then (if is_release scancode then key_release s scancode else key_press s scancode)
      else s),
  pic_ack 1,
)

unfoldable pub is_keyboard_active : KeyboardState → Bool
is_keyboard_active s = s.keyboard_input_on
