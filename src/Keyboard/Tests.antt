-- ===== src/Keyboard/Tests.antt =====
-- Examples for the keyboard handler.
use os_2024_doors.Base.{ℕ, ◌<◌, ◌≡◌, refl, arith, [], ◌∷◌, true, Bool}
use os_2024_doors.Keyboard.{KeyboardState, initial}
use os_2024_doors.Keyboard.Sequences.{run_isr, Flags, run_isr-Flags, typed, printable-typed}

abbrev active : KeyboardState
active = record initial { keyboard_input_on = true }

run_isr-Flags_example :
    Flags active
      (0x2A ∷ 0x3A ∷ 0x1E ∷ 0xAA ∷ 0x36 ∷ [])
      (run_isr active (0x2A ∷ 0x3A ∷ 0x1E ∷ 0xAA ∷ 0x36 ∷ []))
run_isr-Flags_example =
    run_isr-Flags active (0x2A ∷ 0x3A ∷ 0x1E ∷ 0xAA ∷ 0x36 ∷ []) refl
      (omega arith, (omega arith, (omega arith, (omega arith, (omega arith, tt)))))

printable-typed_example : (shift : Bool) × (k : ℕ) × (k < 128) × (typed shift k ≡ 126)
printable-typed_example = printable-typed 126 (omega arith) (omega arith)
