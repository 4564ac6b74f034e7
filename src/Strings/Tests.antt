-- ===== src/Strings/Tests.antt =====
-- Examples for stdlib/string.c.
use os_2024_doors.Base.{ℕ, ◌+◌, ◌<◌, ◌≡◌, ◌≢◌, refl, arith, ok, ltb, if◌then◌else◌}
use os_2024_doors.Strings.{Memory, memmove, strlen}
use os_2024_doors.Strings.Move.{Outside, memmove-moved, strlen-ends}

-- Ten bytes 5 to 14 and zeros behind them.
abbrev ten : Memory
ten p = if ltb p 10 then p + 5 else 0

-- Both ranges share three bytes.
memmove-moved_example :
    ((k : ℕ) → k < 5 → memmove ten 4 2 5 (4 + k) ≡ ten (2 + k))
    × ((a : ℕ) → Outside 4 5 a → memmove ten 4 2 5 a ≡ ten a)
memmove-moved_example = memmove-moved ten 4 2 5

ten_bytes : (i : ℕ) → i < 8 → ten (2 + i) ≢ 0
ten_bytes i lt = ground arith

strlen-ends_example : strlen 20 ten 2 ≡ ok 8
strlen-ends_example = strlen-ends ten 2 8 20 ten_bytes refl (omega arith)
