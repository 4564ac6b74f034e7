-- ===== src/Keyboard/Sequences.antt =====
-- The keyboard handler over sequences of scancodes, and the characters that can be typed.
use os_2024_doors.Base.{
  ℕ, zero, suc, ◌+◌, ◌<◌, ◌≤◌, ◌-◌, ◌≡◌, refl, sym, ap, ◌∙◌, Bool, true, false, not, ◌&&◌, ◌||◌,
  xor, List, [], ◌∷◌, ◌==◌, if◌then◌else◌, count, arith, all_below, all_below-true, Bool-cases, ◌⊎◌,
  ==_iff, inl, inr, All,
}
use mathlib.Core.Path.{subst}
use os_2024_doors.Keyboard.{
  KeyboardState, keyboard_isr, key_press, key_release, mapped, get_buffer, activate, initial,
}

-- The handler, once for each byte of a sequence.
abbrev pub run_isr : KeyboardState → List ℕ → KeyboardState
run_isr s [] = s
run_isr s (c ∷ cs) = run_isr (keyboard_isr s c).0 cs

-- A key is down if its last event is a press; with no event it is as it was.
abbrev pub down_after : ℕ → Bool → List ℕ → Bool
down_after key was [] = was
down_after key was (c ∷ cs) =
    down_after key (if c == key then true else if c == key + 0x80 then false else was) cs

abbrev pub toggled : Bool → ℕ → Bool
toggled b zero = b
toggled b (suc n) = toggled (not b) n

-- How often the caps lock key is pressed.
abbrev pub presses : List ℕ → ℕ
presses = count (λ c. c == 0x3A)

-- The flags of the state after a sequence, in terms of the sequence.
pub record Flags (s : KeyboardState) (cs : List ℕ) (z : KeyboardState) : Type 0 where
  pub left : z.left_shift ≡ down_after 0x2A s.left_shift cs
  pub right : z.right_shift ≡ down_after 0x36 s.right_shift cs
  pub caps : z.capslock ≡ toggled s.capslock (presses cs)
  pub input : z.keyboard_input_on ≡ true

abbrev bool_eq : Bool → Bool → Bool
bool_eq true b = b
bool_eq false b = not b

bool_eq-true : (a b : Bool) → bool_eq a b ≡ true → a ≡ b
bool_eq-true true true h = refl
bool_eq-true true false h = cc
bool_eq-true false true h = cc
bool_eq-true false false h = refl

abbrev state_of : Bool → Bool → Bool → Bool → ℕ → KeyboardState
state_of ext caps l r b = record {
  read_extended_mode = ext;
  keyboard_input_on = true;
  capslock = caps;
  left_shift = l;
  right_shift = r;
  keyboard_buffer = b;
}

-- The effect of a byte on the flags, as a test that is evaluated for every byte.
abbrev flags_ok : Bool → Bool → Bool → Bool → ℕ → ℕ → Bool
flags_ok ext caps l r b c =
    let z = (keyboard_isr (state_of ext caps l r b) c).0 in
    bool_eq z.left_shift (down_after 0x2A l (c ∷ []))
    && (bool_eq z.right_shift (down_after 0x36 r (c ∷ []))
        && (bool_eq z.capslock (toggled caps (presses (c ∷ []))) && z.keyboard_input_on))

all_flags : (ext caps l r : Bool) (b : ℕ) → all_below 256 (flags_ok ext caps l r b) ≡ true
unfolding keyboard_isr key_press key_release
all_flags e true true true b = refl
all_flags e true true false b = refl
all_flags e true false true b = refl
all_flags e true false false b = refl
all_flags e false true true b = refl
all_flags e false true false b = refl
all_flags e false false true b = refl
all_flags e false false false b = refl

all_four :
    (a b c d : Bool)
    → a && (b && (c && d)) ≡ true
    → (a ≡ true) × (b ≡ true) × (c ≡ true) × (d ≡ true)
all_four true true true d h = (refl, refl, refl, h)
all_four true true false d h = absurd cc
all_four true false c d h = absurd cc
all_four false b c d h = absurd cc

step-Flags :
    (ext caps l r : Bool) (b c : ℕ)
    → c < 256
    → let s = state_of ext caps l r b in Flags s (c ∷ []) (keyboard_isr s c).0
step-Flags ext caps l r b c lt =
    let z = (keyboard_isr (state_of ext caps l r b) c).0 in
    let four =
      all_four (bool_eq z.left_shift (down_after 0x2A l (c ∷ [])))
        (bool_eq z.right_shift (down_after 0x36 r (c ∷ [])))
        (bool_eq z.capslock (toggled caps (presses (c ∷ [])))) z.keyboard_input_on
        (all_below-true 256 (flags_ok ext caps l r b) (all_flags ext caps l r b) c lt) in
    record {
      left = bool_eq-true _ _ four.0;
      right = bool_eq-true _ _ four.1;
      caps = bool_eq-true _ _ four.2;
      input = four.3;
    }

toggled-add : (b : Bool) (m n : ℕ) → toggled (toggled b m) n ≡ toggled b (m + n)
toggled-add b zero n = refl_add b n
  where
    refl_add : (b : Bool) (n : ℕ) → toggled b n ≡ toggled b (0 + n)
    refl_add b n = let e : n ≡ 0 + n = omega arith in ap (toggled b) e
toggled-add b (suc m) n =
    let e : suc (m + n) ≡ suc m + n = omega arith in toggled-add (not b) m n ∙ ap (toggled b) e

-- With the keyboard on, after any sequence of bytes a shift flag is set exactly if the last event of
-- its key is a press, or there is none and it was set before, caps lock has been toggled by each
-- press of its key, and the keyboard is still on.
pub run_isr-Flags :
    (s : KeyboardState) (cs : List ℕ)
    → s.keyboard_input_on ≡ true
    → All (λ c. c < 256) cs
    → Flags s cs (run_isr s cs)
run_isr-Flags s [] on h = record { left = refl; right = refl; caps = refl; input = on }
run_isr-Flags s (c ∷ cs) on h =
    let z : KeyboardState = (keyboard_isr s c).0 in
    let f : Flags s (c ∷ []) z =
      subst (λ x. Flags x (c ∷ []) (keyboard_isr x c).0)
        (sym (ap (λ x. record s { keyboard_input_on = x }) on))
        (step-Flags s.read_extended_mode s.capslock s.left_shift s.right_shift s.keyboard_buffer c
          h.0) in
    let one : presses (c ∷ []) + presses cs ≡ presses (c ∷ cs) = omega arith in
    let g = run_isr-Flags z cs f.input h.1 in
    record {
      left = g.left ∙ ap (λ x. down_after 0x2A x cs) f.left;
      right = g.right ∙ ap (λ x. down_after 0x36 x cs) f.right;
      caps =
          g.caps
          ∙ ap (λ x. toggled x (presses cs)) f.caps
          ∙ toggled-add s.capslock (presses (c ∷ [])) (presses cs)
          ∙ ap (toggled s.capslock) one;
      input = g.input;
    }

-- The bytes of one key, with the left shift key held or not.
abbrev pub keys : Bool → ℕ → List ℕ
keys shift n = if shift then 0x2A ∷ n ∷ [] else n ∷ []

-- What is read after these bytes, once the keyboard is activated.
abbrev pub typed : Bool → ℕ → ℕ
typed shift n = (get_buffer (run_isr (activate initial) (keys shift n))).0

abbrev typed_by : Bool → ℕ → ℕ → Bool
typed_by shift c zero = false
typed_by shift c (suc n) = typed shift n == c || typed_by shift c n

typed_by-true :
    (shift : Bool) (c n : ℕ) → typed_by shift c n ≡ true → (k : ℕ) × (k < n) × (typed shift k ≡ c)
typed_by-true shift c zero h = absurd cc
typed_by-true shift c (suc n) h = elim (Bool-cases (typed shift n == c)) [
  | inl e ↦ (n, omega arith, (==_iff _ _).0 e)
  | inr e ↦ let (k, lt, at) = typed_by-true shift c n (rw e at h) in (k, omega (arith, lt), at)
]

-- A printable character can be typed with or without shift.
abbrev typable : ℕ → Bool
typable c = typed_by false (c + 32) 128 || typed_by true (c + 32) 128

all_typable : all_below 95 typable ≡ true
unfolding keyboard_isr key_press key_release mapped mathlib.Core.Bool.xor get_buffer activate
all_typable = refl

or_cases : (a b : Bool) → a || b ≡ true → (a ≡ true) ⊎ (b ≡ true)
or_cases true b h = inl refl
or_cases false b h = inr h

-- Once the keyboard is activated from its initial state, each printable ASCII character is what some key below 0x80 puts
-- in the buffer, alone or after a press of the left shift key.
pub printable-typed :
    (c : ℕ) → 32 ≤ c → c ≤ 126 → (shift : Bool) × (k : ℕ) × (k < 128) × (typed shift k ≡ c)
printable-typed c ge le =
    let same : c - 32 + 32 ≡ c = omega arith in
    elim (or_cases (typed_by false (c - 32 + 32) 128) (typed_by true (c - 32 + 32) 128)
      (all_below-true 95 typable all_typable (c - 32) (omega arith))) [
        | inl e ↦
            let (k, lt, at) = typed_by-true false (c - 32 + 32) 128 e in (false, k, lt, at ∙ same)
        | inr e ↦
            let (k, lt, at) = typed_by-true true (c - 32 + 32) 128 e in (true, k, lt, at ∙ same)
      ]
