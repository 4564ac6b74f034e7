-- ===== src/Shell/Resolve.antt =====
-- user/command.c: the folder that a path leads to, against a walk along its names.
use os_2024_doors.Base.{
  ℕ, zero, suc, ◌+◌, ◌-◌, ◌*◌, ◌<◌, ◌≤◌, ◌≡◌, refl, sym, ap, ◌∙◌, inl, inr, arith, false,
  Bool-cases, List, [], ◌∷◌, length, All, get_or, drop, ltb, ◌==◌, if◌then◌else◌, Option, none,
  some, Run, ok, ◌>>=◌,
}
use mathlib.Core.Path.{subst}
use os_2024_doors.Strings.{memcmp}
use os_2024_doors.Strings.Split.{IsText, row_byte}
use os_2024_doors.Disk.{Disk}
use os_2024_doors.Fat32.Types.{DirectoryEntry, DirectoryTable, is_directory, cluster_number}
use os_2024_doors.Shell.{table_of, str_len}
use os_2024_doors.Shell.Path.{row, find_entry, no_ext, Walk, arrived, astray, walk}

-- The bytes of a list are those of a text, with zeros behind it, as far as `n`.
abbrev pub IsPadded : List ℕ → List ℕ → ℕ → Type 0
IsPadded ys xs n = (o : ℕ) → o < n → get_or ys o 0 ≡ get_or xs o 0

-- The length of a padded text.
pub str_len-padded :
    (ys xs : List ℕ) (n : ℕ)
    → IsText xs
    → length xs < n
    → n ≤ length ys
    → IsPadded ys xs n
    → str_len ys ≡ ok (length xs)
unfolding str_len
str_len-padded [] xs n t lt le h = absurd (omega arith)
str_len-padded (y ∷ ys) [] n t lt le h = let e : y ≡ 0 = h 0 (omega arith) in rw e refl
str_len-padded (y ∷ ys) (x ∷ xs) zero t lt le h = absurd (omega arith)
str_len-padded (y ∷ ys) (x ∷ xs) (suc n) t lt le h =
    let e : y ≡ x = h 0 (omega arith) in
    let some_char : (y == 0) ≡ false = ground (arith, e, t.0) in
    rw some_char (
      ap (λ r. r >>= λ k. ok (suc k))
        (str_len-padded ys xs n t.1 (omega arith) (omega arith) (λ o l. h (suc o) (omega arith))))

-- The name of an entry for a text.
abbrev pub field : ℕ → List ℕ → List ℕ
field zero xs = []
field (suc n) [] = 0 ∷ field n []
field (suc n) (x ∷ xs) = x ∷ field n xs

pub memcmp-field :
    (name ys xs : List ℕ) (n : ℕ)
    → n ≤ length ys
    → IsPadded ys xs n
    → memcmp name ys n ≡ memcmp name (field n xs) n
unfolding memcmp
memcmp-field name ys xs zero le h = refl
memcmp-field [] ys xs (suc n) le h = refl
memcmp-field (a ∷ name) [] xs (suc n) le h = absurd (omega arith)
memcmp-field (a ∷ name) (y ∷ ys) [] (suc n) le h =
    let e : y ≡ 0 = h 0 (omega arith) in
    let rest = memcmp-field name ys [] n (omega arith) (λ o l. h (suc o) (omega arith)) in
    rw (e, rest) refl
memcmp-field (a ∷ name) (y ∷ ys) (x ∷ xs) (suc n) le h =
    let e : y ≡ x = h 0 (omega arith) in
    let rest = memcmp-field name ys xs n (omega arith) (λ o l. h (suc o) (omega arith)) in
    rw (e, rest) refl

-- An entry is looked for by the first eight bytes.
pub find_entry-field :
    (ys xs ext : List ℕ) (es : DirectoryTable)
    → 8 ≤ length ys
    → IsPadded ys xs 8
    → find_entry ys ext es ≡ find_entry (field 8 xs) ext es
unfolding find_entry
find_entry-field ys xs ext [] le h = refl
find_entry-field ys xs ext (e ∷ es) le h =
    let rest = find_entry-field ys xs ext es le h in
    let same = memcmp-field e.name ys xs 8 le h in rw (rest, same) refl

-- The bytes of a row.
pub get_or-drop : (n o : ℕ) (xs : List ℕ) → get_or (drop n xs) o 0 ≡ get_or xs (n + o) 0
get_or-drop zero o xs = ap (λ i. get_or xs i 0) (omega arith)
get_or-drop (suc n) o [] = refl
get_or-drop (suc n) o (x ∷ xs) =
    let e : suc n + o ≡ suc (n + o) = omega arith in
    get_or-drop n o xs ∙ ap (λ i. get_or (x ∷ xs) i 0) (sym e)

pub length-drop_lem : (n : ℕ) (xs : List ℕ) → length (drop n xs) ≡ length xs - n
length-drop_lem zero xs = omega arith
length-drop_lem (suc n) [] = omega arith
length-drop_lem (suc n) (x ∷ xs) = length-drop_lem n xs ∙ omega arith

-- The walk along names: the folder of the last one, or the folder where the next name is no folder's
-- or too long.
abbrev pub go : Disk → ℕ → ℕ → List ℕ → List (List ℕ) → Walk
go d index parent piece [] = arrived index parent
go d index parent piece (q ∷ qs) =
    let deeper : ℕ → Walk = λ p. go d (index + 1) p q qs in
    if ltb 8 (length piece)
    then astray parent
    else elim (find_entry (field 8 piece) no_ext (drop 1 (table_of d parent))) [
      | none ↦ astray parent
      | some e ↦ if is_directory e then deeper (cluster_number e) else astray parent
    ]

-- Rows that can be read, of texts that are not empty behind the first one.
pub record Rows (buf : List ℕ) (index : ℕ) (piece : List ℕ) (qs : List (List ℕ)) : Type 0 where
  pub bytes :
      (r o : ℕ) → o < 256 → row_byte buf (index + r) o ≡ get_or (get_or (piece ∷ qs) r []) o 0
  pub size : length buf ≡ 4096
  pub first : IsText piece × (length piece < 256)
  pub others : All (λ q. IsText q × (length q < 256) × (0 < length q)) qs
  pub few : index + length qs < 15

pub row-IsPadded :
    (buf : List ℕ) (index : ℕ) (piece : List ℕ) (qs : List (List ℕ))
    → Rows buf index piece qs
    → (r : ℕ) → IsPadded (row buf (index + r)) (get_or (piece ∷ qs) r []) 256
row-IsPadded buf index piece qs h r o lt = get_or-drop (256 * (index + r)) o buf ∙ h.bytes r o lt

-- The length of the row `r` places on.
row-length :
    (buf : List ℕ) (index : ℕ) (piece : List ℕ) (qs : List (List ℕ)) (r : ℕ) (xs : List ℕ)
    → Rows buf index piece qs
    → get_or (piece ∷ qs) r [] ≡ xs
    → IsText xs
    → length xs < 256
    → index + r < 16
    → str_len (row buf (index + r)) ≡ ok (length xs)
row-length buf index piece qs r xs h e t lt few =
    str_len-padded (row buf (index + r)) xs 256 t lt
      (let l = length-drop_lem (256 * (index + r)) buf in omega (arith, l, h.size, few))
      (subst (λ y. IsPadded (row buf (index + r)) y 256) e (row-IsPadded buf index piece qs h r))

Rows-next :
    (buf : List ℕ) (index : ℕ) (piece q : List ℕ) (qs : List (List ℕ))
    → Rows buf index piece (q ∷ qs)
    → Rows buf (index + 1) q qs
Rows-next buf index piece q qs h = record {
  bytes = λ r o lt. ap (λ i. row_byte buf i o) (omega arith) ∙ h.bytes (suc r) o lt;
  size = h.size;
  first = (h.others.0.0, h.others.0.1);
  others = h.others.1;
  few = omega (arith, h.few);
}

-- A round of the loop, by the rounds after it.
step-eq :
    (size : ℕ) (found : Option DirectoryEntry) (parent : ℕ) (f : ℕ → Run Walk) (g : ℕ → Walk)
    → ((p : ℕ) → f p ≡ ok (g p))
    → (if ltb 8 size then ok (astray parent) else elim found [
      | none ↦ ok (astray parent)
      | some e ↦ if is_directory e then f (cluster_number e) else ok (astray parent)
    ])
      ≡ ok (
          if ltb 8 size then astray parent else elim found [
            | none ↦ astray parent
            | some e ↦ if is_directory e then g (cluster_number e) else astray parent
          ])
step-eq size none parent f g h = elim (Bool-cases (ltb 8 size)) [
  | inl e ↦ rw e refl
  | inr e ↦ rw e refl
]
step-eq size (some e) parent f g h = elim (Bool-cases (ltb 8 size)) [
  | inl long ↦ rw long refl
  | inr short ↦ elim (Bool-cases (is_directory e)) [
    | inl folder ↦ rw (short, folder) (h (cluster_number e))
    | inr file ↦ rw (short, file) refl
  ]
]

-- The loop over the folders of a path is the walk along its names.
pub walk-go :
    (n index : ℕ) (buf : List ℕ) (d : Disk) (parent : ℕ) (piece : List ℕ) (qs : List (List ℕ))
    → Rows buf index piece qs
    → length qs < n
    → walk n index buf d parent ≡ ok (go d index parent piece qs)
unfolding walk
walk-go zero index buf d parent piece qs h lt = absurd (omega arith)
walk-go (suc n) index buf d parent piece [] h lt =
    let after = row-length buf index piece [] 1 [] h refl tt (omega arith) (omega (arith, h.few)) in
    rw after refl
walk-go (suc n) index buf d parent piece (q ∷ qs) h lt =
    let after =
      row-length buf index piece (q ∷ qs) 1 q h refl h.others.0.0 h.others.0.1
        (omega (arith, h.few)) in
    let some_name : (length q == 0) ≡ false =
      let pos_len = h.others.0.2 in ground (arith, pos_len) in
    let size =
      row-length buf index piece (q ∷ qs) 0 piece h refl h.first.0 h.first.1
        (omega (arith, h.few)) in
    let size' : str_len (row buf index) ≡ ok (length piece) =
      ap (λ i. str_len (row buf i)) (omega arith) ∙ size in
    let table = drop 1 (table_of d parent) in
    let padded : IsPadded (row buf index) piece 8 = λ o l.
      ap (λ i. get_or (row buf i) o 0) (omega arith)
      ∙ row-IsPadded buf index piece (q ∷ qs) h 0 o (omega arith) in
    let long : 8 ≤ length (row buf index) =
      let l = length-drop_lem (256 * index) buf in omega (arith, l, h.size, h.few) in
    let same = find_entry-field (row buf index) piece no_ext table long padded in
    rw after (
      rw some_name (
        rw size' (
          rw same (
            step-eq (length piece) (find_entry (field 8 piece) no_ext table) parent
              (λ p. walk n (index + 1) buf d p) (λ p. go d (index + 1) p q qs)
              (λ p.
                walk-go n (index + 1) buf d p q qs (Rows-next buf index piece q qs h)
                  (omega (arith, lt)))))))
