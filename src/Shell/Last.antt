-- ===== src/Shell/Last.antt =====
-- user/command.c: the pieces of a text, and the last piece of a path.
use os_2024_doors.Base.{
  ℕ, zero, suc, ◌*◌, ◌<◌, ◌≤◌, ◌≡◌, refl, ap, ◌∙◌, inl, inr, arith, Bool-cases, List, [], ◌∷◌, ◌++◌,
  length, All, take, drop, ltb, ◌==◌, if◌then◌else◌, Option, none, some, Run, ok,
}
use os_2024_doors.Strings.Split.{IsText, first_piece, more_pieces}
use os_2024_doors.Disk.{Disk}
use os_2024_doors.Fat32.Types.{DirectoryEntry, DirectoryTable, is_directory, cluster_number}
use os_2024_doors.Shell.{table_of}
use os_2024_doors.Shell.Path.{row, find_entry, Resolved, unresolved, find_last}
use os_2024_doors.Shell.Resolve.{
  IsPadded, str_len-padded, field, find_entry-field, memcmp-field, length-drop_lem,
}

-- The pieces of a text are texts, and no longer than it.
pub first_piece-IsText : (delim : ℕ) (xs : List ℕ) → IsText xs → IsText (first_piece delim xs)
first_piece-IsText delim [] t = tt
first_piece-IsText delim (c ∷ cs) t = elim (Bool-cases (c == delim)) [
  | inl e ↦ rw e tt
  | inr e ↦ rw e (t.0, first_piece-IsText delim cs t.1)
]

pub length-first_piece : (delim : ℕ) (xs : List ℕ) → length (first_piece delim xs) ≤ length xs
length-first_piece delim [] = omega arith
length-first_piece delim (c ∷ cs) = elim (Bool-cases (c == delim)) [
  | inl e ↦ rw e (omega arith)
  | inr e ↦ rw e (let r = length-first_piece delim cs in omega arith)
]

pub more_pieces-IsPart :
    (delim n : ℕ) (xs : List ℕ)
    → IsText xs
    → length xs ≤ n
    → All (λ q. IsText q × (length q ≤ n)) (more_pieces delim xs)
more_pieces-IsPart delim n [] t le = tt
more_pieces-IsPart delim n (c ∷ cs) t le =
    let rest = more_pieces-IsPart delim n cs t.1 (omega arith) in
    let len = length-first_piece delim cs in
    elim (Bool-cases (c == delim)) [
      | inl e ↦ rw e ((first_piece-IsText delim cs t.1, omega (arith, len, le)), rest)
      | inr e ↦ rw e rest
    ]

-- A padded list is the text, its end and what is behind.
pub padded-split :
    (ys xs : List ℕ) (n : ℕ)
    → length xs < n
    → n ≤ length ys
    → IsPadded ys xs n
    → ys ≡ xs ++ 0 ∷ drop (suc (length xs)) ys
padded-split [] xs n lt le h = absurd (omega arith)
padded-split (y ∷ ys) [] n lt le h = ap (λ z. z ∷ ys) (h 0 (omega arith))
padded-split (y ∷ ys) (x ∷ xs) zero lt le h = absurd (omega arith)
padded-split (y ∷ ys) (x ∷ xs) (suc n) lt le h =
    let e : y ≡ x = h 0 (omega arith) in
    let rest = padded-split ys xs n (omega arith) (omega arith) (λ o l. h (suc o) (omega arith)) in
    ap (λ z. z ∷ ys) e ∙ ap (λ zs. x ∷ zs) rest

take-padded : (ys xs : List ℕ) (n : ℕ) → n ≤ length ys → IsPadded ys xs n → take n ys ≡ field n xs
take-padded ys xs zero le h = refl
take-padded [] xs (suc n) le h = absurd (omega arith)
take-padded (y ∷ ys) [] (suc n) le h =
    let e : y ≡ 0 = h 0 (omega arith) in
    rw e (ap (λ r. 0 ∷ r) (take-padded ys [] n (omega arith) (λ o l. h (suc o) (omega arith))))
take-padded (y ∷ ys) (x ∷ xs) (suc n) le h =
    let e : y ≡ x = h 0 (omega arith) in
    rw e (ap (λ r. x ∷ r) (take-padded ys xs n (omega arith) (λ o l. h (suc o) (omega arith))))

-- An entry is looked for by the first three bytes of the extension.
find_entry-ext :
    (name ys xs : List ℕ) (es : DirectoryTable)
    → 3 ≤ length ys
    → IsPadded ys xs 3
    → find_entry name ys es ≡ find_entry name (field 3 xs) es
unfolding find_entry
find_entry-ext name ys xs [] le h = refl
find_entry-ext name ys xs (e ∷ es) le h =
    let rest = find_entry-ext name ys xs es le h in
    let same = memcmp-field e.ext ys xs 3 le h in rw (rest, same) refl

-- The result of a last piece with its name and its extension.
abbrev pub last_of : Disk → ℕ → List ℕ → List ℕ → Resolved → Resolved
last_of d parent name ext before =
    if ltb 8 (length name)
    then unresolved 4 parent before
    else if ltb 3 (length ext)
    then unresolved 5 parent before
    else (let stored : Resolved = record {
      result = 2;
      parent_cluster = parent;
      current_cluster = before.current_cluster;
      filename = field 8 name;
      ext = field 3 ext;
    } in
        elim (find_entry (field 8 name) (field 3 ext) (drop 1 (table_of d parent))) [
          | none ↦ stored
          | some e ↦ record stored {
            result = if is_directory e then 1 else 0;
            current_cluster = cluster_number e;
          }
        ])

-- The end of `find_last`, by the entry that was found.
abbrev returned : Resolved → Option DirectoryEntry → Run Resolved
returned stored found = elim found [
  | none ↦ ok stored
  | some e ↦ ok (record stored {
    result = if is_directory e then 1 else 0;
    current_cluster = cluster_number e;
  })
]

found-eq :
    (found : Option DirectoryEntry) (stored : Resolved)
    → ◌≡◌ {A = Run Resolved}
        (elim found [
          | none ↦ ok stored
          | some e ↦ ok (record stored {
            result = if is_directory e then 1 else 0;
            current_cluster = cluster_number e;
          })
        ])
        (ok (elim found [
          | none ↦ stored
          | some e ↦ record stored {
            result = if is_directory e then 1 else 0;
            current_cluster = cluster_number e;
          }
        ]))
found-eq none stored = refl
found-eq (some e) stored = refl

pub find_last-eq :
    (d : Disk) (parent : ℕ) (file_buf name ext : List ℕ) (before : Resolved)
    → length file_buf ≡ 4096
    → IsText name × (length name < 256)
    → IsText ext × (length ext < 256)
    → IsPadded (row file_buf 0) name 256
    → IsPadded (row file_buf 1) ext 256
    → find_last d parent file_buf before ≡ ok (last_of d parent name ext before)
unfolding find_last
find_last-eq d parent file_buf name ext before len n x pn px =
    let l0 = length-drop_lem (256 * 0) file_buf in
    let l1 = length-drop_lem (256 * 1) file_buf in
    let long : 256 ≤ length (row file_buf 0) = omega (arith, l0, len) in
    let long' : 256 ≤ length (row file_buf 1) = omega (arith, l1, len) in
    let size = str_len-padded (row file_buf 0) name 256 n.0 n.1 long pn in
    let size' = str_len-padded (row file_buf 1) ext 256 x.0 x.1 long' px in
    let table = drop 1 (table_of d parent) in
    let entry =
      find_entry-field (row file_buf 0) name (row file_buf 1) table (omega (arith, long))
        (λ o l. pn o (omega (arith, l)))
      ∙ find_entry-ext (field 8 name) (row file_buf 1) ext table (omega (arith, long'))
          (λ o l. px o (omega (arith, l))) in
    let name_at =
      take-padded (row file_buf 0) name 8 (omega (arith, long)) (λ o l. pn o (omega (arith, l))) in
    let ext_at =
      take-padded (row file_buf 1) ext 3 (omega (arith, long')) (λ o l. px o (omega (arith, l))) in
    let stored : List ℕ → List ℕ → Resolved = λ a b. record {
      result = 2;
      parent_cluster = parent;
      current_cluster = before.current_cluster;
      filename = a;
      ext = b;
    } in
    elim (Bool-cases (ltb 8 (length name))) [
      | inl e ↦ rw size (rw e refl)
      | inr e ↦ elim (Bool-cases (ltb 3 (length ext))) [
        | inl e' ↦ rw size (rw e (rw size' (rw e' refl)))
        | inr e' ↦ rw size (
            rw e (
              rw size' (
                rw e' (
                  ap (returned (stored (take 8 (row file_buf 0)) (take 3 (row file_buf 1)))) entry
                  ∙ ap
                      (λ a.
                        returned (stored a (take 3 (row file_buf 1)))
                          (find_entry (field 8 name) (field 3 ext) table))
                      name_at
                  ∙ ap
                      (λ b.
                        returned (stored (field 8 name) b)
                          (find_entry (field 8 name) (field 3 ext) table))
                      ext_at
                  ∙ found-eq (find_entry (field 8 name) (field 3 ext) table)
                      (stored (field 8 name) (field 3 ext))))))
      ]
    ]
