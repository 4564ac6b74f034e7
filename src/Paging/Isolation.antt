-- ===== src/Paging/Isolation.antt =====
-- The page frames of users' pages, paging.c, and their allocation.
use os_2024_doors.Base.{
  ℕ, ◌*◌, ◌/◌, ◌%◌, ◌^◌, ◌<◌, ◌≡◌, ◌≢◌, sym, ap, ◌∙◌, inl, inr, true, false, some, arith, ◌==◌,
  if◌then◌else◌, Bool-cases, Option-cases, length, get_or, get_or-set, get_or_default, ◌⊎◌,
  length-set,
}
use mathlib.Core.Path.{subst}
use os_2024_doors.Paging.{
  take_frame, Paging, Entry, zero_directory, directory, page_index, user_flag, first_free,
  paging_allocate_user_page_frame, update_page_directory_entry,
}
use os_2024_doors.Paging.Frames.{found_free, allocate-none, allocate-some}

-- The entry maps a page of a user.
pub record IsUser (e : Entry) : Type 0 where
  pub present : e.flag.present_bit ≡ true
  pub user : e.flag.user_supervisor ≡ true

-- Each user's page has a frame that is marked as used, and no two pages have the same frame.
pub record IsIsolated (p : Paging) : Type 0 where
  pub frames : length p.page_frame_map ≡ 32
  pub directories : length p.page_directory_list ≡ 32
  pub in_map : (d j : ℕ) → IsUser (directory p d j) → (directory p d j).lower_address < 32
  pub marked :
      (d j : ℕ)
      → IsUser (directory p d j)
      → get_or p.page_frame_map (directory p d j).lower_address false ≡ true
  pub apart :
      (d j e k : ℕ)
      → IsUser (directory p d j)
      → IsUser (directory p e k)
      → (directory p d j).lower_address ≡ (directory p e k).lower_address
      → (d ≡ e) × (j ≡ k)

module _ (p : Paging) (d v i : ℕ) (dl : d < length p.page_directory_list) where
  abbrev new_table : ℕ → Entry
  new_table = update_page_directory_entry (directory p d) (i * 2 ^ 22) v user_flag

  abbrev taken : Paging
  taken = take_frame p d v i

  directory-taken : (e : ℕ) → directory taken e ≡ (if d == e then new_table else directory p e)
  unfolding take_frame
  directory-taken e = get_or-set p.page_directory_list d e new_table zero_directory dl

  -- A page after the call is the new one, with the frame, or is as it was.
  classify :
      (e k : ℕ)
      → i < 32
      → ((e ≡ d) × (k ≡ page_index v) × ((directory taken e k).lower_address ≡ i))
        ⊎ (directory taken e k ≡ directory p e k)
  unfolding update_page_directory_entry
  classify e k small = elim (Bool-cases (d == e)) [
    | inr other ↦
        let kept : (if d == e then new_table else directory p e) ≡ directory p e = rw other in
        inr (ap (λ t. t k) (directory-taken e ∙ kept))
    | inl same ↦
        let de : e ≡ d = ground arith in
        let new : (if d == e then new_table else directory p e) ≡ new_table = rw same in
        let t : directory taken e k ≡ new_table k = ap (λ t. t k) (directory-taken e ∙ new) in
        elim (Bool-cases (page_index v == k)) [
          | inl here ↦
              let hit : (new_table k).lower_address ≡ i * 2 ^ 22 / 2 ^ 22 % 1024 = rw here in
              inl (de, ground arith, ap (λ x. x.lower_address) t ∙ hit ∙ omega arith)
          | inr there ↦ inr (t ∙ rw there (ap (λ x. directory p x k) (sym de)))
        ]
  ]

module _ {p : Paging} (d v i : ℕ) (iso : IsIsolated p) (dl : d < 32)
    (found : first_free p.page_frame_map 0 ≡ some i) where
  abbrev z : Paging
  z = take_frame p d v i

  small : i < 32
  small = omega (arith, found_free p.page_frame_map i found, iso.frames)

  split :
      (e k : ℕ)
      → ((e ≡ d) × (k ≡ page_index v) × ((directory z e k).lower_address ≡ i))
        ⊎ (directory z e k ≡ directory p e k)
  split e k = classify p d v i (omega (arith, iso.directories)) e k small

  marked-z :
      (f : ℕ)
      → (f ≡ i) ⊎ (get_or p.page_frame_map f false ≡ true)
      → get_or z.page_frame_map f false ≡ true
  unfolding take_frame
  marked-z f h =
      ground (arith, get_or-set p.page_frame_map i f true false (omega (arith, small, iso.frames)))

  -- A page of before has another frame than the new one.
  old-ne : (e k : ℕ) → IsUser (directory p e k) → (directory p e k).lower_address ≢ i
  old-ne e k u same =
      let f = found_free p.page_frame_map i found in
      let m = iso.marked e k u in
      cc (sym f.1 ∙ get_or_default p.page_frame_map i true false f.0 ∙ rw same at m)

  take_frame-IsIsolated : IsIsolated z
  unfolding take_frame
  take_frame-IsIsolated = record {
    frames = length-set p.page_frame_map i true ∙ iso.frames;
    directories = length-set p.page_directory_list d _ ∙ iso.directories;
    in_map = λ e k u. elim (split e k) [
      | inl new ↦ omega (arith, new.2, small)
      | inr old ↦ rw old (iso.in_map e k (subst IsUser old u))
    ];
    marked = λ e k u. elim (split e k) [
      | inl new ↦ marked-z _ (inl new.2)
      | inr old ↦ rw old (marked-z _ (inr (iso.marked e k (subst IsUser old u))))
    ];
    apart = λ e k f l u w same. elim (split e k) [
      | inl new ↦ elim (split f l) [
        | inl new' ↦ (new.0 ∙ sym new'.0, new.1 ∙ sym new'.1)
        | inr old' ↦ absurd (
            old-ne f l (subst IsUser old' w)
              (ap (λ x. x.lower_address) (sym old') ∙ sym same ∙ new.2))
      ]
      | inr old ↦ elim (split f l) [
        | inl new' ↦
            absurd (
              old-ne e k (subst IsUser old u) (ap (λ x. x.lower_address) (sym old) ∙ same ∙ new'.2))
        | inr old' ↦
            iso.apart e k f l (subst IsUser old u) (subst IsUser old' w)
              (ap (λ x. x.lower_address) (sym old) ∙ same ∙ ap (λ x. x.lower_address) old')
      ]
    ];
  }

-- For a directory of the list, `paging_allocate_user_page_frame` keeps the pages of users apart: each
-- has a frame that is marked as used, and no two have the same, also where no frame is free.
pub allocate-IsIsolated :
    {p : Paging} (d v : ℕ)
    → IsIsolated p
    → d < 32
    → IsIsolated (paging_allocate_user_page_frame p d v).1
allocate-IsIsolated {p} d v iso dl = elim (Option-cases (first_free p.page_frame_map 0)) [
  | inl e ↦ rw (allocate-none p d v e) iso
  | inr (i, e) ↦ rw (allocate-some p d v i e) (take_frame-IsIsolated d v i iso dl e)
]
