-- ===== src/Paging/Release.antt =====
-- The page frames of users' pages, paging.c, and their release.
use os_2024_doors.Base.{
  ℕ, ◌%◌, ◌+◌, ◌^◌, ◌<◌, ◌≡◌, ◌≢◌, inl, inr, refl, sym, ap, ◌∙◌, true, false, arith, ◌==◌,
  Bool-cases, ok, length, get_or, set, length-set, get_or-set_cases, lt→ltb, ==_iff,
}
use mathlib.Core.Path.{subst}
use os_2024_doors.Paging.{
  Paging, directory, zero_directory, zero_entry, set_entry, page_index, free_frame,
  paging_free_user_page_frame,
}
use os_2024_doors.Paging.Isolation.{IsUser, IsIsolated}

module _ (p : Paging) (d v : ℕ) (iso : IsIsolated p) (dl : d < 32)
    (user : IsUser (directory p d (page_index v))) where
  abbrev f : ℕ
  f = (directory p d (page_index v)).lower_address

  -- The state after the release.
  abbrev pub released : Paging
  released = record p {
    page_frame_map = set p.page_frame_map f false;
    free_page_frame_count = (p.free_page_frame_count + 1) % 2 ^ 32;
    page_directory_list =
        set p.page_directory_list d (set_entry (directory p d) (page_index v) zero_entry);
  }

  f_lt : f < 32
  f_lt = iso.in_map d (page_index v) user

  free-released : paging_free_user_page_frame p d v ≡ ok (true, released)
  unfolding paging_free_user_page_frame free_frame
  free-released =
      rw user.present
        (rw (lt→ltb f (length p.page_frame_map) (omega (arith, f_lt, iso.frames))) refl)

  -- What is a user's page then was one before, and not the released one.
  old_page :
      (e k : ℕ)
      → IsUser (directory released e k)
      → (directory released e k ≡ directory p e k) × (((d ≡ e) × (page_index v ≡ k)) → false ≡ true)
  old_page e k u =
      elim (get_or-set_cases p.page_directory_list d e
        (set_entry (directory p d) (page_index v) zero_entry) zero_directory
        (omega (arith, dl, iso.directories))) [
          | inr (ne, at) ↦ (ap (λ t. t k) at, λ h. absurd (ne h.0))
          | inl (same, at) ↦ elim (Bool-cases (page_index v == k)) [
            | inl hit ↦
                let gone : directory released e k ≡ zero_entry = ap (λ t. t k) at ∙ pick k hit in
                absurd (bool_apart (ap (λ x. x.flag.present_bit) (sym gone) ∙ u.present))
            | inr miss ↦ (
              ap (λ t. t k) at ∙ keep k miss ∙ ap (λ x. directory p x k) same,
              λ h. cc (sym ((==_iff (page_index v) k).1 h.1) ∙ miss),
            )
          ]
        ]
    where
      bool_apart : false ≢ true
      bool_apart h = cc

      pick :
          (k : ℕ)
          → (page_index v == k) ≡ true
          → set_entry (directory p d) (page_index v) zero_entry k ≡ zero_entry
      pick k h = rw h refl

      keep :
          (k : ℕ)
          → (page_index v == k) ≡ false
          → set_entry (directory p d) (page_index v) zero_entry k ≡ directory p d k
      keep k h = rw h refl

  -- The frame of another page of a user is not the one that is released.
  other_frame : (e k : ℕ) → IsUser (directory released e k) → f ≢ (directory p e k).lower_address
  other_frame e k u same =
      let o = old_page e k u in
      let h = iso.apart d (page_index v) e k user (subst IsUser o.0 u) same in cc (o.1 h)

  released-IsIsolated : IsIsolated released
  released-IsIsolated = record {
    frames = length-set p.page_frame_map f false ∙ iso.frames;
    directories = length-set p.page_directory_list d _ ∙ iso.directories;
    in_map = λ e k u. let o = old_page e k u in rw o.0 (iso.in_map e k (subst IsUser o.0 u));
    marked = λ e k u.
        let o = old_page e k u in
        rw o.0 (
          still_marked (directory p e k).lower_address (other_frame e k u)
            (iso.marked e k (subst IsUser o.0 u)));
    apart = λ e k g l u w same.
        let o = old_page e k u in
        let o' = old_page g l w in
        iso.apart e k g l (subst IsUser o.0 u) (subst IsUser o'.0 w)
          (ap (λ x. x.lower_address) (sym o.0) ∙ same ∙ ap (λ x. x.lower_address) o'.0);
  }
    where
      still_marked :
          (b : ℕ)
          → f ≢ b
          → get_or p.page_frame_map b false ≡ true
          → get_or (set p.page_frame_map f false) b false ≡ true
      still_marked b ne h =
          elim (get_or-set_cases p.page_frame_map f b false false
            (omega (arith, f_lt, iso.frames))) [
              | inl (same, at) ↦ absurd (ne same)
              | inr (ne', at) ↦ at ∙ h
            ]

  -- Releasing a page of a user in a directory of the list returns true and keeps the pages of users
  -- apart: each still has a frame that is marked as used, and no two have the same.
  pub free-IsIsolated :
      (z : Paging) × (paging_free_user_page_frame p d v ≡ ok (true, z)) × IsIsolated z
  free-IsIsolated = (released, free-released, released-IsIsolated)
