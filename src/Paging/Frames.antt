-- ===== src/Paging/Frames.antt =====
-- The count of free page frames, paging.c, at allocation and release.
use mathlib.Core.Path.{subst}
use os_2024_doors.Base.{
  ℕ, zero, suc, ◌+◌, ◌-◌, ◌%◌, ◌^◌, ◌≤◌, ◌<◌, ◌≡◌, refl, sym, ◌∙◌, inl, inr, Bool, true, false, not,
  List, [], ◌∷◌, none, some, arith, ltb, lt→ltb, Option-cases, ok, length, get_or, set, count,
  length-set,
}
use os_2024_doors.Paging.{
  take_frame, Paging, zero_entry, directory, page_index, first_free, free_frame,
  paging_allocate_user_page_frame, paging_free_user_page_frame, set_entry,
}

-- The number of frames that are not in use.
abbrev pub free_count : List Bool → ℕ
free_count = count not

pub first_free-some :
    (bs : List Bool) (i k : ℕ)
    → first_free bs i ≡ some k
    → (i ≤ k) × (k - i < length bs) × (get_or bs (k - i) true ≡ false)
unfolding first_free
first_free-some [] i k h = absurd (ground arith)
first_free-some (false ∷ bs) i k h = ground arith
first_free-some (true ∷ bs) i k h =
    let r = first_free-some bs (i + 1) k h in
    let e : k - i ≡ suc (k - (i + 1)) = omega arith in (omega arith, omega arith, rw e r.2)

pub first_free-none : (bs : List Bool) (i : ℕ) → first_free bs i ≡ none → free_count bs ≡ 0
unfolding first_free
first_free-none [] i h = refl
first_free-none (false ∷ bs) i h = absurd (ground arith)
first_free-none (true ∷ bs) i h = omega (arith, first_free-none bs (i + 1) h)

pub free_count-use :
    (bs : List Bool) (i : ℕ)
    → i < length bs
    → get_or bs i true ≡ false
    → suc (free_count (set bs i true)) ≡ free_count bs
free_count-use [] i h e = elim h [ ]
free_count-use (b ∷ bs) zero h e = ground arith
free_count-use (b ∷ bs) (suc i) h e = omega (arith, free_count-use bs i (omega arith) e)

pub free_count-release :
    (bs : List Bool) (i : ℕ)
    → i < length bs
    → get_or bs i false ≡ true
    → free_count (set bs i false) ≡ suc (free_count bs)
free_count-release [] i h e = elim h [ ]
free_count-release (b ∷ bs) zero h e = ground arith
free_count-release (b ∷ bs) (suc i) h e = omega (arith, free_count-release bs i (omega arith) e)

pub free_count-le : (bs : List Bool) → free_count bs ≤ length bs
free_count-le [] = omega arith
free_count-le (b ∷ bs) = ground (arith, free_count-le bs)

-- The manager's count is the number of free frames.
pub record IsCounted (p : Paging) : Type 0 where
  pub frames : length p.page_frame_map ≡ 32
  pub counted : p.free_page_frame_count ≡ free_count p.page_frame_map

pub allocate-none :
    (p : Paging) (d v : ℕ)
    → first_free p.page_frame_map 0 ≡ none
    → paging_allocate_user_page_frame p d v ≡ (false, p)
unfolding paging_allocate_user_page_frame
allocate-none p d v e = rw (e, paging_allocate_user_page_frame)

pub allocate-some :
    (p : Paging) (d v i : ℕ)
    → first_free p.page_frame_map 0 ≡ some i
    → paging_allocate_user_page_frame p d v ≡ (true, take_frame p d v i)
unfolding paging_allocate_user_page_frame
allocate-some p d v i e = rw (e, paging_allocate_user_page_frame)

-- The frame that is found is free.
pub found_free :
    (bs : List Bool) (i : ℕ)
    → first_free bs 0 ≡ some i
    → (i < length bs) × (get_or bs i true ≡ false)
found_free bs i e =
    let f = first_free-some bs 0 i e in
    let same : i - 0 ≡ i = omega arith in
    (rw same at f.1, subst (λ k. get_or bs k true ≡ false) same f.2)

take_frame-IsCounted :
    (p : Paging) (d v i : ℕ)
    → IsCounted p
    → first_free p.page_frame_map 0 ≡ some i
    → IsCounted (take_frame p d v i)
      × (0 < p.free_page_frame_count)
      × ((take_frame p d v i).free_page_frame_count ≡ p.free_page_frame_count - 1)
unfolding take_frame
take_frame-IsCounted p d v i c e =
    let f = found_free p.page_frame_map i e in
    let used = free_count-use p.page_frame_map i f.0 f.1 in
    let le = free_count-le p.page_frame_map in
    (
      record {
        frames = length-set p.page_frame_map i true ∙ c.frames;
        counted = omega (arith, c.counted, c.frames);
      },
      omega (arith, c.counted),
      omega (arith, c.counted, c.frames),
    )

-- `paging_allocate_user_page_frame` keeps the count right; it succeeds exactly if a frame is free,
-- and then one frame fewer is free.
pub allocate-IsCounted :
    (p : Paging) (d v : ℕ)
    → IsCounted p
    → let (done, z) = paging_allocate_user_page_frame p d v in
      IsCounted z
      × (done ≡ ltb 0 p.free_page_frame_count)
      × (z.free_page_frame_count ≡ p.free_page_frame_count - 1)
allocate-IsCounted p d v c = elim (Option-cases (first_free p.page_frame_map 0)) [
  | inl e ↦ rw (allocate-none p d v e) (
    c,
    ground (arith, c.counted, first_free-none p.page_frame_map 0 e),
    omega (arith, c.counted, first_free-none p.page_frame_map 0 e),
  )
  | inr (i, e) ↦
      let t = take_frame-IsCounted p d v i c e in
      rw (allocate-some p d v i e) (t.0, sym (lt→ltb 0 p.free_page_frame_count t.1), t.2)
]

-- Releasing a present page whose frame is below 32 and in use returns true, keeps the count right,
-- and one frame more is free.
pub free-IsCounted :
    (p : Paging) (d v : ℕ)
    → IsCounted p
    → (directory p d (page_index v)).flag.present_bit ≡ true
    → (directory p d (page_index v)).lower_address < 32
    → get_or p.page_frame_map (directory p d (page_index v)).lower_address false ≡ true
    → (z : Paging) × (paging_free_user_page_frame p d v ≡ ok (true, z))
      × IsCounted z
      × (z.free_page_frame_count ≡ p.free_page_frame_count + 1)
unfolding paging_free_user_page_frame free_frame
free-IsCounted p d v c present lt used =
    let f = (directory p d (page_index v)).lower_address in
    let rel = free_count-release p.page_frame_map f (omega (arith, c.frames)) used in
    let len = length-set p.page_frame_map f false in
    let le = free_count-le (set p.page_frame_map f false) in
    (
      record p {
        page_frame_map = set p.page_frame_map f false;
        free_page_frame_count = (p.free_page_frame_count + 1) % 2 ^ 32;
        page_directory_list =
            set p.page_directory_list d (set_entry (directory p d) (page_index v) zero_entry);
      },
      rw present (rw (lt→ltb f (length p.page_frame_map) (omega (arith, c.frames)))),
      record { frames = len ∙ c.frames; counted = omega (arith, c.counted, c.frames) },
      omega (arith, c.counted, c.frames),
    )
