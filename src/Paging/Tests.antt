-- ===== src/Paging/Tests.antt =====
-- Examples for the page frames and page directories of paging.c.
use os_2024_doors.Base.{
  sym, ◌≢◌, ℕ, ◌+◌, ◌-◌, ◌^◌, ◌≡◌, refl, ap, ◌∙◌, true, false, ltb, arith, ok, get_or-replicate,
}
use os_2024_doors.Paging.{
  Paging, initial, directory, zero_directory, first_free, take_frame, update_page_directory_entry,
  paging_allocate_user_page_frame, paging_free_user_page_frame,
}
use os_2024_doors.Paging.Frames.{IsCounted, allocate-IsCounted, free-IsCounted}
use os_2024_doors.Paging.Release.{free-IsIsolated}
use os_2024_doors.Paging.Isolation.{IsUser, IsIsolated, allocate-IsIsolated}

initial-IsCounted : IsCounted initial
initial-IsCounted = record { frames = refl; counted = refl }

no_user : (d j : ℕ) → IsUser (directory initial d j) → false ≡ true
no_user d j u =
    ap (λ t. (t j).flag.present_bit) (sym (get_or-replicate 32 d zero_directory)) ∙ u.present

initial-IsIsolated : IsIsolated initial
initial-IsIsolated = record {
  frames = refl;
  directories = refl;
  in_map = λ d j u. absurd (false_true (no_user d j u));
  marked = λ d j u. absurd (false_true (no_user d j u));
  apart = λ d j e k u v same. absurd (false_true (no_user d j u));
}
  where
    false_true : false ≢ true
    false_true h = cc

-- The state once a page at 4 MiB is one_mapped in directory 3.
unfoldable one_mapped : Paging
unfolding paging_allocate_user_page_frame first_free take_frame update_page_directory_entry
one_mapped = (paging_allocate_user_page_frame initial 3 (2 ^ 22)).1

mapped_lem : (directory one_mapped 3 1).lower_address ≡ 1
unfolding one_mapped
mapped_lem = refl

one_mapped-IsCounted : IsCounted one_mapped
unfolding one_mapped
one_mapped-IsCounted = record { frames = refl; counted = refl }

allocate-IsCounted_example :
    let (done, z) = paging_allocate_user_page_frame initial 3 (2 ^ 22) in
    IsCounted z
    × (done ≡ ltb 0 initial.free_page_frame_count)
    × (z.free_page_frame_count ≡ initial.free_page_frame_count - 1)
allocate-IsCounted_example = allocate-IsCounted initial 3 (2 ^ 22) initial-IsCounted

free-IsCounted_example :
    (z : Paging) × (paging_free_user_page_frame one_mapped 3 (2 ^ 22) ≡ ok (true, z))
    × IsCounted z
    × (z.free_page_frame_count ≡ one_mapped.free_page_frame_count + 1)
unfolding one_mapped
free-IsCounted_example =
    free-IsCounted one_mapped 3 (2 ^ 22) one_mapped-IsCounted refl (omega arith) refl

allocate-IsIsolated_example : IsIsolated (paging_allocate_user_page_frame initial 3 (2 ^ 22)).1
allocate-IsIsolated_example = allocate-IsIsolated 3 (2 ^ 22) initial-IsIsolated (omega arith)

one_mapped-IsIsolated : IsIsolated one_mapped
unfolding one_mapped
one_mapped-IsIsolated = allocate-IsIsolated 3 (2 ^ 22) initial-IsIsolated (omega arith)

one_mapped-IsUser : IsUser (directory one_mapped 3 1)
unfolding one_mapped
one_mapped-IsUser = record { present = refl; user = refl }

free-IsIsolated_example :
    (z : Paging) × (paging_free_user_page_frame one_mapped 3 (2 ^ 22) ≡ ok (true, z)) × IsIsolated z
free-IsIsolated_example =
    free-IsIsolated one_mapped 3 (2 ^ 22) one_mapped-IsIsolated (omega arith) one_mapped-IsUser
