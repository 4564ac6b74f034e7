-- ===== src/Fat32/Store.antt =====
-- The loop of `write` that stores a file, fat32.c: the clusters that it links and what they hold.
use os_2024_doors.Base.{
  ℕ, zero, suc, ◌+◌, ◌*◌, ◌^◌, ◌≤◌, ◌<◌, ◌≡◌, ◌≢◌, refl, ◌∙◌, inl, inr, false, List, [], ◌∷◌, arith,
  ◌==◌, ltb, if◌then◌else◌, Bool-cases, ltb→lt, lt→ltb, length, get_or, set, get_or-set, length-set,
  length-tabulate,
}
use mathlib.Core.Path.{subst}
use os_2024_doors.Disk.{Disk}
use os_2024_doors.Fat32.Types.{Memory, fetch, end_of_file, cluster_size, empty_entry}
use os_2024_doors.Fat32.Driver.{read_clusters}
use os_2024_doors.Fat32.Write.{Alloc, take_cluster, alloc_step, alloc_loop}
use os_2024_doors.Fat32.Clusters.{
  cluster_limit, read_clusters-write_clusters, read_clusters-write_clusters_ne,
}
use os_2024_doors.Fat32.Chain.{Chain, has, InRange, has_of_lt, InRange-weaken}

-- How many of the `n` entries from `i` on are empty.
unfoldable pub free_from : ℕ → ℕ → List ℕ → ℕ
free_from zero i m = 0
free_from (suc n) i m =
    (if get_or m i end_of_file == empty_entry then 1 else 0) + free_from n (i + 1) m

-- The clusters hold the buffer from chunk `k` on.
abbrev pub Holds : Disk → Memory → ℕ → List ℕ → Type 0
Holds d buf k [] = Unit
Holds d buf k (c ∷ cs) =
    (read_clusters d c 1 ≡ fetch buf (k * cluster_size) cluster_size) × Holds d buf (k + 1) cs

-- The clusters were empty in the table.
abbrev pub Free : List ℕ → List ℕ → Type 0
Free m [] = Unit
Free m (c ∷ cs) = (get_or m c end_of_file ≡ empty_entry) × Free m cs

Free-set :
    (m : List ℕ) (c v i : ℕ) (cs : List ℕ)
    → InRange i cs
    → c < i
    → c < length m
    → Free (set m c v) cs
    → Free m cs
Free-set m c v i [] r h p f = tt
Free-set m c v i (x ∷ xs) r h p f =
    (ground (arith, get_or-set m c x v end_of_file p), Free-set m c v i xs r.1 h p f.1)

-- The table once the last cluster is marked as the end.
abbrev pub closed : Alloc → List ℕ
closed a = set a.map a.curr end_of_file

-- What the loop has done from `a`, at index `i`, when it stops at `z`.
pub record Stored (buf : Memory) (num i : ℕ) (a z : Alloc) : Type 0 where
  pub clusters : List ℕ
  pub free : Free a.map clusters
  pub total : a.idx + length clusters ≡ num
  pub range : InRange i clusters
  pub chain : Chain (closed z) (get_or (closed z) a.curr 0) clusters
  pub other_entries :
      (j : ℕ) → has j clusters ≡ false → j ≢ a.curr → get_or (closed z) j 0 ≡ get_or a.map j 0
  pub holds : Holds z.disk buf a.idx clusters
  pub other_clusters :
      (j : ℕ)
      → j < cluster_limit
      → has j clusters ≡ false
      → read_clusters z.disk j 1 ≡ read_clusters a.disk j 1
  pub entry : z.entry ≡ a.entry
  pub map_length : length z.map ≡ 512

free_from-set :
    (n i : ℕ) (m : List ℕ) (c v : ℕ)
    → c < i
    → c < length m
    → free_from n i (set m c v) ≡ free_from n i m
unfolding free_from
free_from-set zero i m c v h p = refl
free_from-set (suc n) i m c v h p =
    ground (arith, get_or-set m c i v end_of_file p, free_from-set n (i + 1) m c v (omega arith) p)

-- The state in which the loop goes on.
pub record Going (num n i : ℕ) (a : Alloc) : Type 0 where
  pub bounds : i + n ≡ 512
  pub map_length : length a.map ≡ 512
  pub curr_lt : a.curr < i
  pub idx_le : a.idx ≤ num
  pub room : num ≤ a.idx + free_from n i a.map

-- The first empty entry from `i` on starts the file.
pub record Placed (buf : Memory) (num i : ℕ) (a z : Alloc) : Type 0 where
  pub first : ℕ
  pub first_ge : i ≤ first
  pub first_lt : first < 512
  pub first_free : get_or a.map first end_of_file ≡ empty_entry
  pub stored : Stored buf num (first + 1) (take_cluster buf first a) z

module _ (buf : Memory) (num : ℕ) (small : num < 2 ^ 16) where
  stop :
      {i : ℕ} {a : Alloc} → length a.map ≡ 512 → a.curr < 512 → a.idx ≡ num → Stored buf num i a a
  stop {a} ml cl e = record {
    clusters = [];
    free = tt;
    total = omega arith;
    range = tt;
    chain = rw (get_or-set a.map a.curr a.curr end_of_file 0 (omega arith)) (ground arith);
    other_entries =
        λ j out ne. rw (get_or-set a.map a.curr j end_of_file 0 (omega arith)) (ground arith);
    holds = tt;
    other_clusters = λ j h out. refl;
    entry = refl;
    map_length = ml;
  }

  skip : {i : ℕ} {a z : Alloc} → Stored buf num (i + 1) a z → Stored buf num i a z
  skip {i} s = record {
    clusters = s.clusters;
    free = s.free;
    total = s.total;
    range = InRange-weaken (i + 1) i s.clusters s.range (omega arith);
    chain = s.chain;
    other_entries = s.other_entries;
    holds = s.holds;
    other_clusters = s.other_clusters;
    entry = s.entry;
    map_length = s.map_length;
  }

  module _ (i : ℕ) (a z : Alloc) (nz : a.curr ≢ 0) (lt : a.curr < i) (il : i < 512)
      (ml : length a.map ≡ 512) (s : Stored buf num (i + 1) (take_cluster buf i a) z) where
    taken_entry :
        (j : ℕ)
        → get_or (take_cluster buf i a).map j 0 ≡ (if a.curr == j then i else get_or a.map j 0)
    unfolding take_cluster
    taken_entry j = ground (arith, get_or-set a.map a.curr j i 0 (omega arith))

    next : get_or (closed z) a.curr 0 ≡ i
    unfolding take_cluster
    next =
        s.other_entries a.curr (has_of_lt (i + 1) a.curr s.clusters s.range (omega arith))
          (omega arith)
        ∙ ground (arith, taken_entry a.curr)

    link-Chain : Chain (closed z) (get_or (closed z) a.curr 0) (i ∷ s.clusters)
    unfolding take_cluster
    link-Chain =
        rw next (refl, omega (arith, length-set z.map z.curr end_of_file, s.map_length), s.chain)

    link_entries :
        (j : ℕ)
        → has j (i ∷ s.clusters) ≡ false
        → j ≢ a.curr
        → get_or (closed z) j 0 ≡ get_or a.map j 0
    unfolding take_cluster
    link_entries j out ne =
        s.other_entries j (ground arith) (ground arith) ∙ ground (arith, taken_entry j)

    link-Holds : a.idx < num → Holds z.disk buf a.idx (i ∷ s.clusters)
    unfolding take_cluster
    link-Holds more = (
      s.other_clusters i (omega arith) (has_of_lt (i + 1) i s.clusters s.range (omega arith))
          ∙ read_clusters-write_clusters a.disk (fetch buf (a.idx * cluster_size) cluster_size) i
              (length-tabulate cluster_size (a.idx * cluster_size) buf),
      subst (λ k. Holds z.disk buf k s.clusters) (omega arith) s.holds,
    )

    link_clusters :
        (j : ℕ)
        → j < cluster_limit
        → has j (i ∷ s.clusters) ≡ false
        → read_clusters z.disk j 1 ≡ read_clusters a.disk j 1
    unfolding take_cluster
    link_clusters j h out =
        s.other_clusters j h (ground arith)
        ∙ read_clusters-write_clusters_ne a.disk (fetch buf (a.idx * cluster_size) cluster_size) i j
            (omega arith) h (ground arith)

    taken_map : (take_cluster buf i a).map ≡ set a.map a.curr i
    unfolding take_cluster
    taken_map = ground arith

    link-Free : Free a.map s.clusters
    link-Free =
        Free-set a.map a.curr i (i + 1) s.clusters s.range (omega arith) (omega arith)
          (subst (λ m. Free m s.clusters) taken_map s.free)

    link : a.idx < num → get_or a.map i end_of_file ≡ empty_entry → Stored buf num i a z
    unfolding take_cluster
    link more empty = record {
      clusters = i ∷ s.clusters;
      free = (empty, link-Free);
      total = omega (arith, s.total);
      range = ((omega arith, il), InRange-weaken (i + 1) i s.clusters s.range (omega arith));
      chain = link-Chain;
      other_entries = link_entries;
      holds = link-Holds more;
      other_clusters = link_clusters;
      entry = s.entry ∙ ground arith;
      map_length = s.map_length;
    }

  curr-take : (i : ℕ) (a : Alloc) → (take_cluster buf i a).curr ≡ i
  unfolding take_cluster
  curr-take i a = refl

  Going-take :
      (n i : ℕ) (a : Alloc)
      → Going num (suc n) i a
      → a.idx < num
      → get_or a.map i end_of_file ≡ empty_entry
      → Going num n (i + 1) (take_cluster buf i a)
  unfolding take_cluster free_from
  Going-take n i a g more free = elim (Bool-cases (a.curr == 0)) [
    | inl none ↦ record {
      bounds = omega (arith, g.bounds);
      map_length = rw none g.map_length;
      curr_lt = omega arith;
      idx_le = omega arith;
      room = rw none (ground (arith, g.room));
    }
    | inr linked ↦ record {
      bounds = omega (arith, g.bounds);
      map_length = rw (linked, length-set a.map a.curr i) g.map_length;
      curr_lt = omega arith;
      idx_le = omega arith;
      room =
          rw
            (
              linked,
              free_from-set n (i + 1) a.map a.curr i (omega (arith, g.curr_lt))
                  (omega (arith, g.map_length, g.curr_lt, g.bounds)),
            )
            (ground (arith, g.room));
    }
  ]

  -- From any state that has linked a cluster already, with room for the rest of the file.
  pub alloc_loop-Stored :
      (n i : ℕ) (a : Alloc)
      → a.curr ≢ 0
      → Going num n i a
      → Stored buf num i a (alloc_loop n i num buf a)
  unfolding alloc_loop alloc_step free_from
  alloc_loop-Stored zero i a nz g =
      stop g.map_length (omega (arith, g.bounds, g.curr_lt)) (omega (arith, g.idx_le, g.room))
  alloc_loop-Stored (suc n) i a nz g = elim (Bool-cases (ltb a.idx num)) [
    | inl more ↦ elim (Bool-cases (get_or a.map i end_of_file == empty_entry)) [
      | inl free ↦
          rw (more, free)
            (link i a _ nz g.curr_lt (omega (arith, g.bounds)) g.map_length
              (alloc_loop-Stored n (i + 1) (take_cluster buf i a)
                (omega (arith, curr-take i a, g.curr_lt))
                (Going-take n i a g (ltb→lt _ _ more) (ground arith)))
              (ltb→lt _ _ more) (ground arith))
      | inr used ↦
          rw (more, used)
            (skip (
              alloc_loop-Stored n (i + 1) a nz (record {
                bounds = omega (arith, g.bounds);
                map_length = g.map_length;
                curr_lt = omega (arith, g.curr_lt);
                idx_le = g.idx_le;
                room = ground (arith, g.room, used);
              })))
    ]
    | inr done ↦
        rw done (stop g.map_length (omega (arith, g.bounds, g.curr_lt)) (ground (arith, g.idx_le)))
  ]

  pub alloc_loop-Placed :
      (n i : ℕ) (a : Alloc)
      → a.curr ≡ 0
      → a.idx < num
      → 0 < i
      → Going num n i a
      → Placed buf num i a (alloc_loop n i num buf a)
  unfolding alloc_loop alloc_step free_from
  alloc_loop-Placed zero i a z more pos g = absurd (omega (arith, g.room))
  alloc_loop-Placed (suc n) i a z more pos g =
      elim (Bool-cases (get_or a.map i end_of_file == empty_entry)) [
        | inl free ↦
            rw (lt→ltb _ _ more, free)
              (record {
                first = i;
                first_ge = omega arith;
                first_lt = omega (arith, g.bounds);
                first_free = ground arith;
                stored =
                    alloc_loop-Stored n (i + 1) (take_cluster buf i a)
                      (omega (arith, curr-take i a)) (Going-take n i a g more (ground arith));
              })
        | inr used ↦
            rw (lt→ltb _ _ more, used)
              (later (
                alloc_loop-Placed n (i + 1) a z more (omega arith) (record {
                  bounds = omega (arith, g.bounds);
                  map_length = g.map_length;
                  curr_lt = omega (arith, g.curr_lt);
                  idx_le = g.idx_le;
                  room = ground (arith, g.room, used);
                })))
      ]
    where
      later : {w : Alloc} → Placed buf num (i + 1) a w → Placed buf num i a w
      later p = record {
        first = p.first;
        first_ge = omega (arith, p.first_ge);
        first_lt = p.first_lt;
        first_free = p.first_free;
        stored = p.stored;
      }
