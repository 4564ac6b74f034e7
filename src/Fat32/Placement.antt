-- ===== src/Fat32/Placement.antt =====
-- Where `write` puts a file, fat32.c: the chain of clusters, their contents and the entry, once the
-- storing loop is through.
use os_2024_doors.Base.{
  ℕ, zero, suc, ◌+◌, ◌*◌, ◌≤◌, ◌<◌, ◌≡◌, ◌≢◌, refl, ◌∙◌, false, List, [], ◌∷◌, arith, length,
  get_or, length-set, length-tabulate,
}
use os_2024_doors.Disk.{Disk}
use os_2024_doors.Fat32.Types.{
  DirectoryEntry, Memory, fetch, set_cluster, end_of_file, empty_entry, cluster_size,
}
use os_2024_doors.Fat32.Driver.{read_clusters, write_clusters}
use os_2024_doors.Fat32.Write.{Alloc, take_cluster, alloc_loop, num_of_cluster}
use os_2024_doors.Fat32.Clusters.{
  cluster_limit, read_clusters-write_clusters, read_clusters-write_clusters_ne,
}
use os_2024_doors.Fat32.Chain.{Chain, has, InRange, has_of_lt, InRange-weaken}
use os_2024_doors.Fat32.Store.{free_from, Holds, Free, closed, Placed, alloc_loop-Placed}

pub free_from-le : (n i : ℕ) (m : List ℕ) → free_from n i m ≤ n
unfolding free_from
free_from-le zero i m = omega arith
free_from-le (suc n) i m = ground (arith, free_from-le n (i + 1) m)

-- A cluster whose entry is not empty is not among those that were free.
pub has_of_Free :
    (m : List ℕ) (j : ℕ) (cs : List ℕ)
    → Free m cs
    → get_or m j end_of_file ≢ empty_entry
    → has j cs ≡ false
has_of_Free m j [] f ne = refl
has_of_Free m j (c ∷ cs) f ne = ground (arith, has_of_Free m j cs f.1 ne)

-- Writing another cluster leaves the file's contents.
pub Holds-write :
    (d : Disk) (buf : Memory) (bytes : List ℕ) (j k i : ℕ) (cs : List ℕ)
    → InRange i cs
    → j < 512
    → has j cs ≡ false
    → Holds d buf k cs
    → Holds (write_clusters d bytes j 1) buf k cs
Holds-write d buf bytes j k i [] r lt out h = tt
Holds-write d buf bytes j k i (c ∷ cs) r lt out h = (
  read_clusters-write_clusters_ne d bytes j c (omega arith) (omega (arith, r.0)) (ground arith)
      ∙ h.0,
  Holds-write d buf bytes j (k + 1) i cs r.1 lt (ground arith) h.1,
)

-- The number of clusters is enough for the size, and as many as that.
pub num_of_cluster_lem :
    (size free : ℕ)
    → 0 < size
    → size ≤ cluster_size * free
    → free ≤ 509
    → (0 < num_of_cluster size)
      × (num_of_cluster size ≤ free)
      × (size ≤ cluster_size * num_of_cluster size)
unfolding num_of_cluster
num_of_cluster_lem size free pos fits le = ground arith

abbrev pub start : List ℕ → DirectoryEntry → Disk → Alloc
start m e d = record { map = m; entry = e; disk = d; idx = 0; curr = 0 }

-- The file that the loop leaves.
pub record Placement (m : List ℕ) (e : DirectoryEntry) (d : Disk) (buf : Memory) (size : ℕ)
    (z : Alloc) : Type 0 where
  pub first : ℕ
  pub others : List ℕ
  pub total : size ≤ cluster_size * length (first ∷ others)
  pub few : length (first ∷ others) ≤ 509
  pub range : InRange 3 (first ∷ others)
  pub free : Free m (first ∷ others)
  pub chain : Chain (closed z) first (first ∷ others)
  pub other_entries :
      (j : ℕ) → has j (first ∷ others) ≡ false → get_or (closed z) j 0 ≡ get_or m j 0
  pub holds : Holds z.disk buf 0 (first ∷ others)
  pub other_clusters :
      (j : ℕ)
      → j < cluster_limit
      → has j (first ∷ others) ≡ false
      → read_clusters z.disk j 1 ≡ read_clusters d j 1
  pub entry : z.entry ≡ set_cluster (record e { attribute = 0 }) first
  pub closed_length : length (closed z) ≡ 512

module _ (m : List ℕ) (e : DirectoryEntry) (d : Disk) (buf : Memory) (size : ℕ) where
  -- The start, the link to it and the rest of the chain.
  placed :
      {z : Alloc}
      → size ≤ cluster_size * num_of_cluster size
      → num_of_cluster size ≤ 509
      → Placed buf (num_of_cluster size) 3 (start m e d) z
      → length m ≡ 512
      → Placement m e d buf size z
  unfolding take_cluster
  placed {z} le few p ml = record {
    first = first;
    others = s.clusters;
    total = omega (arith, s.total);
    few = omega (arith, s.total);
    range = (
      (p.first_ge, p.first_lt),
      InRange-weaken (first + 1) 3 s.clusters s.range (omega (arith, p.first_ge)),
    );
    free = (p.first_free, s.free);
    chain = (refl, omega (arith, closed_length, p.first_lt), s.chain);
    other_entries = λ j out. s.other_entries j (ground arith) (ground arith);
    holds = (
      s.other_clusters first (omega (arith, p.first_lt))
            (has_of_lt (first + 1) first s.clusters s.range (omega arith))
          ∙ read_clusters-write_clusters d (fetch buf 0 cluster_size) first
              (length-tabulate cluster_size 0 buf),
      s.holds,
    );
    other_clusters = λ j h out.
        s.other_clusters j h (ground arith)
        ∙ read_clusters-write_clusters_ne d (fetch buf 0 cluster_size) first j
            (omega (arith, p.first_lt)) h (ground arith);
    entry = s.entry;
    closed_length = closed_length;
  }
    where
      open p use {first, stored as s}

      closed_length : length (closed z) ≡ 512
      closed_length = length-set z.map z.curr end_of_file ∙ s.map_length

  -- With room for the whole file the loop places it.
  pub alloc_loop-Placement :
      length m ≡ 512
      → 0 < size
      → size ≤ cluster_size * free_from 509 3 m
      → Placement m e d buf size (alloc_loop 509 3 (num_of_cluster size) buf (start m e d))
  alloc_loop-Placement ml pos fits =
      placed n.2 (omega (arith, n.1, few))
        (alloc_loop-Placed buf (num_of_cluster size) (omega (arith, n.1, few)) 509 3 (start m e d)
          refl n.0 (omega arith)
          (record {
            bounds = refl;
            map_length = ml;
            curr_lt = omega arith;
            idx_le = omega arith;
            room = omega (arith, n.1);
          }))
        ml
    where
      few : free_from 509 3 m ≤ 509
      few = free_from-le 509 3 m

      n :
          (0 < num_of_cluster size)
          × (num_of_cluster size ≤ free_from 509 3 m)
          × (size ≤ cluster_size * num_of_cluster size)
      n = num_of_cluster_lem size (free_from 509 3 m) pos fits few
