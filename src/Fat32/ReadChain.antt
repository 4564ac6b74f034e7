-- ===== src/Fat32/ReadChain.antt =====
-- The loop of `read` that follows a file's clusters, fat32.c.
use os_2024_doors.Base.{
  ℕ, zero, suc, ◌+◌, ◌-◌, ◌*◌, ◌≤◌, ◌<◌, ◌≡◌, ap, ◌∙◌, false, List, [], ◌∷◌, arith, ◌==◌, ltb,
  if◌then◌else◌, ok, length, get_or, get_elem?-eq-get_or, length-tabulate, get_or-tabulate,
}
use os_2024_doors.Disk.{Disk}
use os_2024_doors.Fat32.Types.{Memory, fetch, store, get_fat, cluster_size, end_of_file}
use os_2024_doors.Fat32.Driver.{read_clusters}
use os_2024_doors.Fat32.Find.{read_chain}
use os_2024_doors.Fat32.Chain.{Chain}
use os_2024_doors.Fat32.Store.{Holds}

-- The memory once the clusters are read to it, from chunk `k` on.
unfoldable pub loaded : Disk → ℕ → List ℕ → Memory → Memory
loaded d k [] m = m
loaded d k (c ∷ cs) m = loaded d (k + 1) cs (store m (cluster_size * k) (read_clusters d c 1))

pub get_fat-ok : (m : List ℕ) (c : ℕ) → c < length m → get_fat m c ≡ ok (get_or m c 0)
unfolding get_fat
get_fat-ok m c h = rw (get_fat, get_elem?-eq-get_or m c 0 h)

-- On a chain that the fuel exceeds, the loop ends and has read every cluster.
pub read_chain-loaded :
    (fuel : ℕ) (map : List ℕ) (d : Disk) (c k : ℕ) (m : Memory) (cs : List ℕ)
    → length map ≡ 512
    → Chain map c cs
    → length cs < fuel
    → read_chain fuel map d c k m ≡ ok (loaded d k cs m)
unfolding read_chain loaded
read_chain-loaded zero map d c k m cs ml ch h = absurd (omega arith)
read_chain-loaded (suc fuel) map d c k m [] ml ch h = ground arith
read_chain-loaded (suc fuel) map d c k m (x ∷ xs) ml (e, lt, t) h =
    rw (going, get_fat-ok map c lt, e)
      (read_chain-loaded fuel map d (get_or map c 0) (k + 1)
        (store m (cluster_size * k) (read_clusters d c 1)) xs ml t (omega arith))
  where
    going : (c == end_of_file) ≡ false
    going = ground arith

store_inside :
    (buf m : Memory) (o n a : ℕ) → o ≤ a → a < o + n → store m o (fetch buf o n) a ≡ buf a
unfolding store
store_inside buf m o n a lo hi =
    ground (arith, length-tabulate n o buf, get_or-tabulate n o (a - o) buf 0 (omega arith), same)
  where
    same : buf (o + (a - o)) ≡ buf a
    same = ap buf (omega arith)

store_before : (buf m : Memory) (o n a : ℕ) → a < o → store m o (fetch buf o n) a ≡ m a
unfolding store
store_before buf m o n a h = ground arith

-- Where the clusters hold a buffer, that buffer is what the memory holds then, and nothing before
-- it is written.
pub loaded-Holds :
    (d : Disk) (buf : Memory) (k : ℕ) (cs : List ℕ) (m : Memory) (a : ℕ)
    → Holds d buf k cs
    → a < cluster_size * (k + length cs)
    → loaded d k cs m a ≡ (if ltb a (cluster_size * k) then m a else buf a)
unfolding loaded
loaded-Holds d buf k [] m a h lt = ground arith
loaded-Holds d buf k (c ∷ cs) m a (e, h) lt =
    rw (e, same)
      (loaded-Holds d buf (k + 1) cs (store m (cluster_size * k) chunk) a h (omega arith)
        ∙ ground (
          arith,
          store_inside buf m (cluster_size * k) cluster_size a,
          store_before buf m (cluster_size * k) cluster_size a,
        ))
  where
    chunk : List ℕ
    chunk = fetch buf (cluster_size * k) cluster_size

    same : fetch buf (k * cluster_size) cluster_size ≡ chunk
    same = ap (λ o. fetch buf o cluster_size) (omega arith)
