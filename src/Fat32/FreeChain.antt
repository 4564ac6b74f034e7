-- ===== src/Fat32/FreeChain.antt =====
-- The loop of `delete` and `rec_delete` that gives a file's clusters back, fat32.c.
use os_2024_doors.Base.{
  All, All-set, ℕ, zero, suc, ◌<◌, ◌≡◌, refl, sym, ◌∙◌, inl, inr, Bool, true, false, ◌||◌, List, [],
  ◌∷◌, arith, ◌==◌, lt→ltb, if◌then◌else◌, Bool-cases, ok, length, get_or, set, get_or-set,
  length-set, length-replicate,
}
use os_2024_doors.Disk.{Disk}
use os_2024_doors.Fat32.Types.{State, set_fat, end_of_file, empty_entry, cluster_size}
use os_2024_doors.Fat32.Driver.{read_clusters, write_clusters}
use os_2024_doors.Fat32.Find.{chain_fuel}
use os_2024_doors.Fat32.Delete.{zero_cluster, free_chain, free_file}
use os_2024_doors.Fat32.Clusters.{
  cluster_limit, read_clusters-write_clusters, read_clusters-write_clusters_ne,
}
use os_2024_doors.Fat32.Chain.{Chain, has, Distinct, Chain-set}
use os_2024_doors.Fat32.Finite.{Chain-Distinct, length-Chain}
use os_2024_doors.Fat32.ReadChain.{get_fat-ok}

-- The table with the entries of the list empty, and the disk with those clusters cleared.
unfoldable pub freed_map : List ℕ → List ℕ → List ℕ
freed_map m [] = m
freed_map m (c ∷ cs) = freed_map (set m c empty_entry) cs

unfoldable pub freed_disk : Disk → List ℕ → Disk
freed_disk d [] = d
freed_disk d (c ∷ cs) = freed_disk (write_clusters d zero_cluster c 1) cs

set_fat-ok : (m : List ℕ) (c v : ℕ) → c < length m → set_fat m c v ≡ ok (set m c v)
unfolding set_fat
set_fat-ok m c v h = rw (lt→ltb c (length m) h)

free_chain-freed :
    (fuel : ℕ) (m : List ℕ) (d : Disk) (c : ℕ) (cs : List ℕ)
    → length m ≡ 512
    → Chain m c cs
    → Distinct cs
    → length cs < fuel
    → free_chain fuel m d c ≡ ok (freed_map m cs, freed_disk d cs)
unfolding free_chain freed_map freed_disk
free_chain-freed zero m d c cs ml ch di h = absurd (omega arith)
free_chain-freed (suc fuel) m d c [] ml ch di h = ground arith
free_chain-freed (suc fuel) m d c (x ∷ xs) ml (e, lt, t) di h =
    rw (going, get_fat-ok m c lt, set_fat-ok m c empty_entry lt, e)
      (free_chain-freed fuel (set m c empty_entry) (write_clusters d zero_cluster c 1)
        (get_or m c 0) xs (length-set m c empty_entry ∙ ml)
        (Chain-set m c (get_or m c 0) empty_entry xs t lt (rw (sym e) di.0)) di.1 (omega arith))
  where
    going : (c == end_of_file) ≡ false
    going = ground arith

-- On a chain that ends, the loop ends too, and has freed its clusters.
pub free_file-freed :
    (s : State) (c : ℕ) (cs : List ℕ)
    → length s.cluster_map ≡ 512
    → Chain s.cluster_map c cs
    → free_file s c
      ≡ ok (record s { cluster_map = freed_map s.cluster_map cs; disk = freed_disk s.disk cs })
unfolding free_file
free_file-freed s c cs ml ch = rw (
    free_chain-freed chain_fuel s.cluster_map s.disk c cs ml ch
      (Chain-Distinct s.cluster_map c cs ml ch)
      (omega (arith, length-Chain s.cluster_map c cs ml ch)))

pub length-freed_map : (m cs : List ℕ) → length (freed_map m cs) ≡ length m
unfolding freed_map
length-freed_map m [] = refl
length-freed_map m (c ∷ cs) = length-freed_map (set m c empty_entry) cs ∙ length-set m c empty_entry

pub All-freed_map :
    (P : ℕ → Type 0) (m cs : List ℕ) → P empty_entry → All P m → All P (freed_map m cs)
unfolding freed_map
All-freed_map P m [] e h = h
All-freed_map P m (c ∷ cs) e h =
    All-freed_map P (set m c empty_entry) cs e (All-set P m c empty_entry h e)

abbrev pub InTable : List ℕ → Type 0
InTable [] = Unit
InTable (c ∷ cs) = (c < 512) × InTable cs

-- Exactly the entries of the list are empty now.
pub get_or-freed_map :
    (m cs : List ℕ) (j : ℕ)
    → length m ≡ 512
    → InTable cs
    → get_or (freed_map m cs) j 0 ≡ (if has j cs then empty_entry else get_or m j 0)
unfolding freed_map
get_or-freed_map m [] j ml h = refl
get_or-freed_map m (c ∷ cs) j ml h =
    get_or-freed_map (set m c empty_entry) cs j (length-set m c empty_entry ∙ ml) h.1
    ∙ ground (arith, get_or-set m c j empty_entry 0 (omega arith))

length-zero_cluster : length zero_cluster ≡ 2048
unfolding zero_cluster
length-zero_cluster = length-replicate {A = ℕ} cluster_size 0

read_clusters-cleared :
    (d : Disk) (c j : ℕ)
    → c < cluster_limit
    → j < cluster_limit
    → read_clusters (write_clusters d zero_cluster c 1) j 1
      ≡ (if j == c then zero_cluster else read_clusters d j 1)
read_clusters-cleared d c j hc hj = elim (Bool-cases (j == c)) [
  | inl same ↦
      let e : j ≡ c = ground arith in
      rw same (rw e (read_clusters-write_clusters d zero_cluster c length-zero_cluster))
  | inr other ↦ rw other (read_clusters-write_clusters_ne d zero_cluster c j hc hj (ground arith))
]

either_way {ℓ} :
    {A : Type ℓ} (p q : Bool) (x y : A)
    → (if p then x else (if q then x else y)) ≡ (if q || p then x else y)
either_way true true x y = refl
either_way true false x y = refl
either_way false true x y = refl
either_way false false x y = refl

-- Exactly the clusters of the list are cleared.
pub read_clusters-freed_disk :
    (d : Disk) (cs : List ℕ) (j : ℕ)
    → InTable cs
    → j < cluster_limit
    → read_clusters (freed_disk d cs) j 1 ≡ (if has j cs then zero_cluster else read_clusters d j 1)
unfolding freed_disk
read_clusters-freed_disk d [] j h lt = refl
read_clusters-freed_disk d (c ∷ cs) j h lt =
    read_clusters-freed_disk (write_clusters d zero_cluster c 1) cs j h.1 lt
    ∙ rw (read_clusters-cleared d c j (omega (arith, h.0)) lt)
        (either_way (has j cs) (j == c) zero_cluster (read_clusters d j 1))

pub Chain-InTable : (m : List ℕ) (c : ℕ) (cs : List ℕ) → length m ≡ 512 → Chain m c cs → InTable cs
Chain-InTable m c [] ml h = tt
Chain-InTable m c (x ∷ xs) ml (e, lt, t) = (omega arith, Chain-InTable m (get_or m c 0) xs ml t)
