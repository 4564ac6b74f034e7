-- ===== src/Fat32/Clusters.antt =====
-- What `read_clusters` reads after `write_clusters`, fat32.c.
use os_2024_doors.Base.{
  ℕ, ◌+◌, ◌%◌, ◌^◌, ◌≤◌, ◌<◌, ◌≡◌, ◌≢◌, ◌⊎◌, inl, inr, List, arith, length, dec_lt,
}
use os_2024_doors.Disk.{Disk, read_blocks, write_blocks}
use os_2024_doors.Disk.Transfer.{
  addressed-task_file, read_sectors-write_sectors, read_sectors-write_sectors_ne,
}
use os_2024_doors.Fat32.Driver.{cluster_to_lba, read_clusters, write_clusters}

-- The clusters that the 28 bits of an address reach.
abbrev pub cluster_limit : ℕ
cluster_limit = 2 ^ 26

-- A written cluster of 2048 bytes is read back.
pub read_clusters-write_clusters :
    (d : Disk) (bytes : List ℕ) (c : ℕ)
    → length bytes ≡ 2048
    → read_clusters (write_clusters d bytes c 1) c 1 ≡ bytes
unfolding read_clusters write_clusters read_blocks write_blocks
read_clusters-write_clusters d bytes c h =
    rw addressed-task_file (rw addressed-task_file (read_sectors-write_sectors 4 d _ bytes h))

-- The four blocks of two clusters do not meet.
two_clusters :
    (c k : ℕ)
    → c < cluster_limit
    → k < cluster_limit
    → c ≢ k
    → (cluster_to_lba k % 2 ^ 28 + 4 ≤ cluster_to_lba c % 2 ^ 28)
      ⊎ (cluster_to_lba c % 2 ^ 28 + 4 ≤ cluster_to_lba k % 2 ^ 28)
two_clusters c k hc hk ne = elim (dec_lt k c) [
  | yes h ↦ inl (omega arith)
  | no h ↦ inr (omega arith)
]

-- For clusters that the 28 bits of an address reach, writing one leaves every other as it was.
pub read_clusters-write_clusters_ne :
    (d : Disk) (bytes : List ℕ) (c k : ℕ)
    → c < cluster_limit
    → k < cluster_limit
    → c ≢ k
    → read_clusters (write_clusters d bytes c 1) k 1 ≡ read_clusters d k 1
unfolding read_clusters write_clusters read_blocks write_blocks
read_clusters-write_clusters_ne d bytes c k hc hk ne = rw addressed-task_file (
    rw addressed-task_file
      (read_sectors-write_sectors_ne 4 4 d _ _ bytes (two_clusters c k hc hk ne)))
