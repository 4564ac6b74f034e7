-- ===== src/Fat32/Format.antt =====
-- Mounting, by `initialize_filesystem_fat32` of fat32.c, of a disk that `create_fat32` has formatted.
use os_2024_doors.Base.{
  ℕ, zero, suc, ◌%◌, ◌^◌, ◌<◌, ◌≡◌, refl, ap, ◌∙◌, inl, false, List, [], ◌∷◌, arith, pos, length,
  All, All-replicate,
}
use mathlib.Core.Path.{subst}
use os_2024_doors.Strings.{memcmp}
use os_2024_doors.Disk.{Disk, read_blocks, write_blocks}
use os_2024_doors.Disk.Transfer.{
  addressed-task_file, read_sectors-write_sectors, read_sectors-write_sectors_ne,
}
use os_2024_doors.Fat32.Types.{State, boot_sector}
use os_2024_doors.Fat32.Layout.{encode_fat, decode_fat}
use os_2024_doors.Fat32.Driver.{
  fs_signature, cluster_to_lba, read_clusters, write_clusters, save_dir, save_fat, is_empty_storage,
  initial_map, create_fat32, initialize_filesystem_fat32,
}
use os_2024_doors.Fat32.Clusters.{cluster_limit, read_clusters-write_clusters}
use os_2024_doors.Fat32.Codec.{decode_fat-encode_fat, length-encode_fat}

memcmp_refl : (n : ℕ) (xs : List ℕ) → memcmp xs xs n ≡ pos 0
unfolding memcmp
memcmp_refl zero xs = refl
memcmp_refl (suc n) [] = refl
memcmp_refl (suc n) (x ∷ xs) = ground (arith, memcmp_refl n xs)

-- The boot sector is no part of a cluster but the first.
boot-write_clusters :
    (d : Disk) (bytes : List ℕ) (c : ℕ)
    → 0 < c
    → c < cluster_limit
    → read_blocks (write_clusters d bytes c 1) boot_sector 1 ≡ read_blocks d boot_sector 1
unfolding read_blocks write_clusters write_blocks
boot-write_clusters d bytes c ge lt = rw addressed-task_file (
    rw addressed-task_file
      (read_sectors-write_sectors_ne 4 1 d (cluster_to_lba c % 2 ^ 28) 0 bytes (inl (omega arith))))

boot-write_blocks :
    (d : Disk) (bytes : List ℕ)
    → length bytes ≡ 512
    → read_blocks (write_blocks d bytes boot_sector 1) boot_sector 1 ≡ bytes
unfolding read_blocks write_blocks
boot-write_blocks d bytes h =
    rw addressed-task_file (rw addressed-task_file (read_sectors-write_sectors 1 d 0 bytes h))

length-fs_signature : length fs_signature ≡ 512
unfolding fs_signature
length-fs_signature = refl

initial_map_words : All (λ c. c < 2 ^ 32) initial_map
unfolding initial_map
initial_map_words =
    (omega arith, (omega arith, (omega arith, All-replicate (λ c. c < 2 ^ 32) 509 0 (omega arith))))

length-initial_map : length initial_map ≡ 512
unfolding initial_map
length-initial_map = refl

module _ (past : List ℕ) (s : State) where
  abbrev formatted : State
  formatted = create_fat32 past s

  boot-formatted : read_blocks formatted.disk boot_sector 1 ≡ fs_signature
  unfolding create_fat32 save_fat save_dir
  boot-formatted =
      boot-write_clusters _ _ 1 (omega arith) (omega arith)
      ∙ boot-write_clusters _ _ 2 (omega arith) (omega arith)
      ∙ boot-write_blocks s.disk fs_signature length-fs_signature

  is_empty_storage-formatted : is_empty_storage formatted.disk ≡ false
  unfolding is_empty_storage
  is_empty_storage-formatted = rw boot-formatted (rw memcmp_refl)

  fat-formatted :
      decode_fat 512 (read_blocks formatted.disk (cluster_to_lba 1) 4) ≡ formatted.cluster_map
  unfolding create_fat32 save_fat save_dir
  fat-formatted =
      ap (decode_fat 512) (
        same_read _
        ∙ read_clusters-write_clusters _ (encode_fat initial_map) 1
            (omega (arith, length-encode_fat initial_map, length-initial_map)))
      ∙ subst (λ n. decode_fat n (encode_fat initial_map) ≡ initial_map) length-initial_map
          (decode_fat-encode_fat initial_map initial_map_words)
    where
      same_read : (d : Disk) → read_blocks d (cluster_to_lba 1) 4 ≡ read_clusters d 1 1
      same_read d = unfold read_clusters in refl

-- A disk that formatting has left, from whatever state, is not taken for an empty one, and mounting
-- it in any state of the memory loads the allocation table that formatting made and changes nothing
-- else.
pub initialize-create :
    (past : List ℕ) (s t : State)
    → t.disk ≡ (create_fat32 past s).disk
    → (is_empty_storage t.disk ≡ false)
      × (initialize_filesystem_fat32 past t
          ≡ record t { cluster_map = (create_fat32 past s).cluster_map })
unfolding initialize_filesystem_fat32
initialize-create past s t e =
    let full : is_empty_storage t.disk ≡ false =
      ap is_empty_storage e ∙ is_empty_storage-formatted past s in
    (
      full,
      rw full (
          ap (λ d. record t { cluster_map = decode_fat 512 (read_blocks d (cluster_to_lba 1) 4) }) e
          ∙ ap (λ m. record t { cluster_map = m }) (fat-formatted past s)),
    )
