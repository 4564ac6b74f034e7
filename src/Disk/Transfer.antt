-- ===== src/Disk/Transfer.antt =====
-- What a transfer of disk.c reads after a transfer has written.
use os_2024_doors.Base.{
  ℕ, zero, suc, ◌+◌, ◌*◌, ◌%◌, ◌^◌, ◌≤◌, ◌<◌, ◌≡◌, refl, ◌∙◌, ◌⊎◌, inl, inr, List, [], ◌∷◌, ◌++◌,
  arith, length, take, drop, take-append-drop, length-drop,
}
use mathlib.Core.Path.{ap₂}
use os_2024_doors.Disk.{
  Disk, block_size, task_file, addressed, read_sectors, write_sectors, update_sector,
}

-- The registers that the code writes select the low 28 bits of the block address, whatever the
-- command and the count.
pub addressed-task_file : (command lba n : ℕ) → addressed (task_file command lba n) ≡ lba % 2 ^ 28
unfolding addressed task_file
addressed-task_file command lba n = omega arith

update_sector_self : (d : Disk) (a : ℕ) (bytes : List ℕ) → update_sector d a bytes a ≡ bytes
update_sector_self d a bytes = ground arith

-- A sector outside the written range is as it was.
pub write_sectors_outside :
    (n : ℕ) (d : Disk) (a : ℕ) (bytes : List ℕ) (b : ℕ)
    → (b < a) ⊎ (a + n ≤ b)
    → write_sectors d a bytes n b ≡ d b
unfolding write_sectors
write_sectors_outside zero d a bytes b h = refl
write_sectors_outside (suc n) d a bytes b (inl h) =
    write_sectors_outside n (update_sector d a (take block_size bytes)) (a + 1)
      (drop block_size bytes) b (inl (omega arith))
    ∙ ground arith
write_sectors_outside (suc n) d a bytes b (inr h) =
    write_sectors_outside n (update_sector d a (take block_size bytes)) (a + 1)
      (drop block_size bytes) b (inr (omega arith))
    ∙ ground arith

-- Reading the sectors just written gives the bytes back.
pub read_sectors-write_sectors :
    (n : ℕ) (d : Disk) (a : ℕ) (bytes : List ℕ)
    → length bytes ≡ n * 512
    → read_sectors (write_sectors d a bytes n) a n ≡ bytes
unfolding read_sectors write_sectors
read_sectors-write_sectors zero d a bytes h = empty bytes h
  where
    empty : (xs : List ℕ) → length xs ≡ 0 * 512 → [] ≡ xs
    empty [] e = refl
    empty (x ∷ xs) e = absurd (omega arith)
read_sectors-write_sectors (suc n) d a bytes h =
    ap₂ ◌++◌
      (write_sectors_outside n (update_sector d a (take block_size bytes)) (a + 1)
          (drop block_size bytes) a (inl (omega arith))
        ∙ update_sector_self d a (take block_size bytes))
      (read_sectors-write_sectors n (update_sector d a (take block_size bytes)) (a + 1)
        (drop block_size bytes) (omega (arith, length-drop block_size bytes)))
    ∙ take-append-drop block_size bytes

-- Equal sectors are read alike.
pub read_sectors_ext :
    (n : ℕ) (d e : Disk) (a : ℕ)
    → ((b : ℕ) → a ≤ b → b < a + n → d b ≡ e b)
    → read_sectors d a n ≡ read_sectors e a n
unfolding read_sectors
read_sectors_ext zero d e a h = refl
read_sectors_ext (suc n) d e a h =
    ap₂ ◌++◌ (h a (omega arith) (omega arith))
      (read_sectors_ext n d e (a + 1) λ b p q. h b (omega arith) (omega arith))

-- A range that a write does not meet is read as before.
pub read_sectors-write_sectors_ne :
    (n m : ℕ) (d : Disk) (a c : ℕ) (bytes : List ℕ)
    → (c + m ≤ a) ⊎ (a + n ≤ c)
    → read_sectors (write_sectors d a bytes n) c m ≡ read_sectors d c m
read_sectors-write_sectors_ne n m d a c bytes (inl h) =
    read_sectors_ext m _ d c λ b p q. write_sectors_outside n d a bytes b (inl (omega arith))
read_sectors-write_sectors_ne n m d a c bytes (inr h) =
    read_sectors_ext m _ d c λ b p q. write_sectors_outside n d a bytes b (inr (omega arith))
