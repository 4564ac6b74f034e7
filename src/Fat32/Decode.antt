-- ===== src/Fat32/Decode.antt =====
-- What is decoded from bytes has the fields' widths, and encodes to bytes.
use os_2024_doors.Base.{
  ℕ, zero, suc, ◌+◌, ◌*◌, ◌≤◌, ◌<◌, ◌≡◌, refl, ap, List, [], ◌∷◌, ◌++◌, arith, length, take, drop,
  get_or, All, length-append, length-drop, length-take_of_le,
}
use os_2024_doors.Disk.{Disk, read_blocks, read_sectors}
use os_2024_doors.Fat32.Types.{zero_entry}
use os_2024_doors.Fat32.Layout.{decode_entry, decode_table}
use os_2024_doors.Fat32.Driver.{read_clusters}
use os_2024_doors.Fat32.Codec.{IsByte, IsEntry}

pub All-take : (n : ℕ) (bs : List ℕ) → All IsByte bs → All IsByte (take n bs)
All-take zero bs h = tt
All-take (suc n) [] h = tt
All-take (suc n) (b ∷ bs) h = (h.0, All-take n bs h.1)

All-drop : (n : ℕ) (bs : List ℕ) → All IsByte bs → All IsByte (drop n bs)
All-drop zero bs h = h
All-drop (suc n) [] h = tt
All-drop (suc n) (b ∷ bs) h = All-drop n bs h.1

All-get_or : (bs : List ℕ) (i : ℕ) → All IsByte bs → get_or bs i 0 < 256
All-get_or [] i h = omega arith
All-get_or (b ∷ bs) zero h = h.0
All-get_or (b ∷ bs) (suc i) h = All-get_or bs i h.1

pub decode_entry-IsEntry :
    (bs : List ℕ) → All IsByte bs → 32 ≤ length bs → IsEntry (decode_entry bs)
unfolding decode_entry
decode_entry-IsEntry bs h n = record {
  name_length = length-take_of_le 8 bs (omega arith);
  name_bytes = All-take 8 bs h;
  ext_length = length-take_of_le 3 (drop 8 bs) (omega (arith, length-drop 8 bs));
  ext_bytes = All-take 3 (drop 8 bs) (All-drop 8 bs h);
  attribute_byte = byte 0;
  user_attribute_byte = byte 1;
  undelete_byte = byte 2;
  create_time_word = omega (arith, byte 3, byte 4);
  create_date_word = omega (arith, byte 5, byte 6);
  access_date_word = omega (arith, byte 7, byte 8);
  cluster_high_word = omega (arith, byte 9, byte 10);
  modified_time_word = omega (arith, byte 11, byte 12);
  modified_date_word = omega (arith, byte 13, byte 14);
  cluster_low_word = omega (arith, byte 15, byte 16);
  filesize_word = omega (arith, byte 17, byte 18, byte 19, byte 20);
}
  where
    byte : (i : ℕ) → get_or (drop 3 (drop 8 bs)) i 0 < 256
    byte i = All-get_or (drop 3 (drop 8 bs)) i (All-drop 3 (drop 8 bs) (All-drop 8 bs h))

pub length-decode_table : (n : ℕ) (bs : List ℕ) → length (decode_table n bs) ≡ n
unfolding decode_table
length-decode_table zero bs = refl
length-decode_table (suc n) bs = ap suc (length-decode_table n (drop 32 bs))

pub decode_table-IsEntry :
    (n : ℕ) (bs : List ℕ) → All IsByte bs → n * 32 ≤ length bs → All IsEntry (decode_table n bs)
unfolding decode_table
decode_table-IsEntry zero bs h l = tt
decode_table-IsEntry (suc n) bs h l = (
  decode_entry-IsEntry bs h (omega arith),
  decode_table-IsEntry n (drop 32 bs) (All-drop 32 bs h) (omega (arith, length-drop 32 bs)),
)

-- Every sector holds 512 bytes.
abbrev pub IsDisk : Disk → Type 0
IsDisk d = (a : ℕ) → (length (d a) ≡ 512) × All IsByte (d a)

All-append : (xs ys : List ℕ) → All IsByte xs → All IsByte ys → All IsByte (xs ++ ys)
All-append [] ys h k = k
All-append (x ∷ xs) ys h k = (h.0, All-append xs ys h.1 k)

read_sectors-bytes :
    (n : ℕ) (d : Disk) (a : ℕ)
    → IsDisk d
    → (length (read_sectors d a n) ≡ n * 512) × All IsByte (read_sectors d a n)
unfolding read_sectors
read_sectors-bytes zero d a v = (refl, tt)
read_sectors-bytes (suc n) d a v = (
  omega (
    arith,
    length-append (d a) (read_sectors d (a + 1) n),
    (v a).0,
    (read_sectors-bytes n d (a + 1) v).0,
  ),
  All-append (d a) (read_sectors d (a + 1) n) (v a).1 (read_sectors-bytes n d (a + 1) v).1,
)

-- The directory at a cluster of such a disk is well formed.
pub read_clusters-IsEntry :
    (d : Disk) (c : ℕ) → IsDisk d → All IsEntry (decode_table 64 (read_clusters d c 1))
unfolding read_clusters read_blocks
read_clusters-IsEntry d c v =
    let b = read_sectors-bytes 4 d _ v in decode_table-IsEntry 64 _ b.1 (omega (arith, b.0))

pub zero-IsEntry : IsEntry zero_entry
zero-IsEntry = omega arith
