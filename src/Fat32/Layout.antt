-- ===== src/Fat32/Layout.antt =====
-- The packed structures of header/filesystem/fat32.h as bytes, little-endian as on i386. The code has
-- no such functions: it hands the memory of a structure to the disk driver, and the compiler lays it
-- out. Records here are brought to the bytes of that layout and back.
use os_2024_doors.Base.{
  ℕ, zero, suc, ◌+◌, ◌*◌, ◌/◌, ◌%◌, ◌^◌, List, [], ◌∷◌, ◌++◌, get_or, take, drop,
}
use os_2024_doors.Fat32.Types.{DirectoryEntry, DirectoryTable}

abbrev pub le16 : ℕ → List ℕ
le16 n = n % 256 ∷ n / 256 % 256 ∷ []

abbrev pub le32 : ℕ → List ℕ
le32 n = n % 256 ∷ n / 256 % 256 ∷ n / 2 ^ 16 % 256 ∷ n / 2 ^ 24 % 256 ∷ []

abbrev pub word16 : List ℕ → ℕ → ℕ
word16 bs i = get_or bs i 0 + 256 * get_or bs (i + 1) 0

abbrev pub word32 : List ℕ → ℕ → ℕ
word32 bs i = word16 bs i + 2 ^ 16 * word16 bs (i + 2)

unfoldable pub encode_entry : DirectoryEntry → List ℕ
encode_entry e =
    e.name
    ++ (e.ext
        ++ ((e.attribute ∷ e.user_attribute ∷ e.undelete ∷ [])
            ++ (le16 e.create_time
                ++ (le16 e.create_date
                    ++ (le16 e.access_date
                        ++ (le16 e.cluster_high
                            ++ (le16 e.modified_time
                                ++ (le16 e.modified_date
                                    ++ (le16 e.cluster_low ++ le32 e.filesize)))))))))

-- An entry by its name, its extension and the 21 bytes behind them.
abbrev pub entry_from : List ℕ → List ℕ → List ℕ → DirectoryEntry
entry_from name ext r = record {
  name = name;
  ext = ext;
  attribute = get_or r 0 0;
  user_attribute = get_or r 1 0;
  undelete = get_or r 2 0;
  create_time = word16 r 3;
  create_date = word16 r 5;
  access_date = word16 r 7;
  cluster_high = word16 r 9;
  modified_time = word16 r 11;
  modified_date = word16 r 13;
  cluster_low = word16 r 15;
  filesize = word32 r 17;
}

-- The entry that the 32 bytes at a pointer make.
unfoldable pub decode_entry : List ℕ → DirectoryEntry
decode_entry bs = entry_from (take 8 bs) (take 3 (drop 8 bs)) (drop 3 (drop 8 bs))

unfoldable pub encode_table : DirectoryTable → List ℕ
encode_table [] = []
encode_table (e ∷ es) = encode_entry e ++ encode_table es

unfoldable pub decode_table : ℕ → List ℕ → DirectoryTable
decode_table zero bs = []
decode_table (suc n) bs = decode_entry bs ∷ decode_table n (drop 32 bs)

-- `cluster_map` of struct FAT32FileAllocationTable.
unfoldable pub encode_fat : List ℕ → List ℕ
encode_fat [] = []
encode_fat (c ∷ cs) = le32 c ++ encode_fat cs

unfoldable pub decode_fat : ℕ → List ℕ → List ℕ
decode_fat zero bs = []
decode_fat (suc n) bs = word32 bs 0 ∷ decode_fat n (drop 4 bs)
