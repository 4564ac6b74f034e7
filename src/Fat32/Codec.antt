-- ===== src/Fat32/Codec.antt =====
-- Decoding of what the packed layout of header/filesystem/fat32.h encodes.
use os_2024_doors.Base.{
  ℕ, ◌+◌, ◌*◌, ◌/◌, ◌%◌, ◌^◌, ◌<◌, ◌≡◌, refl, ap, ◌∙◌, List, [], ◌∷◌, ◌++◌, arith, length,
  take-append, drop-append, All, length-append,
}
use mathlib.Core.Path.{ap₂}
use mathlib.Core.List.{append_assoc}
use os_2024_doors.Fat32.Types.{DirectoryEntry, DirectoryTable}
use os_2024_doors.Fat32.Layout.{
  encode_entry, decode_entry, encode_table, decode_table, encode_fat, decode_fat, le16, le32,
  entry_from,
}

abbrev pub IsByte : ℕ → Type 0
IsByte b = b < 256

-- The fields have the widths that the structure gives them.
pub record IsEntry (e : DirectoryEntry) : Type 0 where
  pub name_length : length e.name ≡ 8
  pub name_bytes : All IsByte e.name
  pub ext_length : length e.ext ≡ 3
  pub ext_bytes : All IsByte e.ext
  pub attribute_byte : e.attribute < 256
  pub user_attribute_byte : e.user_attribute < 256
  pub undelete_byte : e.undelete < 256
  pub create_time_word : e.create_time < 2 ^ 16
  pub create_date_word : e.create_date < 2 ^ 16
  pub access_date_word : e.access_date < 2 ^ 16
  pub cluster_high_word : e.cluster_high < 2 ^ 16
  pub modified_time_word : e.modified_time < 2 ^ 16
  pub modified_date_word : e.modified_date < 2 ^ 16
  pub cluster_low_word : e.cluster_low < 2 ^ 16
  pub filesize_word : e.filesize < 2 ^ 32

-- The 21 bytes behind the name and the extension.
abbrev tail : DirectoryEntry → List ℕ
tail e =
    (e.attribute ∷ e.user_attribute ∷ e.undelete ∷ [])
    ++ (le16 e.create_time
        ++ (le16 e.create_date
            ++ (le16 e.access_date
                ++ (le16 e.cluster_high
                    ++ (le16 e.modified_time
                        ++ (le16 e.modified_date ++ (le16 e.cluster_low ++ le32 e.filesize)))))))

pub length-encode_entry : {e : DirectoryEntry} → IsEntry e → length (encode_entry e) ≡ 32
unfolding encode_entry
length-encode_entry {e} v = omega (
  arith,
  length-append e.name (e.ext ++ tail e),
  length-append e.ext (tail e),
  v.name_length,
  v.ext_length,
)

join16 : (n : ℕ) → n < 2 ^ 16 → n % 256 + 256 * (n / 256 % 256) ≡ n
join16 n h = omega arith

join32 :
    (n : ℕ)
    → n < 2 ^ 32
    → n % 256 + 256 * (n / 256 % 256) + 2 ^ 16 * (n / 2 ^ 16 % 256 + 256 * (n / 2 ^ 24 % 256)) ≡ n
join32 n h = omega arith

entry_from-tail :
    {e : DirectoryEntry} (rest : List ℕ) → IsEntry e → entry_from e.name e.ext (tail e ++ rest) ≡ e
entry_from-tail {e} rest v i = record {
  name = e.name;
  ext = e.ext;
  attribute = e.attribute;
  user_attribute = e.user_attribute;
  undelete = e.undelete;
  create_time = join16 e.create_time v.create_time_word i;
  create_date = join16 e.create_date v.create_date_word i;
  access_date = join16 e.access_date v.access_date_word i;
  cluster_high = join16 e.cluster_high v.cluster_high_word i;
  modified_time = join16 e.modified_time v.modified_time_word i;
  modified_date = join16 e.modified_date v.modified_date_word i;
  cluster_low = join16 e.cluster_low v.cluster_low_word i;
  filesize = join32 e.filesize v.filesize_word i;
}

-- An entry survives the way to bytes and back.
pub decode_entry-encode_entry :
    (e : DirectoryEntry) (rest : List ℕ) → IsEntry e → decode_entry (encode_entry e ++ rest) ≡ e
unfolding decode_entry encode_entry
decode_entry-encode_entry e rest v =
    rw (append_assoc e.name (e.ext ++ tail e) rest, append_assoc e.ext (tail e) rest)
      (rw
        (
          take-append 8 e.name (e.ext ++ (tail e ++ rest)) v.name_length,
          drop-append 8 e.name (e.ext ++ (tail e ++ rest)) v.name_length,
          take-append 3 e.ext (tail e ++ rest) v.ext_length,
          drop-append 3 e.ext (tail e ++ rest) v.ext_length,
        )
        (entry_from-tail rest v))

-- A directory table whose fields have their widths survives the way to bytes and back.
pub decode_table-encode_table :
    (t : DirectoryTable) → All IsEntry t → decode_table (length t) (encode_table t) ≡ t
unfolding decode_table encode_table
decode_table-encode_table [] v = refl
decode_table-encode_table (e ∷ es) v = ap₂ ◌∷◌ (decode_entry-encode_entry e (encode_table es) v.0) (
    ap (decode_table (length es))
      (drop-append 32 (encode_entry e) (encode_table es) (length-encode_entry v.0))
    ∙ decode_table-encode_table es v.1)

pub length-encode_table :
    (t : DirectoryTable) → All IsEntry t → length (encode_table t) ≡ length t * 32
unfolding encode_table
length-encode_table [] v = refl
length-encode_table (e ∷ es) v = omega (
  arith,
  length-append (encode_entry e) (encode_table es),
  length-encode_entry v.0,
  length-encode_table es v.1,
)

-- An allocation table of 32-bit entries survives the way to bytes and back.
pub decode_fat-encode_fat :
    (m : List ℕ) → All (λ c. c < 2 ^ 32) m → decode_fat (length m) (encode_fat m) ≡ m
unfolding decode_fat encode_fat
decode_fat-encode_fat [] v = refl
decode_fat-encode_fat (c ∷ cs) v = ap₂ ◌∷◌ (join32 c v.0) (decode_fat-encode_fat cs v.1)

pub length-encode_fat : (m : List ℕ) → length (encode_fat m) ≡ length m * 4
unfolding encode_fat
length-encode_fat [] = refl
length-encode_fat (c ∷ cs) = omega (arith, length-encode_fat cs)
