-- ===== src/Paging.antt =====
-- paging.c and header/memory/paging.h: page frames of 4 MiB, and page directories. The entries of
-- a directory are a function of their index, which is below 1024 in every access. TLB flushes and
-- the CR3 register have no state here; the register is a field of the kernel's state in `Process`.
pub mod Frames
pub mod Isolation
pub mod Release
mod Tests
use os_2024_doors.Base.{
  ℕ, zero, suc, ◌+◌, ◌-◌, ◌*◌, ◌/◌, ◌%◌, ◌^◌, Bool, true, false, not, List, [], ◌∷◌, Option, none,
  some, ◌==◌, ltb, leb, if◌then◌else◌, Run, ok, fault, ◌>>=◌, length, get_or, set, replicate,
}

abbrev pub page_frame_size : ℕ
page_frame_size = 2 ^ 22

abbrev pub page_frame_max_count : ℕ
page_frame_max_count = 32

abbrev pub page_entry_count : ℕ
page_entry_count = 1024

abbrev pub directory_max_count : ℕ
directory_max_count = 32

-- The entry of the kernel's higher half.
abbrev pub kernel_index : ℕ
kernel_index = 0x300

-- struct PageDirectoryEntryFlag
pub record Flag : Type 0 where
  pub present_bit : Bool
  pub write_bit : Bool
  pub user_supervisor : Bool
  pub write_through : Bool
  pub cache_disable : Bool
  pub accessed : Bool
  pub dirty : Bool
  pub use_pagesize_4_mb : Bool

-- struct PageDirectoryEntry
pub record Entry : Type 0 where
  pub flag : Flag
  pub global_page : ℕ
  pub available : ℕ
  pub pat : ℕ
  pub higher_address : ℕ
  pub reserved_2 : ℕ
  pub lower_address : ℕ

abbrev pub zero_flag : Flag
zero_flag = record {
  present_bit = false;
  write_bit = false;
  user_supervisor = false;
  write_through = false;
  cache_disable = false;
  accessed = false;
  dirty = false;
  use_pagesize_4_mb = false;
}

abbrev pub zero_entry : Entry
zero_entry = record {
  flag = zero_flag;
  global_page = 0;
  available = 0;
  pat = 0;
  higher_address = 0;
  reserved_2 = 0;
  lower_address = 0;
}

-- struct PageDirectory
abbrev pub PageDirectory : Type 0
PageDirectory = ℕ → Entry

abbrev pub zero_directory : PageDirectory
zero_directory j = zero_entry

abbrev pub set_entry : PageDirectory → ℕ → Entry → PageDirectory
set_entry t j e k = if j == k then e else t k

-- A pointer to a page directory: NULL, the kernel's, or one of `page_directory_list`.
pub data DirPtr : Type 0 where
  null : DirPtr
  kernel : DirPtr
  listed : ℕ → DirPtr

-- `page_manager_state`, `page_directory_manager` and `page_directory_list`.
pub record Paging : Type 0 where
  pub page_frame_map : List Bool
  pub free_page_frame_count : ℕ
  pub page_directory_used : List Bool
  pub page_directory_list : List PageDirectory

abbrev pub kernel_flag : Flag
kernel_flag = record zero_flag { present_bit = true; write_bit = true; use_pagesize_4_mb = true }

-- The entry 0x300 of `_paging_kernel_page_directory`.
abbrev pub kernel_entry : Entry
kernel_entry = record zero_entry { flag = kernel_flag }

-- The states as they are initialised.
abbrev pub initial : Paging
initial = record {
  page_frame_map = true ∷ replicate 31 false;
  free_page_frame_count = 31;
  page_directory_used = replicate directory_max_count false;
  page_directory_list = replicate directory_max_count zero_directory;
}

abbrev pub directory : Paging → ℕ → PageDirectory
directory p i = get_or p.page_directory_list i zero_directory

abbrev pub page_index : ℕ → ℕ
page_index virtual_addr = virtual_addr / 2 ^ 22 % 1024

unfoldable pub update_page_directory_entry : PageDirectory → ℕ → ℕ → Flag → PageDirectory
update_page_directory_entry t physical_addr virtual_addr flag =
    let j = page_index virtual_addr in
    set_entry t j (record (t j) { flag = flag; lower_address = physical_addr / 2 ^ 22 % 1024 })

-- The sum is a uint32_t and wraps.
unfoldable pub frames_needed : ℕ → ℕ
frames_needed amount = (amount + page_frame_size - 1) % 2 ^ 32 / page_frame_size

unfoldable pub paging_allocate_check : Paging → ℕ → Bool
unfolding frames_needed
paging_allocate_check p amount = leb (frames_needed amount) p.free_page_frame_count

-- The index from `i` on of the first `false`: the loops over `page_frame_map`,
-- `page_directory_used` and, in process.c, `pid_used`.
unfoldable pub first_free : List Bool → ℕ → Option ℕ
first_free [] i = none
first_free (b ∷ bs) i = let rest = first_free bs (i + 1) in if not b then some i else rest

abbrev pub user_flag : Flag
user_flag = record zero_flag {
  present_bit = true;
  write_bit = true;
  user_supervisor = true;
  use_pagesize_4_mb = true;
}

-- The frame `i` is marked and mapped in the directory `d` of the list.
unfoldable pub take_frame : Paging → ℕ → ℕ → ℕ → Paging
take_frame p d virtual_addr i = record p {
  page_frame_map = set p.page_frame_map i true;
  free_page_frame_count = (p.free_page_frame_count + 2 ^ 32 - 1) % 2 ^ 32;
  page_directory_list =
      set p.page_directory_list d
        (update_page_directory_entry (directory p d) (i * page_frame_size) virtual_addr user_flag);
}

-- `page_dir` is the directory `d` of the list.
unfoldable pub paging_allocate_user_page_frame : Paging → ℕ → ℕ → Bool × Paging
paging_allocate_user_page_frame p d virtual_addr = elim (first_free p.page_frame_map 0) [
  | none ↦ (false, p)
  | some i ↦ (true, take_frame p d virtual_addr i)
]

-- A frame number outside the map is a fault: the source writes past the array.
unfoldable pub free_frame : Paging → ℕ → Run Paging
free_frame p f =
    if ltb f (length p.page_frame_map)
    then ok (record p {
      page_frame_map = set p.page_frame_map f false;
      free_page_frame_count = (p.free_page_frame_count + 1) % 2 ^ 32;
    })
    else fault

unfoldable pub paging_free_user_page_frame : Paging → ℕ → ℕ → Run (Bool × Paging)
paging_free_user_page_frame p d virtual_addr =
    let j = page_index virtual_addr in
    let t = directory p d in
    if (t j).flag.present_bit
    then (free_frame p (t j).lower_address >>= λ p'. ok (
      true,
      record p' { page_directory_list = set p'.page_directory_list d (set_entry t j zero_entry) },
    ))
    else ok (false, p)

-- What a new directory holds: entry 0 and the kernel's entry are written, the others kept.
unfoldable pub new_directory : PageDirectory → PageDirectory
new_directory t =
    set_entry
      (set_entry t 0 (record (t 0) {
        flag = record (t 0).flag { present_bit = true; write_bit = true; use_pagesize_4_mb = true };
        lower_address = 0;
      }))
      kernel_index kernel_entry

unfoldable pub paging_create_new_page_directory : Paging → DirPtr × Paging
paging_create_new_page_directory p = elim (first_free p.page_directory_used 0) [
  | none ↦ (null, p)
  | some i ↦ (
    listed i,
    record p {
      page_directory_used = set p.page_directory_used i true;
      page_directory_list = set p.page_directory_list i (new_directory (directory p i));
    },
  )
]

-- The loop over the entries from `j` on, by the rounds left.
unfoldable pub free_entries : ℕ → ℕ → Paging → ℕ → Run Paging
free_entries zero j p d = ok p
free_entries (suc n) j p d =
    let t = directory p d in
    let body : Run Paging =
      if j == kernel_index
      then ok (record p {
        page_directory_list = set p.page_directory_list d (set_entry t j zero_entry);
      })
      else if (t j).flag.present_bit
      then (paging_free_user_page_frame p d (j * 2 ^ 22) >>= λ (_, p'). ok p')
      else ok p in
    body >>= λ p'. free_entries n (j + 1) p' d

-- The loop compares the addresses of the list with the pointer: it stops at the listed directory.
unfoldable pub paging_free_page_directory : Paging → DirPtr → Run (Bool × Paging)
paging_free_page_directory p null = ok (false, p)
paging_free_page_directory p kernel = ok (false, p)
paging_free_page_directory p (listed i) =
    let freed =
      free_entries page_entry_count 0
        (record p { page_directory_used = set p.page_directory_used i false }) i
      >>= λ p'. ok (true, p') in
    if ltb i directory_max_count then freed else ok (false, p)
