-- ===== src/Fat32/Scan.antt =====
-- The loops of fat32.c over a directory: the scan of `write`, and that of a later `read`.
use os_2024_doors.Base.{
  ℕ, zero, suc, ◌+◌, ◌-◌, ◌≤◌, ◌<◌, ◌≡◌, ◌≢◌, refl, ap, inl, inr, true, false, not, ◌&&◌, List, [],
  ◌∷◌, arith, ◌==◌, if◌then◌else◌, Bool-cases, ℤ, pos, All, length, set, take, drop,
}
use os_2024_doors.Strings.{memcmp}
use os_2024_doors.Disk.{Disk}
use os_2024_doors.Fat32.Types.{DirectoryEntry, DirectoryTable, Request, in_use}
use os_2024_doors.Fat32.Find.{is_file, is_folder, read_entries, read_file}
use os_2024_doors.Fat32.Write.{slot, scan_entries}
use os_2024_doors.Fat32.Delete.{is_target}

pub memcmp-take : (n : ℕ) (xs : List ℕ) → memcmp (take n xs) xs n ≡ pos 0
unfolding memcmp
memcmp-take zero xs = refl
memcmp-take (suc n) [] = refl
memcmp-take (suc n) (x ∷ xs) = ground (arith, memcmp-take n xs)

-- A slot found means that no entry has the name and the extension.
pub scan_entries-none :
    (r : Request) (es : DirectoryTable) (i f f' : ℕ)
    → scan_entries r es i f ≡ slot f'
    → All (λ e. is_target r e ≡ false) es
unfolding scan_entries
scan_entries-none r [] i f f' h = tt
scan_entries-none r (e ∷ es) i f f' h = elim (Bool-cases (is_target r e)) [
  | inl yes' ↦ cc (rw yes' at h)
  | inr no' ↦ (
    no',
    scan_entries-none r es (i + 1) (if not (in_use e) && (f == 0) then i else f) f' (rw no' at h),
  )
]

scan_entries-held :
    (r : Request) (es : DirectoryTable) (i f f' : ℕ)
    → f ≢ 0
    → scan_entries r es i f ≡ slot f'
    → f' ≡ f
unfolding scan_entries
scan_entries-held r [] i f f' nz h = cc
scan_entries-held r (e ∷ es) i f f' nz h = elim (Bool-cases (is_target r e)) [
  | inl yes' ↦ cc (rw yes' at h)
  | inr no' ↦
      ground (arith, scan_entries-held r es (i + 1) f f', scan_entries-held r es (i + 1) i f')
]

-- A slot that is not 0 is the index of an entry, counted from `i`.
pub scan_entries-range :
    (r : Request) (es : DirectoryTable) (i f' : ℕ)
    → 0 < i
    → scan_entries r es i 0 ≡ slot f'
    → f' ≢ 0
    → (i ≤ f') × (f' < i + length es)
unfolding scan_entries
scan_entries-range r [] i f' pi h nz = ground arith
scan_entries-range r (e ∷ es) i f' pi h nz = elim (Bool-cases (is_target r e)) [
  | inl yes' ↦ cc (rw yes' at h)
  | inr no' ↦
      ground (arith, scan_entries-held r es (i + 1) i f', scan_entries-range r es (i + 1) f')
]

pub drop-set :
    (t : DirectoryTable) (f : ℕ) (e : DirectoryEntry)
    → 2 ≤ f
    → drop 2 (set t f e) ≡ set (drop 2 t) (f - 2) e
drop-set [] f e h = refl
drop-set (x ∷ []) zero e h = absurd (omega arith)
drop-set (x ∷ []) (suc f) e h = refl
drop-set (x ∷ y ∷ t) zero e h = absurd (omega arith)
drop-set (x ∷ y ∷ t) (suc zero) e h = absurd (omega arith)
drop-set (x ∷ y ∷ t) (suc (suc f)) e h = ap (λ k. set t k e) (omega arith)

-- Among entries that are not the file, `read` comes to the one that is put at index `k`.
pub read_entries-set :
    (r : Request) (map : List ℕ) (d : Disk) (es : DirectoryTable) (k : ℕ) (e : DirectoryEntry)
    (code : ℤ)
    → All (λ e'. is_file r e' ≡ false) es
    → k < length es
    → is_file r e ≡ true
    → read_entries r map d (set es k e) code ≡ read_file r map d e
unfolding read_entries
read_entries-set r map d [] k e code h lt hit = absurd (omega arith)
read_entries-set r map d (x ∷ xs) zero e code h lt hit = rw hit
read_entries-set r map d (x ∷ xs) (suc k) e code h lt hit =
    rw (h.0) (
      read_entries-set r map d xs k e (if is_folder r x then pos 1 else code) h.1 (omega arith) hit)

pub not-is_file :
    (r : Request) (es : DirectoryTable)
    → All (λ e. is_target r e ≡ false) es
    → All (λ e. is_file r e ≡ false) es
not-is_file r [] h = tt
not-is_file r (e ∷ es) h = (ground (arith, h.0), not-is_file r es h.1)
