-- ===== src/Fs/Icache.antt =====
-- The inode cache of Xv6-Threads/src/fs.c: `icache`, with ialloc, iget, idup and iput. An inode is
-- known by its place in the cache; one section of icache.lock is one step. A panic is `none`.
pub mod Counting
pub mod Unique
pub mod OneEntry
pub mod Alloc
pub mod Full
mod Tests
use os_wsl.Prelude.{
  ℕ, zero, suc, ◌+◌, ◌-◌, ◌*◌, ◌/◌, ◌%◌, Bool, true, false, not, ◌&&◌, Option, none, some, List, [],
  ◌∷◌, u32, int_lt, ltb, ◌==◌, if◌then◌else◌, get_elem?, set,
}
use os_wsl.Fs.{Superblock, Bytes}
use os_wsl.Fs.Inode.{Inode, iblock, get_half, put_half, put_word, iupdate, ilock, itrunc}

-- `struct inode` with its reference count.
pub record Slot : Type 0 where
  pub ref : ℕ
  pub ino : Inode

-- What the loop of `iget` comes to: an inode that is cached, or the first entry that is not in use.
pub data Hit : Type 0 where
  cached_at : ℕ → Hit
  vacant : Option ℕ → Hit

abbrev pub is_none : Option ℕ → Bool
is_none none = true
is_none (some i) = false

-- The test `ip->ref > 0` is signed; the two are one below 2 ^ 31 references.
abbrev pub caches : ℕ → ℕ → Slot → Bool
caches dev inum s = ltb 0 s.ref && (s.ino.dev == dev && s.ino.inum == inum)

-- The loop of `iget` from place `i` on.
unfoldable pub iget_scan : ℕ → ℕ → ℕ → Option ℕ → List Slot → Hit
iget_scan dev inum i empty [] = vacant empty
iget_scan dev inum i empty (s ∷ t) =
    let rest =
      iget_scan dev inum (i + 1) (if is_none empty && s.ref == 0 then some i else empty) t in
    if caches dev inum s then cached_at i else rest

abbrev pub counted_up : Slot → Slot
counted_up s = record s { ref = u32 (s.ref + 1) }

abbrev pub counted_down : Slot → Slot
counted_down s = record s { ref = u32 (s.ref + 4294967295) }

abbrev pub reused : ℕ → ℕ → Slot → Slot
reused dev inum s = record s {
  ref = 1;
  ino = record s.ino { dev = dev; inum = inum; valid = false };
}

-- A change of the entry at place `i`.
abbrev pub at : (Slot → Slot) → ℕ → List Slot → List Slot
at f i [] = []
at f zero (s ∷ t) = f s ∷ t
at f (suc i) (s ∷ t) = s ∷ at f i t

abbrev pub got : ℕ → ℕ → List Slot → Hit → Option (ℕ × List Slot)
got dev inum t (cached_at i) = some (i, at counted_up i t)
got dev inum t (vacant (some i)) = some (i, at (reused dev inum) i t)
got dev inum t (vacant none) = none

unfoldable pub iget : ℕ → ℕ → List Slot → Option (ℕ × List Slot)
iget dev inum t = got dev inum t (iget_scan dev inum 0 none t)

unfoldable pub idup : ℕ → List Slot → List Slot
idup i t = at counted_up i t

-- `ilock` of the inode at place `i`, but for the sleep lock.
unfoldable pub lock_at : Superblock → ℕ → List Slot → Bytes → Option (List Slot)
lock_at sb i t st = elim (get_elem? t i) [
  | none ↦ none
  | some s ↦ if int_lt s.ref 1 then none else elim (ilock sb s.ino st) [
    | none ↦ none
    | some ino ↦ some (at (λ s. record s { ino = ino }) i t)
  ]
]

-- An inode without links or other references: it is freed on the disk.
abbrev pub freed_inode :
    Superblock → ℕ → List Slot → Option (Inode × Bytes) → Option (List Slot × Bytes)
freed_inode sb i t none = none
freed_inode sb i t (some (ino, st)) =
    let ino' = record ino { type = 0 } in
    some (at (λ s. record s { ino = record ino' { valid = false } }) i t, iupdate sb ino' st)

abbrev pub unlinked : Slot → Bool
unlinked s = s.ino.valid && (s.ino.nlink == 0 && s.ref == 1)

abbrev pub counts_down : ℕ → Option (List Slot × Bytes) → Option (List Slot × Bytes)
counts_down i none = none
counts_down i (some (t, st)) = some (at counted_down i t, st)

unfoldable pub iput : Superblock → ℕ → List Slot → Bytes → Option (List Slot × Bytes)
iput sb i t st = elim (get_elem? t i) [
  | none ↦ none
  | some s ↦
      counts_down i (if unlinked s then freed_inode sb i t (itrunc sb s.ino st) else some (t, st))
]

-- memset of the 64 bytes of an inode on the disk, and its new type.
abbrev pub fresh_dinode : ℕ → ℕ → ℕ → Bytes → Bytes
fresh_dinode b at type st =
    put_half b at type (λ c j. if c == b && (j / 64 == at / 64) then 0 else st c j)

-- The loop of `ialloc` from number `inum` on, `n` of them left.
unfoldable pub ialloc_from :
    Superblock → ℕ → ℕ → ℕ → ℕ → List Slot → Bytes → Option (ℕ × List Slot × Bytes)
ialloc_from sb dev type zero inum t st = none
ialloc_from sb dev type (suc n) inum t st =
    let rest = ialloc_from sb dev type n (inum + 1) t st in
    if get_half st (iblock sb inum) (inum % 8 * 64) == 0
    then elim (iget dev inum t) [
      | none ↦ none
      | some (i, t') ↦ some (i, t', fresh_dinode (iblock sb inum) (inum % 8 * 64) type st)
    ]
    else rest

unfoldable pub ialloc : Superblock → ℕ → ℕ → List Slot → Bytes → Option (ℕ × List Slot × Bytes)
ialloc sb dev type t st = ialloc_from sb dev type (sb.ninodes - 1) 1 t st
