-- ===== src/Fs/Inode/Spots.antt =====
-- The blocks of a file of Xv6-Threads/src/fs.c, and what must hold of them.
use os_wsl.Prelude.{
  ℕ, ◌-◌, ◌/◌, ◌%◌, ◌≤◌, ◌<◌, ◌≡◌, ◌≢◌, ◌⊎◌, refl, true, false, arith, ltb, ◌==◌, if◌then◌else◌,
  lt→ltb,
}
use os_wsl.Fs.{Superblock, Bytes, bblock}
use os_wsl.Fs.Bitmap.{used, MapInUse}
use os_wsl.Fs.Inode.{get_word, iblock}

-- The block of number `k` in the file, 0 for none; number 140 is the indirect block itself.
abbrev pub spot : (ℕ → ℕ) → Bytes → ℕ → ℕ
spot addrs st k =
    if ltb k 12
    then addrs k
    else (if k == 140
        then addrs 12
        else (if addrs 12 == 0 then 0 else get_word st (addrs 12) (k - 12)))

pub spot-direct : (addrs : ℕ → ℕ) (st : Bytes) (k : ℕ) → k < 12 → spot addrs st k ≡ addrs k
spot-direct addrs st k lt = rw (lt→ltb k 12 lt) refl

pub spot-entry :
    (addrs : ℕ → ℕ) (st : Bytes) (k : ℕ)
    → 12 ≤ k
    → k < 140
    → addrs 12 ≢ 0
    → spot addrs st k ≡ get_word st (addrs 12) (k - 12)
spot-entry addrs st k lo hi nz =
    let not_direct : ltb k 12 ≡ false = ground arith in
    let not_table : (k == 140) ≡ false = ground arith in
    let some_table : (addrs 12 == 0) ≡ false = ground arith in
    rw not_direct (rw not_table (rw some_table refl))

pub spot-no_table :
    (addrs : ℕ → ℕ) (st : Bytes) (k : ℕ) → 12 ≤ k → k < 140 → addrs 12 ≡ 0 → spot addrs st k ≡ 0
spot-no_table addrs st k lo hi none =
    let not_direct : ltb k 12 ≡ false = ground arith in
    let not_table : (k == 140) ≡ false = ground arith in
    let no_table : (addrs 12 == 0) ≡ true = ground arith in
    rw not_direct (rw not_table (rw no_table refl))

-- To go through the numbers of a file's blocks.
pub spot-cases : (m : ℕ) → m ≤ 140 → (m < 12) ⊎ (((12 ≤ m) × (m < 140)) ⊎ (m ≡ 140))
spot-cases m le = ground arith

-- A block that can hold data of the inode `inum`: on the disk, in use, not of the bitmap and not the
-- block of the inode.
pub record Own (sb : Superblock) (inum : ℕ) (st : Bytes) (a : ℕ) : Type 0 where
  pub inside : a < sb.size
  pub in_use : used sb st a ≡ true
  pub no_map : (c : ℕ) → c < sb.size → a ≢ bblock sb c
  pub no_inode : a ≢ iblock sb inum

-- The disk is laid out as mkfs does: the boot block, the bitmap and the inode's block are in use, and
-- the last is not of the bitmap; all of them are on the disk.
pub record LaidOut (sb : Superblock) (inum : ℕ) (st : Bytes) : Type 0 where
  pub maps : MapInUse sb st
  pub boot : used sb st 0 ≡ true
  pub inode : used sb st (iblock sb inum) ≡ true
  pub apart : (c : ℕ) → c < sb.size → iblock sb inum ≢ bblock sb c
  pub small : sb.size < 4294967296
  pub maps_inside : (c : ℕ) → c < sb.size → bblock sb c < sb.size
  pub inode_inside : iblock sb inum < sb.size

-- The blocks of the file are its own, and no two of them are one block.
pub record Sound (sb : Superblock) (inum : ℕ) (addrs : ℕ → ℕ) (st : Bytes) : Type 0 where
  pub disk : LaidOut sb inum st
  pub own : (k : ℕ) → k ≤ 140 → spot addrs st k ≢ 0 → Own sb inum st (spot addrs st k)
  pub distinct :
      (k m : ℕ)
      → k ≤ 140
      → m ≤ 140
      → spot addrs st k ≢ 0
      → spot addrs st k ≡ spot addrs st m
      → k ≡ m

-- The byte at offset `o` of the file; a block that is not there yet reads as zeros.
abbrev pub byte_in : Bytes → ℕ → ℕ → ℕ
byte_in st b j = if b == 0 then 0 else st b j

abbrev pub content : (ℕ → ℕ) → Bytes → ℕ → ℕ
content addrs st o = byte_in st (spot addrs st (o / 512)) (o % 512)

-- Block `a` has become number `k` of the file, and the rest is as before.
pub record Grown (sb : Superblock) (inum : ℕ) (addrs : ℕ → ℕ) (st : Bytes) (k a : ℕ)
    (addrs' : ℕ → ℕ) (st' : Bytes) : Type 0 where
  pub got : spot addrs' st' k ≡ a
  pub nonzero : a ≢ 0
  pub sound : Sound sb inum addrs' st'
  pub kept : (m : ℕ) → m ≤ 140 → spot addrs st m ≢ 0 → spot addrs' st' m ≡ spot addrs st m
  pub same : (o : ℕ) → o < 71680 → content addrs' st' o ≡ content addrs st o

-- What an allocation does to the bytes that count.
pub record Taken (sb : Superblock) (inum : ℕ) (addrs : ℕ → ℕ) (st : Bytes) (k a : ℕ)
    (addrs' : ℕ → ℕ) (st' : Bytes) : Type 0 where
  pub was_none : spot addrs st k ≡ 0
  pub inside : a < sb.size
  pub was_free : used sb st a ≡ false
  pub map_after : (c : ℕ) → c < sb.size → used sb st' c ≡ (if c == a then true else used sb st c)
  pub spots : (m : ℕ) → m ≤ 140 → spot addrs' st' m ≡ (if m == k then a else spot addrs st m)
  pub zeroed : k < 140 → (j : ℕ) → j < 512 → st' a j ≡ 0
  pub others :
      (m j : ℕ) → m < 140 → spot addrs st m ≢ 0 → st' (spot addrs st m) j ≡ st (spot addrs st m) j
