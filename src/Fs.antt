-- ===== src/Fs.antt =====
-- Xv6-Threads/src/fs.h, and the block layer of Xv6-Threads/src/fs.c. The state is what the blocks of
-- the one disk hold, seen through the buffer cache and the log (bread gives the bytes last logged), so
-- that bread, log_write and brelse around an access are that access. A panic is `none`.
pub mod Bits
pub mod Bitmap
pub mod Free
pub mod Inode
pub mod Content
pub mod Dir
pub mod Icache
pub mod Names
pub mod Sample
use os_wsl.Prelude.{
  ℕ, zero, suc, ◌+◌, ◌-◌, ◌*◌, ◌/◌, ◌%◌, Bool, true, false, not, ◌&&◌, Option, none, some, ltb, leb,
  ◌==◌, if◌then◌else◌,
}

-- BSIZE, BPB, NDIRECT, NINDIRECT, MAXFILE and DIRSIZ
abbrev pub bsize : ℕ
bsize = 512

abbrev pub bpb : ℕ
bpb = 4096

abbrev pub ndirect : ℕ
ndirect = 12

abbrev pub nindirect : ℕ
nindirect = 128

abbrev pub maxfile : ℕ
maxfile = 140

abbrev pub dirsiz : ℕ
dirsiz = 14

-- `struct superblock`, less the two fields that only the log reads
pub record Superblock : Type 0 where
  pub size : ℕ
  pub nblocks : ℕ
  pub ninodes : ℕ
  pub inodestart : ℕ
  pub bmapstart : ℕ

-- The bytes of each block.
abbrev pub Bytes : Type 0
Bytes = ℕ → ℕ → ℕ

abbrev pub put : ℕ → ℕ → ℕ → Bytes → Bytes
put b i v st = λ c j. if c == b && j == i then v else st c j

abbrev pub bblock : Superblock → ℕ → ℕ
bblock sb b = b / bpb + sb.bmapstart

-- memset of a block to 0 is of all its bytes.
unfoldable pub bzero : ℕ → Bytes → Bytes
bzero bno st = λ c j. if c == bno && ltb j bsize then 0 else st c j

-- The bits of a byte: `d & (1 << i)`, `d | (1 << i)` and `d & ~(1 << i)`.
unfoldable pub bit : ℕ → ℕ → Bool
bit zero d = d % 2 == 1
bit (suc i) d = bit i (d / 2)

unfoldable pub with_bit : ℕ → ℕ → ℕ
with_bit zero d = d / 2 * 2 + 1
with_bit (suc i) d = with_bit i (d / 2) * 2 + d % 2

unfoldable pub without_bit : ℕ → ℕ → ℕ
without_bit zero d = d / 2 * 2
without_bit (suc i) d = without_bit i (d / 2) * 2 + d % 2

-- The inner loop of `balloc` over the bits of the bitmap block of `b`, `n` of them left from `bi` on.
unfoldable pub balloc_in : Superblock → ℕ → ℕ → ℕ → Bytes → Option (ℕ × Bytes)
unfolding bit with_bit bzero
balloc_in sb b zero bi st = none
balloc_in sb b (suc n) bi st =
    let map_block = bblock sb b in
    let byte = st map_block (bi / 8) in
    let rest = balloc_in sb b n (bi + 1) st in
    if not (ltb (b + bi) sb.size)
    then none
    else (if bit (bi % 8) byte
        then rest
        else some (b + bi, bzero (b + bi) (put map_block (bi / 8) (with_bit (bi % 8) byte) st)))

-- The outer loop of `balloc`; the fuel is the number of bitmap blocks.
unfoldable pub balloc_out : Superblock → ℕ → ℕ → Bytes → Option (ℕ × Bytes)
unfolding balloc_in
balloc_out sb zero b st = none
balloc_out sb (suc fuel) b st =
    let later = balloc_out sb fuel (b + bpb) st in
    if ltb b sb.size
    then elim (balloc_in sb b bpb 0 st) [ none ↦ later | some r ↦ some r ]
    else none

unfoldable pub balloc : Superblock → Bytes → Option (ℕ × Bytes)
unfolding balloc_out
balloc sb st = balloc_out sb (sb.size / bpb + 1) 0 st

unfoldable pub bfree : Superblock → ℕ → Bytes → Option Bytes
unfolding bit without_bit
bfree sb b st =
    let map_block = bblock sb b in
    let bi = b % bpb in
    let byte = st map_block (bi / 8) in
    if bit (bi % 8) byte then some (put map_block (bi / 8) (without_bit (bi % 8) byte) st) else none
