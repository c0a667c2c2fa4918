-- ===== src/Fs/Sample.antt =====
-- A small disk with one file, for the tests of the model of Xv6-Threads/src/fs.c.
use mathlib.Core.Path.{subst}
use os_wsl.Prelude.{
  ℕ, ◌/◌, ◌%◌, ◌*◌, ◌≤◌, ◌<◌, ◌≡◌, ◌≢◌, refl, sym, ap, ◌∙◌, inl, inr, true, false, none, arith, ltb,
  ◌==◌, if◌then◌else◌,
}
use os_wsl.Fs.{Superblock, Bytes, bblock, bit}
use os_wsl.Fs.Bitmap.{used, MapInUse}
use os_wsl.Fs.Inode.{Inode}
use os_wsl.Fs.Inode.Spots.{
  spot, spot-direct, spot-no_table, spot-cases, Own, LaidOut, Sound, byte_in, content,
}
use os_wsl.Fs.Content.{Memory, Driver}
use os_wsl.Fs.Content.Reading.{Holds}

-- 40 blocks, with the inodes from block 5 on and the bitmap in block 10.
abbrev pub sb : Superblock
sb = record { size = 40; nblocks = 20; ninodes = 8; inodestart = 5; bmapstart = 10 }

-- Blocks 0 to 23 are in use; every other byte is 7.
abbrev pub disk : Bytes
disk b j = if b == 10 then (if ltb j 3 then 255 else 0) else 7

abbrev pub one_addr : ℕ → ℕ
one_addr i = if i == 0 then 20 else 0

-- A file of one block, block 20.
abbrev pub sample : ℕ → ℕ → Inode
sample type size = record {
  dev = 1;
  inum = 2;
  valid = true;
  type = type;
  major = 0;
  minor = 0;
  nlink = 1;
  size = size;
  addrs = one_addr;
}

abbrev pub no_driver : Driver
no_driver major = none

-- Byte `x` of memory is `x % 256`.
abbrev pub mem : Memory
mem x = x % 256

pub differ : (a b : ℕ) → (a == b) ≡ false → a ≢ b
differ a b h e = ground arith

map_block : (c : ℕ) → c < 40 → bblock sb c ≡ 10
map_block c lt = omega arith

pub disk-MapInUse : MapInUse sb disk
unfolding bit
disk-MapInUse c lt = subst (λ b. used sb disk b ≡ true) (sym (map_block c lt)) refl

-- Its first block is the only one.
one_spot : (k : ℕ) → k ≤ 140 → spot one_addr disk k ≢ 0 → k ≡ 0
one_spot k le nz = elim (spot-cases k le) [
  | inl l ↦ direct l (λ z. nz (spot-direct one_addr disk k l ∙ z))
  | inr (inl (lo, hi)) ↦ absurd (nz (spot-no_table one_addr disk k lo hi refl))
  | inr (inr e) ↦ absurd (nz (ap (spot one_addr disk) e))
]
  where
    direct : k < 12 → one_addr k ≢ 0 → k ≡ 0
    direct l h = ground arith

block_20 : Own sb 2 disk 20
unfolding bit
block_20 = record {
  inside = omega arith;
  in_use = refl;
  no_map = λ c lt e. differ 20 10 refl (e ∙ map_block c lt);
  no_inode = λ e. differ 20 5 refl e;
}

disk-LaidOut : LaidOut sb 2 disk
unfolding bit
disk-LaidOut = record {
  maps = disk-MapInUse;
  boot = refl;
  inode = refl;
  apart = λ c lt e. differ 5 10 refl (e ∙ map_block c lt);
  small = omega arith;
  maps_inside = λ c lt. omega arith;
  inode_inside = omega arith;
}

pub one_addr-Sound : Sound sb 2 one_addr disk
one_addr-Sound = record {
  disk = disk-LaidOut;
  own =
      λ k le nz. subst (Own sb 2 disk) (sym (ap (spot one_addr disk) (one_spot k le nz))) block_20;
  distinct = λ k m lk lm nz e. one_spot k lk nz ∙ sym (one_spot m lm (λ z. nz (e ∙ z)));
}

pub sample-Holds : (type size : ℕ) → type ≢ 3 → size ≤ 512 → Holds sb (sample type size) disk
sample-Holds type size plain small = record {
  sound = one_addr-Sound;
  bounded = omega arith;
  filled = λ k lt z. differ 20 0 refl (sym (ap (spot one_addr disk) (first k lt)) ∙ z);
  plain = plain;
}
  where
    first : (k : ℕ) → k * 512 < size → k ≡ 0
    first k lt = omega arith

-- Every byte of it is a byte.
pub sample-bytes : (o : ℕ) → content one_addr disk o < 256
sample-bytes o = below (spot one_addr disk (o / 512)) (o % 512)
  where
    below : (b j : ℕ) → byte_in disk b j < 256
    below b j = ground arith
