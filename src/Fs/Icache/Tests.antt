-- ===== src/Fs/Icache/Tests.antt =====
-- The inode cache of Xv6-Threads/src/fs.c with two entries.
use os_wsl.Prelude.{◌≡◌, refl, ◌&&◌, leb, ◌==◌, if◌then◌else◌, none, List, [], ◌∷◌, arith}
use os_wsl.Fs.{Bytes}
use os_wsl.Fs.Icache.{Slot, iget_scan, cached_at, iget, idup, lock_at, iput, ialloc}
use os_wsl.Fs.Icache.Counting.{InUse}
use os_wsl.Fs.Icache.Unique.{OneEach, GetsEach}
use os_wsl.Fs.Icache.OneEntry.{LocksEach, PutsEach, one_entry}
use os_wsl.Fs.Icache.Alloc.{FirstFree, ialloc_lem}
use os_wsl.Fs.Sample.{sb, disk, sample}

abbrev table : List Slot
table = record { ref = 0; ino = sample 1 32 } ∷ record { ref = 2; ino = sample 1 32 } ∷ []

-- Inode 2 of device 1 is cached in the second entry; the first is not in use.
scan_hit : iget_scan 1 2 0 none table ≡ cached_at 1
unfolding iget_scan
scan_hit = refl

table-OneEach : OneEach table
table-OneEach dev inum = ground arith

table-InUse : InUse table 1
table-InUse = (record { ref = 2; ino = sample 1 32 }, (refl, omega arith))

one_entry_example :
    GetsEach (iget 1 7 table)
    × OneEach (idup 1 table)
    × LocksEach (lock_at sb 1 table disk)
    × PutsEach (iput sb 1 table disk)
one_entry_example = one_entry sb 1 7 1 table disk table-OneEach table-InUse

-- A disk on which inode 1 is in use and inode 2 is free
abbrev free_disk : Bytes
free_disk b j = if b == 5 && leb 128 j then 0 else 1

ialloc_lem_example : FirstFree sb 1 2 1 8 table free_disk (ialloc sb 1 2 table free_disk)
ialloc_lem_example = ialloc_lem sb 1 2 table free_disk (omega arith) (omega arith)
