-- ===== src/Fs/Content/Tests.antt =====
-- The theorems on the block and file layers of Xv6-Threads/src/fs.c at the sample disk.
use os_wsl.Prelude.{ℕ, ◌+◌, ◌<◌, ◌≡◌, refl, false, some, arith}
use os_wsl.Fs.{Bytes, bit, balloc}
use os_wsl.Fs.Bitmap.{Answer, balloc_lem}
use os_wsl.Fs.Free.{free_blocks}
use os_wsl.Fs.Inode.{Inode, bmap, iupdate, ilock, itrunc}
use os_wsl.Fs.Inode.OnDisk.{Copies, ilock-iupdate}
use os_wsl.Fs.Inode.Spots.{content}
use os_wsl.Fs.Inode.Mapping.{Mapped, bmap_lem}
use os_wsl.Fs.Inode.Freed.{Truncated, itrunc_lem}
use os_wsl.Fs.Content.{Memory, readi, writei}
use os_wsl.Fs.Content.Reading.{Holds, Delivered, readi_lem}
use os_wsl.Fs.Content.File.{WriteiGives, writei_lem, write_read}
use os_wsl.Fs.Sample.{
  sb, disk, sample, no_driver, mem, disk-MapInUse, one_addr-Sound, differ, sample-Holds,
}

-- A file of 100 bytes.
abbrev file : Inode
file = sample 2 100

file-Holds : Holds sb file disk
file-Holds = sample-Holds 2 100 (differ 2 3 refl) (omega arith)

balloc_lem_example : Answer sb disk 0 40 (balloc sb disk)
balloc_lem_example = balloc_lem sb disk disk-MapInUse

bmap_lem_example : Mapped sb file disk 13 2 (bmap sb file 13 disk)
bmap_lem_example = bmap_lem sb file disk 13 one_addr-Sound (omega arith)

readi_lem_example :
    (mem' : Memory) × ((readi no_driver sb 1000 90 20 file disk mem ≡ some (10, file, disk, mem'))
      × Delivered (content file.addrs disk) 90 1000 10 mem mem')
readi_lem_example =
    readi_lem no_driver sb 1000 90 20 file disk mem file-Holds (omega arith) (omega arith)

-- A write over the end of the file, into blocks that are not there yet.
writei_lem_example :
    WriteiGives sb mem file disk 300 100 600 (writei no_driver sb 300 100 600 file disk mem)
writei_lem_example =
    writei_lem no_driver sb 300 100 600 file disk mem file-Holds (omega arith) (omega arith)
      (omega arith)

-- 16 blocks are free.
free_16 : free_blocks sb disk ≡ 16
unfolding bit
free_16 = refl

write_read_example :
    (ip' : Inode) × (st' : Bytes) × (mem' : Memory) × (writei no_driver sb 300 100 600 file disk mem
      ≡ some (600, ip', st', mem))
    × (readi no_driver sb 9000 100 600 ip' st' mem ≡ some (600, ip', st', mem'))
    × ((i : ℕ) → i < 600 → mem' (9000 + i) ≡ mem (300 + i))
write_read_example =
    write_read no_driver sb 300 9000 100 600 file disk mem file-Holds (omega arith) (omega arith)
      (omega arith) (omega (arith, free_16))

ilock-iupdate_example :
    Copies file (ilock sb (record file { valid = false; size = 0 }) (iupdate sb file disk))
ilock-iupdate_example =
    ilock-iupdate sb file (record file { valid = false; size = 0 }) disk
      (record {
        type = omega arith;
        major = omega arith;
        minor = omega arith;
        nlink = omega arith;
        size = omega arith;
        addrs = λ i lt. ground arith;
      })
      (omega arith) refl refl

itrunc_lem_example : Truncated sb file disk (itrunc sb file disk)
itrunc_lem_example = itrunc_lem sb file disk one_addr-Sound
