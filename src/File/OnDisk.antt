-- ===== src/File/OnDisk.antt =====
-- The inode layer of Xv6-Threads/src/fs.c as what `filewrite` of Xv6-Threads/src/file.c calls.
use os_wsl.Prelude.{
  ℕ, ◌+◌, ◌≡◌, refl, ◌⊎◌, inl, inr, Bool, true, false, ◌||◌, ◌&&◌, Option, none, some, u32,
  minus_one, ltb, leb, ◌==◌, if◌then◌else◌, ◌*◌,
}
use os_wsl.File.{Transfer}
use os_wsl.File.Writing.{AllOrNone}
use os_wsl.Fs.{Superblock, Bytes, maxfile, bsize}
use os_wsl.Fs.Inode.{Inode, t_dev, ndev, iupdate}
use os_wsl.Fs.Content.{Memory, Driver, Result, device_call, write_loop, end_write, writei}

-- One inode with its disk and the memory; a panic is taken for -1 and changes nothing.
abbrev pub Store : Type 0
Store = Inode × Bytes × Memory

abbrev pub answer : Store → Option Result → ℕ × Store
answer s none = (minus_one, s)
answer s (some (r, ip, st, mem)) = (r, (ip, st, mem))

abbrev pub disk_write : Driver → Superblock → Transfer Store
disk_write devsw sb place a off n (ip, st, mem) =
    answer (ip, st, mem) (writei devsw sb a off n ip st mem)

-- No driver of a device writes.
abbrev pub no_devices : Driver
no_devices major = none

ended-AllOrNone :
    (sb : Superblock) (n : ℕ) (mem : Memory) (s : Store) (o : Option (ℕ × Inode × Bytes))
    → ((answer s (end_write sb n mem o)).0 ≡ n) ⊎ ((answer s (end_write sb n mem o)).0 ≡ minus_one)
unfolding end_write
ended-AllOrNone sb n mem s none = inr refl
ended-AllOrNone sb n mem s (some (off, ip, st)) = either (ltb 0 n && ltb ip.size off)
  where
    either :
        (b : Bool)
        → ((answer s (
              if b
              then (let ip' = record ip { size = off } in some (n, ip', iupdate sb ip' st, mem))
              else some (n, ip, st, mem))).0
            ≡ n)
          ⊎ ((answer s (
                if b
                then (let ip' = record ip { size = off } in some (n, ip', iupdate sb ip' st, mem))
                else some (n, ip, st, mem))).0
              ≡ minus_one)
    either true = inl refl
    either false = inl refl

pub disk_write-AllOrNone : (sb : Superblock) → AllOrNone (disk_write no_devices sb)
unfolding writei device_call
disk_write-AllOrNone sb place a off n (ip, st, mem) few =
    either (ip.type == t_dev) (leb 32768 ip.major || leb ndev ip.major)
      (ltb ip.size off || ltb (u32 (off + n)) off) (ltb (maxfile * bsize) (u32 (off + n)))
      (end_write sb n mem (write_loop sb n 0 n off a mem ip st))
      (ended-AllOrNone sb n mem (ip, st, mem) (write_loop sb n 0 n off a mem ip st))
  where
    either :
        (b c d e : Bool) (o : Option Result)
        → ((answer (ip, st, mem) o).0 ≡ n) ⊎ ((answer (ip, st, mem) o).0 ≡ minus_one)
        → ((answer
              (ip, st, mem)
              (if b
                then some (if c then (minus_one, ip, st, mem) else (minus_one, ip, st, mem))
                else (if d
                    then some (minus_one, ip, st, mem)
                    else (if e then some (minus_one, ip, st, mem) else o)))).0
            ≡ n)
          ⊎ ((answer
                (ip, st, mem)
                (if b
                  then some (if c then (minus_one, ip, st, mem) else (minus_one, ip, st, mem))
                  else (if d
                      then some (minus_one, ip, st, mem)
                      else (if e then some (minus_one, ip, st, mem) else o)))).0
              ≡ minus_one)
    either true true d e o h = inr refl
    either true false d e o h = inr refl
    either false c true e o h = inr refl
    either false c false true o h = inr refl
    either false c false false o h = h
