-- ===== src/Fs/Content.antt =====
-- `readi` and `writei` of Xv6-Threads/src/fs.c: the bytes of a locked inode. The memory that they copy
-- to or from is one function of the address. What the driver of a device does is a parameter.
pub mod Storing
pub mod Reading
pub mod Writing
pub mod Rounds
pub mod File
mod Tests
use os_wsl.Prelude.{
  ℕ, zero, suc, ◌+◌, ◌-◌, ◌*◌, ◌/◌, ◌%◌, min, Bool, ◌&&◌, ◌||◌, Option, none, some, u32, minus_one,
  ltb, leb, ◌==◌, if◌then◌else◌,
}
use os_wsl.Fs.{bsize, maxfile, Superblock, Bytes}
use os_wsl.Fs.Inode.{Inode, t_dev, ndev, bmap, iupdate}

abbrev pub Memory : Type 0
Memory = ℕ → ℕ

-- What `readi` and `writei` give: the value returned, the inode, the disk and the memory.
abbrev pub Result : Type 0
Result = ℕ × Inode × Bytes × Memory

-- `devsw[major].read` or `.write`, if it is set, called with the inode, the address and the length.
abbrev pub Driver : Type 0
Driver = ℕ → Option (Inode → ℕ → ℕ → Bytes → Memory → Result)

-- The branch for an inode of a device; `major` is a signed short.
unfoldable pub device_call : Driver → Inode → ℕ → ℕ → Bytes → Memory → Result
device_call devsw ip at n st mem =
    if leb 32768 ip.major || leb ndev ip.major
    then (minus_one, ip, st, mem)
    else elim (devsw ip.major) [ none ↦ (minus_one, ip, st, mem) | some call ↦ call ip at n st mem ]

-- memmove from a block to memory, and from memory to a block.
abbrev pub copied_out : Bytes → ℕ → ℕ → ℕ → ℕ → Memory → Memory
copied_out st b from at m mem =
    λ x. if leb at x && ltb x (at + m) then st b (from + (x - at)) else mem x

abbrev pub copied_in : Memory → ℕ → ℕ → ℕ → ℕ → Bytes → Bytes
copied_in mem at b from m st =
    λ c j. if c == b && (leb from j && ltb j (from + m)) then mem (at + (j - from)) else st c j

-- The bytes of one round: up to the end of a block, and no more than are left.
abbrev pub part : ℕ → ℕ → ℕ
part left off = min left (bsize - off % bsize)

-- The loop of `readi`, `n - tot` being what is left; the fuel bounds the number of rounds.
unfoldable pub read_loop :
    Superblock → ℕ → ℕ → ℕ → ℕ → ℕ → Inode → Bytes → Memory → Option (Inode × Bytes × Memory)
unfolding bmap
read_loop sb zero tot n off dst ip st mem = some (ip, st, mem)
read_loop sb (suc fuel) tot n off dst ip st mem =
    if ltb tot n
    then elim (bmap sb ip (off / bsize) st) [
      | none ↦ none
      | some (b, ip', st') ↦
          let m = part (n - tot) off in
          read_loop sb fuel (u32 (tot + m)) n (u32 (off + m)) (dst + m) ip' st'
            (copied_out st' b (off % bsize) dst m mem)
    ]
    else some (ip, st, mem)

abbrev pub returns : ℕ → Option (Inode × Bytes × Memory) → Option Result
returns n none = none
returns n (some (ip, st, mem)) = some (n, ip, st, mem)

-- A round ends a block or the call, so that `n` bytes take `n` rounds at most.
unfoldable pub readi : Driver → Superblock → ℕ → ℕ → ℕ → Inode → Bytes → Memory → Option Result
unfolding device_call read_loop
readi devsw sb dst off n ip st mem =
    if ip.type == t_dev
    then some (device_call devsw ip dst n st mem)
    else (if ltb ip.size off || ltb (u32 (off + n)) off
        then some (minus_one, ip, st, mem)
        else (let all = (if ltb ip.size (u32 (off + n)) then ip.size - off else n) in
            returns all (read_loop sb all 0 all off dst ip st mem)))

-- The loop of `writei`, with the offset it ends at.
unfoldable pub write_loop :
    Superblock → ℕ → ℕ → ℕ → ℕ → ℕ → Memory → Inode → Bytes → Option (ℕ × Inode × Bytes)
unfolding bmap
write_loop sb zero tot n off src mem ip st = some (off, ip, st)
write_loop sb (suc fuel) tot n off src mem ip st =
    if ltb tot n
    then elim (bmap sb ip (off / bsize) st) [
      | none ↦ none
      | some (b, ip', st') ↦
          let m = part (n - tot) off in
          write_loop sb fuel (u32 (tot + m)) n (u32 (off + m)) (src + m) mem ip'
            (copied_in mem src b (off % bsize) m st')
    ]
    else some (off, ip, st)

-- The end of `writei`.
unfoldable pub end_write : Superblock → ℕ → Memory → Option (ℕ × Inode × Bytes) → Option Result
unfolding iupdate
end_write sb n mem none = none
end_write sb n mem (some (off, ip, st)) =
    if ltb 0 n && ltb ip.size off
    then (let ip' = record ip { size = off } in some (n, ip', iupdate sb ip' st, mem))
    else some (n, ip, st, mem)

unfoldable pub writei : Driver → Superblock → ℕ → ℕ → ℕ → Inode → Bytes → Memory → Option Result
unfolding device_call write_loop end_write
writei devsw sb src off n ip st mem =
    if ip.type == t_dev
    then some (device_call devsw ip src n st mem)
    else (if ltb ip.size off || ltb (u32 (off + n)) off
        then some (minus_one, ip, st, mem)
        else (if ltb (maxfile * bsize) (u32 (off + n))
            then some (minus_one, ip, st, mem)
            else end_write sb n mem (write_loop sb n 0 n off src mem ip st)))
