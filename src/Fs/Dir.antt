-- ===== src/Fs/Dir.antt =====
-- The directories of Xv6-Threads/src/fs.c: `dirlookup` and `dirlink`, for a locked inode. The local
-- variable `de` is 16 bytes of memory at an address of its own. The inode that a search finds is its
-- place in the inode cache.
pub mod Entries
pub mod Lookup
pub mod FreeEntry
pub mod Update
pub mod Link
pub mod Cached
mod Tests
use os_wsl.Prelude.{
  ℕ, zero, suc, ◌+◌, ◌*◌, ◌/◌, ◌%◌, Bool, not, Option, none, some, List, u32, minus_one, ltb, ◌==◌,
  if◌then◌else◌,
}
use os_wsl.String.{poke, strncmp, strncpy}
use os_wsl.Fs.{dirsiz, Superblock, Bytes}
use os_wsl.Fs.Inode.{Inode, t_dir}
use os_wsl.Fs.Icache.{Slot, iget, iput}
use os_wsl.Fs.Content.{Memory, Driver, Result, readi, writei}

-- `de.inum`, an unsigned short.
abbrev pub inum_at : ℕ → Memory → ℕ
inum_at de mem = mem de + 256 * mem (de + 1)

-- What a search gives: the inode number and the offset of the entry, if there is one.
abbrev pub Found : Type 0
Found = Option (ℕ × ℕ)

abbrev pub Search : Type 0
Search = Found × Inode × Bytes × Memory

-- What the loop of `dirlookup` does with the entry that it has read at `off`: `on` goes on.
abbrev pub judge : ℕ → ℕ → ℕ → (Inode → Bytes → Memory → Option Search) → Result → Option Search
judge name de off on (n, ip, st, mem) =
    let next = on ip st mem in
    if not (n == 16)
    then none
    else (if inum_at de mem == 0
        then next
        else (if strncmp name (de + 2) dirsiz mem == 0
            then some (some (inum_at de mem, off), ip, st, mem)
            else next))

-- The loop of `dirlookup`, from offset `off` on; the fuel is the number of entries.
unfoldable pub dir_loop :
    Driver → Superblock → ℕ → ℕ → ℕ → ℕ → Inode → Bytes → Memory → Option Search
dir_loop devsw sb zero off name de ip st mem = some (none, ip, st, mem)
dir_loop devsw sb (suc fuel) off name de ip st mem =
    if ltb off ip.size
    then elim (readi devsw sb de off 16 ip st mem) [
      | none ↦ none
      | some r ↦ judge name de off (dir_loop devsw sb fuel (u32 (off + 16)) name de) r
    ]
    else some (none, ip, st, mem)

-- The search of `dirlookup`, up to the number and the offset of the entry.
unfoldable pub dir_search : Driver → Superblock → ℕ → ℕ → Inode → Bytes → Memory → Option Search
dir_search devsw sb name de ip st mem =
    if ip.type == t_dir then dir_loop devsw sb (ip.size / 16 + 1) 0 name de ip st mem else none

-- What `dirlookup` gives: the place of the inode in the cache and the offset of its entry, if there is one.
abbrev pub Looked : Type 0
Looked = Option (ℕ × ℕ) × Inode × List Slot × Bytes × Memory

abbrev pub with_place : ℕ → Inode → Bytes → Memory → Option (ℕ × List Slot) → Option Looked
with_place off ip st mem none = none
with_place off ip st mem (some (i, t)) = some (some (i, off), ip, t, st, mem)

-- `iget` of the number that has been found.
abbrev pub gets_found : List Slot → Option Search → Option Looked
gets_found t none = none
gets_found t (some (none, ip, st, mem)) = some (none, ip, t, st, mem)
gets_found t (some (some (inum, off), ip, st, mem)) = with_place off ip st mem (iget ip.dev inum t)

unfoldable pub dirlookup :
    Driver → Superblock → ℕ → ℕ → Inode → List Slot → Bytes → Memory → Option Looked
dirlookup devsw sb name de ip t st mem = gets_found t (dir_search devsw sb name de ip st mem)

-- What the loop of `dirlink` does with an entry.
abbrev pub empty_or :
    ℕ
    → ℕ
    → (Inode → Bytes → Memory → Option (ℕ × Inode × Bytes × Memory))
    → Result
    → Option (ℕ × Inode × Bytes × Memory)
empty_or de off on (n, ip, st, mem) =
    let next = on ip st mem in
    if not (n == 16) then none else (if inum_at de mem == 0 then some (off, ip, st, mem) else next)

-- The loop of `dirlink`: the offset of an empty entry, or the end.
unfoldable pub empty_loop :
    Driver → Superblock → ℕ → ℕ → ℕ → Inode → Bytes → Memory → Option (ℕ × Inode × Bytes × Memory)
empty_loop devsw sb zero off de ip st mem = some (off, ip, st, mem)
empty_loop devsw sb (suc fuel) off de ip st mem =
    if ltb off ip.size
    then elim (readi devsw sb de off 16 ip st mem) [
      | none ↦ none
      | some r ↦ empty_or de off (empty_loop devsw sb fuel (u32 (off + 16)) de) r
    ]
    else some (off, ip, st, mem)

-- The entry in memory that `dirlink` writes.
abbrev pub new_entry : ℕ → ℕ → ℕ → Memory → Memory
new_entry name de inum mem =
    poke (de + 1) (inum / 256 % 256) (poke de (inum % 256) (strncpy (de + 2) name dirsiz mem))

-- The end of `dirlink`.
abbrev pub linked : Option Result → Option Result
linked none = none
linked (some (n, ip, st, mem)) = if n == 16 then some (0, ip, st, mem) else none

unfoldable pub link_at :
    Driver → Superblock → ℕ → ℕ → ℕ → Option (ℕ × Inode × Bytes × Memory) → Option Result
link_at devsw sb name de inum none = none
link_at devsw sb name de inum (some (off, ip, st, mem)) =
    linked (writei devsw sb de off 16 ip st (new_entry name de inum mem))

-- What `dirlink` gives: the value returned, the inode, the cache, the disk and the memory.
abbrev pub Linked : Type 0
Linked = ℕ × Inode × List Slot × Bytes × Memory

abbrev pub with_table : List Slot → Option Result → Option Linked
with_table t none = none
with_table t (some (n, ip, st, mem)) = some (n, ip, t, st, mem)

-- -1, behind `iput` of the inode that was found.
abbrev pub refuses : Inode → Memory → Option (List Slot × Bytes) → Option Linked
refuses ip mem none = none
refuses ip mem (some (t, st)) = some (minus_one, ip, t, st, mem)

abbrev pub link_unless : Driver → Superblock → ℕ → ℕ → ℕ → Option Looked → Option Linked
link_unless devsw sb name de inum none = none
link_unless devsw sb name de inum (some (some (i, off), ip, t, st, mem)) =
    refuses ip mem (iput sb i t st)
link_unless devsw sb name de inum (some (none, ip, t, st, mem)) =
    with_table t
      (link_at devsw sb name de inum (empty_loop devsw sb (ip.size / 16 + 1) 0 de ip st mem))

unfoldable pub dirlink :
    Driver → Superblock → ℕ → ℕ → ℕ → Inode → List Slot → Bytes → Memory → Option Linked
dirlink devsw sb name de inum ip t st mem =
    link_unless devsw sb name de inum (dirlookup devsw sb name de ip t st mem)
