-- ===== src/Fs/Inode.antt =====
-- The inodes of Xv6-Threads/src/fs.c: `struct inode` of Xv6-Threads/src/file.h, the blocks of a file
-- (bmap, itrunc) and its bytes (readi, writei), for an inode that the caller has locked.
pub mod Layout
pub mod OnDisk
pub mod Spots
pub mod Growth
pub mod Entries
pub mod Table
pub mod Mapping
pub mod Truncate
pub mod Emptied
pub mod Freed
use os_wsl.Prelude.{
  ℕ, zero, suc, ◌+◌, ◌-◌, ◌*◌, ◌/◌, ◌%◌, min, Bool, ◌&&◌, ◌||◌, Option, none, some, u32, minus_one,
  ltb, leb, ◌==◌, if◌then◌else◌,
}
use os_wsl.Fs.{bsize, ndirect, nindirect, maxfile, Superblock, Bytes, put, balloc, bfree}

-- `addrs` gives the entries of the array, from 0 to NDIRECT; `type`, `major`, `minor` and `nlink` are
-- 16-bit patterns.
pub record Inode : Type 0 where
  pub dev : ℕ
  pub inum : ℕ
  pub valid : Bool
  pub type : ℕ
  pub major : ℕ
  pub minor : ℕ
  pub nlink : ℕ
  pub size : ℕ
  pub addrs : ℕ → ℕ

abbrev pub t_dir : ℕ
t_dir = 1

abbrev pub t_dev : ℕ
t_dev = 3

abbrev pub ndev : ℕ
ndev = 10

abbrev pub with_addr : ℕ → ℕ → Inode → Inode
with_addr i a ip = record ip { addrs = λ j. if j == i then a else ip.addrs j }

-- A `uint` in a block, at index `i` of the block as an array, with its lowest byte first.
unfoldable pub get_word : Bytes → ℕ → ℕ → ℕ
get_word st b i =
    st b (4 * i) + 256 * st b (4 * i + 1) + 65536 * st b (4 * i + 2) + 16777216 * st b (4 * i + 3)

abbrev pub word_byte : ℕ → ℕ → ℕ
word_byte zero v = v % 256
word_byte (suc k) v = word_byte k (v / 256)

unfoldable pub put_word : ℕ → ℕ → ℕ → Bytes → Bytes
put_word b i v st = λ c j. if c == b && j / 4 == i then word_byte (j % 4) v else st c j

-- `short` fields, two bytes each.
abbrev pub get_half : Bytes → ℕ → ℕ → ℕ
get_half st b at = st b at + 256 * st b (at + 1)

abbrev pub put_half : ℕ → ℕ → ℕ → Bytes → Bytes
put_half b at v st = put b at (v % 256) (put b (at + 1) (v / 256 % 256) st)

-- IPB is 8 and a `struct dinode` has 64 bytes, 16 words.
abbrev pub iblock : Superblock → ℕ → ℕ
iblock sb i = i / 8 + sb.inodestart

-- memmove of `n` entries of `addrs`, from entry `i` on, to the words from `w` on.
unfoldable pub put_addrs : ℕ → ℕ → ℕ → ℕ → (ℕ → ℕ) → Bytes → Bytes
unfolding put_word
put_addrs zero b w i addrs st = st
put_addrs (suc n) b w i addrs st = put_addrs n b (w + 1) (i + 1) addrs (put_word b w (addrs i) st)

unfoldable pub iupdate : Superblock → Inode → Bytes → Bytes
unfolding put_word put_addrs
iupdate sb ip st =
    let b = iblock sb ip.inum in
    let at = ip.inum % 8 * 64 in
    let w = ip.inum % 8 * 16 in
    put_addrs 13 b (w + 3) 0 ip.addrs (
      put_word b (w + 2) ip.size (
        put_half b (at + 6) ip.nlink
          (put_half b (at + 4) ip.minor (put_half b (at + 2) ip.major (put_half b at ip.type st)))))

-- What `ilock` reads from the disk into an inode that is not valid; an inode of type 0 is a panic.
unfoldable pub ilock : Superblock → Inode → Bytes → Option Inode
unfolding get_word
ilock sb ip st =
    let b = iblock sb ip.inum in
    let at = ip.inum % 8 * 64 in
    let w = ip.inum % 8 * 16 in
    let read = record ip {
      valid = Bool.true;
      type = get_half st b at;
      major = get_half st b (at + 2);
      minor = get_half st b (at + 4);
      nlink = get_half st b (at + 6);
      size = get_word st b (w + 2);
      addrs = λ i. if ltb i (ndirect + 1) then get_word st b (w + 3 + i) else ip.addrs i;
    } in
    if ip.valid then some ip else (if read.type == 0 then none else some read)

-- The block in `addrs[i]`, allocated if there is none.
unfoldable pub entry : Superblock → ℕ → Inode → Bytes → Option (ℕ × Inode × Bytes)
unfolding balloc
entry sb i ip st =
    if ip.addrs i == 0
    then elim (balloc sb st) [ none ↦ none | some (a, st') ↦ some (a, with_addr i a ip, st') ]
    else some (ip.addrs i, ip, st)

-- The block in entry `bn` of the indirect block `table`, allocated if there is none.
unfoldable pub table_entry : Superblock → ℕ → ℕ → Inode → Bytes → Option (ℕ × Inode × Bytes)
unfolding balloc get_word put_word
table_entry sb table bn ip st =
    if get_word st table bn == 0
    then elim (balloc sb st) [ none ↦ none | some (a, st') ↦ some (a, ip, put_word table bn a st') ]
    else some (get_word st table bn, ip, st)

unfoldable pub bmap : Superblock → Inode → ℕ → Bytes → Option (ℕ × Inode × Bytes)
unfolding entry table_entry
bmap sb ip bn st =
    if ltb bn ndirect
    then entry sb bn ip st
    else (if ltb (bn - ndirect) nindirect
        then elim (entry sb ndirect ip st) [
          | none ↦ none
          | some (table, ip', st') ↦ table_entry sb table (bn - ndirect) ip' st'
        ]
        else none)

-- The first loop of `itrunc`, `n` entries of `addrs` left from `i` on.
unfoldable pub trunc_direct : Superblock → ℕ → ℕ → Inode → Bytes → Option (Inode × Bytes)
unfolding bfree
trunc_direct sb zero i ip st = some (ip, st)
trunc_direct sb (suc n) i ip st =
    if ip.addrs i == 0 then trunc_direct sb n (i + 1) ip st else elim (bfree sb (ip.addrs i) st) [
      | none ↦ none
      | some st' ↦ trunc_direct sb n (i + 1) (with_addr i 0 ip) st'
    ]

-- The loop over the entries of the indirect block, from entry `j` on.
unfoldable pub trunc_table : Superblock → ℕ → ℕ → ℕ → Bytes → Option Bytes
unfolding bfree get_word
trunc_table sb table zero j st = some st
trunc_table sb table (suc n) j st =
    if get_word st table j == 0
    then trunc_table sb table n (j + 1) st
    else elim (bfree sb (get_word st table j) st) [
      | none ↦ none
      | some st' ↦ trunc_table sb table n (j + 1) st'
    ]

-- The blocks of the indirect block, and then itself.
unfoldable pub free_table : Superblock → ℕ → Bytes → Option Bytes
free_table sb table st = elim (trunc_table sb table nindirect 0 st) [
  | none ↦ none
  | some st' ↦ bfree sb table st'
]

unfoldable pub trunc_indirect : Superblock → Inode → Bytes → Option (Inode × Bytes)
trunc_indirect sb ip st =
    if ip.addrs ndirect == 0 then some (ip, st) else elim (free_table sb (ip.addrs ndirect) st) [
      | none ↦ none
      | some st' ↦ some (with_addr ndirect 0 ip, st')
    ]

abbrev pub emptied : Superblock → Inode → Bytes → Inode × Bytes
emptied sb ip st = let ip' = record ip { size = 0 } in (ip', iupdate sb ip' st)

unfoldable pub itrunc : Superblock → Inode → Bytes → Option (Inode × Bytes)
itrunc sb ip st = elim (trunc_direct sb ndirect 0 ip st) [
  | none ↦ none
  | some (ip1, st1) ↦ elim (trunc_indirect sb ip1 st1) [
    | none ↦ none
    | some (ip2, st2) ↦ some (emptied sb ip2 st2)
  ]
]
