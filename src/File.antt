-- ===== src/File.antt =====
-- Xv6-Threads/src/file.c: the table of open files under `ftable.lock`. A `struct file *` is a place in
-- the table; a panic is `none`.
pub mod References
pub mod Writing
pub mod OnDisk
pub mod Descriptors
mod Tests
use os_wsl.Prelude.{
  ℕ, zero, suc, ◌+◌, ◌-◌, Bool, true, false, not, Option, none, some, List, [], ◌∷◌, get_or, set,
  u32, ltb, ◌==◌, if◌then◌else◌, int_lt, minus_one,
}

pub data FileType : Type 0 where
  fd_none fd_pipe fd_inode : FileType

-- `struct file`
pub record File : Type 0 where
  pub type : FileType
  pub ref : ℕ
  pub readable : Bool
  pub writable : Bool
  pub pipe : ℕ
  pub ip : ℕ
  pub off : ℕ

-- A slot as the kernel starts.
abbrev pub empty_file : File
empty_file = record {
  type = fd_none;
  ref = 0;
  readable = false;
  writable = false;
  pipe = 0;
  ip = 0;
  off = 0;
}

abbrev pub file_at : List File → ℕ → File
file_at t f = get_or t f empty_file

-- The loop of `filealloc`: the first slot without a reference, if any.
unfoldable pub find_free : List File → Option ℕ
find_free [] = none
find_free (f ∷ t) =
    let rest = find_free t in
    if f.ref == 0 then some 0 else elim rest [ none ↦ none | some i ↦ some (suc i) ]

abbrev pub set_ref : ℕ → ℕ → List File → List File
set_ref f n t = set t f (record (file_at t f) { ref = n })

unfoldable pub filealloc : List File → Option (ℕ × List File)
unfolding find_free
filealloc t = elim (find_free t) [ none ↦ none | some f ↦ some (f, set_ref f 1 t) ]

unfoldable pub filedup : ℕ → List File → Option (List File)
filedup f t =
    let n = (file_at t f).ref in if int_lt n 1 then none else some (set_ref f (u32 (n + 1)) t)

-- What `fileclose` does once it has given the lock up.
pub data Release : Type 0 where
  kept nothing : Release
  closes_pipe : ℕ → Bool → Release
  puts_inode : ℕ → Release

abbrev pub release_of : File → Release
release_of ff = elim ff.type [
  | fd_none ↦ nothing
  | fd_pipe ↦ closes_pipe ff.pipe ff.writable
  | fd_inode ↦ puts_inode ff.ip
]

unfoldable pub fileclose : ℕ → List File → Option (Release × List File)
fileclose f t =
    let ff = file_at t f in
    let left = u32 (ff.ref + 4294967295) in
    if int_lt ff.ref 1
    then none
    else (if int_lt 0 left
        then some (kept, set_ref f left t)
        else some (release_of ff, set t f (record ff { ref = 0; type = fd_none })))

-- `readi` and `writei` of Xv6-Threads/src/fs.c, under the lock of the inode: the inode, the user's
-- address, the offset and the number of bytes. An answer is an `int`.
abbrev pub Transfer : Type 0 → Type 0
Transfer S = ℕ → ℕ → ℕ → ℕ → S → ℕ × S

-- `piperead` and `pipewrite`: the pipe, the user's address and the number of bytes.
abbrev pub PipeCall : Type 0 → Type 0
PipeCall S = ℕ → ℕ → ℕ → S → ℕ × S

abbrev pub advance_off : ℕ → File → File
advance_off r f = if int_lt 0 r then record f { off = u32 (f.off + r) } else f

unfoldable pub fileread :
    {S : Type 0} → PipeCall S → Transfer S → File → ℕ → ℕ → S → Option (ℕ × File × S)
fileread piperead readi f addr n s =
    if not f.readable then some (minus_one, f, s) else elim f.type [
      | fd_none ↦ none
      | fd_pipe ↦ let (r, s') = piperead f.pipe addr n s in some (r, f, s')
      | fd_inode ↦ let (r, s') = readi f.ip addr f.off n s in some (r, advance_off r f, s')
    ]

-- `max`: ((MAXOPBLOCKS - 1 - 1 - 2) / 2) * 512
abbrev pub max_chunk : ℕ
max_chunk = 1536

abbrev pub chunk : ℕ → ℕ
chunk left = if ltb max_chunk left then max_chunk else left

-- How the loop of `filewrite` ends: with the bytes that are written, or with a panic.
pub data WriteLoop (S : Type 0) : Type 0 where
  ended : ℕ → File → S → WriteLoop S
  short_write : WriteLoop S

-- The loop of `filewrite` from byte `i` on with `left` to come, and with fuel.
unfoldable pub write_chunks : {S : Type 0} → Transfer S → ℕ → ℕ → ℕ → ℕ → File → S → WriteLoop S
write_chunks writei zero addr i left f s = ended i f s
write_chunks writei (suc fuel) addr i left f s =
    let n1 = chunk left in
    let (r, s') = writei f.ip (addr + i) f.off n1 s in
    let f' = advance_off r f in
    let rest = write_chunks writei fuel addr (i + n1) (left - n1) f' s' in
    if left == 0
    then ended i f s
    else (if int_lt r 0 then ended i f' s' else (if r == n1 then rest else short_write))

abbrev pub written_of : {S : Type 0} → ℕ → WriteLoop S → Option (ℕ × File × S)
written_of n short_write = none
written_of n (ended i f s) = some (if i == n then n else minus_one, f, s)

-- What the loop is to write: nothing, if `n` is negative.
abbrev pub to_write : ℕ → ℕ
to_write n = if int_lt 0 n then n else 0

-- The cases of `filewrite` by `writable` and the type.
unfoldable pub write_as :
    {S : Type 0}
    → PipeCall S
    → Transfer S
    → Bool
    → FileType
    → File
    → ℕ
    → ℕ
    → S
    → Option (ℕ × File × S)
unfolding write_chunks
write_as pipewrite writei false kind f addr n s = some (minus_one, f, s)
write_as pipewrite writei true fd_none f addr n s = none
write_as pipewrite writei true fd_pipe f addr n s =
    let (r, s') = pipewrite f.pipe addr n s in some (r, f, s')
write_as pipewrite writei true fd_inode f addr n s =
    written_of n (write_chunks writei (to_write n) addr 0 (to_write n) f s)

-- `filewrite` of `n` bytes, an `int`.
unfoldable pub filewrite :
    {S : Type 0} → PipeCall S → Transfer S → File → ℕ → ℕ → S → Option (ℕ × File × S)
unfolding write_as
filewrite pipewrite writei f addr n s = write_as pipewrite writei f.writable f.type f addr n s
