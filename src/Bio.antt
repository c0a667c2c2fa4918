-- ===== src/Bio.antt =====
-- Xv6-Threads/src/bio.c: the buffer cache. The list is that of `bcache.head.next` and on, the most
-- recently used buffer first; a buffer is known by its place in `bcache.buf`. A panic is `none`; the
-- sleep lock of a buffer is not part of the model.
pub mod Unique
pub mod Cache
mod Tests
use os_wsl.Prelude.{
  ℕ, zero, suc, ◌+◌, Bool, true, false, not, ◌&&◌, Option, none, some, List, [], ◌∷◌, u32, ◌==◌,
  if◌then◌else◌,
}
use os_wsl.Log.{Block}

-- `struct buf`
pub record Buf : Type 0 where
  pub place : ℕ
  pub valid : Bool
  pub dirty : Bool
  pub dev : ℕ
  pub blockno : ℕ
  pub refcnt : ℕ
  pub bytes : Block

-- What a device holds, by block number.
abbrev pub Devices : Type 0
Devices = ℕ → ℕ → Block

-- A buffer of `bcache` as the kernel starts.
abbrev pub empty_buf : ℕ → Buf
empty_buf i = record {
  place = i;
  valid = false;
  dirty = false;
  dev = 0;
  blockno = 0;
  refcnt = 0;
  bytes = [];
}

-- The loop of `binit` from buffer `i` on, which puts each one at the head.
unfoldable pub binit_from : ℕ → ℕ → List Buf → List Buf
binit_from zero i l = l
binit_from (suc n) i l = binit_from n (i + 1) (empty_buf i ∷ l)

unfoldable pub binit : List Buf
unfolding binit_from
binit = binit_from 30 0 []

abbrev pub holds : ℕ → ℕ → Buf → Bool
holds dev blockno b = b.dev == dev && b.blockno == blockno

-- A buffer that was found further on in the list.
abbrev pub behind : Buf → Option (ℕ × List Buf) → Option (ℕ × List Buf)
behind b none = none
behind b (some (i, l)) = some (i, b ∷ l)

-- The first loop of `bget`, from the head.
unfoldable pub cached : ℕ → ℕ → List Buf → Option (ℕ × List Buf)
cached dev blockno [] = none
cached dev blockno (b ∷ l) =
    let rest = cached dev blockno l in
    if holds dev blockno b
    then some (b.place, record b { refcnt = u32 (b.refcnt + 1) } ∷ l)
    else behind b rest

abbrev pub or_else : Option (ℕ × List Buf) → Option (ℕ × List Buf) → Option (ℕ × List Buf)
or_else none o = o
or_else (some r) o = some r

abbrev pub unused_buf : Buf → Bool
unused_buf b = b.refcnt == 0 && not b.dirty

-- A buffer that is given to another block.
abbrev pub taken_over : ℕ → ℕ → Buf → Buf
taken_over dev blockno b = record b {
  dev = dev;
  blockno = blockno;
  valid = false;
  dirty = false;
  refcnt = 1;
}

-- The second loop of `bget`, from the tail.
unfoldable pub recycled : ℕ → ℕ → List Buf → Option (ℕ × List Buf)
recycled dev blockno [] = none
recycled dev blockno (b ∷ l) =
    let rest = recycled dev blockno l in
    or_else (behind b rest)
      (if unused_buf b then some (b.place, taken_over dev blockno b ∷ l) else none)

unfoldable pub bget : ℕ → ℕ → List Buf → Option (ℕ × List Buf)
unfolding cached recycled
bget dev blockno l = or_else (cached dev blockno l) (recycled dev blockno l)

-- `iderw` for a buffer to be read, as `bread` calls it.
abbrev pub fill : Devices → Buf → Buf
fill disk b = if b.valid then b else record b { valid = true; bytes = disk b.dev b.blockno }

abbrev pub at_place : (Buf → Buf) → ℕ → List Buf → List Buf
at_place f i [] = []
at_place f i (b ∷ l) = let rest = at_place f i l in if b.place == i then f b ∷ l else b ∷ rest

unfoldable pub bread : Devices → ℕ → ℕ → List Buf → Option (ℕ × List Buf)
unfolding bget
bread disk dev blockno l = elim (bget dev blockno l) [
  | none ↦ none
  | some (i, l') ↦ some (i, at_place (fill disk) i l')
]

-- `bwrite` of buffer `b`, which `iderw` writes out: the buffer and the devices behind it.
unfoldable pub bwrite : Devices → Buf → Buf × Devices
bwrite disk b = (
  record b { valid = true; dirty = false },
  λ dev n. if b.dev == dev && b.blockno == n then b.bytes else disk dev n,
)

abbrev pub without : ℕ → List Buf → List Buf
without i [] = []
without i (b ∷ l) = let rest = without i l in if b.place == i then l else b ∷ rest

abbrev pub buf_at : ℕ → List Buf → Option Buf
buf_at i [] = none
buf_at i (b ∷ l) = let rest = buf_at i l in if b.place == i then some b else rest

abbrev pub dropped : Buf → Buf
dropped b = record b { refcnt = u32 (b.refcnt + 4294967295) }

-- The end of `brelse`, with the buffer.
unfoldable pub release_buf : ℕ → Option Buf → List Buf → List Buf
release_buf i none l = l
release_buf i (some b) l =
    if (dropped b).refcnt == 0 then dropped b ∷ without i l else at_place dropped i l

-- `brelse` of the buffer at place `i`.
unfoldable pub brelse : ℕ → List Buf → List Buf
unfolding release_buf
brelse i l = release_buf i (buf_at i l) l
