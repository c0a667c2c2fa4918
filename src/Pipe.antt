-- ===== src/Pipe.antt =====
-- Xv6-Threads/src/pipe.c: a ring of PIPESIZE bytes between a writer and a reader. The code between
-- two calls of `sleep` runs under `p->lock`; it ends by returning to the caller or by sleeping, and
-- tells which channels it wakes.
pub mod Queue
pub mod Reading
pub mod Stream
mod Tests
use os_wsl.Prelude.{
  ℕ, zero, suc, ◌+◌, ◌%◌, Bool, true, false, not, ◌&&◌, ◌||◌, Option, none, some, List, [], ◌∷◌,
  get_or, set, u32, ◌==◌, if◌then◌else◌,
}

abbrev pub pipesize : ℕ
pipesize = 512

-- `struct pipe`, without its lock
pub record Pipe : Type 0 where
  pub buf : List ℕ
  pub nread : ℕ
  pub nwrite : ℕ
  pub readopen : Bool
  pub writeopen : Bool

-- The two channels of a pipe, `&p->nread` and `&p->nwrite`.
pub data PipeChan : Type 0 where
  nread_chan nwrite_chan : PipeChan

-- The pipe that `pipealloc` makes in the page it got.
unfoldable pub new_pipe : List ℕ → Pipe
new_pipe page = record { buf = page; nread = 0; nwrite = 0; readopen = true; writeopen = true }

-- `pipeclose`: the pipe, the channel that is woken, and whether the page is freed.
unfoldable pub pipeclose : Bool → Pipe → Pipe × PipeChan × Bool
pipeclose true p =
    let q = record p { writeopen = false } in (q, nread_chan, not q.readopen && not q.writeopen)
pipeclose false p =
    let q = record p { readopen = false } in (q, nwrite_chan, not q.readopen && not q.writeopen)

-- How a part of `pipewrite` ends: with all bytes written, with -1, or asleep on `&p->nwrite` with
-- these bytes to come.
pub data WriteEnd : Type 0 where
  wrote failed : WriteEnd
  write_sleeps : List ℕ → WriteEnd

-- `p->data[p->nwrite++ % PIPESIZE] = addr[i]`
unfoldable pub push : Pipe → ℕ → Pipe
push p x = record p { buf = set p.buf (p.nwrite % pipesize) x; nwrite = u32 (p.nwrite + 1) }

-- The end of `pipewrite` that finds the ring full.
abbrev pub when_full : Bool → List ℕ → Pipe → WriteEnd
when_full killed xs p = if not p.readopen || killed then failed else write_sleeps xs

-- `pipewrite` from a byte on, with the caller's `killed`.
unfoldable pub pipewrite : Bool → List ℕ → Pipe → WriteEnd × Pipe
unfolding push
pipewrite killed [] p = (wrote, p)
pipewrite killed (x ∷ xs) p =
    let rest = pipewrite killed xs (push p x) in
    if p.nwrite == u32 (p.nread + pipesize) then (when_full killed (x ∷ xs) p, p) else rest

-- What it wakes: the reader, unless it fails.
unfoldable pub write_wakes : WriteEnd → Option PipeChan
write_wakes wrote = some nread_chan
write_wakes (write_sleeps xs) = some nread_chan
write_wakes failed = none

-- How a part of `piperead` ends: with the bytes read, with -1, or asleep on `&p->nread`.
pub data ReadEnd : Type 0 where
  read : List ℕ → ReadEnd
  read_failed read_sleeps : ReadEnd

-- The copy loop, for `n` bytes at most.
unfoldable pub copy_out : ℕ → Pipe → List ℕ × Pipe
copy_out zero p = ([], p)
copy_out (suc n) p =
    let x = get_or p.buf (p.nread % pipesize) 0 in
    let rest = copy_out n (record p { nread = u32 (p.nread + 1) }) in
    if p.nread == p.nwrite then ([], p) else (x ∷ rest.0, rest.1)

-- What it wakes: the writer, once it has copied.
unfoldable pub read_wakes : ReadEnd → Option PipeChan
read_wakes (read xs) = some nwrite_chan
read_wakes _ = none

-- `piperead`
unfoldable pub piperead : Bool → ℕ → Pipe → ReadEnd × Pipe
unfolding copy_out
piperead killed n p =
    let (xs, q) = copy_out n p in
    if p.nread == p.nwrite && p.writeopen
    then (if killed then read_failed else read_sleeps, p)
    else (read xs, q)
