-- ===== src/Pipe/Stream.antt =====
-- A pipe of Xv6-Threads/src/pipe.c over any sequence of writes, reads and closes.
use mathlib.Core.List.{append-nil, append_assoc}
use os_wsl.Prelude.{
  ℕ, ◌-◌, ◌≡◌, sym, ◌∙◌, ap, Bool, true, false, not, List, [], ◌∷◌, ◌++◌, arith, take,
  if◌then◌else◌,
}
use os_wsl.Pipe.{Pipe, pipesize, pipewrite, piperead, pipeclose}
use os_wsl.Pipe.Queue.{count, IsValid, contents, pipewrite_lem}
use os_wsl.Pipe.Reading.{bytes_of, piperead_bytes}

-- A call of the pipe, or the part of one between two sleeps.
pub data Call : Type 0 where
  writes : Bool → List ℕ → Call
  reads : Bool → ℕ → Call
  closes : Bool → Call

unfoldable pub call : Call → Pipe → Pipe
call (writes killed xs) p = (pipewrite killed xs p).1
call (reads killed n) p = (piperead killed n p).1
call (closes writable) p = (pipeclose writable p).0

-- The bytes that a call puts into the ring, and those that it hands to its caller.
unfoldable pub taken : Call → Pipe → List ℕ
taken (writes killed xs) p = take (pipesize - count p) xs
taken _ p = []

unfoldable pub handed : Call → Pipe → List ℕ
handed (reads killed n) p = bytes_of (piperead killed n p).0
handed _ p = []

unfoldable pub after : List Call → Pipe → Pipe
after [] p = p
after (c ∷ cs) p = after cs (call c p)

unfoldable pub all_taken : List Call → Pipe → List ℕ
all_taken [] p = []
all_taken (c ∷ cs) p = taken c p ++ all_taken cs (call c p)

unfoldable pub all_handed : List Call → Pipe → List ℕ
all_handed [] p = []
all_handed (c ∷ cs) p = handed c p ++ all_handed cs (call c p)

call-IsValid : (c : Call) {p : Pipe} → IsValid p → IsValid (call c p)
unfolding call pipeclose
call-IsValid (writes killed xs) v = (pipewrite_lem killed xs v).valid
call-IsValid (reads killed n) v = (piperead_bytes killed n v).0
call-IsValid (closes true) v = omega arith
call-IsValid (closes false) v = omega arith

call_flow :
    (c : Call) {p : Pipe} → IsValid p → contents p ++ taken c p ≡ handed c p ++ contents (call c p)
unfolding call taken handed pipeclose
call_flow (writes killed xs) v = sym (pipewrite_lem killed xs v).bytes
call_flow (reads killed n) {p} v = append-nil (contents p) ∙ (piperead_bytes killed n v).1
call_flow (closes true) {p} v = append-nil (contents p)
call_flow (closes false) {p} v = append-nil (contents p)

-- The ring stays valid under every sequence of calls, and the bytes come out as they went in: what
-- was in the ring and what the writes put there, in order, is what the reads hand out, in order,
-- followed by what the ring then holds.
pub pipe_fifo :
    (cs : List Call) {p : Pipe}
    → IsValid p
    → IsValid (after cs p)
      × (contents p ++ all_taken cs p ≡ all_handed cs p ++ contents (after cs p))
unfolding after all_taken all_handed
pipe_fifo [] {p} v = (v, append-nil (contents p))
pipe_fifo (c ∷ cs) {p} v =
    let rest = pipe_fifo cs (call-IsValid c v) in
    (
      rest.0,
      sym (append_assoc (contents p) (taken c p) (all_taken cs (call c p)))
          ∙ ap (λ (w : List ℕ). w ++ all_taken cs (call c p)) (call_flow c v)
          ∙ append_assoc (handed c p) (contents (call c p)) (all_taken cs (call c p))
          ∙ ap (λ (w : List ℕ). handed c p ++ w) rest.1
          ∙ sym (
              append_assoc (handed c p) (all_handed cs (call c p))
                (contents (after cs (call c p)))),
    )

-- The page of a pipe is freed by the close of its second end, and by no other.
pub pipeclose_frees :
    (writable : Bool) (p : Pipe)
    → (pipeclose writable p).2 ≡ (if writable then not p.readopen else not p.writeopen)
unfolding pipeclose
pipeclose_frees true p = ground arith
pipeclose_frees false p = ground arith
