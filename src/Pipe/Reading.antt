-- ===== src/Pipe/Reading.antt =====
-- `piperead` of Xv6-Threads/src/pipe.c takes the oldest bytes out of the ring.
use os_wsl.Prelude.{
  ℕ, zero, suc, ◌+◌, ◌%◌, ◌<◌, ◌≡◌, refl, ap, ap₂, sym, ◌∙◌, Bool, true, false, ◌&&◌, List, [], ◌∷◌,
  ◌++◌, arith, get_or, take, drop, take-append-drop, u32, ◌==◌, if◌then◌else◌, Bool-cases, inl, inr,
}
use os_wsl.Pipe.{Pipe, pipesize, ReadEnd, read, read_failed, read_sleeps, copy_out, piperead}
use os_wsl.Pipe.Queue.{count, IsValid, window, contents, window-mod}

-- What a read has done when it copies.
pub record Copied (n : ℕ) (p : Pipe) (out : List ℕ × Pipe) : Type 0 where
  pub valid : IsValid out.1
  pub bytes : out.0 ≡ take n (contents p)
  pub rest : contents out.1 ≡ drop n (contents p)
  pub writer : (out.1.nwrite ≡ p.nwrite) × (out.1.buf ≡ p.buf)
  pub same_ends : (out.1.readopen ≡ p.readopen) × (out.1.writeopen ≡ p.writeopen)

drop_nil : (n : ℕ) → drop {A = ℕ} n [] ≡ []
drop_nil zero = refl
drop_nil (suc n) = refl

empty-count : {p : Pipe} → IsValid p → (p.nread == p.nwrite) ≡ (count p == 0)
empty-count v = ground arith

-- The pipe without its oldest byte.
abbrev advance : Pipe → Pipe
advance p = record p { nread = u32 (p.nread + 1) }

contents-advance :
    {p : Pipe}
    → IsValid p
    → 0 < count p
    → contents p ≡ get_or p.buf (p.nread % pipesize) 0 ∷ contents (advance p)
contents-advance {p} v h =
    ap (window p.buf p.nread) {y = suc (count (advance p))} (omega arith)
    ∙ ap (λ (w : List ℕ). get_or p.buf (p.nread % pipesize) 0 ∷ w)
        (window-mod p.buf (p.nread + 1) (u32 (p.nread + 1)) (count (advance p)) (omega arith))

pub copy_out-Copied : (n : ℕ) {p : Pipe} → IsValid p → Copied n p (copy_out n p)
unfolding copy_out
copy_out-Copied zero {p} v = record {
  valid = v;
  bytes = refl;
  rest = refl;
  writer = (refl, refl);
  same_ends = (refl, refl);
}
copy_out-Copied (suc n) {p} v = elim (Bool-cases (count p == 0)) [
  | inl e ↦
      let nothing : contents p ≡ [] = ap (window p.buf p.nread) {y = 0} (ground arith) in
      rw (empty-count v ∙ e) (record {
        valid = v;
        bytes = rw nothing;
        rest = rw nothing;
        writer = (refl, refl);
        same_ends = (refl, refl);
      })
  | inr e ↦
      let some_byte : 0 < count p = ground arith in
      let next : IsValid (advance p) = record {
        sized = v.sized;
        read_word = omega arith;
        write_word = v.write_word;
        fits = omega (arith, v.fits);
      } in
      let tail = copy_out-Copied n next in
      rw (empty-count v ∙ e) (record {
        valid = tail.valid;
        bytes =
            rw (contents-advance v some_byte)
              (ap (λ (w : List ℕ). get_or p.buf (p.nread % pipesize) 0 ∷ w) tail.bytes);
        rest = rw (contents-advance v some_byte) tail.rest;
        writer = tail.writer;
        same_ends = tail.same_ends;
      })
]

-- `piperead` on an empty ring whose write end is open changes nothing, and fails if the caller has
-- been killed or else sleeps. In all other cases it returns the oldest bytes, at most `n`, in order,
-- and removes them; these are none if the ring is empty. The ring stays valid.
pub piperead_lem :
    (killed : Bool) (n : ℕ) {p : Pipe}
    → IsValid p
    → ((piperead killed n p).0 ≡ (
        if count p == 0 && p.writeopen
        then (if killed then read_failed else read_sleeps)
        else read (take n (contents p))))
      × (contents (piperead killed n p).1
          ≡ (if count p == 0 && p.writeopen then contents p else drop n (contents p)))
      × IsValid (piperead killed n p).1
unfolding piperead
piperead_lem killed n {p} v =
    let done = copy_out-Copied n v in
    rw (empty-count v) (elim (Bool-cases (count p == 0 && p.writeopen)) [
      | inl e ↦ rw e (refl, refl, v)
      | inr e ↦ rw e (ap read done.bytes, done.rest, done.valid)
    ])

-- The bytes that a read hands to its caller.
abbrev pub bytes_of : ReadEnd → List ℕ
bytes_of (read xs) = xs
bytes_of _ = []

stopped :
    (killed : Bool) (w : List ℕ) → w ≡ bytes_of (if killed then read_failed else read_sleeps) ++ w
stopped true w = refl
stopped false w = refl

pub piperead_bytes :
    (killed : Bool) (n : ℕ) {p : Pipe}
    → IsValid p
    → IsValid (piperead killed n p).1
      × (contents p ≡ bytes_of (piperead killed n p).0 ++ contents (piperead killed n p).1)
unfolding piperead
piperead_bytes killed n {p} v =
    let done = copy_out-Copied n v in
    elim (Bool-cases (p.nread == p.nwrite && p.writeopen)) [
      | inl e ↦ rw e ((v, stopped killed (contents p)))
      | inr e ↦ rw e (
        done.valid,
        sym (take-append-drop n (contents p)) ∙ ap₂ ◌++◌ (sym done.bytes) (sym done.rest),
      )
    ]
