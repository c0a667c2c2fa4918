-- ===== src/Pipe/Queue.antt =====
-- The pipe of Xv6-Threads/src/pipe.c holds a queue of at most PIPESIZE bytes, which `pipewrite`
-- extends.
use mathlib.Core.List.{append-nil, append_assoc}
use os_wsl.Prelude.{
  ℕ, zero, suc, ◌+◌, ◌-◌, ◌%◌, ◌≤◌, ◌<◌, ◌≡◌, ◌≢◌, refl, ap, ap₂, ◌∙◌, Bool, not, ◌||◌, List, [],
  ◌∷◌, ◌++◌, arith, length, length-set, get_or, set, take, drop, u32, leb, true, false, ◌==◌,
  if◌then◌else◌, Bool-cases, inl, inr,
}
use os_wsl.Pipe.{Pipe, pipesize, WriteEnd, wrote, failed, write_sleeps, push, pipewrite}

-- The number of bytes in the ring: the difference of two counters that wrap at 2 ^ 32.
abbrev pub count : Pipe → ℕ
count p = u32 (p.nwrite + 4294967296 - p.nread)

pub record IsValid (p : Pipe) : Type 0 where
  pub sized : length p.buf ≡ pipesize
  pub read_word : p.nread < 4294967296
  pub write_word : p.nwrite < 4294967296
  pub fits : count p ≤ pipesize

-- The `n` bytes from counter value `i` on.
abbrev pub window : List ℕ → ℕ → ℕ → List ℕ
window buf i zero = []
window buf i (suc n) = get_or buf (i % pipesize) 0 ∷ window buf (i + 1) n

abbrev pub contents : Pipe → List ℕ
contents p = window p.buf p.nread (count p)

pub length-window : (buf : List ℕ) (i n : ℕ) → length (window buf i n) ≡ n
length-window buf i zero = refl
length-window buf i (suc n) = ap suc (length-window buf (i + 1) n)

get_or-set_self : (xs : List ℕ) (i v : ℕ) → i < length xs → get_or (set xs i v) i 0 ≡ v
get_or-set_self [] i v h = elim h [ ]
get_or-set_self (x ∷ xs) zero v h = refl
get_or-set_self (x ∷ xs) (suc i) v h = get_or-set_self xs i v (omega arith)

get_or-set_ne : (xs : List ℕ) (i j v : ℕ) → i ≢ j → get_or (set xs i v) j 0 ≡ get_or xs j 0
get_or-set_ne [] i j v h = refl
get_or-set_ne (x ∷ xs) zero zero v h = absurd (h refl)
get_or-set_ne (x ∷ xs) zero (suc j) v h = refl
get_or-set_ne (x ∷ xs) (suc i) zero v h = refl
get_or-set_ne (x ∷ xs) (suc i) (suc j) v h = get_or-set_ne xs i j v (omega arith)

-- Only the remainder of the counter matters.
pub window-mod :
    (buf : List ℕ) (i j n : ℕ) → i % pipesize ≡ j % pipesize → window buf i n ≡ window buf j n
window-mod buf i j zero h = refl
window-mod buf i j (suc n) h =
    ap₂ ◌∷◌ (ap (λ (k : ℕ). get_or buf k 0) h) (window-mod buf (i + 1) (j + 1) n (omega arith))

-- A byte stored just behind the window is its last one.
window-set :
    (buf : List ℕ) (x n i j : ℕ)
    → length buf ≡ pipesize
    → n < pipesize
    → j ≡ (i + n) % pipesize
    → window (set buf j x) i (suc n) ≡ window buf i n ++ (x ∷ [])
window-set buf x zero i j s h e =
    ap (λ (k : ℕ). k ∷ [])
      (ap (λ (k : ℕ). get_or (set buf j x) k 0) (omega arith)
        ∙ get_or-set_self buf j x (omega arith))
window-set buf x (suc n) i j s h e =
    ap₂ ◌∷◌ (get_or-set_ne buf j (i % pipesize) x (omega arith))
      (window-set buf x n (i + 1) j s (omega arith) (omega arith))

count-push : {p : Pipe} (x : ℕ) → IsValid p → count p < pipesize → count (push p x) ≡ count p + 1
unfolding push
count-push x v h = omega arith

pub push-IsValid : {p : Pipe} (x : ℕ) → IsValid p → count p < pipesize → IsValid (push p x)
unfolding push
push-IsValid {p} x v h = record {
  sized = length-set p.buf (p.nwrite % pipesize) x ∙ v.sized;
  read_word = v.read_word;
  write_word = omega arith;
  fits = omega (arith, v.fits);
}

pub contents-push :
    {p : Pipe} (x : ℕ)
    → IsValid p
    → count p < pipesize
    → contents (push p x) ≡ contents p ++ (x ∷ [])
unfolding push
contents-push {p} x v h =
    ap (window (push p x).buf p.nread) {y = suc (count p)} (omega (arith, count-push x v h))
    ∙ window-set p.buf x (count p) p.nread (p.nwrite % pipesize) v.sized h (omega arith)

full-count : {p : Pipe} → IsValid p → (p.nwrite == u32 (p.nread + pipesize)) ≡ (count p == pipesize)
full-count v = ground arith

-- What a write has done when it stops.
pub record Wrote (killed : Bool) (p : Pipe) (xs : List ℕ) (out : WriteEnd × Pipe) : Type 0 where
  pub valid : IsValid out.1
  pub bytes : contents out.1 ≡ contents p ++ take (pipesize - count p) xs
  pub ends : out.0 ≡ (
      if leb (length xs) (pipesize - count p)
      then wrote
      else (if not p.readopen || killed
          then failed
          else write_sleeps (drop (pipesize - count p) xs)))
  pub reader : out.1.nread ≡ p.nread
  pub same_ends : (out.1.readopen ≡ p.readopen) × (out.1.writeopen ≡ p.writeopen)

take_room : (n : ℕ) (x : ℕ) (xs : List ℕ) → 0 < n → take n (x ∷ xs) ≡ x ∷ take (n - 1) xs
take_room zero x xs h = elim h [ ]
take_room (suc n) x xs h = ap (λ (k : ℕ). x ∷ take k xs) (omega arith)

drop_room : (n : ℕ) (x : ℕ) (xs : List ℕ) → 0 < n → drop n (x ∷ xs) ≡ drop (n - 1) xs
drop_room zero x xs h = elim h [ ]
drop_room (suc n) x xs h = ap (λ (k : ℕ). drop k xs) (omega arith)

take_nil : (n : ℕ) → take {A = ℕ} n [] ≡ []
take_nil zero = refl
take_nil (suc n) = refl

fits_same : (n room : ℕ) → 0 < room → leb n (room - 1) ≡ leb (suc n) room
fits_same n room h = ground arith

le→leb : (a b : ℕ) → a ≤ b → leb a b ≡ true
le→leb a b h = ground arith

reader-push : (p : Pipe) (x : ℕ) → (push p x).nread ≡ p.nread
unfolding push
reader-push p x = refl

open-push :
    (p : Pipe) (x : ℕ) → ((push p x).readopen ≡ p.readopen) × ((push p x).writeopen ≡ p.writeopen)
unfolding push
open-push p x = (refl, refl)

-- `pipewrite` appends as many bytes as there is room for, in order. It ends with all bytes written
-- if they fit; otherwise it fails if the read end is closed or the caller has been killed, and else
-- sleeps with the rest to come. The ring stays valid.
pub pipewrite_lem :
    (killed : Bool) (xs : List ℕ) {p : Pipe} → IsValid p → Wrote killed p xs (pipewrite killed xs p)
unfolding pipewrite
pipewrite_lem killed [] {p} v = record {
  valid = v;
  bytes = rw (take_nil (pipesize - count p), append-nil);
  ends = rw (le→leb 0 (pipesize - count p) (omega arith));
  reader = refl;
  same_ends = (refl, refl);
}
pipewrite_lem killed (x ∷ xs) {p} v = elim (Bool-cases (count p == pipesize)) [
  | inl e ↦
      let no_room : pipesize - count p ≡ 0 = ground arith in
      let long : leb (length (x ∷ xs)) 0 ≡ false = ground arith in
      rw (full-count v ∙ e) (record {
        valid = v;
        bytes = rw (no_room, append-nil);
        ends = rw (no_room, long);
        reader = refl;
        same_ends = (refl, refl);
      })
  | inr e ↦
      let room : count p < pipesize = ground (arith, v.fits) in
      let rest = pipewrite_lem killed xs (push-IsValid x v room) in
      let less : pipesize - count (push p x) ≡ pipesize - count p - 1 =
        omega (arith, count-push x v room) in
      rw (full-count v ∙ e) (record {
        valid = rest.valid;
        bytes = ground (
          arith,
          rest.bytes,
          contents-push x v room,
          less,
          take_room (pipesize - count p) x xs,
          append_assoc (contents p) (x ∷ []) (take (pipesize - count p - 1) xs),
        );
        ends =
            rest.ends
            ∙ rw (
              less,
              (open-push p x).0,
              drop_room (pipesize - count p) x xs (omega arith),
              fits_same (length xs) (pipesize - count p) (omega arith),
            );
        reader = rest.reader ∙ reader-push p x;
        same_ends = (rest.same_ends.0 ∙ (open-push p x).0, rest.same_ends.1 ∙ (open-push p x).1);
      })
]
