-- ===== src/Fs/Bitmap.antt =====
-- The free bitmap of Xv6-Threads/src/fs.c as the set of blocks in use.
use mathlib.Core.Path.{subst}
use os_wsl.Prelude.{
  ℕ, zero, suc, ◌+◌, ◌*◌, ◌/◌, ◌%◌, ◌≤◌, ◌<◌, ◌≡◌, ◌≢◌, refl, sym, ap, ap₂, ◌∙◌, inl, inr, Bool,
  true, false, ◌&&◌, Option, none, some, arith, ltb, ◌==◌, if◌then◌else◌, Bool-cases, ltb→lt,
}
use os_wsl.Fs.{
  bsize, bpb, Superblock, Bytes, put, bblock, bzero, bit, with_bit, without_bit, balloc_in,
  balloc_out, balloc, bfree,
}
use os_wsl.Fs.Bits.{bit-with_self, bit-with_ne, bit-without_self, bit-without_ne}

-- Is the bit of the block set?
abbrev pub used : Superblock → Bytes → ℕ → Bool
used sb st b = bit (b % bpb % 8) (st (bblock sb b) (b % bpb / 8))

-- The blocks of the bitmap are in use themselves.
abbrev pub MapInUse : Superblock → Bytes → Type 0
MapInUse sb st = (c : ℕ) → c < sb.size → used sb st (bblock sb c) ≡ true

abbrev marked : Superblock → ℕ → ℕ → Bytes → Bytes
marked sb b v st = put (bblock sb b) (b % bpb / 8) v st

same_byte :
    (sb : Superblock) (st : Bytes) (b c v : ℕ) (new : Bool)
    → bit (b % bpb % 8) v ≡ new
    → ((i : ℕ) → b % bpb % 8 ≢ i → bit i v ≡ bit i (st (bblock sb b) (b % bpb / 8)))
    → bblock sb c ≡ bblock sb b
    → c % bpb / 8 ≡ b % bpb / 8
    → bit (c % bpb % 8) v ≡ (if c == b then new else used sb st c)
same_byte sb st b c v new self other blocks bytes = elim (Bool-cases (c == b)) [
  | inl e ↦ let here : c % bpb % 8 ≡ b % bpb % 8 = ground arith in rw e (rw here self)
  | inr e ↦
      let apart : b % bpb % 8 ≢ c % bpb % 8 = ground arith in
      rw e (
        other (c % bpb % 8) apart
        ∙ ap₂ (λ p q. bit (c % bpb % 8) (st p q)) (sym blocks) (sym bytes))
]

-- A byte of the bitmap is changed by `f`, which keeps all its bits but that of `b`.
used-marked :
    (sb : Superblock) (st : Bytes) (b c v : ℕ) (new : Bool)
    → bit (b % bpb % 8) v ≡ new
    → ((i : ℕ) → b % bpb % 8 ≢ i → bit i v ≡ bit i (st (bblock sb b) (b % bpb / 8)))
    → used sb (marked sb b v st) c ≡ (if c == b then new else used sb st c)
used-marked sb st b c v new self other =
    elim (Bool-cases (bblock sb c == bblock sb b && c % bpb / 8 == b % bpb / 8)) [
      | inl e ↦
          let blocks : bblock sb c ≡ bblock sb b = ground arith in
          let bytes : c % bpb / 8 ≡ b % bpb / 8 = ground arith in
          rw e (same_byte sb st b c v new self other blocks bytes)
      | inr e ↦ let apart : (c == b) ≡ false = ground arith in rw e (rw apart refl)
    ]

-- Block `b` was free; now it is in use and zeroed, and nothing else has changed.
pub record Allocated (sb : Superblock) (st : Bytes) (b : ℕ) (st' : Bytes) : Type 0 where
  pub inside : b < sb.size
  pub was_free : used sb st b ≡ false
  pub map_after : (c : ℕ) → c < sb.size → used sb st' c ≡ (if c == b then true else used sb st c)
  pub zeroed : (j : ℕ) → j < bsize → st' b j ≡ 0
  pub others : (c j : ℕ) → c ≢ b → c ≢ bblock sb b → st' c j ≡ st c j

-- The blocks from `lo` up to `hi` are in use.
abbrev pub AllUsed : Superblock → Bytes → ℕ → ℕ → Type 0
AllUsed sb st lo hi = (c : ℕ) → lo ≤ c → c < hi → c < sb.size → used sb st c ≡ true

abbrev pub Answer : Superblock → Bytes → ℕ → ℕ → Option (ℕ × Bytes) → Type 0
Answer sb st lo hi none = AllUsed sb st lo hi
Answer sb st lo hi (some (b, st')) = Allocated sb st b st'

pub bzero-ne : (b c j : ℕ) (st : Bytes) → c ≢ b → bzero b st c j ≡ st c j
unfolding bzero
bzero-ne b c j st h = let apart : (c == b) ≡ false = ground arith in rw apart refl

bzero-zero : (b j : ℕ) (st : Bytes) → j < bsize → bzero b st b j ≡ 0
unfolding bzero
bzero-zero b j st h = let here : (b == b && ltb j bsize) ≡ true = ground arith in rw here refl

pub put-ne : (b i v c j : ℕ) (st : Bytes) → c ≢ b → put b i v st c j ≡ st c j
put-ne b i v c j st h = let apart : (c == b && j == i) ≡ false = ground arith in rw apart refl

free-ne :
    (sb : Superblock) (st : Bytes) (b c : ℕ) → used sb st b ≡ false → used sb st c ≡ true → c ≢ b
free-ne sb st b c free taken e =
    let both : true ≡ false = sym taken ∙ ap (used sb st) e ∙ free in absurd (ground arith)

abbrev taken : Superblock → ℕ → Bytes → Bytes
taken sb b st = bzero b (marked sb b (with_bit (b % bpb % 8) (st (bblock sb b) (b % bpb / 8))) st)

taken-Allocated :
    (sb : Superblock) (st : Bytes) (b : ℕ)
    → MapInUse sb st
    → b < sb.size
    → used sb st b ≡ false
    → Allocated sb st b (taken sb b st)
taken-Allocated sb st b maps inside free =
    let byte = st (bblock sb b) (b % bpb / 8) in
    let v = with_bit (b % bpb % 8) byte in
    let st1 = marked sb b v st in
    record {
      inside = inside;
      was_free = free;
      map_after = λ c lt.
          ap (bit (c % bpb % 8)) (
            bzero-ne b (bblock sb c) (c % bpb / 8) st1
              (free-ne sb st b (bblock sb c) free (maps c lt)))
          ∙ used-marked sb st b c v true (bit-with_self (b % bpb % 8) byte)
              (λ i ne. bit-with_ne (b % bpb % 8) i byte ne);
      zeroed = λ j lt. bzero-zero b j st1 lt;
      others = λ c j ne ne_map.
          bzero-ne b c j st1 ne ∙ put-ne (bblock sb b) (b % bpb / 8) v c j st ne_map;
    }

-- The block that bit `bi` of the bitmap block of `b` stands for.
taken_at :
    (sb : Superblock) (st : Bytes) (b bi : ℕ)
    → b % bpb ≡ 0
    → bi < bpb
    → (used sb st (b + bi) ≡ bit (bi % 8) (st (bblock sb b) (bi / 8)))
      × (taken sb (b + bi) st
          ≡ bzero
              (b + bi)
              (put (bblock sb b) (bi / 8) (with_bit (bi % 8) (st (bblock sb b) (bi / 8))) st))
taken_at sb st b bi whole lt =
    let low : (b + bi) % bpb ≡ bi = omega arith in
    let high : (b + bi) / bpb ≡ b / bpb = omega arith in (rw (low, high) refl, rw (low, high) refl)

AllUsed-cons :
    (sb : Superblock) (st : Bytes) (lo hi : ℕ)
    → used sb st lo ≡ true
    → AllUsed sb st (lo + 1) hi
    → AllUsed sb st lo hi
AllUsed-cons sb st lo hi first rest c from below lt = elim (Bool-cases (c == lo)) [
  | inl e ↦ let this : c ≡ lo = ground arith in rw this first
  | inr e ↦ rest c (ground arith) below lt
]

Answer-cons :
    (sb : Superblock) (st : Bytes) (lo hi : ℕ) (o : Option (ℕ × Bytes))
    → used sb st lo ≡ true
    → Answer sb st (lo + 1) hi o
    → Answer sb st lo hi o
Answer-cons sb st lo hi none first rest = AllUsed-cons sb st lo hi first rest
Answer-cons sb st lo hi (some (b, st')) first rest = rest

Answer-at :
    (sb : Superblock) (st : Bytes) (o : Option (ℕ × Bytes)) {lo lo' hi hi' : ℕ}
    → lo ≡ lo'
    → hi ≡ hi'
    → Answer sb st lo hi o
    → Answer sb st lo' hi' o
Answer-at sb st o {lo' = lo'} {hi = hi} e f h =
    subst (λ b. Answer sb st lo' b o) f (subst (λ a. Answer sb st a hi o) e h)

balloc_in-Answer :
    (sb : Superblock) (st : Bytes) (b n bi : ℕ)
    → MapInUse sb st
    → b % bpb ≡ 0
    → bi + n ≤ bpb
    → Answer sb st (b + bi) (b + (bi + n)) (balloc_in sb b n bi st)
unfolding balloc_in
balloc_in-Answer sb st b zero bi maps whole le = λ c lo hi lt. absurd (omega arith)
balloc_in-Answer sb st b (suc n) bi maps whole le = elim (Bool-cases (ltb (b + bi) sb.size)) [
  | inr e ↦ rw e (λ c lo hi lt. absurd (ground arith))
  | inl e ↦
      let (same, as_taken) = taken_at sb st b bi whole (omega arith) in
      rw e (elim (Bool-cases (bit (bi % 8) (st (bblock sb b) (bi / 8)))) [
        | inl f ↦
            let next : Answer sb st (b + bi + 1) (b + (bi + suc n)) (balloc_in sb b n (bi + 1) st) =
              Answer-at sb st (balloc_in sb b n (bi + 1) st) (omega arith) (omega arith)
                (balloc_in-Answer sb st b n (bi + 1) maps whole (omega arith)) in
            rw f (
              Answer-cons sb st (b + bi) (b + (bi + suc n)) (balloc_in sb b n (bi + 1) st)
                (same ∙ f) next)
        | inr f ↦ rw f (
            subst (Allocated sb st (b + bi)) as_taken
              (taken-Allocated sb st (b + bi) maps (ltb→lt (b + bi) sb.size e) (same ∙ f)))
      ])
]

AllUsed-append :
    (sb : Superblock) (st : Bytes) (lo mid hi : ℕ)
    → AllUsed sb st lo mid
    → AllUsed sb st mid hi
    → AllUsed sb st lo hi
AllUsed-append sb st lo mid hi first rest c from below lt = elim (Bool-cases (ltb c mid)) [
  | inl e ↦ first c from (ltb→lt c mid e) lt
  | inr e ↦ rest c (ground arith) below lt
]

Answer-append :
    (sb : Superblock) (st : Bytes) (lo mid hi : ℕ) (o later : Option (ℕ × Bytes))
    → Answer sb st lo mid o
    → Answer sb st mid hi later
    → Answer sb st lo hi (elim o [ none ↦ later | some r ↦ some r ])
Answer-append sb st lo mid hi none none first rest = AllUsed-append sb st lo mid hi first rest
Answer-append sb st lo mid hi none (some (b, st')) first rest = rest
Answer-append sb st lo mid hi (some (b, st')) later first rest = first

-- The step of the outer loop, on whether there are blocks left.
Answer-round :
    (sb : Superblock) (st : Bytes) (lo mid hi : ℕ) (more : Bool) (o later : Option (ℕ × Bytes))
    → (more ≡ false → AllUsed sb st lo hi)
    → Answer sb st lo mid o
    → Answer sb st mid hi later
    → Answer sb st lo hi (if more then elim o [ none ↦ later | some r ↦ some r ] else none)
Answer-round sb st lo mid hi false o later over first rest = over refl
Answer-round sb st lo mid hi true o later over first rest =
    Answer-append sb st lo mid hi o later first rest

balloc_out-Answer :
    (sb : Superblock) (st : Bytes) (fuel b : ℕ)
    → MapInUse sb st
    → b % bpb ≡ 0
    → Answer sb st b (b + fuel * bpb) (balloc_out sb fuel b st)
unfolding balloc_out
balloc_out-Answer sb st zero b maps whole = λ c lo hi lt. absurd (omega arith)
balloc_out-Answer sb st (suc fuel) b maps whole =
    let o = balloc_in sb b bpb 0 st in
    let later = balloc_out sb fuel (b + bpb) st in
    Answer-round sb st b (b + bpb) (b + suc fuel * bpb) (ltb b sb.size) o later
      (λ e c lo hi lt. absurd (ground arith))
      (Answer-at sb st o (omega arith) (omega arith)
        (balloc_in-Answer sb st b bpb 0 maps whole (omega arith)))
      (Answer-at sb st later refl (omega arith)
        (balloc_out-Answer sb st fuel (b + bpb) maps (omega arith)))

-- If the blocks of the bitmap are in use: when `balloc` gives a block, it is a block of the disk that
-- was free, it is in use and zeroed afterwards, no other block's bit has changed, and no byte of
-- another block but the bitmap block of that one; when it panics, every block of the disk is in use.
pub balloc_lem :
    (sb : Superblock) (st : Bytes) → MapInUse sb st → Answer sb st 0 sb.size (balloc sb st)
unfolding balloc
balloc_lem sb st maps =
    whole_disk (balloc_out sb (sb.size / bpb + 1) 0 st)
      (balloc_out-Answer sb st (sb.size / bpb + 1) 0 maps refl)
  where
    whole_disk :
        (o : Option (ℕ × Bytes))
        → Answer sb st 0 (0 + (sb.size / bpb + 1) * bpb) o
        → Answer sb st 0 sb.size o
    whole_disk none h = λ c lo hi lt. h c lo (omega arith) lt
    whole_disk (some (b, st')) h = h

-- What `bfree` answers for block `b`.
abbrev pub Freed : Superblock → ℕ → Bytes → Option Bytes → Type 0
Freed sb b st none = used sb st b ≡ false
Freed sb b st (some st') =
    (used sb st b ≡ true)
    × ((c : ℕ) → used sb st' c ≡ (if c == b then false else used sb st c))
    × ((c j : ℕ) → c ≢ bblock sb b → st' c j ≡ st c j)

-- `bfree` clears the bit of a block in use, and no other bit, and changes no block but the bitmap block of that one; of
-- a block that is free it panics.
pub bfree_lem : (sb : Superblock) (b : ℕ) (st : Bytes) → Freed sb b st (bfree sb b st)
unfolding bfree
bfree_lem sb b st = elim (Bool-cases (used sb st b)) [
  | inr e ↦ rw e e
  | inl e ↦
      let byte = st (bblock sb b) (b % bpb / 8) in
      let v = without_bit (b % bpb % 8) byte in
      rw e (
        e,
        λ c.
            used-marked sb st b c v false (bit-without_self (b % bpb % 8) byte)
              (λ i ne. bit-without_ne (b % bpb % 8) i byte ne),
        λ c j ne. put-ne (bblock sb b) (b % bpb / 8) v c j st ne,
      )
]
