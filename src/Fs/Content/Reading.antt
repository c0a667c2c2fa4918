-- ===== src/Fs/Content/Reading.antt =====
-- `readi` of Xv6-Threads/src/fs.c reads the file as an array of bytes.
use mathlib.Core.Path.{subst}
use os_wsl.Prelude.{
  ℕ, zero, suc, ◌+◌, ◌-◌, ◌*◌, ◌/◌, ◌%◌, min, ◌≤◌, ◌<◌, ◌≡◌, ◌≢◌, ◌⊎◌, refl, sym, ap, ap₂, ◌∙◌, inl,
  inr, true, false, ◌&&◌, ◌||◌, some, arith, u32, ltb, leb, ltb→lt, lt→ltb, ◌==◌, if◌then◌else◌,
  Bool-cases,
}
use os_wsl.Fs.{Superblock, Bytes}
use os_wsl.Fs.Inode.{Inode, t_dev}
use os_wsl.Fs.Inode.Spots.{spot, Sound, byte_in, content}
use os_wsl.Fs.Inode.Mapping.{bmap-held}
use os_wsl.Fs.Content.{Memory, Driver, copied_out, part, read_loop, returns, readi}

-- The bytes of a file are in blocks of its own; it is not a device.
pub record Holds (sb : Superblock) (ip : Inode) (st : Bytes) : Type 0 where
  pub sound : Sound sb ip.inum ip.addrs st
  pub bounded : ip.size ≤ 71680
  pub filled : (k : ℕ) → k * 512 < ip.size → spot ip.addrs st k ≢ 0
  pub plain : ip.type ≢ t_dev

-- Memory `mem'` has `n` bytes of the file from offset `off` on at `dst`, and is `mem` elsewhere.
abbrev pub Delivered : (ℕ → ℕ) → ℕ → ℕ → ℕ → Memory → Memory → Type 0
Delivered file off dst n mem mem' =
    ((i : ℕ) → i < n → mem' (dst + i) ≡ file (off + i))
    × ((x : ℕ) → (x < dst) ⊎ (dst + n ≤ x) → mem' x ≡ mem x)

-- The bytes of one round.
round-Delivered :
    (ip : Inode) (st : Bytes) (off dst m : ℕ) (mem : Memory)
    → spot ip.addrs st (off / 512) ≢ 0
    → off % 512 + m ≤ 512
    → Delivered
        (content ip.addrs st)
        off
        dst
        m
        mem
        (copied_out st (spot ip.addrs st (off / 512)) (off % 512) dst m mem)
round-Delivered ip st off dst m mem nz le = (λ i lt. inside i lt, λ x out. ground arith)
  where
    in_block : (b j k : ℕ) → b ≢ 0 → j ≡ k → st b j ≡ byte_in st b k
    in_block b j k ne e =
        let some_block : (b == 0) ≡ false = ground arith in rw some_block (ap (st b) e)

    inside :
        (i : ℕ)
        → i < m
        → copied_out st (spot ip.addrs st (off / 512)) (off % 512) dst m mem (dst + i)
          ≡ content ip.addrs st (off + i)
    inside i lt =
        let taken : (leb dst (dst + i) && ltb (dst + i) (dst + m)) ≡ true = ground arith in
        let same : off / 512 ≡ (off + i) / 512 = omega arith in
        rw taken (
          in_block (spot ip.addrs st (off / 512)) (off % 512 + (dst + i - dst)) ((off + i) % 512) nz
            (omega arith)
          ∙ ap (λ k. byte_in st (spot ip.addrs st k) ((off + i) % 512)) same)

-- Rounds one after the other.
Delivered-append :
    (file : ℕ → ℕ) (off dst m n : ℕ) (mem mem1 mem2 : Memory)
    → Delivered file off dst m mem mem1
    → Delivered file (off + m) (dst + m) n mem1 mem2
    → Delivered file off dst (m + n) mem mem2
Delivered-append file off dst m n mem mem1 mem2 first next = (
  λ i lt. elim (Bool-cases (ltb i m)) [
    | inl e ↦ next.1 (dst + i) (inl (ground arith)) ∙ first.0 i (ltb→lt i m e)
    | inr e ↦ ap mem2 (ground arith) ∙ next.0 (i - m) (ground arith) ∙ ap file (ground arith)
  ],
  λ x out. next.1 x (ground arith) ∙ first.1 x (ground arith),
)

read_step :
    (sb : Superblock) (fuel tot n off dst m : ℕ) (ip : Inode) (st : Bytes) (mem : Memory)
    → tot < n
    → n < 71681
    → off + (n - tot) < 71681
    → spot ip.addrs st (off / 512) ≢ 0
    → m ≡ part (n - tot) off
    → read_loop sb (suc fuel) tot n off dst ip st mem
      ≡ read_loop sb fuel
          (tot + m)
          n
          (off + m)
          (dst + m)
          ip
          st
          (copied_out st (spot ip.addrs st (off / 512)) (off % 512) dst m mem)
unfolding read_loop
read_step sb fuel tot n off dst m ip st mem lt small bound nz e =
    let tot' : u32 (tot + part (n - tot) off) ≡ tot + m = omega arith in
    let off' : u32 (off + part (n - tot) off) ≡ off + m = omega arith in
    let b = spot ip.addrs st (off / 512) in
    rw (lt→ltb tot n lt) (
      rw (bmap-held sb ip st (off / 512) (omega arith) nz) (
        ap₂
          (λ t o.
            read_loop sb fuel t n o (dst + part (n - tot) off) ip st
              (copied_out st b (off % 512) dst (part (n - tot) off) mem))
          tot' off'
        ∙ ap
            (λ p.
              read_loop sb fuel (tot + m) n (off + m) (dst + p) ip st
                (copied_out st b (off % 512) dst p mem))
            (sym e)))

read_loop-Delivered :
    (sb : Superblock) (fuel tot n off dst : ℕ) (ip : Inode) (st : Bytes) (mem : Memory)
    → Holds sb ip st
    → tot ≤ n
    → n - tot ≤ fuel
    → off + (n - tot) ≤ ip.size
    → n < 71681
    → (mem' : Memory) × ((read_loop sb fuel tot n off dst ip st mem ≡ some (ip, st, mem'))
        × Delivered (content ip.addrs st) off dst (n - tot) mem mem')
unfolding read_loop
read_loop-Delivered sb zero tot n off dst ip st mem holds le enough bound small =
    (mem, (refl, (λ i lt. absurd (omega arith), λ x out. refl)))
read_loop-Delivered sb (suc fuel) tot n off dst ip st mem holds le enough bound small =
    elim (Bool-cases (ltb tot n)) [
      | inr e ↦ (mem, (rw e refl, (λ i lt. absurd (ground arith), λ x out. refl)))
      | inl e ↦
          let lt = ltb→lt tot n e in
          let m = part (n - tot) off in
          let nz = holds.filled (off / 512) (omega arith) in
          let b = spot ip.addrs st (off / 512) in
          let mem1 = copied_out st b (off % 512) dst m mem in
          let (mem2, (ran, rest)) =
            read_loop-Delivered sb fuel (tot + m) n (off + m) (dst + m) ip st mem1 holds
              (omega arith) (omega arith) (omega arith) small in
          (
            mem2,
            (
              read_step sb fuel tot n off dst m ip st mem lt small (omega (arith, holds.bounded)) nz
                    refl
                  ∙ ran,
              subst (λ k. Delivered (content ip.addrs st) off dst k mem mem2) (omega arith)
                  (Delivered-append (content ip.addrs st) off dst m (n - (tot + m)) mem mem1 mem2
                    (round-Delivered ip st off dst m mem nz (omega arith)) rest),
            ),
          )
    ]

-- How many bytes of the file there are to read.
abbrev pub readable : ℕ → ℕ → ℕ → ℕ
readable size off n = min n (size - off)

readi-loop :
    (devsw : Driver) (sb : Superblock) (dst off n : ℕ) (ip : Inode) (st : Bytes) (mem : Memory)
    → ip.type ≢ t_dev
    → ip.size ≤ 71680
    → off ≤ ip.size
    → off + n < 4294967296
    → readi devsw sb dst off n ip st mem
      ≡ returns
          (readable ip.size off n)
          (read_loop sb (readable ip.size off n) 0 (readable ip.size off n) off dst ip st mem)
unfolding readi
readi-loop devsw sb dst off n ip st mem plain bounded le small =
    let file : (ip.type == t_dev) ≡ false = ground arith in
    let within : (ltb ip.size off || ltb (u32 (off + n)) off) ≡ false = ground arith in
    let all : (if ltb ip.size (u32 (off + n)) then ip.size - off else n) ≡ readable ip.size off n =
      ground arith in
    rw file (rw within (ap (λ k. returns k (read_loop sb k 0 k off dst ip st mem)) all))

-- For a file whose blocks are all there: from an offset up to its size, `readi` returns as many of the
-- `n` bytes as the file has from there on, with the inode and the disk as they were; those bytes of
-- the file are at `dst` afterwards, and the rest of memory is as it was.
pub readi_lem :
    (devsw : Driver) (sb : Superblock) (dst off n : ℕ) (ip : Inode) (st : Bytes) (mem : Memory)
    → Holds sb ip st
    → off ≤ ip.size
    → off + n < 4294967296
    → (mem' : Memory) × ((readi devsw sb dst off n ip st mem
          ≡ some (readable ip.size off n, ip, st, mem'))
        × Delivered (content ip.addrs st) off dst (readable ip.size off n) mem mem')
readi_lem devsw sb dst off n ip st mem holds le small =
    let all = readable ip.size off n in
    let bounded = holds.bounded in
    let (mem', (ran, put)) =
      read_loop-Delivered sb all 0 all off dst ip st mem holds (omega arith) (omega arith)
        (omega arith) (omega arith) in
    (
      mem',
      (
        readi-loop devsw sb dst off n ip st mem holds.plain bounded le small ∙ ap (returns all) ran,
        subst (λ k. Delivered (content ip.addrs st) off dst k mem mem') (omega arith) put,
      ),
    )
