-- ===== src/Fs/Content/Rounds.antt =====
-- The loop of `writei` of Xv6-Threads/src/fs.c, and its end.
use mathlib.Core.Path.{subst}
use os_wsl.Prelude.{
  ℕ, zero, suc, ◌+◌, ◌-◌, ◌*◌, ◌/◌, ◌%◌, ◌≤◌, ◌<◌, ◌≡◌, ◌≢◌, refl, sym, ap, ap₂, ◌∙◌, inl, inr,
  Option, none, some, arith, u32, ltb, ltb→lt, lt→ltb, ◌==◌, if◌then◌else◌, Bool-cases,
}
use os_wsl.Fs.{Superblock, Bytes}
use os_wsl.Fs.Free.{free_blocks}
use os_wsl.Fs.Inode.{Inode, bmap}
use os_wsl.Fs.Inode.Spots.{spot, Sound, content}
use os_wsl.Fs.Inode.Mapping.{Maps, Mapped, bmap_lem}
use os_wsl.Fs.Content.{Memory, copied_in, part, write_loop}
use os_wsl.Fs.Content.Writing.{
  Written, Wrote, stored, stored_spots, stored-Written, stored-Sound, stored-free,
}

-- A round of `m` bytes after `bmap` has given the block.
round-Wrote :
    (sb : Superblock) (mem : Memory) (ip : Inode) (st : Bytes) (src off m a : ℕ) (ip' : Inode)
    (st' : Bytes)
    → 0 < m
    → off % 512 + m ≤ 512
    → off + m ≤ 71680
    → Maps sb ip st (off / 512) 2 a ip' st'
    → Wrote sb mem ip st src off m 2 ip' (copied_in mem src a (off % 512) m st')
round-Wrote sb mem ip st src off m a ip' st' pos fits bound maps =
    subst (λ b. Wrote sb mem ip st src off m 2 ip' (copied_in mem src b (off % 512) m st')) maps.got
      (record {
        rest = maps.rest;
        sound = stored-Sound sb ip.inum ip'.addrs st' mem src off m maps.sound nz pos fits bound;
        kept = λ k le h. spots k le ∙ maps.kept k le h;
        filled = λ k lt lo hi _ z.
            let same : off / 512 ≡ k = omega arith in
            nz (ap (spot ip'.addrs st') same ∙ sym (spots k (omega arith)) ∙ z);
        written = (written.0, λ o lt out. written.1 o lt out ∙ maps.same o lt);
        cost = omega (
          arith,
          maps.cost,
          stored-free sb ip.inum ip'.addrs st' mem src off m maps.sound nz pos fits bound,
        );
      })
  where
    nz : spot ip'.addrs st' (off / 512) ≢ 0
    nz z = maps.nonzero (sym maps.got ∙ z)

    spots :
        (k : ℕ)
        → k ≤ 140
        → spot ip'.addrs
            (stored sb ip.inum ip'.addrs st' mem src off m maps.sound nz pos fits bound)
            k
          ≡ spot ip'.addrs st' k
    spots = stored_spots sb ip.inum ip'.addrs st' mem src off m maps.sound nz pos fits bound

    written : Written (content ip'.addrs st') mem src off m (
        content ip'.addrs
          (stored sb ip.inum ip'.addrs st' mem src off m maps.sound nz pos fits bound))
    written = stored-Written sb ip.inum ip'.addrs st' mem src off m maps.sound nz pos fits bound

Written-append :
    (file file1 file2 : ℕ → ℕ) (mem : Memory) (src off m n : ℕ)
    → off + (m + n) ≤ 71680
    → Written file mem src off m file1
    → Written file1 mem (src + m) (off + m) n file2
    → Written file mem src off (m + n) file2
Written-append file file1 file2 mem src off m n bound first next = (
  λ i lt. elim (Bool-cases (ltb i m)) [
    | inl e ↦ next.1 (off + i) (omega arith) (inl (ground arith)) ∙ first.0 i (ltb→lt i m e)
    | inr e ↦ ap file2 (ground arith) ∙ next.0 (i - m) (ground arith) ∙ ap mem (ground arith)
  ],
  λ o lt out. next.1 o lt (ground arith) ∙ first.1 o lt (ground arith),
)

Wrote-append :
    (sb : Superblock) (mem : Memory) (ip : Inode) (st : Bytes) (src off m n c d : ℕ) (ip1 : Inode)
    (st1 : Bytes) (ip2 : Inode) (st2 : Bytes)
    → 0 < m
    → off + (m + n) ≤ 71680
    → Wrote sb mem ip st src off m c ip1 st1
    → Wrote sb mem ip1 st1 (src + m) (off + m) n d ip2 st2
    → Wrote sb mem ip st src off (m + n) (c + d) ip2 st2
Wrote-append sb mem ip st src off m n c d ip1 st1 ip2 st2 pos bound first next = record {
  rest = next.rest ∙ ap (λ (p : Inode). record p { addrs = ip2.addrs }) first.rest;
  sound = subst (λ (p : Inode). Sound sb p.inum ip2.addrs st2) first.rest next.sound;
  kept = λ k le nz. next.kept k le (λ z. nz (sym (first.kept k le nz) ∙ z)) ∙ first.kept k le nz;
  filled = λ k lt lo hi _. elim (Bool-cases (ltb (k * 512) (off + m))) [
    | inl e ↦ λ z.
        let nz = first.filled k lt lo (ltb→lt (k * 512) (off + m) e) pos in
        nz (sym (next.kept k (omega arith) nz) ∙ z)
    | inr e ↦ next.filled k lt (ground arith) (ground arith) (ground arith)
  ];
  written =
      Written-append (content ip.addrs st) (content ip1.addrs st1) (content ip2.addrs st2) mem src
        off m n bound first.written next.written;
  cost = omega (arith, first.cost, next.cost);
}

-- How many blocks a transfer of `n` bytes goes through.
abbrev pub rounds : ℕ → ℕ → ℕ
rounds off n = if n == 0 then 0 else (off % 512 + n + 511) / 512

rounds_step : (off n : ℕ) → 0 < n → suc (rounds (off + part n off) (n - part n off)) ≤ rounds off n
rounds_step off n pos = ground arith

-- What the loop gives: the file with all the bytes, or a panic for want of free blocks.
abbrev pub WroteAll :
    Superblock → Memory → Inode → Bytes → ℕ → ℕ → ℕ → Option (ℕ × Inode × Bytes) → Type 0
WroteAll sb mem ip st src off n none = free_blocks sb st < 2 * rounds off n
WroteAll sb mem ip st src off n (some (o, ip', st')) =
    (o ≡ off + n) × Wrote sb mem ip st src off n (2 * rounds off n) ip' st'

nothing-WroteAll :
    (sb : Superblock) (mem : Memory) (ip : Inode) (st : Bytes) (src off n : ℕ)
    → n ≡ 0
    → Sound sb ip.inum ip.addrs st
    → WroteAll sb mem ip st src off n (some (off, ip, st))
nothing-WroteAll sb mem ip st src off n e sound = (
  omega arith,
  record {
    rest = refl;
    sound = sound;
    kept = λ k le nz. refl;
    filled = λ k lt lo hi pos. absurd (omega arith);
    written = (λ i lt. absurd (omega arith), λ o lt out. refl);
    cost = omega arith;
  },
)

then-WroteAll :
    (sb : Superblock) (mem : Memory) (ip : Inode) (st : Bytes) (src off m n : ℕ) (ip' : Inode)
    (st' : Bytes)
    → 0 < m
    → m ≡ part (m + n) off
    → off + (m + n) ≤ 71680
    → Wrote sb mem ip st src off m 2 ip' st'
    → (o : Option (ℕ × Inode × Bytes)) → WroteAll sb mem ip' st' (src + m) (off + m) n o
    → WroteAll sb mem ip st src off (m + n) o
then-WroteAll sb mem ip st src off m n ip' st' pos whole bound first none full =
    ground (arith, first.cost)
then-WroteAll sb mem ip st src off m n ip' st' pos whole bound first (some (o, ip2, st2))
      (at, next) =
    (
      omega arith,
      let all =
            Wrote-append sb mem ip st src off m n 2 (2 * rounds (off + m) n) ip' st' ip2 st2 pos
              bound first next in
          record {
            rest = all.rest;
            sound = all.sound;
            kept = all.kept;
            filled = all.filled;
            written = all.written;
            cost = ground (arith, all.cost);
          },
    )

abbrev next_rounds :
    Superblock
    → ℕ
    → ℕ
    → ℕ
    → ℕ
    → ℕ
    → ℕ
    → Memory
    → Option (ℕ × Inode × Bytes)
    → Option (ℕ × Inode × Bytes)
next_rounds sb fuel tot n off src m mem none = none
next_rounds sb fuel tot n off src m mem (some (b, ip, st)) =
    write_loop sb fuel (tot + m) n (off + m) (src + m) mem ip (copied_in mem src b (off % 512) m st)

write_step :
    (sb : Superblock) (fuel tot n off src m : ℕ) (mem : Memory) (ip : Inode) (st : Bytes)
    → tot < n
    → n < 71681
    → off + (n - tot) < 71681
    → m ≡ part (n - tot) off
    → write_loop sb (suc fuel) tot n off src mem ip st
      ≡ next_rounds sb fuel tot n off src m mem (bmap sb ip (off / 512) st)
unfolding write_loop
write_step sb fuel tot n off src m mem ip st lt small bound e =
    rw (lt→ltb tot n lt) (next (bmap sb ip (off / 512) st))
  where
    tot' : u32 (tot + part (n - tot) off) ≡ tot + m
    tot' = omega arith

    off' : u32 (off + part (n - tot) off) ≡ off + m
    off' = omega arith

    next :
        (o : Option (ℕ × Inode × Bytes))
        → (elim o [
          | none ↦ none
          | some (b, ip', st') ↦
              write_loop sb fuel
                (u32 (tot + part (n - tot) off))
                n
                (u32 (off + part (n - tot) off))
                (src + part (n - tot) off)
                mem
                ip'
                (copied_in mem src b (off % 512) (part (n - tot) off) st')
        ])
          ≡ next_rounds sb fuel tot n off src m mem o
    next none = refl
    next (some (b, ip', st')) =
        ap₂
          (λ t o.
            write_loop sb fuel t n o (src + part (n - tot) off) mem ip'
              (copied_in mem src b (off % 512) (part (n - tot) off) st'))
          tot' off'
        ∙ ap
            (λ p.
              write_loop sb fuel (tot + m) n (off + m) (src + p) mem ip'
                (copied_in mem src b (off % 512) p st'))
            (sym e)

pub write_loop-WroteAll :
    (sb : Superblock) (fuel tot n off src : ℕ) (mem : Memory) (ip : Inode) (st : Bytes)
    → Sound sb ip.inum ip.addrs st
    → tot ≤ n
    → n - tot ≤ fuel
    → off + (n - tot) ≤ 71680
    → n < 71681
    → WroteAll sb mem ip st src off (n - tot) (write_loop sb fuel tot n off src mem ip st)
unfolding write_loop
write_loop-WroteAll sb zero tot n off src mem ip st sound le enough bound small =
    nothing-WroteAll sb mem ip st src off (n - tot) (omega arith) sound
write_loop-WroteAll sb (suc fuel) tot n off src mem ip st sound le enough bound small =
    elim (Bool-cases (ltb tot n)) [
      | inr e ↦ rw e (nothing-WroteAll sb mem ip st src off (n - tot) (ground arith) sound)
      | inl e ↦
          let lt = ltb→lt tot n e in
          let m = part (n - tot) off in
          subst (WroteAll sb mem ip st src off (n - tot))
            (sym (write_step sb fuel tot n off src m mem ip st lt small (omega arith) refl))
            (rest (ltb→lt tot n e) (bmap sb ip (off / 512) st)
              (bmap_lem sb ip st (off / 512) sound (omega arith))
              (λ ip' st1 sound'.
                write_loop-WroteAll sb fuel (tot + m) n (off + m) (src + m) mem ip' st1 sound'
                  (omega arith) (omega arith) (omega arith) small))
    ]
  where
    rest :
        tot < n
        → (o : Option (ℕ × Inode × Bytes)) → Mapped sb ip st (off / 512) 2 o
        → ((ip' : Inode) (st1 : Bytes)
            → Sound sb ip'.inum ip'.addrs st1
            → WroteAll sb mem ip' st1
                (src + part (n - tot) off)
                (off + part (n - tot) off)
                (n - (tot + part (n - tot) off))
                (write_loop sb fuel
                  (tot + part (n - tot) off)
                  n
                  (off + part (n - tot) off)
                  (src + part (n - tot) off)
                  mem
                  ip'
                  st1))
        → WroteAll sb mem ip st src off
            (n - tot)
            (next_rounds sb fuel tot n off src (part (n - tot) off) mem o)
    rest lt none full later = ground arith
    rest lt (some (b, ip', st')) maps later =
        let m = part (n - tot) off in
        let st1 = copied_in mem src b (off % 512) m st' in
        let first =
          round-Wrote sb mem ip st src off m b ip' st' (omega arith) (omega arith) (omega arith)
            maps in
        let o = write_loop sb fuel (tot + m) n (off + m) (src + m) mem ip' st1 in
        let sound' : Sound sb ip'.inum ip'.addrs st1 =
          subst (λ k. Sound sb k ip'.addrs st1) (sym (ap Inode.inum first.rest)) first.sound in
        subst (λ k. WroteAll sb mem ip st src off k o) (omega arith)
          (then-WroteAll sb mem ip st src off m (n - (tot + m)) ip' st1 (omega arith) (omega arith)
            (omega arith) first o (later ip' st1 sound'))
