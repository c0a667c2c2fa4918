-- ===== src/Fs/Inode/Mapping.antt =====
-- `bmap` of Xv6-Threads/src/fs.c.
use mathlib.Core.Path.{subst}
use os_wsl.Prelude.{
  ℕ, suc, ◌+◌, ◌-◌, ◌≤◌, ◌<◌, ◌≡◌, ◌≢◌, refl, sym, ap, ◌∙◌, inl, inr, true, false, Option, none,
  some, arith, ltb, ◌==◌, Bool-cases, ==_iff, ltb→lt,
}
use os_wsl.Fs.{Superblock, Bytes, balloc}
use os_wsl.Fs.Bitmap.{Allocated, Answer, balloc_lem}
use os_wsl.Fs.Free.{free_blocks, free-taken, free-none}
use os_wsl.Fs.Inode.{Inode, get_word, put_word, with_addr, entry, table_entry, bmap}
use os_wsl.Fs.Inode.Spots.{spot, spot-direct, spot-entry, spot-no_table, Sound, content, Taken}
use os_wsl.Fs.Inode.Growth.{Taken-Grown}
use os_wsl.Fs.Inode.Entries.{direct-Taken, table-Taken}
use os_wsl.Fs.Inode.Table.{entry-Taken}

-- Block `a` is number `k` of the file, the file is sound and has the bytes it had, the numbers that
-- had a block keep it, only `addrs` of the inode may differ, and `n` blocks at most were allocated.
pub record Maps (sb : Superblock) (ip : Inode) (st : Bytes) (k n a : ℕ) (ip' : Inode) (st' : Bytes)
    : Type 0 where
  pub rest : ip' ≡ record ip { addrs = ip'.addrs }
  pub got : spot ip'.addrs st' k ≡ a
  pub nonzero : a ≢ 0
  pub sound : Sound sb ip.inum ip'.addrs st'
  pub kept : (m : ℕ) → m ≤ 140 → spot ip.addrs st m ≢ 0 → spot ip'.addrs st' m ≡ spot ip.addrs st m
  pub same : (o : ℕ) → o < 71680 → content ip'.addrs st' o ≡ content ip.addrs st o
  pub cost : free_blocks sb st ≤ n + free_blocks sb st'

-- The answer for number `k`, with up to `n` allocations: a panic is for want of free blocks.
abbrev pub Mapped : Superblock → Inode → Bytes → ℕ → ℕ → Option (ℕ × Inode × Bytes) → Type 0
Mapped sb ip st k n none = free_blocks sb st < n
Mapped sb ip st k n (some (a, ip', st')) = Maps sb ip st k n a ip' st'

held-Maps :
    (sb : Superblock) (ip : Inode) (st : Bytes) (k n : ℕ)
    → Sound sb ip.inum ip.addrs st
    → spot ip.addrs st k ≢ 0
    → Maps sb ip st k n (spot ip.addrs st k) ip st
held-Maps sb ip st k n sound nz = record {
  rest = refl;
  got = refl;
  nonzero = nz;
  sound = sound;
  kept = λ m le h. refl;
  same = λ o lt. refl;
  cost = omega arith;
}

Taken-Maps :
    (sb : Superblock) (ip : Inode) (st : Bytes) (k n a : ℕ) (ip' : Inode) (st' : Bytes)
    → k ≤ 140
    → Sound sb ip.inum ip.addrs st
    → ip' ≡ record ip { addrs = ip'.addrs }
    → Taken sb ip.inum ip.addrs st k a ip'.addrs st'
    → Maps sb ip st k (suc n) a ip' st'
Taken-Maps sb ip st k n a ip' st' le sound rest took =
    let g = Taken-Grown sb ip.inum ip.addrs st k a ip'.addrs st' sound took le in
    record {
      rest = rest;
      got = g.got;
      nonzero = g.nonzero;
      sound = g.sound;
      kept = g.kept;
      same = g.same;
      cost = omega (arith, free-taken sb st st' a took.inside took.was_free took.map_after);
    }

-- An allocation for number `k`, whatever it is then stored in.
alloc-Mapped :
    (sb : Superblock) (ip : Inode) (st : Bytes) (k : ℕ) (store : ℕ → Bytes → Inode × Bytes)
    → Sound sb ip.inum ip.addrs st
    → ((a : ℕ) (st' : Bytes)
        → Allocated sb st a st'
        → Maps sb ip st k 1 a (store a st').0 (store a st').1)
    → (o : Option (ℕ × Bytes)) → Answer sb st 0 sb.size o
    → Mapped sb ip st k 1
        (elim o [ none ↦ none | some (a, st') ↦ some (a, (store a st').0, (store a st').1) ])
alloc-Mapped sb ip st k store sound maps none full = omega (arith, free-none sb st full)
alloc-Mapped sb ip st k store sound maps (some (a, st')) alloc = maps a st' alloc

entry-Mapped :
    (sb : Superblock) (ip : Inode) (st : Bytes) (i k : ℕ)
    → k ≤ 140
    → Sound sb ip.inum ip.addrs st
    → spot ip.addrs st k ≡ ip.addrs i
    → ((a : ℕ) (st' : Bytes)
        → Allocated sb st a st'
        → ip.addrs i ≡ 0
        → Taken sb ip.inum ip.addrs st k a (with_addr i a ip).addrs st')
    → Mapped sb ip st k 1 (entry sb i ip st)
unfolding entry
entry-Mapped sb ip st i k le sound at took = elim (Bool-cases (ip.addrs i == 0)) [
  | inr e ↦
      let nz : spot ip.addrs st k ≢ 0 = λ z. nonzero_of e (sym at ∙ z) in
      rw e (subst (λ a. Maps sb ip st k 1 a ip st) at (held-Maps sb ip st k 1 sound nz))
  | inl e ↦ rw e (
      alloc-Mapped sb ip st k (λ a st'. (with_addr i a ip, st')) sound
        (λ a st' alloc.
          Taken-Maps sb ip st k 0 a (with_addr i a ip) st' le sound refl
            (took a st' alloc ((==_iff (ip.addrs i) 0).0 e)))
        (balloc sb st) (balloc_lem sb st sound.disk.maps))
]
  where
    nonzero_of : {n : ℕ} → (n == 0) ≡ false → n ≢ 0
    nonzero_of h z = ground arith

table_entry-Mapped :
    (sb : Superblock) (ip : Inode) (st : Bytes) (k : ℕ)
    → 12 ≤ k
    → k < 140
    → Sound sb ip.inum ip.addrs st
    → ip.addrs 12 ≢ 0
    → Mapped sb ip st k 1 (table_entry sb (ip.addrs 12) (k - 12) ip st)
unfolding table_entry
table_entry-Mapped sb ip st k lo hi sound table =
    let at = spot-entry ip.addrs st k lo hi table in
    elim (Bool-cases (get_word st (ip.addrs 12) (k - 12) == 0)) [
      | inr e ↦
          let nz : spot ip.addrs st k ≢ 0 = λ z. nonzero_of e (sym at ∙ z) in
          rw e (subst (λ a. Maps sb ip st k 1 a ip st) at (held-Maps sb ip st k 1 sound nz))
      | inl e ↦
          let none_yet : spot ip.addrs st k ≡ 0 = at ∙ (==_iff _ 0).0 e in
          rw e (
            alloc-Mapped sb ip st k (λ a st'. (ip, put_word (ip.addrs 12) (k - 12) a st')) sound
              (λ a st' alloc.
                Taken-Maps sb ip st k 0 a ip (put_word (ip.addrs 12) (k - 12) a st') (omega arith)
                  sound refl
                  (entry-Taken sb ip.inum ip.addrs st a st' k sound alloc table lo hi none_yet))
              (balloc sb st) (balloc_lem sb st sound.disk.maps))
    ]
  where
    nonzero_of : {n : ℕ} → (n == 0) ≡ false → n ≢ 0
    nonzero_of h z = ground arith

-- One answer after another.
Maps-trans :
    (sb : Superblock) (ip : Inode) (st : Bytes) (k m n a b : ℕ) (ip' : Inode) (st' : Bytes)
    (ip'' : Inode) (st'' : Bytes)
    → Maps sb ip st m 1 b ip' st'
    → Maps sb ip' st' k n a ip'' st''
    → Maps sb ip st k (suc n) a ip'' st''
Maps-trans sb ip st k m n a b ip' st' ip'' st'' first next = record {
  rest = next.rest ∙ ap (λ (p : Inode). record p { addrs = ip''.addrs }) first.rest;
  got = next.got;
  nonzero = next.nonzero;
  sound = subst (λ (p : Inode). Sound sb p.inum ip''.addrs st'') first.rest next.sound;
  kept =
      λ m' le nz. next.kept m' le (λ z. nz (sym (first.kept m' le nz) ∙ z)) ∙ first.kept m' le nz;
  same = λ o lt. next.same o lt ∙ first.same o lt;
  cost = omega (arith, first.cost, next.cost);
}

-- What follows the indirect block.
behind-Mapped :
    (sb : Superblock) (ip : Inode) (st : Bytes) (k : ℕ) (o : Option (ℕ × Inode × Bytes))
    → 12 ≤ k
    → k < 140
    → Mapped sb ip st 140 1 o
    → Mapped sb ip st k 2
        (elim o [ none ↦ none | some (table, ip', st') ↦ table_entry sb table (k - 12) ip' st' ])
behind-Mapped sb ip st k none lo hi full = omega arith
behind-Mapped sb ip st k (some (table, ip', st')) lo hi first =
    let at : ip'.addrs 12 ≡ table = first.got in
    let sound : Sound sb ip'.inum ip'.addrs st' =
      subst (λ n. Sound sb n ip'.addrs st') (sym (ap Inode.inum first.rest)) first.sound in
    subst (λ t. Mapped sb ip st k 2 (table_entry sb t (k - 12) ip' st')) at
      (then_Mapped (table_entry sb (ip'.addrs 12) (k - 12) ip' st')
        (table_entry-Mapped sb ip' st' k lo hi sound (λ z. first.nonzero (sym at ∙ z))))
  where
    then_Mapped : (o : Option (ℕ × Inode × Bytes)) → Mapped sb ip' st' k 1 o → Mapped sb ip st k 2 o
    then_Mapped none full = omega (arith, first.cost)
    then_Mapped (some (a, ip'', st'')) next =
        Maps-trans sb ip st k 140 1 a table ip' st' ip'' st'' first next

-- For a sound inode and a block number below MAXFILE, `bmap` gives a block that is number `bn` of the
-- file afterwards; the inode is sound again, the numbers that had a block keep it, every byte of the
-- file reads as before, and two blocks at most are allocated. It panics only if fewer than two blocks are free.
pub bmap_lem :
    (sb : Superblock) (ip : Inode) (st : Bytes) (bn : ℕ)
    → Sound sb ip.inum ip.addrs st
    → bn < 140
    → Mapped sb ip st bn 2 (bmap sb ip bn st)
unfolding bmap
bmap_lem sb ip st bn sound lt = elim (Bool-cases (ltb bn 12)) [
  | inl e ↦
      let direct : bn < 12 = ltb→lt bn 12 e in
      rw e (
        weaker (entry sb bn ip st) (
          entry-Mapped sb ip st bn bn (omega arith) sound (spot-direct ip.addrs st bn direct)
            (λ a st' alloc none_yet.
              direct-Taken sb ip.inum ip.addrs st a st' sound alloc bn direct none_yet)))
  | inr e ↦
      let in_table : ltb (bn - 12) 128 ≡ true = ground arith in
      rw e (
        rw in_table (
          behind-Mapped sb ip st bn (entry sb 12 ip st) (ground arith) lt (
            entry-Mapped sb ip st 12 140 (omega arith) sound refl (λ a st' alloc none_yet.
              table-Taken sb ip.inum ip.addrs st a st' sound alloc none_yet))))
]
  where
    weaker : (o : Option (ℕ × Inode × Bytes)) → Mapped sb ip st bn 1 o → Mapped sb ip st bn 2 o
    weaker none h = omega arith
    weaker (some (a, ip', st')) h = record {
      rest = h.rest;
      got = h.got;
      nonzero = h.nonzero;
      sound = h.sound;
      kept = h.kept;
      same = h.same;
      cost = omega (arith, h.cost);
    }

entry-held :
    (sb : Superblock) (ip : Inode) (st : Bytes) (i : ℕ)
    → ip.addrs i ≢ 0
    → entry sb i ip st ≡ some (ip.addrs i, ip, st)
unfolding entry
entry-held sb ip st i nz =
    let some_block : (ip.addrs i == 0) ≡ false = ground arith in rw some_block refl

table_entry-held :
    (sb : Superblock) (ip : Inode) (st : Bytes) (t i : ℕ)
    → get_word st t i ≢ 0
    → table_entry sb t i ip st ≡ some (get_word st t i, ip, st)
unfolding table_entry
table_entry-held sb ip st t i nz =
    let some_block : (get_word st t i == 0) ≡ false = ground arith in rw some_block refl

-- A number that has a block: nothing changes.
pub bmap-held :
    (sb : Superblock) (ip : Inode) (st : Bytes) (bn : ℕ)
    → bn < 140
    → spot ip.addrs st bn ≢ 0
    → bmap sb ip bn st ≡ some (spot ip.addrs st bn, ip, st)
unfolding bmap
bmap-held sb ip st bn lt nz = elim (Bool-cases (ltb bn 12)) [
  | inl e ↦
      let at = spot-direct ip.addrs st bn (ltb→lt bn 12 e) in
      rw e (entry-held sb ip st bn (λ z. nz (at ∙ z)))
  | inr e ↦ elim (Bool-cases (ip.addrs 12 == 0)) [
    | inl z ↦ absurd (nz (spot-no_table ip.addrs st bn (ground arith) lt ((==_iff _ 0).0 z)))
    | inr z ↦
        let table : ip.addrs 12 ≢ 0 = ground arith in
        let at = spot-entry ip.addrs st bn (ground arith) lt table in
        let in_table : ltb (bn - 12) 128 ≡ true = ground arith in
        subst (λ s. bmap sb ip bn st ≡ some (s, ip, st)) (sym at)
          (rw e (
            rw in_table (
              rw (entry-held sb ip st 12 table)
                (table_entry-held sb ip st (ip.addrs 12) (bn - 12) (λ w. nz (at ∙ w))))))
  ]
]
