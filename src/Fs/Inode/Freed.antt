-- ===== src/Fs/Inode/Freed.antt =====
-- `itrunc` of Xv6-Threads/src/fs.c as a whole.
use mathlib.Core.Path.{subst}
use os_wsl.Prelude.{
  ℕ, zero, suc, ◌+◌, ◌/◌, ◌%◌, ◌≤◌, ◌<◌, ◌≡◌, ◌≢◌, refl, sym, ap, ◌∙◌, inl, inr, false, Option,
  none, some, arith, ◌==◌, Bool-cases, ==_iff,
}
use os_wsl.Fs.{Superblock, Bytes, bblock, bpb, bit, bfree}
use os_wsl.Fs.Bitmap.{used}
use os_wsl.Fs.Inode.{
  Inode, get_word, iblock, with_addr, iupdate, trunc_direct, trunc_table, free_table,
  trunc_indirect, emptied, itrunc,
}
use os_wsl.Fs.Inode.Layout.{get_word-same}
use os_wsl.Fs.Inode.OnDisk.{iupdate-ne}
use os_wsl.Fs.Inode.Spots.{spot, spot-entry, spot-no_table, Sound}
use os_wsl.Fs.Inode.Truncate.{none-Released, skip-Released, FreesNext, free-Released}
use os_wsl.Fs.Inode.Emptied.{Rel, Cleared, DirectDone, trunc_direct-Done}

-- The file is empty, its blocks are free, and no other block's bit has changed.
abbrev pub Truncated : Superblock → Inode → Bytes → Option (Inode × Bytes) → Type 0
Truncated sb ip st none = ⊥
Truncated sb ip st (some (ip', st')) =
    (ip'.size ≡ 0)
    × ((i : ℕ) → i ≤ 12 → ip'.addrs i ≡ 0)
    × ((k : ℕ) → k ≤ 140 → spot ip.addrs st k ≢ 0 → used sb st' (spot ip.addrs st k) ≡ false)
    × ((c : ℕ)
        → c < sb.size
        → ((k : ℕ) → k ≤ 140 → spot ip.addrs st k ≢ 0 → c ≢ spot ip.addrs st k)
        → used sb st' c ≡ used sb st c)

module _ (sb : Superblock) (ip : Inode) (st : Bytes) (sound : Sound sb ip.inum ip.addrs st) where
  abbrev TableDone : Option Bytes → Type 0
  TableDone none = ⊥
  TableDone (some st') = Rel sb ip st sound 140 st'

  trunc_table-Done :
      (n j : ℕ) (st' : Bytes)
      → j + n ≡ 128
      → ip.addrs 12 ≢ 0
      → Rel sb ip st sound (12 + j) st'
      → TableDone (trunc_table sb (ip.addrs 12) n j st')
  unfolding trunc_table
  trunc_table-Done zero j st' e table r = subst (λ k. Rel sb ip st sound k st') (omega arith) r
  trunc_table-Done (suc n) j st' e table r =
      let own = sound.own 140 (omega arith) table in
      let word : spot ip.addrs st (12 + j) ≡ get_word st' (ip.addrs 12) j =
        spot-entry ip.addrs st (12 + j) (omega arith) (omega arith) table
        ∙ ap (get_word st (ip.addrs 12)) (omega arith)
        ∙ sym (
            get_word-same st' st (ip.addrs 12) j (λ i _. r.data_same (ip.addrs 12) i own.no_map)) in
      elim (Bool-cases (get_word st' (ip.addrs 12) j == 0)) [
        | inl z ↦ rw z (
            trunc_table-Done n (j + 1) st' (omega arith) table (
              subst (λ k. Rel sb ip st sound k st') (omega arith)
                (skip-Released sb ip.inum ip.addrs st sound (12 + j) st' r
                  (word ∙ (==_iff _ 0).0 z))))
        | inr z ↦
            let some_here : spot ip.addrs st (12 + j) ≢ 0 = λ f. nonzero z (sym word ∙ f) in
            rw z (
              next
                (λ st2 r2.
                  trunc_table-Done n (j + 1) st2 (omega arith) table
                    (subst (λ k. Rel sb ip st sound k st2) (omega arith) r2))
                (bfree sb (get_word st' (ip.addrs 12) j) st')
                (subst (λ b. FreesNext sb ip.inum ip.addrs st sound (12 + j) (bfree sb b st')) word
                  (free-Released sb ip.inum ip.addrs st sound (12 + j) st' (omega arith) r
                    some_here)))
      ]
    where
      nonzero : {a : ℕ} → (a == 0) ≡ false → a ≢ 0
      nonzero h f = ground arith

      next :
          ((st2 : Bytes)
            → Rel sb ip st sound (12 + j + 1) st2
            → TableDone (trunc_table sb (ip.addrs 12) n (j + 1) st2))
          → (o : Option Bytes) → FreesNext sb ip.inum ip.addrs st sound (12 + j) o
          → TableDone
              (elim o [ none ↦ none | some st2 ↦ trunc_table sb (ip.addrs 12) n (j + 1) st2 ])
      next later none h = h
      next later (some st2) r2 = later st2 r2

  -- Numbers that have no block, one after the other.
  skip_all :
      (n p : ℕ) (st' : Bytes)
      → Rel sb ip st sound p st'
      → ((k : ℕ) → p ≤ k → k < p + n → spot ip.addrs st k ≡ 0)
      → Rel sb ip st sound (p + n) st'
  skip_all zero p st' r h = subst (λ k. Rel sb ip st sound k st') (omega arith) r
  skip_all (suc n) p st' r h =
      subst (λ k. Rel sb ip st sound k st') (omega arith)
        (skip_all n (p + 1) st'
          (skip-Released sb ip.inum ip.addrs st sound p st' r (h p (omega arith) (omega arith)))
          (λ k lo hi. h k (omega arith) (omega arith)))

  abbrev AllFreed : Option Bytes → Type 0
  AllFreed none = ⊥
  AllFreed (some st') = Rel sb ip st sound 141 st'

  free_table-Freed :
      (st1 : Bytes)
      → ip.addrs 12 ≢ 0
      → Rel sb ip st sound 12 st1
      → AllFreed (free_table sb (ip.addrs 12) st1)
  unfolding free_table
  free_table-Freed st1 table r =
      entries (trunc_table sb (ip.addrs 12) 128 0 st1) (trunc_table-Done 128 0 st1 refl table r)
    where
      last : (o : Option Bytes) → FreesNext sb ip.inum ip.addrs st sound 140 o → AllFreed o
      last none h = h
      last (some st3) h = h

      entries :
          (o : Option Bytes)
          → TableDone o
          → AllFreed (elim o [ none ↦ none | some st2 ↦ bfree sb (ip.addrs 12) st2 ])
      entries none h = h
      entries (some st2) r2 =
          last (bfree sb (ip.addrs 12) st2)
            (free-Released sb ip.inum ip.addrs st sound 140 st2 (omega arith) r2 table)

  abbrev IndirectDone : Option (Inode × Bytes) → Type 0
  IndirectDone none = ⊥
  IndirectDone (some (ip', st')) =
      (ip'.inum ≡ ip.inum) × ((i : ℕ) → i ≤ 12 → ip'.addrs i ≡ 0) × Rel sb ip st sound 141 st'

  freed-Done :
      (ip1 : Inode) (o : Option Bytes)
      → Cleared sb ip st sound 12 ip1
      → AllFreed o
      → IndirectDone (elim o [ none ↦ none | some st' ↦ some (with_addr 12 0 ip1, st') ])
  freed-Done ip1 none c h = h
  freed-Done ip1 (some st') c r = (c.number, λ i le. ground (arith, c.below i), r)

  none_behind : (k : ℕ) → 12 ≤ k → k ≤ 140 → ip.addrs 12 ≡ 0 → spot ip.addrs st k ≡ 0
  none_behind k lo hi e = elim (Bool-cases (k == 140)) [
    | inl f ↦ ap (spot ip.addrs st) ((==_iff k 140).0 f) ∙ e
    | inr f ↦ spot-no_table ip.addrs st k lo (ground arith) e
  ]

  trunc_indirect-Done :
      (ip1 : Inode) (st1 : Bytes)
      → Cleared sb ip st sound 12 ip1
      → Rel sb ip st sound 12 st1
      → IndirectDone (trunc_indirect sb ip1 st1)
  unfolding trunc_indirect
  trunc_indirect-Done ip1 st1 c r = elim (Bool-cases (ip1.addrs 12 == 0)) [
    | inl z ↦
        let no_table : ip.addrs 12 ≡ 0 = sym (c.above 12 (omega arith)) ∙ (==_iff _ 0).0 z in
        rw z (
          c.number,
          λ i le. all_zero i le ((==_iff _ 0).0 z),
          skip_all 129 12 st1 r (λ k lo hi. none_behind k lo (omega arith) no_table),
        )
    | inr z ↦
        let table : ip.addrs 12 ≢ 0 = λ f. nonzero z (c.above 12 (omega arith) ∙ f) in
        rw z (
          freed-Done ip1 (free_table sb (ip1.addrs 12) st1) c (
            subst (λ t. AllFreed (free_table sb t st1)) (sym (c.above 12 (omega arith)))
              (free_table-Freed st1 table r)))
  ]
    where
      nonzero : {a : ℕ} → (a == 0) ≡ false → a ≢ 0
      nonzero h f = ground arith

      all_zero : (i : ℕ) → i ≤ 12 → ip1.addrs 12 ≡ 0 → ip1.addrs i ≡ 0
      all_zero i le last = elim (Bool-cases (i == 12)) [
        | inl f ↦ ap ip1.addrs ((==_iff i 12).0 f) ∙ last
        | inr f ↦ c.below i (ground arith)
      ]

  -- The inode is written to its own block, which is not of the bitmap.
  saved_used :
      (ip' : Inode) (st' : Bytes) (c : ℕ)
      → ip'.inum ≡ ip.inum
      → c < sb.size
      → used sb (iupdate sb ip' st') c ≡ used sb st' c
  saved_used ip' st' c number lt = ap (bit (c % bpb % 8)) (
      iupdate-ne sb ip' st' (bblock sb c) (c % bpb / 8)
        (λ e. sound.disk.apart c lt (sym (e ∙ ap (iblock sb) number))))

  emptied-Truncated :
      (ip' : Inode) (st' : Bytes)
      → ip'.inum ≡ ip.inum
      → ((i : ℕ) → i ≤ 12 → ip'.addrs i ≡ 0)
      → Rel sb ip st sound 141 st'
      → Truncated sb ip st (some (emptied sb ip' st'))
  emptied-Truncated ip' st' number zeros r = (
    refl,
    zeros,
    λ k le nz.
        saved_used (record ip' { size = 0 }) st' (spot ip.addrs st k) number
          (sound.own k le nz).inside
        ∙ r.now_free k (omega arith) nz,
    λ c lt h.
        saved_used (record ip' { size = 0 }) st' c number lt
        ∙ r.others c (λ k l nz. h k (omega arith) nz),
  )

  after_indirect :
      (o : Option (Inode × Bytes))
      → IndirectDone o
      → Truncated sb ip st (elim o [ none ↦ none | some (ip2, st2) ↦ some (emptied sb ip2 st2) ])
  after_indirect none h = h
  after_indirect (some (ip2, st2)) (number, zeros, r) = emptied-Truncated ip2 st2 number zeros r

  after_direct :
      (o : Option (Inode × Bytes))
      → DirectDone sb ip st sound o
      → Truncated sb ip st (elim o [
        | none ↦ none
        | some (ip1, st1) ↦ elim (trunc_indirect sb ip1 st1) [
          | none ↦ none
          | some (ip2, st2) ↦ some (emptied sb ip2 st2)
        ]
      ])
  after_direct none h = h
  after_direct (some (ip1, st1)) (c, r) =
      after_indirect (trunc_indirect sb ip1 st1) (trunc_indirect-Done ip1 st1 c r)

-- For a sound inode `itrunc` does not panic: afterwards the size and every entry of `addrs` are 0, the
-- blocks that the file had, the indirect block with them, are free, and the bit of every other block of the
-- disk is as it was.
pub itrunc_lem :
    (sb : Superblock) (ip : Inode) (st : Bytes)
    → Sound sb ip.inum ip.addrs st
    → Truncated sb ip st (itrunc sb ip st)
unfolding itrunc
itrunc_lem sb ip st sound = after_direct sb ip st sound (trunc_direct sb 12 0 ip st) (
    trunc_direct-Done sb ip st sound 12 0 ip st refl
      (record { below = λ j lt. absurd (omega arith); above = λ j le. refl; number = refl })
      (none-Released sb ip.inum ip.addrs st sound))
