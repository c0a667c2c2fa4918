-- ===== src/Fs/Inode/Entries.antt =====
-- What an allocation in `bmap` of Xv6-Threads/src/fs.c does to the blocks of the file.
use os_wsl.Prelude.{
  ℕ, ◌+◌, ◌-◌, ◌*◌, ◌≤◌, ◌<◌, ◌≡◌, ◌≢◌, sym, ap, ◌∙◌, inl, inr, true, false, arith, ◌==◌,
  if◌then◌else◌, Bool-cases, ==_iff, lt→ltb,
}
use os_wsl.Fs.{Superblock, Bytes}
use os_wsl.Fs.Bitmap.{used, Allocated}
use os_wsl.Fs.Inode.{get_word}
use os_wsl.Fs.Inode.Layout.{get_word-same}
use os_wsl.Fs.Inode.Spots.{
  spot, spot-direct, spot-entry, spot-no_table, spot-cases, Own, Sound, Taken,
}

abbrev pub at_addr : ℕ → ℕ → (ℕ → ℕ) → ℕ → ℕ
at_addr i a addrs j = if j == i then a else addrs j

at_addr-ne : (a : ℕ) (addrs : ℕ → ℕ) (i m : ℕ) → m ≢ i → at_addr i a addrs m ≡ addrs m
at_addr-ne a addrs i m ne = ground arith

pub pick : (m k a x y : ℕ) → (m ≡ k → x ≡ a) → (m ≢ k → x ≡ y) → x ≡ (if m == k then a else y)
pick m k a x y here there = elim (Bool-cases (m == k)) [
  | inl e ↦ rw e (here ((==_iff m k).0 e))
  | inr e ↦ rw e (there (ground arith))
]

module _ (sb : Superblock) (inum : ℕ) (addrs : ℕ → ℕ) (st : Bytes) (a : ℕ) (st' : Bytes)
    (sound : Sound sb inum addrs st) (alloc : Allocated sb st a st') where
  pub Own-same : (c j : ℕ) → Own sb inum st c → st' c j ≡ st c j
  Own-same c j own =
      alloc.others c j (λ e. not_free (sym own.in_use ∙ ap (used sb st) e ∙ alloc.was_free))
        (own.no_map a alloc.inside)
    where
      not_free : true ≢ false
      not_free e = ground arith

  pub spot_kept :
      (m j : ℕ) → m ≤ 140 → spot addrs st m ≢ 0 → st' (spot addrs st m) j ≡ st (spot addrs st m) j
  spot_kept m j le nz = Own-same (spot addrs st m) j (sound.own m le nz)

  table_kept : (i : ℕ) → addrs 12 ≢ 0 → get_word st' (addrs 12) i ≡ get_word st (addrs 12) i
  table_kept i nz =
      get_word-same st' st (addrs 12) i
        (λ j e. Own-same (addrs 12) j (sound.own 140 (omega arith) nz))

  -- An entry of the array `addrs` that names data.
  pub word_kept :
      (m : ℕ) → 12 ≤ m → m < 140 → addrs 12 ≢ 0 → get_word st' (addrs 12) (m - 12) ≡ spot addrs st m
  word_kept m lo hi nz = table_kept (m - 12) nz ∙ sym (spot-entry addrs st m lo hi nz)

  -- The entries that are not in `addrs` stay, as long as `addrs 12` does.
  behind_kept :
      (addrs' : ℕ → ℕ) (m : ℕ)
      → addrs' 12 ≡ addrs 12
      → 12 ≤ m
      → m < 140
      → spot addrs' st' m ≡ spot addrs st m
  behind_kept addrs' m e lo hi = elim (Bool-cases (addrs 12 == 0)) [
    | inl z ↦
        spot-no_table addrs' st' m lo hi (ground arith)
        ∙ sym (spot-no_table addrs st m lo hi (ground arith))
    | inr z ↦
        spot-entry addrs' st' m lo hi (ground arith)
        ∙ ap (λ t. get_word st' t (m - 12)) e
        ∙ word_kept m lo hi (ground arith)
  ]

  direct_here : (i m : ℕ) → i < 12 → m ≡ i → spot (at_addr i a addrs) st' m ≡ a
  direct_here i m lt e = spot-direct (at_addr i a addrs) st' m (omega arith) ∙ ground arith

  direct_there :
      (i m : ℕ) → i < 12 → m ≤ 140 → m ≢ i → spot (at_addr i a addrs) st' m ≡ spot addrs st m
  direct_there i m lt le ne = elim (spot-cases m le) [
    | inl l ↦
        spot-direct (at_addr i a addrs) st' m l
        ∙ at_addr-ne a addrs i m ne
        ∙ sym (spot-direct addrs st m l)
    | inr (inl (lo, hi)) ↦
        behind_kept (at_addr i a addrs) m (at_addr-ne a addrs i 12 (omega arith)) lo hi
    | inr (inr e) ↦
        ap (spot (at_addr i a addrs) st') e
        ∙ at_addr-ne a addrs i 12 (omega arith)
        ∙ sym (ap (spot addrs st) e)
  ]

  pub direct-Taken :
      (i : ℕ) → i < 12 → addrs i ≡ 0 → Taken sb inum addrs st i a (at_addr i a addrs) st'
  direct-Taken i lt none_yet = record {
    was_none = rw (lt→ltb i 12 lt) none_yet;
    inside = alloc.inside;
    was_free = alloc.was_free;
    map_after = alloc.map_after;
    spots = spots;
    zeroed = λ _. alloc.zeroed;
    others = λ m j lm. spot_kept m j (omega arith);
  }
    where
      spots :
          (m : ℕ)
          → m ≤ 140
          → spot (at_addr i a addrs) st' m ≡ (if m == i then a else spot addrs st m)
      spots m le =
          pick m i a (spot (at_addr i a addrs) st' m) (spot addrs st m) (direct_here i m lt)
            (direct_there i m lt le)

  zero_word : (i : ℕ) → i < 128 → get_word st' a i ≡ 0
  unfolding get_word
  zero_word i lt = omega (
    arith,
    alloc.zeroed (4 * i),
    alloc.zeroed (4 * i + 1),
    alloc.zeroed (4 * i + 2),
    alloc.zeroed (4 * i + 3),
  )

  fresh_entry : (m : ℕ) → 12 ≤ m → m < 140 → spot (at_addr 12 a addrs) st' m ≡ 0
  fresh_entry m lo hi = elim (Bool-cases (a == 0)) [
    | inl z ↦ spot-no_table (at_addr 12 a addrs) st' m lo hi (ground arith)
    | inr z ↦
        spot-entry (at_addr 12 a addrs) st' m lo hi (ground arith)
        ∙ zero_word (m - 12) (omega arith)
  ]

  table_there :
      addrs 12 ≡ 0 → (m : ℕ) → m ≤ 140 → m ≢ 140 → spot (at_addr 12 a addrs) st' m ≡ spot addrs st m
  table_there none_yet m le ne = elim (spot-cases m le) [
    | inl l ↦
        spot-direct (at_addr 12 a addrs) st' m l
        ∙ at_addr-ne a addrs 12 m (omega arith)
        ∙ sym (spot-direct addrs st m l)
    | inr (inl (lo, hi)) ↦ fresh_entry m lo hi ∙ sym (spot-no_table addrs st m lo hi none_yet)
    | inr (inr e) ↦ absurd (ne e)
  ]

  -- The entry that names the indirect block.
  pub table-Taken : addrs 12 ≡ 0 → Taken sb inum addrs st 140 a (at_addr 12 a addrs) st'
  table-Taken none_yet = record {
    was_none = none_yet;
    inside = alloc.inside;
    was_free = alloc.was_free;
    map_after = alloc.map_after;
    spots = spots;
    zeroed = λ lt. absurd (omega arith);
    others = λ m j lm. spot_kept m j (omega arith);
  }
    where
      spots :
          (m : ℕ)
          → m ≤ 140
          → spot (at_addr 12 a addrs) st' m ≡ (if m == 140 then a else spot addrs st m)
      spots m le =
          pick m 140 a (spot (at_addr 12 a addrs) st' m) (spot addrs st m)
            (λ e. ap (spot (at_addr 12 a addrs) st') e) (table_there none_yet m le)
