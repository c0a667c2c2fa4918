-- ===== src/Fs/Inode/Emptied.antt =====
-- The loops of `itrunc` of Xv6-Threads/src/fs.c.
use mathlib.Core.Path.{subst}
use os_wsl.Prelude.{
  ℕ, zero, suc, ◌+◌, ◌≤◌, ◌<◌, ◌≡◌, ◌≢◌, sym, ap, ◌∙◌, inl, inr, false, Option, none, some, arith,
  ◌==◌, Bool-cases, ==_iff,
}
use os_wsl.Fs.{Superblock, Bytes, bfree}
use os_wsl.Fs.Inode.{Inode, with_addr, trunc_direct}
use os_wsl.Fs.Inode.Spots.{spot, spot-direct, Sound}
use os_wsl.Fs.Inode.Truncate.{Released, skip-Released, FreesNext, free-Released}

module _ (sb : Superblock) (ip : Inode) (st : Bytes) (sound : Sound sb ip.inum ip.addrs st) where
  abbrev pub Rel : ℕ → Bytes → Type 0
  Rel p st' = Released sb ip.addrs st p st'

  -- The inode in the first loop: the entries below `i` are cleared.
  pub record Cleared (i : ℕ) (ip' : Inode) : Type 0 where
    pub below : (j : ℕ) → j < i → ip'.addrs j ≡ 0
    pub above : (j : ℕ) → i ≤ j → ip'.addrs j ≡ ip.addrs j
    pub number : ip'.inum ≡ ip.inum

  abbrev pub DirectDone : Option (Inode × Bytes) → Type 0
  DirectDone none = ⊥
  DirectDone (some (ip', st')) = Cleared 12 ip' × Rel 12 st'

  Cleared-step : (i : ℕ) (ip' : Inode) → Cleared i ip' → Cleared (i + 1) (with_addr i 0 ip')
  Cleared-step i ip' c = record {
    below = λ j lt. ground (arith, c.below j);
    above = λ j le. ground (arith, c.above j);
    number = c.number;
  }

  Cleared-skip : (i : ℕ) (ip' : Inode) → Cleared i ip' → ip'.addrs i ≡ 0 → Cleared (i + 1) ip'
  Cleared-skip i ip' c e = record {
    below = λ j lt. elim (Bool-cases (j == i)) [
      | inl f ↦ ap ip'.addrs ((==_iff j i).0 f) ∙ e
      | inr f ↦ c.below j (ground arith)
    ];
    above = λ j le. c.above j (omega arith);
    number = c.number;
  }

  pub trunc_direct-Done :
      (n i : ℕ) (ip' : Inode) (st' : Bytes)
      → i + n ≡ 12
      → Cleared i ip'
      → Rel i st'
      → DirectDone (trunc_direct sb n i ip' st')
  unfolding trunc_direct
  trunc_direct-Done zero i ip' st' e c r =
      (subst (λ k. Cleared k ip') (omega arith) c, subst (λ k. Rel k st') (omega arith) r)
  trunc_direct-Done (suc n) i ip' st' e c r =
      let at : spot ip.addrs st i ≡ ip'.addrs i =
        spot-direct ip.addrs st i (omega arith) ∙ sym (c.above i (omega arith)) in
      elim (Bool-cases (ip'.addrs i == 0)) [
        | inl z ↦
            let none_here : ip'.addrs i ≡ 0 = (==_iff _ 0).0 z in
            rw z (
              trunc_direct-Done n (i + 1) ip' st' (omega arith) (Cleared-skip i ip' c none_here)
                (skip-Released sb ip.inum ip.addrs st sound i st' r (at ∙ none_here)))
        | inr z ↦
            let some_here : spot ip.addrs st i ≢ 0 = λ f. nonzero z (sym at ∙ f) in
            rw z (
              next
                (λ st2 r2.
                  trunc_direct-Done n (i + 1) (with_addr i 0 ip') st2 (omega arith)
                    (Cleared-step i ip' c) r2)
                (bfree sb (ip'.addrs i) st')
                (subst (λ b. FreesNext sb ip.inum ip.addrs st sound i (bfree sb b st')) at
                  (free-Released sb ip.inum ip.addrs st sound i st' (omega arith) r some_here)))
      ]
    where
      nonzero : {a : ℕ} → (a == 0) ≡ false → a ≢ 0
      nonzero h f = ground arith

      next :
          ((st2 : Bytes)
            → Rel (i + 1) st2
            → DirectDone (trunc_direct sb n (i + 1) (with_addr i 0 ip') st2))
          → (o : Option Bytes) → FreesNext sb ip.inum ip.addrs st sound i o
          → DirectDone (elim o [
            | none ↦ none
            | some st2 ↦ trunc_direct sb n (i + 1) (with_addr i 0 ip') st2
          ])
      next later none h = h
      next later (some st2) r2 = later st2 r2
