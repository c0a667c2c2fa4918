-- ===== src/Fs/Inode/Truncate.antt =====
-- `itrunc` of Xv6-Threads/src/fs.c frees the blocks of the file, each once.
use os_wsl.Prelude.{
  ℕ, ◌+◌, ◌≤◌, ◌<◌, ◌≡◌, ◌≢◌, refl, sym, ap, ◌∙◌, inl, inr, true, false, Option, none, some, arith,
  ◌==◌, if◌then◌else◌, Bool-cases, ==_iff,
}
use os_wsl.Fs.{Superblock, Bytes, bblock, bfree}
use os_wsl.Fs.Bitmap.{used, Freed, bfree_lem}
use os_wsl.Fs.Inode.Spots.{spot, Own, Sound}

-- The blocks of the numbers below `p` are free, all other bits of the bitmap are as they were, and so
-- is every block that is not of the bitmap.
pub record Released (sb : Superblock) (addrs : ℕ → ℕ) (st : Bytes) (p : ℕ) (st' : Bytes)
    : Type 0 where
  pub now_free : (k : ℕ) → k < p → spot addrs st k ≢ 0 → used sb st' (spot addrs st k) ≡ false
  pub others :
      (c : ℕ)
      → ((k : ℕ) → k < p → spot addrs st k ≢ 0 → c ≢ spot addrs st k)
      → used sb st' c ≡ used sb st c
  pub data_same : (c j : ℕ) → ((x : ℕ) → x < sb.size → c ≢ bblock sb x) → st' c j ≡ st c j

module _ (sb : Superblock) (inum : ℕ) (addrs : ℕ → ℕ) (st : Bytes)
    (sound : Sound sb inum addrs st) where
  pub none-Released : Released sb addrs st 0 st
  none-Released = record {
    now_free = λ k lt. absurd (omega arith);
    others = λ c _. refl;
    data_same = λ c j _. refl;
  }

  -- A number without a block.
  pub skip-Released :
      (p : ℕ) (st' : Bytes)
      → Released sb addrs st p st'
      → spot addrs st p ≡ 0
      → Released sb addrs st (p + 1) st'
  skip-Released p st' r e = record {
    now_free = λ k lt nz. r.now_free k (below k lt nz) nz;
    others = λ c h. r.others c (λ k lt. h k (omega arith));
    data_same = r.data_same;
  }
    where
      below : (k : ℕ) → k < p + 1 → spot addrs st k ≢ 0 → k < p
      below k lt nz = elim (Bool-cases (k == p)) [
        | inl f ↦ absurd (nz (ap (spot addrs st) ((==_iff k p).0 f) ∙ e))
        | inr f ↦ ground arith
      ]

  -- Freeing the block of number `p` does not panic.
  abbrev pub FreesNext : ℕ → Option Bytes → Type 0
  FreesNext p none = ⊥
  FreesNext p (some st2) = Released sb addrs st (p + 1) st2

  pub free-Released :
      (p : ℕ) (st' : Bytes)
      → p ≤ 140
      → Released sb addrs st p st'
      → spot addrs st p ≢ 0
      → FreesNext p (bfree sb (spot addrs st p) st')
  free-Released p st' le r nz =
      answer (bfree sb (spot addrs st p) st') (bfree_lem sb (spot addrs st p) st')
    where
      own : Own sb inum st (spot addrs st p)
      own = sound.own p le nz

      still : used sb st' (spot addrs st p) ≡ true
      still =
          r.others (spot addrs st p)
            (λ k lt nzk e. later k lt (sound.distinct p k le (omega arith) nz e))
          ∙ own.in_use
        where
          later : (k : ℕ) → k < p → p ≢ k
          later k lt e = omega arith

      answer : (o : Option Bytes) → Freed sb (spot addrs st p) st' o → FreesNext p o
      answer none free = clash (sym still ∙ free)
        where
          clash : true ≢ false
          clash e = ground arith
      answer (some st2) (was, bits, rest) = record {
        now_free = λ k lt nzk. elim (Bool-cases (spot addrs st k == spot addrs st p)) [
          | inl e ↦ bits (spot addrs st k) ∙ rw e refl
          | inr e ↦ bits (spot addrs st k) ∙ rw e (r.now_free k (below k lt e) nzk)
        ];
        others = λ c h.
            bits c ∙ not_this c (h p (omega arith) nz) ∙ r.others c (λ k lt. h k (omega arith));
        data_same = λ c j h. rest c j (h (spot addrs st p) own.inside) ∙ r.data_same c j h;
      }
        where
          below : (k : ℕ) → k < p + 1 → (spot addrs st k == spot addrs st p) ≡ false → k < p
          below k lt e = elim (Bool-cases (k == p)) [
            | inl f ↦ absurd (same e (ap (spot addrs st) ((==_iff k p).0 f)))
            | inr f ↦ ground arith
          ]
            where
              same : {a b : ℕ} → (a == b) ≡ false → a ≢ b
              same h e = ground arith

          not_this :
              (c : ℕ)
              → c ≢ spot addrs st p
              → (if c == spot addrs st p then false else used sb st' c) ≡ used sb st' c
          not_this c ne = let apart : (c == spot addrs st p) ≡ false = ground arith in rw apart refl
