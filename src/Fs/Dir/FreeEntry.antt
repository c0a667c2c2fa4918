-- ===== src/Fs/Dir/FreeEntry.antt =====
-- The entry that `dirlink` of Xv6-Threads/src/fs.c fills.
use mathlib.Core.Path.{subst}
use os_wsl.Prelude.{
  ℕ, zero, suc, ◌+◌, ◌*◌, ◌<◌, ◌≤◌, ◌≡◌, ◌⊎◌, inl, inr, refl, sym, ◌∙◌, false, Option, none, some,
  arith, u32, ltb, lt→ltb, ◌==◌, if◌then◌else◌, Bool-cases, ==_iff,
}
use os_wsl.Fs.{Superblock, Bytes}
use os_wsl.Fs.Inode.{Inode}
use os_wsl.Fs.Inode.Spots.{content}
use os_wsl.Fs.Content.{Memory, Driver, Result, readi}
use os_wsl.Fs.Content.Reading.{Holds}
use os_wsl.Fs.Dir.{inum_at, empty_or, empty_loop}
use os_wsl.Fs.Dir.Lookup.{AreBytes, Outside, read_entry, Delivered-AreBytes, entry-inum}

-- Of the `n` entries from entry `k` on, the first that is not in use, or the one behind them.
abbrev pub slot : (ℕ → ℕ) → ℕ → ℕ → ℕ
slot file zero k = k
slot file (suc n) k =
    let rest = slot file n (k + 1) in if inum_at (16 * k) file == 0 then k else rest

pub slot-range : (file : ℕ → ℕ) (n k : ℕ) → (k ≤ slot file n k) × (slot file n k ≤ k + n)
slot-range file zero k = (omega arith, omega arith)
slot-range file (suc n) k =
    let (lo, hi) = slot-range file n (k + 1) in
    elim (Bool-cases (inum_at (16 * k) file == 0)) [
      | inl e ↦ rw e (omega arith, omega arith)
      | inr e ↦ rw e (omega arith, omega arith)
    ]

-- An entry that was not in use, if it was one of the `n`.
pub slot-unused :
    (file : ℕ → ℕ) (n k : ℕ) → slot file n k < k + n → inum_at (16 * slot file n k) file ≡ 0
slot-unused file zero k lt = absurd (omega arith)
slot-unused file (suc n) k lt = elim (Bool-cases (inum_at (16 * k) file == 0)) [
  | inl e ↦ rw e ((==_iff (inum_at (16 * k) file) 0).0 e)
  | inr e ↦
      let further : slot file n (k + 1) < k + suc n = rw e at lt in
      rw e (slot-unused file n (k + 1) (omega arith))
]

-- What the loop of `dirlink` gives.
abbrev pub EmptyAt : Inode → Bytes → ℕ → Memory → ℕ → Option (ℕ × Inode × Bytes × Memory) → Type 0
EmptyAt ip st de mem off none = ⊥
EmptyAt ip st de mem off (some (o, ip', st', mem')) =
    (o ≡ off) × (ip' ≡ ip) × (st' ≡ st) × Outside de mem mem' × AreBytes mem'

module _ (devsw : Driver) (sb : Superblock) (name de : ℕ) (ip : Inode) (st : Bytes)
    (holds : Holds sb ip st) (bytes : AreBytes (content ip.addrs st))
    (apart : (name + 14 ≤ de) ⊎ (de + 16 ≤ name)) where
  abbrev file : ℕ → ℕ
  file = content ip.addrs st

  loop_end :
      (fuel k : ℕ) (mem : Memory)
      → ip.size ≤ 16 * k
      → empty_loop devsw sb (suc fuel) (16 * k) de ip st mem ≡ some (16 * k, ip, st, mem)
  unfolding empty_loop
  loop_end fuel k mem le = let over : ltb (16 * k) ip.size ≡ false = ground arith in rw over refl

  loop_step :
      (fuel k : ℕ) (mem mem' : Memory)
      → 16 * k + 16 ≤ ip.size
      → readi devsw sb de (16 * k) 16 ip st mem ≡ some (16, ip, st, mem')
      → empty_loop devsw sb (suc fuel) (16 * k) de ip st mem
        ≡ empty_or de (16 * k) (empty_loop devsw sb fuel (u32 (16 * k + 16)) de) (16, ip, st, mem')
  unfolding empty_loop
  loop_step fuel k mem mem' le ran =
      rw (lt→ltb (16 * k) ip.size (omega arith))
        (opened (readi devsw sb de (16 * k) 16 ip st mem) ran)
    where
      opened :
          (o : Option Result)
          → o ≡ some (16, ip, st, mem')
          → (elim o [
            | none ↦ none
            | some r ↦ empty_or de (16 * k) (empty_loop devsw sb fuel (u32 (16 * k + 16)) de) r
          ])
            ≡ empty_or de
                (16 * k)
                (empty_loop devsw sb fuel (u32 (16 * k + 16)) de)
                (16, ip, st, mem')
      opened o e = rw e refl

  pub empty_loop-EmptyAt :
      (fuel n k : ℕ) (mem : Memory)
      → n < fuel
      → 16 * k + 16 * n ≡ ip.size
      → AreBytes mem
      → EmptyAt ip st de mem (16 * slot file n k) (empty_loop devsw sb fuel (16 * k) de ip st mem)
  empty_loop-EmptyAt zero n k mem lt e bm = absurd (omega arith)
  empty_loop-EmptyAt (suc fuel) zero k mem lt e bm =
      subst (EmptyAt ip st de mem (16 * k)) (sym (loop_end fuel k mem (omega arith)))
        (refl, refl, refl, λ x o. refl, bm)
  empty_loop-EmptyAt (suc fuel) (suc n) k mem lt e bm =
      let (mem', (ran, d)) =
        read_entry devsw sb name de ip st holds bytes apart k mem (omega arith) in
      let bound = holds.bounded in
      let next : u32 (16 * k + 16) ≡ 16 * (k + 1) = omega arith in
      let bm' = Delivered-AreBytes file (16 * k) de mem mem' bytes bm d in
      let rest = empty_loop-EmptyAt fuel n (k + 1) mem' (omega arith) (omega arith) bm' in
      subst (EmptyAt ip st de mem (16 * slot file (suc n) k))
        (sym (loop_step fuel k mem mem' (omega arith) ran))
        (pick n k mem mem' (inum_at de mem') (inum_at (16 * k) file)
          (empty_loop devsw sb fuel (u32 (16 * k + 16)) de ip st mem')
          (entry-inum file (16 * k) de mem mem' d) d.1 bm'
          (subst
            (λ o.
              EmptyAt ip st de mem' (16 * slot file n (k + 1))
                (empty_loop devsw sb fuel o de ip st mem'))
            (sym next) rest))
    where
      weaker :
          (mem mem' : Memory) (off : ℕ) (o : Option (ℕ × Inode × Bytes × Memory))
          → Outside de mem mem'
          → EmptyAt ip st de mem' off o
          → EmptyAt ip st de mem off o
      weaker mem mem' off none out h = h
      weaker mem mem' off (some (p, ip', st', mem2)) out (at, same_ip, same_st, out2, b) =
          (at, same_ip, same_st, λ x o. out2 x o ∙ out x o, b)

      pick :
          (n k : ℕ) (mem mem' : Memory) (a b : ℕ) (o : Option (ℕ × Inode × Bytes × Memory))
          → a ≡ b
          → Outside de mem mem'
          → AreBytes mem'
          → EmptyAt ip st de mem' (16 * slot file n (k + 1)) o
          → EmptyAt ip st de mem
              (16 * (if b == 0 then k else slot file n (k + 1)))
              (if a == 0 then some (16 * k, ip, st, mem') else o)
      pick n k mem mem' a b o e out bm h = elim (Bool-cases (b == 0)) [
        | inl z ↦ rw e (rw z (refl, refl, refl, out, bm))
        | inr z ↦ rw e (rw z (weaker mem mem' (16 * slot file n (k + 1)) o out h))
      ]
