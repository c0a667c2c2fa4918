-- ===== src/Fs/Icache/Alloc.antt =====
-- `ialloc` of Xv6-Threads/src/fs.c.
use os_wsl.Prelude.{
  ℕ, zero, suc, ◌+◌, ◌-◌, ◌*◌, ◌%◌, ◌<◌, ◌≤◌, ◌≡◌, ◌≢◌, ◌⊎◌, refl, sym, ap, ◌∙◌, inl, inr, true,
  false, Option, none, some, List, arith, ◌==◌, Bool-cases, ==_iff,
}
use os_wsl.Fs.{Superblock, Bytes}
use os_wsl.Fs.Inode.{get_half, iblock}
use os_wsl.Fs.Icache.{Slot, iget, fresh_dinode, ialloc_from, ialloc}

-- The type of inode `k` on the disk, and byte `x` of it.
abbrev pub type_on : Superblock → Bytes → ℕ → ℕ
type_on sb st k = get_half st (iblock sb k) (k % 8 * 64)

abbrev pub dinode_byte : Superblock → Bytes → ℕ → ℕ → ℕ
dinode_byte sb st k x = st (iblock sb k) (k % 8 * 64 + x)

-- Inode `inum` on the disk has become one of the type, all else being 0, and no other has changed.
pub record Made (sb : Superblock) (type inum : ℕ) (st st' : Bytes) : Type 0 where
  pub typed : type_on sb st' inum ≡ type
  pub zeroed : (x : ℕ) → 2 ≤ x → x < 64 → dinode_byte sb st' inum x ≡ 0
  pub others : (k x : ℕ) → k ≢ inum → x < 64 → dinode_byte sb st' k x ≡ dinode_byte sb st k x

fresh_dinode-Made :
    (sb : Superblock) (type inum : ℕ) (st : Bytes)
    → type < 65536
    → Made sb type inum st (fresh_dinode (iblock sb inum) (inum % 8 * 64) type st)
fresh_dinode-Made sb type inum st small = record {
  typed = ground arith;
  zeroed = λ x lo hi. ground arith;
  others = λ k x ne lt. ground arith;
}

-- The first free inode from number `from` on has been allocated and is referenced; where there is none
-- before `bound`, or no room in the cache, there is no result.
abbrev pub FirstFree :
    Superblock → ℕ → ℕ → ℕ → ℕ → List Slot → Bytes → Option (ℕ × List Slot × Bytes) → Type 0
FirstFree sb dev type from bound t st none =
    (k : ℕ)
    → from ≤ k
    → k < bound
    → type_on sb st k ≡ 0
    → (m : ℕ) × ((from ≤ m) × (m ≤ k) × (type_on sb st m ≡ 0) × (iget dev m t ≡ none))
FirstFree sb dev type from bound t st (some (i, t', st')) =
    (inum : ℕ) × ((from ≤ inum)
      × (inum < bound)
      × (type_on sb st inum ≡ 0)
      × ((k : ℕ) → from ≤ k → k < inum → type_on sb st k ≢ 0)
      × (iget dev inum t ≡ some (i, t'))
      × Made sb type inum st st')

-- A search that starts one number later, behind an inode that is not free.
later-FirstFree :
    (sb : Superblock) (dev type from bound : ℕ) (t : List Slot) (st : Bytes)
    (o : Option (ℕ × List Slot × Bytes))
    → type_on sb st from ≢ 0
    → FirstFree sb dev type (from + 1) bound t st o
    → FirstFree sb dev type from bound t st o
later-FirstFree sb dev type from bound t st none taken f = λ k lo hi z.
    let (m, (a, b, c, d)) = f k (above k lo (Bool-cases (k == from)) z) hi z in
    (m, (omega arith, b, c, d))
  where
    above :
        (k : ℕ)
        → from ≤ k
        → ((k == from) ≡ true) ⊎ ((k == from) ≡ false)
        → type_on sb st k ≡ 0
        → from + 1 ≤ k
    above k lo (inl e) z = absurd (taken (sym (ap (type_on sb st) ((==_iff k from).0 e)) ∙ z))
    above k lo (inr e) z = ground arith
later-FirstFree sb dev type from bound t st (some (i, t', st')) taken (inum, (a, b, c, d, e, m)) =
    (inum, (omega arith, b, c, λ k lo hi z. used k lo hi (Bool-cases (k == from)) z, e, m))
  where
    used :
        (k : ℕ)
        → from ≤ k
        → k < inum
        → ((k == from) ≡ true) ⊎ ((k == from) ≡ false)
        → type_on sb st k ≢ 0
    used k lo hi (inl e) z = taken (sym (ap (type_on sb st) ((==_iff k from).0 e)) ∙ z)
    used k lo hi (inr e) z = d k (ground arith) hi z

ialloc_from-FirstFree :
    (sb : Superblock) (dev type n from bound : ℕ) (t : List Slot) (st : Bytes)
    → type < 65536
    → from + n ≡ bound
    → FirstFree sb dev type from bound t st (ialloc_from sb dev type n from t st)
unfolding ialloc_from
ialloc_from-FirstFree sb dev type zero from bound t st small e = λ k lo hi z. absurd (omega arith)
ialloc_from-FirstFree sb dev type (suc n) from bound t st small e =
    elim (Bool-cases (type_on sb st from == 0)) [
      | inl z ↦ rw z (here (iget dev from t) refl (ground arith))
      | inr z ↦ rw z (
          later-FirstFree sb dev type from bound t st (ialloc_from sb dev type n (from + 1) t st)
            (ground arith)
            (ialloc_from-FirstFree sb dev type n (from + 1) bound t st small (omega arith)))
    ]
  where
    here :
        (o : Option (ℕ × List Slot))
        → iget dev from t ≡ o
        → type_on sb st from ≡ 0
        → FirstFree sb dev type from bound t st (elim o [
          | none ↦ none
          | some (i, t') ↦ some (i, t', fresh_dinode (iblock sb from) (from % 8 * 64) type st)
        ])
    here none full z = λ k lo hi free. (from, (omega arith, lo, z, full))
    here (some (i, t')) got z = (
      from,
      (
        omega arith,
        omega arith,
        z,
        λ k lo hi. absurd (omega arith),
        got,
        fresh_dinode-Made sb type from st small,
      ),
    )

-- `ialloc` takes the inode of the least number from 1 on whose type on the disk is 0: it gives what `iget`
-- gives for that number, the disk has the type there and 0 in the other bytes of that inode, and no other
-- inode on the disk has changed. It fails only if no inode is free or `iget` fails for a free one. (The
-- type has 16 bits, and there is an inode 0.)
pub ialloc_lem :
    (sb : Superblock) (dev type : ℕ) (t : List Slot) (st : Bytes)
    → type < 65536
    → 0 < sb.ninodes
    → FirstFree sb dev type 1 sb.ninodes t st (ialloc sb dev type t st)
unfolding ialloc
ialloc_lem sb dev type t st small some_inode =
    ialloc_from-FirstFree sb dev type (sb.ninodes - 1) 1 sb.ninodes t st small (omega arith)
