-- ===== src/Fs/Inode/Table.antt =====
-- A block that `bmap` of Xv6-Threads/src/fs.c adds to the indirect block of a file.
use os_wsl.Prelude.{
  ℕ, ◌-◌, ◌/◌, ◌%◌, ◌≤◌, ◌<◌, ◌≡◌, ◌≢◌, sym, ap, ◌∙◌, inl, inr, true, false, arith,
}
use os_wsl.Fs.{Superblock, Bytes, bblock, bpb, bit}
use os_wsl.Fs.Bitmap.{used, Allocated}
use os_wsl.Fs.Inode.{put_word}
use os_wsl.Fs.Inode.Layout.{put_word-ne, get_word-put_self, get_word-put_ne}
use os_wsl.Fs.Inode.Spots.{spot, spot-direct, spot-entry, spot-cases, Own, Sound, Taken}
use os_wsl.Fs.Inode.Entries.{spot_kept, word_kept, pick}

other_block : (b i v c j : ℕ) (st : Bytes) → c ≢ b → put_word b i v st c j ≡ st c j
other_block b i v c j st ne = put_word-ne b i v c j st (ground arith)

module _ (sb : Superblock) (inum : ℕ) (addrs : ℕ → ℕ) (st : Bytes) (a : ℕ) (st' : Bytes) (k : ℕ)
    (sound : Sound sb inum addrs st) (alloc : Allocated sb st a st') (table : addrs 12 ≢ 0)
    (lo : 12 ≤ k) (hi : k < 140) (none_yet : spot addrs st k ≡ 0) where
  abbrev after : Bytes
  after = put_word (addrs 12) (k - 12) a st'

  table-Own : Own sb inum st (addrs 12)
  table-Own = sound.own 140 (omega arith) table

  used_same : (c : ℕ) → c < sb.size → used sb after c ≡ used sb st' c
  used_same c lt = ap (bit (c % bpb % 8)) (
      other_block (addrs 12) (k - 12) a (bblock sb c) (c % bpb / 8) st'
        (λ e. table-Own.no_map c lt (sym e)))

  new_ne : a ≢ addrs 12
  new_ne e = not_free (sym table-Own.in_use ∙ ap (used sb st) (sym e) ∙ alloc.was_free)
    where
      not_free : true ≢ false
      not_free f = ground arith

  spot_here : (m : ℕ) → m ≡ k → spot addrs after m ≡ a
  spot_here m e =
      ap (spot addrs after) e
      ∙ spot-entry addrs after k lo hi table
      ∙ get_word-put_self (addrs 12) (k - 12) a st' (omega (arith, alloc.inside, sound.disk.small))

  spot_there : (m : ℕ) → m ≤ 140 → m ≢ k → spot addrs after m ≡ spot addrs st m
  spot_there m le ne = elim (spot-cases m le) [
    | inl l ↦ spot-direct addrs after m l ∙ sym (spot-direct addrs st m l)
    | inr (inl (low, high)) ↦
        spot-entry addrs after m low high table
        ∙ get_word-put_ne (addrs 12) (k - 12) (m - 12) a (addrs 12) st' (omega arith)
        ∙ word_kept sb inum addrs st a st' sound alloc m low high table
    | inr (inr e) ↦ ap (spot addrs after) e ∙ sym (ap (spot addrs st) e)
  ]

  data_kept :
      (m j : ℕ) → m < 140 → spot addrs st m ≢ 0 → after (spot addrs st m) j ≡ st (spot addrs st m) j
  data_kept m j lt nz =
      other_block (addrs 12) (k - 12) a (spot addrs st m) j st' (λ e. not_last (distinct m lt nz e))
      ∙ spot_kept sb inum addrs st a st' sound alloc m j (omega arith) nz
    where
      distinct : (m : ℕ) → m < 140 → spot addrs st m ≢ 0 → spot addrs st m ≡ addrs 12 → m ≡ 140
      distinct m lt nz e = sound.distinct m 140 (omega arith) (omega arith) nz e

      not_last : m ≢ 140
      not_last e = omega arith

  pub entry-Taken : Taken sb inum addrs st k a addrs after
  entry-Taken = record {
    was_none = none_yet;
    inside = alloc.inside;
    was_free = alloc.was_free;
    map_after = λ c lt. used_same c lt ∙ alloc.map_after c lt;
    spots =
        λ m le. pick m k a (spot addrs after m) (spot addrs st m) (spot_here m) (spot_there m le);
    zeroed = λ lt j lj. other_block (addrs 12) (k - 12) a a j st' new_ne ∙ alloc.zeroed j lj;
    others = data_kept;
  }
