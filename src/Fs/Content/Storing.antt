-- ===== src/Fs/Content/Storing.antt =====
-- Bytes that `writei` of Xv6-Threads/src/fs.c copies into a block of the file.
use mathlib.Core.Path.{subst}
use os_wsl.Prelude.{
  ℕ, ◌-◌, ◌/◌, ◌%◌, ◌≤◌, ◌<◌, ◌≡◌, ◌≢◌, refl, sym, ap, ◌∙◌, inl, inr, true, arith, ◌==◌, Bool-cases,
  ==_iff,
}
use os_wsl.Fs.{Superblock, Bytes, bblock, bpb, bit}
use os_wsl.Fs.Bitmap.{used}
use os_wsl.Fs.Free.{free_blocks, free-same}
use os_wsl.Fs.Inode.{iblock}
use os_wsl.Fs.Inode.Layout.{get_word-same}
use os_wsl.Fs.Inode.Spots.{
  spot, spot-direct, spot-entry, spot-no_table, spot-cases, Own, Sound, byte_in, content,
}

-- Changes that leave the bitmap and the blocks' numbers alone.
module _ (sb : Superblock) (inum : ℕ) (addrs : ℕ → ℕ) (st st' : Bytes)
    (sound : Sound sb inum addrs st)
    (map_same : (c : ℕ) → c < sb.size → used sb st' c ≡ used sb st c)
    (spots_same : (m : ℕ) → m ≤ 140 → spot addrs st' m ≡ spot addrs st m) where
  in_use_still : (c : ℕ) → c < sb.size → used sb st c ≡ true → used sb st' c ≡ true
  in_use_still c lt h = map_same c lt ∙ h

  pub Sound-same : Sound sb inum addrs st'
  Sound-same = record {
    disk = record {
      maps =
          λ c lt. in_use_still (bblock sb c) (sound.disk.maps_inside c lt) (sound.disk.maps c lt);
      boot = in_use_still 0 (omega (arith, sound.disk.inode_inside)) sound.disk.boot;
      inode = in_use_still (iblock sb inum) sound.disk.inode_inside sound.disk.inode;
      apart = sound.disk.apart;
      small = sound.disk.small;
      maps_inside = sound.disk.maps_inside;
      inode_inside = sound.disk.inode_inside;
    };
    own = own;
    distinct = λ k m lk lm nz e.
        sound.distinct k m lk lm (λ z. nz (spots_same k lk ∙ z))
          (sym (spots_same k lk) ∙ e ∙ spots_same m lm);
  }
    where
      own : (k : ℕ) → k ≤ 140 → spot addrs st' k ≢ 0 → Own sb inum st' (spot addrs st' k)
      own k le nz =
          let o = sound.own k le (λ z. nz (spots_same k le ∙ z)) in
          subst (Own sb inum st') (sym (spots_same k le)) (record {
            inside = o.inside;
            in_use = in_use_still (spot addrs st k) o.inside o.in_use;
            no_map = o.no_map;
            no_inode = o.no_inode;
          })

-- A change of a block that is neither the indirect block nor of the bitmap.
module _ (sb : Superblock) (inum : ℕ) (addrs : ℕ → ℕ) (st st' : Bytes) (b : ℕ)
    (sound : Sound sb inum addrs st) (only : (c j : ℕ) → c ≢ b → st' c j ≡ st c j)
    (no_map : (c : ℕ) → c < sb.size → b ≢ bblock sb c)
    (no_table : addrs 12 ≢ 0 → b ≢ addrs 12) where
  pub used_same : (c : ℕ) → c < sb.size → used sb st' c ≡ used sb st c
  used_same c lt =
      ap (bit (c % bpb % 8)) (only (bblock sb c) (c % bpb / 8) (λ e. no_map c lt (sym e)))

  pub spots_same : (m : ℕ) → m ≤ 140 → spot addrs st' m ≡ spot addrs st m
  spots_same m le = elim (spot-cases m le) [
    | inl l ↦ spot-direct addrs st' m l ∙ sym (spot-direct addrs st m l)
    | inr (inl (lo, hi)) ↦ elim (Bool-cases (addrs 12 == 0)) [
      | inl z ↦
          let none : addrs 12 ≡ 0 = (==_iff _ 0).0 z in
          spot-no_table addrs st' m lo hi none ∙ sym (spot-no_table addrs st m lo hi none)
      | inr z ↦
          let table : addrs 12 ≢ 0 = ground arith in
          spot-entry addrs st' m lo hi table
          ∙ get_word-same st' st (addrs 12) (m - 12)
              (λ j _. only (addrs 12) j (λ e. no_table table (sym e)))
          ∙ sym (spot-entry addrs st m lo hi table)
    ]
    | inr (inr e) ↦ ap (spot addrs st') e ∙ sym (ap (spot addrs st) e)
  ]

  pub Sound-only : Sound sb inum addrs st'
  Sound-only = Sound-same sb inum addrs st st' sound used_same spots_same

  pub free_only : free_blocks sb st ≡ free_blocks sb st'
  free_only = free-same sb st st' used_same

  -- A block that is not of the file either.
  pub content-only :
      (o : ℕ)
      → o < 71680
      → (spot addrs st (o / 512) ≢ 0 → b ≢ spot addrs st (o / 512))
      → content addrs st' o ≡ content addrs st o
  content-only o lt ne =
      ap (λ c. byte_in st' c (o % 512)) (spots_same (o / 512) (omega arith))
      ∙ same_byte (spot addrs st (o / 512)) (o % 512) ne
    where
      same_byte : (c j : ℕ) → (c ≢ 0 → b ≢ c) → byte_in st' c j ≡ byte_in st c j
      same_byte c j ne = elim (Bool-cases (c == 0)) [
        | inl e ↦ rw e refl
        | inr e ↦ rw e (only c j (λ f. ne (ground arith) (sym f)))
      ]
