-- ===== src/Fs/Inode/Growth.antt =====
-- A block that `bmap` of Xv6-Threads/src/fs.c adds to a file leaves the file as it was.
use mathlib.Core.Path.{subst}
use os_wsl.Prelude.{
  ℕ, ◌/◌, ◌%◌, ◌≤◌, ◌<◌, ◌≡◌, ◌≢◌, refl, sym, ap, ◌∙◌, inl, inr, Bool, true, false, arith, ◌==◌,
  Bool-cases, ==_iff,
}
use os_wsl.Fs.{Superblock, Bytes, bblock}
use os_wsl.Fs.Bitmap.{used}
use os_wsl.Fs.Inode.{iblock}
use os_wsl.Fs.Inode.Spots.{spot, Own, LaidOut, Sound, byte_in, Grown, Taken}

-- A block in use is not one that was free.
clash : {b c : Bool} → b ≡ true → c ≡ false → b ≢ c
clash t f e = ground arith

module _ (sb : Superblock) (inum : ℕ) (addrs : ℕ → ℕ) (st : Bytes) (k a : ℕ) (addrs' : ℕ → ℕ)
    (st' : Bytes) (sound : Sound sb inum addrs st)
    (took : Taken sb inum addrs st k a addrs' st') where
  free_ne : (c : ℕ) → used sb st c ≡ true → a ≢ c
  free_ne c taken e = clash taken took.was_free (sym (ap (used sb st) e))

  stays : (c : ℕ) → c < sb.size → used sb st c ≡ true → used sb st' c ≡ true
  stays c lt taken = ground (arith, took.map_after c lt)

  now_used : used sb st' a ≡ true
  now_used = ground (arith, took.map_after a took.inside)

  a_nonzero : a ≢ 0
  a_nonzero = free_ne 0 sound.disk.boot

  laid_out : LaidOut sb inum st'
  laid_out = record {
    maps = λ c lt. stays (bblock sb c) (sound.disk.maps_inside c lt) (sound.disk.maps c lt);
    boot = stays 0 (omega (arith, sound.disk.inode_inside)) sound.disk.boot;
    inode = stays (iblock sb inum) sound.disk.inode_inside sound.disk.inode;
    apart = sound.disk.apart;
    small = sound.disk.small;
    maps_inside = sound.disk.maps_inside;
    inode_inside = sound.disk.inode_inside;
  }

  new-Own : Own sb inum st' a
  new-Own = record {
    inside = took.inside;
    in_use = now_used;
    no_map = λ c lt. free_ne (bblock sb c) (sound.disk.maps c lt);
    no_inode = free_ne (iblock sb inum) sound.disk.inode;
  }

  old-Own : (c : ℕ) → Own sb inum st c → Own sb inum st' c
  old-Own c own = record {
    inside = own.inside;
    in_use = stays c own.inside own.in_use;
    no_map = own.no_map;
    no_inode = own.no_inode;
  }

  spot_new : (m : ℕ) → m ≤ 140 → m ≡ k → spot addrs' st' m ≡ a
  spot_new m le e = ground (arith, took.spots m le)

  spot_old : (m : ℕ) → m ≤ 140 → m ≢ k → spot addrs' st' m ≡ spot addrs st m
  spot_old m le e = ground (arith, took.spots m le)

  all-Own : (m : ℕ) → m ≤ 140 → spot addrs' st' m ≢ 0 → Own sb inum st' (spot addrs' st' m)
  all-Own m le nz = elim (Bool-cases (m == k)) [
    | inl e ↦ subst (Own sb inum st') (sym (spot_new m le ((==_iff m k).0 e))) new-Own
    | inr e ↦
        let old = spot_old m le (ground arith) in
        subst (Own sb inum st') (sym old)
          (old-Own (spot addrs st m) (sound.own m le (λ z. nz (old ∙ z))))
  ]

  new_apart : (m : ℕ) → m ≤ 140 → a ≢ spot addrs st m
  new_apart m le e = free_ne (spot addrs st m) (sound.own m le (λ z. a_nonzero (e ∙ z))).in_use e

  distinct_all :
      (m n : ℕ)
      → m ≤ 140
      → n ≤ 140
      → spot addrs' st' m ≢ 0
      → spot addrs' st' m ≡ spot addrs' st' n
      → m ≡ n
  distinct_all m n lm ln nz e = elim (Bool-cases (m == k)) [
    | inl p ↦ elim (Bool-cases (n == k)) [
      | inl q ↦ ground arith
      | inr q ↦
          absurd
            (new_apart n ln (sym (spot_new m lm (ground arith)) ∙ e ∙ spot_old n ln (ground arith)))
    ]
    | inr p ↦ elim (Bool-cases (n == k)) [
      | inl q ↦ absurd (
          new_apart m lm
            (sym (spot_new n ln (ground arith)) ∙ sym e ∙ spot_old m lm (ground arith)))
      | inr q ↦
          let old = spot_old m lm (ground arith) in
          sound.distinct m n lm ln (λ z. nz (old ∙ z)) (sym old ∙ e ∙ spot_old n ln (ground arith))
    ]
  ]

  same_byte :
      (m j : ℕ)
      → m < 140
      → j < 512
      → byte_in st' (spot addrs' st' m) j ≡ byte_in st (spot addrs st m) j
  same_byte m j lt lj = elim (Bool-cases (m == k)) [
    | inl e ↦
        ap (λ b. byte_in st' b j) (spot_new m (omega arith) (ground arith))
        ∙ zero_byte j (ground arith) lj
        ∙ sym (ap (λ b. byte_in st b j) (none_there m (ground arith)))
    | inr e ↦ ap (λ b. byte_in st' b j) (spot_old m (omega arith) (ground arith)) ∙ kept_byte m j lt
  ]
    where
      none_there : (m : ℕ) → m ≡ k → spot addrs st m ≡ 0
      none_there m e = ap (spot addrs st) e ∙ took.was_none

      zero_byte : (j : ℕ) → k < 140 → j < 512 → byte_in st' a j ≡ 0
      zero_byte j lk lj = ground (arith, took.zeroed lk j lj)

      kept_byte :
          (m j : ℕ) → m < 140 → byte_in st' (spot addrs st m) j ≡ byte_in st (spot addrs st m) j
      kept_byte m j lm = elim (Bool-cases (spot addrs st m == 0)) [
        | inl e ↦ rw e refl
        | inr e ↦ rw e (took.others m j lm (ground arith))
      ]

  pub Taken-Grown : k ≤ 140 → Grown sb inum addrs st k a addrs' st'
  Taken-Grown le = record {
    got = spot_new k le refl;
    nonzero = a_nonzero;
    sound = record { disk = laid_out; own = all-Own; distinct = distinct_all };
    kept = λ m lm nz. spot_old m lm (λ e. nz (ap (spot addrs st) e ∙ took.was_none));
    same = λ o lt. same_byte (o / 512) (o % 512) (omega arith) (omega arith);
  }
