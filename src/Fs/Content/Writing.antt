-- ===== src/Fs/Content/Writing.antt =====
-- One round of `writei` of Xv6-Threads/src/fs.c writes a part of the file as an array of bytes.
use os_wsl.Prelude.{
  ℕ, ◌+◌, ◌*◌, ◌/◌, ◌%◌, ◌≤◌, ◌<◌, ◌≡◌, ◌≢◌, ◌⊎◌, refl, sym, ap, ◌∙◌, inl, inr, true, false, ◌&&◌,
  arith, ltb, leb, ◌==◌, Bool-cases, ==_iff,
}
use os_wsl.Fs.{Superblock, Bytes, bblock}
use os_wsl.Fs.Free.{free_blocks}
use os_wsl.Fs.Inode.{Inode}
use os_wsl.Fs.Inode.Spots.{spot, Sound, byte_in, content}
use os_wsl.Fs.Content.{Memory, copied_in}
use os_wsl.Fs.Content.Storing.{spots_same, Sound-only, free_only, content-only}

-- The file has the `n` bytes of memory from `src` on at offset `off`, and is as before elsewhere.
abbrev pub Written : (ℕ → ℕ) → Memory → ℕ → ℕ → ℕ → (ℕ → ℕ) → Type 0
Written file mem src off n file' =
    ((i : ℕ) → i < n → file' (off + i) ≡ mem (src + i))
    × ((o : ℕ) → o < 71680 → (o < off) ⊎ (off + n ≤ o) → file' o ≡ file o)

-- The file after a write, which has allocated `c` blocks at most.
pub record Wrote (sb : Superblock) (mem : Memory) (ip : Inode) (st : Bytes) (src off n c : ℕ)
    (ip' : Inode) (st' : Bytes) : Type 0 where
  pub rest : ip' ≡ record ip { addrs = ip'.addrs }
  pub sound : Sound sb ip.inum ip'.addrs st'
  pub kept : (k : ℕ) → k ≤ 140 → spot ip.addrs st k ≢ 0 → spot ip'.addrs st' k ≡ spot ip.addrs st k
  pub filled :
      (k : ℕ) → k < 140 → off / 512 ≤ k → k * 512 < off + n → 0 < n → spot ip'.addrs st' k ≢ 0
  pub written : Written (content ip.addrs st) mem src off n (content ip'.addrs st')
  pub cost : free_blocks sb st ≤ c + free_blocks sb st'

-- A copy into block `b`, which is number `k` of the file.
module _ (sb : Superblock) (inum : ℕ) (addrs : ℕ → ℕ) (st : Bytes) (mem : Memory) (src off m : ℕ)
    (sound : Sound sb inum addrs st) (nz : spot addrs st (off / 512) ≢ 0) (pos : 0 < m)
    (fits : off % 512 + m ≤ 512) (bound : off + m ≤ 71680) where
  abbrev here : ℕ
  here = spot addrs st (off / 512)

  abbrev pub stored : Bytes
  stored = copied_in mem src (spot addrs st (off / 512)) (off % 512) m st

  low : off / 512 < 140
  low = omega arith

  only : (c j : ℕ) → c ≢ here → stored c j ≡ st c j
  only c j ne = let apart : (c == here) ≡ false = ground arith in rw apart refl

  no_map : (c : ℕ) → c < sb.size → here ≢ bblock sb c
  no_map = (sound.own (off / 512) (omega arith) nz).no_map

  no_table : addrs 12 ≢ 0 → here ≢ addrs 12
  no_table table e = last (sound.distinct (off / 512) 140 (omega arith) (omega arith) nz e)
    where
      last : off / 512 ≢ 140
      last e = omega arith

  pub stored_spots : (k : ℕ) → k ≤ 140 → spot addrs stored k ≡ spot addrs st k
  stored_spots = spots_same sb inum addrs st stored here sound only no_map no_table

  inside : (i : ℕ) → i < m → content addrs stored (off + i) ≡ mem (src + i)
  inside i lt =
      let number : (off + i) / 512 ≡ off / 512 = omega arith in
      ap (λ k. byte_in stored (spot addrs stored k) ((off + i) % 512)) number
      ∙ ap (λ b. byte_in stored b ((off + i) % 512)) (stored_spots (off / 512) (omega arith))
      ∙ copied ((off + i) % 512) (omega arith) (omega arith)
    where
      copied : (j : ℕ) → j < 512 → j ≡ off % 512 + i → byte_in stored here j ≡ mem (src + i)
      copied j lj e =
          let some_block : (here == 0) ≡ false = ground arith in
          let same : (here == here && (leb (off % 512) j && ltb j (off % 512 + m))) ≡ true =
            ground arith in
          rw some_block (rw same (ap mem (omega arith)))

  outside :
      (o : ℕ) → o < 71680 → (o < off) ⊎ (off + m ≤ o) → content addrs stored o ≡ content addrs st o
  outside o lt out = elim (Bool-cases (o / 512 == off / 512)) [
    | inl e ↦
        let number : o / 512 ≡ off / 512 = (==_iff _ _).0 e in
        ap (λ b. byte_in stored b (o % 512)) (stored_spots (o / 512) (omega arith))
        ∙ ap (λ k. byte_in stored (spot addrs st k) (o % 512)) number
        ∙ same_byte (o % 512) (ground arith)
        ∙ ap (λ k. byte_in st (spot addrs st k) (o % 512)) (sym number)
    | inr e ↦ content-only sb inum addrs st stored here sound only no_map no_table o lt (λ _ f.
        apart o lt f (sound.distinct (off / 512) (o / 512) (omega arith) (omega arith) nz f) e)
  ]
    where
      same_byte :
          (j : ℕ)
          → (j < off % 512) ⊎ (off % 512 + m ≤ j)
          → byte_in stored here j ≡ byte_in st here j
      same_byte j out =
          let not_in : (here == here && (leb (off % 512) j && ltb j (off % 512 + m))) ≡ false =
            ground arith in
          rw not_in refl

      apart :
          (o : ℕ)
          → o < 71680
          → here ≡ spot addrs st (o / 512)
          → off / 512 ≡ o / 512
          → ¬ ((o / 512 == off / 512) ≡ false)
      apart o lt f e h = ground arith

  pub stored-Written : Written (content addrs st) mem src off m (content addrs stored)
  stored-Written = (inside, outside)

  pub stored-Sound : Sound sb inum addrs stored
  stored-Sound = Sound-only sb inum addrs st stored here sound only no_map no_table

  pub stored-free : free_blocks sb st ≡ free_blocks sb stored
  stored-free = free_only sb inum addrs st stored here sound only no_map no_table
