-- ===== src/Fs/Content/File.antt =====
-- `writei` of Xv6-Threads/src/fs.c writes the file as an array of bytes, and `readi` reads them back.
use mathlib.Core.Path.{subst}
use os_wsl.Prelude.{
  ℕ, ◌+◌, ◌*◌, ◌/◌, ◌≤◌, ◌<◌, ◌≡◌, ◌≢◌, refl, sym, ap, ap₂, ◌∙◌, inl, inr, Bool, true, false, ◌&&◌,
  ◌||◌, Option, none, some, arith, u32, ltb, ltb→lt, ◌==◌, if◌then◌else◌, Bool-cases,
}
use os_wsl.Fs.{Superblock, Bytes}
use os_wsl.Fs.Free.{free_blocks}
use os_wsl.Fs.Inode.{Inode, t_dev, iblock, iupdate}
use os_wsl.Fs.Inode.Spots.{spot, Sound, content}
use os_wsl.Fs.Inode.OnDisk.{iupdate-ne}
use os_wsl.Fs.Content.{Memory, Result, Driver, readi, write_loop, end_write, writei}
use os_wsl.Fs.Content.Storing.{spots_same, Sound-only, content-only}
use os_wsl.Fs.Content.Reading.{Holds, readable, readi_lem}
use os_wsl.Fs.Content.Writing.{Written, Wrote}
use os_wsl.Fs.Content.Rounds.{rounds, WroteAll, write_loop-WroteAll}

-- The inode is written to its block, which is none of the file's.
module _ (sb : Superblock) (ip : Inode) (addrs : ℕ → ℕ) (st : Bytes)
    (sound : Sound sb ip.inum addrs st) where
  abbrev saved : Bytes
  saved = iupdate sb ip st

  only : (c j : ℕ) → c ≢ iblock sb ip.inum → saved c j ≡ st c j
  only = iupdate-ne sb ip st

  no_table : addrs 12 ≢ 0 → iblock sb ip.inum ≢ addrs 12
  no_table table e = (sound.own 140 (omega arith) table).no_inode (sym e)

  pub saved-Sound : Sound sb ip.inum addrs saved
  saved-Sound =
      Sound-only sb ip.inum addrs st saved (iblock sb ip.inum) sound only sound.disk.apart no_table

  pub saved-spots : (k : ℕ) → k ≤ 140 → spot addrs saved k ≡ spot addrs st k
  saved-spots =
      spots_same sb ip.inum addrs st saved (iblock sb ip.inum) sound only sound.disk.apart no_table

  pub saved-content : (o : ℕ) → o < 71680 → content addrs saved o ≡ content addrs st o
  saved-content o lt =
      content-only sb ip.inum addrs st saved (iblock sb ip.inum) sound only sound.disk.apart
        no_table o lt (λ nz e. (sound.own (o / 512) (omega arith) nz).no_inode (sym e))

abbrev pub grown : ℕ → ℕ → ℕ → ℕ
grown size off n = if ltb 0 n && ltb size (off + n) then off + n else size

-- What `writei` gives for `n` bytes of `mem` at `src`: it returns `n`; the file holds its bytes as
-- before, has the new ones at `off`, and is as long as they need; or it panics for want of free blocks.
abbrev pub WriteiGives : Superblock → Memory → Inode → Bytes → ℕ → ℕ → ℕ → Option Result → Type 0
WriteiGives sb mem ip st src off n none = free_blocks sb st < 2 * rounds off n
WriteiGives sb mem ip st src off n (some (k, ip', st', mem')) =
    (k ≡ n)
    × (mem' ≡ mem)
    × (ip' ≡ record ip { addrs = ip'.addrs; size = grown ip.size off n })
    × Holds sb ip' st'
    × Written (content ip.addrs st) mem src off n (content ip'.addrs st')

Wrote-filled :
    (sb : Superblock) (mem : Memory) (ip : Inode) (st : Bytes) (src off n c : ℕ) (ip' : Inode)
    (st' : Bytes)
    → Holds sb ip st
    → off ≤ ip.size
    → off + n ≤ 71680
    → Wrote sb mem ip st src off n c ip' st'
    → (k : ℕ) → k * 512 < grown ip.size off n
    → spot ip'.addrs st' k ≢ 0
Wrote-filled sb mem ip st src off n c ip' st' holds le bound wrote k lt =
    elim (Bool-cases (ltb (k * 512) ip.size)) [
      | inl e ↦
          let was = holds.filled k (ltb→lt (k * 512) ip.size e) in
          let b = holds.bounded in λ z. was (sym (wrote.kept k (ground arith) was) ∙ z)
      | inr e ↦ wrote.filled k (ground arith) (ground arith) (ground arith) (ground arith)
    ]

-- The two ends of `writei`, on whether the file has become longer.
kept_size-Gives :
    (sb : Superblock) (mem : Memory) (ip : Inode) (st : Bytes) (src off n c : ℕ) (ip' : Inode)
    (st' : Bytes)
    → Holds sb ip st
    → off ≤ ip.size
    → off + n ≤ 71680
    → (ltb 0 n && ltb ip'.size (off + n)) ≡ false
    → Wrote sb mem ip st src off n c ip' st'
    → WriteiGives sb mem ip st src off n (some (n, ip', st', mem))
kept_size-Gives sb mem ip st src off n c ip' st' holds le bound e wrote =
    let size : ip'.size ≡ ip.size = ap Inode.size wrote.rest in
    let long : grown ip.size off n ≡ ip.size = ground arith in
    let b = holds.bounded in
    (
      refl,
      refl,
      wrote.rest ∙ ap (λ z. record ip { addrs = ip'.addrs; size = z }) (sym long),
      record {
        sound = subst (λ k. Sound sb k ip'.addrs st') (sym (ap Inode.inum wrote.rest)) wrote.sound;
        bounded = omega arith;
        filled = λ k lt.
            Wrote-filled sb mem ip st src off n c ip' st' holds le bound wrote k (omega arith);
        plain = λ f. holds.plain (sym (ap Inode.type wrote.rest) ∙ f);
      },
      wrote.written,
    )

new_size-Gives :
    (sb : Superblock) (mem : Memory) (ip : Inode) (st : Bytes) (src off n c : ℕ) (ip' : Inode)
    (st' : Bytes)
    → Holds sb ip st
    → off ≤ ip.size
    → off + n ≤ 71680
    → (ltb 0 n && ltb ip'.size (off + n)) ≡ true
    → Wrote sb mem ip st src off n c ip' st'
    → WriteiGives sb mem ip st src off n (
        some
          (n, record ip' { size = off + n }, iupdate sb (record ip' { size = off + n }) st', mem))
new_size-Gives sb mem ip st src off n c ip' st' holds le bound e wrote =
    let size : ip'.size ≡ ip.size = ap Inode.size wrote.rest in
    let long : grown ip.size off n ≡ off + n = ground arith in
    let ip2 = record ip' { size = off + n } in
    let sound : Sound sb ip'.inum ip'.addrs st' =
      subst (λ k. Sound sb k ip'.addrs st') (sym (ap Inode.inum wrote.rest)) wrote.sound in
    (
      refl,
      refl,
      ap₂ (λ (p : Inode) z. record p { size = z }) wrote.rest (sym long),
      record {
        sound = saved-Sound sb ip2 ip'.addrs st' sound;
        bounded = bound;
        filled = λ k lt z.
            Wrote-filled sb mem ip st src off n c ip' st' holds le bound wrote k (omega arith)
              (sym (saved-spots sb ip2 ip'.addrs st' sound k (omega arith)) ∙ z);
        plain = λ f. holds.plain (sym (ap Inode.type wrote.rest) ∙ f);
      },
      (
        λ i lt.
            saved-content sb ip2 ip'.addrs st' sound (off + i) (omega arith) ∙ wrote.written.0 i lt,
        λ o lt out. saved-content sb ip2 ip'.addrs st' sound o lt ∙ wrote.written.1 o lt out,
      ),
    )

end_write-Gives :
    (sb : Superblock) (mem : Memory) (ip : Inode) (st : Bytes) (src off n : ℕ)
    (o : Option (ℕ × Inode × Bytes))
    → Holds sb ip st
    → off ≤ ip.size
    → off + n ≤ 71680
    → WroteAll sb mem ip st src off n o
    → WriteiGives sb mem ip st src off n (end_write sb n mem o)
unfolding end_write
end_write-Gives sb mem ip st src off n none holds le bound full = full
end_write-Gives sb mem ip st src off n (some (end, ip', st')) holds le bound (at, wrote) =
    subst (λ e. WriteiGives sb mem ip st src off n (end_write sb n mem (some (e, ip', st'))))
      (sym at) (either (ltb 0 n && ltb ip'.size (off + n)) refl)
  where
    either :
        (b : Bool)
        → (ltb 0 n && ltb ip'.size (off + n)) ≡ b
        → WriteiGives sb mem ip st src off n (
            if b
            then some (
              n,
              record ip' { size = off + n },
              iupdate sb (record ip' { size = off + n }) st',
              mem,
            )
            else some (n, ip', st', mem))
    either true e =
        new_size-Gives sb mem ip st src off n (2 * rounds off n) ip' st' holds le bound e wrote
    either false e =
        kept_size-Gives sb mem ip st src off n (2 * rounds off n) ip' st' holds le bound e wrote

writei-loop :
    (devsw : Driver) (sb : Superblock) (src off n : ℕ) (ip : Inode) (st : Bytes) (mem : Memory)
    → ip.type ≢ t_dev
    → off ≤ ip.size
    → off + n ≤ 71680
    → writei devsw sb src off n ip st mem
      ≡ end_write sb n mem (write_loop sb n 0 n off src mem ip st)
unfolding writei
writei-loop devsw sb src off n ip st mem plain le small =
    let file : (ip.type == t_dev) ≡ false = ground arith in
    let within : (ltb ip.size off || ltb (u32 (off + n)) off) ≡ false = ground arith in
    let fits : ltb 71680 (u32 (off + n)) ≡ false = ground arith in
    rw file (rw within (rw fits refl))

-- For a file whose blocks are all there, at most 1536 bytes (what filewrite asks for in one transaction), an
-- offset up to the size and an end within the largest file: `writei` returns `n` and leaves such a file, in
-- which the `n` bytes of memory are at the offset, every other byte below MAXFILE * BSIZE reads as before,
-- and the size is the larger of the old one and the end (for `n` above 0); no other field of the inode but
-- `addrs` changes. Where the log has room for the blocks of the call, it panics only if fewer blocks are
-- free than twice the blocks it goes through.
pub writei_lem :
    (devsw : Driver) (sb : Superblock) (src off n : ℕ) (ip : Inode) (st : Bytes) (mem : Memory)
    → Holds sb ip st
    → n ≤ 1536
    → off ≤ ip.size
    → off + n ≤ 71680
    → WriteiGives sb mem ip st src off n (writei devsw sb src off n ip st mem)
writei_lem devsw sb src off n ip st mem holds few le bound =
    subst (WriteiGives sb mem ip st src off n)
      (sym (writei-loop devsw sb src off n ip st mem holds.plain le bound))
      (end_write-Gives sb mem ip st src off n (write_loop sb n 0 n off src mem ip st) holds le bound
        (subst (λ k. WroteAll sb mem ip st src off k (write_loop sb n 0 n off src mem ip st))
          (omega arith)
          (write_loop-WroteAll sb n 0 n off src mem ip st holds.sound (omega arith) (omega arith)
            (omega arith) (omega arith))))

-- With free blocks enough and room in the log for the blocks of the call, what `writei` has written `readi`
-- reads back, for at most 1536 bytes (what filewrite asks for in one transaction): both return the number of
-- bytes, and memory has at `dst` the bytes it had at `src`.
pub write_read :
    (devsw : Driver) (sb : Superblock) (src dst off n : ℕ) (ip : Inode) (st : Bytes) (mem : Memory)
    → Holds sb ip st
    → n ≤ 1536
    → off ≤ ip.size
    → off + n ≤ 71680
    → 2 * rounds off n ≤ free_blocks sb st
    → (ip' : Inode) × (st' : Bytes) × (mem' : Memory) × (writei devsw sb src off n ip st mem
        ≡ some (n, ip', st', mem))
      × (readi devsw sb dst off n ip' st' mem ≡ some (n, ip', st', mem'))
      × ((i : ℕ) → i < n → mem' (dst + i) ≡ mem (src + i))
write_read devsw sb src dst off n ip st mem holds few le bound enough =
    back (writei devsw sb src off n ip st mem) refl
      (writei_lem devsw sb src off n ip st mem holds few le bound)
  where
    back :
        (o : Option Result)
        → writei devsw sb src off n ip st mem ≡ o
        → WriteiGives sb mem ip st src off n o
        → (ip' : Inode) × (st' : Bytes) × (mem' : Memory) × (writei devsw sb src off n ip st mem
            ≡ some (n, ip', st', mem))
          × (readi devsw sb dst off n ip' st' mem ≡ some (n, ip', st', mem'))
          × ((i : ℕ) → i < n → mem' (dst + i) ≡ mem (src + i))
    back none ran full = absurd (omega arith)
    back (some (k, ip', st', mem1)) ran (all, same, rest, holds', written) =
        let size : ip'.size ≡ grown ip.size off n = ap Inode.size rest in
        let whole : readable ip'.size off n ≡ n = ground arith in
        let (mem', (read, (put, kept))) =
          readi_lem devsw sb dst off n ip' st' mem holds' (ground arith) (omega arith) in
        (
          ip',
          st',
          mem',
          ran ∙ ap₂ (λ a b. some (a, ip', st', b)) all same,
          read ∙ ap (λ a. some (a, ip', st', mem')) whole,
          λ i lt. put i (omega arith) ∙ written.0 i lt,
        )
