-- ===== src/Fs/Inode/OnDisk.antt =====
-- An inode on the disk: `iupdate` and `ilock` of Xv6-Threads/src/fs.c.
use mathlib.Core.Path.{subst}
use os_wsl.Prelude.{
  ℕ, zero, suc, ◌+◌, ◌*◌, ◌/◌, ◌%◌, ◌≤◌, ◌<◌, ◌≡◌, ◌≢◌, ◌⊎◌, refl, sym, ap, ◌∙◌, inl, inr, true,
  false, Option, none, some, arith, ltb, lt→ltb, ◌==◌, if◌then◌else◌,
}
use os_wsl.Fs.{Superblock, Bytes}
use os_wsl.Fs.Inode.{
  Inode, get_word, put_word, get_half, put_half, iblock, put_addrs, iupdate, ilock,
}
use os_wsl.Fs.Inode.Layout.{put_word-ne, get_word-put_self, get_word-same}

put_addrs-ne :
    (n b w i : ℕ) (addrs : ℕ → ℕ) (c j : ℕ) (st : Bytes)
    → (c ≢ b) ⊎ ((j / 4 < w) ⊎ (w + n ≤ j / 4))
    → put_addrs n b w i addrs st c j ≡ st c j
unfolding put_addrs
put_addrs-ne zero b w i addrs c j st h = refl
put_addrs-ne (suc n) b w i addrs c j st h =
    put_addrs-ne n b (w + 1) (i + 1) addrs c j (put_word b w (addrs i) st) (ground arith)
    ∙ put_word-ne b w (addrs i) c j st (ground arith)

abbrev halves : ℕ → ℕ → Inode → Bytes → Bytes
halves b at ip st =
    put_half b (at + 6) ip.nlink
      (put_half b (at + 4) ip.minor (put_half b (at + 2) ip.major (put_half b at ip.type st)))

-- The bytes of an inode's block, from the one that stands for the inode on.
abbrev sized : ℕ → ℕ → ℕ → Inode → Bytes → Bytes
sized b at w ip st = put_word b (w + 2) ip.size (halves b at ip st)

-- `iupdate` changes the block of the inode and no other.
pub iupdate-ne :
    (sb : Superblock) (ip : Inode) (st : Bytes) (c j : ℕ)
    → c ≢ iblock sb ip.inum
    → iupdate sb ip st c j ≡ st c j
unfolding iupdate
iupdate-ne sb ip st c j ne =
    let b = iblock sb ip.inum in
    let at = ip.inum % 8 * 64 in
    let w = ip.inum % 8 * 16 in
    put_addrs-ne 13 b (w + 3) 0 ip.addrs c j (sized b at w ip st) (inl ne)
    ∙ put_word-ne b (w + 2) ip.size c j (halves b at ip st) (ground arith)
    ∙ halves-ne b at ip st c j ne
  where
    halves-ne :
        (b at : ℕ) (ip : Inode) (st : Bytes) (c j : ℕ) → c ≢ b → halves b at ip st c j ≡ st c j
    halves-ne b at ip st c j ne = let apart : (c == b) ≡ false = ground arith in rw apart refl

put_addrs-read :
    (n b w i k m : ℕ) (addrs : ℕ → ℕ) (st : Bytes)
    → m ≡ i + k
    → k < n
    → addrs m < 4294967296
    → get_word (put_addrs n b w i addrs st) b (w + k) ≡ addrs m
unfolding put_addrs
put_addrs-read zero b w i k m addrs st at lt small = absurd (omega arith)
put_addrs-read (suc n) b w i zero m addrs st at lt small =
    let same : addrs i ≡ addrs m = ap addrs (omega arith) in
    ap (get_word (put_addrs (suc n) b w i addrs st) b) (omega arith)
    ∙ get_word-same (put_addrs n b (w + 1) (i + 1) addrs (put_word b w (addrs i) st))
        (put_word b w (addrs i) st) b w
        (λ j e.
          put_addrs-ne n b (w + 1) (i + 1) addrs b j (put_word b w (addrs i) st) (ground arith))
    ∙ get_word-put_self b w (addrs i) st (omega arith)
    ∙ same
put_addrs-read (suc n) b w i (suc k) m addrs st at lt small =
    ap (get_word (put_addrs n b (w + 1) (i + 1) addrs (put_word b w (addrs i) st)) b) (omega arith)
    ∙ put_addrs-read n b (w + 1) (i + 1) k m addrs (put_word b w (addrs i) st) (omega arith)
        (omega arith) small

halves-read :
    (b at : ℕ) (ip : Inode) (st : Bytes)
    → ip.type < 65536
    → ip.major < 65536
    → ip.minor < 65536
    → ip.nlink < 65536
    → (get_half (halves b at ip st) b at ≡ ip.type)
      × (get_half (halves b at ip st) b (at + 2) ≡ ip.major)
      × (get_half (halves b at ip st) b (at + 4) ≡ ip.minor)
      × (get_half (halves b at ip st) b (at + 6) ≡ ip.nlink)
halves-read b at ip st t ma mi nl = (ground arith, ground arith, ground arith, ground arith)

half-same :
    (st st' : Bytes) (b at : ℕ)
    → st b at ≡ st' b at
    → st b (at + 1) ≡ st' b (at + 1)
    → get_half st b at ≡ get_half st' b at
half-same st st' b at e f = omega arith

-- What the words behind the halves hold does not show in the halves.
over :
    (b at w j : ℕ) (ip : Inode) (st : Bytes)
    → j / 4 < w + 2
    → put_addrs 13 b (w + 3) 0 ip.addrs (sized b at w ip st) b j ≡ halves b at ip st b j
over b at w j ip st h =
    put_addrs-ne 13 b (w + 3) 0 ip.addrs b j (sized b at w ip st) (inr (inl (omega arith)))
    ∙ put_word-ne b (w + 2) ip.size b j (halves b at ip st) (ground arith)

half-over :
    (b at w k : ℕ) (ip : Inode) (st : Bytes)
    → (k + 1) / 4 < w + 2
    → get_half (put_addrs 13 b (w + 3) 0 ip.addrs (sized b at w ip st)) b k
      ≡ get_half (halves b at ip st) b k
half-over b at w k ip st h =
    half-same (put_addrs 13 b (w + 3) 0 ip.addrs (sized b at w ip st)) (halves b at ip st) b k
      (over b at w k ip st (omega arith)) (over b at w (k + 1) ip st h)

size-read :
    (b at w : ℕ) (ip : Inode) (st : Bytes)
    → ip.size < 4294967296
    → get_word (put_addrs 13 b (w + 3) 0 ip.addrs (sized b at w ip st)) b (w + 2) ≡ ip.size
size-read b at w ip st small =
    get_word-same (put_addrs 13 b (w + 3) 0 ip.addrs (sized b at w ip st)) (sized b at w ip st) b
      (w + 2)
      (λ j e.
        put_addrs-ne 13 b (w + 3) 0 ip.addrs b j (sized b at w ip st) (inr (inl (omega arith))))
    ∙ get_word-put_self b (w + 2) ip.size (halves b at ip st) small

-- The fields of an inode fit their types on the disk.
pub record Fits (ip : Inode) : Type 0 where
  pub type : ip.type < 65536
  pub major : ip.major < 65536
  pub minor : ip.minor < 65536
  pub nlink : ip.nlink < 65536
  pub size : ip.size < 4294967296
  pub addrs : (i : ℕ) → i < 13 → ip.addrs i < 4294967296

-- Two inodes agree on the fields that the disk keeps.
pub record SameInode (p q : Inode) : Type 0 where
  pub type : p.type ≡ q.type
  pub major : p.major ≡ q.major
  pub minor : p.minor ≡ q.minor
  pub nlink : p.nlink ≡ q.nlink
  pub size : p.size ≡ q.size
  pub addrs : (i : ℕ) → i < 13 → p.addrs i ≡ q.addrs i

-- `ilock` gives a valid copy.
abbrev pub Copies : Inode → Option Inode → Type 0
Copies ip none = ⊥
Copies ip (some q) = (q.valid ≡ true) × SameInode q ip

-- What `ilock` reads in the block `b` with the inode at byte `at`, word `w`.
abbrev copy : ℕ → ℕ → ℕ → Inode → Bytes → Inode
copy b at w q st = record q {
  valid = true;
  type = get_half st b at;
  major = get_half st b (at + 2);
  minor = get_half st b (at + 4);
  nlink = get_half st b (at + 6);
  size = get_word st b (w + 2);
  addrs = λ i. if ltb i 13 then get_word st b (w + 3 + i) else q.addrs i;
}

copy-addrs :
    (b at w : ℕ) (q : Inode) (st : Bytes) (i : ℕ)
    → i < 13
    → (copy b at w q st).addrs i ≡ get_word st b (w + 3 + i)
copy-addrs b at w q st i h = rw (lt→ltb i 13 h) refl

copy-Same :
    (b at w : ℕ) (ip q : Inode) (st : Bytes)
    → at ≡ 4 * w
    → Fits ip
    → SameInode (copy b at w q (put_addrs 13 b (w + 3) 0 ip.addrs (sized b at w ip st))) ip
copy-Same b at w ip q st e fits =
    let (t, ma, mi, nl) = halves-read b at ip st fits.type fits.major fits.minor fits.nlink in
    let st' = put_addrs 13 b (w + 3) 0 ip.addrs (sized b at w ip st) in
    record {
      type = half-over b at w at ip st (omega arith) ∙ t;
      major = half-over b at w (at + 2) ip st (omega arith) ∙ ma;
      minor = half-over b at w (at + 4) ip st (omega arith) ∙ mi;
      nlink = half-over b at w (at + 6) ip st (omega arith) ∙ nl;
      size = size-read b at w ip st fits.size;
      addrs = λ i h.
          copy-addrs b at w q st' i h
          ∙ put_addrs-read 13 b (w + 3) 0 i i ip.addrs (sized b at w ip st) (omega arith) h
              (fits.addrs i h);
    }

locked-Copies :
    (ip r : Inode)
    → 0 < ip.type
    → r.valid ≡ true
    → SameInode r ip
    → Copies ip (if r.type == 0 then none else some r)
locked-Copies ip r pos valid same =
    let typed : (r.type == 0) ≡ false = ground (arith, same.type) in rw typed (valid, same)

ilock-copy :
    (sb : Superblock) (q : Inode) (st : Bytes) (r : Inode)
    → q.valid ≡ false
    → r ≡ copy (iblock sb q.inum) (q.inum % 8 * 64) (q.inum % 8 * 16) q st
    → ilock sb q st ≡ (if r.type == 0 then none else some r)
unfolding ilock
ilock-copy sb q st r h e = rw h (rw e refl)

-- For an inode whose fields fit their types on the disk and whose type is not 0: after `iupdate`,
-- `ilock` of a cache entry with its number that is not valid yet does not panic, and gives a valid
-- copy with the same fields.
pub ilock-iupdate :
    (sb : Superblock) (ip q : Inode) (st : Bytes)
    → Fits ip
    → 0 < ip.type
    → q.inum ≡ ip.inum
    → q.valid ≡ false
    → Copies ip (ilock sb q (iupdate sb ip st))
unfolding iupdate
ilock-iupdate sb ip q st fits pos num fresh =
    let b = iblock sb ip.inum in
    let w = ip.inum % 8 * 16 in
    let at = ip.inum % 8 * 64 in
    let st' = put_addrs 13 b (w + 3) 0 ip.addrs (sized b at w ip st) in
    let r = copy b at w q st' in
    let reads : r ≡ copy (iblock sb q.inum) (q.inum % 8 * 64) (q.inum % 8 * 16) q st' =
      ap (λ n. copy (iblock sb n) (n % 8 * 64) (n % 8 * 16) q st') (sym num) in
    subst (Copies ip) (sym (ilock-copy sb q st' r fresh reads))
      (locked-Copies ip r pos refl (copy-Same b at w ip q st (omega arith) fits))
