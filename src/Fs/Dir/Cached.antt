-- ===== src/Fs/Dir/Cached.antt =====
-- `dirlookup` and `dirlink` of Xv6-Threads/src/fs.c with the inode cache.
use os_wsl.Prelude.{
  ℕ, ◌+◌, ◌*◌, ◌/◌, ◌<◌, ◌≤◌, ◌≡◌, ◌≢◌, ◌⊎◌, refl, sym, ◌∙◌, Option, none, some, List, arith,
  minus_one,
}
use mathlib.Core.Path.{subst}
use os_wsl.String.Comparing.{text}
use os_wsl.Fs.{Superblock, Bytes}
use os_wsl.Fs.Free.{free_blocks}
use os_wsl.Fs.Inode.{Inode, t_dir}
use os_wsl.Fs.Inode.Spots.{content}
use os_wsl.Fs.Content.{Memory, Driver, Result}
use os_wsl.Fs.Content.Reading.{Holds}
use os_wsl.Fs.Icache.{Slot, counted_down, at, iget, iput}
use os_wsl.Fs.Icache.Counting.{refs, Gotten, iget-Gotten, GivenBack, iput-GivenBack}
use os_wsl.Fs.Icache.Full.{Full, iget-Full, iput-got}
use os_wsl.Fs.Dir.{
  Found, Search, Looked, with_place, gets_found, dir_search, dirlookup, Linked, with_table, refuses,
  empty_loop, link_at, link_unless, dirlink,
}
use os_wsl.Fs.Dir.Entries.{find}
use os_wsl.Fs.Dir.Lookup.{AreBytes, Outside, LooksUp, name-kept, dir_search_lem}
use os_wsl.Fs.Dir.FreeEntry.{empty_loop-EmptyAt}
use os_wsl.Fs.Dir.Link.{LinkGives, link_at-Gives}

-- What `dirlookup` gives by what stands in the directory: the inode of the number that is there, as iget
-- gives it, with the offset; or nothing. It panics only if the cache is full.
abbrev pub Gets : Inode → List Slot → Bytes → ℕ → Memory → Found → Option Looked → Type 0
Gets ip t st de mem none none = ⊥
Gets ip t st de mem (some (inum, off)) none = Full t
Gets ip t st de mem none (some (f, ip', t', st', mem')) =
    (f ≡ none) × (t' ≡ t) × (ip' ≡ ip) × (st' ≡ st) × Outside de mem mem' × AreBytes mem'
Gets ip t st de mem (some (inum, off)) (some (f, ip', t', st', mem')) =
    ((i : ℕ) × ((f ≡ some (i, off)) × (iget ip.dev inum t ≡ some (i, t'))))
    × (ip' ≡ ip)
    × (st' ≡ st)
    × Outside de mem mem'
    × AreBytes mem'

with_place-Gets :
    (ip : Inode) (t : List Slot) (st : Bytes) (de : ℕ) (mem mem' : Memory) (inum off : ℕ)
    (o : Option (ℕ × List Slot))
    → iget ip.dev inum t ≡ o
    → Outside de mem mem'
    → AreBytes mem'
    → Gets ip t st de mem (some (inum, off)) (with_place off ip st mem' o)
with_place-Gets ip t st de mem mem' inum off none e out b = iget-Full ip.dev inum t e
with_place-Gets ip t st de mem mem' inum off (some (i, t')) e out b =
    ((i, (refl, e)), refl, refl, out, b)

gets_found-Gets :
    (ip : Inode) (t : List Slot) (st : Bytes) (de : ℕ) (mem : Memory) (found : Found)
    (o : Option Search)
    → LooksUp ip st de mem found o
    → Gets ip t st de mem found (gets_found t o)
gets_found-Gets ip t st de mem found none h = absurd h
gets_found-Gets ip t st de mem none (some (none, ip', st', mem')) (e, same_ip, same_st, out, b) =
    (refl, refl, same_ip, same_st, out, b)
gets_found-Gets ip t st de mem (some f) (some (none, ip', st', mem'))
      (e, same_ip, same_st, out, b) =
    absurd (not_some e)
  where
    not_some : ¬ (none ≡ some f)
    not_some h = cc
gets_found-Gets ip t st de mem none (some (some (inum, off), ip', st', mem'))
      (e, same_ip, same_st, out, b) =
    absurd (not_none (inum, off) e)
  where
    not_none : (g : ℕ × ℕ) → ¬ (some g ≡ none)
    not_none g h = cc
gets_found-Gets ip t st de mem (some f) (some (some g, ip', st', mem'))
      (e, same_ip, same_st, out, b) =
    let same : g ≡ f = cc in
    subst (λ p. Gets ip t st de mem (some f) (gets_found t (some (some g, p, st', mem'))))
      (sym same_ip)
      (subst (λ s. Gets ip t st de mem (some f) (gets_found t (some (some g, ip, s, mem'))))
        (sym same_st)
        (subst (λ h. Gets ip t st de mem (some f) (gets_found t (some (some h, ip, st, mem'))))
          (sym same) (with_place-Gets ip t st de mem mem' f.0 f.1 (iget ip.dev f.0 t) refl out b)))

-- In a directory whose blocks are all there, whose size is a whole number of entries and whose bytes, like
-- those of memory, are below 256, `dirlookup` finds the first entry in use with the name at `name`, where
-- names are compared up to their end or 14 bytes: it returns what iget gives for its number, and its
-- offset; or it returns 0 and leaves the inode cache. It panics only if the name is there and every entry
-- of the inode cache is in use; it changes neither the directory nor the disk, and of memory only its own
-- `de`, which must be apart from the name and holds bytes again.
pub dirlookup_lem :
    (devsw : Driver) (sb : Superblock) (name de n : ℕ) (ip : Inode) (t : List Slot) (st : Bytes)
    (mem : Memory)
    → Holds sb ip st
    → ip.type ≡ t_dir
    → ip.size ≡ 16 * n
    → AreBytes (content ip.addrs st)
    → AreBytes mem
    → (name + 14 ≤ de) ⊎ (de + 16 ≤ name)
    → Gets ip t st de mem
        (find (content ip.addrs st) (text name 14 mem) n 0)
        (dirlookup devsw sb name de ip t st mem)
unfolding dirlookup
dirlookup_lem devsw sb name de n ip t st mem holds dir whole bf bm apart =
    gets_found-Gets ip t st de mem (find (content ip.addrs st) (text name 14 mem) n 0)
      (dir_search devsw sb name de ip st mem)
      (dir_search_lem devsw sb name de n ip st mem holds dir whole bf bm apart)

-- What `dirlink` gives by what stands in the directory under the name.
abbrev pub Links :
    Superblock → Inode → List Slot → Bytes → List ℕ → ℕ → ℕ → Found → Option Linked → Type 0
Links sb ip t st nm n inum (some f) none = Full t
Links sb ip t st nm n inum (some f) (some (k, ip', t', st', mem')) =
    (k ≡ minus_one) × (ip' ≡ ip) × (st' ≡ st) × (refs t' ≡ refs t)
Links sb ip t st nm n inum none none = free_blocks sb st < 2
Links sb ip t st nm n inum none (some (k, ip', t', st', mem')) =
    (t' ≡ t) × LinkGives sb ip st nm n inum (some (k, ip', st', mem'))

with_table-Links :
    (sb : Superblock) (ip : Inode) (t : List Slot) (st : Bytes) (nm : List ℕ) (n inum : ℕ)
    (o : Option Result)
    → LinkGives sb ip st nm n inum o
    → Links sb ip t st nm n inum none (with_table t o)
with_table-Links sb ip t st nm n inum none h = h
with_table-Links sb ip t st nm n inum (some (k, ip', st', mem')) h = (refl, h)

-- The inode that was found is given back: `iput` finds the reference of `iget` above another, or an entry
-- that has not been read.
refuses-Links :
    (sb : Superblock) (ip ip' : Inode) (t t' : List Slot) (st : Bytes) (mem : Memory) (nm : List ℕ)
    (n inum i : ℕ) (f : ℕ × ℕ)
    → refs t + 1 < 4294967296
    → ip' ≡ ip
    → iget ip.dev f.0 t ≡ some (i, t')
    → Links sb ip t st nm n inum (some f) (refuses ip' mem (iput sb i t' st))
refuses-Links sb ip ip' t t' st mem nm n inum i f small same got =
    let (more, busy, kept, twice) = subst (Gotten t) got (iget-Gotten ip.dev f.0 t small) in
    let put = iput-got sb ip.dev f.0 i t t' st small got in
    let back : refs (at counted_down i t') + 1 ≡ refs t' =
      subst (GivenBack t') put (iput-GivenBack sb i t' st busy (omega arith)) in
    subst (λ o. Links sb ip t st nm n inum (some f) (refuses ip' mem o)) (sym put)
      (refl, same, refl, omega (arith, back, more))

module _ (devsw : Driver) (sb : Superblock) (name de inum n : ℕ) (ip : Inode) (st : Bytes)
    (holds : Holds sb ip st) (bytes : AreBytes (content ip.addrs st))
    (apart : (name + 14 ≤ de) ⊎ (de + 16 ≤ name)) (nz : inum ≢ 0) (low : inum < 65536)
    (whole : ip.size ≡ 16 * n) (fits : 16 * n + 16 ≤ 71680) where
  link_unless-Links :
      (t : List Slot) (mem : Memory) (nm : List ℕ) (found : Found) (o : Option Looked)
      → refs t + 1 < 4294967296
      → text name 14 mem ≡ nm
      → find (content ip.addrs st) nm n 0 ≡ found
      → Gets ip t st de mem found o
      → Links sb ip t st nm n inum found (link_unless devsw sb name de inum o)
  link_unless-Links t mem nm none none small same e h = absurd h
  link_unless-Links t mem nm (some f) none small same e h = h
  link_unless-Links t mem nm none (some (some g, ip', t', st', mem')) small same e
        (at_none, same_t, same_ip, same_st, out, b) =
      absurd (not_none at_none)
    where
      not_none : ¬ (some g ≡ none)
      not_none h = cc
  link_unless-Links t mem nm (some f) (some (none, ip', t', st', mem')) small same e
        ((i, (at_some, got)), same_ip, same_st, out, b) =
      absurd (not_some (i, f.1) at_some)
    where
      not_some : (g : ℕ × ℕ) → ¬ (none ≡ some g)
      not_some g h = cc
  link_unless-Links t mem nm (some f) (some (some g, ip', t', st', mem')) small same e
        ((i, (at_some, got)), same_ip, same_st, out, b) =
      let place : i ≡ g.0 = cc in
      subst (λ s. Links sb ip t st nm n inum (some f) (refuses ip' mem' (iput sb g.0 t' s)))
        (sym same_st)
        (subst (λ j. Links sb ip t st nm n inum (some f) (refuses ip' mem' (iput sb j t' st))) place
          (refuses-Links sb ip ip' t t' st mem' nm n inum i f small same_ip got))
  link_unless-Links t mem nm none (some (none, ip', t', st', mem')) small same e
        (at_none, same_t, same_ip, same_st, out, b) =
      let ends = λ (p : Inode) (s : Bytes).
        link_at devsw sb name de inum (empty_loop devsw sb (p.size / 16 + 1) 0 de p s mem') in
      let plain : Links sb ip t st nm n inum none (with_table t (ends ip st)) =
        with_table-Links sb ip t st nm n inum (ends ip st) (
          link_at-Gives devsw sb name de inum n ip st holds bytes apart nz low whole fits mem' nm
            (empty_loop devsw sb (ip.size / 16 + 1) 0 de ip st mem')
            (name-kept de name mem mem' apart out ∙ same) e
            (empty_loop-EmptyAt devsw sb name de ip st holds bytes apart (ip.size / 16 + 1) n 0 mem'
              (omega arith) (omega arith) b)) in
      subst (λ u. Links sb ip t st nm n inum none (with_table u (ends ip' st'))) (sym same_t)
        (subst (λ p. Links sb ip t st nm n inum none (with_table t (ends p st'))) (sym same_ip)
          (subst (λ s. Links sb ip t st nm n inum none (with_table t (ends ip s))) (sym same_st)
            plain))

-- In a directory of `n` entries whose blocks are all there, with room for one more in the largest file, and
-- with bytes below 256 in it and in memory, for an inode number from 1 to 65535: if a search finds the
-- name, `dirlink` returns -1, changes neither inode nor disk and gives the reference that it took back, or
-- it panics because every entry of the inode cache is in use; otherwise it returns 0, the inode cache is as
-- before, and in the directory that it leaves, whose blocks are all there again, a search for the name finds
-- the number, and a search for any other name what it found before, or, where the log has room, it panics
-- because fewer than two blocks are free. (The cache has fewer than 2 ^ 32 - 1 references. The name does not
-- stand for the directory itself, whose lock the caller holds: there iput would wait for that lock.)
pub dirlink_lem :
    (devsw : Driver) (sb : Superblock) (name de inum n : ℕ) (ip : Inode) (t : List Slot)
    (st : Bytes) (mem : Memory)
    → Holds sb ip st
    → ip.type ≡ t_dir
    → ip.size ≡ 16 * n
    → 16 * n + 16 ≤ 71680
    → AreBytes (content ip.addrs st)
    → AreBytes mem
    → (name + 14 ≤ de) ⊎ (de + 16 ≤ name)
    → inum ≢ 0
    → inum < 65536
    → refs t + 1 < 4294967296
    → ((off : ℕ) → find (content ip.addrs st) (text name 14 mem) n 0 ≢ some (ip.inum, off))
    → Links sb ip t st
        (text name 14 mem)
        n
        inum
        (find (content ip.addrs st) (text name 14 mem) n 0)
        (dirlink devsw sb name de inum ip t st mem)
unfolding dirlink
dirlink_lem devsw sb name de inum n ip t st mem holds dir whole fits bf bm apart nz low small
      other =
    link_unless-Links devsw sb name de inum n ip st holds bf apart nz low whole fits t mem
      (text name 14 mem) (find (content ip.addrs st) (text name 14 mem) n 0)
      (dirlookup devsw sb name de ip t st mem) small refl refl
      (dirlookup_lem devsw sb name de n ip t st mem holds dir whole bf bm apart)
