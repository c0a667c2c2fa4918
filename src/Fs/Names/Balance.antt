-- ===== src/Fs/Names/Balance.antt =====
-- `namex` of Xv6-Threads/src/fs.c gives back every reference that it takes on the way.
use mathlib.Core.Path.{subst}
use os_wsl.Prelude.{
  ℕ, zero, suc, ◌+◌, ◌<◌, ◌≡◌, refl, ap, ◌∙◌, Bool, true, false, not, ◌&&◌, Option, none, some,
  List, arith, length, get_elem?, ◌==◌, if◌then◌else◌,
}
use os_wsl.Fs.{Superblock, Bytes}
use os_wsl.Fs.Inode.{Inode, t_dir}
use os_wsl.Fs.Content.{Memory, Driver}
use os_wsl.Fs.Dir.{Search, with_place, gets_found, dir_search, dirlookup}
use os_wsl.Fs.Icache.{Slot, at, iget, idup, lock_at, iput}
use os_wsl.Fs.Icache.Counting.{
  refs, InUse, Twice, kept-Twice, Gotten, iget-Gotten, idup-Gotten, kept-refs, kept-InUse, Locked,
  lock_at-Locked, GivenBack, iput-GivenBack, StillInUse, iput-StillInUse,
}
use os_wsl.Fs.Names.{
  World, Resolved, answers, put_back, goes_on, descend, looked, look, is_empty, inspect,
  locked_round, namex_loop, starts_slash, skipelem, namex,
}

-- With `n` references before: one that is found is among them; if there is none, one has been given back.
abbrev Balanced : ℕ → Resolved → Type 0
Balanced n none = Unit
Balanced n (some (none, w)) = refs w.table + 1 ≡ n
Balanced n (some (some j, w)) = (refs w.table ≡ n) × InUse w.table j

put_back-Balanced :
    (sb : Superblock) (i : ℕ) (w : World)
    → InUse w.table i
    → refs w.table < 4294967296
    → Balanced (refs w.table) (put_back sb i none w)
unfolding put_back
put_back-Balanced sb i w busy small =
    answer (iput sb i w.table w.disk) (iput-GivenBack sb i w.table w.disk busy small)
  where
    answer :
        (o : Option (List Slot × Bytes))
        → GivenBack w.table o
        → Balanced (refs w.table) (answers none w o)
    answer none g = tt
    answer (some (t, st)) g = g

-- What the rest of the loop does from any state with `n` references.
abbrev Goes : ℕ → (ℕ → World → Resolved) → Type 0
Goes n on = (j : ℕ) (w : World) → InUse w.table j → refs w.table ≡ n → Balanced n (on j w)

descend-Balanced :
    (sb : Superblock) (i n : ℕ) (on : ℕ → World → Resolved) (w : World)
    → InUse w.table i
    → refs w.table ≡ n
    → n + 1 < 4294967296
    → Balanced n (descend sb i on w none)
unfolding put_back
descend-Balanced sb i n on w busy at_n small =
    subst (λ k. Balanced k (put_back sb i none w)) at_n
      (put_back-Balanced sb i w busy (omega arith))

-- The same with an inode that has been found, for which there is one reference more.
descend_found-Balanced :
    (sb : Superblock) (i j off n : ℕ) (on : ℕ → World → Resolved) (w : World)
    → InUse w.table i
    → InUse w.table j
    → (i ≡ j → Twice w.table j)
    → refs w.table ≡ n + 1
    → n + 1 < 4294967296
    → Goes n on
    → Balanced n (descend sb i on w (some (j, off)))
unfolding put_back
descend_found-Balanced sb i j off n on w busy found twice more small goes =
    puts (iput sb i w.table w.disk) (iput-GivenBack sb i w.table w.disk busy (omega arith))
      (iput-StillInUse sb i j w.table w.disk (omega arith) found twice)
  where
    puts :
        (o : Option (List Slot × Bytes))
        → GivenBack w.table o
        → StillInUse j o
        → Balanced n (goes_on j on (answers (some j) w o))
    puts none g u = tt
    puts (some (t', st')) g u = goes j (record w { table = t'; disk = st' }) u (omega arith)

module _ (devsw : Driver) (sb : Superblock) (name de : ℕ) (parent : Bool) (i n : ℕ) (rest : List ℕ)
    (on : ℕ → World → Resolved) (small : n + 1 < 4294967296) (goes : Goes n on) where
  looked-Balanced :
      (t : List Slot) (o : Option Search)
      → InUse t i
      → refs t ≡ n
      → Balanced n (looked sb i on (gets_found t o))
  looked-Balanced t none busy at_n = tt
  looked-Balanced t (some (none, ino', st, mem)) busy at_n =
      let copied = λ (s : Slot). record s { ino = ino' } in
      descend-Balanced sb i n on (record { table = at copied i t; disk = st; memory = mem })
        (kept-InUse copied i i t (λ s. refl) busy) (kept-refs copied i t (λ s. refl) ∙ at_n) small
  looked-Balanced t (some (some (inum, off), ino', st, mem)) busy at_n =
      gotten (iget ino'.dev inum t) (iget-Gotten ino'.dev inum t (omega arith))
    where
      copied : Slot → Slot
      copied s = record s { ino = ino' }

      gotten :
          (o : Option (ℕ × List Slot))
          → Gotten t o
          → Balanced n (looked sb i on (with_place off ino' st mem o))
      gotten none g = tt
      gotten (some (j, t')) (more, got_j, kept, twice) =
          descend_found-Balanced sb i j off n on
            (record { table = at copied i t'; disk = st; memory = mem })
            (kept-InUse copied i i t' (λ s. refl) (kept i busy))
            (kept-InUse copied i j t' (λ s. refl) got_j)
            (λ e. kept-Twice copied i j t' (λ s. refl) (twice (subst (InUse t) e busy)))
            (kept-refs copied i t' (λ s. refl) ∙ more ∙ ap (λ (k : ℕ). k + 1) at_n) small goes

  look-Balanced :
      (w : World) (ino : Inode)
      → InUse w.table i
      → refs w.table ≡ n
      → Balanced n (look devsw sb name de i on w ino)
  unfolding dirlookup
  look-Balanced w ino busy at_n =
      looked-Balanced w.table (dir_search devsw sb name de ino w.disk w.memory) busy at_n

  inspect-Balanced :
      (w : World) (o : Option Slot)
      → InUse w.table i
      → refs w.table ≡ n
      → Balanced n (inspect devsw sb name de parent i rest on w o)
  inspect-Balanced w none busy at_n = tt
  inspect-Balanced w (some s) busy at_n = either (s.ino.type == t_dir) (parent && is_empty rest)
    where
      either :
          (b c : Bool)
          → Balanced n (
              if not b
              then put_back sb i none w
              else (if c then some (some i, w) else look devsw sb name de i on w s.ino))
      either false c =
          subst (λ k. Balanced k (put_back sb i none w)) at_n
            (put_back-Balanced sb i w busy (omega arith))
      either true true = (at_n, busy)
      either true false = look-Balanced w s.ino busy at_n

  locked_round-Balanced :
      (w : World) (o : Option (List Slot))
      → InUse w.table i
      → refs w.table ≡ n
      → Locked w.table o
      → Balanced n (locked_round devsw sb name de parent i rest on w o)
  locked_round-Balanced w none busy at_n l = tt
  locked_round-Balanced w (some t) busy at_n (same, kept) =
      inspect-Balanced (record w { table = t }) (get_elem? t i) (kept i busy) (same ∙ at_n)

namex_loop-Balanced :
    (devsw : Driver) (sb : Superblock) (name de : ℕ) (parent : Bool) (n fuel : ℕ) (path : List ℕ)
    → n + 1 < 4294967296
    → Goes n (namex_loop devsw sb name de parent fuel path)
unfolding namex_loop
namex_loop-Balanced devsw sb name de parent n zero path small i w busy at_n = tt
namex_loop-Balanced devsw sb name de parent n (suc fuel) path small i w busy at_n =
    next (skipelem name path w.memory)
      (λ rest. namex_loop-Balanced devsw sb name de parent n fuel rest small)
  where
    at_end : (b : Bool) → Balanced n (if b then put_back sb i none w else some (some i, w))
    at_end true =
        subst (λ k. Balanced k (put_back sb i none w)) at_n
          (put_back-Balanced sb i w busy (omega arith))
    at_end false = (at_n, busy)

    next :
        (o : Option (List ℕ × Memory))
        → ((rest : List ℕ) → Goes n (namex_loop devsw sb name de parent fuel rest))
        → Balanced n (elim o [
          | none ↦ if parent then put_back sb i none w else some (some i, w)
          | some (rest, mem) ↦
              locked_round devsw sb name de parent i rest
                (namex_loop devsw sb name de parent fuel rest)
                (record w { memory = mem })
                (lock_at sb i w.table w.disk)
        ])
    next none later = at_end parent
    next (some (rest, mem)) later =
        locked_round-Balanced devsw sb name de parent i n rest
          (namex_loop devsw sb name de parent fuel rest) small (later rest)
          (record w { memory = mem }) (lock_at sb i w.table w.disk) busy at_n
          (lock_at-Locked sb i w.table w.disk)

-- What a call of `namex` does to the references of the inode cache.
abbrev pub OneTaken : ℕ → Resolved → Type 0
OneTaken n none = Unit
OneTaken n (some (none, w)) = refs w.table ≡ n
OneTaken n (some (some j, w)) = (refs w.table ≡ n + 1) × InUse w.table j

-- Whatever the path and the disk: if `namex` returns an inode, the inode cache counts one reference more than before and that
-- inode is in use; if it returns 0, it counts as many as before. (The process holds a reference to its current directory,
-- and the counts stay below 2 ^ 32.)
pub namex-OneTaken :
    (devsw : Driver) (sb : Superblock) (name de : ℕ) (parent : Bool) (path : List ℕ) (cwd : ℕ)
    (w : World)
    → InUse w.table cwd
    → refs w.table + 2 < 4294967296
    → OneTaken (refs w.table) (namex devsw sb name de parent path cwd w)
unfolding namex
namex-OneTaken devsw sb name de parent path cwd w busy small = start (starts_slash path)
  where
    fewer : (o : Resolved) → Balanced (refs w.table + 1) o → OneTaken (refs w.table) o
    fewer none b = tt
    fewer (some (none, w')) b = omega arith
    fewer (some (some j, w')) b = b

    from :
        (j : ℕ) (t : List Slot)
        → Gotten w.table (some (j, t))
        → OneTaken
            (refs w.table)
            (namex_loop devsw sb name de parent (length path + 1) path j (record w { table = t }))
    from j t (more, got_j, kept, twice) =
        fewer (namex_loop devsw sb name de parent (length path + 1) path j (record w { table = t }))
          (namex_loop-Balanced devsw sb name de parent (refs w.table + 1) (length path + 1) path
            (omega arith) j (record w { table = t }) got_j more)

    root :
        (o : Option (ℕ × List Slot))
        → Gotten w.table o
        → OneTaken (refs w.table) (elim o [
          | none ↦ none
          | some (i, t) ↦
              namex_loop devsw sb name de parent (length path + 1) path i (record w { table = t })
        ])
    root none g = tt
    root (some (j, t)) g = from j t g

    start :
        (b : Bool)
        → OneTaken (refs w.table) (
            if b
            then elim (iget 1 1 w.table) [
              | none ↦ none
              | some (i, t) ↦
                  namex_loop devsw sb name de parent
                    (length path + 1)
                    path
                    i
                    (record w { table = t })
            ]
            else (namex_loop devsw sb name de parent
                (length path + 1)
                path
                cwd
                (record w { table = idup cwd w.table })))
    start true = root (iget 1 1 w.table) (iget-Gotten 1 1 w.table (omega arith))
    start false = from cwd (idup cwd w.table) (idup-Gotten cwd w.table busy (omega arith))
