-- ===== src/Fs/Names.antt =====
-- The path names of Xv6-Threads/src/fs.c. A path is the list of its bytes before the NUL; the name that
-- skipelem copies is in memory, at the address `name`.
pub mod Elements
pub mod Fuel
pub mod Balance
mod Tests
use os_wsl.Prelude.{
  ℕ, zero, suc, ◌+◌, ◌-◌, Bool, true, false, not, ◌&&◌, ◌||◌, Option, none, some, List, [], ◌∷◌,
  ltb, leb, ◌==◌, if◌then◌else◌, get_elem?, get_or, length, min,
}
use os_wsl.Fs.{dirsiz, Superblock, Bytes}
use os_wsl.Fs.Inode.{Inode, t_dir}
use os_wsl.Fs.Content.{Memory, Driver}
use os_wsl.Fs.Dir.{Looked, dirlookup}
use os_wsl.Fs.Icache.{Slot, at, iget, idup, lock_at, iput}

abbrev pub slash : ℕ
slash = 47

-- The loops of `skipelem` over slashes.
abbrev pub skip_slashes : List ℕ → List ℕ
skip_slashes [] = []
skip_slashes (c ∷ cs) = let rest = skip_slashes cs in if c == slash then rest else c ∷ cs

-- The loop of `skipelem` over an element: the element, and what is behind it.
abbrev pub element : List ℕ → List ℕ × List ℕ
element [] = ([], [])
element (c ∷ cs) = let (e, rest) = element cs in if c == slash then ([], c ∷ cs) else (c ∷ e, rest)

abbrev pub take_element : List ℕ → Option (List ℕ × List ℕ)
take_element [] = none
take_element (c ∷ cs) = let (e, rest) = element (c ∷ cs) in some (e, skip_slashes rest)

-- The element, and the path behind it and its slashes.
unfoldable pub next_element : List ℕ → Option (List ℕ × List ℕ)
next_element path = take_element (skip_slashes path)

-- What `skipelem` leaves at `name` for the element `e`: no more than DIRSIZ bytes, and a NUL if there
-- is room.
unfoldable pub put_name : ℕ → List ℕ → Memory → Memory
put_name name e mem = λ x.
    if leb name x && ltb x (name + min (length e) dirsiz)
    then get_or e (x - name) 0
    else (if ltb (length e) dirsiz && x == name + length e then 0 else mem x)

abbrev pub copied_name : ℕ → Memory → Option (List ℕ × List ℕ) → Option (List ℕ × Memory)
copied_name name mem none = none
copied_name name mem (some (e, rest)) = some (rest, put_name name e mem)

-- `skipelem`: the path behind the element, which has been copied to `name`.
unfoldable pub skipelem : ℕ → List ℕ → Memory → Option (List ℕ × Memory)
skipelem name path mem = copied_name name mem (next_element path)

-- The cache, the disk and the memory.
pub record World : Type 0 where
  pub table : List Slot
  pub disk : Bytes
  pub memory : Memory

-- The place of an inode, 0 being `none`.
abbrev pub Resolved : Type 0
Resolved = Option (Option ℕ × World)

abbrev pub answers : Option ℕ → World → Option (List Slot × Bytes) → Resolved
answers a w none = none
answers a w (some (t, st)) = some (a, record w { table = t; disk = st })

-- `iput`, and a return.
unfoldable pub put_back : Superblock → ℕ → Option ℕ → World → Resolved
put_back sb i a w = answers a w (iput sb i w.table w.disk)

abbrev pub goes_on : ℕ → (ℕ → World → Resolved) → Resolved → Resolved
goes_on j on none = none
goes_on j on (some (a, w)) = on j w

-- The end of a round: `iput` of the directory, and on from the inode that dirlookup has found, if any.
abbrev pub descend : Superblock → ℕ → (ℕ → World → Resolved) → World → Option (ℕ × ℕ) → Resolved
descend sb i on w none = put_back sb i none w
descend sb i on w (some (j, off)) = goes_on j on (put_back sb i (some j) w)

-- dirlookup in the inode at place `i`, which has been locked.
abbrev pub looked : Superblock → ℕ → (ℕ → World → Resolved) → Option Looked → Resolved
looked sb i on none = none
looked sb i on (some (found, ino, t, st, mem)) =
    descend sb i on
      (record { table = at (λ s. record s { ino = ino }) i t; disk = st; memory = mem }) found

abbrev pub look :
    Driver → Superblock → ℕ → ℕ → ℕ → (ℕ → World → Resolved) → World → Inode → Resolved
look devsw sb name de i on w ino =
    looked sb i on (dirlookup devsw sb name de ino w.table w.disk w.memory)

abbrev pub is_empty : List ℕ → Bool
is_empty [] = true
is_empty (c ∷ cs) = false

-- A round of the loop of `namex` with the inode at place `i` locked.
abbrev pub inspect :
    Driver
    → Superblock
    → ℕ
    → ℕ
    → Bool
    → ℕ
    → List ℕ
    → (ℕ → World → Resolved)
    → World
    → Option Slot
    → Resolved
inspect devsw sb name de parent i rest on w none = none
inspect devsw sb name de parent i rest on w (some s) =
    if not (s.ino.type == t_dir)
    then put_back sb i none w
    else (if parent && is_empty rest then some (some i, w) else look devsw sb name de i on w s.ino)

abbrev pub locked_round :
    Driver
    → Superblock
    → ℕ
    → ℕ
    → Bool
    → ℕ
    → List ℕ
    → (ℕ → World → Resolved)
    → World
    → Option (List Slot)
    → Resolved
locked_round devsw sb name de parent i rest on w none = none
locked_round devsw sb name de parent i rest on w (some t) =
    inspect devsw sb name de parent i rest on (record w { table = t }) (get_elem? t i)

-- The loop of `namex`, on the path and with the inode at place `i`; the fuel bounds its elements.
unfoldable pub namex_loop : Driver → Superblock → ℕ → ℕ → Bool → ℕ → List ℕ → ℕ → World → Resolved
namex_loop devsw sb name de parent zero path i w = none
namex_loop devsw sb name de parent (suc fuel) path i w = elim (skipelem name path w.memory) [
  | none ↦ if parent then put_back sb i none w else some (some i, w)
  | some (rest, mem) ↦
      let w' = record w { memory = mem } in
      locked_round devsw sb name de parent i rest (namex_loop devsw sb name de parent fuel rest) w'
        (lock_at sb i w'.table w'.disk)
]

abbrev pub starts_slash : List ℕ → Bool
starts_slash [] = false
starts_slash (c ∷ cs) = c == slash

-- `namex` for a process whose current directory is at place `cwd`.
unfoldable pub namex : Driver → Superblock → ℕ → ℕ → Bool → List ℕ → ℕ → World → Resolved
namex devsw sb name de parent path cwd w =
    if starts_slash path
    then elim (iget 1 1 w.table) [
      | none ↦ none
      | some (i, t) ↦
          namex_loop devsw sb name de parent (length path + 1) path i (record w { table = t })
    ]
    else (namex_loop devsw sb name de parent (length path + 1) path cwd
        (record w { table = idup cwd w.table }))
