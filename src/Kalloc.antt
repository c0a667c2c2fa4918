-- ===== src/Kalloc.antt =====
-- Xv6-Threads/src/kalloc.c: the free pages, by their kernel addresses, the head of `kmem.freelist`
-- first. The links of the list lie in the free pages themselves, whose contents are not part of the
-- model. A panic is `none`; `stop` is the first address after the kernel, `end` in the code.
pub mod Pages
mod Tests
use os_wsl.Prelude.{
  ℕ, zero, suc, ◌+◌, ◌-◌, ◌%◌, Bool, not, ◌||◌, Option, none, some, List, [], ◌∷◌, u32, ltb, leb,
  ◌==◌, if◌then◌else◌,
}

abbrev pub pgsize : ℕ
pgsize = 4096

-- `KERNBASE` and `PHYSTOP` of Xv6-Threads/src/memlayout.h
abbrev pub kern_base : ℕ
kern_base = 2147483648

abbrev pub phystop : ℕ
phystop = 234881024

-- `V2P`
abbrev pub v2p : ℕ → ℕ
v2p v = u32 (v + 4294967296 - kern_base)

unfoldable pub pground_up : ℕ → ℕ
pground_up a = let b = u32 (a + 4095) in b - b % pgsize

-- The pages that `kfree` refuses.
abbrev pub refused : ℕ → ℕ → Bool
refused stop v = not (v % pgsize == 0) || (ltb v stop || leb phystop (v2p v))

unfoldable pub kfree : ℕ → ℕ → List ℕ → Option (List ℕ)
kfree stop v freelist = if refused stop v then none else some (v ∷ freelist)

unfoldable pub kalloc : List ℕ → Option ℕ × List ℕ
kalloc [] = (none, [])
kalloc (r ∷ freelist) = (some r, freelist)

-- The loop of `freerange` from `p` on, with fuel.
unfoldable pub free_pages : ℕ → ℕ → ℕ → ℕ → List ℕ → Option (List ℕ)
unfolding kfree
free_pages stop zero p vend freelist = some freelist
free_pages stop (suc fuel) p vend freelist =
    let rest = free_pages stop fuel (u32 (p + pgsize)) vend (p ∷ freelist) in
    if leb (u32 (p + pgsize)) vend
    then elim (kfree stop p freelist) [ none ↦ none | some freelist' ↦ rest ]
    else some freelist

-- A range has no more pages than the address space, 2 ^ 20.
unfoldable pub freerange : ℕ → ℕ → ℕ → List ℕ → Option (List ℕ)
unfolding free_pages pground_up
freerange stop vstart vend freelist = free_pages stop 1048576 (pground_up vstart) vend freelist
