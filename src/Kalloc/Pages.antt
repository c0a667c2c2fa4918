-- ===== src/Kalloc/Pages.antt =====
-- No page of Xv6-Threads/src/kalloc.c is handed out twice.
use os_wsl.Prelude.{
  remove, occurs, ℕ, ◌+◌, ◌≤◌, ◌<◌, ◌≡◌, Option, none, some, List, [], ◌∷◌, get_elem?, ltb,
  if◌then◌else◌,
}
use os_wsl.Kalloc.{kfree, kalloc, freerange}

-- No page is there twice, together with `g`, and none is at `top` or above.
abbrev Distinct : (ℕ → ℕ) → ℕ → Option (List ℕ) → Type 0
Distinct g top none = Unit
Distinct g top (some ps) = (q : ℕ) → occurs q ps + g q ≤ (if ltb q top then 1 else 0)

-- The end of the memory that has been given to the allocator, the free list and the pages that have been
-- handed out: after kinit1, over any sequence of kalloc, of kfree of a page that was handed out, and of
-- freerange of memory behind what there was, as kinit2 does.
pub data Reach (stop : ℕ) : ℕ → List ℕ → List ℕ → Type 0 where
  boots :
      {ps : List ℕ} (vstart vend : ℕ)
      → vstart ≤ vend
      → vstart < 4294963201
      → freerange stop vstart vend [] ≡ some ps
      → Reach stop vend ps []
  extends :
      {top : ℕ} {ps ps' held : List ℕ} (vstart vend : ℕ)
      → Reach stop top ps held
      → top ≤ vstart
      → vstart ≤ vend
      → vstart < 4294963201
      → freerange stop vstart vend ps ≡ some ps'
      → Reach stop vend ps' held
  allocates :
      {top : ℕ} {ps ps' held : List ℕ} (p : ℕ)
      → Reach stop top ps held
      → kalloc ps ≡ (some p, ps')
      → Reach stop top ps' (p ∷ held)
  frees :
      {top : ℕ} {ps ps' held : List ℕ} (p i : ℕ)
      → Reach stop top ps held
      → get_elem? held i ≡ some p
      → kfree stop p ps ≡ some ps'
      → Reach stop top ps' (remove held i)
