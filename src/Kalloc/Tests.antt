-- ===== src/Kalloc/Tests.antt =====
-- A small memory: the theorem on Xv6-Threads/src/kalloc.c at it.
use os_wsl.Prelude.{refl, arith, [], ◌∷◌}
use os_wsl.Kalloc.{kfree, kalloc, pground_up, free_pages, freerange}
use os_wsl.Kalloc.Pages.{Reach, boots, extends, allocates}

-- kinit1 with one page from 0x80101000 on, which is handed out, and kinit2 with two pages behind it
run : Reach 2148532224 2148548608 (2148544512 ∷ 2148540416 ∷ []) (2148536320 ∷ [])
unfolding kfree kalloc pground_up free_pages freerange
run =
    extends 2148540416 2148548608
      (allocates 2148536320
        (boots {ps = 2148536320 ∷ []} 2148532225 2148540416 (omega arith) (omega arith) refl) refl)
      (omega arith) (omega arith) (omega arith) refl
