-- ===== src/Prelude/Counting.antt =====
-- Lists of numbers from which single entries are removed, and how often a number is in one.
use Prim.Native.Nat.{ℕ, zero, suc, ◌+◌}
use mathlib.Core.Path.{◌≡◌}
use mathlib.Core.List.{List, [], ◌∷◌}
use mathlib.Core.Option.{some}
use native.Mathlib.Omega.{arith}
use os_wsl.Prelude.Tests.{◌==◌, if◌then◌else◌}
use os_wsl.Prelude.Lists.{length, get_elem?}

abbrev pub remove : List ℕ → ℕ → List ℕ
remove [] i = []
remove (r ∷ rs) zero = rs
remove (r ∷ rs) (suc i) = r ∷ remove rs i

-- How often a number is in a list.
abbrev pub occurs : ℕ → List ℕ → ℕ
occurs q [] = 0
occurs q (p ∷ ps) = (if q == p then 1 else 0) + occurs q ps

pub length-remove :
    (bs : List ℕ) (i r : ℕ) → get_elem? bs i ≡ some r → length (remove bs i) + 1 ≡ length bs
length-remove [] i r h = cc
length-remove (b ∷ bs) zero r h = omega arith
length-remove (b ∷ bs) (suc i) r h = omega (arith, length-remove bs i r h)

pub remove-occurs :
    (q p i : ℕ) (held : List ℕ)
    → get_elem? held i ≡ some p
    → occurs q held ≡ (if q == p then 1 else 0) + occurs q (remove held i)
remove-occurs q p i [] h = cc
remove-occurs q p zero (r ∷ held) h = let same : r ≡ p = cc in rw same
remove-occurs q p (suc i) (r ∷ held) h = omega (arith, remove-occurs q p i held h)
