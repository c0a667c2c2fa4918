-- ===== src/Fs/Names/Tests.antt =====
-- Path names of Xv6-Threads/src/fs.c at the sample disk.
use os_wsl.Prelude.{ℕ, ◌+◌, ◌≡◌, refl, false, some, List, [], ◌∷◌, arith, length}
use os_wsl.Fs.Icache.{Slot}
use os_wsl.Fs.Icache.Counting.{refs}
use os_wsl.Fs.Names.{slash, next_element, World, namex_loop, namex}
use os_wsl.Fs.Names.Fuel.{namex_loop-enough}
use os_wsl.Fs.Names.Elements.{names, pieces, nonempty, cut_each, skipelem-names}
use os_wsl.Fs.Names.Balance.{OneTaken, namex-OneTaken}
use os_wsl.Fs.Sample.{sb, disk, sample, no_driver, mem}

-- "///a//bb", as the comment of the code has it
abbrev path : List ℕ
path = slash ∷ slash ∷ slash ∷ 97 ∷ slash ∷ slash ∷ 98 ∷ 98 ∷ []

first_element : next_element path ≡ some (97 ∷ [], 98 ∷ 98 ∷ [])
unfolding next_element
first_element = refl

two_elements : cut_each (nonempty (pieces path)) ≡ (97 ∷ []) ∷ (98 ∷ 98 ∷ []) ∷ []
two_elements = refl

skipelem-names_example : names (length path + 1) 65 path mem ≡ cut_each (nonempty (pieces path))
skipelem-names_example = skipelem-names 65 path mem refl

-- The current directory is the sample directory, with one reference; another entry is not in use.
abbrev table : List Slot
table = record { ref = 1; ino = sample 1 32 } ∷ record { ref = 0; ino = sample 0 0 } ∷ []

abbrev world : World
world = record { table = table; disk = disk; memory = mem }

namex-OneTaken_example :
    OneTaken (refs table) (namex no_driver sb 65 200 false (97 ∷ slash ∷ 98 ∷ []) 0 world)
namex-OneTaken_example =
    namex-OneTaken no_driver sb 65 200 false (97 ∷ slash ∷ 98 ∷ []) 0 world
      (record { ref = 1; ino = sample 1 32 }, (refl, omega arith)) (omega arith)

namex_loop-enough_example :
    namex_loop no_driver sb 65 200 false 9 (97 ∷ slash ∷ 98 ∷ []) 0 world
    ≡ namex_loop no_driver sb 65 200 false 4 (97 ∷ slash ∷ 98 ∷ []) 0 world
namex_loop-enough_example =
    namex_loop-enough no_driver sb 65 200 false 9 4 (97 ∷ slash ∷ 98 ∷ []) (omega arith)
      (omega arith) 0 world
