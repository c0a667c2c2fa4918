-- ===== src/Fs/Dir/Tests.antt =====
-- The theorems on the directories of Xv6-Threads/src/fs.c at the sample disk.
use os_wsl.Prelude.{◌≡◌, ◌≢◌, ◌∙◌, sym, none, some, ℕ, inl, refl, List, [], ◌∷◌, arith}
use os_wsl.String.Comparing.{text}
use os_wsl.Fs.Inode.{Inode}
use os_wsl.Fs.Inode.Spots.{content}
use os_wsl.Fs.Content.Reading.{Holds}
use os_wsl.Fs.Dir.{dirlookup, dirlink}
use os_wsl.Fs.Dir.Entries.{find}
use os_wsl.Fs.Dir.Lookup.{AreBytes}
use os_wsl.Fs.Dir.Cached.{Gets, Links, dirlookup_lem, dirlink_lem}
use os_wsl.Fs.Icache.{Slot}
use os_wsl.Fs.Sample.{sb, disk, sample, no_driver, mem, differ, sample-Holds, sample-bytes}

-- A directory of two entries.
abbrev dir : Inode
dir = sample 1 32

dir-Holds : Holds sb dir disk
dir-Holds = sample-Holds 1 32 (differ 1 3 refl) (omega arith)

mem-AreBytes : AreBytes mem
mem-AreBytes x = omega arith

-- The name at address 65 is of the 14 bytes from "A" on; `de` is at address 200.
-- A cache with one entry that is not in use.
abbrev table : List Slot
table = record { ref = 0; ino = dir } ∷ []

dirlookup_lem_example :
    Gets dir table disk 200 mem
      (find (content dir.addrs disk) (text 65 14 mem) 2 0)
      (dirlookup no_driver sb 65 200 dir table disk mem)
dirlookup_lem_example =
    dirlookup_lem no_driver sb 65 200 2 dir table disk mem dir-Holds refl refl sample-bytes
      mem-AreBytes (inl (omega arith))

-- Its entries have the name that is 14 times the byte 7.
not_there : find (content dir.addrs disk) (text 65 14 mem) 2 0 ≡ none
not_there = refl

not_itself : (off : ℕ) → find (content dir.addrs disk) (text 65 14 mem) 2 0 ≢ some (2, off)
not_itself off e = none_some (2, off) (sym not_there ∙ e)
  where
    none_some : (g : ℕ × ℕ) → ¬ (none ≡ some g)
    none_some g h = cc

dirlink_lem_example :
    Links sb dir table disk
      (text 65 14 mem)
      2
      9
      (find (content dir.addrs disk) (text 65 14 mem) 2 0)
      (dirlink no_driver sb 65 200 9 dir table disk mem)
dirlink_lem_example =
    dirlink_lem no_driver sb 65 200 9 2 dir table disk mem dir-Holds refl refl (omega arith)
      sample-bytes mem-AreBytes (inl (omega arith)) (differ 9 0 refl) (omega arith) (omega arith)
      not_itself
