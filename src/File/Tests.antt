-- ===== src/File/Tests.antt =====
-- A small file table: the theorems on Xv6-Threads/src/file.c at it.
use os_wsl.Prelude.{refl, true, List, [], ◌∷◌, arith, replicate, set}
use os_wsl.File.{File, fd_inode, empty_file, filealloc, find_free, set_ref, fileclose}
use os_wsl.File.References.{Reach, boots, allocates, sets, Closes, fileclose-last}
use os_wsl.File.OnDisk.{Store}
use os_wsl.Fs.Sample.{disk, sample, mem}

-- A file that stands for inode 3, with one reference.
abbrev inode_file : List File
inode_file = set (set_ref 0 1 (replicate 100 empty_file)) 0 (record {
  type = fd_inode;
  ref = 1;
  readable = true;
  writable = true;
  pipe = 0;
  ip = 3;
  off = 0;
})

inode_file-Reach : Reach inode_file (0 ∷ [])
unfolding filealloc find_free
inode_file-Reach =
    sets 0 0
      (record {
        type = fd_inode;
        ref = 1;
        readable = true;
        writable = true;
        pipe = 0;
        ip = 3;
        off = 0;
      })
      (allocates 0 boots (omega arith) refl) refl

fileclose-last_example : Closes inode_file (0 ∷ []) 0 (fileclose 0 inode_file)
fileclose-last_example = fileclose-last 0 0 inode_file-Reach refl

-- A write of 4000 bytes, in three chunks, to a file on the sample disk.
abbrev opened : File
opened = record empty_file { type = fd_inode; ref = 1; writable = true; ip = 3; off = 100 }

abbrev store : Store
store = (sample 2 100, disk, mem)
