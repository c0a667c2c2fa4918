-- ===== src/Log.antt =====
-- Xv6-Threads/src/log.c: the write-ahead log of the file system, over the disk and the buffer cache
-- of Xv6-Threads/src/bio.c. The cache is the contents that `bread` gives for each block; a part of
-- the code answers with the disk writes that its `bwrite`s make, in order, and the cache after them.
pub mod Header
pub mod Install
pub mod Recovery
pub mod Crash
pub mod Ops
mod Tests
use os_wsl.Prelude.{ℕ, suc, ◌+◌, List, [], ◌∷◌, ◌++◌, length, take, drop, ◌==◌, if◌then◌else◌}

-- A block is its 32-bit words, and a disk or a cache gives the contents of each block number.
abbrev pub Block : Type 0
Block = List ℕ

abbrev pub Blocks : Type 0
Blocks = ℕ → Block

abbrev pub update : Blocks → ℕ → Block → Blocks
update d b x c = if c == b then x else d c

-- One `bwrite`.
abbrev pub Write : Type 0
Write = ℕ × Block

-- The disk after some writes.
unfoldable pub apply : List Write → Blocks → Blocks
apply [] d = d
apply (w ∷ ws) d = apply ws (update d w.0 w.1)

-- The cache after `bwrite` of block `b` with new contents, and the write.
abbrev pub Effect : Type 0
Effect = List Write × Blocks

-- `struct logheader` on disk: the count, then the block numbers. Writing it leaves the rest of the
-- buffer alone.
unfoldable pub encode : List ℕ → Block → Block
encode lh old = length lh ∷ (lh ++ drop (suc (length lh)) old)

-- `read_head`: the entries below the count.
unfoldable pub decode : Block → List ℕ
decode [] = []
decode (n ∷ blocks) = take n blocks

-- The loop of `write_log` from `tail` on, for the entries that are left.
unfoldable pub write_log : ℕ → ℕ → List ℕ → Blocks → Effect
write_log start tail [] mem = ([], mem)
write_log start tail (b ∷ bs) mem =
    let to = start + tail + 1 in
    let (ws, mem') = write_log start (tail + 1) bs (update mem to (mem b)) in
    ((to, mem b) ∷ ws, mem')

-- The loop of `install_trans` from `tail` on.
unfoldable pub install_trans : ℕ → ℕ → List ℕ → Blocks → Effect
install_trans start tail [] mem = ([], mem)
install_trans start tail (b ∷ bs) mem =
    let x = mem (start + tail + 1) in
    let (ws, mem') = install_trans start (tail + 1) bs (update mem b x) in ((b, x) ∷ ws, mem')

-- `write_head`
unfoldable pub write_head : ℕ → List ℕ → Blocks → Effect
unfolding encode
write_head start lh mem = let x = encode lh (mem start) in ((start, x) ∷ [], update mem start x)

-- `commit`, with the entries of `log.lh`, which it empties.
unfoldable pub commit : ℕ → List ℕ → Blocks → Effect
unfolding write_log install_trans write_head
commit start [] mem = ([], mem)
commit start (b ∷ bs) mem =
    let lh = b ∷ bs in
    let (logged, m1) = write_log start 0 lh mem in
    let (headed, m2) = write_head start lh m1 in
    let (installed, m3) = install_trans start 0 lh m2 in
    let (cleared, m4) = write_head start [] m3 in (logged ++ (headed ++ (installed ++ cleared)), m4)

-- `recover_from_log` at boot, when the cache is what is on disk.
unfoldable pub recover_from_log : ℕ → Blocks → Effect
unfolding decode install_trans write_head
recover_from_log start disk =
    let lh = decode (disk start) in
    let (installed, m1) = install_trans start 0 lh disk in
    let (cleared, m2) = write_head start [] m1 in (installed ++ cleared, m2)

-- The disk after a boot.
unfoldable pub recovered : ℕ → Blocks → Blocks
unfolding recover_from_log apply
recovered start disk = apply (recover_from_log start disk).0 disk
