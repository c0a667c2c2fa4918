-- ===== src/Log/Install.antt =====
-- The loops of Xv6-Threads/src/log.c: `write_log` fills the log, and `install_trans` copies it home.
use os_wsl.Prelude.{
  ℕ, zero, suc, ◌+◌, ◌<◌, ◌≡◌, refl, ap, ◌∙◌, ◌⊎◌, List, [], ◌∷◌, arith, length, take,
  if◌then◌else◌,
}
use os_wsl.Log.{Block, Blocks, update, apply, write_log, install_trans}
use os_wsl.Log.Header.{Outside, AllOutside, member, Spare, apply-Spare}

-- The log slots from `tail` on hold the contents `home` of the blocks `bs`.
abbrev pub LogHolds : ℕ → ℕ → List ℕ → Blocks → Blocks → Type 0
LogHolds start tail [] d home = Unit
LogHolds start tail (b ∷ bs) d home =
    (d (start + tail + 1) ≡ home b) × LogHolds start (tail + 1) bs d home

-- Two sets of blocks agree outside the log.
abbrev pub SameHome : ℕ → ℕ → Blocks → Blocks → Type 0
SameHome start size d e = (c : ℕ) → Outside start size c → d c ≡ e c

-- `write_log` writes into the log only, and only from `tail` on.
pub write_log-Spare :
    (start tail c : ℕ) (bs : List ℕ) (mem : Blocks)
    → (c < start + tail + 1) ⊎ (start + tail + length bs < c)
    → Spare c (write_log start tail bs mem).0
unfolding write_log
write_log-Spare start tail c [] mem h = tt
write_log-Spare start tail c (b ∷ bs) mem h = (
  omega arith,
  write_log-Spare start (tail + 1) c bs (update mem (start + tail + 1) (mem b)) (omega arith),
)

pub length-write_log :
    (start tail : ℕ) (bs : List ℕ) (mem : Blocks)
    → length (write_log start tail bs mem).0 ≡ length bs
unfolding write_log
length-write_log start tail [] mem = refl
length-write_log start tail (b ∷ bs) mem =
    ap suc (length-write_log start (tail + 1) bs (update mem (start + tail + 1) (mem b)))

pub length-install_trans :
    (start tail : ℕ) (bs : List ℕ) (mem : Blocks)
    → length (install_trans start tail bs mem).0 ≡ length bs
unfolding install_trans
length-install_trans start tail [] mem = refl
length-install_trans start tail (b ∷ bs) mem =
    ap suc (length-install_trans start (tail + 1) bs (update mem b (mem (start + tail + 1))))

-- What is in the cache is what has been written.
pub write_log-mem :
    (start tail : ℕ) (bs : List ℕ) (mem : Blocks)
    → (write_log start tail bs mem).1 ≡ apply (write_log start tail bs mem).0 mem
unfolding write_log apply
write_log-mem start tail [] mem = refl
write_log-mem start tail (b ∷ bs) mem =
    write_log-mem start (tail + 1) bs (update mem (start + tail + 1) (mem b))

pub install_trans-mem :
    (start tail : ℕ) (bs : List ℕ) (mem : Blocks)
    → (install_trans start tail bs mem).1 ≡ apply (install_trans start tail bs mem).0 mem
unfolding install_trans apply
install_trans-mem start tail [] mem = refl
install_trans-mem start tail (b ∷ bs) mem =
    install_trans-mem start (tail + 1) bs (update mem b (mem (start + tail + 1)))

module _ (start size : ℕ) (home : Blocks) where
  -- After `write_log` the log holds the cached contents.
  pub write_log-LogHolds :
      (tail : ℕ) (bs : List ℕ) (mem d : Blocks)
      → AllOutside start size bs
      → tail + length bs < size
      → SameHome start size mem home
      → LogHolds start tail bs (apply (write_log start tail bs mem).0 d) home
  unfolding write_log apply
  write_log-LogHolds tail [] mem d out fit same = tt
  write_log-LogHolds tail (b ∷ bs) mem d out fit same =
      let to = start + tail + 1 in
      let mem' = update mem to (mem b) in
      let d' = update d to (mem b) in
      (
        apply-Spare to (write_log start (tail + 1) bs mem').0 d'
              (write_log-Spare start (tail + 1) to bs mem' (omega arith))
            ∙ ground (arith, same b out.0),
        write_log-LogHolds (tail + 1) bs mem' d' out.1 (omega arith)
            (λ c o. ground (arith, same c o)),
      )

  -- A write outside the log leaves the log alone.
  pub update-LogHolds :
      (tail : ℕ) (bs : List ℕ) (d : Blocks) (c : ℕ) (x : Block)
      → tail + length bs < size
      → Outside start size c
      → LogHolds start tail bs d home
      → LogHolds start tail bs (update d c x) home
  update-LogHolds tail [] d c x fit out h = tt
  update-LogHolds tail (b ∷ bs) d c x fit out h =
      (ground (arith, h.0), update-LogHolds (tail + 1) bs d c x (omega arith) out h.1)

  pub update_head-LogHolds :
      (tail : ℕ) (bs : List ℕ) (d : Blocks) (x : Block)
      → LogHolds start tail bs d home
      → LogHolds start tail bs (update d start x) home
  update_head-LogHolds tail [] d x h = tt
  update_head-LogHolds tail (b ∷ bs) d x h =
      (ground (arith, h.0), update_head-LogHolds (tail + 1) bs d x h.1)

  -- After `k` of its writes, `install_trans` has put the first `k` blocks home, and it touches
  -- nothing else.
  pub install_trans_lem :
      (tail k : ℕ) (bs : List ℕ) (mem d : Blocks) (c : ℕ)
      → AllOutside start size bs
      → tail + length bs < size
      → LogHolds start tail bs mem home
      → apply (take k (install_trans start tail bs mem).0) d c
        ≡ (if member c (take k bs) then home c else d c)
  unfolding install_trans apply
  install_trans_lem tail zero bs mem d c out fit h = refl
  install_trans_lem tail (suc k) [] mem d c out fit h = refl
  install_trans_lem tail (suc k) (b ∷ bs) mem d c out fit h =
      let x = mem (start + tail + 1) in
      ground (
        arith,
        h.0,
        install_trans_lem (tail + 1) k bs (update mem b x) (update d b x) c out.1 (omega arith)
            (update-LogHolds (tail + 1) bs mem b x (omega arith) out.0 h.1),
      )

  pub install_trans-LogHolds :
      (tail k : ℕ) (bs : List ℕ) (mem d : Blocks) (tail' : ℕ) (bs' : List ℕ)
      → AllOutside start size bs
      → tail' + length bs' < size
      → LogHolds start tail' bs' d home
      → LogHolds start tail' bs' (apply (take k (install_trans start tail bs mem).0) d) home
  unfolding install_trans apply
  install_trans-LogHolds tail zero bs mem d tail' bs' out fit h = h
  install_trans-LogHolds tail (suc k) [] mem d tail' bs' out fit h = h
  install_trans-LogHolds tail (suc k) (b ∷ bs) mem d tail' bs' out fit h =
      let x = mem (start + tail + 1) in
      install_trans-LogHolds (tail + 1) k bs (update mem b x) (update d b x) tail' bs' out.1 fit
        (update-LogHolds tail' bs' d b x fit out.0 h)

  -- It never writes the header block.
  pub install_trans_head :
      (tail k : ℕ) (bs : List ℕ) (mem d : Blocks)
      → AllOutside start size bs
      → 0 < size
      → apply (take k (install_trans start tail bs mem).0) d start ≡ d start
  unfolding install_trans apply
  install_trans_head tail zero bs mem d out pos = refl
  install_trans_head tail (suc k) [] mem d out pos = refl
  install_trans_head tail (suc k) (b ∷ bs) mem d out pos =
      let x = mem (start + tail + 1) in
      install_trans_head (tail + 1) k bs (update mem b x) (update d b x) out.1 pos ∙ ground arith
