-- ===== src/Log/Crash.antt =====
-- A crash at any disk write of `commit` of Xv6-Threads/src/log.c, and the recovery at the next boot.
use os_wsl.Prelude.{
  take_all, ℕ, zero, suc, ◌+◌, ◌-◌, ◌<◌, ◌≡◌, ◌≢◌, refl, ap, sym, ◌∙◌, inl, inr, true, ◌&&◌, List,
  [], ◌∷◌, ◌++◌, arith, length, take, ltb, leb, leb→le, if◌then◌else◌, Bool-cases,
}
use os_wsl.Log.{
  Block, Blocks, Write, update, apply, encode, decode, write_log, install_trans, write_head, commit,
  recovered,
}
use os_wsl.Log.Header.{decode-encode, Outside, AllOutside, member, apply-Spare, take-Spare}
use os_wsl.Log.Install.{
  LogHolds, write_log-Spare, length-write_log, length-install_trans, write_log-mem,
  write_log-LogHolds, update_head-LogHolds, install_trans_lem, install_trans-LogHolds,
  install_trans_head,
}
use os_wsl.Log.Recovery.{
  crashed, crashed-append_short, crashed-append_long, recovered_empty, recovered_full,
}

member-take : (c k : ℕ) (bs : List ℕ) → member c (take k bs) ≡ true → member c bs ≡ true
member-take c zero bs h = ground arith
member-take c (suc k) [] h = ground arith
member-take c (suc k) (b ∷ bs) h = ground (arith, member-take c k bs)

take_none : (k : ℕ) → take {A = Write} k [] ≡ []
take_none zero = refl
take_none (suc k) = refl

not_head : (start size c : ℕ) → 0 < size → Outside start size c → c ≢ start
not_head start size c h o = ground arith

module _ (start size : ℕ) (lh : List ℕ) (mem d : Blocks) (c : ℕ) (empty : decode (d start) ≡ [])
    (out : AllOutside start size lh) (fit : length lh < size) (oc : Outside start size c) where
  -- While the log is being filled, nothing has happened yet.
  filling : (k : ℕ) → recovered start (crashed k (write_log start 0 lh mem).0 d) c ≡ d c
  filling k =
      let ws = (write_log start 0 lh mem).0 in
      recovered_empty start size mem (crashed k ws d) c
        (ap decode (
            apply-Spare start (take k ws) d
              (take-Spare k start ws (write_log-Spare start 0 start lh mem (inl (omega arith)))))
          ∙ empty)
        (not_head start size c (omega arith) oc)
      ∙ apply-Spare c (take k ws) d
          (take-Spare k c ws (write_log-Spare start 0 c lh mem (omega arith)))

  -- The log holds the cached blocks once the header is written.
  logged :
      (e : Blocks) (x : Block)
      → LogHolds start 0 lh (update (apply (write_log start 0 lh mem).0 e) start x) mem
  logged e x =
      update_head-LogHolds start size mem 0 lh (apply (write_log start 0 lh mem).0 e) x
        (write_log-LogHolds start size mem 0 lh mem e out (omega arith) (λ b o. refl))

  -- So does the cache.
  cached : (x : Block) → LogHolds start 0 lh (update (write_log start 0 lh mem).1 start x) mem
  cached x = rw (write_log-mem start 0 lh mem) (logged mem x)

  -- While the blocks are being installed, the header still stands.
  installing :
      (j : ℕ) (m2 d2 : Blocks)
      → LogHolds start 0 lh m2 mem
      → LogHolds start 0 lh d2 mem
      → decode (d2 start) ≡ lh
      → d2 c ≡ d c
      → recovered start (crashed j (install_trans start 0 lh m2).0 d2) c
        ≡ (if member c lh then mem c else d c)
  installing j m2 d2 hm hd e same =
      let d3 = crashed j (install_trans start 0 lh m2).0 d2 in
      recovered_full start size mem lh d3 c
        (ap decode (install_trans_head start size mem 0 j lh m2 d2 out (omega arith)) ∙ e) out fit
        (install_trans-LogHolds start size mem 0 j lh m2 d2 0 lh out (omega arith) hd)
        (not_head start size c (omega arith) oc)
      ∙ ground (
        arith,
        member-take c j lh,
        install_trans_lem start size mem 0 j lh m2 d2 c out (omega arith) hm,
      )

  -- Once the header is cleared, the blocks are home.
  cleared :
      (m2 d2 : Blocks) (x : Block)
      → LogHolds start 0 lh m2 mem
      → decode x ≡ []
      → d2 c ≡ d c
      → recovered start (update (apply (install_trans start 0 lh m2).0 d2) start x) c
        ≡ (if member c lh then mem c else d c)
  cleared m2 d2 x hm e same =
      let ws = (install_trans start 0 lh m2).0 in
      let d4 = update (apply ws d2) start x in
      let at_head : d4 start ≡ x = ground arith in
      let whole : take (length lh) ws ≡ ws =
        take_all _ ws (omega (arith, length-install_trans start 0 lh m2)) in
      recovered_empty start size mem d4 c (ap decode at_head ∙ e)
        (not_head start size c (omega arith) oc)
      ∙ ground (
        arith,
        not_head start size c (omega arith) oc,
        same,
        ap (λ (w : List Write). apply w d2 c) (sym whole)
            ∙ install_trans_lem start size mem 0 (length lh) lh m2 d2 c out (omega arith) hm
            ∙ ap (λ (l : List ℕ). if member c l then mem c else d2 c) (take_all _ lh (omega arith)),
      )

  -- Any number of the writes that follow the header's.
  headed :
      (j : ℕ) (m2 d2 : Blocks) (y : Block)
      → LogHolds start 0 lh m2 mem
      → LogHolds start 0 lh d2 mem
      → decode (d2 start) ≡ lh
      → decode y ≡ []
      → d2 c ≡ d c
      → recovered start (crashed j ((install_trans start 0 lh m2).0 ++ ((start, y) ∷ [])) d2) c
        ≡ (if member c lh then mem c else d c)
  unfolding apply
  headed j m2 d2 y hm hd e ey same =
      let ws = (install_trans start 0 lh m2).0 in
      elim (Bool-cases (leb j (length ws))) [
        | inl short ↦
            ap (λ f. recovered start f c)
              (crashed-append_short j ws ((start, y) ∷ []) d2 (leb→le _ _ short))
            ∙ installing j m2 d2 hm hd e same
        | inr long ↦
            let i = j - length ws - 1 in
            let split : j ≡ length ws + suc i = ground arith in
            ap (λ m. recovered start (crashed m (ws ++ ((start, y) ∷ [])) d2) c) split
            ∙ ap (λ f. recovered start f c) (crashed-append_long (suc i) ws ((start, y) ∷ []) d2)
            ∙ ap (λ vs. recovered start (apply vs (update (apply ws d2) start y)) c) (take_none i)
            ∙ cleared m2 d2 y hm ey same
      ]

  -- Any number of the writes of a commit.
  committing :
      (k : ℕ) (m2 : Blocks) (x y : Block)
      → LogHolds start 0 lh m2 mem
      → decode x ≡ lh
      → decode y ≡ []
      → recovered start
          (crashed k
            ((write_log start 0 lh mem).0
              ++ ((start, x) ∷ ((install_trans start 0 lh m2).0 ++ ((start, y) ∷ []))))
            d)
          c
        ≡ (if ltb (length lh) k && member c lh then mem c else d c)
  unfolding apply
  committing k m2 x y hm ex ey =
      let ws = (write_log start 0 lh mem).0 in
      let vs = (install_trans start 0 lh m2).0 ++ ((start, y) ∷ []) in
      let d2 = update (apply ws d) start x in
      let len : length ws ≡ length lh = length-write_log start 0 lh mem in
      elim (Bool-cases (ltb (length lh) k)) [
        | inr short ↦ rw short (
            ap (λ f. recovered start f c)
              (crashed-append_short k ws ((start, x) ∷ vs) d (ground arith))
            ∙ filling k)
        | inl long ↦ rw long (
            let j = k - length ws - 1 in
            let split : k ≡ length ws + suc j = ground arith in
            let at_head : d2 start ≡ x = ground arith in
            ap (λ m. recovered start (crashed m (ws ++ ((start, x) ∷ vs)) d) c) split
            ∙ ap (λ f. recovered start f c) (crashed-append_long (suc j) ws ((start, x) ∷ vs) d)
            ∙ headed j m2 d2 y hm (logged d x) (ap decode at_head ∙ ex) ey (
                ground (
                  arith,
                  not_head start size c (omega arith) oc,
                  apply-Spare c ws d (write_log-Spare start 0 c lh mem (omega arith)),
                )))
      ]

-- A crash after any number of the writes of `commit`, followed by the recovery of the next boot, is
-- all or nothing for the blocks outside the log: if the header with the transaction was among the
-- writes, each logged block has its cached contents and the others are as before; if it was not,
-- every block is as before. The header on disk is empty at first, and the transaction fits.
pub crash_atomic :
    (start size k : ℕ) (lh : List ℕ) (mem d : Blocks) (c : ℕ)
    → decode (d start) ≡ []
    → AllOutside start size lh
    → length lh < size
    → Outside start size c
    → recovered start (crashed k (commit start lh mem).0 d) c
      ≡ (if ltb (length lh) k && member c lh then mem c else d c)
unfolding commit write_head apply
crash_atomic start size k [] mem d c empty out fit oc =
    ap (λ ws. recovered start (apply ws d) c) (take_none k)
    ∙ recovered_empty start size mem d c empty (not_head start size c fit oc)
    ∙ ground arith
crash_atomic start size k (b ∷ bs) mem d c empty out fit oc =
    let lh = b ∷ bs in
    let ran = write_log start 0 lh mem in
    let x = encode lh (ran.1 start) in
    let m2 = update ran.1 start x in
    let y = encode [] ((install_trans start 0 lh m2).1 start) in
    committing start size lh mem d c empty out fit oc k m2 x y
      (cached start size lh mem d c empty out fit oc x) (decode-encode lh (ran.1 start))
      (decode-encode [] ((install_trans start 0 lh m2).1 start))
