-- ===== src/Log/Recovery.antt =====
-- The disk when a run of Xv6-Threads/src/log.c stops between two writes, and `initlog`'s recovery at
-- the next boot.
use os_wsl.Prelude.{
  ℕ, zero, suc, ◌+◌, ◌≤◌, ◌<◌, ◌≡◌, ◌≢◌, refl, ap, sym, ◌∙◌, List, [], ◌∷◌, ◌++◌, arith, length,
  take, take_all, if◌then◌else◌,
}
use os_wsl.Log.{
  Blocks, Write, apply, encode, decode, install_trans, write_head, recover_from_log, recovered,
}
use os_wsl.Log.Header.{apply-append, AllOutside, member}
use os_wsl.Log.Install.{LogHolds, length-install_trans, install_trans_lem}

take-append_short :
    {A : Type 0} (n : ℕ) (xs ys : List A) → n ≤ length xs → take n (xs ++ ys) ≡ take n xs
take-append_short zero xs ys h = refl
take-append_short (suc n) [] ys h = elim h [ ]
take-append_short {A} (suc n) (x ∷ xs) ys h =
    ap (λ (w : List A). x ∷ w) (take-append_short n xs ys (omega arith))

take-append_long :
    {A : Type 0} (n : ℕ) (xs ys : List A) → take (length xs + n) (xs ++ ys) ≡ xs ++ take n ys
take-append_long n [] ys = let e : 0 + n ≡ n = omega arith in ap (λ m. take m ys) e
take-append_long {A} n (x ∷ xs) ys =
    let e : length (x ∷ xs) + n ≡ suc (length xs + n) = omega arith in
    rw e (ap (λ (w : List A). x ∷ w) (take-append_long n xs ys))

-- The disk after the first `k` of the writes `ws`.
abbrev pub crashed : ℕ → List Write → Blocks → Blocks
crashed k ws d = apply (take k ws) d

pub crashed-append_short :
    (k : ℕ) (ws vs : List Write) (d : Blocks)
    → k ≤ length ws
    → crashed k (ws ++ vs) d ≡ crashed k ws d
crashed-append_short k ws vs d h = ap (λ (u : List Write). apply u d) (take-append_short k ws vs h)

pub crashed-append_long :
    (k : ℕ) (ws vs : List Write) (d : Blocks)
    → crashed (length ws + k) (ws ++ vs) d ≡ crashed k vs (apply ws d)
crashed-append_long k ws vs d =
    ap (λ (u : List Write). apply u d) (take-append_long k ws vs) ∙ apply-append ws (take k vs) d

module _ (start size : ℕ) (home : Blocks) where
  -- A boot with an empty header changes no block but the header's.
  pub recovered_empty :
      (d : Blocks) (c : ℕ) → decode (d start) ≡ [] → c ≢ start → recovered start d c ≡ d c
  unfolding recovered recover_from_log install_trans write_head apply
  recovered_empty d c h ne = rw h (ground arith)

  -- A boot with a committed header puts the logged blocks home.
  pub recovered_full :
      (lh : List ℕ) (d : Blocks) (c : ℕ)
      → decode (d start) ≡ lh
      → AllOutside start size lh
      → length lh < size
      → LogHolds start 0 lh d home
      → c ≢ start
      → recovered start d c ≡ (if member c lh then home c else d c)
  unfolding recovered recover_from_log write_head apply
  recovered_full lh d c e out fit h ne =
      let ran = install_trans start 0 lh d in
      let all : take (length lh) ran.0 ≡ ran.0 =
        take_all _ ran.0 (omega (arith, length-install_trans start 0 lh d)) in
      let home_of : apply ran.0 d c ≡ (if member c lh then home c else d c) =
        ap (λ (ws : List Write). apply ws d c) (sym all)
        ∙ install_trans_lem start size home 0 (length lh) lh d d c out (omega arith) h
        ∙ ap (λ (l : List ℕ). if member c l then home c else d c) (take_all _ lh (omega arith)) in
      rw e (
        ap (λ (f : Blocks). f c) (apply-append ran.0 ((start, encode [] (ran.1 start)) ∷ []) d)
        ∙ ground (arith, home_of))
