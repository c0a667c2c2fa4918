-- ===== src/Log/Header.antt =====
-- The header block of Xv6-Threads/src/log.c, and disk writes.
use os_wsl.Prelude.{
  ℕ, zero, suc, ◌+◌, ◌≤◌, ◌<◌, ◌≡◌, ◌≢◌, refl, ap, ◌∙◌, ◌⊎◌, Bool, false, ◌||◌, List, [], ◌∷◌, ◌++◌,
  arith, length, take, drop, ◌==◌,
}
use os_wsl.Log.{Block, Blocks, Write, update, apply, encode, decode}

take-append_self : (xs ys : List ℕ) → take (length xs) (xs ++ ys) ≡ xs
take-append_self [] ys = refl
take-append_self (x ∷ xs) ys = ap (λ (w : List ℕ). x ∷ w) (take-append_self xs ys)

-- What `write_head` has put into the header block is what `read_head` finds there.
pub decode-encode : (lh : List ℕ) (old : Block) → decode (encode lh old) ≡ lh
unfolding decode encode
decode-encode lh old = take-append_self lh (drop (suc (length lh)) old)

pub apply-append : (ws vs : List Write) (d : Blocks) → apply (ws ++ vs) d ≡ apply vs (apply ws d)
unfolding apply
apply-append [] vs d = refl
apply-append (w ∷ ws) vs d = apply-append ws vs (update d w.0 w.1)

-- Block `c` is outside the log, which begins at `start`.
abbrev pub Outside : ℕ → ℕ → ℕ → Type 0
Outside start size c = (c < start) ⊎ (start + size ≤ c)

abbrev pub AllOutside : ℕ → ℕ → List ℕ → Type 0
AllOutside start size [] = Unit
AllOutside start size (b ∷ bs) = Outside start size b × AllOutside start size bs

abbrev pub member : ℕ → List ℕ → Bool
member c [] = false
member c (b ∷ bs) = c == b || member c bs

-- Writes that leave block `c` alone.
abbrev pub Spare : ℕ → List Write → Type 0
Spare c [] = Unit
Spare c (w ∷ ws) = (c ≢ w.0) × Spare c ws

pub apply-Spare : (c : ℕ) (ws : List Write) (d : Blocks) → Spare c ws → apply ws d c ≡ d c
unfolding apply
apply-Spare c [] d h = refl
apply-Spare c (w ∷ ws) d h = apply-Spare c ws (update d w.0 w.1) h.1 ∙ ground (arith, h.0)

pub take-Spare : (k c : ℕ) (ws : List Write) → Spare c ws → Spare c (take k ws)
take-Spare zero c ws h = tt
take-Spare (suc k) c [] h = tt
take-Spare (suc k) c (w ∷ ws) h = (h.0, take-Spare k c ws h.1)
