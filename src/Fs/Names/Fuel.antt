-- ===== src/Fs/Names/Fuel.antt =====
-- The fuel of the loop of `namex` in Xv6-Threads/src/fs.c.
use os_wsl.Prelude.{
  ℕ, zero, suc, ◌<◌, ◌≤◌, ◌≡◌, refl, sym, ap, ◌∙◌, Bool, Option, none, some, List, arith, length,
  if◌then◌else◌,
}
use os_wsl.Fs.{Superblock}
use os_wsl.Fs.Content.{Memory, Driver}
use os_wsl.Fs.Icache.{lock_at}
use os_wsl.Fs.Names.{
  World, Resolved, put_back, locked_round, namex_loop, next_element, copied_name, skipelem,
}
use os_wsl.Fs.Names.Elements.{Takes, next_element-Takes}

module _ (devsw : Driver) (sb : Superblock) (name de : ℕ) (parent : Bool) where
  abbrev Rest : Type 0
  Rest = ℕ → World → Resolved

  -- What a round does with an answer of skipelem, `on` being the rounds that follow.
  abbrev round : (List ℕ → Rest) → ℕ → World → Option (List ℕ × Memory) → Resolved
  round on i w none = if parent then put_back sb i none w else some (some i, w)
  round on i w (some (rest, mem)) =
      let w' = record w { memory = mem } in
      locked_round devsw sb name de parent i rest (on rest) w' (lock_at sb i w'.table w'.disk)

  namex_loop-round :
      (fuel : ℕ) (path : List ℕ) (i : ℕ) (w : World)
      → namex_loop devsw sb name de parent (suc fuel) path i w
        ≡ round (namex_loop devsw sb name de parent fuel) i w (skipelem name path w.memory)
  unfolding namex_loop
  namex_loop-round fuel path i w = by_case (skipelem name path w.memory)
    where
      by_case :
          (o : Option (List ℕ × Memory))
          → elim o [
            | none ↦ if parent then put_back sb i none w else some (some i, w)
            | some (rest, mem) ↦
                let w' = record w { memory = mem } in
                locked_round devsw sb name de parent i rest
                  (namex_loop devsw sb name de parent fuel rest)
                  w'
                  (lock_at sb i w'.table w'.disk)
          ]
            ≡ round (namex_loop devsw sb name de parent fuel) i w o
      by_case none = refl
      by_case (some (rest, mem)) = refl

  abbrev Shorter : List ℕ → Option (List ℕ × Memory) → Type 0
  Shorter path none = Unit
  Shorter path (some (rest, mem)) = suc (length rest) ≤ length path

  skipelem-Shorter : (path : List ℕ) (mem : Memory) → Shorter path (skipelem name path mem)
  unfolding skipelem
  skipelem-Shorter path mem = copied (next_element path) (next_element-Takes path)
    where
      copied : (o : Option (List ℕ × List ℕ)) → Takes path o → Shorter path (copied_name name mem o)
      copied none t = tt
      copied (some (e, rest)) (t, shorter) = shorter

  abbrev Agree : (List ℕ → Rest) → (List ℕ → Rest) → List ℕ → Type 0
  Agree f g q = (j : ℕ) (v : World) → f q j v ≡ g q j v

  round-same :
      (f g : List ℕ → Rest) (path : List ℕ) (i : ℕ) (w : World) (o : Option (List ℕ × Memory))
      → Shorter path o
      → ((q : List ℕ) → suc (length q) ≤ length path → Agree f g q)
      → round f i w o ≡ round g i w o
  round-same f g path i w none shorter same = refl
  round-same f g path i w (some (rest, mem)) shorter same =
      let w' = record w { memory = mem } in
      let on : f rest ≡ g rest = λ k j v. same rest shorter j v k in
      ap (λ h. locked_round devsw sb name de parent i rest h w' (lock_at sb i w'.table w'.disk)) on

  -- Two amounts of fuel that are more than the bytes of the path give the same result, from every inode
  -- and every state.
  pub namex_loop-enough :
      (f g : ℕ) (path : List ℕ)
      → length path < f
      → length path < g
      → (i : ℕ) (w : World)
      → namex_loop devsw sb name de parent f path i w
        ≡ namex_loop devsw sb name de parent g path i w
  namex_loop-enough zero g path lf lg i w = absurd (omega arith)
  namex_loop-enough (suc f) zero path lf lg i w = absurd (omega arith)
  namex_loop-enough (suc f) (suc g) path lf lg i w =
      namex_loop-round f path i w
      ∙ round-same (namex_loop devsw sb name de parent f) (namex_loop devsw sb name de parent g)
          path i w (skipelem name path w.memory) (skipelem-Shorter path w.memory)
          (λ q s j v. namex_loop-enough f g q (omega arith) (omega arith) j v)
      ∙ sym (namex_loop-round g path i w)
