-- ===== src/Fs/Dir/Update.antt =====
-- A directory of Xv6-Threads/src/fs.c with one more entry.
use os_wsl.Prelude.{
  ℕ, zero, suc, ◌+◌, ◌*◌, ◌<◌, ◌≤◌, ◌≡◌, ◌≢◌, inl, inr, refl, sym, ap, ap₂, ◌∙◌, Bool, true, false,
  none, some, List, arith, ◌==◌, if◌then◌else◌, Bool-cases, ==_iff,
}
use os_wsl.String.Comparing.{text}
use os_wsl.Fs.Dir.{Found, inum_at}
use os_wsl.Fs.Dir.Entries.{find, same_name, same_name_iff}

abbrev name_of : (ℕ → ℕ) → ℕ → List ℕ
name_of file k = text (16 * k + 2) 14 file

-- Entry `j` is new, the others below `top` are as they were.
pub record Updated (file file' : ℕ → ℕ) (top j inum : ℕ) (nm : List ℕ) : Type 0 where
  pub number : inum_at (16 * j) file' ≡ inum
  pub nonzero : inum ≢ 0
  pub name : name_of file' j ≡ nm
  pub inum_same : (k : ℕ) → k < top → k ≢ j → inum_at (16 * k) file' ≡ inum_at (16 * k) file
  pub name_same : (k : ℕ) → k < top → k ≢ j → name_of file' k ≡ name_of file k

-- One entry of a search.
abbrev at_entry : ℕ → Bool → ℕ → Found → Found
at_entry inum same off rest = if inum == 0 then rest else (if same then some (inum, off) else rest)

module _ (file file' : ℕ → ℕ) (top j inum : ℕ) (nm : List ℕ)
    (up : Updated file file' top j inum nm) where
  same_entry :
      (t : List ℕ) (n k : ℕ)
      → k < top
      → k ≢ j
      → find file' t (suc n) k
        ≡ at_entry
            (inum_at (16 * k) file)
            (same_name t (name_of file k))
            (16 * k)
            (find file' t n (k + 1))
  same_entry t n k lt ne =
      ap₂ (λ a b. at_entry a (same_name t b) (16 * k) (find file' t n (k + 1)))
        (up.inum_same k lt ne) (up.name_same k lt ne)

  -- Behind the new entry.
  find-behind : (t : List ℕ) (n k : ℕ) → j < k → k + n ≤ top → find file' t n k ≡ find file t n k
  find-behind t zero k lt le = refl
  find-behind t (suc n) k lt le =
      same_entry t n k (omega arith) (omega arith)
      ∙ ap (at_entry (inum_at (16 * k) file) (same_name t (name_of file k)) (16 * k))
          (find-behind t n (k + 1) (omega arith) (omega arith))

  abbrev answer : List ℕ → Found → Found
  answer t old = if same_name t nm then some (inum, 16 * j) else old

  -- The new entry itself.
  find-new : (t : List ℕ) (n : ℕ) → find file' t (suc n) j ≡ answer t (find file' t n (j + 1))
  find-new t n =
      ap₂ (λ a b. at_entry a (same_name t b) (16 * j) (find file' t n (j + 1))) up.number up.name
      ∙ in_use (same_name t nm)
    where
      in_use :
          (b : Bool)
          → at_entry inum b (16 * j) (find file' t n (j + 1))
            ≡ (if b then some (inum, 16 * j) else find file' t n (j + 1))
      in_use b = let some_inode : (inum == 0) ≡ false = other up.nonzero in rw some_inode refl
        where
          other : inum ≢ 0 → (inum == 0) ≡ false
          other ne = ground arith

  -- An entry before it, which does not have the new name.
  before :
      (t : List ℕ) (a off : ℕ) (old : List ℕ) (rest : Found)
      → at_entry a (same_name nm old) off none ≡ none
      → at_entry a (same_name t old) off (answer t rest)
        ≡ answer t (at_entry a (same_name t old) off rest)
  before t a off old rest absent = elim (Bool-cases (a == 0)) [
    | inl e ↦ rw e refl
    | inr e ↦ elim (Bool-cases (same_name t nm)) [
      | inr f ↦ rw (e, f) refl
      | inl f ↦
          let same : t ≡ nm = (same_name_iff t nm).0 f in
          elim (Bool-cases (same_name t old)) [
            | inr g ↦ rw (e, f, g) refl
            | inl g ↦
                let matched : same_name nm old ≡ true = ap (λ z. same_name z old) (sym same) ∙ g in
                let found : some (a, off) ≡ none = sym (there e matched) ∙ absent in
                absurd (full found)
          ]
    ]
  ]
    where
      there :
          (a == 0) ≡ false
          → same_name nm old ≡ true
          → at_entry a (same_name nm old) off none ≡ some (a, off)
      there e g = rw (e, g) refl

      full : {x : ℕ × ℕ} → ¬ (some x ≡ none)
      full h = cc

  absent_split :
      (a off : ℕ) (same : Bool) (rest : Found)
      → at_entry a same off rest ≡ none
      → (at_entry a same off none ≡ none) × (rest ≡ none)
  absent_split a off same rest h = elim (Bool-cases (a == 0)) [
    | inl e ↦ let r : rest ≡ none = rw e at h in rw e (refl, r)
    | inr e ↦ either same h e
  ]
    where
      either :
          (b : Bool)
          → at_entry a b off rest ≡ none
          → (a == 0) ≡ false
          → (at_entry a b off none ≡ none) × (rest ≡ none)
      either true h e = let full : some (a, off) ≡ none = rw e at h in absurd (not_none full)
        where
          not_none : {x : ℕ × ℕ} → ¬ (some x ≡ none)
          not_none h = cc
      either false h e = let r : rest ≡ none = rw e at h in rw e (refl, r)

  -- The new entry took the place of one that was not in use.
  pub find-inside :
      (t : List ℕ) (n k : ℕ)
      → k ≤ j
      → j < k + n
      → k + n ≤ top
      → inum_at (16 * j) file ≡ 0
      → find file nm n k ≡ none
      → find file' t n k ≡ answer t (find file t n k)
  find-inside t zero k lo hi le unused absent = absurd (omega arith)
  find-inside t (suc n) k lo hi le unused absent =
      let (here, rest) =
        absent_split (inum_at (16 * k) file) (16 * k) (same_name nm (name_of file k))
          (find file nm n (k + 1)) absent in
      elim (Bool-cases (k == j)) [
        | inl e ↦
            let this : k ≡ j = (==_iff k j).0 e in
            let was : inum_at (16 * k) file ≡ 0 = ap (λ i. inum_at (16 * i) file) this ∙ unused in
            ap (find file' t (suc n)) this
            ∙ find-new t n
            ∙ ap (answer t) (
                ap (λ i. find file' t n (i + 1)) (sym this)
                ∙ find-behind t n (k + 1) (omega arith) (omega arith)
                ∙ skipped (find file t n (k + 1)) (same_name t (name_of file k)) was)
        | inr e ↦
            let ne : k ≢ j = apart e in
            same_entry t n k (omega arith) ne
            ∙ ap (at_entry (inum_at (16 * k) file) (same_name t (name_of file k)) (16 * k))
                (find-inside t n (k + 1) (omega arith) (omega arith) (omega arith) unused rest)
            ∙ before t (inum_at (16 * k) file) (16 * k) (name_of file k) (find file t n (k + 1))
                here
      ]
    where
      apart : (k == j) ≡ false → k ≢ j
      apart e f = ground arith

      skipped :
          (old : Found) (b : Bool)
          → inum_at (16 * k) file ≡ 0
          → old ≡ at_entry (inum_at (16 * k) file) b (16 * k) old
      skipped old b e = let z : (inum_at (16 * k) file == 0) ≡ true = ground arith in rw z refl

  -- The new entry stands behind the others.
  pub find-appended :
      (t : List ℕ) (n k : ℕ)
      → k + n ≡ j
      → j < top
      → find file nm n k ≡ none
      → find file' t (suc n) k ≡ answer t (find file t n k)
  find-appended t zero k at le absent =
      let this : k ≡ j = omega arith in ap (find file' t 1) this ∙ find-new t 0
  find-appended t (suc n) k at le absent =
      let (here, rest) =
        absent_split (inum_at (16 * k) file) (16 * k) (same_name nm (name_of file k))
          (find file nm n (k + 1)) absent in
      same_entry t (suc n) k (omega arith) (omega arith)
      ∙ ap (at_entry (inum_at (16 * k) file) (same_name t (name_of file k)) (16 * k))
          (find-appended t n (k + 1) (omega arith) le rest)
      ∙ before t (inum_at (16 * k) file) (16 * k) (name_of file k) (find file t n (k + 1)) here
