-- ===== src/Fs/Dir/Link.antt =====
-- `dirlink` of Xv6-Threads/src/fs.c adds an entry to a directory.
use mathlib.Core.Path.{subst}
use os_wsl.Prelude.{
  ℕ, zero, suc, ◌+◌, ◌-◌, ◌*◌, ◌/◌, ◌%◌, ◌<◌, ◌≤◌, ◌≡◌, ◌≢◌, ◌⊎◌, inl, inr, refl, sym, ap, ◌∙◌,
  true, false, ◌&&◌, Option, none, some, List, ◌∷◌, arith, ltb, leb, ◌==◌, if◌then◌else◌,
  Bool-cases,
}
use os_wsl.String.{poke, strncpy}
use os_wsl.String.Comparing.{text}
use os_wsl.String.Copying.{padded, strncpy_lem}
use os_wsl.Fs.{Superblock, Bytes}
use os_wsl.Fs.Free.{free_blocks}
use os_wsl.Fs.Inode.{Inode}
use os_wsl.Fs.Inode.Spots.{content}
use os_wsl.Fs.Content.{Memory, Driver, Result, writei}
use os_wsl.Fs.Content.Reading.{Holds}
use os_wsl.Fs.Content.Writing.{Written}
use os_wsl.Fs.Content.File.{grown, WriteiGives, writei_lem}
use os_wsl.Fs.Dir.{inum_at, new_entry, linked, link_at}
use os_wsl.Fs.Dir.Entries.{find, same_name, text-same}
use os_wsl.Fs.Dir.Lookup.{AreBytes, name-kept}
use os_wsl.Fs.Dir.FreeEntry.{slot, slot-range, slot-unused, EmptyAt}
use os_wsl.Fs.Dir.Update.{Updated, find-inside, find-appended}

-- A copy that strncpy has filled with zeros has the text of the string.
text-padded :
    (n p t : ℕ) (m m' : Memory)
    → ((i : ℕ) → i < n → m' (p + i) ≡ padded t i m)
    → text p n m' ≡ text t n m
text-padded zero p t m m' h = refl
text-padded (suc n) p t m m' h =
    let start : p ≡ p + 0 = omega arith in
    let first : m' p ≡ m t = ap m' start ∙ h 0 (omega arith) in
    elim (Bool-cases (m t == 0)) [
      | inl e ↦ rw first (rw e refl)
      | inr e ↦ rw first (rw e (ap (λ l. m t ∷ l) (text-padded n (p + 1) (t + 1) m m' (later e))))
    ]
  where
    later : (m t == 0) ≡ false → (i : ℕ) → i < n → m' (p + 1 + i) ≡ padded (t + 1) i m
    later e i lt =
        let next : p + 1 + i ≡ p + suc i = omega arith in
        ap m' next ∙ h (suc i) (omega arith) ∙ rw e refl

-- The bytes of the new entry.
entry_inum :
    (name de inum : ℕ) (mem : Memory)
    → inum < 65536
    → inum_at de (new_entry name de inum mem) ≡ inum
entry_inum name de inum mem small = ground arith

entry_name :
    (name de inum : ℕ) (mem : Memory)
    → (name + 14 ≤ de) ⊎ (de + 16 ≤ name)
    → text (de + 2) 14 (new_entry name de inum mem) ≡ text name 14 mem
entry_name name de inum mem apart =
    text-padded 14 (de + 2) name mem (new_entry name de inum mem) bytes
  where
    bytes : (i : ℕ) → i < 14 → new_entry name de inum mem (de + 2 + i) ≡ padded name i mem
    bytes i lt =
        behind (strncpy (de + 2) name 14 mem) i
        ∙ strncpy_lem 14 (de + 2) name mem (de + 2 + i) (ground arith)
        ∙ inside i lt
      where
        behind :
            (m : Memory) (i : ℕ)
            → poke (de + 1) (inum / 256 % 256) (poke de (inum % 256) m) (de + 2 + i)
              ≡ m (de + 2 + i)
        behind m i = ground arith

        inside :
            (i : ℕ)
            → i < 14
            → (if leb (de + 2) (de + 2 + i) && ltb (de + 2 + i) (de + 2 + 14)
                then padded name (de + 2 + i - (de + 2)) mem
                else mem (de + 2 + i))
              ≡ padded name i mem
        inside i lt =
            let within : (leb (de + 2) (de + 2 + i) && ltb (de + 2 + i) (de + 2 + 14)) ≡ true =
              ground arith in
            let at : de + 2 + i - (de + 2) ≡ i = omega arith in
            rw within (ap (λ k. padded name k mem) at)

-- The directory after the write of the entry.
written-Updated :
    (file file' : ℕ → ℕ) (name de inum j : ℕ) (mem : Memory)
    → Written file (new_entry name de inum mem) de (16 * j) 16 file'
    → (name + 14 ≤ de) ⊎ (de + 16 ≤ name)
    → inum ≢ 0
    → inum < 65536
    → Updated file file' 4480 j inum (text name 14 mem)
written-Updated file file' name de inum j mem w apart nz small = record {
  number =
      let start : 16 * j ≡ 16 * j + 0 = omega arith in
      let from : de + 0 ≡ de = omega arith in
      let low : file' (16 * j) ≡ new_entry name de inum mem de =
        ap file' start ∙ w.0 0 (omega arith) ∙ ap (new_entry name de inum mem) from in
      omega (arith, low, w.0 1 (omega arith), entry_inum name de inum mem small);
  nonzero = nz;
  name =
      text-same 14 (16 * j + 2) (de + 2) file' (new_entry name de inum mem) (λ i lt.
        let there : 16 * j + 2 + i ≡ 16 * j + (2 + i) = omega arith in
        let here : de + (2 + i) ≡ de + 2 + i = omega arith in
        ap file' there ∙ w.0 (2 + i) (omega arith) ∙ ap (new_entry name de inum mem) here)
      ∙ entry_name name de inum mem apart;
  inum_same = λ k lt ne. omega (
    arith,
    w.1 (16 * k) (omega arith) (omega arith),
    w.1 (16 * k + 1) (omega arith) (omega arith),
  );
  name_same = λ k lt ne.
      text-same 14 (16 * k + 2) (16 * k + 2) file' file
        (λ i l. w.1 (16 * k + 2 + i) (omega arith) (omega arith));
}

-- What the end of `dirlink` gives for the name `nm` and a directory of `n` entries: the directory has one entry more for a
-- search, under that name, or `writei` has panicked for want of free blocks.
abbrev pub LinkGives : Superblock → Inode → Bytes → List ℕ → ℕ → ℕ → Option Result → Type 0
LinkGives sb ip st nm n inum none = free_blocks sb st < 2
LinkGives sb ip st nm n inum (some (k, ip', st', mem')) =
    (k ≡ 0)
    × Holds sb ip' st'
    × ((m : ℕ) × (off : ℕ) × (ip'.size ≡ 16 * m)
        × ((t : List ℕ)
            → find (content ip'.addrs st') t m 0
              ≡ (if same_name t nm then some (inum, off) else find (content ip.addrs st) t n 0)))

-- After the write of entry `j`, the first that was not in use or the one behind them.
written-find :
    (file file' : ℕ → ℕ) (inum n : ℕ) (nm : List ℕ)
    → 16 * n + 16 ≤ 71680
    → Updated file file' 4480 (slot file n 0) inum nm
    → find file nm n 0 ≡ none
    → (m : ℕ) × ((grown (16 * n) (16 * slot file n 0) 16 ≡ 16 * m)
        × ((t : List ℕ)
            → find file' t m 0
              ≡ (if same_name t nm then some (inum, 16 * slot file n 0) else find file t n 0)))
written-find file file' inum n nm small up absent =
    let (lo, hi) = slot-range file n 0 in
    elim (Bool-cases (ltb (slot file n 0) n)) [
      | inl e ↦ (
        n,
        (
          ground arith,
          λ t.
              find-inside file file' 4480 (slot file n 0) inum nm up t n 0 lo (ground arith)
                (omega arith) (slot-unused file n 0 (ground arith)) absent,
        ),
      )
      | inr e ↦ (
        suc n,
        (
          ground arith,
          λ t.
              find-appended file file' 4480 (slot file n 0) inum nm up t n 0 (ground arith)
                (ground arith) absent,
        ),
      )
    ]

linked-Gives :
    (sb : Superblock) (ip : Inode) (st : Bytes) (name de inum n : ℕ) (mem : Memory) (nm : List ℕ)
    (o : Option Result)
    → text name 14 mem ≡ nm
    → (name + 14 ≤ de) ⊎ (de + 16 ≤ name)
    → inum ≢ 0
    → inum < 65536
    → ip.size ≡ 16 * n
    → 16 * n + 16 ≤ 71680
    → find (content ip.addrs st) nm n 0 ≡ none
    → WriteiGives sb
        (new_entry name de inum mem)
        ip
        st
        de
        (16 * slot (content ip.addrs st) n 0)
        16
        o
    → LinkGives sb ip st nm n inum (linked o)
linked-Gives sb ip st name de inum n mem nm none same apart nz small whole fits absent full =
    omega arith
linked-Gives sb ip st name de inum n mem nm (some (k, ip', st', mem')) same apart nz small whole
      fits absent (all, same_mem, rest, holds, written) =
    let j = slot (content ip.addrs st) n 0 in
    let up : Updated (content ip.addrs st) (content ip'.addrs st') 4480 j inum nm =
      subst (Updated (content ip.addrs st) (content ip'.addrs st') 4480 j inum) same (
        written-Updated (content ip.addrs st) (content ip'.addrs st') name de inum j mem written
          apart nz small) in
    let (m, (size, finds)) =
      written-find (content ip.addrs st) (content ip'.addrs st') inum n nm fits up absent in
    let sixteen : (k == 16) ≡ true = ground arith in
    rw sixteen (
      refl,
      holds,
      (m, 16 * j, ap Inode.size rest ∙ ap (λ z. grown z (16 * j) 16) whole ∙ size, finds),
    )

module _ (devsw : Driver) (sb : Superblock) (name de inum n : ℕ) (ip : Inode) (st : Bytes)
    (holds : Holds sb ip st) (bytes : AreBytes (content ip.addrs st))
    (apart : (name + 14 ≤ de) ⊎ (de + 16 ≤ name)) (nz : inum ≢ 0) (small : inum < 65536)
    (whole : ip.size ≡ 16 * n) (fits : 16 * n + 16 ≤ 71680) where
  pub link_at-Gives :
      (mem : Memory) (nm : List ℕ) (o : Option (ℕ × Inode × Bytes × Memory))
      → text name 14 mem ≡ nm
      → find (content ip.addrs st) nm n 0 ≡ none
      → EmptyAt ip st de mem (16 * slot (content ip.addrs st) n 0) o
      → LinkGives sb ip st nm n inum (link_at devsw sb name de inum o)
  unfolding link_at
  link_at-Gives mem nm none same absent h = absurd h
  link_at-Gives mem nm (some (off, ip', st', mem')) same absent (at, same_ip, same_st, out, b) =
      let (lo, hi) = slot-range (content ip.addrs st) n 0 in
      let j = slot (content ip.addrs st) n 0 in
      let mem2 = new_entry name de inum mem' in
      let given =
        linked-Gives sb ip st name de inum n mem' nm (writei devsw sb de (16 * j) 16 ip st mem2)
          (name-kept de name mem mem' apart out ∙ same) apart nz small whole fits absent
          (writei_lem devsw sb de (16 * j) 16 ip st mem2 holds (omega arith) (omega arith)
            (omega arith)) in
      subst (λ o. LinkGives sb ip st nm n inum (linked (writei devsw sb de o 16 ip' st' mem2)))
        (sym at)
        (subst
          (λ p. LinkGives sb ip st nm n inum (linked (writei devsw sb de (16 * j) 16 p st' mem2)))
          (sym same_ip)
          (subst
            (λ s. LinkGives sb ip st nm n inum (linked (writei devsw sb de (16 * j) 16 ip s mem2)))
            (sym same_st) given))
