-- ===== src/Fs/Dir/Lookup.antt =====
-- The search of `dirlookup` of Xv6-Threads/src/fs.c finds the first entry with the name.
use mathlib.Core.Path.{subst}
use os_wsl.Prelude.{
  ℕ, zero, suc, ◌+◌, ◌-◌, ◌*◌, ◌/◌, ◌<◌, ◌≤◌, ◌≡◌, ◌⊎◌, inl, inr, refl, sym, ap, ap₂, ◌∙◌, Bool,
  true, false, Option, none, some, arith, u32, ltb, ltb→lt, lt→ltb, ◌==◌, if◌then◌else◌, Bool-cases,
}
use os_wsl.String.{strncmp}
use os_wsl.String.Comparing.{text, strncmp_iff}
use os_wsl.Fs.{Superblock, Bytes}
use os_wsl.Fs.Inode.{Inode, t_dir}
use os_wsl.Fs.Inode.Spots.{content}
use os_wsl.Fs.Content.{Memory, Driver, Result, readi}
use os_wsl.Fs.Content.Reading.{Holds, Delivered, readable, readi_lem}
use os_wsl.Fs.Dir.{inum_at, Found, Search, judge, dir_loop, dir_search}
use os_wsl.Fs.Dir.Entries.{find, same_name, text-same, test_same}

-- Every byte is a byte.
abbrev pub AreBytes : Memory → Type 0
AreBytes m = (x : ℕ) → m x < 256

-- Memory outside the 16 bytes at `de` is as it was.
abbrev pub Outside : ℕ → Memory → Memory → Type 0
Outside de mem mem' = (x : ℕ) → (x < de) ⊎ (de + 16 ≤ x) → mem' x ≡ mem x

-- An entry in memory against the same entry in the file.
pub entry-inum :
    (file : ℕ → ℕ) (off de : ℕ) (mem mem' : Memory)
    → Delivered file off de 16 mem mem'
    → inum_at de mem' ≡ inum_at off file
entry-inum file off de mem mem' d =
    let first : de ≡ de + 0 = omega arith in
    let start : off + 0 ≡ off = omega arith in
    let low : mem' de ≡ file off = ap mem' first ∙ d.0 0 (omega arith) ∙ ap file start in
    omega (arith, low, d.0 1 (omega arith))

entry-name :
    (file : ℕ → ℕ) (off de : ℕ) (mem mem' : Memory)
    → Delivered file off de 16 mem mem'
    → text (de + 2) 14 mem' ≡ text (off + 2) 14 file
entry-name file off de mem mem' d = text-same 14 (de + 2) (off + 2) mem' file (λ i lt.
    let there : de + 2 + i ≡ de + (i + 2) = omega arith in
    let here : off + (i + 2) ≡ off + 2 + i = omega arith in
    ap mem' there ∙ d.0 (i + 2) (omega arith) ∙ ap file here)

pub name-kept :
    (de name : ℕ) (mem mem' : Memory)
    → (name + 14 ≤ de) ⊎ (de + 16 ≤ name)
    → Outside de mem mem'
    → text name 14 mem' ≡ text name 14 mem
name-kept de name mem mem' apart out =
    text-same 14 name name mem' mem (λ i lt. out (name + i) (ground arith))

pub Delivered-AreBytes :
    (file : ℕ → ℕ) (off de : ℕ) (mem mem' : Memory)
    → AreBytes file
    → AreBytes mem
    → Delivered file off de 16 mem mem'
    → AreBytes mem'
Delivered-AreBytes file off de mem mem' bf bm d x = elim (Bool-cases (ltb x de)) [
  | inl e ↦ outside (inl (ltb→lt x de e))
  | inr e ↦ elim (Bool-cases (ltb x (de + 16))) [
    | inl f ↦
        let there : x ≡ de + (x - de) = ground arith in
        let lt : x - de < 16 = ground arith in
        omega (arith, ap mem' there, d.0 (x - de) lt, bf (off + (x - de)))
    | inr f ↦ outside (inr (ground arith))
  ]
]
  where
    outside : (x < de) ⊎ (de + 16 ≤ x) → mem' x < 256
    outside out = omega (arith, d.1 x out, bm x)

-- What a search gives that changes no byte but those of `de`.
abbrev pub LooksUp : Inode → Bytes → ℕ → Memory → Found → Option Search → Type 0
LooksUp ip st de mem found none = ⊥
LooksUp ip st de mem found (some (f, ip', st', mem')) =
    (f ≡ found) × (ip' ≡ ip) × (st' ≡ st) × Outside de mem mem' × AreBytes mem'

judge-LooksUp :
    (name de k n : ℕ) (on : Inode → Bytes → Memory → Option Search) (ip : Inode) (st : Bytes)
    (mem mem' : Memory)
    → (name + 14 ≤ de) ⊎ (de + 16 ≤ name)
    → AreBytes mem'
    → Delivered (content ip.addrs st) (16 * k) de 16 mem mem'
    → LooksUp ip st de mem'
        (find (content ip.addrs st) (text name 14 mem') n (k + 1))
        (on ip st mem')
    → LooksUp ip st de mem
        (find (content ip.addrs st) (text name 14 mem) (suc n) k)
        (judge name de (16 * k) on (16, ip, st, mem'))
judge-LooksUp name de k n on ip st mem mem' apart bytes d rest =
    let file = content ip.addrs st in
    let num = entry-inum file (16 * k) de mem mem' d in
    let kept : text name 14 mem' ≡ text name 14 mem = name-kept de name mem mem' apart d.1 in
    let test : (strncmp name (de + 2) 14 mem' == 0)
        ≡ same_name (text name 14 mem) (text (16 * k + 2) 14 file) =
      test_same (text name 14 mem') (text (de + 2) 14 mem') (strncmp name (de + 2) 14 mem')
        (strncmp_iff mem' bytes 14 name (de + 2))
      ∙ ap₂ same_name kept (entry-name file (16 * k) de mem mem' d) in
    let later =
      weaker (on ip st mem')
        (subst (λ t. LooksUp ip st de mem' (find file t n (k + 1)) (on ip st mem')) kept rest) in
    pick (inum_at de mem') (inum_at (16 * k) file) (strncmp name (de + 2) 14 mem' == 0)
      (same_name (text name 14 mem) (text (16 * k + 2) 14 file)) num test later
  where
    weaker :
        (o : Option Search)
        → LooksUp ip st de mem' (find (content ip.addrs st) (text name 14 mem) n (k + 1)) o
        → LooksUp ip st de mem (find (content ip.addrs st) (text name 14 mem) n (k + 1)) o
    weaker none h = h
    weaker (some (f, ip', st', mem2)) (found, same_ip, same_st, out, b) =
        (found, same_ip, same_st, λ x o. out x o ∙ d.1 x o, b)

    pick :
        (a b : ℕ) (s t : Bool)
        → a ≡ b
        → s ≡ t
        → LooksUp ip st de mem
            (find (content ip.addrs st) (text name 14 mem) n (k + 1))
            (on ip st mem')
        → LooksUp ip st de mem
            (if b == 0
              then find (content ip.addrs st) (text name 14 mem) n (k + 1)
              else (if t
                  then some (b, 16 * k)
                  else find (content ip.addrs st) (text name 14 mem) n (k + 1)))
            (if a == 0
              then on ip st mem'
              else (if s then some (some (a, 16 * k), ip, st, mem') else on ip st mem'))
    pick a b s true e f h = elim (Bool-cases (b == 0)) [
      | inl z ↦ rw (e, f) (rw z h)
      | inr z ↦ rw (e, f) (rw z (refl, refl, refl, d.1, bytes))
    ]
    pick a b s false e f h = elim (Bool-cases (b == 0)) [
      | inl z ↦ rw (e, f) (rw z h)
      | inr z ↦ rw (e, f) (rw z h)
    ]

-- What stays the same over the loop.
module _ (devsw : Driver) (sb : Superblock) (name de : ℕ) (ip : Inode) (st : Bytes)
    (holds : Holds sb ip st) (bytes : AreBytes (content ip.addrs st))
    (apart : (name + 14 ≤ de) ⊎ (de + 16 ≤ name)) where
  pub read_entry :
      (k : ℕ) (mem : Memory)
      → 16 * k + 16 ≤ ip.size
      → (mem' : Memory) × ((readi devsw sb de (16 * k) 16 ip st mem ≡ some (16, ip, st, mem'))
          × Delivered (content ip.addrs st) (16 * k) de 16 mem mem')
  read_entry k mem le =
      let bound = holds.bounded in
      let (mem', (ran, d)) =
        readi_lem devsw sb de (16 * k) 16 ip st mem holds (omega arith) (omega arith) in
      let all : readable ip.size (16 * k) 16 ≡ 16 = omega arith in
      (
        mem',
        (
          ran ∙ ap (λ n. some (n, ip, st, mem')) all,
          subst (λ n. Delivered (content ip.addrs st) (16 * k) de n mem mem') all d,
        ),
      )

  loop_step :
      (fuel k : ℕ) (mem mem' : Memory)
      → 16 * k + 16 ≤ ip.size
      → readi devsw sb de (16 * k) 16 ip st mem ≡ some (16, ip, st, mem')
      → dir_loop devsw sb (suc fuel) (16 * k) name de ip st mem
        ≡ judge name de
            (16 * k)
            (dir_loop devsw sb fuel (u32 (16 * k + 16)) name de)
            (16, ip, st, mem')
  unfolding dir_loop
  loop_step fuel k mem mem' le ran =
      rw (lt→ltb (16 * k) ip.size (omega arith))
        (opened (readi devsw sb de (16 * k) 16 ip st mem) ran)
    where
      opened :
          (o : Option Result)
          → o ≡ some (16, ip, st, mem')
          → (elim o [
            | none ↦ none
            | some r ↦ judge name de (16 * k) (dir_loop devsw sb fuel (u32 (16 * k + 16)) name de) r
          ])
            ≡ judge name de
                (16 * k)
                (dir_loop devsw sb fuel (u32 (16 * k + 16)) name de)
                (16, ip, st, mem')
      opened o e = rw e refl

  loop_end :
      (fuel k : ℕ) (mem : Memory)
      → ip.size ≤ 16 * k
      → dir_loop devsw sb (suc fuel) (16 * k) name de ip st mem ≡ some (none, ip, st, mem)
  unfolding dir_loop
  loop_end fuel k mem le = let over : ltb (16 * k) ip.size ≡ false = ground arith in rw over refl

  dir_loop-LooksUp :
      (fuel n k : ℕ) (mem : Memory)
      → n < fuel
      → 16 * k + 16 * n ≡ ip.size
      → AreBytes mem
      → LooksUp ip st de mem
          (find (content ip.addrs st) (text name 14 mem) n k)
          (dir_loop devsw sb fuel (16 * k) name de ip st mem)
  dir_loop-LooksUp zero n k mem lt e bm = absurd (omega arith)
  dir_loop-LooksUp (suc fuel) zero k mem lt e bm =
      subst (LooksUp ip st de mem none) (sym (loop_end fuel k mem (omega arith)))
        (refl, refl, refl, λ x o. refl, bm)
  dir_loop-LooksUp (suc fuel) (suc n) k mem lt e bm =
      let (mem', (ran, d)) = read_entry k mem (omega arith) in
      let bound = holds.bounded in
      let next : u32 (16 * k + 16) ≡ 16 * (k + 1) = omega arith in
      let bm' = Delivered-AreBytes (content ip.addrs st) (16 * k) de mem mem' bytes bm d in
      let rest = dir_loop-LooksUp fuel n (k + 1) mem' (omega arith) (omega arith) bm' in
      subst (LooksUp ip st de mem (find (content ip.addrs st) (text name 14 mem) (suc n) k))
        (sym (loop_step fuel k mem mem' (omega arith) ran))
        (judge-LooksUp name de k n (dir_loop devsw sb fuel (u32 (16 * k + 16)) name de) ip st mem
          mem' apart bm' d
          (subst
            (λ o.
              LooksUp ip st de mem' (find (content ip.addrs st) (text name 14 mem') n (k + 1))
                (dir_loop devsw sb fuel o name de ip st mem'))
            (sym next) rest))

-- The search as a whole, up to the number that is found.
pub dir_search_lem :
    (devsw : Driver) (sb : Superblock) (name de n : ℕ) (ip : Inode) (st : Bytes) (mem : Memory)
    → Holds sb ip st
    → ip.type ≡ t_dir
    → ip.size ≡ 16 * n
    → AreBytes (content ip.addrs st)
    → AreBytes mem
    → (name + 14 ≤ de) ⊎ (de + 16 ≤ name)
    → LooksUp ip st de mem
        (find (content ip.addrs st) (text name 14 mem) n 0)
        (dir_search devsw sb name de ip st mem)
unfolding dir_search
dir_search_lem devsw sb name de n ip st mem holds dir whole bf bm apart =
    let is_dir : (ip.type == t_dir) ≡ true = ground arith in
    rw is_dir (
      dir_loop-LooksUp devsw sb name de ip st holds bf apart (ip.size / 16 + 1) n 0 mem
        (omega arith) (omega arith) bm)
