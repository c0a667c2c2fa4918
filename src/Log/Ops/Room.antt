-- ===== src/Log/Ops/Room.antt =====
-- The room that begin_op of Xv6-Threads/src/log.c reserves for the writes of the operations it admits, and
-- how far `log_write` gets with it.
use os_wsl.Prelude.{
  remove, length-remove, ℕ, zero, suc, ◌+◌, ◌*◌, ◌≤◌, ◌<◌, ◌≡◌, refl, sym, ◌∙◌, Bool, true, false,
  ◌||◌, none, some, if◌then◌else◌, List, [], ◌∷◌, arith, length, length-set, get_elem?, inl, inr,
  Bool-cases, leb, int_lt, u32, ◌==◌,
}
use mathlib.Core.Path.{subst}
use os_wsl.Log.Ops.{
  LogState, begun, begin_sleeps, begin_op, end_op, committed, absorb, log_write, maxopblocks,
  logsize,
}
use os_wsl.Log.Ops.Budget.{
  total, System, Step, begins, writes, ends, commits, Reach, fresh, next, Fits, total-set,
  total-remove, length-absorb, total-Each, set-Each, remove-Each,
}

log_write-some :
    (size b : ℕ) (l l' : LogState)
    → log_write size b l ≡ some l'
    → l' ≡ record l { lh = absorb b l.lh }
unfolding log_write
log_write-some size b l l' h =
    elim (Bool-cases (leb logsize (length l.lh) || leb size (length l.lh + 1))) [
      | inl e ↦ let bad : none ≡ some l' = rw e at h in absurd cc
      | inr e ↦ elim (Bool-cases (int_lt l.outstanding 1)) [
        | inl z ↦ let bad : none ≡ some l' = rw (e, z) at h in absurd cc
        | inr z ↦ let good : some (record l { lh = absorb b l.lh }) ≡ some l' = rw (e, z) at h in cc
      ]
    ]

begin_op-Fits :
    (l : LogState) (bs : List ℕ)
    → (begin_op l).0 ≡ begun
    → Fits (record { log = l; budgets = bs })
    → Fits (record { log = (begin_op l).1; budgets = maxopblocks ∷ bs })
unfolding begin_op
begin_op-Fits l bs h f = elim (Bool-cases l.committing) [
  | inl e ↦ let bad : begin_sleeps ≡ begun = rw e at h in absurd cc
  | inr e ↦
      elim (Bool-cases (int_lt logsize (u32 (length l.lh + (l.outstanding + 1) * maxopblocks)))) [
        | inl z ↦ let bad : begin_sleeps ≡ begun = rw (e, z) at h in absurd cc
        | inr z ↦ rw e (
            rw z (record {
              counted = omega (arith, f.counted, f.few);
              room = ground (arith, f.counted, f.room, total-Each bs f.small);
              few = ground (arith, f.counted);
              small = (omega arith, f.small);
              quiet = refl;
            }))
      ]
]

end_op-Fits :
    (l l' : LogState) (bs : List ℕ) (i r : ℕ) (last : Bool)
    → get_elem? bs i ≡ some r
    → end_op l ≡ some (last, l')
    → Fits (record { log = l; budgets = bs })
    → Fits (record { log = l'; budgets = remove bs i })
unfolding end_op
end_op-Fits l l' bs i r last at h f =
    let one_less : length (remove bs i) + 1 ≡ length bs = length-remove bs i r at in
    let room : total (remove bs i) ≤ total bs = total-remove bs i in
    elim (Bool-cases l.committing) [
      | inl e ↦ let bad : none ≡ some (last, l') = rw e at h in absurd cc
      | inr e ↦ elim (Bool-cases (u32 (l.outstanding + 4294967295) == 0)) [
        | inl z ↦
            let good : some (
              true,
              record l { outstanding = u32 (l.outstanding + 4294967295); committing = true },
            )
                ≡ some (last, l') =
              rw (e, z) at h in
            let same : record l {
              outstanding = u32 (l.outstanding + 4294967295);
              committing = true;
            }
                ≡ l' =
              cc in
            subst (λ q. Fits (record { log = q; budgets = remove bs i })) same
              (record {
                counted = omega (arith, f.counted, f.few);
                room = omega (arith, f.room);
                few = omega (arith, f.few);
                small = remove-Each bs i f.small;
                quiet = ground (arith, f.counted, f.few);
              })
        | inr z ↦
            let good : some (
              false,
              record l { outstanding = u32 (l.outstanding + 4294967295); committing = false },
            )
                ≡ some (last, l') =
              rw (e, z) at h in
            let same : record l {
              outstanding = u32 (l.outstanding + 4294967295);
              committing = false;
            }
                ≡ l' =
              cc in
            subst (λ q. Fits (record { log = q; budgets = remove bs i })) same
              (record {
                counted = omega (arith, f.counted, f.few);
                room = omega (arith, f.room);
                few = omega (arith, f.few);
                small = remove-Each bs i f.small;
                quiet = refl;
              })
      ]
    ]

Step-Fits : {size : ℕ} {s s' : System} → Step size s s' → Fits s → Fits s'
unfolding committed
Step-Fits (begins l bs h) f = begin_op-Fits l bs h f
Step-Fits {size} (writes l l' bs i r b at h) f = rw (log_write-some size b l l' h) (record {
  counted = f.counted ∙ sym (length-set bs i r);
  room = omega (arith, f.room, length-absorb b l.lh, total-set bs i r at);
  few = omega (arith, f.few, length-set bs i r);
  small = set-Each bs i r at f.small;
  quiet = ground (arith, f.quiet, length-set bs i r);
})
Step-Fits (ends l l' bs i r last at h) f = end_op-Fits l l' bs i r last at h f
Step-Fits (commits l bs h) f = record {
  counted = f.counted;
  room = omega (arith, f.room);
  few = f.few;
  small = f.small;
  quiet = refl;
}

pub Reach-Fits : {size : ℕ} {s : System} → Reach size s → Fits s
Reach-Fits fresh = record {
  counted = refl;
  room = omega arith;
  few = omega arith;
  small = tt;
  quiet = refl;
}
Reach-Fits (next r st) = Step-Fits st (Reach-Fits r)

has-some : (bs : List ℕ) (i r : ℕ) → get_elem? bs i ≡ some r → (0 < length bs) × (r ≤ total bs)
has-some [] i r h = cc
has-some (b ∷ bs) zero r h = (omega arith, ground arith)
has-some (b ∷ bs) (suc i) r h = (omega arith, omega (arith, (has-some bs i r h).1))

-- The log has LOGSIZE blocks on disk, its header included, as mkfs.c makes it, and operations make at most
-- MAXOPBLOCKS writes each. An operation that has a write left is counted, and no commit is under way, so
-- that `end_op` does not panic; `log_write` records the block, and panics only if the header lists
-- LOGSIZE - 1 blocks, which happens only at the last write that any operation may still make.
pub log_write_lem :
    {s : System} (i r b : ℕ)
    → Reach logsize s
    → get_elem? s.budgets i ≡ some (suc r)
    → (log_write logsize b s.log ≡ (
        if length s.log.lh == 29 then none else some (record (s.log) { lh = absorb b s.log.lh })))
      × ((length s.log.lh ≡ 29) → total s.budgets ≡ 1)
      × ((last : Bool) × (l : LogState) × (end_op s.log ≡ some (last, l)))
      × (length s.log.lh < logsize)
unfolding log_write end_op
log_write_lem {s} i r b run at =
    let f = Reach-Fits run in
    let here = has-some s.budgets i (suc r) at in
    let below : length s.log.lh ≤ 29 = omega (arith, f.room, here.1) in
    let counted : int_lt s.log.outstanding 1 ≡ false = ground (arith, f.counted, f.few, here.0) in
    let idle : s.log.committing ≡ false = ground (arith, f.quiet, here.0) in
    (
      elim (Bool-cases (length s.log.lh == 29)) [
        | inl e ↦
            let full : (leb logsize (length s.log.lh) || leb logsize (length s.log.lh + 1)) ≡ true =
              ground (arith, below) in
            rw e (rw full refl)
        | inr e ↦
            let room : (leb logsize (length s.log.lh) || leb logsize (length s.log.lh + 1))
                ≡ false =
              ground (arith, below) in
            rw e (rw room (rw counted refl))
      ],
      λ e. omega (arith, f.room, here.1),
      rw idle (elim (Bool-cases (u32 (s.log.outstanding + 4294967295) == 0)) [
        | inl e ↦ rw e (
          true,
          record (s.log) { outstanding = u32 (s.log.outstanding + 4294967295); committing = true },
          refl,
        )
        | inr e ↦ rw e (
          false,
          record (s.log) { outstanding = u32 (s.log.outstanding + 4294967295); committing = false },
          refl,
        )
      ]),
      omega (arith, below),
    )
