-- ===== src/Tasks/Quota.antt =====
-- service.py, `DemoQuota`: how many tasks a day may have. A day is its ordinal number; the lock
-- makes each call one step.
use proofbid.Regex.{◌then◌}
use proofbid.Prelude.{
  Bool, arith, eqb_refl, false, if◌then◌else◌, leb, list_eq, ltb, nat_eq, suc, text_eq, true, zero,
  ℕ, ◌+◌, ◌-◌, ◌==◌, ◌≡◌, ap, ◌∙◌,
}

pub record DemoQuota : Type 0 where
  pub maximum : ℕ
  pub day : ℕ
  pub count : ℕ

-- `DemoQuota(maximum)` on a day.
abbrev pub demo_quota : ℕ → ℕ → DemoQuota
demo_quota maximum day = record { maximum = maximum; day = day; count = 0 }

-- A new day starts from zero.
unfoldable pub renewed : ℕ → DemoQuota → DemoQuota
renewed today q = if today == q.day then q else record q { day = today; count = 0 }

-- `consume`, on the day `today`
unfoldable pub consume : ℕ → DemoQuota → Bool × DemoQuota
consume today q =
    let now = renewed today q in
    if leb now.maximum now.count then (false, now) else (true, record now { count = now.count + 1 })

-- Calls on one day, one after the other: how many were granted, and the quota after them.
unfoldable pub consume_all : ℕ → ℕ → DemoQuota → ℕ × DemoQuota
consume_all today zero q = (0, q)
consume_all today (suc calls) q =
    let (granted, later) = consume today q in
    let (more, last) = consume_all today calls later in ((if granted then suc more else more), last)

-- What the day has left.
unfoldable pub remaining : ℕ → DemoQuota → ℕ
remaining today q = if today == q.day then q.maximum - q.count else q.maximum

abbrev pub least : ℕ → ℕ → ℕ
least a b = if leb a b then a else b

consume-remaining :
    (today : ℕ) (q : DemoQuota)
    → ((consume today q).0 ≡ ltb 0 (remaining today q))
      × (remaining today (consume today q).1 ≡ remaining today q - 1)
unfolding consume renewed remaining
consume-remaining today q = ground (arith, eqb_refl today)

remaining-le : (today : ℕ) (q : DemoQuota) → leb (remaining today q) q.maximum ≡ true
unfolding remaining
remaining-le today q = ground (arith)

granted_step :
    (calls left more : ℕ) (granted : Bool)
    → granted ≡ ltb 0 left
    → more ≡ least calls (left - 1)
    → (if granted then suc more else more) ≡ least (suc calls) left
granted_step calls left more granted g m = ground arith

-- Whatever was granted before, calls on one day are granted in their order as long as the day has
-- some left: so many as there are calls, and never more than are left, which is the maximum at most.
pub consume_all-granted :
    (today calls : ℕ) (q : DemoQuota)
    → ((consume_all today calls q).0 ≡ least calls (remaining today q))
      × (remaining today (consume_all today calls q).1 ≡ remaining today q - calls)
      × (leb (remaining today q) q.maximum ≡ true)
unfolding consume_all
consume_all-granted today zero q = (ground arith, ground arith, remaining-le today q)
consume_all-granted today (suc calls) q =
    let (granted, left) = consume-remaining today q in
    let (more, last, _) = consume_all-granted today calls (consume today q).1 in
    (
      granted_step calls (remaining today q) _ (consume today q).0 granted
          (more ∙ ap (least calls) left),
      last ∙ omega (arith, left),
      remaining-le today q,
    )
