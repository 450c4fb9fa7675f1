-- ===== src/ToolQueue/Pick.antt =====
-- async_tool_queue.py: which task `claim` picks, against a description that does not sort.
use allcallall_agent_runtime.Common.{
  ℕ, ◌≤◌, ◌<◌, ◌≡◌, refl, sym, ap, Bool, true, false, Option, none, some, List, [], ◌∷◌, ◌++◌, leb,
  leb→le, leb-false, le→leb, clash, All, All-append, Bool-cases, inl, inr, arith, if◌then◌else◌,
}
use allcallall_agent_runtime.ToolQueue.Store.{Task}
use allcallall_agent_runtime.ToolQueue.Queue.{insert_task, sort_tasks, first_allowed}

module _ {P : Type 0} (barred : Task P → Bool) where
  -- `t` is the choice from `ts`: of those that are not barred it has the least priority number,
  -- and it is the first of these.
  pub record Chosen (ts : List (Task P)) (t : Task P) : Type 0 where
    pub before : List (Task P)
    pub after : List (Task P)
    pub split : ts ≡ before ++ t ∷ after
    pub admitted : barred t ≡ false
    pub earlier : All (λ u. barred u ≡ false → t.priority < u.priority) before
    pub later : All (λ u. barred u ≡ false → t.priority ≤ u.priority) after

  abbrev pub IsChoice : List (Task P) → Option (Task P) → Type 0
  IsChoice ts none = All (λ u. barred u ≡ true) ts
  IsChoice ts (some t) = Chosen ts t

  abbrev IsSorted : List (Task P) → Type 0
  IsSorted [] = Unit
  IsSorted (t ∷ ts) = All (λ u. t.priority ≤ u.priority) ts × IsSorted ts

  All-le :
      {p q : ℕ} (ts : List (Task P))
      → p ≤ q
      → All (λ u. q ≤ u.priority) ts
      → All (λ u. p ≤ u.priority) ts
  All-le [] h a = tt
  All-le (t ∷ ts) h a = (omega (arith, a.0), All-le ts h a.1)

  insert_task-All :
      {p : ℕ} (t : Task P) (ts : List (Task P))
      → p ≤ t.priority
      → All (λ u. p ≤ u.priority) ts
      → All (λ u. p ≤ u.priority) (insert_task t ts)
  unfolding insert_task
  insert_task-All t [] h a = (h, tt)
  insert_task-All t (u ∷ us) h a = elim (Bool-cases (leb t.priority u.priority)) [
    | inl le ↦ rw (le, insert_task) (h, a)
    | inr gt ↦ rw (gt, insert_task) (a.0, insert_task-All t us h a.1)
  ]

  insert_task-IsSorted :
      (t : Task P) (ts : List (Task P)) → IsSorted ts → IsSorted (insert_task t ts)
  unfolding insert_task
  insert_task-IsSorted t [] s = (tt, tt)
  insert_task-IsSorted t (u ∷ us) s = elim (Bool-cases (leb t.priority u.priority)) [
    | inl le ↦
        let h = leb→le t.priority u.priority le in rw (le, insert_task) ((h, All-le us h s.0), s)
    | inr gt ↦
        rw (gt, insert_task)
          (
            insert_task-All t us (omega (arith, leb-false t.priority u.priority gt)) s.0,
            insert_task-IsSorted t us s.1,
          )
  ]

  sort_tasks-IsSorted : (ts : List (Task P)) → IsSorted (sort_tasks ts)
  unfolding sort_tasks
  sort_tasks-IsSorted [] = tt
  sort_tasks-IsSorted (t ∷ ts) = insert_task-IsSorted t (sort_tasks ts) (sort_tasks-IsSorted ts)

  -- The choice of the two: the newcomer where it is not barred and not worse.
  abbrev better : Task P → Option (Task P) → Option (Task P)
  better t none = if barred t then none else some t
  better t (some u) =
      if barred t then some u else if leb t.priority u.priority then some t else some u

  better-first_allowed :
      (t : Task P) (ts : List (Task P))
      → All (λ u. t.priority ≤ u.priority) ts
      → better t (first_allowed barred ts) ≡ (if barred t then first_allowed barred ts else some t)
  unfolding first_allowed
  better-first_allowed t [] a = elim (Bool-cases (barred t)) [
    | inl e ↦ rw e refl
    | inr e ↦ rw e refl
  ]
  better-first_allowed t (u ∷ us) a = elim (Bool-cases (barred u)) [
    | inl e ↦ rw e (better-first_allowed t us a.1)
    | inr e ↦ rw (e, le→leb t.priority u.priority a.0) refl
  ]

  first_allowed-insert_task :
      (t : Task P) (ts : List (Task P))
      → IsSorted ts
      → first_allowed barred (insert_task t ts) ≡ better t (first_allowed barred ts)
  unfolding insert_task first_allowed
  first_allowed-insert_task t [] s = refl
  first_allowed-insert_task t (u ∷ us) s = elim (Bool-cases (leb t.priority u.priority)) [
    | inl le ↦
        let h = leb→le t.priority u.priority le in
        rw (le, insert_task) (sym (better-first_allowed t (u ∷ us) (h, All-le us h s.0)))
    | inr gt ↦ elim (Bool-cases (barred u)) [
      | inl e ↦ rw (gt, insert_task, e) (first_allowed-insert_task t us s.1)
      | inr e ↦
          rw (gt, insert_task, e)
            (elim (Bool-cases (barred t)) [ inl f ↦ rw f refl | inr f ↦ rw (f, gt) refl ])
    ]
  ]

  All-barred :
      (p : ℕ) (ts : List (Task P))
      → All (λ u. barred u ≡ true) ts
      → All (λ u. barred u ≡ false → p ≤ u.priority) ts
  All-barred p [] a = tt
  All-barred p (u ∷ us) a = (λ admitted. clash a.0 admitted, All-barred p us a.1)

  All-weaken :
      {p q : ℕ} (ts : List (Task P))
      → p ≤ q
      → All (λ u. barred u ≡ false → q ≤ u.priority) ts
      → All (λ u. barred u ≡ false → p ≤ u.priority) ts
  All-weaken [] h a = tt
  All-weaken (u ∷ us) h a =
      (λ admitted. let k = a.0 admitted in omega (arith, k, h), All-weaken us h a.1)

  All-lt→le :
      (q : ℕ) (ts : List (Task P))
      → All (λ u. barred u ≡ false → q < u.priority) ts
      → All (λ u. barred u ≡ false → q ≤ u.priority) ts
  All-lt→le q [] a = tt
  All-lt→le q (u ∷ us) a =
      (λ admitted. let k = a.0 admitted in omega (arith, k), All-lt→le q us a.1)

  here :
      (t : Task P) (ts : List (Task P))
      → barred t ≡ false
      → All (λ u. barred u ≡ false → t.priority ≤ u.priority) ts
      → Chosen (t ∷ ts) t
  here t ts e a = record {
    before = [];
    after = ts;
    split = refl;
    admitted = e;
    earlier = tt;
    later = a;
  }

  further :
      (t u : Task P) (ts : List (Task P))
      → Chosen ts u
      → (barred t ≡ false → u.priority < t.priority)
      → Chosen (t ∷ ts) u
  further t u ts c h = record {
    before = t ∷ c.before;
    after = c.after;
    split = ap (λ us. t ∷ us) c.split;
    admitted = c.admitted;
    earlier = (h, c.earlier);
    later = c.later;
  }

  Chosen-le :
      (t u : Task P) (ts : List (Task P))
      → Chosen ts u
      → t.priority ≤ u.priority
      → All (λ v. barred v ≡ false → t.priority ≤ v.priority) ts
  Chosen-le t u ts c h = rw c.split (
      All-append (λ v. barred v ≡ false → t.priority ≤ v.priority) c.before (u ∷ c.after)
        (All-weaken c.before h (All-lt→le u.priority c.before c.earlier))
        (λ _. h, All-weaken c.after h c.later))

  better-IsChoice :
      (t : Task P) (ts : List (Task P)) (o : Option (Task P))
      → IsChoice ts o
      → IsChoice (t ∷ ts) (better t o)
  better-IsChoice t ts none c = elim (Bool-cases (barred t)) [
    | inl e ↦ rw e (e, c)
    | inr e ↦ rw e (here t ts e (All-barred t.priority ts c))
  ]
  better-IsChoice t ts (some u) c = elim (Bool-cases (barred t)) [
    | inl e ↦ rw e (further t u ts c (λ admitted. clash e admitted))
    | inr e ↦ elim (Bool-cases (leb t.priority u.priority)) [
      | inl le ↦ rw (e, le) (here t ts e (Chosen-le t u ts c (leb→le t.priority u.priority le)))
      | inr gt ↦ rw (e, gt) (further t u ts c (λ _. leb-false t.priority u.priority gt))
    ]
  ]

  pub first_allowed-sort_tasks :
      (ts : List (Task P)) → IsChoice ts (first_allowed barred (sort_tasks ts))
  unfolding sort_tasks first_allowed
  first_allowed-sort_tasks [] = tt
  first_allowed-sort_tasks (t ∷ ts) =
      rw (first_allowed-insert_task t (sort_tasks ts) (sort_tasks-IsSorted ts))
        (better-IsChoice t ts (first_allowed barred (sort_tasks ts)) (first_allowed-sort_tasks ts))
