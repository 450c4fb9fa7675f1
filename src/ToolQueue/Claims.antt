-- ===== src/ToolQueue/Claims.antt =====
-- async_tool_queue.py: what `claim` picks, and how many tasks of one key are in processing.
use allcallall_agent_runtime.Common.{
  ℕ, ◌+◌, ◌<◌, ◌≡◌, ◌≢◌, refl, sym, ◌∙◌, ap, subst, Bool, true, false, not, ◌&&◌, Option, none,
  some, String, List, [], ◌∷◌, ◌++◌, Bool-cases, Option-cases, inl, inr, arith, if◌then◌else◌, leb,
  leb-false, clash, clash_none, All, some-injective,
}
use allcallall_agent_runtime.Common.Eq.{◌==◌, string_eq, ==_refl}
use allcallall_agent_runtime.Common.Dict
use allcallall_agent_runtime.Common.Dict.{Dict, get-put}
use allcallall_agent_runtime.ToolQueue.Store
use allcallall_agent_runtime.ToolQueue.Store.{Task, Store}
use allcallall_agent_runtime.ToolQueue.Queue.{
  Queue, candidate, claim, eligible, is_eligible, is_processing, in_flight, throttled, or_zero,
  leased, counted,
}
use allcallall_agent_runtime.ToolQueue.Pick.{Chosen, IsChoice, first_allowed-sort_tasks}
use allcallall_agent_runtime.ToolQueue.Keyed.{Stands}

open_gate : (b c : Bool) → (not b && c) ≡ false → b ≡ false → c ≡ false
open_gate true c h k = clash refl k
open_gate false c h k = h

pub ==_differ : (j k : String) → j ≢ k → (j == k) ≡ false
==_differ j k h = elim (Bool-cases (j == k)) [
  | inl e ↦ absurd (h ((string_eq.same_iff j k).0 e))
  | inr e ↦ e
]

module _ {P : Type 0} where
  -- 1 where the task is in processing under the key.
  abbrev pub one : String → Task P → ℕ
  one key t = if is_processing t.status && t.rate_limit_key == key then 1 else 0

  -- The number of tasks in processing under the key.
  abbrev pub flights : String → List (Task P) → ℕ
  flights key [] = 0
  flights key (t ∷ ts) = one key t + flights key ts

  counted-one :
      (key : String) (t : Task P) (d : Dict String ℕ)
      → or_zero (Dict.get (counted t d) key) ≡ or_zero (Dict.get d key) + one key t
  counted-one key t d = elim (Bool-cases (is_processing t.status)) [
    | inl e ↦ elim (Bool-cases (t.rate_limit_key == key)) [
      | inl k ↦
          rw
            (
              e,
              k,
              get-put d t.rate_limit_key key (or_zero (Dict.get d t.rate_limit_key) + 1),
              (string_eq.same_iff t.rate_limit_key key).0 k,
            )
            (rw (==_refl key) refl)
      | inr k ↦
          rw (e, k, get-put d t.rate_limit_key key (or_zero (Dict.get d t.rate_limit_key) + 1))
            (rw k (omega arith))
    ]
    | inr e ↦ rw e (omega arith)
  ]

  in_flight-flights :
      (key : String) (ts : List (Task P)) (d : Dict String ℕ)
      → or_zero (Dict.get (in_flight ts d) key) ≡ or_zero (Dict.get d key) + flights key ts
  unfolding in_flight
  in_flight-flights key [] d = omega arith
  in_flight-flights key (t ∷ ts) d =
      omega (arith, in_flight-flights key ts (counted t d), counted-one key t d)

  abbrev pub barred : Queue P → Task P → Bool
  barred q t = throttled (in_flight (Store.all q.store) []) q.rate_limit_max t

  -- The result `r` of a claim: nothing, the queue unchanged, where every candidate is barred, and
  -- otherwise the chosen candidate under a lease, written to the store.
  abbrev pub Picks :
      (Task P → Bool) → List (Task P) → String → ℕ → Queue P → Option (Task P) × Queue P → Type 0
  Picks bars ts owner until q (none, q') = All (λ t. bars t ≡ true) ts × (q' ≡ q)
  Picks bars ts owner until q (some t', q') =
      (t : Task P) × Chosen bars ts t
      × (t' ≡ leased owner until t)
      × (q' ≡ record q { store = Store.update t' q.store })

  candidate-IsChoice :
      (now : ℕ) (q : Queue P)
      → IsChoice (barred q) (eligible now (Store.all q.store)) (candidate now q)
  unfolding candidate
  candidate-IsChoice now q = first_allowed-sort_tasks (barred q) (eligible now (Store.all q.store))

  abbrev pub taken : String → ℕ → ℕ → Task P → Queue P → Option (Task P) × Queue P
  taken owner now timeout t q =
      let t' = leased owner (now + timeout) t in
      (some t', record q { store = Store.update t' q.store })

  pub claim-none :
      (owner : String) (now timeout : ℕ) (q : Queue P)
      → candidate now q ≡ none
      → claim owner now timeout q ≡ (none, q)
  unfolding claim
  claim-none owner now timeout q e = rw (e, claim) refl

  pub claim-some :
      (owner : String) (now timeout : ℕ) (q : Queue P) (t : Task P)
      → candidate now q ≡ some t
      → claim owner now timeout q ≡ taken owner now timeout t q
  unfolding claim
  claim-some owner now timeout q t e = rw (e, claim) refl

  -- A claim takes, from the tasks that are open, due and not under a live lease, the first one of
  -- the least priority number among those whose key is below its limit, and writes it back under
  -- the new lease; it returns nothing, and changes nothing, where there is no such task.
  pub claim-Picks :
      (owner : String) (now timeout : ℕ) (q : Queue P)
      → Picks
          (barred q)
          (eligible now (Store.all q.store))
          owner
          (now + timeout)
          q
          (claim owner now timeout q)
  claim-Picks owner now timeout q = elim (Option-cases (candidate now q)) [
    | inl e ↦
        subst (Picks (barred q) (eligible now (Store.all q.store)) owner (now + timeout) q)
          (sym (claim-none owner now timeout q e))
          (
            subst (IsChoice (barred q) (eligible now (Store.all q.store))) e
                (candidate-IsChoice now q),
            refl,
          )
    | inr (t, e) ↦
        subst (Picks (barred q) (eligible now (Store.all q.store)) owner (now + timeout) q)
          (sym (claim-some owner now timeout q t e))
          (
            t,
            subst (IsChoice (barred q) (eligible now (Store.all q.store))) e
                (candidate-IsChoice now q),
            refl,
            refl,
          )
  ]

  pub throttled-flights :
      (q : Queue P) (t : Task P)
      → barred q t ≡ false
      → t.rate_limit_key ≢ ""
      → flights t.rate_limit_key (Store.all q.store) < q.rate_limit_max
  unfolding throttled Dict.get
  throttled-flights q t h named =
      let n = or_zero (Dict.get (in_flight (Store.all q.store) []) t.rate_limit_key) in
      let below =
        open_gate (t.rate_limit_key == "") (leb q.rate_limit_max n) h
          (==_differ t.rate_limit_key "" named) in
      omega (
        arith,
        leb-false q.rate_limit_max n below,
        in_flight-flights t.rate_limit_key (Store.all q.store) [],
      )

  eligible-Stands :
      (now : ℕ) (ts : List (Task P)) (t : Task P)
      → Stands t (eligible now ts)
      → Stands t ts × (is_eligible now t ≡ true)
  unfolding eligible
  eligible-Stands now [] t s = absurd s
  eligible-Stands now (u ∷ us) t s = elim (Bool-cases (is_eligible now u)) [
    | inl e ↦ elim (rw (e, eligible) at s) [
      | inl same ↦ (inl same, subst (λ v. is_eligible now v ≡ true) (sym same) e)
      | inr later ↦ let (k, h) = eligible-Stands now us t later in (inr k, h)
    ]
    | inr e ↦ (let (k, h) = eligible-Stands now us t (rw (e, eligible) at s) in (inr k, h))
  ]

  Stands-middle : (ts us : List (Task P)) (t : Task P) → Stands t (ts ++ t ∷ us)
  Stands-middle [] us t = inl refl
  Stands-middle (u ∷ ts) us t = inr (Stands-middle ts us t)

  pub candidate-Stands :
      (now : ℕ) (q : Queue P) (t : Task P)
      → candidate now q ≡ some t
      → Stands t (Store.all q.store) × (is_eligible now t ≡ true) × (barred q t ≡ false)
  candidate-Stands now q t e =
      let c =
        subst (IsChoice (barred q) (eligible now (Store.all q.store))) e
          (candidate-IsChoice now q) in
      let (s, h) =
        eligible-Stands now (Store.all q.store) t
          (subst (Stands t) (sym c.split) (Stands-middle c.before c.after t)) in
      (s, h, c.admitted)

  pub claimed :
      (owner : String) (now timeout : ℕ) (q q' : Queue P) (t' : Task P)
      → claim owner now timeout q ≡ (some t', q')
      → (t : Task P) × (candidate now q ≡ some t)
        × (t' ≡ leased owner (now + timeout) t)
        × (q' ≡ record q { store = Store.update t' q.store })
  claimed owner now timeout q q' t' h = elim (Option-cases (candidate now q)) [
    | inl e ↦ clash_none (ap (λ r. r.0) (sym (claim-none owner now timeout q e) ∙ h))
    | inr (t, e) ↦
        (let same = sym (claim-some owner now timeout q t e) ∙ h in
          (
            t,
            e,
            sym (some-injective (ap (λ r. r.0) same)),
            sym (ap (λ r. r.1) same)
                ∙ ap (λ v. record q { store = Store.update v q.store })
                    (some-injective (ap (λ r. r.0) same)),
          ))
  ]

  -- A task is only ever claimed under a key, if it has one, that has fewer tasks in processing
  -- than the limit; a task in processing counts also when its lease has expired.
  pub claim-below_limit :
      (owner : String) (now timeout : ℕ) (q q' : Queue P) (t : Task P)
      → claim owner now timeout q ≡ (some t, q')
      → t.rate_limit_key ≢ ""
      → flights t.rate_limit_key (Store.all q.store) < q.rate_limit_max
  claim-below_limit owner now timeout q q' t h named =
      let (u, e, same, _) = claimed owner now timeout q q' t h in
      let key = ap (λ v. v.rate_limit_key) same in
      rw key (throttled-flights q u (candidate-Stands now q u e).2 (λ k. named (key ∙ k)))
