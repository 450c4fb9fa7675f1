-- ===== src/ToolQueue/Attempts.antt =====
-- async_tool_queue.py: the attempts of open tasks, over a run of calls.
use allcallall_agent_runtime.Common.{
  ℕ, ◌<◌, ◌≡◌, max, refl, sym, subst, Bool, true, false, ◌&&◌, ◌||◌, String, List, [], ◌∷◌,
  Bool-cases, inl, inr, arith, leb, clash, All,
}
use allcallall_agent_runtime.Common.Eq.{◌==◌, string_eq}
use allcallall_agent_runtime.Common.Dict
use allcallall_agent_runtime.Common.Dict.{Dict, get-put}
use allcallall_agent_runtime.ToolQueue.Store
use allcallall_agent_runtime.ToolQueue.Store.{Task, Store}
use allcallall_agent_runtime.ToolQueue.Queue.{Queue, is_open, is_eligible}
use allcallall_agent_runtime.ToolQueue.Steps.{Call, step, play, play-keeps}
use allcallall_agent_runtime.ToolQueue.Keyed.{Stands}
use allcallall_agent_runtime.ToolQueue.Claims.{candidate-Stands}
use allcallall_agent_runtime.ToolQueue.Writes.{step-Writes, Origin}

left_true : (a b : Bool) → (a && b) ≡ true → a ≡ true
left_true true b h = refl
left_true false b h = clash h refl

module _ {P : Type 0} where
  -- An open task has an attempt left, or has had none.
  abbrev pub IsBounded : Task P → Type 0
  IsBounded t = is_open t.status ≡ true → t.attempts < max 1 t.max_attempts

  abbrev pub AllBounded : Dict String (Task P) → Type 0
  AllBounded d = All IsBounded (Dict.values d)

  put-AllBounded :
      (id : String) (d : Dict String (Task P)) (t : Task P)
      → IsBounded t
      → AllBounded d
      → AllBounded (Dict.put d id t)
  unfolding Dict.put
  put-AllBounded id [] t b h = (b, tt)
  put-AllBounded id ((j, u) ∷ d) t b h = elim (Bool-cases (j == id)) [
    | inl e ↦ rw (e, Dict.put) (b, h.1)
    | inr e ↦ rw (e, Dict.put) (h.0, put-AllBounded id d t b h.1)
  ]

  Stands-AllBounded :
      (ts : List (Task P)) (t : Task P) → All IsBounded ts → Stands t ts → IsBounded t
  Stands-AllBounded [] t h s = absurd s
  Stands-AllBounded (u ∷ us) t h (inl e) = subst IsBounded (sym e) h.0
  Stands-AllBounded (u ∷ us) t h (inr s) = Stands-AllBounded us t h.1 s

  is_eligible-is_open : (now : ℕ) (t : Task P) → is_eligible now t ≡ true → is_open t.status ≡ true
  unfolding is_eligible
  is_eligible-is_open now t h =
      left_true (is_open t.status)
        (leb t.scheduled_at now && (leb t.lease_until now || t.lease_owner == "")) h

  Origin-IsBounded :
      (c : Call P) (q : Queue P) (v : Task P)
      → All IsBounded (Store.all q.store)
      → Origin c q v
      → IsBounded v
  Origin-IsBounded (Call.enqueue id t) q v h e = rw e (λ _. omega arith)
  Origin-IsBounded (Call.claim owner now timeout) q v h (t, e, is) =
      let (stands, eligible, _) = candidate-Stands now q t e in
      let b =
        Stands-AllBounded (Store.all q.store) t h stands (is_eligible-is_open now t eligible) in
      rw is (λ _. b)
  Origin-IsBounded (Call.complete id) q v h (t, e, is) = rw is (λ opened. clash opened refl)
  Origin-IsBounded (Call.fail id error now) q v h (t, e, inl is) =
      rw is (λ opened. clash opened refl)
  Origin-IsBounded (Call.fail id error now) q v h (t, e, inr (under, is)) =
      rw is (λ _. omega (arith, under))

  step-AllBounded :
      (c : Call P) (q : Queue P) → AllBounded q.store.tasks → AllBounded (step c q).store.tasks
  unfolding Store.all
  step-AllBounded c q h = elim (step-Writes c q) [
    | inl same ↦ subst AllBounded (sym same) h
    | inr (v, e, o) ↦
        subst AllBounded (sym e)
          (put-AllBounded v.task_id q.store.tasks v (Origin-IsBounded c q v h o) h)
  ]

  -- Where every task that is queued or in processing has fewer attempts than the larger of 1 and
  -- its `max_attempts`, this stays so over any run of calls.
  pub play-AllBounded :
      (cs : List (Call P)) (q : Queue P)
      → AllBounded q.store.tasks
      → AllBounded (play cs q).store.tasks
  play-AllBounded = play-keeps (λ q. AllBounded q.store.tasks) step-AllBounded
