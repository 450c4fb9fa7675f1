-- ===== src/ToolQueue/Writes.antt =====
-- async_tool_queue.py: what each call writes.
use allcallall_agent_runtime.Common.{
  ℕ, ◌+◌, ◌<◌, ◌≡◌, refl, some, String, Bool-cases, Option-cases, inl, inr, leb, leb-false, ◌⊎◌,
}
use allcallall_agent_runtime.Common.Eq.{string_eq}
use allcallall_agent_runtime.Common.Dict
use allcallall_agent_runtime.Common.Dict.{Dict}
use allcallall_agent_runtime.ToolQueue.Store
use allcallall_agent_runtime.ToolQueue.Store.{Task, Store}
use allcallall_agent_runtime.ToolQueue.Queue
use allcallall_agent_runtime.ToolQueue.Queue.{
  Queue, candidate, found_task, task_id_for_key, fresh_task, leased, finished, failed, dropped,
  delayed, buried, requeued,
}
use allcallall_agent_runtime.ToolQueue.Steps.{Call, step}

module _ {P : Type 0} where
  -- What the call writes, where it writes.
  abbrev pub Origin : Call P → Queue P → Task P → Type 0
  Origin (Call.enqueue id t) q v = v ≡ fresh_task id t
  Origin (Call.claim owner now timeout) q v =
      (t : Task P) × (candidate now q ≡ some t) × (v ≡ leased owner (now + timeout) t)
  Origin (Call.complete id) q v = (t : Task P) × (Store.get id q.store ≡ some t) × (v ≡ finished t)
  Origin (Call.fail id error now) q v =
      (t : Task P) × (Store.get id q.store ≡ some t)
      × ((v ≡ dropped (failed error t))
          ⊎ ((t.attempts + 1 < t.max_attempts) × (v ≡ delayed q.base_backoff now (failed error t))))

  abbrev pub Writes : Call P → Queue P → Queue P → Type 0
  Writes c q r =
      (r.store.tasks ≡ q.store.tasks)
      ⊎ ((v : Task P) × (r.store.tasks ≡ Dict.put q.store.tasks v.task_id v) × Origin c q v)

  fail-Writes :
      (id error : String) (now : ℕ) (q : Queue P) (t : Task P)
      → Store.get id q.store ≡ some t
      → Writes (Call.fail id error now) q (Queue.fail id error now q)
  unfolding Queue.fail buried requeued Store.update Store.mark_dead
  fail-Writes id error now q t e = elim (Bool-cases (leb t.max_attempts (t.attempts + 1))) [
    | inl over ↦ inr (dropped (failed error t), rw (e, over, Queue.fail) refl, (t, e, inl refl))
    | inr under ↦ inr (
      delayed q.base_backoff now (failed error t),
      rw (e, under, Queue.fail) refl,
      (t, e, inr (leb-false t.max_attempts (t.attempts + 1) under, refl)),
    )
  ]

  pub step-Writes : (c : Call P) (q : Queue P) → Writes c q (step c q)
  unfolding Queue.enqueue Queue.claim Queue.complete Store.update Store.add
  step-Writes (Call.enqueue id t) q =
      elim (Option-cases (found_task (task_id_for_key t.idempotency_key q) q.store)) [
        | inl e ↦ inr (fresh_task id t, rw (e, step) refl, refl)
        | inr (u, e) ↦ inl (rw (e, step) refl)
      ]
  step-Writes (Call.claim owner now timeout) q = elim (Option-cases (candidate now q)) [
    | inl e ↦ inl (rw (e, step) refl)
    | inr (t, e) ↦ inr (leased owner (now + timeout) t, rw (e, step) refl, (t, e, refl))
  ]
  step-Writes (Call.complete id) q = elim (Option-cases (Store.get id q.store)) [
    | inl e ↦ inl (rw (e, step, Queue.complete) refl)
    | inr (t, e) ↦ inr (finished t, rw (e, step, Queue.complete) refl, (t, e, refl))
  ]
  step-Writes (Call.fail id error now) q = elim (Option-cases (Store.get id q.store)) [
    | inl e ↦ inl (unfold Queue.fail in rw (e, Queue.fail) refl)
    | inr (t, e) ↦ fail-Writes id error now q t e
  ]

  -- No call changes the limit of a queue.
  pub step-rate_limit_max :
      (c : Call P) (q : Queue P) → (step c q).rate_limit_max ≡ q.rate_limit_max
  unfolding Queue.enqueue Queue.claim Queue.complete Queue.fail
  step-rate_limit_max (Call.enqueue id t) q =
      elim (Option-cases (found_task (task_id_for_key t.idempotency_key q) q.store)) [
        | inl e ↦ rw (e, step) refl
        | inr (u, e) ↦ rw (e, step) refl
      ]
  step-rate_limit_max (Call.claim owner now timeout) q = elim (Option-cases (candidate now q)) [
    | inl e ↦ rw (e, step) refl
    | inr (t, e) ↦ rw (e, step) refl
  ]
  step-rate_limit_max (Call.complete id) q = elim (Option-cases (Store.get id q.store)) [
    | inl e ↦ rw (e, step, Queue.complete) refl
    | inr (t, e) ↦ rw (e, step, Queue.complete) refl
  ]
  step-rate_limit_max (Call.fail id error now) q = elim (Option-cases (Store.get id q.store)) [
    | inl e ↦ rw (e, step, Queue.fail) refl
    | inr (t, e) ↦ rw (e, step, Queue.fail) refl
  ]
