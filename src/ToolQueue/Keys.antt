-- ===== src/ToolQueue/Keys.antt =====
-- async_tool_queue.py: the idempotency key, over a run of calls.
use allcallall_agent_runtime.Common.{
  ◌+◌, ◌≡◌, refl, sym, subst, ap, none, some, String, List, [], ◌∷◌, Bool-cases, Option-cases, inl,
  inr, leb, clash_none,
}
use allcallall_agent_runtime.Common.Eq.{◌==◌, string_eq, ==_refl}
use allcallall_agent_runtime.Common.Dict
use allcallall_agent_runtime.Common.Dict.{Dict, get-put}
use allcallall_agent_runtime.ToolQueue.Store
use allcallall_agent_runtime.ToolQueue.Store.{Task, Store}
use allcallall_agent_runtime.ToolQueue.Queue
use allcallall_agent_runtime.ToolQueue.Queue.{
  Queue, candidate, found_task, task_id_for_key, fresh_task, enqueue,
}
use allcallall_agent_runtime.ToolQueue.Steps.{Call, step, play}
use allcallall_agent_runtime.ToolQueue.Keyed.{IsKeyed, get-IsKeyed}
use allcallall_agent_runtime.ToolQueue.Writes.{step-Writes}

module _ {P : Type 0} where
  -- The index knows the key, and the store has its task.
  abbrev pub IsKnown : String → String → Queue P → Type 0
  IsKnown key id q =
      (Dict.get q.store.by_key key ≡ some id)
      × ((t : Task P) × (Dict.get q.store.tasks id ≡ some t) × (t.task_id ≡ id))

  put-known :
      (d : Dict String (Task P)) (id : String) (v : Task P)
      → ((t : Task P) × (Dict.get d id ≡ some t) × (t.task_id ≡ id))
      → (t : Task P) × (Dict.get (Dict.put d v.task_id v) id ≡ some t) × (t.task_id ≡ id)
  put-known d id v (t, e, named) = elim (Bool-cases (v.task_id == id)) [
    | inl same ↦
        (v, rw (get-put d v.task_id id v, same) refl, (string_eq.same_iff v.task_id id).0 same)
    | inr other ↦ (t, rw (get-put d v.task_id id v, other) e, named)
  ]

  enqueue-new :
      (id : String) (t : Task P) (q : Queue P)
      → found_task (task_id_for_key t.idempotency_key q) q.store ≡ none
      → enqueue id t q ≡ (id, record q { store = Store.add (fresh_task id t) q.store })
  unfolding enqueue
  enqueue-new id t q e = rw (e, enqueue) refl

  enqueue-old :
      (id : String) (t : Task P) (q : Queue P) (u : Task P)
      → found_task (task_id_for_key t.idempotency_key q) q.store ≡ some u
      → enqueue id t q ≡ (u.task_id, q)
  unfolding enqueue
  enqueue-old id t q u e = rw (e, enqueue) refl

  pub enqueue-known :
      (id key known : String) (t : Task P) (q : Queue P)
      → IsKnown key known q
      → t.idempotency_key ≡ key
      → enqueue id t q ≡ (known, q)
  unfolding enqueue found_task task_id_for_key Store.get
  enqueue-known id key known t q (indexed, (u, found, named)) same =
      rw (same, indexed, found, enqueue) (ap (λ i. (i, q)) named)

  -- Only `enqueue` writes the index, and only where the key has no task.
  step-by_key :
      (key id : String) (c : Call P) (q : Queue P)
      → IsKnown key id q
      → Dict.get (step c q).store.by_key key ≡ some id
  unfolding Queue.claim Queue.complete Queue.fail Queue.buried Queue.requeued Store.update
      Store.mark_dead Store.add
  step-by_key key id (Call.enqueue new t) q (indexed, (u, found, named)) =
      elim (Bool-cases (t.idempotency_key == key)) [
        | inl same ↦
            rw
              (
                enqueue-known new key id t q (indexed, (u, found, named))
                    ((string_eq.same_iff t.idempotency_key key).0 same),
                step,
              )
              indexed
        | inr other ↦
            elim (Option-cases (found_task (task_id_for_key t.idempotency_key q) q.store)) [
              | inl e ↦
                  rw
                    (
                      enqueue-new new t q e,
                      step,
                      get-put q.store.by_key t.idempotency_key key new,
                      other,
                    )
                    indexed
              | inr (w, e) ↦ rw (enqueue-old new t q w e, step) indexed
            ]
      ]
  step-by_key key id (Call.claim owner now timeout) q (indexed, _) =
      elim (Option-cases (candidate now q)) [
        | inl e ↦ rw (e, step) indexed
        | inr (t, e) ↦ rw (e, step) indexed
      ]
  step-by_key key id (Call.complete other) q (indexed, _) =
      elim (Option-cases (Store.get other q.store)) [
        | inl e ↦ rw (e, step, Queue.complete) indexed
        | inr (t, e) ↦ rw (e, step, Queue.complete) indexed
      ]
  step-by_key key id (Call.fail other error now) q (indexed, _) =
      elim (Option-cases (Store.get other q.store)) [
        | inl e ↦ rw (e, step, Queue.fail) indexed
        | inr (t, e) ↦ elim (Bool-cases (leb t.max_attempts (t.attempts + 1))) [
          | inl over ↦ rw (e, over, step, Queue.fail) indexed
          | inr under ↦ rw (e, under, step, Queue.fail) indexed
        ]
      ]

  pub play-IsKnown :
      (key id : String) (cs : List (Call P)) (q : Queue P)
      → IsKnown key id q
      → IsKnown key id (play cs q)
  play-IsKnown key id [] q known = known
  play-IsKnown key id (c ∷ cs) q known = play-IsKnown key id cs (step c q) (
    step-by_key key id c q known,
    elim (step-Writes c q) [
      | inl same ↦
          subst (λ d. (t : Task P) × (Dict.get d id ≡ some t) × (t.task_id ≡ id)) (sym same) known.1
      | inr (v, e, _) ↦
          subst (λ d. (t : Task P) × (Dict.get d id ≡ some t) × (t.task_id ≡ id)) (sym e)
            (put-known q.store.tasks id v known.1)
    ],
  )

  found_task-IsKnown :
      (key : String) (q : Queue P) (u : Task P)
      → IsKeyed q.store.tasks
      → found_task (task_id_for_key key q) q.store ≡ some u
      → IsKnown key u.task_id q
  unfolding found_task task_id_for_key Store.get
  found_task-IsKnown key q u keyed e = elim (Option-cases (Dict.get q.store.by_key key)) [
    | inl absent ↦ clash_none (rw absent at e)
    | inr (id, indexed) ↦
        let found = rw indexed at e in
        let named = get-IsKeyed q.store.tasks id u keyed found in
        rw named (indexed, (u, found, named))
  ]

  pub enqueue-IsKnown :
      (id : String) (t : Task P) (q : Queue P)
      → IsKeyed q.store.tasks
      → IsKnown t.idempotency_key (enqueue id t q).0 (enqueue id t q).1
  unfolding Store.add
  enqueue-IsKnown id t q keyed =
      elim (Option-cases (found_task (task_id_for_key t.idempotency_key q) q.store)) [
        | inl e ↦
            rw
              (
                enqueue-new id t q e,
                get-put q.store.by_key t.idempotency_key t.idempotency_key id,
                get-put q.store.tasks id id (fresh_task id t),
                ==_refl id,
                ==_refl t.idempotency_key,
              )
              (refl, (fresh_task id t, refl, refl))
        | inr (u, e) ↦
            rw (enqueue-old id t q u e) (found_task-IsKnown t.idempotency_key q u keyed e)
      ]

  -- In a store that holds each task once, under its id, a second enqueue under the same key, after
  -- any run of calls, returns the id that the first one returned and changes nothing, whatever its
  -- other arguments are.
  pub enqueue-play :
      (id id' : String) (t t' : Task P) (q : Queue P) (cs : List (Call P))
      → IsKeyed q.store.tasks
      → t'.idempotency_key ≡ t.idempotency_key
      → enqueue id' t' (play cs (enqueue id t q).1)
        ≡ ((enqueue id t q).0, play cs (enqueue id t q).1)
  enqueue-play id id' t t' q cs keyed same =
      enqueue-known id' t.idempotency_key (enqueue id t q).0 t' (play cs (enqueue id t q).1)
        (play-IsKnown t.idempotency_key (enqueue id t q).0 cs (enqueue id t q).1
          (enqueue-IsKnown id t q keyed))
        same
