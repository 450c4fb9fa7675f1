-- ===== src/ToolQueue/Shaping.antt =====
-- async_tool_queue.py: the per-key cap on tasks in processing, over any run of calls.
use allcallall_agent_runtime.Common.{
  ◌+◌, ◌<◌, ◌≤◌, ◌≢◌, sym, subst, ◌∙◌, ◌&&◌, String, List, [], ◌∷◌, Bool-cases, inl, inr, arith,
}
use allcallall_agent_runtime.Common.Eq.{◌==◌, string_eq}
use allcallall_agent_runtime.Common.Dict
use allcallall_agent_runtime.Common.Dict.{Dict}
use allcallall_agent_runtime.ToolQueue.Store
use allcallall_agent_runtime.ToolQueue.Store.{Task, Store}
use allcallall_agent_runtime.ToolQueue.Queue.{Queue, is_processing}
use allcallall_agent_runtime.ToolQueue.Steps.{Call, step, play, play-keeps}
use allcallall_agent_runtime.ToolQueue.Claims.{one, flights, candidate-Stands, throttled-flights}
use allcallall_agent_runtime.ToolQueue.Writes.{step-Writes, step-rate_limit_max, Origin}

module _ {P : Type 0} where
  one-le : (key : String) (t : Task P) → one key t ≤ 1
  one-le key t = elim (Bool-cases (is_processing t.status && t.rate_limit_key == key)) [
    | inl e ↦ rw e (omega arith)
    | inr e ↦ rw e (omega arith)
  ]

  flights-put :
      (key id : String) (d : Dict String (Task P)) (t : Task P)
      → flights key (Dict.values (Dict.put d id t)) ≤ flights key (Dict.values d) + one key t
  unfolding Dict.put
  flights-put key id [] t = omega arith
  flights-put key id ((j, u) ∷ d) t = elim (Bool-cases (j == id)) [
    | inl e ↦ rw (e, Dict.put) (omega arith)
    | inr e ↦ rw (e, Dict.put) (omega (arith, flights-put key id d t))
  ]

  -- At most `rate_limit_max` tasks of each key are in processing.
  abbrev pub IsShaped : Queue P → Type 0
  IsShaped q = (key : String) → key ≢ "" → flights key (Store.all q.store) ≤ q.rate_limit_max

  Origin-room :
      (c : Call P) (q : Queue P) (v : Task P) (key : String)
      → key ≢ ""
      → IsShaped q
      → Origin c q v
      → flights key (Store.all q.store) + one key v ≤ q.rate_limit_max
  Origin-room (Call.enqueue id t) q v key named h e = rw e (omega (arith, h key named))
  Origin-room (Call.claim owner now timeout) q v key named h (t, e, same) =
      elim (Bool-cases (t.rate_limit_key == key)) [
        | inl k ↦
            let key_is = (string_eq.same_iff t.rate_limit_key key).0 k in
            let below =
              throttled-flights q t (candidate-Stands now q t e).2
                (λ no. named (sym key_is ∙ no)) in
            let moved =
              subst (λ x. flights x (Store.all q.store) < q.rate_limit_max) key_is below in
            omega (arith, moved, one-le key v)
        | inr k ↦ rw (same, k) (omega (arith, h key named))
      ]
  Origin-room (Call.complete id) q v key named h (t, e, same) = rw same (omega (arith, h key named))
  Origin-room (Call.fail id error now) q v key named h (t, e, inl same) =
      rw same (omega (arith, h key named))
  Origin-room (Call.fail id error now) q v key named h (t, e, inr (_, same)) =
      rw same (omega (arith, h key named))

  step-IsShaped : (c : Call P) (q : Queue P) → IsShaped q → IsShaped (step c q)
  unfolding Store.all
  step-IsShaped c q h key named = rw (step-rate_limit_max c q) (elim (step-Writes c q) [
    | inl same ↦
        subst (λ d. flights key (Dict.values d) ≤ q.rate_limit_max) (sym same) (h key named)
    | inr (v, e, o) ↦
        subst (λ d. flights key (Dict.values d) ≤ q.rate_limit_max) (sym e)
          (omega
            (arith, flights-put key v.task_id q.store.tasks v, Origin-room c q v key named h o))
  ])

  -- Where no key but the empty one has more tasks in processing than the limit, no run of calls
  -- brings such a key above it.
  pub play-IsShaped : (cs : List (Call P)) (q : Queue P) → IsShaped q → IsShaped (play cs q)
  play-IsShaped = play-keeps IsShaped step-IsShaped
