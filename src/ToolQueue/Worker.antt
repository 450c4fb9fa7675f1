-- ===== src/ToolQueue/Worker.antt =====
-- async_tool_queue.py: `ToolQueueWorker`. The executor is a parameter: what it raises, if it does.
use allcallall_agent_runtime.Common.{ℕ, Bool, true, false, none, some, String, List, [], ◌∷◌}
use allcallall_agent_runtime.Common.Result.{Result, ok, err}
use allcallall_agent_runtime.ToolQueue.Store.{Task}
use allcallall_agent_runtime.ToolQueue.Queue.{Queue, claim, complete, fail}

module _ {ℓ} {P : Type ℓ} (executor : Task P → Result String (Unit {0})) (owner : String)
    (visibility_timeout : ℕ) where
  unfoldable pub run_once : ℕ → Queue P → Bool × Queue P
  run_once now q =
      let (found, claimed) = claim owner now visibility_timeout q in
      elim found [
        | none ↦ (false, claimed)
        | some t ↦ elim (executor t) [
          | ok _ ↦ (true, complete t.task_id claimed)
          | err error ↦ (true, fail t.task_id error now claimed)
        ]
      ]

  -- The loop of `run`, at the instants at which it polls before `stop` is seen.
  unfoldable pub run : List ℕ → Queue P → Queue P
  run [] q = q
  run (now ∷ later) q = run later (run_once now q).1
