-- ===== src/ToolQueue/Working.antt =====
-- async_tool_queue.py: the calls that the worker makes.
use allcallall_agent_runtime.Common.{
  ℕ, ◌+◌, ◌≡◌, refl, sym, ap, ◌∙◌, none, some, String, List, [], ◌∷◌, ◌++◌, Option-cases, inl, inr,
}
use allcallall_agent_runtime.Common.Result.{Result, ok, err, Result-cases}
use allcallall_agent_runtime.ToolQueue.Store.{Task}
use allcallall_agent_runtime.ToolQueue.Queue.{Queue, candidate, leased}
use allcallall_agent_runtime.ToolQueue.Steps.{Call, step, play}
use allcallall_agent_runtime.ToolQueue.Claims.{claim-none, claim-some}
use allcallall_agent_runtime.ToolQueue.Worker.{run_once, run}

module _ {P : Type 0} (executor : Task P → Result String (Unit {0})) (owner : String)
    (timeout : ℕ) where
  -- The calls of one round: a claim, and then a report on the task if there is one.
  abbrev pub report : ℕ → Task P → List (Call P)
  report now t = elim (executor t) [
    | ok _ ↦ Call.complete t.task_id ∷ []
    | err error ↦ Call.fail t.task_id error now ∷ []
  ]

  abbrev pub round : ℕ → Queue P → List (Call P)
  round now q =
      Call.claim owner now timeout
      ∷ elim (candidate now q) [ none ↦ [] | some t ↦ report now (leased owner (now + timeout) t) ]

  abbrev pub rounds : List ℕ → Queue P → List (Call P)
  rounds [] q = []
  rounds (now ∷ later) q = round now q ++ rounds later (run_once executor owner timeout now q).1

  run_once-play :
      (now : ℕ) (q : Queue P) → (run_once executor owner timeout now q).1 ≡ play (round now q) q
  unfolding run_once
  run_once-play now q = elim (Option-cases (candidate now q)) [
    | inl e ↦ rw (claim-none owner now timeout q e, e, run_once, play) refl
    | inr (t, e) ↦ elim (Result-cases (executor (leased owner (now + timeout) t))) [
      | inl (error, f) ↦ rw (claim-some owner now timeout q t e, e, f, run_once, play) refl
      | inr (x, f) ↦ rw (claim-some owner now timeout q t e, e, f, run_once, play) refl
    ]
  ]

  play-append : (cs ds : List (Call P)) (q : Queue P) → play (cs ++ ds) q ≡ play ds (play cs q)
  play-append [] ds q = refl
  play-append (c ∷ cs) ds q = play-append cs ds (step c q)

  -- The worker, polled at any instants, makes exactly these calls: in each round a claim, then
  -- `complete` where the executor returns and `fail` with its error where it raises.
  pub run-play :
      (times : List ℕ) (q : Queue P) → run executor owner timeout times q ≡ play (rounds times q) q
  unfolding run
  run-play [] q = refl
  run-play (now ∷ later) q =
      run-play later (run_once executor owner timeout now q).1
      ∙ ap (play (rounds later (run_once executor owner timeout now q).1)) (run_once-play now q)
      ∙ sym (play-append (round now q) (rounds later (run_once executor owner timeout now q).1) q)
