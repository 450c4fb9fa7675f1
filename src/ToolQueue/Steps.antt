-- ===== src/ToolQueue/Steps.antt =====
-- async_tool_queue.py: the calls that change a queue, and a run of them in any order.
use allcallall_agent_runtime.Common.{ℕ, String, List, [], ◌∷◌}
use allcallall_agent_runtime.ToolQueue.Store.{Task}
use allcallall_agent_runtime.ToolQueue.Queue
use allcallall_agent_runtime.ToolQueue.Queue.{Queue}

-- `enqueue` carries the new uuid, `claim` the owner, the instant and the visibility timeout.
pub data Call {ℓ} (P : Type ℓ) : Type ℓ where
  enqueue : String → Task P → Call P
  claim : String → ℕ → ℕ → Call P
  complete : String → Call P
  fail : String → String → ℕ → Call P

module _ {ℓ} {P : Type ℓ} where
  abbrev pub step : Call P → Queue P → Queue P
  step (Call.enqueue id t) q = (Queue.enqueue id t q).1
  step (Call.claim owner now visibility_timeout) q = (Queue.claim owner now visibility_timeout q).1
  step (Call.complete id) q = Queue.complete id q
  step (Call.fail id error now) q = Queue.fail id error now q

  abbrev pub play : List (Call P) → Queue P → Queue P
  play [] q = q
  play (c ∷ cs) q = play cs (step c q)

  module _ (I : Queue P → Type ℓ) where
    -- What every call keeps, every run keeps.
    pub play-keeps :
        ((c : Call P) (q : Queue P) → I q → I (step c q))
        → (cs : List (Call P)) (q : Queue P) → I q
        → I (play cs q)
    play-keeps keeps [] q i = i
    play-keeps keeps (c ∷ cs) q i = play-keeps keeps cs (step c q) (keeps c q i)
