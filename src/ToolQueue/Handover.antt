-- ===== src/ToolQueue/Handover.antt =====
-- orchestration/harness.py: `_enqueue_proposals`, which hands the proposals of a run to the queue.
-- `V` is the type of JSON values, `uuid` the supply of new uuids.
use Prim.Native.String.{◌++◌ as ◌<>◌}
use allcallall_agent_runtime.Common.{List, Option, String, [], none, some, ℕ, ◌+◌, ◌∷◌}
use allcallall_agent_runtime.Common.Eq.{string_eq}
use allcallall_agent_runtime.Common.Dict
use allcallall_agent_runtime.Common.Dict.{Dict}
use allcallall_agent_runtime.ToolQueue.Store.{Task, priority_to_int, queued}
use allcallall_agent_runtime.ToolQueue.Queue.{Queue, enqueue}
use allcallall_agent_runtime.Retrieval.Helpers.{or_text}

-- The fields of a ToolProposal that the queue needs.
pub record Proposal {ℓ} (V : Type ℓ) : Type ℓ where
  pub tool_name : String
  pub arguments : Dict String V
  pub idempotency_key : String
  pub queue_name : String
  pub priority : String
  pub rate_limit_key : String
  pub max_attempts : ℕ

-- `organization_id` and `user_id` of a request, as JSON values.
pub record Caller {ℓ} (V : Type ℓ) : Type ℓ where
  pub organization_id : V
  pub user_id : V

-- payload.setdefault(key, value)
unfoldable pub set_default {ℓ} : {V : Type ℓ} → Dict String V → String → V → Dict String V
set_default payload key value = elim (Dict.get payload key) [
  | none ↦ Dict.put payload key value
  | some old ↦ payload
]

module _ {V : Type 0} (uuid : ℕ → String) where
  abbrev pub stamped : Caller V → Dict String V → Dict String V
  stamped caller arguments =
      set_default (set_default arguments "organization_id" caller.organization_id) "user_id"
        caller.user_id

  -- getattr(proposal, "idempotency_key", "") or f"{tool_name}:{uuid.uuid4().hex}"
  abbrev pub key_of : ℕ → Proposal V → String
  key_of n proposal = or_text proposal.idempotency_key (proposal.tool_name <> (":" <> uuid n))

  -- The arguments of `enqueue`, which sets the other fields itself.
  abbrev pub task_of : Caller V → ℕ → Proposal V → Task (Dict String V)
  task_of caller n proposal = record {
    task_id = "";
    tool_name = proposal.tool_name;
    payload = stamped caller proposal.arguments;
    idempotency_key = key_of n proposal;
    queue_name = proposal.queue_name;
    priority = priority_to_int proposal.priority;
    rate_limit_key = proposal.rate_limit_key;
    max_attempts = proposal.max_attempts;
    attempts = 0;
    status = queued;
    lease_owner = "";
    lease_until = 0;
    scheduled_at = 0;
    last_error = "";
  }

  -- The loop, where `n` uuids were used.
  unfoldable pub enqueue_each :
      Caller V → ℕ → List (Proposal V) → Queue (Dict String V) → Queue (Dict String V)
  enqueue_each caller n [] q = q
  enqueue_each caller n (proposal ∷ proposals) q =
      enqueue_each caller (n + 2) proposals (enqueue (uuid (n + 1)) (task_of caller n proposal) q).1

  -- Without a queue nothing is handed over.
  unfoldable pub enqueue_proposals :
      Caller V
      → ℕ
      → List (Proposal V)
      → Option (Queue (Dict String V))
      → Option (Queue (Dict String V))
  enqueue_proposals caller n proposals none = none
  enqueue_proposals caller n proposals (some q) = some (enqueue_each caller n proposals q)
