-- ===== src/ToolQueue/Store.antt =====
-- async_tool_queue.py: `QueuedTask`, the priorities and `InMemoryTaskStore`. A task is one object
-- that the store's dictionary and its dead-letter list share, so the list holds task ids, and a
-- later change of a task shows in both.
use allcallall_agent_runtime.Common.{ℕ, Option, String, List, [], ◌∷◌, ◌++◌, if◌then◌else◌}
use allcallall_agent_runtime.Common.Eq.{◌==◌, string_eq, nat_eq}
use allcallall_agent_runtime.Common.Dict
use allcallall_agent_runtime.Common.Dict.{Dict}

pub data Status : Type 0 where
  queued processing done dead : Status

-- `_PRIORITY_TO_INT`, after `str(priority).lower()`; an unknown label is normal.
unfoldable pub priority_to_int : String → ℕ
priority_to_int label =
    if label == "high" then 1 else if label == "normal" then 5 else if label == "low" then 9 else 5

-- `P` is the type of payloads, which the queue only passes on.
pub record Task {ℓ} (P : Type ℓ) : Type ℓ where
  pub task_id : String
  pub tool_name : String
  pub payload : P
  pub idempotency_key : String
  pub queue_name : String
  pub priority : ℕ
  pub rate_limit_key : String
  pub max_attempts : ℕ
  pub attempts : ℕ
  pub status : Status
  pub lease_owner : String
  pub lease_until : ℕ
  pub scheduled_at : ℕ
  pub last_error : String

pub record Store {ℓ} (P : Type ℓ) : Type ℓ where
  pub tasks : Dict String (Task P)
  pub by_key : Dict String String
  pub dead_list : List String

module _ {ℓ} {P : Type ℓ} where
  abbrev pub empty : Store P
  empty = record { tasks = []; by_key = []; dead_list = [] }

  unfoldable pub add : Task P → Store P → Store P
  add t s = record s {
    tasks = Dict.put s.tasks t.task_id t;
    by_key = Dict.put s.by_key t.idempotency_key t.task_id;
  }

  unfoldable pub get : String → Store P → Option (Task P)
  get id s = Dict.get s.tasks id

  unfoldable pub all : Store P → List (Task P)
  all s = Dict.values s.tasks

  unfoldable pub update : Task P → Store P → Store P
  update t s = record s { tasks = Dict.put s.tasks t.task_id t }

  unfoldable pub mark_dead : Task P → Store P → Store P
  mark_dead t s = record s { dead_list = s.dead_list ++ t.task_id ∷ [] }
