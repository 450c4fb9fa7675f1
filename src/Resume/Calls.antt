-- ===== src/Resume/Calls.antt =====
-- orchestration/harness.py: `_tool_call_id`, `_contract_tool_calls`, `_pending_approval` and
-- `_validate_resume_decisions`. `digest` is the SHA-256 digest of a text in hexadecimal, `decimal`
-- the text of a number, `canonical` the sorted JSON text of a call's arguments.
use Prim.Native.String.{◌++◌ as ◌<>◌}
use allcallall_agent_runtime.Common.{
  Bool, List, Option, String, [], if◌then◌else◌, leb, length, ltb, map, none, not, some, suc, true,
  ℕ, ◌&&◌, ◌||◌, ◌∷◌,
}
use allcallall_agent_runtime.Common.Eq.{contains, nat_eq, string_eq, ◌==◌}
use allcallall_agent_runtime.Common.Result.{Result, err, ok}
use allcallall_agent_runtime.Common.Text.{char_count, first_chars, is_blank}
use allcallall_agent_runtime.Retrieval.Helpers.{none_of, or_text}

-- The fields of a `ToolProposal` that the harness reads.
pub record Call (A : Type 0) : Type 0 where
  pub tool_call_id : String
  pub idempotency_key : String
  pub tool_name : String
  pub arguments : A

pub record PendingTool (A : Type 0) : Type 0 where
  pub tool_call_id : String
  pub tool_name : String
  pub arguments : A
  pub arguments_sha256 : String

pub record PendingApproval (A : Type 0) : Type 0 where
  pub approval_request_id : String
  pub tools : List (PendingTool A)

pub data Verdict : Type 0 where
  approve reject : Verdict

pub record ApprovalDecision : Type 0 where
  pub tool_call_id : String
  pub decision : Verdict

-- CheckpointConflictError, by its message; version_conflict is CheckpointVersionConflictError.
pub data Conflict : Type 0 where
  checkpoint_not_found request_missing execution_mismatch checkpoint_id_missing : Conflict
  version_conflict approval_mismatch decisions_mismatch ids_not_unique : Conflict

pub record Texts (A : Type 0) : Type 0 where
  pub digest : String → String
  pub decimal : ℕ → String
  pub canonical : A → String

-- len(set(ids)) == len(ids)
unfoldable pub all_distinct : List String → Bool
all_distinct [] = true
all_distinct (i ∷ ids) = not (contains ids i) && all_distinct ids

-- The loop over the decisions, `seen` being the ids of those before.
unfoldable pub decide_each : List String → List String → List String → Result Conflict (Unit {0})
decide_each expected seen [] = ok tt
decide_each expected seen (i ∷ ids) =
    let rest = decide_each expected (i ∷ seen) ids in
    if not (contains expected i) || contains seen i then err decisions_mismatch else rest

module _ {A : Type 0} (texts : Texts A) where
  abbrev pub id_of : Call A → String
  id_of call = call.tool_call_id

  -- proposal.tool_call_id or proposal.idempotency_key
  abbrev pub candidate : Call A → String
  candidate call = or_text call.tool_call_id call.idempotency_key

  unfoldable pub tool_call_id : Call A → String → ℕ → String
  tool_call_id call execution_id index =
      if is_blank (candidate call)
      then execution_id <> (":" <> texts.decimal (suc index))
      else if leb (char_count (candidate call)) 96
      then candidate call
      else execution_id <> (":" <> first_chars 24 (texts.digest (candidate call)))

  -- `_contract_tool_calls`, from `index` on.
  unfoldable pub contract_from : String → ℕ → List (Call A) → List (Call A)
  contract_from execution_id index [] = []
  contract_from execution_id index (call ∷ calls) =
      record call { tool_call_id = tool_call_id call execution_id index }
      ∷ contract_from execution_id (suc index) calls

  unfoldable pub contract_tool_calls : String → List (Call A) → List (Call A)
  contract_tool_calls execution_id calls = contract_from execution_id 0 calls

  abbrev pub pending_tool : Call A → PendingTool A
  pending_tool call = record {
    tool_call_id = call.tool_call_id;
    tool_name = call.tool_name;
    arguments = call.arguments;
    arguments_sha256 = texts.digest (texts.canonical call.arguments);
  }

  unfoldable pub approval_id : String → String
  approval_id execution_id =
      let request_id = execution_id <> ":approval" in
      if ltb 96 (char_count request_id)
      then "approval:" <> first_chars 32 (texts.digest execution_id)
      else request_id

  unfoldable pub pending_approval : String → List (Call A) → Option (PendingApproval A)
  pending_approval execution_id [] = none
  pending_approval execution_id (call ∷ calls) = some (record {
    approval_request_id = approval_id execution_id;
    tools = map pending_tool (call ∷ calls);
  })

  abbrev pub decided : List ApprovalDecision → List String
  decided decisions = map (λ d. d.tool_call_id) decisions

  unfoldable pub validate_resume_decisions :
      List (Call A) → List ApprovalDecision → Result Conflict (Unit {0})
  validate_resume_decisions calls decisions =
      let expected = map id_of calls in
      if none_of calls || not (length decisions == length calls)
      then err decisions_mismatch
      else if not (all_distinct expected)
      then err ids_not_unique
      else decide_each expected [] (decided decisions)
