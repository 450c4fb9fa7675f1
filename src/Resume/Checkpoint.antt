-- ===== src/Resume/Checkpoint.antt =====
-- orchestration/harness.py: `run_workflow` and `resume_workflow`, over the durable checkpoint. What
-- the graph's `update_state` makes of a snapshot is a parameter.
use Prim.Native.Char.{Char, code}
use Prim.Native.Nat.{compare}
use Prim.Native.String.{◌++◌ as ◌<>◌}
use text.Mathlib.Text.{is_eq}
use allcallall_agent_runtime.Common.{
  Bool, List, Option, String, [], false, if◌then◌else◌, leb, max, none, not, some, true, ℕ, ◌&&◌,
  ◌||◌,
}
use allcallall_agent_runtime.Common.Eq.{nat_eq, string_eq, ◌==◌}
use allcallall_agent_runtime.Common.Result.{Result, err, ok, ◌>>=◌, ◌>>◌}
use allcallall_agent_runtime.Common.Text.{char_count, is_blank}
use allcallall_agent_runtime.Resume.Calls.{
  ApprovalDecision, Call, Conflict, PendingApproval, Texts, approval_mismatch,
  checkpoint_id_missing, checkpoint_not_found, contract_tool_calls, execution_mismatch,
  request_missing, validate_resume_decisions, version_conflict, pending_approval,
}

-- A snapshot of the graph's state, with the execution id of its request, if the request is there.
-- `history` is the number of snapshots of its thread.
pub record Snapshot (A : Type 0) : Type 0 where
  pub execution_id : Option String
  pub proposed : List (Call A)
  pub checkpoint_id : String
  pub checkpoint_version : ℕ
  pub history : ℕ

pub record ResumeRequest : Type 0 where
  pub execution_id : String
  pub expected_checkpoint_version : ℕ
  pub approval_request_id : String
  pub decisions : List ApprovalDecision

-- The fields of a `WorkflowResponse` that bind it to its checkpoint.
pub record Response (A : Type 0) : Type 0 where
  pub execution_id : String
  pub checkpoint_id : String
  pub checkpoint_version : ℕ
  pub proposed_tool_calls : List (Call A)
  pub pending_approval : Option (PendingApproval A)
  pub approval_decisions : List ApprovalDecision

-- What is left of a text behind a prefix.
unfoldable pub behind : String → String → Option String
behind String.[] s = some s
behind (String.◌∷◌ c t) String.[] = none
behind (String.◌∷◌ c t) (String.◌∷◌ d s) =
    let rest = behind t s in if is_eq (compare (code c) (code d)) then rest else none

-- [0-9a-f]
abbrev is_hex : Char → Bool
is_hex c = let n = code c in (leb 48 n && leb n 57) || (leb 97 n && leb n 102)

unfoldable pub all_hex : String → Bool
all_hex String.[] = true
all_hex (String.◌∷◌ c s) = is_hex c && all_hex s

module _ {A : Type 0} (texts : Texts A) where
  unfoldable pub checkpoint_version : Snapshot A → ℕ
  checkpoint_version s =
      max 1 (if s.checkpoint_version == 0 then s.history else s.checkpoint_version)

  -- `_checkpoint_contract`
  unfoldable pub checkpoint_contract : Option (Snapshot A) → Result Conflict (String × ℕ)
  checkpoint_contract none = err checkpoint_not_found
  checkpoint_contract (some s) =
      if is_blank s.checkpoint_id
      then err checkpoint_id_missing
      else ok (s.checkpoint_id, checkpoint_version s)

  -- The pattern of `_resume_execution_id_matches`.
  unfoldable pub is_resume_of : String → ℕ → String → Bool
  is_resume_of stored version requested =
      elim (behind (stored <> (":resume:" <> (texts.decimal version <> ":"))) requested) [
        | none ↦ false
        | some rest ↦ char_count rest == 16 && all_hex rest
      ]

  unfoldable pub execution_id_matches : String → String → ℕ → Bool
  execution_id_matches stored requested version =
      requested == stored || is_resume_of stored version requested

  -- `_response_from_graph_result`, which makes the contract of the calls once more.
  unfoldable pub respond : String → List (Call A) → String × ℕ → List ApprovalDecision → Response A
  respond execution_id calls (checkpoint, version) decisions =
      let proposed = contract_tool_calls texts execution_id calls in
      record {
        execution_id = execution_id;
        checkpoint_id = checkpoint;
        checkpoint_version = version;
        proposed_tool_calls = proposed;
        pending_approval = pending_approval texts execution_id proposed;
        approval_decisions = decisions;
      }

  -- The end of `run_workflow`, for a run that left `s` and whose checkpoints are durable.
  unfoldable pub run_response : String → Snapshot A → Result Conflict (Response A)
  run_response execution_id s = do
    contract ← checkpoint_contract (some s)
    ok (respond execution_id (contract_tool_calls texts execution_id s.proposed) contract [])

  -- if b: raise e
  abbrev pub raise_if : Bool → Conflict → Result Conflict (Unit {0})
  raise_if b e = if b then err e else ok tt

  abbrev pub stored_request : Snapshot A → Result Conflict String
  stored_request s = elim s.execution_id [ none ↦ err request_missing | some stored ↦ ok stored ]

  abbrev pub check_approval : String → List (Call A) → String → Result Conflict (Unit {0})
  check_approval stored calls request_id = elim (pending_approval texts stored calls) [
    | none ↦ err approval_mismatch
    | some pending ↦ raise_if (not (request_id == pending.approval_request_id)) approval_mismatch
  ]

  -- The checks of `resume_workflow`, in order; the execution id that the checkpoint holds.
  unfoldable pub check_resume : ResumeRequest → Snapshot A → Result Conflict String
  check_resume request s = do
    stored ← stored_request s
    raise_if
        (not (execution_id_matches stored request.execution_id request.expected_checkpoint_version))
        execution_mismatch
    contract ← checkpoint_contract (some s)
    raise_if (not (contract.1 == request.expected_checkpoint_version)) version_conflict
    let calls = contract_tool_calls texts stored s.proposed
    check_approval stored calls request.approval_request_id
    validate_resume_decisions texts calls request.decisions
    ok stored

  -- The snapshot behind the update, and the response.
  unfoldable pub resume_workflow :
      (Snapshot A → List ApprovalDecision → Option (Snapshot A))
      → ResumeRequest
      → Option (Snapshot A)
      → Result Conflict (Option (Snapshot A) × Response A)
  resume_workflow update_state request none = err checkpoint_not_found
  resume_workflow update_state request (some s) = do
    stored ← check_resume request s
    let updated = update_state s request.decisions
    contract ← checkpoint_contract updated
    ok (
      updated,
      record (respond stored [] contract request.decisions) { execution_id = request.execution_id },
    )
