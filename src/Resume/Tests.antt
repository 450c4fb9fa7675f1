-- ===== src/Resume/Tests.antt =====
-- Approvals and their resumption on concrete inputs.
use Prim.Native.String.{◌++◌ as ◌<>◌}
use allcallall_agent_runtime.Common.{
  List, Option, String, [], ap, arith, map, none, refl, some, some-injective, subst, suc, sym, ℕ,
  ◌<◌, ◌∷◌, ◌≡◌,
}
use allcallall_agent_runtime.Common.Eq.{contains, nat_eq, string_eq}
use allcallall_agent_runtime.Common.Result.{Result, err, ok, ◌>>=◌}
use allcallall_agent_runtime.Common.Text.{char_count, first_chars}
use allcallall_agent_runtime.Resume.Calls.{
  ApprovalDecision, Call, Conflict, PendingApproval, Texts, all_distinct, approval_id, approve,
  contract_from, contract_tool_calls, decide_each, decisions_mismatch, id_of, pending_approval,
  tool_call_id, validate_resume_decisions, version_conflict,
}
use allcallall_agent_runtime.Resume.Checkpoint.{
  Response, ResumeRequest, Snapshot, all_hex, behind, check_resume, checkpoint_contract,
  checkpoint_version, execution_id_matches, is_resume_of, respond, resume_workflow,
}
use allcallall_agent_runtime.Resume.Once.{Fits, resume_workflow-Fits, resume_workflow-once}

abbrev zeros : String
zeros = "0000000000000000000000000000000000000000000000000000000000000000"

abbrev texts : Texts String
texts = record { digest = λ text. zeros; decimal = λ n. "1"; canonical = λ arguments. arguments }

abbrev send : Call String
send = record {
  tool_call_id = "";
  idempotency_key = "agent:1:write_conversation_message:meeting_brief";
  tool_name = "write_conversation_message";
  arguments = "hello";
}

-- A call without any key.
abbrev bare : Call String
bare = record { tool_call_id = ""; idempotency_key = ""; tool_name = "bare"; arguments = "" }

abbrev snapshot : Snapshot String
snapshot = record {
  execution_id = some "agent:1";
  proposed = send ∷ bare ∷ [];
  checkpoint_id = "c3";
  checkpoint_version = 3;
  history = 0;
}

abbrev decision : String → ApprovalDecision
decision call = record { tool_call_id = call; decision = approve }

abbrev request : ResumeRequest
request = record {
  execution_id = "agent:1";
  expected_checkpoint_version = 3;
  approval_request_id = "agent:1:approval";
  decisions =
      decision "agent:1:1" ∷ decision "agent:1:write_conversation_message:meeting_brief" ∷ [];
}

abbrev update : Snapshot String → List ApprovalDecision → Option (Snapshot String)
update s decisions = some (record s { checkpoint_version = suc (checkpoint_version texts s) })

-- The calls of a run, once as `resume_workflow` and once as the response has them.
ids_in_checkpoint : String → List (Call String) → List String
unfolding contract_tool_calls contract_from tool_call_id char_count first_chars
ids_in_checkpoint execution_id calls =
    map (id_of texts) (contract_tool_calls texts execution_id calls)

ids_in_response : String → List (Call String) → List String
unfolding contract_tool_calls contract_from tool_call_id char_count first_chars
ids_in_response execution_id calls =
    map (id_of texts)
      (contract_tool_calls texts execution_id (contract_tool_calls texts execution_id calls))

agree :
    ids_in_response "agent:1" (send ∷ bare ∷ []) ≡ ids_in_checkpoint "agent:1" (send ∷ bare ∷ [])
unfolding ids_in_response ids_in_checkpoint
agree = refl

-- An execution id of 96 characters: the id of a call without a key is hashed in the response.
abbrev long_id : String
long_id =
    "aaaaaaaaaaaaaaaaaaaaaaaaaaaaaaaaaaaaaaaaaaaaaaaaaaaaaaaaaaaaaaaaaaaaaaaaaaaaaaaaaaaaaaaaaaaaaaaa"

disagree :
    (ids_in_response long_id (bare ∷ []) ≡ (long_id <> ":000000000000000000000000") ∷ [])
    × (ids_in_checkpoint long_id (bare ∷ []) ≡ (long_id <> ":1") ∷ [])
unfolding ids_in_response ids_in_checkpoint
disagree = (refl, refl)

run : ResumeRequest → Option (Snapshot String) → Result Conflict (Option ℕ)
unfolding resume_workflow check_resume checkpoint_contract checkpoint_version execution_id_matches
    is_resume_of behind all_hex contract_tool_calls contract_from tool_call_id char_count
    pending_approval approval_id validate_resume_decisions all_distinct decide_each contains respond
run r s = do
  result ← resume_workflow texts update r s
  ok (elim result.0 [ none ↦ none | some t ↦ some t.checkpoint_version ])

taken : run request (some snapshot) ≡ ok (some 4)
unfolding run
taken = refl

-- The same decision twice.
twice :
    run
      (record request { decisions = decision "agent:1:1" ∷ decision "agent:1:1" ∷ [] })
      (some snapshot)
    ≡ err decisions_mismatch
unfolding run
twice = refl

resumed_shape :
    run
      (record request {
        execution_id = "agent:1:resume:1:00000000000000ff";
        expected_checkpoint_version = 4;
      })
      (some snapshot)
    ≡ err version_conflict
unfolding run
resumed_shape = refl

abbrev moved_on : Snapshot String
moved_on = record snapshot { checkpoint_version = 4 }

abbrev acknowledged : Response String
acknowledged = record {
  execution_id = "agent:1";
  checkpoint_id = "c3";
  checkpoint_version = 4;
  proposed_tool_calls = [];
  pending_approval = none;
  approval_decisions = request.decisions;
}

resumed : resume_workflow texts update request (some snapshot) ≡ ok (some moved_on, acknowledged)
unfolding resume_workflow check_resume checkpoint_contract checkpoint_version execution_id_matches
    is_resume_of behind all_hex contract_tool_calls contract_from tool_call_id char_count
    pending_approval approval_id validate_resume_decisions all_distinct decide_each contains respond
resumed = refl

positive :
    (s : Snapshot String)
    → suc (checkpoint_version texts s)
      ≡ checkpoint_version texts
          (record s { checkpoint_version = suc (checkpoint_version texts s) })
unfolding checkpoint_version
positive s = ground arith

update_law :
    (s t : Snapshot String) (ds : List ApprovalDecision)
    → update s ds ≡ some t
    → (t.execution_id ≡ s.execution_id) × (checkpoint_version texts s < checkpoint_version texts t)
update_law s t ds h =
    let e = some-injective h in
    (
      ap (λ r. r.execution_id) (sym e),
      subst (λ r. checkpoint_version texts s < checkpoint_version texts r) e
          (omega (arith, positive s)),
    )

resume_workflow-Fits_example : (stored : String) × Fits texts request snapshot stored
resume_workflow-Fits_example =
    resume_workflow-Fits texts update request snapshot (some moved_on) acknowledged resumed

resume_workflow-once_example :
    resume_workflow texts update request (some moved_on) ≡ err version_conflict
resume_workflow-once_example =
    resume_workflow-once texts update update_law request snapshot (some moved_on) acknowledged
      resumed

abbrev waiting : PendingApproval String
waiting = record {
  approval_request_id = "agent:1:approval";
  tools =
      record {
        tool_call_id = "agent:1:write_conversation_message:meeting_brief";
        tool_name = "write_conversation_message";
        arguments = "hello";
        arguments_sha256 = zeros;
      }
      ∷ record {
        tool_call_id = "agent:1:1";
        tool_name = "bare";
        arguments = "";
        arguments_sha256 = zeros;
      }
      ∷ [];
}

abbrev reported : Response String
reported = record {
  execution_id = "agent:1";
  checkpoint_id = "c3";
  checkpoint_version = 3;
  proposed_tool_calls =
      record send { tool_call_id = "agent:1:write_conversation_message:meeting_brief" }
      ∷ record bare { tool_call_id = "agent:1:1" }
      ∷ [];
  pending_approval = some waiting;
  approval_decisions = [];
}
