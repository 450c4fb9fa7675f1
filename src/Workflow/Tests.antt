-- ===== src/Workflow/Tests.antt =====
-- dag.py, nodes/check.py and nodes/role_router.py on concrete inputs.
use allcallall_agent_runtime.Workflow.Critic.{Evidence, critic_check}
use allcallall_agent_runtime.Common.{
  ◌+◌, ◌*◌, ◌≡◌, refl, true, false, Option, none, some, List, [], ◌∷◌, map,
}
use allcallall_agent_runtime.Common.Eq.{string_eq, contains}
use allcallall_agent_runtime.Workflow.State.{
  State, Request, searcher, synthesize, risk_analyst, Outcome, pass, revise, quality, safety,
  acceptable, quality_issues, no_risk, accept,
}
use allcallall_agent_runtime.Workflow.Check
use allcallall_agent_runtime.Workflow.Check.{
  quality_check, safety_check, route_quality, new_decision, or_new, outcome,
}
use allcallall_agent_runtime.Workflow.Verdict.{safety_check-accept, AllGated}
use allcallall_agent_runtime.Workflow.Router
use allcallall_agent_runtime.Workflow.Router.{
  chosen_roles, has_role, risk_is_mandatory, route_roles, EarlyTerminationThresholds,
  should_terminate_early,
}
use allcallall_agent_runtime.Workflow.Roles.{Descends}
use allcallall_agent_runtime.Workflow.Required.{chosen_roles-required}
use allcallall_agent_runtime.Workflow.Graph.{Node, Config, run, edge, route_first}
use allcallall_agent_runtime.Workflow.Reaching.{run-ends}
use allcallall_agent_runtime.Workflow.Gates.{run-reviewed, EndsReviewed}

abbrev request : Request
request = record {
  preset = "context_qa";
  goal = "Which actions are open?";
  attachments = [];
  meeting_transcripts = [];
  write_tools = [];
}

-- The critic wants a revision.
abbrev start : State (Unit {0})
start = record {
  request = request;
  intent_route = some "consult";
  critic_result =
      some
        (record { passed = false; issues = []; citation_coverage = 0; context_sufficient = true });
  critic_retries = 0;
  last_check_decision = none;
  check_log = [];
  role_allocation = none;
  output_decision = none;
  proposed_tool_calls = record { tool_name = "export"; approval_required = true } ∷ [];
  risk_flags = [];
  unresolved_approval = false;
  safety_blocked = false;
  trace_events = [];
  rest = tt;
}

abbrev dynamic : Config
dynamic = record {
  enable_role_router = true;
  enable_parallel_roles = false;
  max_quality_retries = 1;
}

abbrev idle : Node → State (Unit {0}) → State (Unit {0})
idle n s = s

abbrev visited : Option (List (Node × State (Unit {0}))) → List Node
visited none = []
visited (some trace) = map (λ v. v.0) trace

abbrev first_review : List Outcome
first_review =
    outcome quality revise quality_issues 300
    ∷ outcome quality pass acceptable 900
    ∷ outcome safety pass no_risk 1000
    ∷ []

program : Unit {0}
unfolding run edge route_first route_quality quality_check safety_check contains
    Check.critic_decision Check.failed_check Check.flags_check Check.has_unsafe
    Check.accumulate_quality Check.accumulate_safety Router.has_role Router.preset_roles Router.keep
    Router.ordered_subset Router.appended_if Router.chat_roles Router.risk_is_mandatory chosen_roles
    Router.allocation route_roles Router.role_behind Router.next_role_after
program =
    let short : chosen_roles start ≡ searcher ∷ synthesize ∷ [] = refl in
    let nodes : visited (run dynamic idle 30 Node.decompose start)
        ≡ Node.decompose
          ∷ Node.role_router
          ∷ Node.role searcher
          ∷ Node.role synthesize
          ∷ Node.merge
          ∷ Node.grounding_check
          ∷ Node.memory_reflection
          ∷ Node.propose_tools
          ∷ Node.critic_check
          ∷ Node.quality
          ∷ Node.role synthesize
          ∷ Node.merge
          ∷ Node.grounding_check
          ∷ Node.memory_reflection
          ∷ Node.propose_tools
          ∷ Node.critic_check
          ∷ Node.quality
          ∷ Node.safety
          ∷ Node.approval_gate
          ∷ Node.finalize
          ∷ [] =
      refl in
    tt

run-ends_example :
    (trace : List (Node × State (Unit {0}))) × (run dynamic idle
        (22 + 8 * 1)
        Node.collect_context
        start
      ≡ some trace)
run-ends_example = run-ends dynamic idle (λ n s. (refl, refl)) start

run-reviewed_example :
    EndsReviewed dynamic idle (run-ends dynamic idle (λ n s. (refl, refl)) start).0
run-reviewed_example =
    run-reviewed dynamic idle 30 start (run-ends dynamic idle (λ n s. (refl, refl)) start).0
      (run-ends dynamic idle (λ n s. (refl, refl)) start).1

safety_check-accept_example :
    AllGated start.proposed_tool_calls
    × ((start.risk_flags ≡ []) × ((or_new start.output_decision).final_verdict ≡ accept))
unfolding safety_check Check.has_unsafe Check.flags_check Check.accumulate_safety
safety_check-accept_example =
    safety_check-accept start
      (record new_decision {
        l2_decision = some pass;
        check_log = outcome safety pass no_risk 1000 ∷ [];
        rationale = no_risk;
      })
      refl refl

chosen_roles-required_example :
    Descends (chosen_roles start)
    × ((has_role searcher (chosen_roles start) ≡ true)
        × ((has_role synthesize (chosen_roles start) ≡ true)
            × (risk_is_mandatory start ≡ true → has_role risk_analyst (chosen_roles start) ≡ true)))
chosen_roles-required_example = chosen_roles-required start

abbrev thresholds : EarlyTerminationThresholds
thresholds = record { evidence_sufficiency = 700; citation_coverage = 500; goal_coverage = 800 }

-- The grounding check failed, with sufficient context.
abbrev ungrounded : Evidence
ungrounded = record {
  sufficient = true;
  grounded = false;
  citations = "chunk" ∷ [];
  coverage = 500;
  retrieval_attempts = "first" ∷ [];
  max_steps = 2;
  proposals = record { tool_name = "export"; approval_required = true } ∷ [];
}
