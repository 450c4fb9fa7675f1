-- ===== src/Workflow/Check.antt =====
-- nodes/check.py: the two review nodes, after their cancellation check.
use allcallall_agent_runtime.Common.{
  ℕ, ◌+◌, Bool, true, false, not, ◌||◌, Option, none, some, String, List, [], ◌∷◌, ◌++◌, leb,
  length, if◌then◌else◌,
}
use allcallall_agent_runtime.Common.Eq.{string_eq, contains}
use allcallall_agent_runtime.Workflow.State.{
  State, Decision, Agent, pass, revise, escalate, Verdict, accept, reject, escalated, Outcome,
  OutputDecision, CriticResult, ToolProposal, check_decision, quality, safety, Rationale,
  no_rationale, budget_exhausted, no_critic, context_insufficient, grounding_failed, quality_issues,
  acceptable, unsafe_write, no_risk, risk_flags_raised,
}

-- OutputDecision()
abbrev pub new_decision : OutputDecision
new_decision = record {
  final_verdict = accept;
  l1_decision = none;
  l2_decision = none;
  revision_count = 0;
  quality_trend = [];
  confidence_trajectory = [];
  check_log = [];
  total_review_cycles = 1;
  rationale = no_rationale;
}

abbrev pub or_new : Option OutputDecision → OutputDecision
or_new none = new_decision
or_new (some od) = od

-- The four lines before the branch on the decision.
abbrev pub noted_quality : Outcome → OutputDecision → OutputDecision
noted_quality o od = record od {
  l1_decision = some o.decision;
  quality_trend = od.quality_trend ++ o.decision ∷ [];
  confidence_trajectory = od.confidence_trajectory ++ o.score ∷ [];
  check_log = od.check_log ++ o ∷ [];
}

abbrev pub judged_quality : Decision → Outcome → OutputDecision → OutputDecision
judged_quality revise o od = record od {
  revision_count = od.revision_count + 1;
  total_review_cycles = od.total_review_cycles + 1;
}
judged_quality escalate o od = record od { final_verdict = escalated; rationale = o.rationale }
judged_quality pass o od = record od { final_verdict = accept; rationale = o.rationale }

unfoldable pub accumulate_quality : Option OutputDecision → Outcome → OutputDecision
accumulate_quality od o = judged_quality o.decision o (noted_quality o (or_new od))

-- `od.rationale or outcome.rationale`
abbrev pub rationale_or : Rationale → Rationale → Rationale
rationale_or no_rationale other = other
rationale_or budget_exhausted other = budget_exhausted
rationale_or no_critic other = no_critic
rationale_or context_insufficient other = context_insufficient
rationale_or grounding_failed other = grounding_failed
rationale_or quality_issues other = quality_issues
rationale_or acceptable other = acceptable
rationale_or unsafe_write other = unsafe_write
rationale_or no_risk other = no_risk
rationale_or (risk_flags_raised n) other = risk_flags_raised n

abbrev pub noted_safety : Outcome → OutputDecision → OutputDecision
noted_safety o od = record od { l2_decision = some o.decision; check_log = od.check_log ++ o ∷ [] }

abbrev pub judged_safety : Decision → Verdict → Outcome → OutputDecision → OutputDecision
judged_safety escalate v o od = record od { final_verdict = escalated; rationale = o.rationale }
judged_safety pass accept o od = record od { rationale = rationale_or od.rationale o.rationale }
judged_safety pass reject o od = od
judged_safety pass escalated o od = od
judged_safety revise v o od = od

unfoldable pub accumulate_safety : Option OutputDecision → Outcome → OutputDecision
accumulate_safety od o =
    let noted = noted_safety o (or_new od) in judged_safety o.decision noted.final_verdict o noted

-- The item loop of `safety_check`: is there a write that is not gated behind approval?
unfoldable pub has_unsafe : List ToolProposal → Bool
has_unsafe [] = false
has_unsafe (item ∷ items) =
    let rest = has_unsafe items in if item.approval_required then rest else true

abbrev pub outcome : Agent → Decision → Rationale → ℕ → Outcome
outcome agent decision rationale score = record {
  agent = agent;
  decision = decision;
  rationale = rationale;
  score = score;
}

module _ {R : Type 0} where
  -- `_record` and `_outcome_payload`, the payload merged into the state.
  abbrev pub recorded : Outcome → State R → State R
  recorded o s = record s {
    trace_events = s.trace_events ++ check_decision o ∷ [];
    check_log = o ∷ [];
    last_check_decision = some o.decision;
  }

  abbrev pub judged : Outcome → State R → State R
  judged o s = record (recorded o s) {
    output_decision = some (accumulate_quality s.output_decision o);
  }

  abbrev pub sent_back : Outcome → State R → State R
  sent_back o s = record (judged o s) { critic_retries = s.critic_retries + 1 }

  -- The branch for a critic that did not pass.
  unfoldable pub failed_check : CriticResult → State R → State R
  failed_check critic s =
      if contains critic.issues "insufficient_context_guarded" || not critic.context_sufficient
      then sent_back (outcome quality revise context_insufficient 300) s
      else if contains critic.issues "grounding_failed"
      then judged (outcome quality escalate grounding_failed 0) s
      else sent_back (outcome quality revise quality_issues 300) s

  unfoldable pub critic_decision : Option CriticResult → State R → State R
  critic_decision none s = recorded (outcome quality pass no_critic 500) s
  critic_decision (some critic) s =
      if critic.passed
      then judged (outcome quality pass acceptable critic.citation_coverage) s
      else failed_check critic s

  -- `max_retries` is app_config.max_quality_retries, a negative one read as 0.
  unfoldable pub quality_check : ℕ → State R → State R
  quality_check max_retries s =
      if leb max_retries s.critic_retries
      then recorded (outcome quality pass budget_exhausted 500) s
      else critic_decision s.critic_result s

  abbrev pub settled : Outcome → State R → State R
  settled o s = record (recorded o s) {
    output_decision = some (accumulate_safety s.output_decision o);
  }

  unfoldable pub flags_check : List String → State R → State R
  flags_check [] s = settled (outcome safety pass no_risk 1000) s
  flags_check (flag ∷ flags) s =
      settled (outcome safety escalate (risk_flags_raised (length (flag ∷ flags))) 200) s

  unfoldable pub safety_check : State R → State R
  safety_check s =
      if has_unsafe s.proposed_tool_calls
      then settled (outcome safety escalate unsafe_write 0) s
      else flags_check s.risk_flags s

  -- route_quality: true where it says "revise", false where it says "safety"
  unfoldable pub route_quality : State R → Bool
  route_quality s = elim s.last_check_decision [
    | none ↦ false
    | some decision ↦ elim decision [ revise ↦ true | pass ↦ false | escalate ↦ false ]
  ]
