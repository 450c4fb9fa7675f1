-- ===== src/Workflow/Verdict.antt =====
-- nodes/check.py: what an accepted draft has passed.
use allcallall_agent_runtime.Common.{
  ◌≡◌, refl, sym, ap, ◌∙◌, true, false, some, String, List, [], ◌∷◌, All, Bool-cases, inl, inr,
  clash, some-injective,
}
use allcallall_agent_runtime.Workflow.State.{
  State, Verdict, accept, reject, escalated, OutputDecision, ToolProposal, Outcome, pass, safety,
  no_risk,
}
use allcallall_agent_runtime.Workflow.Check.{
  safety_check, flags_check, has_unsafe, accumulate_safety, or_new, judged_safety, outcome,
  noted_safety,
}

-- Every write is gated behind approval.
abbrev pub AllGated : List ToolProposal → Type 0
AllGated items = All (λ item. item.approval_required ≡ true) items

has_unsafe-AllGated : (items : List ToolProposal) → has_unsafe items ≡ false → AllGated items
unfolding has_unsafe
has_unsafe-AllGated [] h = tt
has_unsafe-AllGated (item ∷ items) h = elim (Bool-cases item.approval_required) [
  | inl e ↦ (e, has_unsafe-AllGated items (rw (e, has_unsafe) at h))
  | inr e ↦ clash refl (rw (e, has_unsafe) at h)
]

accept≢escalated : {A : Type 0} → escalated ≡ accept → A
accept≢escalated h = cc

judged_safety-verdict :
    (v : Verdict) (o : Outcome) (od : OutputDecision)
    → od.final_verdict ≡ v
    → (judged_safety pass v o od).final_verdict ≡ v
judged_safety-verdict accept o od h = h
judged_safety-verdict reject o od h = h
judged_safety-verdict escalated o od h = h

module _ {R : Type 0} where
  flags_check-accept :
      (flags : List String) (s : State R) (od : OutputDecision)
      → (flags_check flags s).output_decision ≡ some od
      → od.final_verdict ≡ accept
      → (flags ≡ []) × ((or_new s.output_decision).final_verdict ≡ accept)
  unfolding flags_check accumulate_safety
  flags_check-accept [] s od e h = (
    refl,
    sym (
          judged_safety-verdict (or_new s.output_decision).final_verdict
            (outcome safety pass no_risk 1000)
            (noted_safety (outcome safety pass no_risk 1000) (or_new s.output_decision)) refl)
        ∙ ap (λ d. d.final_verdict) (some-injective e)
        ∙ h,
  )
  flags_check-accept (flag ∷ flags) s od e h =
      accept≢escalated (ap (λ d. d.final_verdict) (some-injective e) ∙ h)

  -- A draft whose verdict is "accept" behind the safety check had that verdict before, no policy
  -- risk flag, and no proposed write without an approval gate.
  pub safety_check-accept :
      (s : State R) (od : OutputDecision)
      → (safety_check s).output_decision ≡ some od
      → od.final_verdict ≡ accept
      → AllGated s.proposed_tool_calls
        × ((s.risk_flags ≡ []) × ((or_new s.output_decision).final_verdict ≡ accept))
  unfolding safety_check accumulate_safety
  safety_check-accept s od e h = elim (Bool-cases (has_unsafe s.proposed_tool_calls)) [
    | inl unsafe ↦
        accept≢escalated (ap (λ d. d.final_verdict) (some-injective (rw unsafe at e)) ∙ h)
    | inr safe ↦ (
      has_unsafe-AllGated s.proposed_tool_calls safe,
      flags_check-accept s.risk_flags s od (simp safe at e) h,
    )
  ]
