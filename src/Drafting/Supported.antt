-- ===== src/Drafting/Supported.antt =====
-- nodes/approval.py behind the sufficiency gate: which writes are proposed, and on what evidence.
use allcallall_agent_runtime.Common.{
  Bool, List, String, [], ap, arith, clash, false, leb, leb→le, not, refl, true, ◌&&◌, ◌++◌, ◌||◌,
  ◌∷◌, ◌≡◌, ◌≤◌,
}
use allcallall_agent_runtime.Common.Eq.{contains, string_eq, ◌==◌}
use allcallall_agent_runtime.Retrieval.State.{EvidencePack}
use allcallall_agent_runtime.Retrieval.Helpers.{
  evaluate_context_sufficiency, has_chat_source, is_consult, is_risk, missing_if, missing_info,
  none_of, route_is, threshold,
}
use allcallall_agent_runtime.Drafting.Propose.{Workflow}

-- What the pack holds where nothing is missing and its confidence is high enough.
pub record HasEvidence (preset : String) (pack : EvidencePack) : Type 0 where
  pub cited : none_of pack.citations ≡ false
  pub confident : threshold pack ≤ pack.confidence
  pub briefed :
      (preset == "meeting_brief" && not (contains pack.source_types "meeting_transcript")) ≡ false
  pub risky :
      (route_is is_risk pack
        && not
            (contains pack.source_types "meeting_transcript" || has_chat_source pack.source_types))
      ≡ false
  pub asked : (route_is is_consult pack && not (contains pack.source_types "knowledge")) ≡ false

none_of-nil {ℓ} : {A : Type ℓ} (xs : List A) → none_of xs ≡ true → xs ≡ []
none_of-nil [] h = refl
none_of-nil (x ∷ xs) h = clash h refl

both : (a b : Bool) → (a && b) ≡ true → (a ≡ true) × (b ≡ true)
both a b h = ground arith

not_missing :
    (b : Bool) (what : String) (rest : List String)
    → none_of (missing_if b what ++ rest) ≡ true
    → (b ≡ false) × (none_of rest ≡ true)
not_missing true what rest h = clash h refl
not_missing false what rest h = (refl, h)

append_nil : (xs : List String) → xs ++ [] ≡ xs
append_nil [] = refl
append_nil (x ∷ xs) = ap (◌∷◌ x) (append_nil xs)

last_not_missing : (b : Bool) (what : String) → none_of (missing_if b what) ≡ true → b ≡ false
last_not_missing true what h = clash h refl
last_not_missing false what h = refl

pub sufficient-HasEvidence :
    (preset : String) (pack : EvidencePack)
    → (evaluate_context_sufficiency preset pack).sufficient ≡ true
    → HasEvidence preset pack
unfolding evaluate_context_sufficiency missing_info
sufficient-HasEvidence preset pack h =
    let (none_missing, enough) =
      both (none_of (missing_info preset pack)) (leb (threshold pack) pack.confidence) h in
    let types = pack.source_types in
    let asked = route_is is_consult pack && not (contains types "knowledge") in
    let last = missing_if asked "knowledge citation" in
    let risky =
      route_is is_risk pack && not (contains types "meeting_transcript" || has_chat_source types) in
    let fourth = missing_if risky "risk evidence" ++ last in
    let third =
      missing_if (preset == "context_qa" && none_of types) "knowledge or conversation evidence"
      ++ fourth in
    let second =
      missing_if (preset == "meeting_brief" && not (contains types "meeting_transcript"))
        "meeting transcript citation"
      ++ third in
    let (cited, h2) =
      not_missing (none_of pack.citations) "retrieved evidence" second none_missing in
    let (briefed, h3) = not_missing _ "meeting transcript citation" third h2 in
    let (any_type, h4) = not_missing _ "knowledge or conversation evidence" fourth h3 in
    let (risk_met, h5) = not_missing risky "risk evidence" last h4 in
    record {
      cited = cited;
      confident = leb→le _ _ enough;
      briefed = briefed;
      risky = risk_met;
      asked = last_not_missing asked "knowledge citation" h5;
    }
