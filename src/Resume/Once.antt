-- ===== src/Resume/Once.antt =====
-- orchestration/harness.py: what a resume needs, and why it cannot be repeated.
use allcallall_agent_runtime.Common.{
  Bool, Bool-cases, List, Option, Option-cases, String, [], ap, arith, eq_iff, false, inl, inr, map,
  none, not, refl, some, subst, sym, true, ℕ, ◌<◌, ◌∙◌, ◌∷◌, ◌≡◌,
}
use allcallall_agent_runtime.Common.Eq.{nat_eq, string_eq, ◌==◌}
use allcallall_agent_runtime.Common.Result.{Result, bind-ok, err, ok}
use allcallall_agent_runtime.Common.Text.{is_blank}
use allcallall_agent_runtime.Resume.Calls.{
  ApprovalDecision, Call, Conflict, Texts, approval_id, approval_mismatch, checkpoint_id_missing,
  contract_tool_calls, decided, execution_mismatch, id_of, pending_approval, request_missing,
  validate_resume_decisions, version_conflict,
}
use allcallall_agent_runtime.Resume.Checkpoint.{
  Response, ResumeRequest, Snapshot, check_approval, check_resume, checkpoint_contract,
  checkpoint_version, execution_id_matches, raise_if, resume_workflow, stored_request,
}
use allcallall_agent_runtime.Resume.Accepted.{IsDecided, not-false, validate-ok}

clash_err {ℓ κ} :
    {B : Type ℓ} {C : Type κ} {e : Conflict} {b : B}
    → ◌≡◌ {A = Result Conflict B} (err e) (ok b)
    → C
clash_err h = cc

pub ok-injective {ℓ} : {B : Type ℓ} {a b : B} → ◌≡◌ {A = Result Conflict B} (ok a) (ok b) → a ≡ b
ok-injective h = cc

module _ {A : Type 0} (texts : Texts A) where
  -- `request` fits the snapshot, whose request has the execution id `stored`: the ids match, the
  -- version is the expected one, the approval is the pending one and decides each pending call.
  pub record Fits (request : ResumeRequest) (s : Snapshot A) (stored : String) : Type 0 where
    pub known : s.execution_id ≡ some stored
    pub matches :
        execution_id_matches texts stored request.execution_id request.expected_checkpoint_version
        ≡ true
    pub version : checkpoint_version texts s ≡ request.expected_checkpoint_version
    pub approval : request.approval_request_id ≡ approval_id texts stored
    pub decides :
        IsDecided
          (map (id_of texts) (contract_tool_calls texts stored s.proposed))
          (decided texts request.decisions)

  raised : (b : Bool) (e : Conflict) (u : Unit) → raise_if texts b e ≡ ok u → b ≡ false
  raised true e u h = cc
  raised false e u h = refl

  stored_none :
      (s : Snapshot A) → s.execution_id ≡ none → stored_request texts s ≡ err request_missing
  stored_none s e = rw e refl

  pub stored_some :
      (s : Snapshot A) (x : String) → s.execution_id ≡ some x → stored_request texts s ≡ ok x
  stored_some s x e = rw e refl

  stored-ok :
      (s : Snapshot A) (stored : String)
      → stored_request texts s ≡ ok stored
      → s.execution_id ≡ some stored
  stored-ok s stored h = elim (Option-cases s.execution_id) [
    | inl e ↦ clash_err (sym (stored_none s e) ∙ h)
    | inr (x, e) ↦ e ∙ ap some (ok-injective (sym (stored_some s x e) ∙ h))
  ]

  contract_blank :
      (s : Snapshot A)
      → is_blank s.checkpoint_id ≡ true
      → checkpoint_contract texts (some s) ≡ err checkpoint_id_missing
  unfolding checkpoint_contract
  contract_blank s e = rw (e, checkpoint_contract) refl

  pub contract_some :
      (s : Snapshot A)
      → is_blank s.checkpoint_id ≡ false
      → checkpoint_contract texts (some s) ≡ ok (s.checkpoint_id, checkpoint_version texts s)
  unfolding checkpoint_contract
  contract_some s e = rw (e, checkpoint_contract) refl

  pub contract-ok :
      (s : Snapshot A) (c : String × ℕ)
      → checkpoint_contract texts (some s) ≡ ok c
      → (is_blank s.checkpoint_id ≡ false) × (c.1 ≡ checkpoint_version texts s)
  contract-ok s c h = elim (Bool-cases (is_blank s.checkpoint_id)) [
    | inl e ↦ clash_err (sym (contract_blank s e) ∙ h)
    | inr e ↦ (e, sym (ap (λ p. p.1) (ok-injective (sym (contract_some s e) ∙ h))))
  ]

  approval-ok :
      (stored request_id : String) (calls : List (Call A)) (u : Unit)
      → check_approval texts stored calls request_id ≡ ok u
      → request_id ≡ approval_id texts stored
  unfolding pending_approval
  approval-ok stored request_id [] u h = cc
  approval-ok stored request_id (c ∷ cs) u h =
      (eq_iff _ _).0 (not-false _ (raised _ approval_mismatch u h))

  -- A resume whose checks pass fits the checkpoint.
  pub check_resume-Fits :
      (request : ResumeRequest) (s : Snapshot A) (stored : String)
      → check_resume texts request s ≡ ok stored
      → Fits request s stored
  unfolding check_resume
  check_resume-Fits request s stored h =
      let (found, (e0, h0)) = bind-ok (stored_request texts s) _ stored h in
      let (u1, (e1, h1)) =
        bind-ok
          (raise_if texts
            (not (
              execution_id_matches texts found request.execution_id
                request.expected_checkpoint_version))
            execution_mismatch)
          _ stored h0 in
      let (c, (e2, h2)) = bind-ok (checkpoint_contract texts (some s)) _ stored h1 in
      let (u3, (e3, h3)) =
        bind-ok (raise_if texts (not (c.1 == request.expected_checkpoint_version)) version_conflict)
          _ stored h2 in
      let calls = contract_tool_calls texts found s.proposed in
      let (u4, (e4, h4)) =
        bind-ok (check_approval texts found calls request.approval_request_id) _ stored h3 in
      let (u5, (e5, h5)) =
        bind-ok (validate_resume_decisions texts calls request.decisions) _ stored h4 in
      subst (λ x. Fits request s x) (ok-injective h5)
        (record {
          known = stored-ok s found e0;
          matches = not-false _ (raised _ execution_mismatch u1 e1);
          version =
              sym (contract-ok s c e2).1
              ∙ (nat_eq.same_iff _ _).0 (not-false _ (raised _ version_conflict u3 e3));
          approval = approval-ok found request.approval_request_id calls u4 e4;
          decides = validate-ok texts calls request.decisions e5;
        })

  -- The first three checks, on a snapshot whose version has moved on.
  outdated :
      (request : ResumeRequest) (s : Snapshot A) (stored : String)
      → s.execution_id ≡ some stored
      → execution_id_matches texts stored request.execution_id request.expected_checkpoint_version
        ≡ true
      → is_blank s.checkpoint_id ≡ false
      → (checkpoint_version texts s == request.expected_checkpoint_version) ≡ false
      → check_resume texts request s ≡ err version_conflict
  unfolding check_resume checkpoint_contract checkpoint_version pending_approval
  outdated request s stored known matches full late =
      rw (known, matches, contract_some s full, late, check_resume) refl

  differs : (a b c : ℕ) → a ≡ b → a < c → (c == b) ≡ false
  differs a b c h lt = ground arith

  again :
      (update_state : Snapshot A → List ApprovalDecision → Option (Snapshot A))
      → ((s t : Snapshot A) (ds : List ApprovalDecision)
          → update_state s ds ≡ some t
          → (t.execution_id ≡ s.execution_id)
            × (checkpoint_version texts s < checkpoint_version texts t))
      → (request : ResumeRequest) (s : Snapshot A) (stored : String) (updated : Option (Snapshot A))
        (c : String × ℕ)
      → Fits request s stored
      → update_state s request.decisions ≡ updated
      → checkpoint_contract texts updated ≡ ok c
      → resume_workflow texts update_state request updated ≡ err version_conflict
  unfolding resume_workflow checkpoint_contract
  again update_state law request s stored none c fits same h = cc
  again update_state law request s stored (some t) c fits same h =
      let (kept, later) = law s t request.decisions same in
      let full = (contract-ok t c h).0 in
      let late =
        differs (checkpoint_version texts s) request.expected_checkpoint_version
          (checkpoint_version texts t) fits.version later in
      rw (outdated request t stored (kept ∙ fits.known) fits.matches full late, resume_workflow)
        refl

  -- Where the graph keeps the request of its thread and raises the version with each update: after
  -- a resume that was accepted, the same request is refused with a version conflict.
  pub resume_workflow-once :
      (update_state : Snapshot A → List ApprovalDecision → Option (Snapshot A))
      → ((s t : Snapshot A) (ds : List ApprovalDecision)
          → update_state s ds ≡ some t
          → (t.execution_id ≡ s.execution_id)
            × (checkpoint_version texts s < checkpoint_version texts t))
      → (request : ResumeRequest) (s : Snapshot A) (updated : Option (Snapshot A))
        (response : Response A)
      → resume_workflow texts update_state request (some s) ≡ ok (updated, response)
      → resume_workflow texts update_state request updated ≡ err version_conflict
  unfolding resume_workflow
  resume_workflow-once update_state law request s updated response h =
      let (stored, (e, h0)) = bind-ok (check_resume texts request s) _ (updated, response) h in
      let (c, (e1, h1)) =
        bind-ok (checkpoint_contract texts (update_state s request.decisions)) _ (updated, response)
          h0 in
      let fits = check_resume-Fits request s stored e in
      let same : update_state s request.decisions ≡ updated = ap (λ p. p.0) (ok-injective h1) in
      again update_state law request s stored updated c fits same (rw same at e1)

  -- A resume that succeeds found a checkpoint that its request fits: the execution ids match, the
  -- version is the expected one, the approval is the pending one, and the decisions name each
  -- pending call exactly once and nothing else.
  pub resume_workflow-Fits :
      (update_state : Snapshot A → List ApprovalDecision → Option (Snapshot A))
      (request : ResumeRequest) (s : Snapshot A) (updated : Option (Snapshot A))
      (response : Response A)
      → resume_workflow texts update_state request (some s) ≡ ok (updated, response)
      → (stored : String) × Fits request s stored
  unfolding resume_workflow
  resume_workflow-Fits update_state request s updated response h =
      let (stored, (e, h0)) = bind-ok (check_resume texts request s) _ (updated, response) h in
      (stored, check_resume-Fits request s stored e)
