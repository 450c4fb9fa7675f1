-- ===== src/Workflow/Router.antt =====
-- nodes/role_router.py: which roles run. A role list is a list of the four role names; the texts
-- of the trace and the metrics counters are left out.
use Prim.Native.String.{len}
use allcallall_agent_runtime.Common.{
  ℕ, ◌+◌, Bool, true, false, not, ◌&&◌, ◌||◌, Option, none, some, String, List, [], ◌∷◌, ◌++◌, leb,
  ltb, length, if◌then◌else◌,
}
use allcallall_agent_runtime.Common.Eq.{◌==◌, string_eq}
use allcallall_agent_runtime.Workflow.State.{
  State, Request, Role, searcher, memory_agent, synthesize, risk_analyst, Complexity, simple,
  moderate, complex, RoleAllocation, role_allocated,
}

-- `==` on role names
abbrev pub same_role : Role → Role → Bool
same_role searcher searcher = true
same_role memory_agent memory_agent = true
same_role synthesize synthesize = true
same_role risk_analyst risk_analyst = true
same_role _ _ = false

unfoldable pub has_role : Role → List Role → Bool
has_role r [] = false
has_role r (q ∷ qs) = same_role q r || has_role r qs

-- _ROLE_ORDER and CANONICAL_ROLE_ORDER
abbrev pub role_order : List Role
role_order = searcher ∷ memory_agent ∷ synthesize ∷ risk_analyst ∷ []

-- `_PRESET_ROLES`, with the default of `get`
unfoldable pub preset_roles : String → List Role
preset_roles preset =
    if preset == "meeting_brief"
    then role_order
    else if preset == "react_general"
    then searcher ∷ memory_agent ∷ synthesize ∷ []
    else if preset == "risk_review"
    then searcher ∷ synthesize ∷ risk_analyst ∷ []
    else if preset == "follow_up_planner"
    then searcher ∷ memory_agent ∷ synthesize ∷ []
    else if preset == "context_qa"
    then searcher ∷ synthesize ∷ []
    else searcher ∷ memory_agent ∷ synthesize ∷ []

abbrev pub is_empty {ℓ} : {A : Type ℓ} → List A → Bool
is_empty [] = true
is_empty (x ∷ xs) = false

abbrev pub point : Bool → ℕ
point b = if b then 1 else 0

unfoldable pub classify_complexity : Request → Complexity
classify_complexity request =
    let score =
      point (leb 2 (length request.attachments))
      + point (not (is_empty request.meeting_transcripts))
      + point (ltb 100 (len request.goal))
      + point (request.preset == "risk_review") in
    if leb 3 score then complex else if leb 1 score then moderate else simple

-- [r for r in order if r in wanted]
unfoldable pub keep : List Role → List Role → List Role
keep [] wanted = []
keep (r ∷ rs) wanted = let rest = keep rs wanted in if has_role r wanted then r ∷ rest else rest

unfoldable pub ordered_subset : List Role → List Role
ordered_subset roles = keep role_order roles

abbrev pub says : String → Option String → Bool
says word none = false
says word (some intent) = intent == word

-- roles.append(role) where it is missing and the condition holds
unfoldable pub appended_if : Bool → Role → List Role → List Role
appended_if wanted r roles = if wanted && not (has_role r roles) then roles ++ r ∷ [] else roles

-- A chat about a general preset drops the roles but two, if there are more than three.
unfoldable pub chat_roles : Option String → String → List Role → List Role
chat_roles intent preset roles =
    if says "chat" intent
      && ((preset == "react_general" || preset == "follow_up_planner") && ltb 3 (length roles))
    then keep roles (searcher ∷ synthesize ∷ [])
    else roles

-- The groups of single roles behind the first pair.
unfoldable pub singles : List Role → List (List Role)
singles [] = []
singles (r ∷ rs) =
    let rest = singles rs in
    if same_role r searcher || same_role r memory_agent then rest else (r ∷ []) ∷ rest

unfoldable pub parallel_groups : List Role → List (List Role)
parallel_groups roles =
    if has_role searcher roles && has_role memory_agent roles
    then (searcher ∷ memory_agent ∷ []) ∷ singles roles
    else singles roles

-- set(_ROLE_ORDER) - set(roles)
unfoldable pub dropped_roles : List Role → List Role → List Role
dropped_roles [] roles = []
dropped_roles (r ∷ rs) roles =
    let rest = dropped_roles rs roles in if has_role r roles then rest else r ∷ rest

abbrev pub head_role : List Role → Option Role
head_role [] = none
head_role (r ∷ rs) = some r

-- The role behind the first place of `current`; none stands for "merge".
unfoldable pub role_behind : Role → List Role → Option Role
role_behind current [] = none
role_behind current (r ∷ rs) =
    let later = role_behind current rs in if same_role r current then head_role rs else later

abbrev pub allocated : Option RoleAllocation → List Role
allocated none = role_order
allocated (some a) = a.roles

module _ {R : Type 0} where
  unfoldable pub risk_is_mandatory : State R → Bool
  risk_is_mandatory s =
      s.request.preset == "risk_review"
      || (says "risk" s.intent_route
          || (not (is_empty s.request.write_tools)
              || (s.unresolved_approval || (s.safety_blocked || not (is_empty s.risk_flags)))))

  -- The list of roles that `route_roles` settles on.
  unfoldable pub chosen_roles : State R → List Role
  chosen_roles s =
      let preset = s.request.preset in
      let extended = appended_if (says "risk" s.intent_route) risk_analyst (preset_roles preset) in
      appended_if (risk_is_mandatory s) risk_analyst
        (ordered_subset (chat_roles s.intent_route preset extended))

  unfoldable pub allocation : State R → RoleAllocation
  allocation s =
      let roles = chosen_roles s in
      record {
        roles = roles;
        parallel_groups = parallel_groups roles;
        skip_roles = dropped_roles role_order roles;
        required_roles = if risk_is_mandatory s then risk_analyst ∷ [] else [];
        complexity = classify_complexity s.request;
      }

  unfoldable pub route_roles : State R → State R
  route_roles s =
      let a = allocation s in
      record s {
        role_allocation = some a;
        trace_events = s.trace_events ++ role_allocated a.roles a.skip_roles a.complexity ∷ [];
      }

  unfoldable pub next_role_after : State R → Option Role → Option Role
  next_role_after s none = head_role (allocated s.role_allocation)
  next_role_after s (some current) = role_behind current (allocated s.role_allocation)

-- The thresholds and the scores are thousandths.
pub record EarlyTerminationThresholds : Type 0 where
  pub evidence_sufficiency : ℕ
  pub citation_coverage : ℕ
  pub goal_coverage : ℕ

unfoldable pub should_terminate_early :
    ℕ → ℕ → ℕ → Bool → Bool → Bool → EarlyTerminationThresholds → Bool
should_terminate_early evidence citations goal required_roles_complete unresolved_approval
      safety_blocked thresholds =
    leb thresholds.evidence_sufficiency evidence
    && (leb thresholds.citation_coverage citations
        && (leb thresholds.goal_coverage goal
            && (required_roles_complete && (not unresolved_approval && not safety_blocked))))
