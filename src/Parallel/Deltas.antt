-- ===== src/Parallel/Deltas.antt =====
-- nodes/parallel_roles.py: `RoleDelta` and `merge_role_deltas`. `T` is the type of trace events,
-- `C` that of citations, `Key` what a citation is compared by.
use allcallall_agent_runtime.Common.{Option, none, some, String, List, [], ◌∷◌, ◌++◌, if◌then◌else◌}
use allcallall_agent_runtime.Common.Eq.{Eq, string_eq, contains}
use allcallall_agent_runtime.Common.Dict
use allcallall_agent_runtime.Common.Dict.{Dict}
use allcallall_agent_runtime.Workflow.State.{Role}
use allcallall_agent_runtime.Parallel.Reservation.{role_eq, is_some}

-- The result of one role; `body` is what the merge does not look at.
pub record RoleResult (B : Type 0) : Type 0 where
  pub role : Role
  pub body : B

pub record RoleDelta (T C B : Type 0) : Type 0 where
  pub role : Role
  pub trace_events : List T
  pub role_result : RoleResult B
  pub citations : List C
  pub action_items : List String
  pub risk_flags : List String

-- The update of the graph state; `by_name` holds the results under their role's name.
pub record Merged (T C B : Type 0) : Type 0 where
  pub by_name : List (Role × RoleResult B)
  pub trace_events : List T
  pub role_results : List (RoleResult B)
  pub citations : List C
  pub action_items : List String
  pub risk_flags : List String

module _ {A Key : Type 0} ⦃e : Eq Key⦄ (key : A → Key) where
  -- The first of each key, in order: the loop over `citation_keys`, and `dict.fromkeys`.
  unfoldable pub dedupe : List Key → List A → List A
  dedupe seen [] = []
  dedupe seen (x ∷ xs) =
      let here = dedupe seen xs in
      let there = dedupe (key x ∷ seen) xs in if contains seen (key x) then here else x ∷ there

abbrev as_key : String → String
as_key text = text

module _ {T C B Key : Type 0} ⦃e : Eq Key⦄ (key : C → Key) where
  -- {delta["role"]: delta for delta in deltas}: a later delta of a role replaces an earlier one.
  unfoldable pub by_role :
      List (RoleDelta T C B) → Dict Role (RoleDelta T C B) → Dict Role (RoleDelta T C B)
  by_role [] d = d
  by_role (delta ∷ deltas) d = by_role deltas (Dict.put d delta.role delta)

  -- [by_role[role] for role in canonical_order if role in by_role]
  unfoldable pub ordered : List Role → (Role → Option (RoleDelta T C B)) → List (RoleDelta T C B)
  ordered [] found = []
  ordered (role ∷ roles) found =
      let rest = ordered roles found in
      elim (found role) [ none ↦ rest | some delta ↦ delta ∷ rest ]

  -- [result for result in parent_results if result.role not in by_role]
  unfoldable pub untouched :
      (Role → Option (RoleDelta T C B)) → List (RoleResult B) → List (RoleResult B)
  untouched found [] = []
  untouched found (r ∷ rs) =
      let rest = untouched found rs in if is_some (found r.role) then rest else r ∷ rest

  unfoldable pub collect :
      {A : Type 0} → (RoleDelta T C B → List A) → List (RoleDelta T C B) → List A
  collect part [] = []
  collect part (delta ∷ deltas) = part delta ++ collect part deltas

  -- The merge, over the look-up in `by_role`.
  unfoldable pub merge_found :
      (Role → Option (RoleDelta T C B)) → List Role → List T → List (RoleResult B) → Merged T C B
  merge_found found canonical_order parent_trace_events parent_role_results =
      let deltas = ordered canonical_order found in
      record {
        by_name = collect (λ d. (d.role, d.role_result) ∷ []) deltas;
        trace_events = parent_trace_events ++ collect (λ d. d.trace_events) deltas;
        role_results =
            untouched found parent_role_results ++ collect (λ d. d.role_result ∷ []) deltas;
        citations = dedupe key [] (collect (λ d. d.citations) deltas);
        action_items = dedupe as_key [] (collect (λ d. d.action_items) deltas);
        risk_flags = dedupe as_key [] (collect (λ d. d.risk_flags) deltas);
      }

  unfoldable pub merge_role_deltas :
      List (RoleDelta T C B) → List Role → List T → List (RoleResult B) → Merged T C B
  merge_role_deltas deltas = merge_found (λ role. Dict.get (by_role deltas []) role)
