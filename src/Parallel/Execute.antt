-- ===== src/Parallel/Execute.antt =====
-- nodes/parallel_roles.py: `execute_parallel_roles`. What a role's branch does is a parameter, and
-- so is the order in which the futures of a group end. Metrics and threads are left out.
use allcallall_agent_runtime.Common.{
  ℕ, ◌+◌, Bool, ◌&&◌, ◌||◌, Option, none, some, List, [], ◌∷◌, ◌++◌, leb, ltb, length,
  if◌then◌else◌,
}
use allcallall_agent_runtime.Common.Int.{pos}
use allcallall_agent_runtime.Common.Result.{Result, ok, err}
use allcallall_agent_runtime.Workflow.State.{Role, searcher, memory_agent, synthesize, risk_analyst}
use allcallall_agent_runtime.Workflow.Router.{has_role, ordered_subset, is_empty}
use allcallall_agent_runtime.Parallel.Reservation.{
  Error, not_positive, unsupported, branch, Reservation, acquire, release_role, release,
  reserve_group_budget,
}
use allcallall_agent_runtime.Parallel.Deltas.{RoleDelta}

-- set(roles) - PARALLEL_ELIGIBLE_ROLES is not empty
unfoldable pub has_unsupported : List Role → Bool
has_unsupported roles = has_role synthesize roles || has_role risk_analyst roles

-- CANONICAL_ROLE_ORDER.index
abbrev pub place : Role → ℕ
place searcher = 0
place memory_agent = 1
place synthesize = 2
place risk_analyst = 3

module _ {T C B : Type 0} where
  -- deltas.sort(key=...), which is stable
  unfoldable pub insert_delta : RoleDelta T C B → List (RoleDelta T C B) → List (RoleDelta T C B)
  insert_delta a [] = a ∷ []
  insert_delta a (b ∷ bs) =
      if leb (place a.role) (place b.role) then a ∷ b ∷ bs else b ∷ insert_delta a bs

  unfoldable pub sort_deltas : List (RoleDelta T C B) → List (RoleDelta T C B)
  sort_deltas [] = []
  sort_deltas (a ∷ rest) = insert_delta a (sort_deltas rest)

-- What the call raises or returns, and the reservation it leaves, if it made one.
abbrev pub Ended : (T C B E : Type 0) → Type 0
Ended T C B E = Result (Error E) (List (RoleDelta T C B)) × Option Reservation

module _ (estimate : Role → ℕ) where
  unfoldable pub total_estimate : List Role → ℕ
  total_estimate [] = 0
  total_estimate (role ∷ roles) = estimate role + total_estimate roles

  unfoldable pub budget_allows : List Role → ℕ → Bool
  budget_allows roles token_budget =
      ltb 1 (length roles) && (leb (total_estimate roles) token_budget && leb (length roles) 2)

  unfoldable pub acquire_all :
      {E : Type 0} → List Role → Reservation → Result (Error E) Reservation × Reservation
  acquire_all [] r = (ok r, r)
  acquire_all (role ∷ roles) r = elim (acquire role (pos (estimate role)) r) [
    | err e ↦ (err e, r)
    | ok r' ↦ acquire_all roles r'
  ]

module _ {T C B E : Type 0} where
  -- The `finally` of the outer block.
  abbrev pub ended : Result (Error E) (List (RoleDelta T C B)) × Reservation → Ended T C B E
  ended (outcome, r) = (outcome, some (release r))

  module _ (run_role : Role → Result E (RoleDelta T C B)) (estimate : Role → ℕ) where
    -- The loop over the futures as they end; a failure drops what was gathered.
    unfoldable pub await_all :
        List Role
        → List (RoleDelta T C B)
        → Reservation
        → Result (Error E) (List (RoleDelta T C B)) × Reservation
    await_all [] deltas r = (ok (sort_deltas deltas), r)
    await_all (role ∷ roles) deltas r = elim (run_role role) [
      | err e ↦ (err (branch e), r)
      | ok delta ↦ await_all roles (deltas ++ delta ∷ []) (release_role delta.role r)
    ]

    unfoldable pub in_parallel :
        List Role
        → List Role
        → Reservation
        → Result (Error E) (List (RoleDelta T C B)) × Reservation
    in_parallel roles finishing r =
        let (acquired, r') = acquire_all estimate roles r in
        elim acquired [ err e ↦ (err e, r') | ok _ ↦ await_all finishing [] r' ]

    unfoldable pub in_sequence :
        List Role
        → List (RoleDelta T C B)
        → Reservation
        → Result (Error E) (List (RoleDelta T C B)) × Reservation
    in_sequence [] deltas r = (ok deltas, r)
    in_sequence (role ∷ roles) deltas r = elim (acquire role (pos (estimate role)) r) [
      | err e ↦ (err e, r)
      | ok r' ↦ elim (run_role role) [
        | err e ↦ (err (branch e), r')
        | ok delta ↦ in_sequence roles (deltas ++ delta ∷ []) (release_role role r')
      ]
    ]

    -- `finishing` orders the roles as their futures end.
    unfoldable pub execute_ordered : (List Role → List Role) → List Role → ℕ → Ended T C B E
    execute_ordered finishing roles token_budget =
        let r = reserve_group_budget roles token_budget in
        if budget_allows estimate roles token_budget
        then ended (in_parallel roles (finishing roles) r)
        else ended (in_sequence roles [] r)

    unfoldable pub execute_parallel_roles :
        (List Role → List Role) → List Role → ℕ → ℕ → Ended T C B E
    execute_parallel_roles finishing roles max_parallel token_budget =
        if ltb max_parallel 1
        then (err not_positive, none)
        else if has_unsupported roles
        then (err unsupported, none)
        else if is_empty roles
        then (ok [], none)
        else execute_ordered finishing (ordered_subset roles) token_budget
