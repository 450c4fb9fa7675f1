-- ===== src/Parallel/Limits.antt =====
-- nodes/parallel_roles.py: a role that needs more than the whole budget, and the order of results.
use allcallall_agent_runtime.Common.{
  ℕ, ◌+◌, ◌<◌, ◌≡◌, refl, Bool, true, false, ◌&&◌, some, List, [], ◌∷◌, leb, ltb, length, arith,
  lt→ltb, lt→leb-false,
}
use allcallall_agent_runtime.Common.Dict
use allcallall_agent_runtime.Common.Int.{pos}
use allcallall_agent_runtime.Common.Result.{Result, err}
use allcallall_agent_runtime.Workflow.State.{Role}
use allcallall_agent_runtime.Workflow.Router.{has_role}
use allcallall_agent_runtime.Workflow.Required.{same_role_refl}
use allcallall_agent_runtime.Parallel.Reservation.{
  role_eq, token_budget_exceeded, acquire, acquire_estimate, acquire_within, release,
  reserve_group_budget,
}
use allcallall_agent_runtime.Parallel.Deltas.{RoleDelta}
use allcallall_agent_runtime.Parallel.Execute.{
  in_sequence, total_estimate, budget_allows, execute_ordered,
}

and-false : (a b c : Bool) → b ≡ false → (a && (b && c)) ≡ false
and-false true b c h = rw h refl
and-false false b c h = refl

module _ {T C B E : Type 0} (run_role : Role → Result E (RoleDelta T C B))
    (estimate : Role → ℕ) where
  acquire-exceeds :
      (role : Role) (rest : List Role) (token_budget : ℕ)
      → token_budget < estimate role
      → acquire {E = E} role (pos (estimate role)) (reserve_group_budget (role ∷ rest) token_budget)
        ≡ err (token_budget_exceeded role)
  unfolding acquire acquire_estimate acquire_within reserve_group_budget has_role Dict.get
  acquire-exceeds role rest token_budget h =
      rw (same_role_refl role, lt→ltb token_budget (0 + estimate role) (omega (arith, h))) refl

  budget_allows-exceeds :
      (role : Role) (rest : List Role) (token_budget : ℕ)
      → token_budget < estimate role
      → budget_allows estimate (role ∷ rest) token_budget ≡ false
  unfolding budget_allows total_estimate
  budget_allows-exceeds role rest token_budget h =
      and-false (ltb 1 (length (role ∷ rest)))
        (leb (estimate role + total_estimate estimate rest) token_budget)
        (leb (length (role ∷ rest)) 2)
        (lt→leb-false (estimate role + total_estimate estimate rest) token_budget
          (omega (arith, h)))

  in_sequence-exceeds :
      (role : Role) (rest : List Role) (token_budget : ℕ)
      → token_budget < estimate role
      → in_sequence run_role estimate
          (role ∷ rest)
          []
          (reserve_group_budget (role ∷ rest) token_budget)
        ≡ (err (token_budget_exceeded role), reserve_group_budget (role ∷ rest) token_budget)
  unfolding in_sequence
  in_sequence-exceeds role rest token_budget h =
      rw (acquire-exceeds role rest token_budget h, in_sequence) refl

  -- Where the first role alone needs more tokens than the budget has, the group raises the
  -- exhaustion of the token budget: it does not run in sequence, and no branch runs.
  pub execute_ordered-exceeds :
      (finishing : List Role → List Role) (role : Role) (rest : List Role) (token_budget : ℕ)
      → token_budget < estimate role
      → execute_ordered run_role estimate finishing (role ∷ rest) token_budget ≡ (
        err (token_budget_exceeded role),
        some (release (reserve_group_budget (role ∷ rest) token_budget)),
      )
  unfolding execute_ordered
  execute_ordered-exceeds finishing role rest token_budget h =
      rw
        (
          budget_allows-exceeds role rest token_budget h,
          in_sequence-exceeds role rest token_budget h,
        )
        refl
