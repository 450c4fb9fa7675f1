-- ===== src/Parallel/Node.antt =====
-- nodes/parallel_roles.py: `parallel_roles_node`. The token budget is the configuration's.
use allcallall_agent_runtime.Common.{ℕ, ◌||◌, Option, none, some, List, [], ◌∷◌, if◌then◌else◌}
use allcallall_agent_runtime.Common.Eq.{Eq}
use allcallall_agent_runtime.Common.Result.{Result, ok, err}
use allcallall_agent_runtime.Workflow.State.{Role, searcher, memory_agent, RoleAllocation}
use allcallall_agent_runtime.Workflow.Router.{same_role, role_order}
use allcallall_agent_runtime.Parallel.Reservation.{Error, no_allocation}
use allcallall_agent_runtime.Parallel.Deltas.{RoleDelta, RoleResult, Merged, merge_role_deltas}
use allcallall_agent_runtime.Parallel.Execute.{execute_parallel_roles}

-- [role for role in allocation.roles if role in PARALLEL_ELIGIBLE_ROLES]
unfoldable pub eligible_roles : List Role → List Role
eligible_roles [] = []
eligible_roles (r ∷ rs) =
    let rest = eligible_roles rs in
    if same_role r searcher || same_role r memory_agent then r ∷ rest else rest

module _ {T C B E Key : Type 0} ⦃e : Eq Key⦄ (key : C → Key)
    (run_role : Role → Result E (RoleDelta T C B)) (estimate : Role → ℕ)
    (finishing : List Role → List Role) (token_budget : ℕ) where
  unfoldable pub parallel_roles_node :
      Option RoleAllocation → List T → List (RoleResult B) → Result (Error E) (Merged T C B)
  parallel_roles_node none trace_events role_results = err no_allocation
  parallel_roles_node (some allocation) trace_events role_results =
      elim (execute_parallel_roles run_role estimate finishing (eligible_roles allocation.roles) 2
        token_budget).0 [
          | err error ↦ err error
          | ok deltas ↦ ok (merge_role_deltas key deltas role_order trace_events role_results)
        ]
