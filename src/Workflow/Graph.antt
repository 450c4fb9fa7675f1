-- ===== src/Workflow/Graph.antt =====
-- dag.py: the nodes and edges of the compiled graph. The nodes other than the router and the two
-- review nodes are a parameter, `work`.
use allcallall_agent_runtime.Common.{
  ℕ, zero, suc, Bool, false, ◌&&◌, Option, none, some, List, [], ◌∷◌, if◌then◌else◌,
}
use allcallall_agent_runtime.Workflow.State.{
  State, Role, searcher, memory_agent, synthesize, risk_analyst, RoleAllocation,
}
use allcallall_agent_runtime.Workflow.Check.{quality_check, safety_check, route_quality}
use allcallall_agent_runtime.Workflow.Router.{has_role, next_role_after, route_roles}

pub data Node : Type 0 where
  collect_context retrieval_planner retrieval_loop retrieve_context rerank_context : Node
  evidence_pack sufficiency_gate decompose role_router parallel_roles : Node
  role : Role → Node
  merge grounding_check memory_reflection propose_tools critic_check : Node
  quality safety approval_gate finalize : Node

-- app_config
pub record Config : Type 0 where
  pub enable_role_router : Bool
  pub enable_parallel_roles : Bool
  pub max_quality_retries : ℕ

abbrev pub target : Option Role → Node
target none = merge
target (some r) = role r

abbrev pub has_pair : Option RoleAllocation → Bool
has_pair none = false
has_pair (some a) = has_role searcher a.roles && has_role memory_agent a.roles

-- The static chain of the roles.
abbrev pub static_edge : Role → Node
static_edge searcher = role memory_agent
static_edge memory_agent = role synthesize
static_edge synthesize = role risk_analyst
static_edge risk_analyst = merge

module _ {R : Type 0} (config : Config) where
  unfoldable pub route_first : State R → Node
  route_first s =
      if config.enable_parallel_roles && has_pair s.role_allocation
      then parallel_roles
      else target (next_role_after s none)

  -- The edge out of a node, on the state behind it; none is END.
  unfoldable pub edge : Node → State R → Option Node
  edge collect_context s = some retrieval_planner
  edge retrieval_planner s = some retrieval_loop
  edge retrieval_loop s = some retrieve_context
  edge retrieve_context s = some rerank_context
  edge rerank_context s = some evidence_pack
  edge evidence_pack s = some sufficiency_gate
  edge sufficiency_gate s = some decompose
  edge decompose s = some (if config.enable_role_router then role_router else role searcher)
  edge role_router s = some (route_first s)
  edge parallel_roles s = some (target (next_role_after s (some memory_agent)))
  edge (role r) s =
      some
        (if config.enable_role_router then target (next_role_after s (some r)) else static_edge r)
  edge merge s = some grounding_check
  edge grounding_check s = some memory_reflection
  edge memory_reflection s = some propose_tools
  edge propose_tools s = some critic_check
  edge critic_check s = some quality
  edge quality s = some (if route_quality s then role synthesize else safety)
  edge safety s = some approval_gate
  edge approval_gate s = some finalize
  edge finalize s = none

  module _ (work : Node → State R → State R) where
    abbrev pub visit : Node → State R → State R
    visit role_router s = route_roles s
    visit quality s = quality_check config.max_quality_retries s
    visit safety s = safety_check s
    visit n s = work n s

    -- The nodes that a run visits from `n` on, in order, each with the state behind it; none where
    -- the fuel runs out before END.
    unfoldable pub run : ℕ → Node → State R → Option (List (Node × State R))
    run zero n s = none
    run (suc fuel) n s =
        let s' = visit n s in
        elim (edge n s') [
          | none ↦ some ((n, s') ∷ [])
          | some m ↦ elim (run fuel m s') [ none ↦ none | some later ↦ some ((n, s') ∷ later) ]
        ]
