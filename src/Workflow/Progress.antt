-- ===== src/Workflow/Progress.antt =====
-- dag.py: how far a node lies from END, and what a step changes of it.
use allcallall_agent_runtime.Common.{
  ℕ, ◌+◌, ◌-◌, ◌*◌, ◌<◌, ◌≤◌, ◌≡◌, refl, ap, ◌∙◌, Bool, true, false, ◌||◌, not, Option, none, some,
  List, [], ◌∷◌, ◌⊎◌, Bool-cases, inl, inr, arith, leb, leb-false, String,
}
use allcallall_agent_runtime.Common.Eq.{contains, string_eq}
use allcallall_agent_runtime.Workflow.State.{State, Role, RoleAllocation, CriticResult}
use allcallall_agent_runtime.Workflow.Check.{
  quality_check, safety_check, route_quality, critic_decision, failed_check, has_unsafe,
  flags_check, critic_decision,
}
use allcallall_agent_runtime.Workflow.Router.{next_role_after, allocated, role_behind}
use allcallall_agent_runtime.Workflow.Roles.{Descends, role_behind-lt, rank, rank_of}
use allcallall_agent_runtime.Workflow.Graph.{Node, Config, target, edge}

module _ {R : Type 0} where
  -- What `quality_check` does to the way through the graph: on to the safety check with the same
  -- count of retries, or back with one more, of which there was one left.
  abbrev pub Routed : ℕ → State R → State R → Type 0
  Routed max_retries s s' =
      (s'.role_allocation ≡ s.role_allocation)
      × (((route_quality s' ≡ false) × (s'.critic_retries ≡ s.critic_retries))
          ⊎ ((route_quality s' ≡ true)
              × ((s'.critic_retries ≡ s.critic_retries + 1) × (s.critic_retries < max_retries))))

  failed_check-Routed :
      (max_retries : ℕ) (critic : CriticResult) (s : State R)
      → s.critic_retries < max_retries
      → Routed max_retries s (failed_check critic s)
  unfolding failed_check route_quality
  failed_check-Routed max_retries critic s left =
      elim (Bool-cases
        (contains critic.issues "insufficient_context_guarded" || not critic.context_sufficient)) [
          | inl e ↦ rw e (refl, inr (refl, (refl, left)))
          | inr e ↦ elim (Bool-cases (contains critic.issues "grounding_failed")) [
            | inl f ↦ rw (e, f) (refl, inl (refl, refl))
            | inr f ↦ rw (e, f) (refl, inr (refl, (refl, left)))
          ]
        ]

  critic_decision-Routed :
      (max_retries : ℕ) (o : Option CriticResult) (s : State R)
      → s.critic_retries < max_retries
      → Routed max_retries s (critic_decision o s)
  unfolding critic_decision route_quality
  critic_decision-Routed max_retries none s left = (refl, inl (refl, refl))
  critic_decision-Routed max_retries (some critic) s left = elim (Bool-cases critic.passed) [
    | inl e ↦ rw e (refl, inl (refl, refl))
    | inr e ↦ simp e (failed_check-Routed max_retries critic s left)
  ]

  pub quality_check-Routed :
      (max_retries : ℕ) (s : State R) → Routed max_retries s (quality_check max_retries s)
  unfolding quality_check route_quality
  quality_check-Routed max_retries s = elim (Bool-cases (leb max_retries s.critic_retries)) [
    | inl e ↦ rw e (refl, inl (refl, refl))
    | inr e ↦ simp e (
        critic_decision-Routed max_retries s.critic_result s
          (leb-false max_retries s.critic_retries e))
  ]

  -- Neither of the two fields that steer the graph is changed.
  abbrev pub Kept : State R → State R → Type 0
  Kept s s' = (s'.role_allocation ≡ s.role_allocation) × (s'.critic_retries ≡ s.critic_retries)

  flags_check-Kept : (flags : List String) (s : State R) → Kept s (flags_check flags s)
  unfolding flags_check
  flags_check-Kept [] s = (refl, refl)
  flags_check-Kept (flag ∷ flags) s = (refl, refl)

  pub safety_check-Kept : (s : State R) → Kept s (safety_check s)
  unfolding safety_check
  safety_check-Kept s = elim (Bool-cases (has_unsafe s.proposed_tool_calls)) [
    | inl e ↦ rw e (refl, refl)
    | inr e ↦ simp e (flags_check-Kept s.risk_flags s)
  ]

-- How many nodes lie from a node to END on the longest way without a revision.
abbrev pub distance : Node → ℕ
distance Node.collect_context = 21
distance Node.retrieval_planner = 20
distance Node.retrieval_loop = 19
distance Node.retrieve_context = 18
distance Node.rerank_context = 17
distance Node.evidence_pack = 16
distance Node.sufficiency_gate = 15
distance Node.decompose = 14
distance Node.role_router = 13
distance Node.parallel_roles = 12
distance (Node.role r) = rank r
distance Node.merge = 8
distance Node.grounding_check = 7
distance Node.memory_reflection = 6
distance Node.propose_tools = 5
distance Node.critic_check = 4
distance Node.quality = 3
distance Node.safety = 2
distance Node.approval_gate = 1
distance Node.finalize = 0

pub distance-target : (o : Option Role) → distance (target o) ≡ rank_of o
distance-target none = refl
distance-target (some r) = refl

-- The nodes that read the allocation, or that come behind one that does.
abbrev pub needs : Config → Node → Bool
needs config Node.collect_context = false
needs config Node.retrieval_planner = false
needs config Node.retrieval_loop = false
needs config Node.retrieve_context = false
needs config Node.rerank_context = false
needs config Node.evidence_pack = false
needs config Node.sufficiency_gate = false
needs config Node.decompose = false
needs config Node.role_router = false
needs config Node.parallel_roles = true
needs config _ = config.enable_role_router

module _ {R : Type 0} (config : Config) where
  -- The router has run, and its roles are in order.
  abbrev pub IsRouted : State R → Type 0
  IsRouted s = (a : RoleAllocation) × ((s.role_allocation ≡ some a) × Descends a.roles)

  abbrev pub IsReady : Node → State R → Type 0
  IsReady n s = needs config n ≡ true → IsRouted s

  abbrev pub measure : Node → State R → ℕ
  measure n s = distance n + 8 * (config.max_quality_retries - s.critic_retries)

  abbrev pub Onward : Node → State R → State R → Type 0
  Onward n s s' =
      (edge config n s' ≡ none)
      ⊎ ((m : Node) × ((edge config n s' ≡ some m) × (IsReady m s' × (measure m s' < measure n s))))

  pub IsRouted-Kept : (s s' : State R) → Kept s s' → IsRouted s → IsRouted s'
  IsRouted-Kept s s' kept (a, (e, d)) = (a, (kept.0 ∙ e, d))

  -- A node that keeps the two fields leads to a nearer node.
  pub Kept-Onward :
      (n m : Node) (s s' : State R)
      → Kept s s'
      → edge config n s' ≡ some m
      → distance m < distance n
      → (needs config m ≡ true → IsRouted s)
      → Onward n s s'
  Kept-Onward n m s s' kept e near ready =
      inr (m, (e, ((λ h. IsRouted-Kept s s' kept (ready h)), rw kept.1 (omega (arith, near)))))

  -- The edge behind a role, or behind the parallel group.
  pub role-Onward :
      (n : Node) (r : Role) (s s' : State R)
      → Kept s s'
      → IsRouted s
      → edge config n s' ≡ some (target (next_role_after s' (some r)))
      → rank r ≤ distance n
      → Onward n s s'
  unfolding next_role_after
  role-Onward n r s s' kept (a, (e, d)) to below =
      Kept-Onward n (target (role_behind r a.roles)) s s' kept
        (to ∙ ap (λ o. some (target (role_behind r (allocated o)))) (kept.0 ∙ e))
        (rw (distance-target (role_behind r a.roles))
          (omega (arith, below, role_behind-lt r a.roles d)))
        (λ _. (a, (e, d)))
