-- ===== src/Workflow/Reaching.antt =====
-- dag.py: the way of a run from the entry point to END.
use allcallall_agent_runtime.Common.{
  ℕ, zero, suc, ◌+◌, ◌*◌, ◌<◌, ◌≡◌, refl, ◌∙◌, true, ◌&&◌, some, List, [], ◌∷◌, Bool-cases, inl,
  inr, arith, clash,
}
use allcallall_agent_runtime.Workflow.State.{
  State, Role, searcher, memory_agent, synthesize, risk_analyst,
}
use allcallall_agent_runtime.Workflow.Check.{quality_check, safety_check}
use allcallall_agent_runtime.Workflow.Router.{next_role_after, route_roles, allocation, head_role}
use allcallall_agent_runtime.Workflow.Roles.{chosen_roles-Descends, rank}
use allcallall_agent_runtime.Workflow.Graph.{
  Node, Config, target, edge, visit, run, route_first, role, static_edge, has_pair,
}
use allcallall_agent_runtime.Workflow.Progress.{
  Kept, Routed, quality_check-Routed, safety_check-Kept, distance, needs, IsRouted, IsReady,
  measure, Onward, Kept-Onward, role-Onward,
}

rank-near : (r : Role) → rank r < 13
rank-near searcher = omega arith
rank-near memory_agent = omega arith
rank-near synthesize = omega arith
rank-near risk_analyst = omega arith

head-near : (rs : List Role) → distance (target (head_role rs)) < 13
head-near [] = omega arith
head-near (r ∷ rs) = rank-near r

static-near : (r : Role) → distance (static_edge r) < rank r
static-near searcher = omega arith
static-near memory_agent = omega arith
static-near synthesize = omega arith
static-near risk_analyst = omega arith

static-needs :
    (config : Config) (r : Role) → needs config (static_edge r) ≡ config.enable_role_router
static-needs config searcher = refl
static-needs config memory_agent = refl
static-needs config synthesize = refl
static-needs config risk_analyst = refl

module _ {R : Type 0} (config : Config) where
  first-near : (s : State R) → IsRouted config s → distance (route_first config s) < 13
  unfolding route_first next_role_after
  first-near s (a, (e, d)) =
      elim (Bool-cases (config.enable_parallel_roles && has_pair s.role_allocation)) [
        | inl f ↦ rw f (omega arith)
        | inr f ↦ rw (f, e) (head-near a.roles)
      ]

  route_roles-IsRouted : (s : State R) → IsRouted config (route_roles s)
  unfolding route_roles allocation
  route_roles-IsRouted s = (allocation s, (refl, chosen_roles-Descends s))

  router-Onward : (s : State R) → Onward config Node.role_router s (route_roles s)
  unfolding edge route_roles
  router-Onward s =
      let routed = route_roles-IsRouted s in
      inr (
        route_first config (route_roles s),
        (refl, ((λ _. routed), omega (arith, first-near (route_roles s) routed))),
      )

  role-edge :
      (r : Role) (s s' : State R)
      → Kept s s'
      → IsReady config (role r) s
      → Onward config (role r) s s'
  unfolding edge
  role-edge r s s' kept ready = elim (Bool-cases config.enable_role_router) [
    | inl e ↦ role-Onward config (role r) r s s' kept (ready e) (rw e refl) (omega arith)
    | inr e ↦
        Kept-Onward config (role r) (static_edge r) s s' kept (rw e refl) (static-near r)
          (λ h. clash h (static-needs config r ∙ e))
  ]

  decompose-Onward : (s s' : State R) → Kept s s' → Onward config Node.decompose s s'
  unfolding edge
  decompose-Onward s s' kept = elim (Bool-cases config.enable_role_router) [
    | inl e ↦
        Kept-Onward config Node.decompose Node.role_router s s' kept (rw e refl) (omega arith)
          (λ h. clash h refl)
    | inr e ↦
        Kept-Onward config Node.decompose (role searcher) s s' kept (rw e refl) (omega arith)
          (λ h. clash h e)
  ]

  quality-Onward :
      (s s' : State R)
      → Routed config.max_quality_retries s s'
      → IsReady config Node.quality s
      → Onward config Node.quality s s'
  unfolding edge
  quality-Onward s s' (kept, inl (to, same)) ready =
      Kept-Onward config Node.quality Node.safety s s' (kept, same) (rw to refl) (omega arith) ready
  quality-Onward s s' (kept, inr (back, (more, left))) ready = inr (
    role synthesize,
    (
      rw back refl,
      ((λ h. let (a, (e, d)) = ready h in (a, (kept ∙ e, d))), rw more (omega (arith, left))),
    ),
  )

  module _ (work : Node → State R → State R)
      (frame : (n : Node) (s : State R) → Kept s (work n s)) where
    chain :
        (n m : Node) (s : State R)
        → edge config n (work n s) ≡ some m
        → distance m < distance n
        → (needs config m ≡ true → IsRouted config s)
        → Onward config n s (work n s)
    chain n m s = Kept-Onward config n m s (work n s) (frame n s)

    visit-Onward :
        (n : Node) (s : State R) → IsReady config n s → Onward config n s (visit config work n s)
    unfolding edge
    visit-Onward Node.collect_context s ready =
        chain Node.collect_context Node.retrieval_planner s refl (omega arith) ready
    visit-Onward Node.retrieval_planner s ready =
        chain Node.retrieval_planner Node.retrieval_loop s refl (omega arith) ready
    visit-Onward Node.retrieval_loop s ready =
        chain Node.retrieval_loop Node.retrieve_context s refl (omega arith) ready
    visit-Onward Node.retrieve_context s ready =
        chain Node.retrieve_context Node.rerank_context s refl (omega arith) ready
    visit-Onward Node.rerank_context s ready =
        chain Node.rerank_context Node.evidence_pack s refl (omega arith) ready
    visit-Onward Node.evidence_pack s ready =
        chain Node.evidence_pack Node.sufficiency_gate s refl (omega arith) ready
    visit-Onward Node.sufficiency_gate s ready =
        chain Node.sufficiency_gate Node.decompose s refl (omega arith) ready
    visit-Onward Node.decompose s ready =
        decompose-Onward s (work Node.decompose s) (frame Node.decompose s)
    visit-Onward Node.role_router s ready = router-Onward s
    visit-Onward Node.parallel_roles s ready =
        role-Onward config Node.parallel_roles memory_agent s (work Node.parallel_roles s)
          (frame Node.parallel_roles s) (ready refl) refl (omega arith)
    visit-Onward (Node.role r) s ready = role-edge r s (work (role r) s) (frame (role r) s) ready
    visit-Onward Node.merge s ready =
        chain Node.merge Node.grounding_check s refl (omega arith) ready
    visit-Onward Node.grounding_check s ready =
        chain Node.grounding_check Node.memory_reflection s refl (omega arith) ready
    visit-Onward Node.memory_reflection s ready =
        chain Node.memory_reflection Node.propose_tools s refl (omega arith) ready
    visit-Onward Node.propose_tools s ready =
        chain Node.propose_tools Node.critic_check s refl (omega arith) ready
    visit-Onward Node.critic_check s ready =
        chain Node.critic_check Node.quality s refl (omega arith) ready
    visit-Onward Node.quality s ready =
        quality-Onward s (quality_check config.max_quality_retries s)
          (quality_check-Routed config.max_quality_retries s) ready
    visit-Onward Node.safety s ready =
        Kept-Onward config Node.safety Node.approval_gate s (safety_check s) (safety_check-Kept s)
          refl (omega arith) ready
    visit-Onward Node.approval_gate s ready =
        chain Node.approval_gate Node.finalize s refl (omega arith) ready
    visit-Onward Node.finalize s ready = inl refl

    run-reaches :
        (fuel : ℕ) (n : Node) (s : State R)
        → IsReady config n s
        → measure config n s < fuel
        → (trace : List (Node × State R)) × (run config work fuel n s ≡ some trace)
    unfolding run
    run-reaches zero n s ready enough = absurd (omega (arith, enough))
    run-reaches (suc fuel) n s ready enough = elim (visit-Onward n s ready) [
      | inl e ↦ ((n, visit config work n s) ∷ [], rw (e, run) refl)
      | inr (m, (e, (next, less))) ↦
          let (later, f) =
            run-reaches fuel m (visit config work n s) next (omega (arith, less, enough)) in
          ((n, visit config work n s) ∷ later, rw (e, f, run) refl)
    ]

    -- A run from the entry point reaches END within 22 nodes and 8 for each revision allowed,
    -- whatever the nodes write, if only the router and the quality check write the allocation and
    -- the count of retries.
    pub run-ends :
        (s : State R)
        → (trace : List (Node × State R)) × (run config work
              (22 + 8 * config.max_quality_retries)
              Node.collect_context
              s
            ≡ some trace)
    run-ends s =
        run-reaches (22 + 8 * config.max_quality_retries) Node.collect_context s (λ h. clash h refl)
          (omega arith)
