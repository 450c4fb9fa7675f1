-- ===== src/Workflow/Gates.antt =====
-- dag.py: the last nodes of a run.
use allcallall_agent_runtime.Common.{
  ℕ, zero, suc, ◌≤◌, ◌≡◌, refl, sym, ap, ◌∙◌, false, ◌&&◌, Option, none, some, List, [], ◌∷◌, ◌++◌,
  ◌⊎◌, Bool-cases, Option-cases, inl, inr, arith, if◌then◌else◌, clash_none, some-injective,
}
use allcallall_agent_runtime.Workflow.State.{
  State, Role, searcher, memory_agent, synthesize, risk_analyst,
}
use allcallall_agent_runtime.Workflow.Check.{safety_check, route_quality}
use allcallall_agent_runtime.Workflow.Router.{next_role_after}
use allcallall_agent_runtime.Workflow.Graph.{
  Node, Config, target, edge, visit, run, route_first, role, static_edge, has_pair,
}
use allcallall_agent_runtime.Workflow.Progress.{distance}

target-early : (o : Option Role) → 3 ≤ distance (target o)
target-early none = omega arith
target-early (some searcher) = omega arith
target-early (some memory_agent) = omega arith
target-early (some synthesize) = omega arith
target-early (some risk_analyst) = omega arith

static-early : (r : Role) → 3 ≤ distance (static_edge r)
static-early searcher = omega arith
static-early memory_agent = omega arith
static-early synthesize = omega arith
static-early risk_analyst = omega arith

decompose-early :
    (config : Config)
    → 3 ≤ distance (if config.enable_role_router then Node.role_router else role searcher)
decompose-early config = elim (Bool-cases config.enable_role_router) [
  | inl e ↦ rw e (omega arith)
  | inr e ↦ rw e (omega arith)
]

module _ {R : Type 0} (config : Config) where
  -- The edge stays before the safety check, or it is the one that leads there.
  abbrev Stays : Node → State R → Type 0
  Stays n s =
      ((m : Node) × ((edge config n s ≡ some m) × (3 ≤ distance m)))
      ⊎ ((n ≡ Node.quality) × ((edge config n s ≡ some Node.safety) × (route_quality s ≡ false)))

  first-early : (s : State R) → 3 ≤ distance (route_first config s)
  unfolding route_first
  first-early s = elim (Bool-cases (config.enable_parallel_roles && has_pair s.role_allocation)) [
    | inl e ↦ rw e (omega arith)
    | inr e ↦ rw e (target-early (next_role_after s none))
  ]

  role-early :
      (r : Role) (s : State R)
      → 3
        ≤ distance (
            if config.enable_role_router
            then target (next_role_after s (some r))
            else static_edge r)
  role-early r s = elim (Bool-cases config.enable_role_router) [
    | inl e ↦ rw e (target-early (next_role_after s (some r)))
    | inr e ↦ rw e (static-early r)
  ]

  quality-Stays : (s : State R) → Stays Node.quality s
  unfolding edge
  quality-Stays s = elim (Bool-cases (route_quality s)) [
    | inl e ↦ inl (role synthesize, (rw e refl, omega arith))
    | inr e ↦ inr (refl, (rw e refl, e))
  ]

  edge-Stays : (n : Node) (s : State R) → 3 ≤ distance n → Stays n s
  unfolding edge
  edge-Stays Node.collect_context s h = inl (Node.retrieval_planner, (refl, omega arith))
  edge-Stays Node.retrieval_planner s h = inl (Node.retrieval_loop, (refl, omega arith))
  edge-Stays Node.retrieval_loop s h = inl (Node.retrieve_context, (refl, omega arith))
  edge-Stays Node.retrieve_context s h = inl (Node.rerank_context, (refl, omega arith))
  edge-Stays Node.rerank_context s h = inl (Node.evidence_pack, (refl, omega arith))
  edge-Stays Node.evidence_pack s h = inl (Node.sufficiency_gate, (refl, omega arith))
  edge-Stays Node.sufficiency_gate s h = inl (Node.decompose, (refl, omega arith))
  edge-Stays Node.decompose s h = inl (
    (if config.enable_role_router then Node.role_router else role searcher),
    (refl, decompose-early config),
  )
  edge-Stays Node.role_router s h = inl (route_first config s, (refl, first-early s))
  edge-Stays Node.parallel_roles s h = inl (
    target (next_role_after s (some memory_agent)),
    (refl, target-early (next_role_after s (some memory_agent))),
  )
  edge-Stays (Node.role r) s h = inl (
    (if config.enable_role_router then target (next_role_after s (some r)) else static_edge r),
    (refl, role-early r s),
  )
  edge-Stays Node.merge s h = inl (Node.grounding_check, (refl, omega arith))
  edge-Stays Node.grounding_check s h = inl (Node.memory_reflection, (refl, omega arith))
  edge-Stays Node.memory_reflection s h = inl (Node.propose_tools, (refl, omega arith))
  edge-Stays Node.propose_tools s h = inl (Node.critic_check, (refl, omega arith))
  edge-Stays Node.critic_check s h = inl (Node.quality, (refl, omega arith))
  edge-Stays Node.quality s h = quality-Stays s
  edge-Stays Node.safety s h = absurd (omega (arith, h))
  edge-Stays Node.approval_gate s h = absurd (omega (arith, h))
  edge-Stays Node.finalize s h = absurd (omega (arith, h))

  module _ (work : Node → State R → State R) where
    -- The last four nodes of the run: a quality check that does not ask for a revision, the safety
    -- check of the state it leaves, the approval gate and `finalize`.
    abbrev pub EndsReviewed : List (Node × State R) → Type 0
    EndsReviewed trace =
        (before : List (Node × State R)) × ((s : State R) × ((route_quality s ≡ false)
            × (trace
                ≡ before
                  ++ (Node.quality, s)
                    ∷ (Node.safety, safety_check s)
                    ∷ (Node.approval_gate, work Node.approval_gate (safety_check s))
                    ∷ (Node.finalize, work Node.finalize (work Node.approval_gate (safety_check s)))
                    ∷ [])))

    abbrev tail_of : State R → List (Node × State R)
    tail_of s =
        (Node.safety, safety_check s)
        ∷ (Node.approval_gate, work Node.approval_gate (safety_check s))
        ∷ (Node.finalize, work Node.finalize (work Node.approval_gate (safety_check s)))
        ∷ []

    run-tail :
        (fuel : ℕ) (s : State R) (trace : List (Node × State R))
        → run config work fuel Node.safety s ≡ some trace
        → trace ≡ tail_of s
    unfolding run edge
    run-tail zero s trace e = clash_none e
    run-tail (suc zero) s trace e = clash_none e
    run-tail (suc (suc zero)) s trace e = clash_none e
    run-tail (suc (suc (suc fuel))) s trace e = sym (some-injective e)

    run-cons :
        (fuel : ℕ) (n m : Node) (s : State R) (trace : List (Node × State R))
        → edge config n (visit config work n s) ≡ some m
        → run config work (suc fuel) n s ≡ some trace
        → (later : List (Node × State R)) × ((run config work fuel m (visit config work n s)
              ≡ some later)
            × (trace ≡ (n, visit config work n s) ∷ later))
    unfolding run
    run-cons fuel n m s trace e h =
        elim (Option-cases (run config work fuel m (visit config work n s))) [
          | inl f ↦ clash_none (rw (e, f, run) at h)
          | inr (later, f) ↦ (later, (f, sym (some-injective (rw (e, f, run) at h))))
        ]

    run-EndsReviewed :
        (fuel : ℕ) (n : Node) (s : State R) (trace : List (Node × State R))
        → 3 ≤ distance n
        → run config work fuel n s ≡ some trace
        → EndsReviewed trace
    unfolding run
    run-EndsReviewed zero n s trace h e = clash_none e
    run-EndsReviewed (suc fuel) n s trace h e = elim (edge-Stays n (visit config work n s) h) [
      | inl (m, (to, early)) ↦
          let (later, (f, shape)) = run-cons fuel n m s trace to e in
          let (before, (t, (passed, ends))) =
            run-EndsReviewed fuel m (visit config work n s) later early f in
          (
            (n, visit config work n s) ∷ before,
            (t, (passed, shape ∙ ap (λ w. (n, visit config work n s) ∷ w) ends)),
          )
      | inr (here, (to, passed)) ↦
          let (later, (f, shape)) = run-cons fuel n Node.safety s trace to e in
          let last = run-tail fuel (visit config work n s) later f in
          (
            [],
            (
              visit config work n s,
              (
                passed,
                shape
                    ∙ ap (λ w. (n, visit config work n s) ∷ w) last
                    ∙ ap (λ k. (k, visit config work n s) ∷ tail_of (visit config work n s)) here,
              ),
            ),
          )
    ]

    -- Every run that starts at the entry point and finishes ends with a quality check that asks
    -- for no revision, the safety check of the state it leaves, the approval gate and `finalize`,
    -- whatever the other nodes do.
    pub run-reviewed :
        (fuel : ℕ) (s : State R) (trace : List (Node × State R))
        → run config work fuel Node.collect_context s ≡ some trace
        → EndsReviewed trace
    run-reviewed fuel s trace e = run-EndsReviewed fuel Node.collect_context s trace (omega arith) e
