-- ===== src/Retrieval/Planning.antt =====
-- nodes/context.py: the shape of a retrieval plan.
use allcallall_agent_runtime.Common.{
  All, Bool, Bool-cases, List, String, [], arith, clash, false, if◌then◌else◌, inl, inr, leb,
  leb-false, length, max, not, refl, suc, take, true, ℕ, ◌&&◌, ◌-◌, ◌||◌, ◌∷◌, ◌≡◌, ◌≤◌,
}
use allcallall_agent_runtime.Common.Eq.{string_eq, ◌==◌}
use allcallall_agent_runtime.Common.Text.{join, strip}
use allcallall_agent_runtime.Retrieval.State.{
  GraphExpansion, IntentRoute, RagConfig, Request, RetrievalPlan, RetrievalPlanStep,
}
use allcallall_agent_runtime.Retrieval.Helpers.{is_consult, is_risk, none_of, tool_allowed}
use allcallall_agent_runtime.Retrieval.Plan.{
  build_retrieval_plan, candidates, context_tool, in_allowed_scope, or_fallback, plan_steps,
}

-- The steps are numbered upwards from `k`.
abbrev pub IsNumbered : ℕ → List RetrievalPlanStep → Type 0
IsNumbered k [] = Unit
IsNumbered k (c ∷ cs) = (c.step ≡ k) × IsNumbered (suc k) cs

-- The tool of the step is allowed by the request, its scope by the configuration.
abbrev pub IsPermitted : RagConfig → List String → RetrievalPlanStep → Type 0
IsPermitted config tools c =
    (tool_allowed tools c.tool_name ≡ true) × (in_allowed_scope config c.source_scope ≡ true)

abbrev pub PermittedAll : RagConfig → List String → List RetrievalPlanStep → Type 0
PermittedAll config tools cs = All (IsPermitted config tools) cs

-- What every list of steps from `count` on keeps.
record IsShaped (config : RagConfig) (tools : List String) (count bound : ℕ)
    (steps : List RetrievalPlanStep) : Type 0 where
  numbered : IsNumbered (suc count) steps
  permitted : PermittedAll config tools steps
  short : length steps ≤ bound

nothing :
    (config : RagConfig) (tools : List String) (count bound : ℕ)
    → IsShaped config tools count bound []
nothing config tools count bound = record { numbered = tt; permitted = tt; short = omega arith }

wider :
    (config : RagConfig) (tools : List String) (count bound : ℕ) (steps : List RetrievalPlanStep)
    → IsShaped config tools count bound steps
    → IsShaped config tools count (suc bound) steps
wider config tools count bound steps h = record {
  numbered = h.numbered;
  permitted = h.permitted;
  short = omega (arith, h.short);
}

one_more :
    (config : RagConfig) (tools : List String) (count bound : ℕ) (c : RetrievalPlanStep)
    (steps : List RetrievalPlanStep)
    → IsPermitted config tools c
    → c.step ≡ suc count
    → IsShaped config tools (suc count) bound steps
    → IsShaped config tools count (suc bound) (c ∷ steps)
one_more config tools count bound c steps p e h = record {
  numbered = (e, h.numbered);
  permitted = (p, h.permitted);
  short = omega (arith, h.short);
}

not-false : (b : Bool) → not b ≡ false → b ≡ true
not-false b h = ground arith

one_within : (tools : List String) (n : ℕ) → 1 ≤ (if none_of tools then max 1 n else 3)
one_within [] n = omega arith
one_within (t ∷ ts) n = omega arith

one_present : (b : Bool) (n : ℕ) → (if b then 1 else 0) ≤ suc n
one_present true n = omega arith
one_present false n = omega arith

free_tools :
    (tools : List String) (tool : String)
    → none_of tools ≡ true
    → not (tool_allowed tools tool) ≡ false
unfolding tool_allowed
free_tools [] tool h = refl
free_tools (t ∷ ts) tool h = clash h refl

module _ (config : RagConfig) (tools : List String) where
  plan_steps-IsShaped :
      (count : ℕ) (cs : List RetrievalPlanStep)
      → IsShaped config tools count (length cs) (plan_steps config tools count cs)
  unfolding plan_steps
  plan_steps-IsShaped count [] = nothing config tools count 0
  plan_steps-IsShaped count (c ∷ cs) =
      let skipped = plan_steps config tools count cs in
      let more = plan_steps config tools (suc count) cs in
      let hs = plan_steps-IsShaped count cs in
      let hm = plan_steps-IsShaped (suc count) cs in
      elim (Bool-cases (not (in_allowed_scope config c.source_scope))) [
        | inl e ↦ rw (e, plan_steps) (wider config tools count (length cs) skipped hs)
        | inr e ↦ elim (Bool-cases (not (tool_allowed tools c.tool_name))) [
          | inl f ↦ elim (Bool-cases (tool_allowed tools context_tool)) [
            | inl g ↦
                rw (e, f, g, plan_steps)
                  (one_more config tools count (length cs)
                    (record c { tool_name = context_tool; source_scope = "all"; step = suc count })
                    more (g, refl) refl hm)
            | inr g ↦ rw (e, f, g, plan_steps) (wider config tools count (length cs) skipped hs)
          ]
          | inr f ↦
              let kept = record c { step = suc count } in
              let p : IsPermitted config tools kept = (not-false _ f, not-false _ e) in
              elim (Bool-cases (leb config.max_steps (suc count))) [
                | inl g ↦
                    rw (e, f, g, plan_steps)
                      (one_more config tools count (length cs) kept [] p refl
                        (nothing config tools (suc count) (length cs)))
                | inr g ↦
                    rw (e, f, g, plan_steps)
                      (one_more config tools count (length cs) kept more p refl hm)
              ]
        ]
      ]

  plan_steps-within :
      none_of tools ≡ true
      → (count : ℕ) (cs : List RetrievalPlanStep)
      → length (plan_steps config tools count cs) ≤ max 1 (config.max_steps - count)
  unfolding plan_steps
  plan_steps-within free count [] = omega arith
  plan_steps-within free count (c ∷ cs) =
      elim (Bool-cases (not (in_allowed_scope config c.source_scope))) [
        | inl e ↦ rw (e, plan_steps) (plan_steps-within free count cs)
        | inr e ↦
            let all_tools : not (tool_allowed tools c.tool_name) ≡ false =
              free_tools tools c.tool_name free in
            elim (Bool-cases (leb config.max_steps (suc count))) [
              | inl g ↦ rw (e, all_tools, g, plan_steps) (omega arith)
              | inr g ↦
                  rw (e, all_tools, g, plan_steps)
                    (omega (
                      arith,
                      leb-false config.max_steps (suc count) g,
                      plan_steps-within free (suc count) cs,
                    ))
            ]
      ]

-- A plan's steps, as `plan.steps`: numbered from 1, each permitted.
pub record IsPlan (config : RagConfig) (tools : List String) (plan : RetrievalPlan) : Type 0 where
  pub numbered : IsNumbered 1 plan.steps
  pub permitted : PermittedAll config tools plan.steps
  pub short : length plan.steps ≤ (if plan.enabled then 3 else 0)
  pub within : length plan.steps ≤ (if none_of tools then max 1 config.max_steps else 3)
  pub present :
      (if plan.enabled && tool_allowed tools context_tool then 1 else 0) ≤ length plan.steps

-- What `or_fallback` makes of the steps of the loop.
record IsFilled (config : RagConfig) (tools : List String) (steps : List RetrievalPlanStep)
    : Type 0 where
  numbered : IsNumbered 1 steps
  permitted : PermittedAll config tools steps
  short : length steps ≤ 3
  within : length steps ≤ (if none_of tools then max 1 config.max_steps else 3)
  present : (if tool_allowed tools context_tool then 1 else 0) ≤ length steps

fallback-IsFilled :
    (config : RagConfig) (tools : List String) (goal : String) (steps : List RetrievalPlanStep)
    → IsShaped config tools 0 3 steps
    → length steps ≤ (if none_of tools then max 1 config.max_steps else 3)
    → IsFilled config tools (or_fallback tools goal steps)
fallback-IsFilled config tools goal [] h w = elim (Bool-cases (tool_allowed tools context_tool)) [
  | inl e ↦ rw e (record {
    numbered = (refl, tt);
    permitted = ((e, refl), tt);
    short = omega arith;
    within = one_within tools config.max_steps;
    present = rw e (omega arith);
  })
  | inr e ↦ rw e (record {
    numbered = tt;
    permitted = tt;
    short = omega arith;
    within = omega arith;
    present = rw e (omega arith);
  })
]
fallback-IsFilled config tools goal (c ∷ cs) h w = record {
  numbered = h.numbered;
  permitted = h.permitted;
  short = h.short;
  within = w;
  present = one_present (tool_allowed tools context_tool) (length cs);
}

loop_within :
    (config : RagConfig) (tools : List String) (cs : List RetrievalPlanStep)
    → length cs ≤ 3
    → length (plan_steps config tools 0 cs) ≤ (if none_of tools then max 1 config.max_steps else 3)
loop_within config tools cs h = elim (Bool-cases (none_of tools)) [
  | inl e ↦ rw e (omega (arith, plan_steps-within config tools e 0 cs))
  | inr e ↦ rw e (omega (arith, (plan_steps-IsShaped config tools 0 cs).short, h))
]

three_candidates :
    (goal expanded : String) (route : IntentRoute) (graph : GraphExpansion) (preset : String)
    (config : RagConfig)
    → length (candidates goal expanded route graph preset config) ≡ 3
unfolding candidates
three_candidates goal expanded route graph preset config =
    elim (Bool-cases (is_consult route.intent || preset == "context_qa")) [
      | inl e ↦ rw e refl
      | inr e ↦ elim (Bool-cases (is_risk route.intent)) [
        | inl f ↦ rw (e, f) refl
        | inr f ↦ rw (e, f) refl
      ]
    ]

-- A plan's steps are numbered from 1, and the tool and the scope of each are allowed. There are at
-- most three, and where the request restricts no tool no more than `max_steps` (at least one);
-- there is none where retrieval is disabled, and one where it is not and the request allows the
-- context tool.
pub build_retrieval_plan-IsPlan :
    (request : Request) (config : RagConfig) (enabled : Bool) (route : IntentRoute)
    (graph : GraphExpansion)
    → IsPlan config request.read_tools (build_retrieval_plan request config enabled route graph)
unfolding build_retrieval_plan
build_retrieval_plan-IsPlan request config false route graph = record {
  numbered = tt;
  permitted = tt;
  short = omega arith;
  within = omega arith;
  present = omega arith;
}
build_retrieval_plan-IsPlan request config true route graph =
    let goal = strip request.goal in
    let expanded = join " " (take 6 graph.expanded_terms) in
    let cs = candidates goal expanded route graph request.preset config in
    let n = three_candidates goal expanded route graph request.preset config in
    let shaped : IsShaped config request.read_tools 0 3
        (plan_steps config request.read_tools 0 cs) =
      rw n at (plan_steps-IsShaped config request.read_tools 0 cs) in
    let h =
      fallback-IsFilled config request.read_tools goal (plan_steps config request.read_tools 0 cs)
        shaped (loop_within config request.read_tools cs (omega (arith, n))) in
    record {
      numbered = h.numbered;
      permitted = h.permitted;
      short = h.short;
      within = h.within;
      present = h.present;
    }
