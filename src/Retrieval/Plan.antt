-- ===== src/Retrieval/Plan.antt =====
-- nodes/context.py: `resolve_agentic_rag_config` and `build_retrieval_plan`. The rationale texts of
-- steps are left out.
use allcallall_agent_runtime.Common.{
  Bool, List, String, [], if◌then◌else◌, leb, max, min, not, suc, take, ℕ, ◌++◌, ◌||◌, ◌∷◌,
}
use allcallall_agent_runtime.Common.Eq.{contains, string_eq, ◌==◌}
use allcallall_agent_runtime.Common.Text.{is_blank, join, strip}
use allcallall_agent_runtime.Retrieval.State.{
  GraphExpansion, IntentRoute, RagConfig, Request, RetrievalPlan, RetrievalPlanStep, Strategy,
  adaptive, graph_augmented, multi_hop,
}
use allcallall_agent_runtime.Retrieval.Helpers.{
  filter, is_consult, is_risk, none_of, tool_allowed, unique_strings,
}
use allcallall_agent_runtime.Retrieval.Intent.{build_graph_expansion, route_request_intent}

abbrev default_source_types : List String
default_source_types =
    "meeting_transcript" ∷ "knowledge" ∷ "conversation" ∷ "message" ∷ "note" ∷ "followup" ∷ "memory"
    ∷ "contact_profile" ∷ []

-- The settings of app_config that the planner reads.
pub record Settings : Type 0 where
  pub enable_agentic_rag : Bool
  pub rag_max_retrieval_steps : ℕ
  pub rag_min_confidence : ℕ

-- `value`, or the default where it is not positive
abbrev or_default : ℕ → ℕ → ℕ
or_default value default = if leb value 0 then default else value

-- allowed_source_types without blank texts, or the default list
abbrev or_all_sources : List String → List String
or_all_sources allowed = if none_of allowed then default_source_types else allowed

unfoldable pub resolve_agentic_rag_config : Settings → RagConfig → RagConfig
resolve_agentic_rag_config settings config = record {
  enabled = config.enabled || settings.enable_agentic_rag;
  max_steps = max 1 (min (or_default config.max_steps settings.rag_max_retrieval_steps) 3);
  min_confidence = max 10 (min (or_default config.min_confidence settings.rag_min_confidence) 100);
  allowed_source_types =
      or_all_sources (filter (λ item. not (is_blank (strip item))) config.allowed_source_types);
}

-- join_query(*parts)
unfoldable pub join_query : List String → String
join_query parts = join " " (unique_strings (filter (λ part. not (is_blank (strip part))) parts))

abbrev pub context_tool : String
context_tool = "query_context_chunks"

abbrev pub plan_step : ℕ → String → String → String → Strategy → List String → RetrievalPlanStep
plan_step step query scope tool strategy terms = record {
  step = step;
  query = query;
  source_scope = scope;
  tool_name = tool;
  strategy = strategy;
  expanded_terms = terms;
}

abbrev by_graph : GraphExpansion → Strategy
by_graph graph = if graph.enabled then graph_augmented else adaptive

-- The two candidates of a consult, a risk and any other request.
module _ (goal expanded : String) (route : IntentRoute) (graph : GraphExpansion) where
  abbrev consult_steps : List RetrievalPlanStep
  consult_steps =
      plan_step 1 (join_query (goal ∷ expanded ∷ "policy knowledge checklist evidence" ∷ []))
        "knowledge" "query_knowledge_chunks" route.retrieval_strategy graph.expanded_terms
      ∷ plan_step 2 (join_query (goal ∷ "meeting transcript conversation evidence" ∷ expanded ∷ []))
          "all" context_tool adaptive graph.expanded_terms
      ∷ []

  abbrev risk_steps : List RetrievalPlanStep
  risk_steps =
      plan_step 1 (join_query (goal ∷ "risk blocker approval deadline budget security legal" ∷ []))
        "meeting_transcript" "query_meeting_transcript_segments" route.retrieval_strategy
        graph.expanded_terms
      ∷ plan_step 2 (join_query (goal ∷ expanded ∷ "risk policy knowledge approval guardrail" ∷ []))
          "knowledge" "query_knowledge_chunks" (by_graph graph) graph.expanded_terms
      ∷ []

  abbrev chat_steps : List RetrievalPlanStep
  chat_steps =
      plan_step 1 (join_query (goal ∷ "conversation notes transcript knowledge memory" ∷ [])) "all"
        context_tool route.retrieval_strategy graph.expanded_terms
      ∷ plan_step 2 (join_query (goal ∷ expanded ∷ "related knowledge policy context" ∷ []))
          "knowledge" "query_knowledge_chunks" (by_graph graph) graph.expanded_terms
      ∷ []

  abbrev last_step : List String → RetrievalPlanStep
  last_step sources =
      plan_step 3
        (join_query (goal ∷ "conversation notes follow ups memory" ∷ join " " sources ∷ [])) "all"
        context_tool (if is_risk route.intent then multi_hop else adaptive) graph.expanded_terms

  unfoldable pub candidates : String → RagConfig → List RetrievalPlanStep
  candidates preset config =
      let sources = filter (contains config.allowed_source_types) route.required_source_types in
      (if is_consult route.intent || preset == "context_qa"
        then consult_steps
        else if is_risk route.intent
        then risk_steps
        else chat_steps)
      ++ last_step sources ∷ []

abbrev pub in_allowed_scope : RagConfig → String → Bool
in_allowed_scope config scope = scope == "all" || contains config.allowed_source_types scope

-- The loop over the candidates, `count` being the number of steps so far. A fallback step is added
-- without the test of the number of steps.
unfoldable pub plan_steps :
    RagConfig → List String → ℕ → List RetrievalPlanStep → List RetrievalPlanStep
plan_steps config tools count [] = []
plan_steps config tools count (c ∷ cs) =
    let skipped = plan_steps config tools count cs in
    let more = plan_steps config tools (suc count) cs in
    if not (in_allowed_scope config c.source_scope)
    then skipped
    else if not (tool_allowed tools c.tool_name)
    then if tool_allowed tools context_tool
      then record c { tool_name = context_tool; source_scope = "all"; step = suc count } ∷ more
      else skipped
    else record c { step = suc count } ∷ (if leb config.max_steps (suc count) then [] else more)

-- The fallback behind the loop; its model's defaults are "adaptive" and no terms.
abbrev pub or_fallback : List String → String → List RetrievalPlanStep → List RetrievalPlanStep
or_fallback tools goal [] =
    if tool_allowed tools context_tool
    then plan_step 1 goal "all" context_tool adaptive [] ∷ []
    else []
or_fallback tools goal (c ∷ cs) = c ∷ cs

unfoldable pub build_retrieval_plan :
    Request → RagConfig → Bool → IntentRoute → GraphExpansion → RetrievalPlan
build_retrieval_plan request config enabled route graph =
    let goal = strip request.goal in
    let expanded = join " " (take 6 graph.expanded_terms) in
    let steps =
      plan_steps config request.read_tools 0
        (candidates goal expanded route graph request.preset config) in
    record {
      enabled = enabled;
      max_steps = config.max_steps;
      min_confidence = config.min_confidence;
      steps = if enabled then or_fallback request.read_tools goal steps else [];
      intent_route = route;
      graph_expansion = graph;
    }

-- `retrieval_planner`: the configuration, the route, the expansion and the plan.
unfoldable pub retrieval_planner :
    (String → String) → Settings → RagConfig → Request → RetrievalPlan
retrieval_planner lower settings given request =
    let config = resolve_agentic_rag_config settings given in
    build_retrieval_plan request config config.enabled (route_request_intent lower request)
      (build_graph_expansion lower request.goal request.context_chunks)
