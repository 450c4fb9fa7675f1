-- ===== src/Drafting/Merge.antt =====
-- nodes/retrieval.py: `merge`.
use allcallall_agent_runtime.Common.{List, String, [], if◌then◌else◌, map, ◌++◌, ◌∷◌}
use allcallall_agent_runtime.Common.Eq.{string_eq, ◌==◌}
use allcallall_agent_runtime.Retrieval.State.{Citation, Request}
use allcallall_agent_runtime.Retrieval.Helpers.{
  dedupe_citations, filter, first_non_empty, none_of, or_text, unique_strings,
}
use allcallall_agent_runtime.Drafting.Synthesis.{synthesize_action_items}

pub record RoleResult : Type 0 where
  pub role : String
  pub summary : String
  pub action_items : List String
  pub risk_flags : List String
  pub citations : List Citation

-- The fields of the state that `merge` writes; the next step is a fixed text.
pub record Merged : Type 0 where
  pub summary : String
  pub action_items : List String
  pub risk_flags : List String
  pub citations : List Citation

-- [item for role in role_results for item in items_of(role)]
abbrev pub gathered_from {ℓ} : {A : Type ℓ} → (RoleResult → List A) → List RoleResult → List A
gathered_from items_of [] = []
gathered_from items_of (r ∷ rs) = items_of r ++ gathered_from items_of rs

abbrev default_summary : String
default_summary =
    "Python LangGraph meeting brief completed using the supplied meeting transcript context."

abbrev summaries : List RoleResult → List String
summaries results = map (λ r. r.summary) results

unfoldable pub merge : (String → String) → Request → List RoleResult → Merged
merge lower request results =
    let said =
      first_non_empty
        (summaries (filter (λ r. r.role == "summarizer") results) ++ summaries results) in
    let items = unique_strings (gathered_from (λ r. r.action_items) results) in
    record {
      summary = or_text said default_summary;
      action_items = if none_of items then synthesize_action_items lower request else items;
      risk_flags = unique_strings (gathered_from (λ r. r.risk_flags) results);
      citations = dedupe_citations (gathered_from (λ r. r.citations) results);
    }
