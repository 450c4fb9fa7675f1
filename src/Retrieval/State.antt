-- ===== src/Retrieval/State.antt =====
-- models/context.py, models/retrieval.py and models/workflows.py: the data of retrieval. Confidences
-- and scores are counted in hundredths, and a number that the source would read like 0 when it
-- is negative is natural. Of a chunk the retrieval ranks and the positions in a recording are
-- left out: the code only copies them.
use allcallall_agent_runtime.Common.{ℕ, Bool, Option, String, List}
use allcallall_agent_runtime.Common.Int.{ℤ}

pub record ContextChunk : Type 0 where
  pub chunk_id : String
  pub source_type : String
  pub source_id : String
  pub source_title : String
  pub title : String
  pub snippet : String
  pub score : ℤ
  pub rerank_score : ℤ
  pub rerank_reason : ℕ × ℕ
  pub final_rank : ℕ

pub record Citation : Type 0 where
  pub chunk_id : String
  pub source_type : String
  pub source_id : String
  pub source_title : String
  pub title : String
  pub snippet : String

pub data Intent : Type 0 where
  chat consult risk : Intent

pub data Strategy : Type 0 where
  none_at_all single_pass adaptive graph_augmented multi_hop : Strategy

pub record IntentRoute : Type 0 where
  pub intent : Intent
  pub target_workflow : String
  pub confidence : ℕ
  pub required_source_types : List String
  pub retrieval_strategy : Strategy

pub record KnowledgeGraphEdge : Type 0 where
  pub ordinal : ℕ
  pub origin : String
  pub source : String
  pub relation : String
  pub target : String
  pub evidence_chunk_id : String
  pub confidence : ℕ

pub record GraphExpansion : Type 0 where
  pub enabled : Bool
  pub query_terms : List String
  pub expanded_terms : List String
  pub edges : List KnowledgeGraphEdge

pub record RetrievalPlanStep : Type 0 where
  pub step : ℕ
  pub query : String
  pub source_scope : String
  pub tool_name : String
  pub strategy : Strategy
  pub expanded_terms : List String

pub record RetrievalPlan : Type 0 where
  pub enabled : Bool
  pub max_steps : ℕ
  pub min_confidence : ℕ
  pub steps : List RetrievalPlanStep
  pub intent_route : IntentRoute
  pub graph_expansion : GraphExpansion

-- AgenticRAGConfig
pub record RagConfig : Type 0 where
  pub enabled : Bool
  pub max_steps : ℕ
  pub min_confidence : ℕ
  pub allowed_source_types : List String

-- WorkflowRequest, as far as retrieval reads it.
pub record Request : Type 0 where
  pub preset : String
  pub goal : String
  pub messages : List String
  pub notes : List String
  pub meeting_transcripts : List String
  pub read_tools : List String
  pub context_chunks : List ContextChunk
  pub retrieval_mode : String
  pub context_fingerprint : String
  pub corpus_version : String

pub data Suffix : Type 0 where
  via_preloaded via_cache via_rag_runtime via_tool_bridge : Suffix

-- summarize_observation, the text as a constructor.
pub data Summary : Type 0 where
  metadata_inspected no_chunks : Summary
  found : ℕ → String → String → Summary

pub record RetrievalAttempt : Type 0 where
  pub step : ℕ
  pub query : String
  pub tool_name : String
  pub source_scope : String
  pub hit_count : ℕ
  pub source_types : List String
  pub selected_chunk_ids : List String
  pub observation : Summary × Suffix
  pub refined : Bool
  pub confidence : ℕ
  pub strategy : Strategy
  pub expanded_terms : List String
  pub graph_edges : List KnowledgeGraphEdge

pub record EvidencePack : Type 0 where
  pub selected_chunk_ids : List String
  pub source_types : List String
  pub confidence : ℕ
  pub snippets : List String
  pub citations : List Citation
  pub route_intent : Option Intent
  pub coverage : ℕ
  pub graph_edges : List KnowledgeGraphEdge

pub record ContextSufficiency : Type 0 where
  pub sufficient : Bool
  pub confidence : ℕ
  pub missing_info : List String
