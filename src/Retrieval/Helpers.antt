-- ===== src/Retrieval/Helpers.antt =====
-- helpers.py: keys, deduplication, source types and the confidence of retrieved chunks. A list that
-- the source keeps beside a set of what it has seen is one list here.
use Prim.Native.String.{◌++◌ as ◌<>◌, compare}
use text.Mathlib.Text.{is_lt}
use allcallall_agent_runtime.Common.{
  ℕ, ◌+◌, ◌-◌, ◌*◌, min, Bool, true, false, not, ◌&&◌, ◌||◌, none, some, String, List, [], ◌∷◌,
  ◌++◌, map, length, leb, if◌then◌else◌,
}
use allcallall_agent_runtime.Common.Eq.{◌==◌, string_eq, contains}
use allcallall_agent_runtime.Common.Text.{is_blank, squeeze, strip, join, first_chars}
use allcallall_agent_runtime.Retrieval.State.{
  ContextChunk, Citation, Intent, chat, consult, risk, EvidencePack, ContextSufficiency, Summary,
  metadata_inspected, no_chunks, found,
}

-- `a or b` on texts
abbrev pub or_text : String → String → String
or_text a b = if is_blank a then b else a

-- chunk_key, and `_chunk_key` of retrieval.py
unfoldable pub chunk_key : ContextChunk → String
chunk_key chunk = or_text chunk.chunk_id (chunk.source_type <> (":" <> chunk.source_id))

-- The loops that keep the first item of each key.
module _ {ℓ} {A : Type ℓ} (key : A → String) where
  unfoldable pub first_by : List String → List A → List A
  first_by seen [] = []
  first_by seen (x ∷ xs) =
      let known = contains seen (key x) in
      let rest = first_by (if known then seen else key x ∷ seen) xs in
      if known then rest else x ∷ rest

abbrev pub citation_key : Citation → String
citation_key citation = citation.source_type <> (":" <> citation.source_id)

unfoldable pub dedupe_citations : List Citation → List Citation
dedupe_citations citations = first_by citation_key [] citations

-- The values of a list for which `keeps` holds, in order.
unfoldable pub filter {ℓ} : {A : Type ℓ} → (A → Bool) → List A → List A
filter keeps [] = []
filter keeps (x ∷ xs) = let rest = filter keeps xs in if keeps x then x ∷ rest else rest

unfoldable pub any {ℓ} : {A : Type ℓ} → (A → Bool) → List A → Bool
any test [] = false
any test (x ∷ xs) = test x || any test xs

unfoldable pub unique_strings : List String → List String
unique_strings values = first_by (λ v. v) ("" ∷ []) (map squeeze values)

unfoldable pub first_non_empty : List String → String
first_non_empty [] = ""
first_non_empty (v ∷ vs) = if is_blank (strip v) then first_non_empty vs else v

-- sorted({...}): each text once, in order.
unfoldable pub insert_text : String → List String → List String
insert_text v [] = v ∷ []
insert_text v (w ∷ ws) =
    let rest = insert_text v ws in
    if v == w then w ∷ ws else if is_lt (compare v w) then v ∷ w ∷ ws else w ∷ rest

unfoldable pub sorted_set : List String → List String
sorted_set [] = []
sorted_set (v ∷ vs) = insert_text v (sorted_set vs)

abbrev pub source_type_of : ContextChunk → String
source_type_of chunk = chunk.source_type

abbrev pub source_types : List ContextChunk → List String
source_types chunks = map source_type_of chunks

-- chunk.source_type and chunk.source_id and chunk.snippet
abbrev pub citable : ContextChunk → Bool
citable chunk =
    not (is_blank chunk.source_type)
    && (not (is_blank chunk.source_id) && not (is_blank chunk.snippet))

abbrev pub cite : ContextChunk → Citation
cite chunk = record {
  chunk_id = chunk.chunk_id;
  source_type = chunk.source_type;
  source_id = chunk.source_id;
  source_title = or_text chunk.source_title chunk.title;
  title =
      or_text (or_text chunk.title chunk.source_title)
        (chunk.source_type <> (" #" <> chunk.source_id));
  snippet = chunk.snippet;
}

unfoldable pub citations_from_chunks : List ContextChunk → List Citation
citations_from_chunks chunks = dedupe_citations (map cite (filter citable chunks))

unfoldable pub summarize_observation : String → List ContextChunk → Summary
summarize_observation tool [] =
    if tool == "query_recent_meetings" then metadata_inspected else no_chunks
summarize_observation tool (chunk ∷ chunks) =
    if tool == "query_recent_meetings"
    then metadata_inspected
    else found (length (chunk ∷ chunks))
        (join ", " (unique_strings (source_types (chunk ∷ chunks)))) (first_chars 120 chunk.snippet)

unfoldable pub tool_allowed : List String → String → Bool
tool_allowed [] tool = true
tool_allowed (t ∷ ts) tool = contains (t ∷ ts) tool

abbrev points : Bool → ℕ → ℕ
points b n = if b then n else 0

abbrev pub has_chat_source : List String → Bool
has_chat_source types =
    contains types "conversation" || (contains types "message" || contains types "note")

-- The gains and the losses of `estimate_retrieval_confidence`.
abbrev gains : String → List ContextChunk → ℕ
gains preset chunks =
    let types = source_types chunks in
    min (40 + length chunks * 8) 75
    + points (contains types "meeting_transcript") 18
    + points (contains types "knowledge") 12
    + points (preset == "risk_review" && has_chat_source types) 12
    + points (contains types "memory") 5

abbrev losses : String → List ContextChunk → ℕ
losses preset chunks =
    let types = source_types chunks in
    points (preset == "context_qa" && not (contains types "knowledge")) 25
    + points (preset == "meeting_brief" && not (contains types "meeting_transcript")) 20

-- The difference stops at 0, as max(0.0, ...) does.
unfoldable pub estimate_retrieval_confidence : String → List ContextChunk → ℕ
estimate_retrieval_confidence preset [] = 0
estimate_retrieval_confidence preset (chunk ∷ chunks) =
    min (gains preset (chunk ∷ chunks) - losses preset (chunk ∷ chunks)) 100

abbrev pub none_of {ℓ} : {A : Type ℓ} → List A → Bool
none_of [] = true
none_of (x ∷ xs) = false

-- if b: missing.append(what)
abbrev pub missing_if : Bool → String → List String
missing_if b what = if b then what ∷ [] else []

abbrev pub is_risk : Intent → Bool
is_risk risk = true
is_risk _ = false

abbrev pub is_consult : Intent → Bool
is_consult consult = true
is_consult _ = false

abbrev pub is_chat : Intent → Bool
is_chat chat = true
is_chat _ = false

abbrev pub route_is : (Intent → Bool) → EvidencePack → Bool
route_is test pack = elim pack.route_intent [ none ↦ false | some i ↦ test i ]

-- The list `missing` of `evaluate_context_sufficiency`.
unfoldable pub missing_info : String → EvidencePack → List String
missing_info preset pack =
    let types = pack.source_types in
    missing_if (none_of pack.citations) "retrieved evidence"
    ++ (missing_if (preset == "meeting_brief" && not (contains types "meeting_transcript"))
          "meeting transcript citation"
        ++ (missing_if (preset == "context_qa" && none_of types)
              "knowledge or conversation evidence"
            ++ (missing_if
                  (route_is is_risk pack
                    && not (contains types "meeting_transcript" || has_chat_source types))
                  "risk evidence"
                ++ missing_if (route_is is_consult pack && not (contains types "knowledge"))
                    "knowledge citation")))

unfoldable pub threshold : EvidencePack → ℕ
threshold pack = if route_is is_risk pack || route_is is_consult pack then 55 else 45

unfoldable pub evaluate_context_sufficiency : String → EvidencePack → ContextSufficiency
evaluate_context_sufficiency preset pack =
    let missing = missing_info preset pack in
    record {
      sufficient = none_of missing && leb (threshold pack) pack.confidence;
      confidence = pack.confidence;
      missing_info = missing;
    }

abbrev pub is_scope : String → List String
is_scope scope = scope ∷ "conversation" ∷ []

-- The chunks in the scope of a step.
abbrev pub in_scope : String → List ContextChunk → List ContextChunk
in_scope scope chunks =
    if scope == "knowledge"
    then filter (λ c. c.source_type == "knowledge") chunks
    else if scope == "meeting_transcript"
    then filter (λ c. c.source_type == "meeting_transcript") chunks
    else if contains
        ("conversation" ∷ "message" ∷ "note" ∷ "followup" ∷ "memory" ∷ "contact_profile" ∷ []) scope
    then filter (λ c. contains (is_scope scope) c.source_type) chunks
    else chunks

unfoldable pub scoped_chunks : List ContextChunk → String → List ContextChunk
scoped_chunks chunks scope =
    let scoped = in_scope scope chunks in
    if none_of scoped && not (scope == "all") then chunks else scoped
