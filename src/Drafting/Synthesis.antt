-- ===== src/Drafting/Synthesis.antt =====
-- synthesis.py and grounding.py, by `str.lower` as `lower`.
use Prim.Native.Char.{Char, code}
use Prim.Native.String.{◌++◌ as ◌<>◌}
use allcallall_agent_runtime.Common.{
  Bool, List, String, [], false, if◌then◌else◌, leb, length, map, not, take, true, ◌&&◌, ◌++◌, ◌||◌,
  ◌∷◌,
}
use allcallall_agent_runtime.Common.Eq.{contains, nat_eq, string_eq}
use allcallall_agent_runtime.Common.Text.{char_count, is_blank, join, split_at, strip, within}
use allcallall_agent_runtime.Retrieval.State.{Citation, ContextChunk, Request}
use allcallall_agent_runtime.Retrieval.Helpers.{any, filter, none_of, or_text, unique_strings}
use allcallall_agent_runtime.Retrieval.Rerank.{is_token_char}
use allcallall_agent_runtime.Retrieval.Intent.{contains_any}

abbrev markers : List String
markers = "跟进" ∷ "确认" ∷ "发送" ∷ "补充" ∷ "review" ∷ "confirm" ∷ "send" ∷ "follow" ∷ []

abbrev snippets : List ContextChunk → List String
snippets chunks = map (λ chunk. chunk.snippet) chunks

abbrev follow_up_on : String → String
follow_up_on marker =
    "Follow up on item containing `" <> (marker <> "` from the meeting transcript.")

-- if hit: flags.append(flag)
abbrev flag_if : Bool → String → List String
flag_if hit flag = if hit then flag ∷ [] else []

-- [。.!?\n]
abbrev ends_claim : Char → Bool
ends_claim c = contains ⦃keys = nat_eq⦄ (12290 ∷ 46 ∷ 33 ∷ 63 ∷ 10 ∷ []) (code c)

-- The pieces between runs of such characters that are not blank.
unfoldable pub split_claims : String → List String
split_claims text = filter (λ claim. not (is_blank claim)) (map strip (split_at ends_claim text))

abbrev stop_words : List String
stop_words =
    "meeting" ∷ "brief" ∷ "risk" ∷ "review" ∷ "context" ∷ "based" ∷ "using" ∷ "当前" ∷ "会议" ∷ "复盘"
    ∷ []

pub record GroundingResult : Type 0 where
  pub grounded : Bool
  pub unsupported_claims : List String

module _ (lower : String → String) where
  unfoldable pub synthesize_action_items : Request → List String
  synthesize_action_items request =
      let text =
        or_text (join " " request.meeting_transcripts)
          (join " " (snippets request.context_chunks)) in
      let found = filter (λ marker. within (lower marker) (lower text)) markers in
      take 3 (
        unique_strings
          (if none_of found then "确认会议结论、风险点和下一步 owner。" ∷ [] else map follow_up_on found))

  unfoldable pub infer_risk_flags : Request → List String → List String
  infer_risk_flags request texts =
      let text = lower (join " " (texts ++ snippets request.context_chunks)) in
      unique_strings (
        flag_if
          (contains_any lower text
            ("approval" ∷ "security" ∷ "legal" ∷ "privacy" ∷ "审批" ∷ "安全" ∷ "法务" ∷ []))
          "approval_sensitive_action"
        ++ (flag_if
              (contains_any lower text ("deadline" ∷ "budget" ∷ "delay" ∷ "延期" ∷ "预算" ∷ "截止" ∷ []))
              "budget_or_timeline_risk"
            ++ flag_if
                (contains_any lower text
                  ("risk" ∷ "blocker" ∷ "unresolved" ∷ "风险" ∷ "阻塞" ∷ "未解决" ∷ []))
                "unresolved_meeting_risk"))

  -- `meaningful_tokens`; a token that occurs twice stands twice.
  unfoldable pub meaningful_tokens : String → List String
  meaningful_tokens text =
      filter (λ t. leb 2 (char_count t) && not (contains stop_words t))
        (map strip (split_at (λ c. not (is_token_char c)) (lower text)))

  -- At least two tokens, and none of them in the text.
  unfoldable pub unsupported_by : String → String → Bool
  unsupported_by citation_text claim =
      let tokens = meaningful_tokens claim in
      leb 2 (length tokens) && not (any (λ t. within t citation_text) tokens)

  -- `check_grounding`, `enabled` being config.enable_grounding_check.
  unfoldable pub check_grounding : Bool → String → List Citation → GroundingResult
  check_grounding false summary citations = record { grounded = true; unsupported_claims = [] }
  check_grounding true summary citations =
      let text = lower (join " " (map (λ citation. citation.snippet) citations)) in
      let unsupported = filter (unsupported_by text) (split_claims summary) in
      record {
        grounded = none_of unsupported || not (none_of citations);
        unsupported_claims = take 5 unsupported;
      }
