-- ===== src/Resume/Answered.antt =====
-- orchestration/harness.py: the ids that a run reports are those that a resume expects.
use text.Mathlib.TextLemmas.{cons-append, nil-append}
use Prim.Native.String.{◌++◌ as ◌<>◌}
use Prim.Native.Char.{Char}
use allcallall_agent_runtime.Common.{
  Bool-cases, List, String, [], arith, false, inl, inr, leb, leb→le, le→leb, map, refl, suc, zero,
  ℕ, ◌+◌, ◌∷◌, ◌≡◌, ◌≤◌,
}
use allcallall_agent_runtime.Common.Text.{char_count, first_chars, is_blank}
use allcallall_agent_runtime.Common.Distinct.{Distinct}
use allcallall_agent_runtime.Resume.Calls.{
  ApprovalDecision, Call, PendingApproval, PendingTool, Texts, Verdict, candidate, contract_from,
  contract_tool_calls, tool_call_id,
}
use allcallall_agent_runtime.Resume.Checkpoint.{Response, ResumeRequest, checkpoint_version}

char_count-append : (s t : String) → char_count (s <> t) ≡ char_count s + char_count t
unfolding char_count
char_count-append String.[] t = rw (nil-append t) (omega arith)
char_count-append (String.◌∷◌ c s) t = rw (cons-append c s t) (omega (arith, char_count-append s t))

first_chars-short : (n : ℕ) (s : String) → char_count (first_chars n s) ≤ n
unfolding char_count first_chars
first_chars-short zero s = omega arith
first_chars-short (suc n) String.[] = omega arith
first_chars-short (suc n) (String.◌∷◌ c s) = omega (arith, first_chars-short n s)

filled_cons : (c : Char) (s t : String) → is_blank (String.◌∷◌ c s <> t) ≡ false
filled_cons c s t = rw (cons-append c s t) refl

not_blank : (s t : String) → is_blank (s <> (":" <> t)) ≡ false
not_blank String.[] t = rw (nil-append (":" <> t)) (filled_cons _ "" t)
not_blank (String.◌∷◌ c s) t = rw (cons-append c s (":" <> t)) refl

module _ {A : Type 0} (texts : Texts A) (execution_id : String) where
  -- A text that is long enough to be a call's id, and short enough.
  record IsId (i : String) : Type 0 where
    filled : is_blank i ≡ false
    short : char_count i ≤ 96

  behind_id :
      (t : String)
      → char_count (execution_id <> (":" <> t)) ≡ char_count execution_id + suc (char_count t)
  unfolding char_count
  behind_id t = omega (arith, char_count-append execution_id (":" <> t), char_count-append ":" t)

  tool_call_id-IsId :
      ((n : ℕ) → char_count (texts.decimal n) ≤ 24)
      → char_count execution_id ≤ 71
      → (call : Call A) (index : ℕ) → IsId (tool_call_id texts call execution_id index)
  unfolding tool_call_id
  tool_call_id-IsId digits le call index = elim (Bool-cases (is_blank (candidate texts call))) [
    | inl e ↦
        rw (e, tool_call_id)
          (record {
            filled = not_blank execution_id (texts.decimal (suc index));
            short = omega (arith, le, digits (suc index), behind_id (texts.decimal (suc index)));
          })
    | inr e ↦ elim (Bool-cases (leb (char_count (candidate texts call)) 96)) [
      | inl f ↦ rw (e, f, tool_call_id) (record { filled = e; short = leb→le _ _ f })
      | inr f ↦
          let hashed = first_chars 24 (texts.digest (candidate texts call)) in
          rw (e, f, tool_call_id)
            (record {
              filled = not_blank execution_id hashed;
              short = omega (
                arith,
                le,
                first_chars-short 24 (texts.digest (candidate texts call)),
                behind_id hashed,
              );
            })
    ]
  ]

  kept :
      (call : Call A) (i : String) (index : ℕ)
      → IsId i
      → tool_call_id texts (record call { tool_call_id = i }) execution_id index ≡ i
  unfolding tool_call_id
  kept call i index h = rw (h.filled, le→leb (char_count i) 96 h.short, h.filled, tool_call_id) refl

  module _ (digits : (n : ℕ) → char_count (texts.decimal n) ≤ 24)
      (le : char_count execution_id ≤ 71) where
    twice_from :
        (index : ℕ) (calls : List (Call A))
        → contract_from texts execution_id index (contract_from texts execution_id index calls)
          ≡ contract_from texts execution_id index calls
    unfolding contract_from
    twice_from index [] = refl
    twice_from index (call ∷ calls) =
        let i = tool_call_id texts call execution_id index in
        cc
          (kept call i index (tool_call_id-IsId digits le call index), twice_from (suc index) calls)

    -- The contract of the calls made once more is the same.
    pub contract-contract :
        (calls : List (Call A))
        → contract_tool_calls texts execution_id (contract_tool_calls texts execution_id calls)
          ≡ contract_tool_calls texts execution_id calls
    unfolding contract_tool_calls
    contract-contract calls = twice_from 0 calls

module _ {A : Type 0} (texts : Texts A) where
  -- A decision for each pending tool.
  abbrev pub decide_all : (PendingTool A → Verdict) → List (PendingTool A) → List ApprovalDecision
  decide_all judge tools =
      map (λ t. record { tool_call_id = t.tool_call_id; decision = judge t }) tools

  -- The request that answers a response whose approval is `pending`.
  abbrev pub answer : (PendingTool A → Verdict) → Response A → PendingApproval A → ResumeRequest
  answer judge response pending = record {
    execution_id = response.execution_id;
    expected_checkpoint_version = response.checkpoint_version;
    approval_request_id = pending.approval_request_id;
    decisions = decide_all judge pending.tools;
  }
