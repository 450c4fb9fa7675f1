-- ===== src/Workflow/Ledger.antt =====
-- nodes/check.py: the counters of the running decision object.
use allcallall_agent_runtime.Common.{
  ℕ, ◌+◌, ◌≤◌, ◌≡◌, refl, Option, some, List, [], ◌∷◌, ◌++◌, length, length-append, arith,
}
use allcallall_agent_runtime.Workflow.State.{
  OutputDecision, Outcome, Decision, pass, revise, escalate, Agent, quality, safety, Verdict,
  accept, reject, escalated,
}
use allcallall_agent_runtime.Workflow.Check.{
  accumulate_quality, accumulate_safety, or_new, judged_safety, judged_quality, noted_quality,
  noted_safety,
}

abbrev pub revisions : List Decision → ℕ
revisions [] = 0
revisions (revise ∷ ds) = 1 + revisions ds
revisions (pass ∷ ds) = revisions ds
revisions (escalate ∷ ds) = revisions ds

revisions-append : (ds es : List Decision) → revisions (ds ++ es) ≡ revisions ds + revisions es
revisions-append [] es = omega arith
revisions-append (revise ∷ ds) es = omega (arith, revisions-append ds es)
revisions-append (pass ∷ ds) es = revisions-append ds es
revisions-append (escalate ∷ ds) es = revisions-append ds es

-- The counters agree with the trend of the quality decisions, and each of them has a score and a
-- line in the log.
abbrev pub IsConsistent : OutputDecision → Type 0
IsConsistent od =
    (od.revision_count ≡ revisions od.quality_trend)
    × ((od.total_review_cycles ≡ od.revision_count + 1)
        × ((length od.confidence_trajectory ≡ length od.quality_trend)
            × (length od.quality_trend ≤ length od.check_log)))

one_revision : (d : Decision) → d ≡ revise → revisions (d ∷ []) ≡ 1
one_revision d e = rw e (omega arith)

-- Noting a decision lengthens the trend, the scores and the log by one.
noted_quality-lem :
    (o : Outcome) (od : OutputDecision)
    → IsConsistent od
    → (length (noted_quality o od).confidence_trajectory
        ≡ length (noted_quality o od).quality_trend)
      × (length (noted_quality o od).quality_trend ≤ length (noted_quality o od).check_log)
noted_quality-lem o od (_, (_, (scores, logged))) =
    let t = length-append od.quality_trend (o.decision ∷ []) in
    let c = length-append od.confidence_trajectory (o.score ∷ []) in
    (omega (arith, scores, t, c), omega (arith, logged, t, length-append od.check_log (o ∷ [])))

judged_quality-IsConsistent :
    (d : Decision) (o : Outcome) (od : OutputDecision)
    → o.decision ≡ d
    → IsConsistent od
    → IsConsistent (judged_quality d o (noted_quality o od))
judged_quality-IsConsistent revise o od e h =
    let r = revisions-append od.quality_trend (o.decision ∷ []) in
    (
      omega (arith, h.0, r, one_revision o.decision e),
      (omega (arith, h.1.0), noted_quality-lem o od h),
    )
judged_quality-IsConsistent pass o od e h =
    let r = revisions-append od.quality_trend (o.decision ∷ []) in
    let k : revisions (o.decision ∷ []) ≡ 0 = rw e refl in
    (omega (arith, h.0, r, k), (h.1.0, noted_quality-lem o od h))
judged_quality-IsConsistent escalate o od e h =
    let r = revisions-append od.quality_trend (o.decision ∷ []) in
    let k : revisions (o.decision ∷ []) ≡ 0 = rw e refl in
    (omega (arith, h.0, r, k), (h.1.0, noted_quality-lem o od h))

accumulate_quality-IsConsistent :
    (o : Outcome) (od : Option OutputDecision)
    → IsConsistent (or_new od)
    → IsConsistent (accumulate_quality od o)
unfolding accumulate_quality
accumulate_quality-IsConsistent o od h = judged_quality-IsConsistent o.decision o (or_new od) refl h

judged_safety-IsConsistent :
    (d : Decision) (v : Verdict) (o : Outcome) (od : OutputDecision)
    → IsConsistent od
    → IsConsistent (judged_safety d v o od)
judged_safety-IsConsistent escalate v o od h = h
judged_safety-IsConsistent pass accept o od h = h
judged_safety-IsConsistent pass reject o od h = h
judged_safety-IsConsistent pass escalated o od h = h
judged_safety-IsConsistent revise v o od h = h

accumulate_safety-IsConsistent :
    (o : Outcome) (od : Option OutputDecision)
    → IsConsistent (or_new od)
    → IsConsistent (accumulate_safety od o)
unfolding accumulate_safety
accumulate_safety-IsConsistent o od (counts, (cycles, (scores, logged))) =
    let noted = noted_safety o (or_new od) in
    judged_safety-IsConsistent o.decision noted.final_verdict o noted (
      counts,
      (cycles, (scores, omega (arith, logged, length-append (or_new od).check_log (o ∷ [])))),
    )

abbrev pub accumulate_by : Agent → Outcome → Option OutputDecision → OutputDecision
accumulate_by quality o od = accumulate_quality od o
accumulate_by safety o od = accumulate_safety od o

accumulate_by-IsConsistent :
    (a : Agent) (o : Outcome) (od : Option OutputDecision)
    → IsConsistent (or_new od)
    → IsConsistent (accumulate_by a o od)
accumulate_by-IsConsistent quality o od h = accumulate_quality-IsConsistent o od h
accumulate_by-IsConsistent safety o od h = accumulate_safety-IsConsistent o od h

-- The decision object after the outcomes of a run, each folded in by its own agent's function.
abbrev pub accumulate_all : List Outcome → Option OutputDecision → Option OutputDecision
accumulate_all [] od = od
accumulate_all (o ∷ os) od = accumulate_all os (some (accumulate_by o.agent o od))

-- Whatever outcomes the two checks produce and in whatever order: if the counters of the decision
-- object, or of a new one, are consistent at the start, they are at the end, where the count of
-- revisions is the number of "revise" decisions in the trend and the cycles are one more.
pub accumulate_all-IsConsistent :
    (os : List Outcome) (od : Option OutputDecision)
    → IsConsistent (or_new od)
    → IsConsistent (or_new (accumulate_all os od))
accumulate_all-IsConsistent [] od h = h
accumulate_all-IsConsistent (o ∷ os) od h =
    accumulate_all-IsConsistent os (some (accumulate_by o.agent o od))
      (accumulate_by-IsConsistent o.agent o od h)
