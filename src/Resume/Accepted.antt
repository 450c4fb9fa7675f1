-- ===== src/Resume/Accepted.antt =====
-- orchestration/harness.py: what a resume that is accepted has decided.
use allcallall_agent_runtime.Common.{
  Bool, Bool-cases, List, String, [], arith, false, inl, inr, length, map, not, or_false, refl, sym,
  true, ◌&&◌, ◌||◌, ◌∙◌, ◌∷◌, ◌≡◌,
}
use allcallall_agent_runtime.Common.Eq.{apart_from, contains, nat_eq, string_eq, ◌==◌}
use allcallall_agent_runtime.Common.Result.{Result, err, ok}
use allcallall_agent_runtime.Common.Distinct.{Distinct, Listed, Listed-all, Unlisted}
use allcallall_agent_runtime.Resume.Calls.{
  ApprovalDecision, Call, Texts, all_distinct, decide_each, decided, decisions_mismatch, id_of,
  ids_not_unique, validate_resume_decisions,
}
use allcallall_agent_runtime.Retrieval.Helpers.{none_of}

-- Every pending call is decided, exactly once, and nothing else is.
pub record IsDecided (expected ids : List String) : Type 0 where
  pub unique : Distinct expected
  pub once : Distinct ids
  pub pending : Listed expected ids
  pub covered : Listed ids expected

both_true : (a b : Bool) → (not a && b) ≡ true → (a ≡ false) × (b ≡ true)
both_true a b h = ground arith

neither_not : (a b : Bool) → (not a || b) ≡ false → (a ≡ true) × (b ≡ false)
neither_not a b h = ground arith

second_true : (a b : Bool) → (a || not b) ≡ false → b ≡ true
second_true a b h = ground arith

pub not-false : (b : Bool) → not b ≡ false → b ≡ true
not-false b h = ground arith

clash_ok {ℓ} : {A : Type ℓ} {E : Type 0} {e : E} → ◌≡◌ {A = Result E (Unit {0})} (err e) (ok tt) → A
clash_ok h = cc

-- Texts that are not among `k :: seen`.
Unlisted-uncons :
    (seen : List String) (k : String) (ids : List String)
    → Unlisted (k ∷ seen) ids
    → (contains ids k ≡ false) × Unlisted seen ids
unfolding contains
Unlisted-uncons seen k [] u = (refl, tt)
Unlisted-uncons seen k (i ∷ ids) (u, us) =
    let (other, out) = apart_from k i (contains seen i) u in
    let (fresh, outs) = Unlisted-uncons seen k ids us in (or_false _ _ other fresh, (out, outs))

pub all_distinct-holds : (ids : List String) → all_distinct ids ≡ true → Distinct ids
unfolding all_distinct
all_distinct-holds [] h = tt
all_distinct-holds (i ∷ ids) h =
    let (fresh, rest) = both_true (contains ids i) (all_distinct ids) h in
    (fresh, all_distinct-holds ids rest)

refused :
    (expected seen : List String) (i : String) (ids : List String)
    → (not (contains expected i) || contains seen i) ≡ true
    → decide_each expected seen (i ∷ ids) ≡ err decisions_mismatch
unfolding decide_each
refused expected seen i ids e = rw (e, decide_each) refl

passed :
    (expected seen : List String) (i : String) (ids : List String)
    → (not (contains expected i) || contains seen i) ≡ false
    → decide_each expected seen (i ∷ ids) ≡ decide_each expected (i ∷ seen) ids
unfolding decide_each
passed expected seen i ids e = rw (e, decide_each) refl

-- The decisions that the loop lets pass.
decide_each-ok :
    (expected seen ids : List String)
    → decide_each expected seen ids ≡ ok tt
    → Listed expected ids × (Distinct ids × Unlisted seen ids)
decide_each-ok expected seen [] h = (tt, (tt, tt))
decide_each-ok expected seen (i ∷ ids) h =
    elim (Bool-cases (not (contains expected i) || contains seen i)) [
      | inl e ↦ clash_ok (sym (refused expected seen i ids e) ∙ h)
      | inr e ↦
          let (l, (d, u)) =
            decide_each-ok expected (i ∷ seen) ids (sym (passed expected seen i ids e) ∙ h) in
          let (known, new) = neither_not (contains expected i) (contains seen i) e in
          let (fresh, outs) = Unlisted-uncons seen i ids u in
          ((known, l), ((fresh, d), (new, outs)))
    ]

module _ {A : Type 0} (texts : Texts A) where
  first_check :
      (calls : List (Call A)) (decisions : List ApprovalDecision)
      → (none_of calls || not (length decisions == length calls)) ≡ true
      → validate_resume_decisions texts calls decisions ≡ err decisions_mismatch
  unfolding validate_resume_decisions
  first_check calls decisions e = rw (e, validate_resume_decisions) refl

  second_check :
      (calls : List (Call A)) (decisions : List ApprovalDecision)
      → (none_of calls || not (length decisions == length calls)) ≡ false
      → not (all_distinct (map (id_of texts) calls)) ≡ true
      → validate_resume_decisions texts calls decisions ≡ err ids_not_unique
  unfolding validate_resume_decisions
  second_check calls decisions e f = rw (e, f, validate_resume_decisions) refl

  third_check :
      (calls : List (Call A)) (decisions : List ApprovalDecision)
      → (none_of calls || not (length decisions == length calls)) ≡ false
      → not (all_distinct (map (id_of texts) calls)) ≡ false
      → validate_resume_decisions texts calls decisions
        ≡ decide_each (map (id_of texts) calls) [] (decided texts decisions)
  unfolding validate_resume_decisions
  third_check calls decisions e f = rw (e, f, validate_resume_decisions) refl

  same_length :
      (calls : List (Call A)) (decisions : List ApprovalDecision)
      → (none_of calls || not (length decisions == length calls)) ≡ false
      → length decisions ≡ length calls
  same_length calls decisions e = (nat_eq.same_iff _ _).0 (second_true (none_of calls) _ e)

  length-ids : (calls : List (Call A)) → length (map (id_of texts) calls) ≡ length calls
  length-ids [] = refl
  length-ids (c ∷ cs) = omega (arith, length-ids cs)

  length-decided :
      (decisions : List ApprovalDecision) → length (decided texts decisions) ≡ length decisions
  length-decided [] = refl
  length-decided (d ∷ ds) = omega (arith, length-decided ds)

  pub validate-ok :
      (calls : List (Call A)) (decisions : List ApprovalDecision)
      → validate_resume_decisions texts calls decisions ≡ ok tt
      → IsDecided (map (id_of texts) calls) (decided texts decisions)
  validate-ok calls decisions h =
      let expected = map (id_of texts) calls in
      let ids = decided texts decisions in
      elim (Bool-cases (none_of calls || not (length decisions == length calls))) [
        | inl e ↦ clash_ok (sym (first_check calls decisions e) ∙ h)
        | inr e ↦ elim (Bool-cases (not (all_distinct expected))) [
          | inl f ↦ clash_ok (sym (second_check calls decisions e f) ∙ h)
          | inr f ↦
              let (pending, (once, u)) =
                decide_each-ok expected [] ids (sym (third_check calls decisions e f) ∙ h) in
              record {
                unique = all_distinct-holds expected (not-false _ f);
                once = once;
                pending = pending;
                covered = Listed-all ids expected once pending (
                    omega (
                      arith,
                      length-ids calls,
                      length-decided decisions,
                      same_length calls decisions e,
                    ));
              }
        ]
      ]
