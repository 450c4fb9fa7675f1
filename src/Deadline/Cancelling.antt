-- ===== src/Deadline/Cancelling.antt =====
-- deadline.py: cancellation and its reasons.
use allcallall_agent_runtime.Common.{
  ℕ, ◌<◌, ◌≡◌, refl, subst, ◌⊎◌, inl, inr, true, some, String, List, [], ◌∷◌, arith, eq_iff,
  Bool-cases,
}
use allcallall_agent_runtime.Common.Eq.{◌==◌, nat_eq, string_eq, contains}
use allcallall_agent_runtime.Common.Int.{ℤ}
use allcallall_agent_runtime.Common.Result.{ok, err, Result-cases}
use allcallall_agent_runtime.Deadline.State.{
  valid_cancel_reasons, Deadline, execution_cancelled, cancellation, create, cancel,
  reason_or_default, raise_if_cancelled, expired, remaining_seconds,
}

abbrev pub IsKnown : String → Type 0
IsKnown reason = contains valid_cancel_reasons reason ≡ true

-- What callers may do to a deadline: one `cancel` after another, refused ones included.
unfoldable pub cancel_each : List String → Deadline → Deadline
cancel_each [] d = d
cancel_each (r ∷ rs) d = elim (cancel r d) [ ok d' ↦ cancel_each rs d' | err e ↦ cancel_each rs d ]

known_not_empty : (r : String) → IsKnown r → reason_or_default (some r) ≡ r
unfolding contains reason_or_default
known_not_empty r h = elim (Bool-cases (r == "")) [
  | inl empty ↦ absurd (cc (subst IsKnown ((eq_iff r "").0 empty) h))
  | inr other ↦ rw other
]

-- A cancellation that is accepted is what the next check raises, also after the deadline.
pub raise_if_cancelled-cancel :
    (r : String) (d d' : Deadline) (now : ℕ)
    → cancel r d ≡ ok d'
    → raise_if_cancelled d' now ≡ err (execution_cancelled r)
unfolding cancel raise_if_cancelled cancellation
raise_if_cancelled-cancel r d d' now h = elim (Bool-cases (contains valid_cancel_reasons r)) [
  | inl known ↦ ground (arith, known_not_empty r known)
  | inr other ↦ ground arith
]

-- The reason that a deadline would raise is one of the four.
abbrev HasKnownReason : Deadline → Type 0
HasKnownReason d = IsKnown (reason_or_default d.cancel_reason)

cancel-HasKnownReason : (r : String) (d d' : Deadline) → cancel r d ≡ ok d' → HasKnownReason d'
unfolding cancel
cancel-HasKnownReason r d d' h = elim (Bool-cases (contains valid_cancel_reasons r)) [
  | inl known ↦ ground (arith, known_not_empty r known)
  | inr other ↦ ground arith
]

cancel_each-HasKnownReason :
    (rs : List String) (d : Deadline) → HasKnownReason d → HasKnownReason (cancel_each rs d)
unfolding cancel_each
cancel_each-HasKnownReason [] d h = h
cancel_each-HasKnownReason (r ∷ rs) d h = elim (Result-cases (cancel r d)) [
  | inl (d', fine) ↦
      rw (fine, cancel_each) (cancel_each-HasKnownReason rs d' (cancel-HasKnownReason r d d' fine))
  | inr (e, refused) ↦ rw (refused, cancel_each) (cancel_each-HasKnownReason rs d h)
]

check_cases :
    (d : Deadline) (now : ℕ)
    → HasKnownReason d
    → (raise_if_cancelled d now ≡ ok tt) × (0 < remaining_seconds d now)
      ⊎ ((r : String) × (raise_if_cancelled d now ≡ err (execution_cancelled r)) × IsKnown r)
unfolding raise_if_cancelled cancellation expired
check_cases d now known = elim (Bool-cases d.cancelled) [
  | inl stopped ↦ inr (reason_or_default d.cancel_reason, simp (stopped, known), known)
  | inr running ↦ elim (Bool-cases (remaining_seconds d now == 0)) [
    | inl late ↦ inr (
      "deadline_exceeded",
      simp (running, late) (unfold contains in refl),
      unfold contains in refl,
    )
    | inr early ↦ inl (simp (running, early), ground arith)
  ]
]

-- Whatever was cancelled before, in whatever order, valid or not: the check passes only before
-- the deadline, and otherwise raises ExecutionCancelled with one of the four reasons, never the
-- ValueError of its constructor.
pub raise_if_cancelled_bounded :
    (at : ℤ) (rs : List String) (now : ℕ)
    → (raise_if_cancelled (cancel_each rs (create at)) now ≡ ok tt)
        × (0 < remaining_seconds (cancel_each rs (create at)) now)
      ⊎ ((r : String) × (raise_if_cancelled (cancel_each rs (create at)) now
            ≡ err (execution_cancelled r))
          × IsKnown r)
raise_if_cancelled_bounded at rs now =
    check_cases (cancel_each rs (create at)) now
      (cancel_each-HasKnownReason rs (create at) (unfold create reason_or_default contains in refl))
