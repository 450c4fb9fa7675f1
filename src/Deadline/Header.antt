-- ===== src/Deadline/Header.antt =====
-- deadline.py: `from_header` and `_parse_rfc3339`.
use allcallall_agent_runtime.Common.{
  ℕ, ◌+◌, Bool, ◌&&◌, ◌||◌, Option, none, some, List, [], ◌∷◌, leb, if◌then◌else◌,
}
use allcallall_agent_runtime.Common.Eq.{◌==◌, nat_eq}
use allcallall_agent_runtime.Common.Int.{pos, sub_ℕ, min_ℤ}
use allcallall_agent_runtime.Deadline.State.{Deadline, create}

abbrev within : ℕ → ℕ → ℕ → Bool
within lo hi c = leb lo c && leb c hi

-- The code points that `str.rstrip()` takes for white space.
unfoldable pub is_space : ℕ → Bool
is_space c =
    within 9 13 c
    || within 28 32 c
    || c == 133
    || c == 160
    || c == 5760
    || within 8192 8202 c
    || within 8232 8233 c
    || c == 8239
    || c == 8287
    || c == 12288

abbrev cons_or_drop : ℕ → List ℕ → List ℕ
cons_or_drop c [] = if is_space c then [] else c ∷ []
cons_or_drop c (d ∷ rest) = c ∷ d ∷ rest

unfoldable pub rstrip : List ℕ → List ℕ
rstrip [] = []
rstrip (c ∷ cs) = cons_or_drop c (rstrip cs)

-- A final `Z` is written as `+00:00`.
unfoldable pub normalize_zone : List ℕ → List ℕ
normalize_zone [] = []
normalize_zone (c ∷ []) = if c == b'Z' then b'+' ∷ b'0' ∷ b'0' ∷ b':' ∷ b'0' ∷ b'0' ∷ [] else c ∷ []
normalize_zone (c ∷ d ∷ cs) = c ∷ normalize_zone (d ∷ cs)

-- What `datetime.fromisoformat` returns: an instant in microseconds of UTC, where the text had a
-- zone.
pub data Stamp : Type 0 where
  naive : Stamp
  aware : ℕ → Stamp

module _ (fromisoformat : List ℕ → Option Stamp) where
  unfoldable pub parse_rfc3339 : List ℕ → Option ℕ
  parse_rfc3339 value = elim (fromisoformat (normalize_zone (rstrip value))) [
    | none ↦ none
    | some stamp ↦ elim stamp [ naive ↦ none | aware utc ↦ some utc ]
  ]

  unfoldable pub caller_deadline : Option (List ℕ) → Option ℕ
  caller_deadline none = none
  caller_deadline (some value) = parse_rfc3339 value

  -- The clocks are read once each: monotonic at `now`, wall clock at `now_utc`.
  unfoldable pub from_header : Option (List ℕ) → ℕ → ℕ → ℕ → Deadline
  from_header value default now now_utc =
      let local_max = pos (now + default) in
      create (elim (caller_deadline value) [
        | none ↦ local_max
        | some utc ↦ min_ℤ (sub_ℕ (now + utc) now_utc) local_max
      ])
