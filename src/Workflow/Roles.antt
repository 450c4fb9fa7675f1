-- ===== src/Workflow/Roles.antt =====
-- nodes/role_router.py: the order of the chosen roles.
use allcallall_agent_runtime.Common.{
  ℕ, ◌<◌, ◌≡◌, refl, subst, Bool, true, false, ◌||◌, Option, none, some, List, [], ◌∷◌, ◌++◌, All,
  All-append, Bool-cases, inl, inr, arith, clash,
}
use allcallall_agent_runtime.Workflow.State.{
  State, Role, searcher, memory_agent, synthesize, risk_analyst,
}
use allcallall_agent_runtime.Workflow.Router.{
  same_role, has_role, role_order, keep, ordered_subset, appended_if, chosen_roles, role_behind,
  head_role, chat_roles, preset_roles, risk_is_mandatory, says,
}

-- How many nodes lie from a role to END on the longest way without a revision.
abbrev pub rank : Role → ℕ
rank searcher = 12
rank memory_agent = 11
rank synthesize = 10
rank risk_analyst = 9

abbrev pub rank_of : Option Role → ℕ
rank_of none = 8
rank_of (some r) = rank r

-- In canonical order, each role once.
abbrev pub Descends : List Role → Type 0
Descends [] = Unit
Descends (r ∷ rs) = All (λ q. rank q < rank r) rs × Descends rs

keep-All : (P : Role → Type 0) (rs wanted : List Role) → All P rs → All P (keep rs wanted)
unfolding keep
keep-All P [] wanted h = tt
keep-All P (r ∷ rs) wanted h = elim (Bool-cases (has_role r wanted)) [
  | inl e ↦ rw (e, keep) (h.0, keep-All P rs wanted h.1)
  | inr e ↦ rw (e, keep) (keep-All P rs wanted h.1)
]

keep-Descends : (rs wanted : List Role) → Descends rs → Descends (keep rs wanted)
unfolding keep
keep-Descends [] wanted h = tt
keep-Descends (r ∷ rs) wanted h = elim (Bool-cases (has_role r wanted)) [
  | inl e ↦
      rw (e, keep) (keep-All (λ q. rank q < rank r) rs wanted h.0, keep-Descends rs wanted h.1)
  | inr e ↦ rw (e, keep) (keep-Descends rs wanted h.1)
]

role_order-Descends : Descends role_order
role_order-Descends = (
  (omega arith, (omega arith, (omega arith, tt))),
  ((omega arith, (omega arith, tt)), ((omega arith, tt), (tt, tt))),
)

above_risk : (r : Role) → same_role r risk_analyst ≡ false → rank risk_analyst < rank r
above_risk searcher h = omega arith
above_risk memory_agent h = omega arith
above_risk synthesize h = omega arith
above_risk risk_analyst h = clash refl h

or-false : (a b : Bool) → (a || b) ≡ false → (a ≡ false) × (b ≡ false)
or-false true b h = clash refl h
or-false false b h = (refl, h)

append-Descends :
    (rs : List Role)
    → has_role risk_analyst rs ≡ false
    → Descends rs
    → Descends (rs ++ risk_analyst ∷ [])
unfolding has_role
append-Descends [] h d = (tt, tt)
append-Descends (r ∷ rs) h d =
    let (here, later) = or-false (same_role r risk_analyst) (has_role risk_analyst rs) h in
    (
      All-append (λ q. rank q < rank r) rs (risk_analyst ∷ []) d.0 (above_risk r here, tt),
      append-Descends rs later d.1,
    )

appended_if-Descends :
    (wanted : Bool) (rs : List Role) → Descends rs → Descends (appended_if wanted risk_analyst rs)
unfolding appended_if
appended_if-Descends false rs d = d
appended_if-Descends true rs d = elim (Bool-cases (has_role risk_analyst rs)) [
  | inl e ↦ rw e d
  | inr e ↦ rw e (append-Descends rs e d)
]

merge_lt : (r : Role) → 8 < rank r
merge_lt searcher = omega arith
merge_lt memory_agent = omega arith
merge_lt synthesize = omega arith
merge_lt risk_analyst = omega arith

head_role-lt :
    (r : Role) (rs : List Role) → All (λ q. rank q < rank r) rs → rank_of (head_role rs) < rank r
head_role-lt r [] h = merge_lt r
head_role-lt r (q ∷ qs) h = h.0

pub same_role-eq : (p q : Role) → same_role p q ≡ true → p ≡ q
same_role-eq p q h = ground arith

-- A role is followed by a role of a lesser rank, or by `merge`.
pub role_behind-lt :
    (current : Role) (rs : List Role)
    → Descends rs
    → rank_of (role_behind current rs) < rank current
unfolding role_behind
role_behind-lt current [] d = merge_lt current
role_behind-lt current (r ∷ rs) d = elim (Bool-cases (same_role r current)) [
  | inl e ↦ rw e (
      subst (λ q. rank_of (head_role rs) < rank q) (same_role-eq r current e)
        (head_role-lt r rs d.0))
  | inr e ↦ rw e (role_behind-lt current rs d.1)
]

module _ {R : Type 0} where
  -- Whatever the request and the state, the chosen roles are in canonical order, each once.
  pub chosen_roles-Descends : (s : State R) → Descends (chosen_roles s)
  unfolding chosen_roles ordered_subset
  chosen_roles-Descends s =
      appended_if-Descends (risk_is_mandatory s)
        (keep role_order (
          chat_roles s.intent_route s.request.preset (
            appended_if (says "risk" s.intent_route) risk_analyst (preset_roles s.request.preset))))
        (keep-Descends role_order
          (chat_roles s.intent_route s.request.preset
            (appended_if (says "risk" s.intent_route) risk_analyst (preset_roles s.request.preset)))
          role_order-Descends)
