-- ===== src/Workflow/Required.antt =====
-- nodes/role_router.py: which roles are chosen.
use allcallall_agent_runtime.Common.{
  ◌≡◌, refl, sym, subst, ap, ◌∙◌, Bool, true, false, not, ◌&&◌, ◌||◌, Option, String, List, [], ◌∷◌,
  ◌++◌, Bool-cases, inl, inr, if◌then◌else◌, clash, length, ltb,
}
use allcallall_agent_runtime.Common.Eq.{◌==◌, string_eq}
use allcallall_agent_runtime.Workflow.State.{
  State, Role, searcher, memory_agent, synthesize, risk_analyst,
}
use allcallall_agent_runtime.Workflow.Router.{
  same_role, has_role, role_order, keep, ordered_subset, appended_if, chosen_roles, chat_roles,
  preset_roles, risk_is_mandatory, says,
}
use allcallall_agent_runtime.Workflow.Roles.{same_role-eq, Descends, chosen_roles-Descends}

pub same_role_refl : (r : Role) → same_role r r ≡ true
same_role_refl searcher = refl
same_role_refl memory_agent = refl
same_role_refl synthesize = refl
same_role_refl risk_analyst = refl

has_role-append :
    (r : Role) (xs ys : List Role) → has_role r (xs ++ ys) ≡ (has_role r xs || has_role r ys)
unfolding has_role
has_role-append r [] ys = refl
has_role-append r (x ∷ xs) ys = elim (Bool-cases (same_role x r)) [
  | inl e ↦ rw e refl
  | inr e ↦ rw e (has_role-append r xs ys)
]

has_role-keep :
    (r : Role) (rs wanted : List Role)
    → has_role r rs ≡ true
    → has_role r wanted ≡ true
    → has_role r (keep rs wanted) ≡ true
unfolding keep has_role
has_role-keep r [] wanted h k = clash h refl
has_role-keep r (q ∷ rs) wanted h k = elim (Bool-cases (same_role q r)) [
  | inl e ↦ rw (same_role-eq q r e, k, keep) (rw (has_role, same_role_refl r) refl)
  | inr e ↦ elim (Bool-cases (has_role q wanted)) [
    | inl f ↦
        rw (f, keep)
          (ap (λ b. b || has_role r (keep rs wanted)) e ∙ has_role-keep r rs wanted (rw e at h) k)
    | inr f ↦ rw (f, keep) (has_role-keep r rs wanted (rw e at h) k)
  ]
]

has_role-appended_if :
    (r : Role) (wanted : Bool) (q : Role) (rs : List Role)
    → has_role r rs ≡ true
    → has_role r (appended_if wanted q rs) ≡ true
unfolding appended_if
has_role-appended_if r wanted q rs h = elim (Bool-cases (wanted && not (has_role q rs))) [
  | inl e ↦ rw e (has_role-append r rs (q ∷ []) ∙ ap (λ b. b || has_role r (q ∷ [])) h)
  | inr e ↦ rw e h
]

appended_if-has : (q : Role) (rs : List Role) → has_role q (appended_if true q rs) ≡ true
unfolding appended_if
appended_if-has q rs = elim (Bool-cases (has_role q rs)) [
  | inl e ↦ rw e e
  | inr e ↦ rw e (
      has_role-append q rs (q ∷ [])
      ∙ ap (λ b. b || has_role q (q ∷ [])) e
      ∙ (unfold has_role in rw (same_role_refl q) refl))
]

-- The two roles that no preset and no intent drops.
abbrev pub basic : List Role
basic = searcher ∷ synthesize ∷ []

if_keeps : {A : Type 0} (P : A → Type 0) (b : Bool) {x y : A} → P x → P y → P (if b then x else y)
if_keeps P true h k = h
if_keeps P false h k = k

preset_roles-all :
    (P : List Role → Type 0) (preset : String)
    → P role_order
      × P (searcher ∷ memory_agent ∷ synthesize ∷ [])
      × P (searcher ∷ synthesize ∷ risk_analyst ∷ [])
      × P (searcher ∷ synthesize ∷ [])
    → P (preset_roles preset)
unfolding preset_roles
preset_roles-all P preset (full, general, risk, short) =
    if_keeps P (preset == "meeting_brief") full (
      if_keeps P (preset == "react_general") general (
        if_keeps P (preset == "risk_review") risk (
          if_keeps P (preset == "follow_up_planner") general
            (if_keeps P (preset == "context_qa") short general))))

preset_roles-basic :
    (r : Role) (preset : String) → has_role r basic ≡ true → has_role r (preset_roles preset) ≡ true
preset_roles-basic searcher preset h =
    preset_roles-all (λ rs. has_role searcher rs ≡ true) preset
      (unfold has_role in (refl, refl, refl, refl))
preset_roles-basic synthesize preset h =
    preset_roles-all (λ rs. has_role synthesize rs ≡ true) preset
      (unfold has_role in (refl, refl, refl, refl))
preset_roles-basic memory_agent preset h = unfold has_role in clash h refl
preset_roles-basic risk_analyst preset h = unfold has_role in clash h refl

chat_roles-basic :
    (r : Role) (intent : Option String) (preset : String) (rs : List Role)
    → has_role r basic ≡ true
    → has_role r rs ≡ true
    → has_role r (chat_roles intent preset rs) ≡ true
unfolding chat_roles
chat_roles-basic r intent preset rs h k =
    if_keeps (λ qs. has_role r qs ≡ true)
      (says "chat" intent
        && ((preset == "react_general" || preset == "follow_up_planner") && ltb 3 (length rs)))
      (has_role-keep r rs basic k h) k

basic-role_order : (r : Role) → has_role r role_order ≡ true
unfolding has_role
basic-role_order searcher = refl
basic-role_order memory_agent = refl
basic-role_order synthesize = refl
basic-role_order risk_analyst = refl

module _ {R : Type 0} where
  chosen_roles-basic :
      (s : State R) (r : Role) → has_role r basic ≡ true → has_role r (chosen_roles s) ≡ true
  unfolding chosen_roles ordered_subset
  chosen_roles-basic s r h =
      let extended =
        appended_if (says "risk" s.intent_route) risk_analyst (preset_roles s.request.preset) in
      let listed =
        has_role-appended_if r (says "risk" s.intent_route) risk_analyst
          (preset_roles s.request.preset) (preset_roles-basic r s.request.preset h) in
      let left = chat_roles-basic r s.intent_route s.request.preset extended h listed in
      has_role-appended_if r (risk_is_mandatory s) risk_analyst
        (keep role_order (chat_roles s.intent_route s.request.preset extended))
        (has_role-keep r role_order (chat_roles s.intent_route s.request.preset extended)
          (basic-role_order r) left)

  chosen_roles-risk :
      (s : State R) → risk_is_mandatory s ≡ true → has_role risk_analyst (chosen_roles s) ≡ true
  unfolding chosen_roles ordered_subset
  chosen_roles-risk s h =
      let extended =
        appended_if (says "risk" s.intent_route) risk_analyst (preset_roles s.request.preset) in
      subst
        (λ b.
          has_role risk_analyst (
            appended_if b risk_analyst
              (keep role_order (chat_roles s.intent_route s.request.preset extended)))
          ≡ true)
        (sym h)
        (appended_if-has risk_analyst
          (keep role_order (chat_roles s.intent_route s.request.preset extended)))

  -- The roles are chosen in canonical order, each once; the searcher and the synthesis are always
  -- among them, and the risk analyst is where the request, the intent, a pending approval, a
  -- safety block or a risk flag makes it mandatory.
  pub chosen_roles-required :
      (s : State R)
      → Descends (chosen_roles s)
        × ((has_role searcher (chosen_roles s) ≡ true)
            × ((has_role synthesize (chosen_roles s) ≡ true)
                × (risk_is_mandatory s ≡ true → has_role risk_analyst (chosen_roles s) ≡ true)))
  unfolding has_role
  chosen_roles-required s = (
    chosen_roles-Descends s,
    (
      chosen_roles-basic s searcher refl,
      (chosen_roles-basic s synthesize refl, chosen_roles-risk s),
    ),
  )
