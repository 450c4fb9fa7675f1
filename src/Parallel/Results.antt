-- ===== src/Parallel/Results.antt =====
-- nodes/parallel_roles.py: the results of the pair, in parallel and in sequence.
use allcallall_agent_runtime.Common.{
  ℕ, ◌+◌, ◌≤◌, ◌≡◌, refl, Bool, true, false, ◌&&◌, none, List, [], ◌∷◌, leb, ltb, length,
  Bool-cases, inl, inr, ◌⊎◌, arith, le→ltb-false, leb→le, clash,
}
use allcallall_agent_runtime.Common.Dict
use allcallall_agent_runtime.Common.Int.{pos}
use allcallall_agent_runtime.Common.Result.{Result, ok}
use allcallall_agent_runtime.Workflow.State.{Role, searcher, memory_agent}
use allcallall_agent_runtime.Workflow.Router.{has_role}
use allcallall_agent_runtime.Parallel.Reservation.{
  role_eq, Reservation, reserved, acquire, acquire_estimate, acquire_within, release_role,
  give_back, reserve_group_budget,
}
use allcallall_agent_runtime.Parallel.Deltas.{RoleDelta}
use allcallall_agent_runtime.Parallel.Execute.{
  insert_delta, sort_deltas, await_all, acquire_all, in_parallel, in_sequence, total_estimate,
  budget_allows, execute_ordered,
}

abbrev pub pair : List Role
pair = searcher ∷ memory_agent ∷ []

abbrev pub swapped : List Role
swapped = memory_agent ∷ searcher ∷ []

pub acquire-ok :
    {E : Type 0} (role : Role) (tokens : ℕ) (r : Reservation)
    → r.released ≡ false
    → has_role role r.roles ≡ true
    → Dict.get r.role_tokens role ≡ none
    → r.used_tokens + tokens ≤ r.token_budget
    → r.used_provider_calls + 1 ≤ r.provider_calls
    → acquire {E = E} role (pos tokens) r ≡ ok (reserved role tokens r)
unfolding acquire acquire_estimate acquire_within
acquire-ok role tokens r live member absent fits calls =
    simp
      (
        live,
        member,
        absent,
        le→ltb-false r.token_budget (r.used_tokens + tokens) fits,
        le→ltb-false r.provider_calls (r.used_provider_calls + 1) calls,
      )
      refl

middle_true : (a b c : Bool) → (a && (b && c)) ≡ true → b ≡ true
middle_true false b c h = clash h refl
middle_true true true c h = refl
middle_true true false c h = clash h refl

abbrev both_held : (Role → ℕ) → ℕ → Reservation
both_held estimate token_budget =
    reserved memory_agent (estimate memory_agent)
      (reserved searcher (estimate searcher) (reserve_group_budget pair token_budget))

module _ (E : Type 0) (estimate : Role → ℕ) (token_budget : ℕ) where
  acquire-first :
      estimate searcher ≤ token_budget
      → acquire {E = E} searcher (pos (estimate searcher)) (reserve_group_budget pair token_budget)
        ≡ ok (reserved searcher (estimate searcher) (reserve_group_budget pair token_budget))
  unfolding reserve_group_budget has_role Dict.get
  acquire-first fits =
      acquire-ok searcher (estimate searcher) (reserve_group_budget pair token_budget) refl refl
        refl (omega (arith, fits)) (omega arith)

  acquire-second :
      estimate searcher + estimate memory_agent ≤ token_budget
      → acquire {E = E} memory_agent
          (pos (estimate memory_agent))
          (reserved searcher (estimate searcher) (reserve_group_budget pair token_budget))
        ≡ ok (both_held estimate token_budget)
  unfolding reserve_group_budget has_role Dict.get Dict.put
  acquire-second fits =
      acquire-ok memory_agent (estimate memory_agent)
        (reserved searcher (estimate searcher) (reserve_group_budget pair token_budget)) refl refl
        refl (omega (arith, fits)) (omega arith)

  abbrev returned : Reservation
  returned =
      release_role searcher
        (reserved searcher (estimate searcher) (reserve_group_budget pair token_budget))

  acquire-later :
      estimate memory_agent ≤ token_budget
      → acquire {E = E} memory_agent (pos (estimate memory_agent)) returned
        ≡ ok (reserved memory_agent (estimate memory_agent) returned)
  unfolding release_role give_back reserve_group_budget has_role Dict.get Dict.put Dict.pop
  acquire-later fits =
      acquire-ok memory_agent (estimate memory_agent) returned refl refl refl (omega (arith, fits))
        (omega arith)

  acquire_all-pair :
      estimate searcher + estimate memory_agent ≤ token_budget
      → acquire_all estimate {E = E} pair (reserve_group_budget pair token_budget)
        ≡ (ok (both_held estimate token_budget), both_held estimate token_budget)
  unfolding acquire_all
  acquire_all-pair fits =
      rw (acquire-first (omega (arith, fits)), acquire_all, acquire-second fits) refl

  fits-budget_allows :
      budget_allows estimate pair token_budget ≡ true
      → estimate searcher + estimate memory_agent ≤ token_budget
  unfolding budget_allows total_estimate
  fits-budget_allows h =
      let allowed = leb→le (estimate searcher + (estimate memory_agent + 0)) token_budget (
        middle_true (ltb 1 (length pair))
          (leb (estimate searcher + (estimate memory_agent + 0)) token_budget) (leb (length pair) 2)
          h) in
      omega (arith, allowed)

module _ {T C B E : Type 0} (run_role : Role → Result E (RoleDelta T C B)) (estimate : Role → ℕ)
    (out : Role → RoleDelta T C B) (succeeds : (role : Role) → run_role role ≡ ok (out role))
    (named : (role : Role) → (out role).role ≡ role) where
  await-pair :
      (r : Reservation)
      → (await_all run_role estimate pair [] r).0 ≡ ok (out searcher ∷ out memory_agent ∷ [])
  unfolding await_all sort_deltas insert_delta
  await-pair r =
      rw (succeeds searcher, await_all, succeeds memory_agent)
        (rw (named searcher, named memory_agent) refl)

  await-swapped :
      (r : Reservation)
      → (await_all run_role estimate swapped [] r).0 ≡ ok (out searcher ∷ out memory_agent ∷ [])
  unfolding await_all sort_deltas insert_delta
  await-swapped r =
      rw (succeeds memory_agent, await_all, succeeds searcher)
        (rw (named searcher, named memory_agent) refl)

  in_sequence-pair :
      (token_budget : ℕ)
      → estimate searcher ≤ token_budget
      → estimate memory_agent ≤ token_budget
      → (in_sequence run_role estimate pair [] (reserve_group_budget pair token_budget)).0
        ≡ ok (out searcher ∷ out memory_agent ∷ [])
  unfolding in_sequence
  in_sequence-pair token_budget h k =
      rw
        (
          acquire-first E estimate token_budget h,
          in_sequence,
          succeeds searcher,
          acquire-later E estimate token_budget k,
          succeeds memory_agent,
        )
        refl

  in_parallel-pair :
      (finishing : List Role) (token_budget : ℕ)
      → estimate searcher + estimate memory_agent ≤ token_budget
      → (finishing ≡ pair) ⊎ (finishing ≡ swapped)
      → (in_parallel run_role estimate pair finishing (reserve_group_budget pair token_budget)).0
        ≡ ok (out searcher ∷ out memory_agent ∷ [])
  unfolding in_parallel
  in_parallel-pair finishing token_budget h (inl e) =
      rw (acquire_all-pair E estimate token_budget h, in_parallel, e)
        (await-pair (acquire_all estimate {E = E} pair (reserve_group_budget pair token_budget)).1)
  in_parallel-pair finishing token_budget h (inr e) =
      rw (acquire_all-pair E estimate token_budget h, in_parallel, e)
        (await-swapped
          (acquire_all estimate {E = E} pair (reserve_group_budget pair token_budget)).1)

  -- Where both branches succeed and neither needs more than the whole budget, the pair gives both
  -- results, the searcher's first: in parallel, whichever branch ends first, and in sequence.
  pub execute_ordered-pair :
      (finishing : List Role → List Role) (token_budget : ℕ)
      → estimate searcher ≤ token_budget
      → estimate memory_agent ≤ token_budget
      → (finishing pair ≡ pair) ⊎ (finishing pair ≡ swapped)
      → (execute_ordered run_role estimate finishing pair token_budget).0
        ≡ ok (out searcher ∷ out memory_agent ∷ [])
  unfolding execute_ordered
  execute_ordered-pair finishing token_budget h k order =
      elim (Bool-cases (budget_allows estimate pair token_budget)) [
        | inl e ↦ rw e (
            in_parallel-pair (finishing pair) token_budget
              (fits-budget_allows E estimate token_budget e) order)
        | inr e ↦ rw e (in_sequence-pair token_budget h k)
      ]
