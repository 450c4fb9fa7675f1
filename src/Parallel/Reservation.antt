-- ===== src/Parallel/Reservation.antt =====
-- nodes/parallel_roles.py: `GroupReservation` and the estimate of a role's tokens. The lock makes
-- each method one step.
use Prim.Native.String.{len}
use allcallall_agent_runtime.Common.{
  ℕ, ◌+◌, ◌-◌, ◌/◌, max, min, Bool, true, false, not, Option, none, some, String, List, [], ◌∷◌,
  ltb, length, take, if◌then◌else◌, ◌≡◌, ◌↔◌, arith,
}
use allcallall_agent_runtime.Common.Eq.{Eq, ◌==◌}
use allcallall_agent_runtime.Common.Dict
use allcallall_agent_runtime.Common.Dict.{Dict}
use allcallall_agent_runtime.Common.Int.{ℤ, pos, negsuc}
use allcallall_agent_runtime.Common.Result.{Result, ok, err}
use allcallall_agent_runtime.Workflow.State.{Role, searcher}
use allcallall_agent_runtime.Workflow.Router.{same_role, has_role}

pub same_role_iff : (p q : Role) → (same_role p q ≡ true) ↔ (p ≡ q)
same_role_iff p q = ground arith

instance abbrev pub role_eq : Eq Role
role_eq = record { same = same_role; same_iff = same_role_iff }

-- What the methods and the execution raise; `branch` is what a role raised, of type `E`.
pub data Error (E : Type 0) : Type 0 where
  already_released : Error E
  not_in_group already_reserved token_budget_exceeded provider_budget_exceeded : Role → Error E
  negative_tokens not_positive unsupported no_allocation : Error E
  branch : E → Error E

pub record Reservation : Type 0 where
  pub roles : List Role
  pub token_budget : ℕ
  pub provider_calls : ℕ
  pub used_tokens : ℕ
  pub used_provider_calls : ℕ
  pub role_tokens : Dict Role ℕ
  pub released : Bool

-- role in self._role_tokens
abbrev pub is_some {ℓ} : {A : Type ℓ} → Option A → Bool
is_some none = false
is_some (some a) = true

abbrev pub reserved : Role → ℕ → Reservation → Reservation
reserved role tokens r = record r {
  used_tokens = r.used_tokens + tokens;
  used_provider_calls = r.used_provider_calls + 1;
  role_tokens = Dict.put r.role_tokens role tokens;
}

module _ {E : Type 0} where
  -- The tests behind that on a negative estimate.
  unfoldable pub acquire_within : Role → ℕ → Reservation → Result (Error E) Reservation
  acquire_within role tokens r =
      if ltb r.token_budget (r.used_tokens + tokens)
      then err (token_budget_exceeded role)
      else if ltb r.provider_calls (r.used_provider_calls + 1)
      then err (provider_budget_exceeded role)
      else ok (reserved role tokens r)

  unfoldable pub acquire_estimate : Role → ℤ → Reservation → Result (Error E) Reservation
  acquire_estimate role (negsuc n) r = err negative_tokens
  acquire_estimate role (pos tokens) r = acquire_within role tokens r

  unfoldable pub acquire : Role → ℤ → Reservation → Result (Error E) Reservation
  acquire role estimate r =
      if r.released
      then err already_released
      else if not (has_role role r.roles)
      then err (not_in_group role)
      else if is_some (Dict.get r.role_tokens role)
      then err (already_reserved role)
      else acquire_estimate role estimate r

-- The share of a role that holds one goes back.
unfoldable pub give_back : Option ℕ → Role → Reservation → Reservation
give_back none role r = r
give_back (some tokens) role r = record r {
  used_tokens = r.used_tokens - tokens;
  used_provider_calls = r.used_provider_calls - 1;
  role_tokens = Dict.pop r.role_tokens role;
}

unfoldable pub release_role : Role → Reservation → Reservation
release_role role r = if r.released then r else give_back (Dict.get r.role_tokens role) role r

unfoldable pub release : Reservation → Reservation
release r =
    if r.released
    then r
    else record r { released = true; used_tokens = 0; used_provider_calls = 0; role_tokens = [] }

-- PARALLEL_PROVIDER_CALL_BUDGET is 2.
unfoldable pub reserve_group_budget : List Role → ℕ → Reservation
reserve_group_budget roles token_budget = record {
  roles = roles;
  token_budget = token_budget;
  provider_calls = min (length roles) 2;
  used_tokens = 0;
  used_provider_calls = 0;
  role_tokens = [];
  released = false;
}

-- The request as far as the estimate reads it: the goal and the snippets.
abbrev pub text_tokens : String → ℕ
text_tokens text = max 1 (len text / 4)

unfoldable pub snippet_tokens : List String → ℕ
snippet_tokens [] = 0
snippet_tokens (s ∷ ss) = text_tokens s + snippet_tokens ss

abbrev pub base_tokens : Role → ℕ
base_tokens role = if role == searcher then 64 else 32

unfoldable pub estimate_role_tokens : Option (String × List String) → Role → ℕ
estimate_role_tokens none role = base_tokens role
estimate_role_tokens (some (goal, snippets)) role =
    base_tokens role + text_tokens goal + snippet_tokens (take 20 snippets)
