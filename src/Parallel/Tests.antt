-- ===== src/Parallel/Tests.antt =====
-- nodes/parallel_roles.py on concrete inputs.
use allcallall_agent_runtime.Common.{ℕ, ◌≡◌, refl, false, String, List, [], ◌∷◌, inr, arith}
use allcallall_agent_runtime.Common.Eq.{string_eq}
use allcallall_agent_runtime.Common.Int.{pos}
use allcallall_agent_runtime.Common.Result.{Result, ok}
use allcallall_agent_runtime.Workflow.State.{Role, searcher, memory_agent, synthesize, risk_analyst}
use allcallall_agent_runtime.Workflow.Router.{role_order}
use allcallall_agent_runtime.Parallel.Reservation.{Reservation, role_eq}
use allcallall_agent_runtime.Parallel.Balance.{
  acquiring, releasing_role, releasing, play, IsBalanced, play-IsBalanced,
}
use allcallall_agent_runtime.Parallel.Deltas.{RoleDelta, merge_role_deltas}
use allcallall_agent_runtime.Parallel.Order.{Reordered, merge_role_deltas-Reordered}
use allcallall_agent_runtime.Parallel.Execute.{execute_ordered}
use allcallall_agent_runtime.Parallel.Results.{pair, swapped, execute_ordered-pair}

abbrev out : Role → RoleDelta String String String
out role = record {
  role = role;
  trace_events = "done" ∷ [];
  role_result = record { role = role; body = "answer" };
  citations = "chunk" ∷ [];
  action_items = "call" ∷ [];
  risk_flags = [];
}

abbrev run_role : Role → Result String (RoleDelta String String String)
run_role role = ok (out role)

abbrev estimate : Role → ℕ
estimate searcher = 64
estimate memory_agent = 32
estimate synthesize = 32
estimate risk_analyst = 32

abbrev as_is : String → String
as_is text = text

abbrev backwards : List Role → List Role
backwards roles = swapped

abbrev group : Reservation
group = record {
  roles = pair;
  token_budget = 100;
  provider_calls = 2;
  used_tokens = 0;
  used_provider_calls = 0;
  role_tokens = [];
  released = false;
}

play-IsBalanced_example : IsBalanced (
    play
      (acquiring searcher (pos 64)
        ∷ acquiring memory_agent (pos 64)
        ∷ releasing_role searcher
        ∷ releasing
        ∷ [])
      group)
play-IsBalanced_example =
    play-IsBalanced
      (acquiring searcher (pos 64)
        ∷ acquiring memory_agent (pos 64)
        ∷ releasing_role searcher
        ∷ releasing
        ∷ [])
      group (tt, (refl, (refl, (omega arith, omega arith))))

merge_role_deltas-Reordered_example :
    merge_role_deltas as_is (out searcher ∷ out memory_agent ∷ []) role_order [] []
    ≡ merge_role_deltas as_is (out memory_agent ∷ out searcher ∷ []) role_order [] []
merge_role_deltas-Reordered_example =
    merge_role_deltas-Reordered as_is (out searcher ∷ out memory_agent ∷ [])
      (out memory_agent ∷ out searcher ∷ []) role_order [] []
      (Reordered.swap (out searcher) (out memory_agent) [] refl)

execute_ordered-pair_example :
    (execute_ordered run_role estimate backwards pair 100).0
    ≡ ok (out searcher ∷ out memory_agent ∷ [])
execute_ordered-pair_example =
    execute_ordered-pair run_role estimate out (λ role. refl) (λ role. refl) backwards 100
      (omega arith) (omega arith) (inr refl)
