-- ===== src/ToolQueue/Tests.antt =====
-- async_tool_queue.py: runs of the queue on small inputs.
use allcallall_agent_runtime.ToolQueue.Keyed.{IsKeyed}
use allcallall_agent_runtime.Common.{
  List, map, ℕ, ◌<◌, ◌≡◌, ◌≢◌, refl, none, some, String, [], ◌∷◌, arith, clash,
}
use allcallall_agent_runtime.Common.Eq.{string_eq}
use allcallall_agent_runtime.Common.Dict
use allcallall_agent_runtime.Common.Result.{Result, err}
use allcallall_agent_runtime.ToolQueue.Store
use allcallall_agent_runtime.ToolQueue.Store.{Task, Store, queued, processing, done, dead}
use allcallall_agent_runtime.ToolQueue.Queue
use allcallall_agent_runtime.ToolQueue.Queue.{Queue, enqueue, claim, eligible, leased}
use allcallall_agent_runtime.ToolQueue.Steps.{Call, play}
use allcallall_agent_runtime.ToolQueue.Claims.{
  Picks, barred, flights, claim-Picks, claim-below_limit,
}
use allcallall_agent_runtime.ToolQueue.Shaping.{IsShaped, play-IsShaped}
use allcallall_agent_runtime.ToolQueue.Leases.{claim-exclusive}
use allcallall_agent_runtime.ToolQueue.Keys.{enqueue-play}
use allcallall_agent_runtime.ToolQueue.Attempts.{AllBounded, play-AllBounded}
use allcallall_agent_runtime.Common.Dict.{Dict}
use allcallall_agent_runtime.ToolQueue.Store.{priority_to_int}
use allcallall_agent_runtime.ToolQueue.Handover.{
  Caller, Proposal, enqueue_each, enqueue_proposals, set_default,
}
use allcallall_agent_runtime.ToolQueue.Repeated.{enqueue_proposals-again}
use allcallall_agent_runtime.ToolQueue.Worker.{run}

abbrev template : String → ℕ → Task (Unit {0})
template id priority = record {
  task_id = id;
  tool_name = "export_markdown";
  payload = tt;
  idempotency_key = id;
  queue_name = "default";
  priority = priority;
  rate_limit_key = "export";
  max_attempts = 2;
  attempts = 0;
  status = queued;
  lease_owner = "";
  lease_until = 0;
  scheduled_at = 0;
  last_error = "";
}

-- Two tasks wait; the second one is more urgent.
abbrev waiting : Queue (Unit {0})
waiting = record {
  store = record {
    tasks = ("a", template "a" 9) ∷ ("b", template "b" 1) ∷ [];
    by_key = ("a", "a") ∷ ("b", "b") ∷ [];
    dead_list = [];
  };
  rate_limit_max = 2;
  base_backoff = 10;
}

abbrev first_taken : Queue (Unit {0})
first_taken = record waiting {
  store = record {
    tasks = ("a", template "a" 9) ∷ ("b", leased "w" 30 (template "b" 1)) ∷ [];
    by_key = ("a", "a") ∷ ("b", "b") ∷ [];
    dead_list = [];
  };
}

abbrev both_taken : Queue (Unit {0})
both_taken = record waiting {
  store = record {
    tasks = ("a", leased "v" 35 (template "a" 9)) ∷ ("b", leased "w" 30 (template "b" 1)) ∷ [];
    by_key = ("a", "a") ∷ ("b", "b") ∷ [];
    dead_list = [];
  };
}

abbrev executor : Task (Unit {0}) → Result String (Unit {0})
executor t = err "down"

program : Unit {0}
unfolding enqueue claim Queue.complete Queue.fail Queue.buried Queue.requeued Queue.candidate
    Queue.first_allowed Queue.throttled Queue.sort_tasks Queue.insert_task Queue.eligible
    Queue.is_eligible Queue.in_flight Queue.found_task Queue.task_id_for_key Queue.dead_letters
    Store.add Store.get Store.all Store.update Store.mark_dead Dict.get Dict.put run
    allcallall_agent_runtime.ToolQueue.Worker.run_once
program =
    let picks_b : claim "w" 0 30 waiting ≡ (some (leased "w" 30 (template "b" 1)), first_taken) =
      refl in
    let then_a : claim "v" 5 30 first_taken ≡ (some (leased "v" 35 (template "a" 9)), both_taken) =
      refl in
    let none_left : claim "u" 6 30 both_taken ≡ (none, both_taken) = refl in
    let throttled_after_expiry : (claim "u" 100 30 both_taken).0 ≡ none = refl in
    let repeated : (enqueue "c" (template "b" 1) both_taken).0 ≡ "b" = refl in
    let gives_up : (run executor "w" 30 (0 ∷ 0 ∷ 10 ∷ []) waiting).store.dead_list ≡ "b" ∷ [] =
      refl in
    tt

claim-Picks_example :
    Picks
      (barred waiting)
      (eligible 0 (Store.all waiting.store))
      "w"
      30
      waiting
      (claim "w" 0 30 waiting)
claim-Picks_example = claim-Picks "w" 0 30 waiting

claim-below_limit_example : flights "export" (Store.all waiting.store) < 2
unfolding claim Queue.candidate Queue.first_allowed Queue.throttled Queue.sort_tasks
    Queue.insert_task Queue.eligible Queue.is_eligible Queue.in_flight Store.all Store.update
    Dict.get Dict.put
claim-below_limit_example =
    claim-below_limit "w" 0 30 waiting first_taken (leased "w" 30 (template "b" 1)) refl
      (λ e. clash ((string_eq.same_iff "export" "").1 e) refl)

-- No task is in processing yet.
waiting-IsShaped : IsShaped waiting
unfolding Store.all
waiting-IsShaped key named = omega arith

waiting-IsKeyed : IsKeyed waiting.store.tasks
unfolding Dict.get
waiting-IsKeyed = (refl, refl, (refl, refl, tt))

play-IsShaped_example : IsShaped (play (Call.claim "w" 0 30 ∷ Call.claim "v" 5 30 ∷ []) waiting)
play-IsShaped_example =
    play-IsShaped (Call.claim "w" 0 30 ∷ Call.claim "v" 5 30 ∷ []) waiting waiting-IsShaped

claim-exclusive_example : (template "a" 9).task_id ≢ (template "b" 1).task_id
unfolding claim Queue.candidate Queue.first_allowed Queue.throttled Queue.sort_tasks
    Queue.insert_task Queue.eligible Queue.is_eligible Queue.in_flight Store.all Store.update
    Dict.get Dict.put
claim-exclusive_example =
    claim-exclusive "w" "v" 0 30 5 30 waiting first_taken both_taken
      (leased "w" 30 (template "b" 1)) (leased "v" 35 (template "a" 9)) [] waiting-IsKeyed
      (λ e. clash ((string_eq.same_iff "w" "").1 e) refl) refl tt (omega arith) refl

enqueue-play_example :
    enqueue "d"
      (template "c" 5)
      (play (Call.claim "w" 0 30 ∷ []) (enqueue "c" (template "c" 5) waiting).1)
    ≡ (
      (enqueue "c" (template "c" 5) waiting).0,
      play (Call.claim "w" 0 30 ∷ []) (enqueue "c" (template "c" 5) waiting).1,
    )
enqueue-play_example =
    enqueue-play "c" "d" (template "c" 5) (template "c" 5) waiting (Call.claim "w" 0 30 ∷ [])
      waiting-IsKeyed refl

play-AllBounded_example :
    AllBounded (play (Call.claim "w" 0 30 ∷ Call.fail "b" "down" 7 ∷ []) waiting).store.tasks
play-AllBounded_example =
    play-AllBounded (Call.claim "w" 0 30 ∷ Call.fail "b" "down" 7 ∷ []) waiting
      ((λ _. omega arith), ((λ _. omega arith), tt))

abbrev asking : Caller String
asking = record { organization_id = "7"; user_id = "3" }

abbrev writing : List (Proposal String)
writing =
    record {
      tool_name = "create_followup";
      arguments = ("title", "call back") ∷ ("user_id", "4") ∷ [];
      idempotency_key = "agent:1:create_followup";
      queue_name = "agent_writebacks";
      priority = "high";
      rate_limit_key = "followup";
      max_attempts = 3;
    }
    ∷ []

abbrev idle : Queue (Dict String String)
idle = record {
  store = record { tasks = []; by_key = []; dead_list = [] };
  rate_limit_max = 2;
  base_backoff = 10;
}

-- The organization is stamped on the payload; a user id that the arguments have stays.
handed_over :
    map {B = Dict String String × ℕ}
      (λ t. (t.payload, t.priority))
      (Store.all (enqueue_each (λ n. "u") asking 0 writing idle).store)
    ≡ (("title", "call back") ∷ ("user_id", "4") ∷ ("organization_id", "7") ∷ [], 1) ∷ []
unfolding enqueue_each enqueue Queue.found_task Queue.task_id_for_key Store.add Store.all
    set_default priority_to_int Dict.get Dict.put
handed_over = refl

enqueue_proposals-again_example :
    enqueue_proposals
      (λ n. "v")
      asking
      9
      writing
      (some (
        play
          (Call.claim "w" 0 30 ∷ Call.complete "u" ∷ [])
          (enqueue_each (λ n. "u") asking 0 writing idle)))
    ≡ some (
        play
          (Call.claim "w" 0 30 ∷ Call.complete "u" ∷ [])
          (enqueue_each (λ n. "u") asking 0 writing idle))
enqueue_proposals-again_example =
    enqueue_proposals-again (λ n. "u") (λ n. "v") asking asking 0 9 writing
      (Call.claim "w" 0 30 ∷ Call.complete "u" ∷ []) idle (refl, tt) tt
