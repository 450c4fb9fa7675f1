-- ===== src/ToolQueue/Queue.antt =====
-- async_tool_queue.py: `AsyncToolQueue`. Instants and delays are whole microseconds.
use allcallall_agent_runtime.Common.{
  ℕ, ◌+◌, ◌-◌, ◌*◌, ◌^◌, max, Bool, true, false, not, ◌&&◌, ◌||◌, Option, none, some, String, List,
  [], ◌∷◌, leb, if◌then◌else◌,
}
use allcallall_agent_runtime.Common.Eq.{◌==◌, string_eq}
use allcallall_agent_runtime.Common.Dict
use allcallall_agent_runtime.Common.Dict.{Dict}
use allcallall_agent_runtime.ToolQueue.Store
use allcallall_agent_runtime.ToolQueue.Store.{Status, queued, processing, done, dead, Task, Store}

pub record Queue {ℓ} (P : Type ℓ) : Type ℓ where
  pub store : Store P
  pub rate_limit_max : ℕ
  pub base_backoff : ℕ

abbrev pub or_zero : Option ℕ → ℕ
or_zero none = 0
or_zero (some n) = n

-- t.status in ("queued", "processing")
abbrev pub is_open : Status → Bool
is_open queued = true
is_open processing = true
is_open done = false
is_open dead = false

abbrev pub is_processing : Status → Bool
is_processing processing = true
is_processing queued = false
is_processing done = false
is_processing dead = false

module _ {ℓ} {P : Type ℓ} where
  unfoldable pub create : Store P → ℕ → ℕ → Queue P
  create store rate_limit_max base_backoff = record {
    store = store;
    rate_limit_max = max 1 rate_limit_max;
    base_backoff = base_backoff;
  }

  unfoldable pub task_id_for_key : String → Queue P → Option String
  task_id_for_key key q = Dict.get q.store.by_key key

  unfoldable pub found_task : Option String → Store P → Option (Task P)
  found_task none s = none
  found_task (some id) s = Store.get id s

  -- `id` is the new uuid. A field that the caller gives is read from `t`; the others start anew.
  abbrev pub fresh_task : String → Task P → Task P
  fresh_task id t = record t {
    task_id = id;
    attempts = 0;
    status = queued;
    lease_owner = "";
    lease_until = 0;
    scheduled_at = 0;
    last_error = "";
  }

  unfoldable pub enqueue : String → Task P → Queue P → String × Queue P
  enqueue id t q = elim (found_task (task_id_for_key t.idempotency_key q) q.store) [
    | some existing ↦ (existing.task_id, q)
    | none ↦ (id, record q { store = Store.add (fresh_task id t) q.store })
  ]

  unfoldable pub is_eligible : ℕ → Task P → Bool
  is_eligible now t =
      is_open t.status && (leb t.scheduled_at now && (leb t.lease_until now || t.lease_owner == ""))

  unfoldable pub eligible : ℕ → List (Task P) → List (Task P)
  eligible now [] = []
  eligible now (t ∷ ts) = let rest = eligible now ts in if is_eligible now t then t ∷ rest else rest

  abbrev pub counted : Task P → Dict String ℕ → Dict String ℕ
  counted t d =
      if is_processing t.status
      then Dict.put d t.rate_limit_key (or_zero (Dict.get d t.rate_limit_key) + 1)
      else d

  -- The loop that counts the tasks in processing by their rate-limit key.
  unfoldable pub in_flight : List (Task P) → Dict String ℕ → Dict String ℕ
  in_flight [] d = d
  in_flight (t ∷ ts) d = in_flight ts (counted t d)

  -- `eligible.sort(key=lambda t: t.priority)`, which is stable
  unfoldable pub insert_task : Task P → List (Task P) → List (Task P)
  insert_task t [] = t ∷ []
  insert_task t (u ∷ us) = if leb t.priority u.priority then t ∷ u ∷ us else u ∷ insert_task t us

  unfoldable pub sort_tasks : List (Task P) → List (Task P)
  sort_tasks [] = []
  sort_tasks (t ∷ ts) = insert_task t (sort_tasks ts)

  unfoldable pub throttled : Dict String ℕ → ℕ → Task P → Bool
  throttled flights limit t =
      not (t.rate_limit_key == "") && leb limit (or_zero (Dict.get flights t.rate_limit_key))

  unfoldable pub first_allowed : (Task P → Bool) → List (Task P) → Option (Task P)
  first_allowed barred [] = none
  first_allowed barred (t ∷ ts) =
      let rest = first_allowed barred ts in if barred t then rest else some t

  abbrev pub leased : String → ℕ → Task P → Task P
  leased owner until t = record t { status = processing; lease_owner = owner; lease_until = until }

  unfoldable pub candidate : ℕ → Queue P → Option (Task P)
  candidate now q =
      let ts = Store.all q.store in
      first_allowed (throttled (in_flight ts []) q.rate_limit_max) (sort_tasks (eligible now ts))

  unfoldable pub claim : String → ℕ → ℕ → Queue P → Option (Task P) × Queue P
  claim owner now visibility_timeout q = elim (candidate now q) [
    | none ↦ (none, q)
    | some t ↦
        let t' = leased owner (now + visibility_timeout) t in
        (some t', record q { store = Store.update t' q.store })
  ]

  abbrev pub finished : Task P → Task P
  finished t = record t { status = done; lease_owner = ""; lease_until = 0 }

  unfoldable pub complete : String → Queue P → Queue P
  complete id q = elim (Store.get id q.store) [
    | none ↦ q
    | some t ↦ record q { store = Store.update (finished t) q.store }
  ]

  abbrev pub failed : String → Task P → Task P
  failed error t = record t { attempts = t.attempts + 1; last_error = error }

  abbrev pub dropped : Task P → Task P
  dropped t = record t { status = dead; lease_owner = ""; lease_until = 0 }

  unfoldable pub buried : Task P → Store P → Store P
  buried t s = let t' = dropped t in Store.mark_dead t' (Store.update t' s)

  abbrev pub delayed : ℕ → ℕ → Task P → Task P
  delayed base now t = record t {
    status = queued;
    lease_owner = "";
    lease_until = 0;
    scheduled_at = now + base * 2 ^ (t.attempts - 1);
  }

  unfoldable pub requeued : ℕ → ℕ → Task P → Store P → Store P
  requeued base now t s = Store.update (delayed base now t) s

  unfoldable pub fail : String → String → ℕ → Queue P → Queue P
  fail id error now q = elim (Store.get id q.store) [
    | none ↦ q
    | some t ↦
        let t' = failed error t in
        record q {
          store =
              if leb t'.max_attempts t'.attempts
              then buried t' q.store
              else requeued q.base_backoff now t' q.store;
        }
  ]

  -- list(store._dead): the objects, as they are now
  unfoldable pub dead_letters : List String → Store P → List (Task P)
  dead_letters [] s = []
  dead_letters (id ∷ ids) s =
      let rest = dead_letters ids s in elim (Store.get id s) [ none ↦ rest | some t ↦ t ∷ rest ]
