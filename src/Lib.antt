-- ===== src/Lib.antt =====
-- AllCallAll agent runtime: a model of the parts of the Python services that decide, with proofs.
-- Paths are those of the repository; AR stands for
-- services/agent-runtime/allcallall_agent_runtime.
--
-- A request enters through the admission controller, which bounds how many run at once. Its
-- deadline comes from a header and is bound to the request; nodes of the workflow graph
-- check it, and every retry draws on one budget under it. The graph runs its nodes one after the
-- other: retrieval (a plan of steps, a loop over it, the merge and rerank of what it found, behind a
-- cache), context, roles (chosen by the router, some of them in a bounded parallel group), merge,
-- proposals, the quality check, which may send the draft back, the safety check, the approval gate.
-- The harness checkpoints a run that awaits approval and resumes it with a human's decisions.
-- Write tools go to the tool queue, from which a worker claims them. Skills come from a registry that
-- hardens their risk level.
--
-- Files and what they model
--   Admission (State, Acquire, Release, System): AR/admission.py. `Controller` has the fields of
--     AdmissionController, its gauges and the deque of waiters; `acquire_enter`, `abandon`,
--     `release` and `close` are what acquire, _remove_waiter, _release and AdmissionLease.close do
--     under the condition's lock, each one step. `Step` interleaves callers between those steps,
--     with the read of `waiter.acquired` outside the lock as a step of its own. Organizations are
--     numbers. The loop of _try_grant_waiters has fuel: the number of waiters, each round takes one.
--   Deadline (State, Header, Budget): AR/deadline.py. Instants are whole microseconds. The parser
--     datetime.fromisoformat and the jitter are parameters. A text of the header is the list of its
--     code points.
--   Retry: AR/retry.py, with_retry and with_retry_async, over what each attempt does (parameters:
--     the call, the clock, the jitter, the predicate on errors). The loop runs over the number of
--     attempts, as the code's `range` does.
--   ToolQueue (Store, Queue, Worker, Handover): AR/async_tool_queue.py. The store's dictionary is a list of
--     entries in insertion order; a task is one shared object, so the dead-letter list holds ids.
--     Priorities, delays and limits are natural numbers, the new uuid is an argument of `enqueue`,
--     the executor a parameter. `Steps` has the calls as data and `play` runs them in any order.
--     A store other than the in-memory one and the process-wide singleton are not modelled. Handover
--     is _enqueue_proposals of AR/orchestration/harness.py.
--   Workflow (State, Check, Critic, Router, Graph): AR/nodes/check.py, critic_check of
--     AR/nodes/retrieval.py, AR/nodes/role_router.py and AR/dag.py, with the fields of AR/state.py
--     and AR/models/trace.py that these read and write. Rationale texts are constructors, scores
--     thousandths, role names an enumeration (the router knows no others). `edge` has the edges of
--     build_workflow_graph, `run` visits nodes until END; the nodes other than the router and the
--     two reviews are a parameter. `run` has fuel: 22 nodes lie on the longest way from the entry
--     point to END, 8 more for each revision. Of the other nodes it is supposed where needed
--     (`frame`) that they write neither `critic_retries` nor `role_allocation`; in the repository
--     only check.py and role_router.py write them. The cancellation check at the head of the router
--     and of the two reviews is in Deadline/State.
--   Parallel (Reservation, Deltas, Execute, Node): AR/nodes/parallel_roles.py. What a branch does
--     and the order in which futures end are parameters. Threads, the cancellation of siblings and
--     metrics are left out: they change no value that is returned or raised here.
--   History (Compress): AR/context_compression.py, build_model_history. A text is the list of its
--     code points; the loop that cuts the summary has the length of the text as fuel, since each
--     round makes it shorter.
--   Retrieval (State, Helpers, Intent, Plan, Cache, Rerank, Loop, Nodes): AR/helpers.py,
--     AR/retrieval.py, AR/nodes/context.py and the retrieval nodes of AR/nodes/retrieval.py. `State`
--     has the fields that the nodes read and write. Scores are hundredths. str.lower, SHA-256, the
--     retrieval client, the tool bridge and the clock are parameters. The loop runs over the steps
--     of its plan, as the code's `for` does, and stops where the code breaks.
--   Drafting (Synthesis, Merge, Propose): AR/synthesis.py, AR/grounding.py, the merge of drafts and
--     AR/nodes/approval.py. What a model answers is a parameter.
--   RagRuntime (Scoring, Routing, Evidence, Agentic): services/rag-runtime/allcallall_rag_runtime/retrieval.py
--     and packages/shared/shared/scoring.py. Scores are hundredths, confidences ten-thousandths;
--     str.lower, SHA-256 and math.log1p are parameters. The loop runs over its queries, at most three.
--   Skills (State, Registry): AR/skill_registry.py. The frontmatter pattern, YAML, files, str.lower
--     and SHA-256 are parameters.
--   Resume (Calls, Checkpoint): AR/orchestration/harness.py, the ids of tool calls, the pending
--     approval, the end of a run and its resumption. `Snapshot` is what the graph returns for a
--     thread; how the graph updates it is the parameter `update_state`.
--   Common: names of the libraries passed on, Boolean tests on native numbers, dictionaries,
--     results, integers, lists, texts, lists without repetition.
--
-- Where a component keeps an invariant, a module of its own has it (Admission/Invariant,
-- ToolQueue/Keyed, Parallel/Balance); Tests in each folder runs the definitions on small inputs.
--
-- Not modelled: providers, HTTP, SQL and other input and output; prompts and the shaping of model
-- output; the invocation of the graph by the harness and its traces; the checkpoint stores, the
-- long-term memory stores, the service around the RAG runtime, the sandbox runner, the SDK and the
-- scripts.
pub mod Admission
pub mod Common
pub mod Deadline
pub mod Drafting
pub mod History
pub mod Parallel
pub mod RagRuntime
pub mod Resume
pub mod Retrieval
pub mod Retry
pub mod Skills
pub mod ToolQueue
pub mod Workflow
