-- ===== src/Lib.antt =====
-- AgentTrust Runtime: the policy, approval, execution and evidence core of src/agenttrust.
--
-- A tool call is an intent. The permission engine decides it against the policy's rules and the tool
-- registry, a hook may deny it, an approval mode or an approver makes the decision final, the
-- sandbox checks it, and only then is the tool executed. Each stage appends an event to a hash
-- chain in the run directory. A session and its tool calls move through two state machines.
--
-- Parts and their files:
--   Base, Value      numbers, texts, lists and results; Python values and dicts as they occur in
--                    events and arguments. Dicts keep insertion order.
--   Host             the functions of Python's standard library that the code calls (JSON, SHA-256,
--                    timestamps, fnmatch, shlex) and the redaction patterns: parameters throughout.
--   Models           src/agenttrust/domain/models.py, domain/decisions.py
--   Lifecycle        src/agenttrust/domain/lifecycle.py: both transition tables
--   Sessions         src/agenttrust/domain/sessions.py: AgentSession, SessionToolCall; Validity has
--                    the single transition, Paths the sequences of transitions
--   Approvals        src/agenttrust/domain/approvals.py: ApprovalRequest (`_decide` is
--                    decide_approval); Review is the review of arguments
--   Protocol         src/agenttrust/domain/protocol.py: requests made from intents, and back
--   Policy           src/agenttrust/domain/policy.py, permissions/hooks.py: matching; Policy.Argv is
--                    the matcher of argument vectors, Policy.Parsing has `from_dict` and
--                    `to_dict` of rules, its child Policies those of hooks and policies
--   Registry         src/agenttrust/tools/registry.py
--   Engine           src/agenttrust/permissions/engine.py: `decide` is decide_intent
--   Permission       src/agenttrust/permissions/approvals.py: finalize_permission
--   Exec             stateful code: an action takes a state to a result and a state
--   RunTool          src/agenttrust/application/run_tool.py: `execute` is run_tool, `execute_async`
--                    is run_tool_async, both in Stages, cut into the stages between the early returns;
--                    the ports and callbacks are the record Ports over any state
--   Governed         src/agenttrust/application/governed_session.py: GovernedSession. Calls has `_execute`
--                    and `_resume_tool_call` for any tool runner, Runner puts the use case of RunTool
--                    with the session's observer in it, Answers has `close`, `record_final_answer`,
--                    `fail` and `timeout`
--   Trace            src/agenttrust/adapters/evidence/jsonl_store.py: the hash chain; Trace.Recorder
--                    is TraceRecorder with its head file and cached head. A trace holds what its
--                    lines read back as, and a write can fail before and after its line is there
--   Facts            src/agenttrust/adapters/verification/mapper.py: facts of a tool's result; Files has
--                    the writing and reading of the ledger (read_fact makes the fact of a line)
--   Coverage         src/agenttrust/adapters/verification/verifier.py: the fallback engine; Gate has
--                    the reading of GroundGuard's payload and `verify_answer`
--   Replay           src/agenttrust/adapters/evidence/replay.py: entities made from events; Entities
--                    has the changes, Run the loop of `replay_events`, a handler for each branch
--   Projection       src/agenttrust/adapters/evidence/sqlite_state.py: the tables; Handlers has a
--                    handler for each type of event, Database the operations. `_apply_event` is
--                    project_event. A transaction that raises leaves the tables
--   RunLock          src/agenttrust/adapters/evidence/run_lock.py: lock objects, numbered, on one
--                    file; `acquire` goes through a list of rounds, each with what the others do
--   Sandbox          src/agenttrust/adapters/sandbox/filesystem.py: `check` is check_sandbox
--   Examples         the theorems at concrete inputs, and runs
--
-- Clocks, fresh names and file stamps are arguments. Text in an error message that quotes a value is
-- left out. Decimal text is written with the number itself as fuel, which is more than its digits.
-- Loops over lists are structural recursion; a backtracking match recurses on the pattern.
--
-- Not modelled: the bytes of files, a write that stops within a line, errors of the file system
-- while a trace is loaded, and the rewriting of events of older schemas; linting and
-- fixtures of policy files; recovery of written files, signing and export; the tools and MCP (ports
-- here); text assembly for contexts and reports; command line, Python interface, integrations and
-- benchmark.
mod Base
pub mod Value
pub mod Models
pub mod Host
pub mod Sessions
pub mod Approvals
pub mod Protocol
pub mod Policy
pub mod Registry
pub mod Engine
pub mod Permission
pub mod Exec
pub mod RunTool
pub mod Trace
pub mod Lifecycle
pub mod Governed
pub mod Facts
pub mod Coverage
pub mod Replay
pub mod Projection
pub mod RunLock
pub mod Sandbox
mod Examples
