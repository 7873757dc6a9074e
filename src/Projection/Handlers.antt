-- ===== src/Projection/Handlers.antt =====
-- adapters/evidence/sqlite_state.py: the handler of each type of event.
use agent_trust_runtime.Base.{
  ℕ, suc, String, Bool, ◌&&◌, ◌==◌, Option, none, some, [], ◌∷◌, is_none, is_some, ltb, eqb, one_of,
  Error, Result, ok, raised, value_error, overflow_error, require, ◌>>=◌, ◌>>◌,
}
use agent_trust_runtime.Base.Tables.{select, count_where, update_where}
use agent_trust_runtime.Value.{ℤ, Value, integer, Fields, get_or_none}
use agent_trust_runtime.Lifecycle.Session.{parse_session_status, assert_session_transition}
use agent_trust_runtime.Lifecycle.Call.{parse_tool_call_status, assert_tool_call_transition}
use agent_trust_runtime.Replay.{required_text, optional_text}
use agent_trust_runtime.Projection.{
  SessionRow, ToolCallRow, ApprovalRow, Tables, of_run, of_call, insert_session, insert_tool_call,
  insert_approval,
}

-- `_required_integer`: a bool is none, nor is what is below 1.
unfoldable pub positive : Value → Option ℕ
positive (integer (ℤ.pos (suc n))) = some (suc n)
positive _ = none

unfoldable pub required_integer : Fields → String → Result ℕ
unfolding get_or_none positive
required_integer event key = elim (positive (get_or_none key event)) [
  | none ↦ raised (value_error "evidence event requires a positive integer")
  | some n ↦ ok n
]

-- The largest integer that SQLite binds is 2 ^ 63 - 1.
abbrev pub integer_limit : ℕ
integer_limit = 9223372036854775808

unfoldable pub session_row : (run_id status hash : String) → Fields → Result SessionRow
unfolding required_text optional_text
session_row run_id status hash event = do
  session_id ← required_text event "session_id"
  actor_id ← required_text event "actor_id"
  agent_id ← optional_text event "agent_id"
  policy_version ← optional_text event "policy_version"
  created_at ← required_text event "created_at"
  updated_at ← required_text event "updated_at"
  ok (record {
    run_id = run_id;
    session_id = session_id;
    actor_id = actor_id;
    agent_id = agent_id;
    policy_version = policy_version;
    status = status;
    created_at = created_at;
    updated_at = updated_at;
    source_event_hash = hash;
  })

-- The row of a creation, with the checks before its insertion.
unfoldable pub created_session : Tables → Fields → (hash : String) → Result SessionRow
unfolding required_text select session_row
created_session db event hash = do
  run_id ← required_text event "run_id"
  require (is_none (select (of_run run_id) db.sessions))
      (value_error "session already exists for run")
  status ← required_text event "status"
  require (status == "created") (value_error "session creation must have created status")
  session_row run_id status hash event

unfoldable pub project_session_created : Tables → Fields → (hash : String) → Result Tables
unfolding created_session insert_session
project_session_created db event hash =
    created_session db event hash >>= (λ row. insert_session row db)

-- `assert_session_transition` between two texts: what is no status is the target of no edge. A
-- current status that is none has no entry in the table of edges.
unfoldable pub assert_session_texts : (current status : String) → Result (Unit {0})
unfolding parse_session_status assert_session_transition
assert_session_texts current status = elim (parse_session_status current) [
  | none ↦ raised (Error.key_error "unknown status")
  | some s ↦ elim (parse_session_status status) [
    | none ↦ raised (Error.transition_error "invalid session transition")
    | some t ↦ assert_session_transition s t
  ]
]

unfoldable pub assert_call_texts : (current status : String) → Result (Unit {0})
unfolding parse_tool_call_status assert_tool_call_transition
assert_call_texts current status = elim (parse_tool_call_status current) [
  | none ↦ raised (Error.key_error "unknown status")
  | some s ↦ elim (parse_tool_call_status status) [
    | none ↦ raised (Error.transition_error "invalid tool call transition")
    | some t ↦ assert_tool_call_transition s t
  ]
]

abbrev pub move_session : (status updated_at hash : String) → SessionRow → SessionRow
move_session status updated_at hash r = record r {
  status = status;
  updated_at = updated_at;
  source_event_hash = hash;
}

abbrev pub move_call : (status updated_at hash : String) → ToolCallRow → ToolCallRow
move_call status updated_at hash r = record r {
  status = status;
  updated_at = updated_at;
  source_event_hash = hash;
}

-- A row that a query found.
abbrev pub found : {A : Type 0} → Option A → Error → Result A
found none e = raised e
found (some r) e = ok r

unfoldable pub known_session_status : Fields → Result String
unfolding required_text parse_session_status
known_session_status event = do
  status ← required_text event "status"
  require (is_some (parse_session_status status)) (value_error "invalid session status in evidence")
  ok status

unfoldable pub known_call_status : Fields → Result String
unfolding required_text parse_tool_call_status
known_call_status event = do
  status ← required_text event "status"
  require (is_some (parse_tool_call_status status))
      (value_error "invalid tool call status in evidence")
  ok status

-- The run and the time of a change to a status, with the checks around it.
unfoldable pub session_update : Tables → Fields → (status : String) → Result (String × String)
unfolding required_text select assert_session_texts count_where
session_update db event status = do
  run_id ← required_text event "run_id"
  row ←
      found (select (of_run run_id) db.sessions)
        (value_error "session status event references unknown run")
  assert_session_texts row.status status
  updated_at ← required_text event "updated_at"
  require (eqb (count_where (of_run run_id) db.sessions) 1)
      (value_error "session status event references unknown run")
  ok (run_id, updated_at)

abbrev pub with_session_update : (hash status : String) → Tables → String × String → Tables
with_session_update hash status db (run_id, updated_at) = record db {
  sessions = update_where (of_run run_id) (move_session status updated_at hash) db.sessions;
}

unfoldable pub project_session_status : Tables → Fields → (hash : String) → Result Tables
unfolding known_session_status session_update update_where
project_session_status db event hash = known_session_status event >>= (λ status.
    session_update db event status >>= (λ u. ok (with_session_update hash status db u)))

unfoldable pub tool_call_row : (status hash : String) → Fields → Result ToolCallRow
unfolding required_text optional_text required_integer
tool_call_row status hash event = do
  run_id ← required_text event "run_id"
  tool_call_id ← required_text event "tool_call_id"
  session_id ← required_text event "session_id"
  sequence ← required_integer event "sequence"
  tool_name ← required_text event "tool_name"
  arguments_digest ← required_text event "arguments_digest"
  policy_rule_id ← optional_text event "policy_rule_id"
  requested_at ← required_text event "requested_at"
  updated_at ← required_text event "updated_at"
  require (ltb sequence integer_limit)
      (overflow_error "Python int too large to convert to SQLite INTEGER")
  ok (record {
    run_id = run_id;
    tool_call_id = tool_call_id;
    session_id = session_id;
    sequence = sequence;
    tool_name = tool_name;
    arguments_digest = arguments_digest;
    policy_rule_id = policy_rule_id;
    status = status;
    requested_at = requested_at;
    updated_at = updated_at;
    source_event_hash = hash;
  })

-- The row of a request, with the check of its status.
unfoldable pub requested_call : Fields → (hash : String) → Result ToolCallRow
unfolding required_text tool_call_row
requested_call event hash = do
  status ← required_text event "status"
  require (status == "requested") (value_error "tool call request must have requested status")
  tool_call_row status hash event

unfoldable pub project_tool_call_requested : Tables → Fields → (hash : String) → Result Tables
unfolding requested_call insert_tool_call
project_tool_call_requested db event hash =
    requested_call event hash >>= (λ row. insert_tool_call row db)

unfoldable pub tool_call_update :
    Tables → Fields → (status : String) → Result (String × String × String)
unfolding required_text select assert_call_texts count_where
tool_call_update db event status = do
  run_id ← required_text event "run_id"
  tool_call_id ← required_text event "tool_call_id"
  row ←
      found (select (of_call run_id tool_call_id) db.tool_calls)
        (value_error "tool call status event references unknown call")
  assert_call_texts row.status status
  updated_at ← required_text event "updated_at"
  require (eqb (count_where (of_call run_id tool_call_id) db.tool_calls) 1)
      (value_error "tool call status event references unknown call")
  ok (run_id, tool_call_id, updated_at)

abbrev pub with_tool_call_update :
    (hash status : String) → Tables → String × String × String → Tables
with_tool_call_update hash status db (run_id, tool_call_id, updated_at) = record db {
  tool_calls =
      update_where (of_call run_id tool_call_id) (move_call status updated_at hash) db.tool_calls;
}

unfoldable pub project_tool_call_status : Tables → Fields → (hash : String) → Result Tables
unfolding known_call_status tool_call_update update_where
project_tool_call_status db event hash = known_call_status event >>= (λ status.
    tool_call_update db event status >>= (λ u. ok (with_tool_call_update hash status db u)))

unfoldable pub approval_row : (hash : String) → Fields → Result ApprovalRow
unfolding required_text optional_text
approval_row hash event = do
  approval_id ← required_text event "approval_id"
  run_id ← required_text event "run_id"
  tool_call_id ← required_text event "tool_call_id"
  tool_name ← required_text event "tool_name"
  arguments_digest ← required_text event "arguments_digest"
  policy_rule_id ← optional_text event "policy_rule_id"
  reason ← required_text event "reason"
  requested_at ← required_text event "requested_at"
  expires_at ← optional_text event "expires_at"
  ok (record {
    approval_id = approval_id;
    run_id = run_id;
    tool_call_id = tool_call_id;
    tool_name = tool_name;
    arguments_digest = arguments_digest;
    policy_rule_id = policy_rule_id;
    reason = reason;
    requested_at = requested_at;
    expires_at = expires_at;
    approver_id = none;
    decision = "pending";
    decision_reason = none;
    decided_at = none;
    source_event_hash = hash;
  })

unfoldable pub project_approval_requested : Tables → Fields → (hash : String) → Result Tables
unfolding approval_row insert_approval
project_approval_requested db event hash =
    approval_row hash event >>= (λ row. insert_approval row db)

-- `WHERE approval_id = ? AND arguments_digest = ? AND decision = 'pending'`.
abbrev pub undecided : (id digest : String) → ApprovalRow → Bool
undecided id digest r =
    (r.approval_id == id) && (r.arguments_digest == digest) && (r.decision == "pending")

abbrev pub decide_row :
    (approver_id decision decision_reason decided_at hash : String) → ApprovalRow → ApprovalRow
decide_row approver_id decision decision_reason decided_at hash r = record r {
  approver_id = some approver_id;
  decision = decision;
  decision_reason = some decision_reason;
  decided_at = some decided_at;
  source_event_hash = hash;
}

-- What a decision writes.
pub record RowDecision : Type 0 where
  pub approval_id : String
  pub arguments_digest : String
  pub decision : String
  pub approver_id : String
  pub decision_reason : String
  pub decided_at : String

unfoldable pub row_decision : Tables → Fields → Result RowDecision
unfolding required_text count_where
row_decision db event = do
  decision ← required_text event "decision"
  require (one_of decision ("approved" ∷ "denied" ∷ []))
      (value_error "invalid approval decision in evidence")
  approver_id ← required_text event "approver_id"
  decision_reason ← required_text event "decision_reason"
  decided_at ← required_text event "decided_at"
  approval_id ← required_text event "approval_id"
  digest ← required_text event "arguments_digest"
  require (eqb (count_where (undecided approval_id digest) db.approvals) 1)
      (value_error "approval decision does not match a pending approval and arguments digest")
  ok (record {
    approval_id = approval_id;
    arguments_digest = digest;
    decision = decision;
    approver_id = approver_id;
    decision_reason = decision_reason;
    decided_at = decided_at;
  })

abbrev pub with_decision : (hash : String) → Tables → RowDecision → Tables
with_decision hash db d = record db {
  approvals =
      update_where (undecided d.approval_id d.arguments_digest)
        (decide_row d.approver_id d.decision d.decision_reason d.decided_at hash) db.approvals;
}

unfoldable pub project_approval_decided : Tables → Fields → (hash : String) → Result Tables
unfolding row_decision update_where
project_approval_decided db event hash =
    row_decision db event >>= (λ d. ok (with_decision hash db d))
