-- ===== src/Replay.antt =====
-- adapters/evidence/replay.py: the readers of an event's fields, and the entities that one event
-- creates or changes. `run` (in Run) goes through a whole trace. The clock `now` is the default of
-- the transitions; an event always brings its own time.
pub mod Run
pub mod Entities
pub mod Session
pub mod Kept
use agent_trust_runtime.Base.{
  ℕ, zero, String, Bool, true, false, not, ◌&&◌, ◌||◌, ◌==◌, Option, none, some, List, [], ◌∷◌,
  is_blank, or_else, eqb, if◌then◌else◌, Error, Result, ok, raised, value_error, transition_error,
  require, ◌>>=◌, ◌>>◌,
}
use agent_trust_runtime.Value.{
  ℤ, Value, null, boolean, integer, float, text, object, Fields, end, get, get_or_none, same_dict,
}
use agent_trust_runtime.Host.{Host}
use agent_trust_runtime.Lifecycle.Session.{SessionStatus, parse_session_status}
use agent_trust_runtime.Lifecycle.Call.{ToolCallStatus, parse_tool_call_status}
use agent_trust_runtime.Sessions.{
  AgentSession, check_session, transition_session, SessionToolCall, check_tool_call,
  transition_tool_call,
}
use agent_trust_runtime.Approvals.{ApprovalRequest, pending, check_approval, approve, deny, expire}
use agent_trust_runtime.Facts.{Fact, check_fact}

unfoldable pub required_text : Fields → String → Result String
unfolding get_or_none is_blank
required_text event key = elim (get_or_none key event) [
  | text s ↦
      if is_blank s then raised (value_error "evidence event requires a non-empty string") else ok s
  | _ ↦ raised (value_error "evidence event requires a non-empty string")
]

unfoldable pub optional_text : Fields → String → Result (Option String)
unfolding get_or_none is_blank
optional_text event key = elim (get_or_none key event) [
  | null ↦ ok none
  | text s ↦
      if is_blank s
      then raised (value_error "evidence event requires a non-empty string or null")
      else ok (some s)
  | _ ↦ raised (value_error "evidence event requires a non-empty string or null")
]

unfoldable pub approval_arguments : Fields → Result Fields
unfolding get
approval_arguments event = elim (get "arguments" event) [
  | none ↦ ok end
  | some (object d) ↦ ok d
  | some _ ↦ raised (value_error "approval arguments must be a string-keyed object")
]

-- `expected != actual` of two texts that may be None.
unfoldable pub same_opt : Option String → Option String → Bool
same_opt none none = true
same_opt (some a) (some b) = a == b
same_opt _ _ = false

-- `_require_equal`.
abbrev pub mismatch : Error
mismatch = value_error "value does not match its creation event"

-- The arguments that `_session_from_event` gives to the constructor.
unfoldable pub session_fields : Fields → Result AgentSession
unfolding required_text optional_text
session_fields event = do
  status ← required_text event "status"
  require (status == "created") (value_error "session creation must have created status")
  run_id ← required_text event "run_id"
  actor_id ← required_text event "actor_id"
  session_id ← required_text event "session_id"
  created_at ← required_text event "created_at"
  updated_at ← required_text event "updated_at"
  agent_id ← optional_text event "agent_id"
  policy_version ← optional_text event "policy_version"
  ok (record {
    run_id = run_id;
    actor_id = actor_id;
    session_id = session_id;
    created_at = created_at;
    updated_at = updated_at;
    agent_id = agent_id;
    policy_version = policy_version;
    status = SessionStatus.created;
  })

-- `_session_from_event`.
unfoldable pub session_from_event : Fields → Result AgentSession
unfolding session_fields check_session
session_from_event event = session_fields event >>= check_session

-- The `sequence` of a request: a bool is no integer here. A negative number is refused by the
-- constructor as 0 is.
unfoldable pub integer_sequence : Value → Option ℕ
integer_sequence (integer (ℤ.pos n)) = some n
integer_sequence (integer (ℤ.negsuc n)) = some zero
integer_sequence _ = none

-- The arguments that `_tool_call_from_event` gives to the constructor.
unfoldable pub tool_call_fields : Fields → Result SessionToolCall
unfolding get_or_none integer_sequence required_text optional_text
tool_call_fields event = elim (integer_sequence (get_or_none "sequence" event)) [
  | none ↦ raised (value_error "tool call request requires an integer sequence")
  | some sequence ↦ do
    status ← required_text event "status"
    require (status == "requested") (value_error "tool call request must have requested status")
    run_id ← required_text event "run_id"
    session_id ← required_text event "session_id"
    tool_call_id ← required_text event "tool_call_id"
    tool_name ← required_text event "tool_name"
    arguments_digest ← required_text event "arguments_digest"
    requested_at ← required_text event "requested_at"
    updated_at ← required_text event "updated_at"
    policy_rule_id ← optional_text event "policy_rule_id"
    ok (record {
      run_id = run_id;
      session_id = session_id;
      tool_call_id = tool_call_id;
      sequence = sequence;
      tool_name = tool_name;
      arguments_digest = arguments_digest;
      requested_at = requested_at;
      updated_at = updated_at;
      status = ToolCallStatus.requested;
      policy_rule_id = policy_rule_id;
    })
]

-- `_tool_call_from_event`.
unfoldable pub tool_call_from_event : Fields → Result SessionToolCall
unfolding tool_call_fields check_tool_call
tool_call_from_event event = tool_call_fields event >>= check_tool_call

-- The arguments that `_approval_from_event` gives to the constructor.
unfoldable pub approval_fields : Fields → Result ApprovalRequest
unfolding required_text optional_text approval_arguments
approval_fields event = do
  approval_id ← required_text event "approval_id"
  run_id ← required_text event "run_id"
  tool_call_id ← required_text event "tool_call_id"
  tool_name ← required_text event "tool_name"
  arguments_digest ← required_text event "arguments_digest"
  arguments_preview ← approval_arguments event
  policy_rule_id ← optional_text event "policy_rule_id"
  reason ← required_text event "reason"
  requested_at ← required_text event "requested_at"
  expires_at ← optional_text event "expires_at"
  ok (record {
    approval_id = approval_id;
    run_id = run_id;
    tool_call_id = tool_call_id;
    tool_name = tool_name;
    arguments_digest = arguments_digest;
    reason = reason;
    requested_at = requested_at;
    arguments_preview = arguments_preview;
    policy_rule_id = policy_rule_id;
    expires_at = expires_at;
    decision = pending;
    approver_id = none;
    decision_reason = none;
    decided_at = none;
  })

-- `_approval_from_event`.
unfoldable pub approval_from_event : Host → Fields → Result ApprovalRequest
unfolding approval_fields check_approval
approval_from_event host event = approval_fields event >>= check_approval host

-- `raw.get("unit")`, None or a text that is not blank.
unfoldable pub fact_unit : Fields → Result (Option String)
unfolding get_or_none is_blank
fact_unit raw = elim (get_or_none "unit" raw) [
  | null ↦ ok none
  | text s ↦
      if is_blank s
      then raised (value_error "fact unit must be a non-empty string or null")
      else ok (some s)
  | _ ↦ raised (value_error "fact unit must be a non-empty string or null")
]

-- `_fact_from_event`.
unfoldable pub fact_from_event : Value → Result Fact
unfolding fact_unit required_text optional_text check_fact
fact_from_event (object raw) = do
  unit ← fact_unit raw
  key ← required_text raw "key"
  value ← required_text raw "value"
  source_tool_call_id ← required_text raw "source_tool_call_id"
  source_tool_name ← required_text raw "source_tool_name"
  provenance ← optional_text raw "provenance"
  trust_level ← optional_text raw "trust_level"
  check_fact (record {
    key = key;
    value = value;
    unit = unit;
    source_tool_call_id = source_tool_call_id;
    source_tool_name = source_tool_name;
    provenance = or_else provenance "real";
    trust_level = or_else trust_level "trusted";
  })
fact_from_event _ = raised (value_error "fact_mapped entries must be objects")
