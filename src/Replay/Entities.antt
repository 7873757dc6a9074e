-- ===== src/Replay/Entities.antt =====
-- adapters/evidence/replay.py: how an event changes a session, a tool call or an approval that was
-- replayed before. Every bound field must be as it was when the entity was created.
use agent_trust_runtime.Base.{
  ℕ, String, Bool, false, ◌==◌, Option, none, some, eqb, if◌then◌else◌, Result, ok, raised,
  value_error, transition_error, require, ◌>>=◌, ◌>>◌,
}
use agent_trust_runtime.Value.{ℤ, Value, integer, float, Fields, get_or_none, same_dict}
use agent_trust_runtime.Host.{Host}
use agent_trust_runtime.Lifecycle.Session.{parse_session_status}
use agent_trust_runtime.Lifecycle.Call.{parse_tool_call_status}
use agent_trust_runtime.Sessions.{
  AgentSession, transition_session, SessionToolCall, transition_tool_call,
}
use agent_trust_runtime.Approvals.{ApprovalRequest, approve, deny, expire}
use agent_trust_runtime.Replay.{
  required_text, optional_text, approval_arguments, same_opt, mismatch,
}

-- `_require_equal(..., expected, _required_text(event, key))`.
unfoldable pub require_text_equal : Fields → (key expected : String) → Result (Unit {0})
unfolding required_text
require_text_equal event key expected = do
  actual ← required_text event key
  require (expected == actual) mismatch

-- `_require_equal(..., expected, _optional_text(event, key))`.
unfoldable pub require_opt_equal : Fields → (key : String) → Option String → Result (Unit {0})
unfolding optional_text same_opt
require_opt_equal event key expected = do
  actual ← optional_text event key
  require (same_opt expected actual) mismatch

-- `_apply_session_event` up to the transition: the status and the time of the event.
unfoldable pub session_change : AgentSession → Fields → Result (String × String)
unfolding require_text_equal require_opt_equal required_text
session_change s event = do
  require_text_equal event "run_id" s.run_id
  require_text_equal event "actor_id" s.actor_id
  require_text_equal event "session_id" s.session_id
  require_opt_equal event "agent_id" s.agent_id
  require_opt_equal event "policy_version" s.policy_version
  require_text_equal event "created_at" s.created_at
  status ← required_text event "status"
  updated_at ← required_text event "updated_at"
  ok (status, updated_at)

-- `not (isinstance(sequence, bool) or sequence != tool_call.sequence)`.
unfoldable pub same_sequence : Host → Value → ℕ → Bool
same_sequence host (integer (ℤ.pos n)) m = eqb n m
same_sequence host (float s) m = host.float_equals s m
same_sequence host _ m = false

-- `_apply_tool_call_event` up to the transition.
unfoldable pub tool_call_change : Host → SessionToolCall → Fields → Result (String × String)
unfolding require_text_equal require_opt_equal get_or_none same_sequence required_text
tool_call_change host c event = do
  require_text_equal event "run_id" c.run_id
  require_text_equal event "session_id" c.session_id
  require_text_equal event "tool_name" c.tool_name
  require_text_equal event "arguments_digest" c.arguments_digest
  require_opt_equal event "policy_rule_id" c.policy_rule_id
  require_text_equal event "requested_at" c.requested_at
  require (same_sequence host (get_or_none "sequence" event) c.sequence)
      (value_error "tool call status event does not match the requested sequence")
  status ← required_text event "status"
  updated_at ← required_text event "updated_at"
  ok (status, updated_at)

-- A decision as an event records it.
pub record RecordedDecision : Type 0 where
  pub decision : String
  pub approver_id : String
  pub decision_reason : String
  pub decided_at : String

-- `_apply_approval_event` up to the decision.
unfoldable pub approval_change : ApprovalRequest → Fields → Result RecordedDecision
unfolding require_text_equal require_opt_equal approval_arguments same_dict required_text
approval_change a event = do
  require_text_equal event "run_id" a.run_id
  require_text_equal event "tool_call_id" a.tool_call_id
  require_text_equal event "tool_name" a.tool_name
  require_text_equal event "arguments_digest" a.arguments_digest
  arguments ← approval_arguments event
  require (same_dict a.arguments_preview arguments) mismatch
  require_opt_equal event "policy_rule_id" a.policy_rule_id
  require_text_equal event "reason" a.reason
  require_text_equal event "requested_at" a.requested_at
  require_opt_equal event "expires_at" a.expires_at
  decision ← required_text event "decision"
  approver_id ← required_text event "approver_id"
  decision_reason ← required_text event "decision_reason"
  decided_at ← required_text event "decided_at"
  ok (record {
    decision = decision;
    approver_id = approver_id;
    decision_reason = decision_reason;
    decided_at = decided_at;
  })

module _ (now : String) where
  -- `session.transition` to a status that is named; any other text is no target.
  unfoldable pub transition_session_named : AgentSession → String × String → Result AgentSession
  unfolding parse_session_status transition_session
  transition_session_named s (status, updated_at) = elim (parse_session_status status) [
    | none ↦ raised (transition_error "invalid session transition")
    | some target ↦ transition_session now s target (some updated_at)
  ]

  -- `_apply_session_event`.
  unfoldable pub apply_session_event : AgentSession → Fields → Result AgentSession
  unfolding session_change transition_session_named
  apply_session_event s event = session_change s event >>= transition_session_named s

  unfoldable pub transition_tool_call_named :
      SessionToolCall → String × String → Result SessionToolCall
  unfolding parse_tool_call_status transition_tool_call
  transition_tool_call_named c (status, updated_at) = elim (parse_tool_call_status status) [
    | none ↦ raised (transition_error "invalid tool call transition")
    | some target ↦ transition_tool_call now c target (some updated_at)
  ]

  -- `_apply_tool_call_event`.
  unfoldable pub apply_tool_call_event : Host → SessionToolCall → Fields → Result SessionToolCall
  unfolding tool_call_change transition_tool_call_named
  apply_tool_call_event host c event =
      tool_call_change host c event >>= transition_tool_call_named c

  -- The last lines of `_apply_approval_event`.
  unfoldable pub replay_decision :
      Host → ApprovalRequest → RecordedDecision → Result ApprovalRequest
  unfolding approve deny expire
  replay_decision host a r =
      if r.decision == "approved"
      then approve host now a r.approver_id r.decision_reason (some r.decided_at)
      else if r.decision == "denied"
      then if r.decision_reason == "approval_expired"
        then expire host now a r.approver_id (some r.decided_at)
        else deny host now a r.approver_id r.decision_reason (some r.decided_at)
      else raised (value_error "invalid approval decision")

  -- `_apply_approval_event`.
  unfoldable pub apply_approval_event : Host → ApprovalRequest → Fields → Result ApprovalRequest
  unfolding approval_change replay_decision
  apply_approval_event host a event = approval_change a event >>= replay_decision host a
