-- ===== src/Sessions.antt =====
-- domain/sessions.py: the session entity and the tool-call entity. `replace` runs `__post_init__`
-- again, so each transition ends in a validation. The time of a call is its argument `now`.
pub mod Validity
pub mod Paths
use agent_trust_runtime.Base.{
  ℕ, zero, suc, String, Bool, true, false, not, Option, none, some, List, [], ◌∷◌, is_blank,
  or_else, ltb, member, Error, Result, ok, raised, value_error, require, ◌>>=◌, ◌>>◌,
}
use agent_trust_runtime.Base.Digits.{call_id}
use agent_trust_runtime.Value.{text, Fields, dict, opt_text, number}
use agent_trust_runtime.Host.{Host}
use agent_trust_runtime.Lifecycle.Session.{
  SessionStatus, SessionStatus-discrete, session_status_text, assert_session_transition,
}
use agent_trust_runtime.Lifecycle.Call.{
  ToolCallStatus, ToolCallStatus-discrete, tool_call_status_text, assert_tool_call_transition,
}

-- The digest that binds an approval to exact tool arguments.
unfoldable pub arguments_digest : Host → Fields → Result String
arguments_digest host arguments = elim (host.dumps false arguments) [
  | none ↦ raised (value_error "tool arguments must be JSON serializable")
  | some payload ↦ ok (host.sha256 payload)
]

unfoldable pub require_text : String → Result (Unit {0})
unfolding is_blank
require_text value = require (not (is_blank value)) (value_error "must not be empty")

-- `if value is not None: _require_text(...)`.
unfoldable pub require_opt_text : Option String → Result (Unit {0})
unfolding require_text
require_opt_text none = ok tt
require_opt_text (some value) = require_text value

pub record AgentSession : Type 0 where
  pub run_id : String
  pub actor_id : String
  pub session_id : String
  pub created_at : String
  pub updated_at : String
  pub agent_id : Option String
  pub policy_version : Option String
  pub status : SessionStatus

-- `AgentSession.__post_init__`, and the value that the constructor returns.
unfoldable pub check_session : AgentSession → Result AgentSession
unfolding require_text require_opt_text
check_session s = do
  require_text s.run_id
  require_text s.actor_id
  require_text s.session_id
  require_text s.created_at
  require_text s.updated_at
  require_opt_text s.agent_id
  require_opt_text s.policy_version
  ok s

module _ (now : String) where
  unfoldable pub create_session :
      (run_id actor_id session_id : String) (agent_id policy_version created_at : Option String)
      → Result AgentSession
  unfolding check_session
  create_session run_id actor_id session_id agent_id policy_version created_at =
      let timestamp = or_else created_at now in
      check_session (record {
        run_id = run_id;
        actor_id = actor_id;
        session_id = session_id;
        created_at = timestamp;
        updated_at = timestamp;
        agent_id = agent_id;
        policy_version = policy_version;
        status = SessionStatus.created;
      })

  -- `AgentSession.transition`; `start`, `complete`, `fail` and the like name a target.
  unfoldable pub transition_session :
      AgentSession → SessionStatus → Option String → Result AgentSession
  unfolding assert_session_transition check_session
  transition_session s status updated_at = do
    assert_session_transition s.status status
    check_session (record s { status = status; updated_at = or_else updated_at now })

-- `AgentSession.is_terminal`.
unfoldable pub is_terminal_session : AgentSession → Bool
unfolding SessionStatus-discrete
is_terminal_session s =
    member SessionStatus-discrete s.status
      (SessionStatus.completed ∷ SessionStatus.failed ∷ SessionStatus.cancelled ∷ [])

unfoldable pub session_to_dict : AgentSession → Fields
unfolding session_status_text
session_to_dict s = dict (
    ("run_id", text s.run_id)
    ∷ ("actor_id", text s.actor_id)
    ∷ ("agent_id", opt_text s.agent_id)
    ∷ ("session_id", text s.session_id)
    ∷ ("policy_version", opt_text s.policy_version)
    ∷ ("status", text (session_status_text s.status))
    ∷ ("created_at", text s.created_at)
    ∷ ("updated_at", text s.updated_at)
    ∷ [])

pub record SessionToolCall : Type 0 where
  pub run_id : String
  pub session_id : String
  pub tool_call_id : String
  pub sequence : ℕ
  pub tool_name : String
  pub arguments_digest : String
  pub requested_at : String
  pub updated_at : String
  pub status : ToolCallStatus
  pub policy_rule_id : Option String

-- `SessionToolCall.__post_init__`, and the value that the constructor returns.
unfoldable pub check_tool_call : SessionToolCall → Result SessionToolCall
unfolding require_text require_opt_text
check_tool_call c = do
  require_text c.run_id
  require_text c.session_id
  require_text c.tool_call_id
  require_text c.tool_name
  require_text c.arguments_digest
  require_text c.requested_at
  require_text c.updated_at
  require (ltb 0 c.sequence) (value_error "sequence must be at least 1")
  require_opt_text c.policy_rule_id
  ok c

module _ (host : Host) (now : String) where
  unfoldable pub create_tool_call :
      (run_id session_id : String) (sequence : ℕ) (tool_name : String) (arguments : Fields)
      (policy_rule_id requested_at : Option String)
      → Result SessionToolCall
  unfolding check_tool_call call_id arguments_digest
  create_tool_call run_id session_id sequence tool_name arguments policy_rule_id requested_at = do
    let timestamp = or_else requested_at now
    digest ← arguments_digest host arguments
    check_tool_call (record {
      run_id = run_id;
      session_id = session_id;
      tool_call_id = call_id sequence;
      sequence = sequence;
      tool_name = tool_name;
      arguments_digest = digest;
      requested_at = timestamp;
      updated_at = timestamp;
      status = ToolCallStatus.requested;
      policy_rule_id = policy_rule_id;
    })

-- `SessionToolCall.transition`; `approve`, `succeed` and the like name a target.
unfoldable pub transition_tool_call :
    String → SessionToolCall → ToolCallStatus → Option String → Result SessionToolCall
unfolding assert_tool_call_transition check_tool_call
transition_tool_call now c status updated_at = do
  assert_tool_call_transition c.status status
  check_tool_call (record c { status = status; updated_at = or_else updated_at now })

-- `SessionToolCall.is_terminal`.
unfoldable pub is_terminal_tool_call : SessionToolCall → Bool
unfolding ToolCallStatus-discrete
is_terminal_tool_call c = member ToolCallStatus-discrete c.status (
    ToolCallStatus.policy_denied ∷ ToolCallStatus.sandbox_denied ∷ ToolCallStatus.succeeded
    ∷ ToolCallStatus.failed ∷ [])

unfoldable pub tool_call_to_dict : SessionToolCall → Fields
unfolding tool_call_status_text
tool_call_to_dict c = dict (
    ("run_id", text c.run_id)
    ∷ ("session_id", text c.session_id)
    ∷ ("tool_call_id", text c.tool_call_id)
    ∷ ("sequence", number c.sequence)
    ∷ ("tool_name", text c.tool_name)
    ∷ ("arguments_digest", text c.arguments_digest)
    ∷ ("policy_rule_id", opt_text c.policy_rule_id)
    ∷ ("status", text (tool_call_status_text c.status))
    ∷ ("requested_at", text c.requested_at)
    ∷ ("updated_at", text c.updated_at)
    ∷ [])
