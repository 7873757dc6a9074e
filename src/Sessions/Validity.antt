-- ===== src/Sessions/Validity.antt =====
-- domain/sessions.py: a transition answers exactly along the lifecycle's edges, keeps the identity
-- of its entity, and keeps it valid.
use agent_trust_runtime.Base.{
  String, ◌≡◌, Bool-cases, inl, inr, false, none, is_blank, arith, member, if◌then◌else◌, ok,
  raised, transition_error,
}
use agent_trust_runtime.Lifecycle.Session.{
  SessionStatus, SessionStatus-discrete, session_transitions, is_terminal_session_status,
}
use agent_trust_runtime.Lifecycle.Call.{
  ToolCallStatus, ToolCallStatus-discrete, tool_call_transitions, is_terminal_tool_call_status,
}
use agent_trust_runtime.Sessions.{
  require_text, AgentSession, check_session, transition_session, is_terminal_session,
  SessionToolCall, check_tool_call, transition_tool_call, is_terminal_tool_call,
}

-- The constructor accepts the value.
abbrev pub IsValid : AgentSession → Type 0
IsValid s = check_session s ≡ ok s

abbrev pub IsValidCall : SessionToolCall → Type 0
IsValidCall c = check_tool_call c ≡ ok c

-- The session with a new status, moved at `now`.
abbrev pub moved : AgentSession → SessionStatus → String → AgentSession
moved s status now = record s { status = status; updated_at = now }

abbrev pub moved_call : SessionToolCall → ToolCallStatus → String → SessionToolCall
moved_call c status now = record c { status = status; updated_at = now }

require_text-ok : (s : String) → require_text s ≡ ok tt → is_blank s ≡ false
unfolding require_text
require_text-ok s h = ground arith

check_session-moved :
    (s : AgentSession) (status : SessionStatus) (now : String)
    → IsValid s
    → is_blank now ≡ false
    → IsValid (moved s status now)
unfolding check_session
check_session-moved s status now v h = ground arith

check_tool_call-moved :
    (c : SessionToolCall) (status : ToolCallStatus) (now : String)
    → IsValidCall c
    → is_blank now ≡ false
    → IsValidCall (moved_call c status now)
unfolding check_tool_call
check_tool_call-moved c status now v h = ground arith

-- From a valid session and a clock that is not blank: the transition succeeds exactly along an edge
-- of the lifecycle, the result is the session with the new status and time alone changed, and it is
-- valid again; any other target raises the lifecycle's error.
pub transition_session_lem :
    (now : String) (s : AgentSession) (target : SessionStatus)
    → IsValid s
    → is_blank now ≡ false
    → IsValid (moved s target now)
      × (transition_session now s target none ≡ (
          if member SessionStatus-discrete target (session_transitions s.status)
          then ok (moved s target now)
          else raised (transition_error "invalid session transition")))
unfolding transition_session
transition_session_lem now s target v h =
    let v' = check_session-moved s target now v h in
    (
      v',
      elim (Bool-cases (member SessionStatus-discrete target (session_transitions s.status))) [
        | inl e ↦ rw (e, v')
        | inr e ↦ rw e
      ],
    )

-- From a valid tool call and a clock that is not blank: the transition succeeds exactly along an edge
-- of the lifecycle, the result is the call with the new status and time alone changed, and it is
-- valid again; any other target raises the lifecycle's error.
pub transition_tool_call_lem :
    (now : String) (c : SessionToolCall) (target : ToolCallStatus)
    → IsValidCall c
    → is_blank now ≡ false
    → IsValidCall (moved_call c target now)
      × (transition_tool_call now c target none ≡ (
          if member ToolCallStatus-discrete target (tool_call_transitions c.status)
          then ok (moved_call c target now)
          else raised (transition_error "invalid tool call transition")))
unfolding transition_tool_call
transition_tool_call_lem now c target v h =
    let v' = check_tool_call-moved c target now v h in
    (
      v',
      elim (Bool-cases (member ToolCallStatus-discrete target (tool_call_transitions c.status))) [
        | inl e ↦ rw (e, v')
        | inr e ↦ rw e
      ],
    )

-- The two notions of a terminal status agree: the properties of the entities list the statuses, the
-- functions of the lifecycle look for an empty set of transitions.
pub is_terminal_agree :
    (s : AgentSession) (c : SessionToolCall)
    → (is_terminal_session s ≡ is_terminal_session_status s.status)
      × (is_terminal_tool_call c ≡ is_terminal_tool_call_status c.status)
unfolding is_terminal_session is_terminal_session_status is_terminal_tool_call
    is_terminal_tool_call_status
is_terminal_agree s c = ground arith
