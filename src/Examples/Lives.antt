-- ===== src/Examples/Lives.antt =====
-- domain/sessions.py: a session, and a tool call on its way to an approval and an execution.
use agent_trust_runtime.Base.{
  ◌≤◌, ◌≡◌, refl, none, List, [], ◌∷◌, ok, raised, length, member, transition_error, if◌then◌else◌,
}
use agent_trust_runtime.Lifecycle.Session.{
  SessionStatus, SessionStatus-discrete, session_transitions, is_terminal_session_status,
}
use agent_trust_runtime.Lifecycle.Call.{
  ToolCallStatus, ToolCallStatus-discrete, tool_call_transitions, is_terminal_tool_call_status,
}
use agent_trust_runtime.Sessions.{
  AgentSession, SessionToolCall, check_session, check_tool_call, transition_session,
  transition_tool_call, is_terminal_session, is_terminal_tool_call,
}
use agent_trust_runtime.Sessions.Validity.{
  IsValid, IsValidCall, moved, moved_call, transition_session_lem, transition_tool_call_lem,
  is_terminal_agree,
}
use agent_trust_runtime.Sessions.Paths.{walk, requested_walk_bounded, waiting_walk_approved}

abbrev session : AgentSession
session = record {
  run_id = "run";
  actor_id = "actor";
  session_id = "session";
  created_at = "t0";
  updated_at = "t0";
  agent_id = none;
  policy_version = none;
  status = SessionStatus.created;
}

abbrev call : ToolCallStatus → SessionToolCall
call status = record {
  run_id = "run";
  session_id = "session";
  tool_call_id = "call_001";
  sequence = 1;
  tool_name = "shell";
  arguments_digest = "sha256:0";
  requested_at = "t0";
  updated_at = "t0";
  status = status;
  policy_rule_id = none;
}

abbrev path : List ToolCallStatus
path = ToolCallStatus.approved ∷ ToolCallStatus.executing ∷ ToolCallStatus.succeeded ∷ []

abbrev ending : List ToolCallStatus
ending = ToolCallStatus.waiting_approval ∷ path

abbrev done : SessionToolCall
done = moved_call (call ToolCallStatus.succeeded) ToolCallStatus.succeeded "t5"

walk_run : walk "t5" (call ToolCallStatus.waiting_approval) path ≡ ok done
unfolding walk transition_tool_call
walk_run = refl

whole_run : walk "t5" (call ToolCallStatus.requested) ending ≡ ok done
unfolding walk transition_tool_call
whole_run = refl

requested_walk_bounded_example : length ending ≤ 4
requested_walk_bounded_example =
    requested_walk_bounded "t5" (call ToolCallStatus.requested) done ending refl whole_run

waiting_walk_approved_example : path ≡ path
waiting_walk_approved_example =
    waiting_walk_approved "t5" (call ToolCallStatus.waiting_approval) done path refl walk_run refl

transition_session_lem_example :
    IsValid (moved session SessionStatus.running "t5")
    × (transition_session "t5" session SessionStatus.running none ≡ (
        if member SessionStatus-discrete SessionStatus.running
          (session_transitions SessionStatus.created)
        then ok (moved session SessionStatus.running "t5")
        else raised (transition_error "invalid session transition")))
unfolding check_session
transition_session_lem_example = transition_session_lem "t5" session SessionStatus.running refl refl

transition_tool_call_lem_example :
    IsValidCall (moved_call (call ToolCallStatus.requested) ToolCallStatus.executing "t5")
    × (transition_tool_call "t5" (call ToolCallStatus.requested) ToolCallStatus.executing none ≡ (
        if member ToolCallStatus-discrete ToolCallStatus.executing
          (tool_call_transitions ToolCallStatus.requested)
        then ok (moved_call (call ToolCallStatus.requested) ToolCallStatus.executing "t5")
        else raised (transition_error "invalid tool call transition")))
unfolding check_tool_call
transition_tool_call_lem_example =
    transition_tool_call_lem "t5" (call ToolCallStatus.requested) ToolCallStatus.executing refl refl

is_terminal_agree_example :
    (is_terminal_session session ≡ is_terminal_session_status SessionStatus.created)
    × (is_terminal_tool_call done ≡ is_terminal_tool_call_status ToolCallStatus.succeeded)
is_terminal_agree_example = is_terminal_agree session done
