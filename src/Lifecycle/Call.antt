-- ===== src/Lifecycle/Call.antt =====
-- domain/lifecycle.py, the tool-call half.
use agent_trust_runtime.Base.{
  String, Bool, Option, none, some, List, [], ◌∷◌, ◌==◌, member, is_empty, if◌then◌else◌, Result,
  require, transition_error,
}

pub data ToolCallStatus : Type 0 where
  requested policy_denied waiting_approval approved sandbox_denied executing : ToolCallStatus
  succeeded failed : ToolCallStatus

unfoldable pub ToolCallStatus-discrete : Discrete ToolCallStatus
ToolCallStatus-discrete = hlevel

unfoldable pub tool_call_status_text : ToolCallStatus → String
tool_call_status_text requested = "requested"
tool_call_status_text policy_denied = "policy_denied"
tool_call_status_text waiting_approval = "waiting_approval"
tool_call_status_text approved = "approved"
tool_call_status_text sandbox_denied = "sandbox_denied"
tool_call_status_text executing = "executing"
tool_call_status_text succeeded = "succeeded"
tool_call_status_text failed = "failed"

-- Membership in `TOOL_CALL_STATUSES`.
unfoldable pub parse_tool_call_status : String → Option ToolCallStatus
parse_tool_call_status s =
    if s == "requested"
    then some requested
    else if s == "policy_denied"
    then some policy_denied
    else if s == "waiting_approval"
    then some waiting_approval
    else if s == "approved"
    then some approved
    else if s == "sandbox_denied"
    then some sandbox_denied
    else if s == "executing"
    then some executing
    else if s == "succeeded"
    then some succeeded
    else if s == "failed"
    then some failed
    else none

unfoldable pub tool_call_transitions : ToolCallStatus → List ToolCallStatus
tool_call_transitions requested =
    policy_denied ∷ waiting_approval ∷ sandbox_denied ∷ executing ∷ failed ∷ []
tool_call_transitions policy_denied = []
tool_call_transitions waiting_approval = approved ∷ policy_denied ∷ failed ∷ []
tool_call_transitions approved = sandbox_denied ∷ executing ∷ failed ∷ []
tool_call_transitions sandbox_denied = []
tool_call_transitions executing = succeeded ∷ failed ∷ []
tool_call_transitions succeeded = []
tool_call_transitions failed = []

unfoldable pub assert_tool_call_transition : ToolCallStatus → ToolCallStatus → Result (Unit {0})
unfolding tool_call_transitions ToolCallStatus-discrete
assert_tool_call_transition current target =
    require (member ToolCallStatus-discrete target (tool_call_transitions current))
      (transition_error "invalid tool call transition")

unfoldable pub is_terminal_tool_call_status : ToolCallStatus → Bool
unfolding tool_call_transitions
is_terminal_tool_call_status status = is_empty (tool_call_transitions status)
