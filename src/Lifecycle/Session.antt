-- ===== src/Lifecycle/Session.antt =====
-- domain/lifecycle.py, the session half.
use agent_trust_runtime.Base.{
  String, Bool, Option, none, some, List, [], ◌∷◌, ◌==◌, member, is_empty, if◌then◌else◌, Result,
  require, transition_error,
}

pub data SessionStatus : Type 0 where
  created running waiting_approval completed failed cancelled : SessionStatus

unfoldable pub SessionStatus-discrete : Discrete SessionStatus
SessionStatus-discrete = hlevel

unfoldable pub session_status_text : SessionStatus → String
session_status_text created = "created"
session_status_text running = "running"
session_status_text waiting_approval = "waiting_approval"
session_status_text completed = "completed"
session_status_text failed = "failed"
session_status_text cancelled = "cancelled"

-- Membership in `SESSION_STATUSES`.
unfoldable pub parse_session_status : String → Option SessionStatus
parse_session_status s =
    if s == "created"
    then some created
    else if s == "running"
    then some running
    else if s == "waiting_approval"
    then some waiting_approval
    else if s == "completed"
    then some completed
    else if s == "failed"
    then some failed
    else if s == "cancelled"
    then some cancelled
    else none

unfoldable pub session_transitions : SessionStatus → List SessionStatus
session_transitions created = running ∷ cancelled ∷ []
session_transitions running = waiting_approval ∷ completed ∷ failed ∷ cancelled ∷ []
session_transitions waiting_approval = running ∷ failed ∷ cancelled ∷ []
session_transitions completed = []
session_transitions failed = []
session_transitions cancelled = []

unfoldable pub assert_session_transition : SessionStatus → SessionStatus → Result (Unit {0})
unfolding session_transitions SessionStatus-discrete
assert_session_transition current target =
    require (member SessionStatus-discrete target (session_transitions current))
      (transition_error "invalid session transition")

unfoldable pub is_terminal_session_status : SessionStatus → Bool
unfolding session_transitions
is_terminal_session_status status = is_empty (session_transitions status)
