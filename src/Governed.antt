-- ===== src/Governed.antt =====
-- application/governed_session.py: `GovernedSession`. Its attributes are the state, beside the world
-- of its ports. A lock is held during each call, so an operation is one action.
pub mod Calls
pub mod Runner
pub mod Answers
pub mod Rules
pub mod Listed
pub mod Listing
pub mod Ports
pub mod Status
pub mod Guards
pub mod Failures
pub mod Waiting
use agent_trust_runtime.Base.{
  ℕ, ◌+◌, String, Bool, true, false, not, ◌&&◌, ◌||◌, Option, none, some, List, [], ◌∷◌, ◌++◌, ◌==◌,
  one_of, is_empty, is_some, if◌then◌else◌, Error, Result, ok, raised, value_error, runtime_error,
}
use agent_trust_runtime.Exec.{Exec, pure, raise, lift, ◌>>=◌, ◌>>◌, when, check, on_raise}
use agent_trust_runtime.Value.{Value, text, Fields, dict, merge}
use agent_trust_runtime.Host.{Host}
use agent_trust_runtime.Models.{ToolIntent}
use agent_trust_runtime.Lifecycle.Session.{SessionStatus}
use agent_trust_runtime.Lifecycle.Call.{ToolCallStatus}
use agent_trust_runtime.Sessions.{
  AgentSession, SessionToolCall, transition_session, is_terminal_session, session_to_dict,
  create_tool_call, transition_tool_call, tool_call_to_dict, arguments_digest,
}
use agent_trust_runtime.Approvals.{ApprovalRequest, create_approval, approval_to_dict}
use agent_trust_runtime.Approvals.Review.{reviewable_arguments}
use agent_trust_runtime.Policy.{HookRule}
use agent_trust_runtime.RunTool.{ToolRunOutcome}

-- The attributes that an operation changes; `pending` is the set of the ids that wait.
pub record Governed (W : Type 0) : Type 0 where
  pub session : AgentSession
  pub sequence : ℕ
  pub pending : List String
  pub started : Bool
  pub active : Option SessionToolCall
  pub facts : List Fields
  pub completion_blocked : Bool
  pub world : W

-- The attributes that stay, and the ports.
pub record Setup (W : Type 0) : Type 0 where
  pub append : String → Fields → Exec W Fields
  pub journal : Option (Fields → Exec W (Unit {0}))
  pub now : Exec W String
  pub fresh_id : Exec W String
  pub runtime_mode : String
  pub simulation_allowed : Bool
  pub approval_ttl_seconds : Option Value
  pub final_answer_mode : String

pub record SessionToolRun : Type 0 where
  pub session : AgentSession
  pub tool_call : SessionToolCall
  pub outcome : ToolRunOutcome
  pub approval_request : Option ApprovalRequest

pub record FinalAnswerOutcome : Type 0 where
  pub completed : Bool
  pub completion_action : String

-- `set.discard` and `set.add`.
unfoldable pub discard : String → List String → List String
discard id [] = []
discard id (x ∷ xs) = let rest = discard id xs in if x == id then rest else x ∷ rest

unfoldable pub add : String → List String → List String
unfolding discard
add id ids = id ∷ discard id ids

unfoldable pub is_waiting : ToolCallStatus → Bool
is_waiting ToolCallStatus.waiting_approval = true
is_waiting status = false

unfoldable pub is_running : SessionStatus → Bool
is_running SessionStatus.running = true
is_running status = false

unfoldable pub is_session_waiting : SessionStatus → Bool
is_session_waiting SessionStatus.waiting_approval = true
is_session_waiting status = false

unfoldable pub is_completed : SessionStatus → Bool
is_completed SessionStatus.completed = true
is_completed status = false

-- What `execute` of the tool runner is given: the intent and the persisted response.
abbrev pub Runner : Type 0 → Type 0
Runner W = ToolIntent → Option String → Exec (Governed W) ToolRunOutcome

module _ {W : Type 0} where
  abbrev pub with_state : {A : Type 0} → (Governed W → Exec (Governed W) A) → Exec (Governed W) A
  with_state f s = f s s

  unfoldable pub modify : (Governed W → Governed W) → Exec (Governed W) (Unit {0})
  modify f s = (ok tt, f s)

  abbrev pub back : {A : Type 0} → Governed W → Result A × W → Result A × Governed W
  back s (r, w) = (r, record s { world = w })

  -- An action of a port, which cannot touch the attributes.
  unfoldable pub on_world : {A : Type 0} → Exec W A → Exec (Governed W) A
  on_world m s = back s (m s.world)

  -- `finally`: the active call is taken, whether the run returns or raises.
  abbrev pub release :
      {A : Type 0} → Result A × Governed W → Result (A × Option SessionToolCall) × Governed W
  release (ok a, s) = (ok (a, s.active), record s { active = none })
  release (raised e, s) = (raised e, record s { active = none })

  unfoldable pub taking :
      {A : Type 0} → Exec (Governed W) A → Exec (Governed W) (A × Option SessionToolCall)
  taking m s = release (m s)

-- The call that the run ends with: `_active_tool_call` is there unless it was never set.
unfoldable pub completed_call : String → Option SessionToolCall → Result SessionToolCall
completed_call message none = raised (runtime_error message)
completed_call message (some call) = ok call

module _ {W : Type 0} (setup : Setup W) where
  unfoldable pub emit : String → Fields → Exec (Governed W) Fields
  unfolding on_world
  emit kind payload = on_world (setup.append kind payload)

  -- `_transition_session`.
  unfoldable pub change_status : SessionStatus → Exec (Governed W) (Unit {0})
  unfolding modify emit is_completed
  change_status status = do
    now ← on_world setup.now
    next ← with_state λ s. lift (transition_session now s.session status none)
    modify λ s. record s { session = next }
    _ ← emit "session_status_changed" (session_to_dict next)
    when (is_completed status)
        (emit "session_completed" (dict (("run_id", text next.run_id) ∷ [])) >>= λ _. pure tt)

  -- `_reconcile_approval_waiting_status`.
  unfoldable pub reconcile : Exec (Governed W) (Unit {0})
  unfolding is_running is_session_waiting
  reconcile = with_state λ s.
      if is_terminal_session s.session
      then pure tt
      else if not (is_empty s.pending) && is_running s.session.status
      then change_status SessionStatus.waiting_approval
      else if is_empty s.pending && is_session_waiting s.session.status
      then change_status SessionStatus.running
      else pure tt

  unfoldable pub record_active : ToolCallStatus → SessionToolCall → Exec (Governed W) (Unit {0})
  unfolding reconcile
  record_active status call = do
    now ← on_world setup.now
    next ← lift (transition_tool_call now call status none)
    modify λ s. record s { active = some next }
    _ ← emit "tool_call_status_changed" (tool_call_to_dict next)
    modify λ s. record s {
      pending =
          if is_waiting status
          then add next.tool_call_id s.pending
          else discard next.tool_call_id s.pending;
    }
    reconcile

  -- `_record_tool_status`.
  unfoldable pub record_tool_status : ToolCallStatus → Exec (Governed W) (Unit {0})
  unfolding record_active
  record_tool_status status = with_state λ s. elim s.active [
    | none ↦ raise (runtime_error "tool call lifecycle event has no active tool call")
    | some call ↦ record_active status call
  ]

  -- `start`.
  unfoldable pub start : Exec (Governed W) AgentSession
  start = do
    with_state λ s. check (not s.started) (runtime_error "session has already started")
    _ ← with_state λ s. emit "session_created" (session_to_dict s.session)
    modify λ s. record s { started = true }
    change_status SessionStatus.running
    with_state λ s. pure s.session

  -- `except BaseException` around the tool runner.
  unfoldable pub fail_live : Exec (Governed W) (Unit {0})
  fail_live =
      with_state
        λ s. if is_terminal_session s.session then pure tt else change_status SessionStatus.failed

  unfoldable pub run_governed :
      Runner W
      → ToolIntent
      → Option String
      → Exec (Governed W) (ToolRunOutcome × Option SessionToolCall)
  unfolding taking fail_live
  run_governed runner intent response = taking (on_raise (runner intent response) fail_live)
