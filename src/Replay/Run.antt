-- ===== src/Replay/Run.antt =====
-- adapters/evidence/replay.py: `replay_events`, a handler for each type of event, and the checks at
-- the end of a trace.
pub mod Invariant
pub mod Sorting
pub mod Steps
pub mod Bound
use agent_trust_runtime.Base.{
  ℕ, String, Bool, true, false, not, ◌&&◌, ◌||◌, ◌==◌, Option, none, some, List, [], ◌∷◌, ◌++◌, any,
  is_none, is_some, leb, if◌then◌else◌, Error, Result, ok, raised, value_error, require, ◌>>=◌,
  ◌>>◌,
}
use agent_trust_runtime.Base.Dict.{lookup, put, values}
use agent_trust_runtime.Value.{
  Value, Values, nil, cons, array, object, Fields, get_or_none, same_dict,
}
use agent_trust_runtime.Host.{Host}
use agent_trust_runtime.Sessions.{AgentSession, SessionToolCall, arguments_digest}
use agent_trust_runtime.Approvals.{ApprovalRequest}
use agent_trust_runtime.Facts.{Fact}
use agent_trust_runtime.Replay.{
  required_text, session_from_event, tool_call_from_event, approval_from_event, fact_from_event,
}
use agent_trust_runtime.Replay.Entities.{
  apply_session_event, apply_tool_call_event, apply_approval_event,
}

-- The variables of the loop.
pub record ReplayState : Type 0 where
  pub session : Option AgentSession
  pub tool_calls : List (String × SessionToolCall)
  pub approvals : List (String × ApprovalRequest)
  pub arguments_by_tool_call : List (String × Fields)
  pub facts : List Fact

abbrev pub nothing_replayed : ReplayState
nothing_replayed = record {
  session = none;
  tool_calls = [];
  approvals = [];
  arguments_by_tool_call = [];
  facts = [];
}

pub record ReplayedRunState : Type 0 where
  pub session : AgentSession
  pub tool_calls : List SessionToolCall
  pub approvals : List ApprovalRequest
  pub facts : List Fact
  pub arguments_by_tool_call : List (String × Fields)

-- `ReplayedRunState.arguments_for`.
unfoldable pub arguments_for : ReplayedRunState → SessionToolCall → Result Fields
unfolding lookup
arguments_for r c = elim (lookup c.tool_call_id r.arguments_by_tool_call) [
  | none ↦ raised (value_error "tool call has no persisted tool intent")
  | some d ↦ ok d
]

-- A value that must be there.
abbrev pub present : {A : Type 0} → Option A → Error → Result A
present none e = raised e
present (some a) e = ok a

-- `sorted(tool_calls.values(), key=lambda item: item.sequence)`, which is stable.
unfoldable pub insert_call : SessionToolCall → List SessionToolCall → List SessionToolCall
insert_call c [] = c ∷ []
insert_call c (d ∷ ds) =
    let rest = insert_call c ds in if leb c.sequence d.sequence then c ∷ d ∷ ds else d ∷ rest

unfoldable pub sort_calls : List SessionToolCall → List SessionToolCall
unfolding insert_call
sort_calls [] = []
sort_calls (c ∷ cs) = insert_call c (sort_calls cs)

-- `isinstance(value, list)`.
abbrev as_list : Value → Option Values
as_list (array xs) = some xs
as_list _ = none

-- `isinstance(value, Mapping)` with texts for keys.
abbrev as_mapping : Value → Option Fields
as_mapping (object d) = some d
as_mapping _ = none

unfoldable pub facts_from_event : Values → Result (List Fact)
unfolding fact_from_event
facts_from_event nil = ok []
facts_from_event (cons raw rest) = do
  fact ← fact_from_event raw
  facts ← facts_from_event rest
  ok (fact ∷ facts)

-- `previous_arguments is not None and previous_arguments != arguments`.
unfoldable pub conflicts : Option Fields → Fields → Bool
unfolding same_dict
conflicts none arguments = false
conflicts (some previous) arguments = not (same_dict previous arguments)

-- `requested_tool_call is not None and requested_tool_call.tool_name != tool_name`.
unfoldable pub names_other_tool : Option SessionToolCall → String → Bool
names_other_tool none tool_name = false
names_other_tool (some c) tool_name = not (c.tool_name == tool_name)

-- The handlers of the loop's branches, one for each type of event.
unfoldable pub on_session_created : ReplayState → Fields → Result ReplayState
unfolding session_from_event
on_session_created st event = do
  require (is_none st.session) (value_error "run contains multiple session_created events")
  session ← session_from_event event
  ok (record st { session = some session })

-- What a request must satisfy beside what is known.
unfoldable pub admit_tool_call : AgentSession → ReplayState → SessionToolCall → Result (Unit {0})
unfolding lookup
admit_tool_call session st c = do
  require ((c.run_id == session.run_id) && (c.session_id == session.session_id))
      (value_error "tool call request does not belong to the reconstructed session")
  require (is_none (lookup c.tool_call_id st.tool_calls))
      (value_error "run contains duplicate tool call")

unfoldable pub on_tool_call_requested : ReplayState → Fields → Result ReplayState
unfolding tool_call_from_event admit_tool_call put
on_tool_call_requested st event = do
  session ← present st.session (value_error "tool call request precedes session creation")
  c ← tool_call_from_event event
  admit_tool_call session st c
  ok (record st { tool_calls = put c.tool_call_id c st.tool_calls })

-- The call and the arguments of an intent that fits what is known.
unfoldable pub recorded_intent : ReplayState → Fields → Result (String × Fields)
unfolding required_text get_or_none lookup conflicts names_other_tool
recorded_intent st event = do
  tool_call_id ← required_text event "tool_call_id"
  tool_name ← required_text event "tool_name"
  arguments ←
      present (as_mapping (get_or_none "arguments" event))
        (value_error "tool intent has invalid arguments")
  require (not (conflicts (lookup tool_call_id st.arguments_by_tool_call) arguments))
      (value_error "tool call has conflicting persisted arguments")
  require (not (names_other_tool (lookup tool_call_id st.tool_calls) tool_name))
      (value_error "tool intent does not match the requested tool name")
  ok (tool_call_id, arguments)

unfoldable pub on_tool_intent : ReplayState → Fields → Result ReplayState
unfolding recorded_intent put
on_tool_intent st event = do
  intent ← recorded_intent st event
  ok (record st { arguments_by_tool_call = put intent.0 intent.1 st.arguments_by_tool_call })

unfoldable pub mapped_facts : Fields → Result (List Fact)
unfolding get_or_none facts_from_event
mapped_facts event = do
  raw ←
      present (as_list (get_or_none "facts" event))
        (value_error "fact_mapped event requires a facts list")
  facts_from_event raw

unfoldable pub on_fact_mapped : ReplayState → Fields → Result ReplayState
unfolding mapped_facts
on_fact_mapped st event = do
  facts ← mapped_facts event
  ok (record st { facts = st.facts ++ facts })

-- What an approval's request must satisfy beside what is known.
unfoldable pub admit_approval :
    (run_id : String) → ReplayState → ApprovalRequest → Result (Unit {0})
unfolding lookup
admit_approval run_id st a = do
  require ((a.run_id == run_id) && is_none (lookup a.approval_id st.approvals))
      (value_error "run contains an invalid approval request")
  c ←
      present (lookup a.tool_call_id st.tool_calls)
        (value_error "approval does not match a requested tool call")
  require (c.tool_name == a.tool_name) (value_error "approval does not match a requested tool call")
  require (c.arguments_digest == a.arguments_digest)
      (value_error "approval does not match tool arguments")
  require (not (any (λ item. item.tool_call_id == a.tool_call_id) (values st.approvals)))
      (value_error "tool call has multiple approval requests")

module _ (host : Host) (now : String) where
  unfoldable pub on_session_status_changed : ReplayState → Fields → Result ReplayState
  unfolding apply_session_event
  on_session_status_changed st event = do
    session ← present st.session (value_error "session status event precedes session creation")
    next ← apply_session_event now session event
    ok (record st { session = some next })

  unfoldable pub on_tool_call_status_changed : ReplayState → Fields → Result ReplayState
  unfolding required_text lookup put apply_tool_call_event
  on_tool_call_status_changed st event = do
    tool_call_id ← required_text event "tool_call_id"
    c ←
        present (lookup tool_call_id st.tool_calls)
          (value_error "tool call status references an unknown call")
    next ← apply_tool_call_event now host c event
    ok (record st { tool_calls = put tool_call_id next st.tool_calls })

  unfoldable pub on_approval_requested :
      (run_id : String) → ReplayState → Fields → Result ReplayState
  unfolding approval_from_event admit_approval put
  on_approval_requested run_id st event = do
    a ← approval_from_event host event
    admit_approval run_id st a
    ok (record st { approvals = put a.approval_id a st.approvals })

  unfoldable pub on_approval_decided : ReplayState → Fields → Result ReplayState
  unfolding required_text lookup put apply_approval_event
  on_approval_decided st event = do
    approval_id ← required_text event "approval_id"
    a ←
        present (lookup approval_id st.approvals)
          (value_error "approval decision references an unknown approval")
    next ← apply_approval_event now host a event
    ok (record st { approvals = put approval_id next st.approvals })

  -- One branch for each type of event; the others change nothing.
  unfoldable pub dispatch : (event_type run_id : String) → ReplayState → Fields → Result ReplayState
  unfolding on_session_created on_session_status_changed on_tool_call_requested
      on_tool_call_status_changed on_tool_intent on_approval_requested on_approval_decided
      on_fact_mapped
  dispatch event_type run_id st event =
      if event_type == "session_created"
      then on_session_created st event
      else if event_type == "session_status_changed"
      then on_session_status_changed st event
      else if event_type == "tool_call_requested"
      then on_tool_call_requested st event
      else if event_type == "tool_call_status_changed"
      then on_tool_call_status_changed st event
      else if event_type == "tool_intent"
      then on_tool_intent st event
      else if event_type == "approval_requested"
      then on_approval_requested run_id st event
      else if event_type == "approval_decided"
      then on_approval_decided st event
      else if event_type == "fact_mapped"
      then on_fact_mapped st event
      else ok st

  -- A round of the loop.
  unfoldable pub replay_event :
      (expected_run_id : String) → ReplayState → Fields → Result ReplayState
  unfolding required_text dispatch
  replay_event expected_run_id st event = do
    run_id ← required_text event "run_id"
    require (run_id == expected_run_id)
        (value_error "evidence event run_id does not match run directory")
    event_type ← required_text event "event_type"
    dispatch event_type run_id st event

  unfoldable pub replay_all :
      (expected_run_id : String) → ReplayState → List Fields → Result ReplayState
  unfolding replay_event
  replay_all expected_run_id st [] = ok st
  replay_all expected_run_id st (event ∷ events) = do
    next ← replay_event expected_run_id st event
    replay_all expected_run_id next events

  -- The loop over the tool calls at the end.
  unfoldable pub check_intents :
      List (String × Fields) → List (String × SessionToolCall) → Result (Unit {0})
  unfolding lookup arguments_digest
  check_intents recorded [] = ok tt
  check_intents recorded ((tool_call_id, c) ∷ cs) = do
    arguments ←
        present (lookup tool_call_id recorded)
          (value_error "tool call has no persisted tool intent")
    digest ← arguments_digest host arguments
    require (digest == c.arguments_digest)
        (value_error "tool call arguments do not match its recorded digest")
    check_intents recorded cs

  unfoldable pub replay_events : List Fields → (expected_run_id : String) → Result ReplayedRunState
  unfolding replay_all check_intents sort_calls
  replay_events events expected_run_id = do
    st ← replay_all expected_run_id nothing_replayed events
    session ← present st.session (value_error "run has no session_created event")
    check_intents st.arguments_by_tool_call st.tool_calls
    ok (record {
      session = session;
      tool_calls = sort_calls (values st.tool_calls);
      approvals = values st.approvals;
      facts = st.facts;
      arguments_by_tool_call = st.arguments_by_tool_call;
    })
