-- ===== src/Examples/Traces.antt =====
-- adapters/evidence/replay.py and sqlite_state.py: the trace of a session with one tool call.
use agent_trust_runtime.Base.{
  Result, raised, List, attribute_error, String, ◌≡◌, refl, eq_iff, arith, true, false, is_blank,
  none, some, [], ◌∷◌, ok,
}
use agent_trust_runtime.Value.{Value, text, object, Fields, field, dict, get}
use agent_trust_runtime.Lifecycle.Session.{
  SessionStatus, SessionStatus-discrete, session_transitions, parse_session_status,
}
use agent_trust_runtime.Lifecycle.Call.{ToolCallStatus}
use agent_trust_runtime.Sessions.{
  AgentSession, check_session, session_to_dict, SessionToolCall, tool_call_to_dict,
}
use agent_trust_runtime.Replay.Run.{nothing_replayed, ReplayedRunState, replay_all, replay_events}
use agent_trust_runtime.Replay.Run.Bound.{IsEvidenced, replay_events-IsEvidenced}
use agent_trust_runtime.Replay.Session.Lives.{after, replay_all-session_to_dict}
use agent_trust_runtime.Projection.{Tables, no_rows}
use agent_trust_runtime.Projection.Database.{apply_event, rebuild, rebuild_run, reset, get_session}
use agent_trust_runtime.Projection.Fits.{RowsFit}
use agent_trust_runtime.Projection.Operations.{operations-RowsFit}
use agent_trust_runtime.Projection.Once.{apply_event-again}
use agent_trust_runtime.Examples.Decisions.{host}

abbrev session : AgentSession
session = record {
  run_id = "run";
  actor_id = "actor";
  session_id = "session";
  created_at = "t0";
  updated_at = "t0";
  agent_id = none;
  policy_version = some "v1";
  status = SessionStatus.created;
}

abbrev call : SessionToolCall
call = record {
  run_id = "run";
  session_id = "session";
  tool_call_id = "call_001";
  sequence = 1;
  tool_name = "shell";
  arguments_digest = "{}";
  requested_at = "t0";
  updated_at = "t0";
  status = ToolCallStatus.requested;
  policy_rule_id = none;
}

-- An event of a type with a hash.
abbrev event : (event_type hash : String) → Fields → Fields
event event_type hash d = field "event_type" (text event_type) (field "event_hash" (text hash) d)

abbrev created : Fields
created = event "session_created" "h0" (session_to_dict session)

abbrev running : Fields
running =
    event "session_status_changed" "h1"
      (session_to_dict (record session { status = SessionStatus.running; updated_at = "t5" }))

abbrev call_event : Fields
call_event = event "tool_call_requested" "h2" (tool_call_to_dict call)

abbrev intended : Fields
intended = event "tool_intent" "h3" (
    dict (
      ("run_id", text "run")
      ∷ ("tool_call_id", text "call_001")
      ∷ ("tool_name", text "shell")
      ∷ ("arguments", object (dict (("command", text "ls") ∷ [])))
      ∷ []))

abbrev replayed : ReplayedRunState
replayed = record {
  session = record session { status = SessionStatus.running; updated_at = "t5" };
  tool_calls = call ∷ [];
  approvals = [];
  facts = [];
  arguments_by_tool_call = ("call_001", dict (("command", text "ls") ∷ [])) ∷ [];
}

replayed_run :
    replay_events host "now" (created ∷ running ∷ call_event ∷ intended ∷ []) "run" ≡ ok replayed
unfolding replay_events session_to_dict tool_call_to_dict
replayed_run = refl

replay_events-IsEvidenced_example : IsEvidenced host "run" replayed
replay_events-IsEvidenced_example =
    replay_events-IsEvidenced host "now" "run" (created ∷ running ∷ call_event ∷ intended ∷ [])
      replayed replayed_run

carried :
    (event_type hash k : String) (d : Fields) (v : Value)
    → get "event_type" d ≡ none
    → get "event_hash" d ≡ none
    → get k d ≡ some v
    → get k (event event_type hash d) ≡ some v
unfolding get
carried event_type hash k d v a b h = ground (arith, eq_iff "event_type" k, eq_iff "event_hash" k)

replay_all-session_to_dict_example :
    replay_all host "now" "run" nothing_replayed (created ∷ running ∷ [])
    ≡ ok (record nothing_replayed {
      session = some (after session ((SessionStatus.running, "t5") ∷ []));
    })
unfolding session_to_dict get check_session is_blank session_transitions SessionStatus-discrete
replay_all-session_to_dict_example =
    replay_all-session_to_dict host "now" session created ((SessionStatus.running, "t5") ∷ [])
      (running ∷ []) refl refl
      (refl, λ k v h. carried "session_created" "h0" k (session_to_dict session) v refl refl h)
      (
        refl,
        refl,
        (
          refl,
          λ k v h.
              carried "session_status_changed" "h1" k
                (session_to_dict
                  (record session { status = SessionStatus.running; updated_at = "t5" }))
                v refl refl h,
        ),
        tt,
      )

abbrev projected : Tables
projected = record {
  sessions =
      record {
        run_id = "run";
        session_id = "session";
        actor_id = "actor";
        agent_id = none;
        policy_version = some "v1";
        status = "created";
        created_at = "t0";
        updated_at = "t0";
        source_event_hash = "h0";
      }
      ∷ [];
  tool_calls = [];
  approvals = [];
  projection_events =
      record {
        event_hash = "h0";
        run_id = "run";
        event_type = "session_created";
        created_at = "t0";
      }
      ∷ [];
}

projected_run : apply_event no_rows created ≡ (ok true, projected)
unfolding apply_event session_to_dict
projected_run = refl

apply_event-again_example : apply_event projected created ≡ (ok false, projected)
apply_event-again_example = apply_event-again no_rows projected created projected_run

projected-RowsFit : RowsFit projected
unfolding parse_session_status
projected-RowsFit = ((refl, tt), tt, tt)

operations-RowsFit_example :
    ((e : Fields) → RowsFit (apply_event projected e).1)
    × ((traces : Result (List (List Fields))) → RowsFit (rebuild projected traces).1)
    × ((run : String) (events : Result (List Fields))
        → RowsFit (rebuild_run projected run events).1)
    × RowsFit (reset projected)
operations-RowsFit_example = operations-RowsFit projected projected-RowsFit

-- A run that no event projected is asked for a row that is not there.
missing_session_run :
    get_session projected "other"
    ≡ raised (attribute_error "'NoneType' object has no attribute 'keys'")
unfolding get_session
missing_session_run = refl
