-- ===== src/Projection/Database.antt =====
-- adapters/evidence/sqlite_state.py: SQLiteStateProjection. Each public operation is one
-- transaction: where it raises, the tables are as they were. What reading a verified trace gave is
-- an argument.
use agent_trust_runtime.Base.{
  ℕ, suc, ◌+◌, String, Bool, true, false, ◌==◌, Option, none, some, List, [], ◌∷◌, length, leb,
  if◌then◌else◌, Result, ok, raised, attribute_error, ◌>>=◌,
}
use agent_trust_runtime.Base.Tables.{select, select_all, delete_where, order_by}
use agent_trust_runtime.Value.{Fields}
use agent_trust_runtime.Replay.{required_text}
use agent_trust_runtime.Projection.{
  SessionRow, ToolCallRow, ApprovalRow, EventRow, Tables, no_rows, of_run, of_approval, of_hash,
  insert_event,
}
use agent_trust_runtime.Projection.Handlers.{
  project_session_created, project_session_status, project_tool_call_requested,
  project_tool_call_status, project_approval_requested, project_approval_decided,
}

-- `handlers.get(event_type)`.
unfoldable pub handler_of : String → Option (Tables → Fields → String → Result Tables)
unfolding project_session_created project_session_status project_tool_call_requested
    project_tool_call_status project_approval_requested project_approval_decided
handler_of event_type =
    if event_type == "session_created"
    then some project_session_created
    else if event_type == "session_status_changed"
    then some project_session_status
    else if event_type == "tool_call_requested"
    then some project_tool_call_requested
    else if event_type == "tool_call_status_changed"
    then some project_tool_call_status
    else if event_type == "approval_requested"
    then some project_approval_requested
    else if event_type == "approval_decided"
    then some project_approval_decided
    else none

-- The handler, and then the row that says that the event was applied.
unfoldable pub apply_new :
    (Tables → Fields → String → Result Tables)
    → Tables
    → Fields
    → (event_type hash : String) → Result Tables
unfolding required_text insert_event
apply_new handler db event event_type hash = do
  next ← handler db event hash
  run_id ← required_text event "run_id"
  created_at ← required_text event "created_at"
  insert_event
      (record {
        event_hash = hash;
        run_id = run_id;
        event_type = event_type;
        created_at = created_at;
      })
      next

-- An event whose type has no handler, or whose hash is listed, changes nothing.
unfoldable pub apply_once :
    Tables
    → Fields
    → (event_type hash : String) → Option (Tables → Fields → String → Result Tables)
    → Option EventRow
    → Result (Bool × Tables)
unfolding apply_new
apply_once db event event_type hash none listed = ok (false, db)
apply_once db event event_type hash (some handler) (some row) = ok (false, db)
apply_once db event event_type hash (some handler) none = do
  next ← apply_new handler db event event_type hash
  ok (true, next)

-- `_apply_event`: whether the tables changed, and the tables.
unfoldable pub project_event : Tables → Fields → Result (Bool × Tables)
unfolding required_text handler_of select apply_once
project_event db event = do
  event_type ← required_text event "event_type"
  hash ← required_text event "event_hash"
  apply_once db event event_type hash (handler_of event_type)
      (select (of_hash hash) db.projection_events)

-- A transaction commits what it returns, and is rolled back where it raises.
abbrev pub committed : {A : Type 0} → Tables → Result (A × Tables) → Result A × Tables
committed db (ok (a, next)) = (ok a, next)
committed db (raised e) = (raised e, db)

unfoldable pub apply_event : Tables → Fields → Result Bool × Tables
unfolding project_event
apply_event db event = committed db (project_event db event)

-- The events of one trace, and how many of them changed the tables.
unfoldable pub project_all : Tables → List Fields → Result (ℕ × Tables)
unfolding project_event
project_all db [] = ok (0, db)
project_all db (event ∷ events) = do
  one ← project_event db event
  rest ← project_all one.1 events
  ok (if one.0 then suc rest.0 else rest.0, rest.1)

pub record StateRebuildResult : Type 0 where
  pub traces_scanned : ℕ
  pub runs_projected : ℕ
  pub events_projected : ℕ

-- The loop of `rebuild` over the traces: the runs and the events that were projected.
unfoldable pub project_traces : Tables → List (List Fields) → Result ((ℕ × ℕ) × Tables)
unfolding project_all
project_traces db [] = ok ((0, 0), db)
project_traces db (events ∷ traces) = do
  one ← project_all db events
  rest ← project_traces one.1 traces
  ok ((if leb 1 one.0 then suc rest.0.0 else rest.0.0, one.0 + rest.0.1), rest.1)

-- The four `DELETE` statements.
abbrev pub cleared : Tables → Tables
cleared db = no_rows

unfoldable pub rebuild : Tables → Result (List (List Fields)) → Result StateRebuildResult × Tables
unfolding project_traces
rebuild db (raised e) = (raised e, db)
rebuild db (ok traces) = committed db (do
  counts ← project_traces (cleared db) traces
  ok (
    record {
      traces_scanned = length traces;
      runs_projected = counts.0.0;
      events_projected = counts.0.1;
    },
    counts.1,
  ))

-- The four `DELETE` statements for one run.
unfoldable pub without_run : String → Tables → Tables
unfolding delete_where
without_run run db = record {
  sessions = delete_where (of_run run) db.sessions;
  tool_calls = delete_where (λ r. r.run_id == run) db.tool_calls;
  approvals = delete_where (λ r. r.run_id == run) db.approvals;
  projection_events = delete_where (λ r. r.run_id == run) db.projection_events;
}

unfoldable pub rebuild_run :
    Tables → (run_id : String) → Result (List Fields) → Result StateRebuildResult × Tables
unfolding without_run project_all
rebuild_run db run_id (raised e) = (raised e, db)
rebuild_run db run_id (ok events) = committed db (do
  counts ← project_all (without_run run_id db) events
  ok (
    record {
      traces_scanned = 1;
      runs_projected = if leb 1 counts.0 then 1 else 0;
      events_projected = counts.0;
    },
    counts.1,
  ))

unfoldable pub reset : Tables → Tables
reset db = cleared db

-- `_row_to_dict(row)`, which asks a missing row for its keys.
unfoldable pub row_to_dict : {A : Type 0} → Option A → Result A
row_to_dict none = raised (attribute_error "'NoneType' object has no attribute 'keys'")
row_to_dict (some r) = ok r

unfoldable pub get_session : Tables → (run_id : String) → Result SessionRow
unfolding row_to_dict select
get_session db run_id = row_to_dict (select (of_run run_id) db.sessions)

unfoldable pub get_approval : Tables → (approval_id : String) → Result ApprovalRow
unfolding row_to_dict select
get_approval db approval_id = row_to_dict (select (of_approval approval_id) db.approvals)

unfoldable pub list_tool_calls : Tables → (run_id : String) → List ToolCallRow
unfolding select_all order_by
list_tool_calls db run_id =
    order_by (λ a b. leb a.sequence b.sequence) (select_all (λ r. r.run_id == run_id) db.tool_calls)
