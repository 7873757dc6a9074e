-- ===== src/Projection.antt =====
-- adapters/evidence/sqlite_state.py: the tables and their constraints. A statement of SQL takes the
-- tables to tables, or raises and leaves them.
pub mod Handlers
pub mod Database
pub mod Once
pub mod Rows
pub mod Fits
pub mod Kept
pub mod Operations
use agent_trust_runtime.Base.{
  ℕ, zero, suc, String, Bool, true, false, not, ◌&&◌, ◌||◌, ◌==◌, Option, none, some, List, [], ◌∷◌,
  ◌++◌, any, is_none, is_some, ltb, eqb, one_of, if◌then◌else◌, Error, Result, ok, raised,
  value_error, sqlite_error, overflow_error, require, ◌>>=◌, ◌>>◌,
}
use agent_trust_runtime.Base.Tables.{select, count_where, update_where}
use agent_trust_runtime.Value.{ℤ, Value, integer, Fields, get_or_none}
use agent_trust_runtime.Lifecycle.Session.{
  SessionStatus, parse_session_status, assert_session_transition,
}
use agent_trust_runtime.Lifecycle.Call.{
  ToolCallStatus, parse_tool_call_status, assert_tool_call_transition,
}
use agent_trust_runtime.Replay.{required_text, optional_text}

pub record SessionRow : Type 0 where
  pub run_id : String
  pub session_id : String
  pub actor_id : String
  pub agent_id : Option String
  pub policy_version : Option String
  pub status : String
  pub created_at : String
  pub updated_at : String
  pub source_event_hash : String

pub record ToolCallRow : Type 0 where
  pub run_id : String
  pub tool_call_id : String
  pub session_id : String
  pub sequence : ℕ
  pub tool_name : String
  pub arguments_digest : String
  pub policy_rule_id : Option String
  pub status : String
  pub requested_at : String
  pub updated_at : String
  pub source_event_hash : String

pub record ApprovalRow : Type 0 where
  pub approval_id : String
  pub run_id : String
  pub tool_call_id : String
  pub tool_name : String
  pub arguments_digest : String
  pub policy_rule_id : Option String
  pub reason : String
  pub requested_at : String
  pub expires_at : Option String
  pub approver_id : Option String
  pub decision : String
  pub decision_reason : Option String
  pub decided_at : Option String
  pub source_event_hash : String

pub record EventRow : Type 0 where
  pub event_hash : String
  pub run_id : String
  pub event_type : String
  pub created_at : String

pub record Tables : Type 0 where
  pub sessions : List SessionRow
  pub tool_calls : List ToolCallRow
  pub approvals : List ApprovalRow
  pub projection_events : List EventRow

abbrev pub no_rows : Tables
no_rows = record { sessions = []; tool_calls = []; approvals = []; projection_events = [] }

-- The conditions of the statements.
abbrev pub of_run : String → SessionRow → Bool
of_run run r = r.run_id == run

abbrev pub of_call : (run id : String) → ToolCallRow → Bool
of_call run id r = (r.run_id == run) && (r.tool_call_id == id)

abbrev pub of_approval : String → ApprovalRow → Bool
of_approval id r = r.approval_id == id

abbrev pub of_hash : String → EventRow → Bool
of_hash hash r = r.event_hash == hash

-- The insertions, with the primary and the foreign keys of the schema.
unfoldable pub insert_session : SessionRow → Tables → Result Tables
unfolding select
insert_session row db = do
  require (is_none (select (of_run row.run_id) db.sessions))
      (sqlite_error "UNIQUE constraint failed")
  ok (record db { sessions = db.sessions ++ row ∷ [] })

unfoldable pub insert_tool_call : ToolCallRow → Tables → Result Tables
unfolding select
insert_tool_call row db = do
  require (is_none (select (of_call row.run_id row.tool_call_id) db.tool_calls))
      (sqlite_error "UNIQUE constraint failed")
  require (is_some (select (of_run row.run_id) db.sessions))
      (sqlite_error "FOREIGN KEY constraint failed")
  ok (record db { tool_calls = db.tool_calls ++ row ∷ [] })

unfoldable pub insert_approval : ApprovalRow → Tables → Result Tables
unfolding select
insert_approval row db = do
  require (is_none (select (of_approval row.approval_id) db.approvals))
      (sqlite_error "UNIQUE constraint failed")
  require (is_some (select (of_call row.run_id row.tool_call_id) db.tool_calls))
      (sqlite_error "FOREIGN KEY constraint failed")
  ok (record db { approvals = db.approvals ++ row ∷ [] })

unfoldable pub insert_event : EventRow → Tables → Result Tables
unfolding select
insert_event row db = do
  require (is_none (select (of_hash row.event_hash) db.projection_events))
      (sqlite_error "UNIQUE constraint failed")
  ok (record db { projection_events = db.projection_events ++ row ∷ [] })
