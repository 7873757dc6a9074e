-- ===== src/Projection/Fits.antt =====
-- adapters/evidence/sqlite_state.py: the rows fit together after every event.
use agent_trust_runtime.Base.{
  ℕ, ◌≤◌, ◌<◌, String, ◌≡◌, refl, sym, ◌∙◌, subst, Bool, true, false, ◌==◌, eq_iff, List, [], ◌∷◌,
  ◌++◌, is_some, is_none, arith, Result, ok, ◌>>=◌, ◌>>◌, >>=-ok, >>-ok, require, Error,
  value_error,
}
use agent_trust_runtime.Base.Tables.{select}
use agent_trust_runtime.Value.{Fields}
use agent_trust_runtime.Lifecycle.Session.{parse_session_status}
use agent_trust_runtime.Lifecycle.Call.{parse_tool_call_status}
use agent_trust_runtime.Replay.{required_text}
use agent_trust_runtime.Projection.{
  SessionRow, ToolCallRow, ApprovalRow, EventRow, Tables, of_run, of_call, insert_session,
  insert_tool_call, insert_approval, insert_event,
}
use agent_trust_runtime.Projection.Handlers.{
  integer_limit, positive, required_integer, session_row, created_session, known_session_status,
  known_call_status, tool_call_row, requested_call,
}
use agent_trust_runtime.Projection.Rows.{AllRows, AllRows-append, AllRows-map, select-append_old}

abbrev pub IsSessionRow : SessionRow → Type 0
IsSessionRow r = is_some (parse_session_status r.status) ≡ true

-- The sequence is a positive integer that SQLite holds, and the session of the run is there.
abbrev pub IsCallRow : List SessionRow → ToolCallRow → Type 0
IsCallRow sessions r =
    (1 ≤ r.sequence)
    × (r.sequence < integer_limit)
    × (is_some (parse_tool_call_status r.status) ≡ true)
    × (is_some (select (of_run r.run_id) sessions) ≡ true)

abbrev pub IsApprovalRow : List ToolCallRow → ApprovalRow → Type 0
IsApprovalRow calls r = is_some (select (of_call r.run_id r.tool_call_id) calls) ≡ true

abbrev pub RowsFit : Tables → Type 0
RowsFit db =
    AllRows IsSessionRow db.sessions
    × AllRows (IsCallRow db.sessions) db.tool_calls
    × AllRows (IsApprovalRow db.tool_calls) db.approvals

pub tables-eq : (a b : Tables) → ok a ≡ ok b → a ≡ b
tables-eq a b h = cc

-- What an insertion that succeeds has checked, and what it gives.
pub insert_session-ok :
    (row : SessionRow) (db next : Tables)
    → insert_session row db ≡ ok next
    → record db { sessions = db.sessions ++ row ∷ [] } ≡ next
unfolding insert_session
insert_session-ok row db next h = ground arith

pub insert_tool_call-ok :
    (row : ToolCallRow) (db next : Tables)
    → insert_tool_call row db ≡ ok next
    → (record db { tool_calls = db.tool_calls ++ row ∷ [] } ≡ next)
      × (is_some (select (of_run row.run_id) db.sessions) ≡ true)
unfolding insert_tool_call
insert_tool_call-ok row db next h = ground arith

pub insert_approval-ok :
    (row : ApprovalRow) (db next : Tables)
    → insert_approval row db ≡ ok next
    → (record db { approvals = db.approvals ++ row ∷ [] } ≡ next)
      × (is_some (select (of_call row.run_id row.tool_call_id) db.tool_calls) ≡ true)
unfolding insert_approval
insert_approval-ok row db next h = ground arith

pub insert_event-ok :
    (row : EventRow) (db next : Tables)
    → insert_event row db ≡ ok next
    → record db { projection_events = db.projection_events ++ row ∷ [] } ≡ next
unfolding insert_event
insert_event-ok row db next h = ground arith

pub insert_session-RowsFit :
    (row : SessionRow) (db next : Tables)
    → IsSessionRow row
    → insert_session row db ≡ ok next
    → RowsFit db
    → RowsFit next
insert_session-RowsFit row db next v h (s, t, a) = subst RowsFit (insert_session-ok row db next h) (
  AllRows-append IsSessionRow row db.sessions v s,
  AllRows-map (IsCallRow db.sessions) (IsCallRow (db.sessions ++ row ∷ [])) db.tool_calls
      (λ r (p, q, c, f). (p, q, c, select-append_old (of_run r.run_id) row db.sessions f)) t,
  a,
)

-- What the handlers write.
session_row-status :
    (run status hash : String) (event : Fields) (row : SessionRow)
    → session_row run status hash event ≡ ok row
    → row.status ≡ status
unfolding session_row
session_row-status run status hash event row h = ground arith

pub created_session-IsSessionRow :
    (db : Tables) (event : Fields) (hash : String) (row : SessionRow)
    → created_session db event hash ≡ ok row
    → IsSessionRow row
unfolding created_session parse_session_status
created_session-IsSessionRow db event hash row h =
    let (run, _, h1) = >>=-ok (required_text event "run_id") fresh h in
    let (_, h2) = >>-ok (absent run) (stated run) h1 in
    let (status, _, h3) = >>=-ok (required_text event "status") (written run) h2 in
    let (c, q) = >>-ok (is_created status) (session_row run status hash event) h3 in
    let known : status ≡ "created" = ground (arith, c, eq_iff status "created") in
    subst (λ t. is_some (parse_session_status t) ≡ true)
      (sym (session_row-status run status hash event row q ∙ known)) refl
  where
    is_created : String → Result (Unit {0})
    is_created status =
        require (status == "created") (value_error "session creation must have created status")

    written : String → String → Result SessionRow
    written run status = is_created status >> session_row run status hash event

    stated : String → Result SessionRow
    stated run = required_text event "status" >>= written run

    absent : String → Result (Unit {0})
    absent run =
        require (is_none (select (of_run run) db.sessions))
          (value_error "session already exists for run")

    fresh : String → Result SessionRow
    fresh run = absent run >> stated run

require-true : (b : Bool) (e : Error) → require b e ≡ ok tt → b ≡ true
require-true true e h = refl
require-true false e h = cc

text-eq : (a b : String) → ok a ≡ ok b → a ≡ b
text-eq a b h = cc

pub known_session_status-ok :
    (event : Fields) (status : String)
    → known_session_status event ≡ ok status
    → is_some (parse_session_status status) ≡ true
unfolding known_session_status
known_session_status-ok event status h = ground arith

pub known_call_status-ok :
    (event : Fields) (status : String)
    → known_call_status event ≡ ok status
    → is_some (parse_tool_call_status status) ≡ true
unfolding known_call_status
known_call_status-ok event status h =
    let (told, _, h1) = >>=-ok (required_text event "status") checked h in
    let (c, q) = >>-ok (is_known told) (ok told) h1 in
    subst (λ t. is_some (parse_tool_call_status t) ≡ true) (text-eq told status q)
      (require-true (is_some (parse_tool_call_status told)) _ c)
  where
    is_known : String → Result (Unit {0})
    is_known told =
        require (is_some (parse_tool_call_status told))
          (value_error "invalid tool call status in evidence")

    checked : String → Result String
    checked told = is_known told >> ok told

required_integer-positive :
    (event : Fields) (key : String) (n : ℕ) → required_integer event key ≡ ok n → 1 ≤ n
unfolding required_integer positive
required_integer-positive event key n h = ground arith

tool_call_row-bounds :
    (status hash : String) (event : Fields) (row : ToolCallRow)
    → tool_call_row status hash event ≡ ok row
    → (1 ≤ row.sequence) × (row.sequence < integer_limit) × (row.status ≡ status)
unfolding tool_call_row
tool_call_row-bounds status hash event row h =
    ground (arith, required_integer-positive event "sequence")

pub requested_call-IsRequested :
    (event : Fields) (hash : String) (row : ToolCallRow)
    → requested_call event hash ≡ ok row
    → (1 ≤ row.sequence)
      × (row.sequence < integer_limit)
      × (is_some (parse_tool_call_status row.status) ≡ true)
unfolding requested_call parse_tool_call_status
requested_call-IsRequested event hash row h =
    let (status, _, h1) = >>=-ok (required_text event "status") written h in
    let (c, q) = >>-ok (is_requested status) (tool_call_row status hash event) h1 in
    let known : status ≡ "requested" = ground (arith, c, eq_iff status "requested") in
    let (l, u, s) = tool_call_row-bounds status hash event row q in
    (l, u, subst (λ t. is_some (parse_tool_call_status t) ≡ true) (sym (s ∙ known)) refl)
  where
    is_requested : String → Result (Unit {0})
    is_requested status =
        require (status == "requested") (value_error "tool call request must have requested status")

    written : String → Result ToolCallRow
    written status = is_requested status >> tool_call_row status hash event
