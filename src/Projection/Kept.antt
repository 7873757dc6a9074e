-- ===== src/Projection/Kept.antt =====
-- adapters/evidence/sqlite_state.py: every operation leaves rows that fit together.
use agent_trust_runtime.Base.{
  String, ◌≡◌, refl, ◌∙◌, subst, Bool, true, false, ◌==◌, Option, none, some, [], ◌∷◌, ◌++◌,
  if◌then◌else◌, Result, ok, ◌>>=◌, >>=-ok,
}
use agent_trust_runtime.Base.Tables.{select, update_where}
use agent_trust_runtime.Value.{Fields}
use agent_trust_runtime.Replay.{required_text}
use agent_trust_runtime.Projection.{
  EventRow, Tables, of_hash, of_run, of_call, insert_session, insert_tool_call, insert_approval,
  insert_event,
}
use agent_trust_runtime.Projection.Handlers.{
  created_session, known_session_status, known_call_status, session_update, with_session_update,
  move_session, requested_call, tool_call_update, with_tool_call_update, move_call, approval_row,
  undecided, decide_row, row_decision, with_decision, project_session_created,
  project_session_status, project_tool_call_requested, project_tool_call_status,
  project_approval_requested, project_approval_decided,
}
use agent_trust_runtime.Projection.Rows.{
  AllRows-append, AllRows-map, AllRows-update, select-append_old, select-update,
}
use agent_trust_runtime.Projection.Database.{handler_of, apply_new, apply_once, project_event}
use agent_trust_runtime.Projection.Fits.{
  IsSessionRow, IsCallRow, IsApprovalRow, RowsFit, tables-eq, insert_tool_call-ok,
  insert_approval-ok, insert_event-ok, insert_session-RowsFit, created_session-IsSessionRow,
  known_session_status-ok, known_call_status-ok, requested_call-IsRequested,
}

-- Each handler.
project_session_created-RowsFit :
    (db next : Tables) (event : Fields) (hash : String)
    → RowsFit db
    → project_session_created db event hash ≡ ok next
    → RowsFit next
unfolding project_session_created
project_session_created-RowsFit db next event hash fit h =
    let (row, p, q) = >>=-ok (created_session db event hash) (λ row. insert_session row db) h in
    insert_session-RowsFit row db next (created_session-IsSessionRow db event hash row p) q fit

project_session_status-RowsFit :
    (db next : Tables) (event : Fields) (hash : String)
    → RowsFit db
    → project_session_status db event hash ≡ ok next
    → RowsFit next
unfolding project_session_status
project_session_status-RowsFit db next event hash (s, t, a) h =
    let (status, p, h1) = >>=-ok (known_session_status event) updated h in
    let ((run, at), _, q) =
      >>=-ok (session_update db event status) (λ u. ok (with_session_update hash status db u)) h1 in
    let known = known_session_status-ok event status p in
    let f = move_session status at hash in
    subst RowsFit (tables-eq (with_session_update hash status db (run, at)) next q) (
      AllRows-update IsSessionRow (of_run run) f db.sessions (λ r _. known) s,
      AllRows-map (IsCallRow db.sessions) (IsCallRow (update_where (of_run run) f db.sessions))
          db.tool_calls
          (λ r (l, u, c, e).
            (l, u, c, select-update (of_run r.run_id) (of_run run) f db.sessions (λ x. refl) ∙ e))
          t,
      a,
    )
  where
    updated : String → Result Tables
    updated status =
        session_update db event status >>= (λ u. ok (with_session_update hash status db u))

project_tool_call_requested-RowsFit :
    (db next : Tables) (event : Fields) (hash : String)
    → RowsFit db
    → project_tool_call_requested db event hash ≡ ok next
    → RowsFit next
unfolding project_tool_call_requested
project_tool_call_requested-RowsFit db next event hash (s, t, a) h =
    let (row, p, q) = >>=-ok (requested_call event hash) (λ row. insert_tool_call row db) h in
    let (l, u, c) = requested_call-IsRequested event hash row p in
    let (e, f) = insert_tool_call-ok row db next q in
    subst RowsFit e (
      s,
      AllRows-append (IsCallRow db.sessions) row db.tool_calls (l, u, c, f) t,
      AllRows-map (IsApprovalRow db.tool_calls) (IsApprovalRow (db.tool_calls ++ row ∷ []))
          db.approvals
          (λ r k. select-append_old (of_call r.run_id r.tool_call_id) row db.tool_calls k) a,
    )

project_tool_call_status-RowsFit :
    (db next : Tables) (event : Fields) (hash : String)
    → RowsFit db
    → project_tool_call_status db event hash ≡ ok next
    → RowsFit next
unfolding project_tool_call_status
project_tool_call_status-RowsFit db next event hash (s, t, a) h =
    let (status, p, h1) = >>=-ok (known_call_status event) updated h in
    let ((run, id, at), _, q) =
      >>=-ok (tool_call_update db event status) (λ u. ok (with_tool_call_update hash status db u))
        h1 in
    let known = known_call_status-ok event status p in
    let f = move_call status at hash in
    subst RowsFit (tables-eq (with_tool_call_update hash status db (run, id, at)) next q) (
      s,
      AllRows-update (IsCallRow db.sessions) (of_call run id) f db.tool_calls
          (λ r (l, u, _, e). (l, u, known, e)) t,
      AllRows-map (IsApprovalRow db.tool_calls)
          (IsApprovalRow (update_where (of_call run id) f db.tool_calls)) db.approvals
          (λ r k.
            select-update (of_call r.run_id r.tool_call_id) (of_call run id) f db.tool_calls
              (λ x. refl)
            ∙ k)
          a,
    )
  where
    updated : String → Result Tables
    updated status =
        tool_call_update db event status >>= (λ u. ok (with_tool_call_update hash status db u))

project_approval_requested-RowsFit :
    (db next : Tables) (event : Fields) (hash : String)
    → RowsFit db
    → project_approval_requested db event hash ≡ ok next
    → RowsFit next
unfolding project_approval_requested
project_approval_requested-RowsFit db next event hash (s, t, a) h =
    let (row, _, q) = >>=-ok (approval_row hash event) (λ row. insert_approval row db) h in
    let (e, f) = insert_approval-ok row db next q in
    subst RowsFit e (s, t, AllRows-append (IsApprovalRow db.tool_calls) row db.approvals f a)

project_approval_decided-RowsFit :
    (db next : Tables) (event : Fields) (hash : String)
    → RowsFit db
    → project_approval_decided db event hash ≡ ok next
    → RowsFit next
unfolding project_approval_decided
project_approval_decided-RowsFit db next event hash (s, t, a) h =
    let (d, _, q) = >>=-ok (row_decision db event) (λ d. ok (with_decision hash db d)) h in
    subst RowsFit (tables-eq (with_decision hash db d) next q) (
      s,
      t,
      AllRows-update (IsApprovalRow db.tool_calls) (undecided d.approval_id d.arguments_digest)
          (decide_row d.approver_id d.decision d.decision_reason d.decided_at hash) db.approvals
          (λ r k. k) a,
    )

-- A handler that keeps the rows fitting.
abbrev Keeps : (Tables → Fields → String → Result Tables) → Type 0
Keeps handler =
    (db next : Tables) (event : Fields) (hash : String)
    → RowsFit db
    → handler db event hash ≡ ok next
    → RowsFit next

abbrev KeepsIf : Option (Tables → Fields → String → Result Tables) → Type 0
KeepsIf none = Unit
KeepsIf (some handler) = Keeps handler

handler_of-Keeps : (event_type : String) → KeepsIf (handler_of event_type)
unfolding handler_of
handler_of-Keeps event_type =
    branch (event_type == "session_created") _ _ project_session_created-RowsFit (
      branch (event_type == "session_status_changed") _ _ project_session_status-RowsFit (
        branch (event_type == "tool_call_requested") _ _ project_tool_call_requested-RowsFit (
          branch (event_type == "tool_call_status_changed") _ _ project_tool_call_status-RowsFit (
            branch (event_type == "approval_requested") _ _ project_approval_requested-RowsFit (
              branch (event_type == "approval_decided") _ _ project_approval_decided-RowsFit tt)))))
  where
    branch :
        (b : Bool) (x y : Option (Tables → Fields → String → Result Tables))
        → KeepsIf x
        → KeepsIf y
        → KeepsIf (if b then x else y)
    branch true x y f g = f
    branch false x y f g = g

apply_new-RowsFit :
    (handler : Tables → Fields → String → Result Tables) (db next : Tables) (event : Fields)
    (event_type hash : String)
    → Keeps handler
    → RowsFit db
    → apply_new handler db event event_type hash ≡ ok next
    → RowsFit next
unfolding apply_new
apply_new-RowsFit handler db next event event_type hash keeps fit h =
    let (between, p, h1) = >>=-ok (handler db event hash) runs h in
    let (run_id, _, h2) = >>=-ok (required_text event "run_id") (times between) h1 in
    let (created_at, _, q) =
      >>=-ok (required_text event "created_at") (λ c. insert_event (row run_id c) between) h2 in
    subst RowsFit (insert_event-ok (row run_id created_at) between next q)
      (keeps db between event hash fit p)
  where
    row : String → String → EventRow
    row run_id created_at = record {
      event_hash = hash;
      run_id = run_id;
      event_type = event_type;
      created_at = created_at;
    }

    times : Tables → String → Result Tables
    times between run_id =
        required_text event "created_at" >>= (λ c. insert_event (row run_id c) between)

    runs : Tables → Result Tables
    runs between = required_text event "run_id" >>= times between

second :
    {A : Type 0} (a b : A) (x y : Tables)
    → ◌≡◌ {A = Result (A × Tables)} (ok (a, x)) (ok (b, y))
    → x ≡ y
second a b x y h = cc

apply_once-RowsFit :
    (db next : Tables) (event : Fields) (event_type hash : String)
    (o : Option (Tables → Fields → String → Result Tables)) (listed : Option EventRow)
    (changed : Bool)
    → KeepsIf o
    → RowsFit db
    → apply_once db event event_type hash o listed ≡ ok (changed, next)
    → RowsFit next
unfolding apply_once
apply_once-RowsFit db next event event_type hash none listed changed k fit h =
    subst RowsFit (second false changed db next h) fit
apply_once-RowsFit db next event event_type hash (some handler) (some row) changed k fit h =
    subst RowsFit (second false changed db next h) fit
apply_once-RowsFit db next event event_type hash (some handler) none changed k fit h =
    let (last, p, q) =
      >>=-ok (apply_new handler db event event_type hash) (λ next. ok (true, next)) h in
    subst RowsFit (second true changed last next q)
      (apply_new-RowsFit handler db last event event_type hash k fit p)

pub project_event-RowsFit :
    (db next : Tables) (event : Fields) (changed : Bool)
    → RowsFit db
    → project_event db event ≡ ok (changed, next)
    → RowsFit next
unfolding project_event
project_event-RowsFit db next event changed fit h =
    let (event_type, _, h1) = >>=-ok (required_text event "event_type") hashed h in
    let (hash, _, q) = >>=-ok (required_text event "event_hash") (done event_type) h1 in
    apply_once-RowsFit db next event event_type hash (handler_of event_type)
      (select (of_hash hash) db.projection_events) changed (handler_of-Keeps event_type) fit q
  where
    done : String → String → Result (Bool × Tables)
    done event_type hash =
        apply_once db event event_type hash (handler_of event_type)
          (select (of_hash hash) db.projection_events)

    hashed : String → Result (Bool × Tables)
    hashed event_type = required_text event "event_hash" >>= done event_type
