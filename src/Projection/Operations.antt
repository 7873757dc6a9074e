-- ===== src/Projection/Operations.antt =====
-- adapters/evidence/sqlite_state.py: the public operations leave rows that fit together.
use agent_trust_runtime.Base.{
  ℕ, suc, ◌+◌, String, ◌≡◌, refl, ◌∙◌, subst, Bool, true, false, ◌==◌, eq_iff, List, [], ◌∷◌, leb,
  length, arith, if◌then◌else◌, Result, ok, raised, ◌>>=◌, >>=-ok,
}
use agent_trust_runtime.Base.Tables.{delete_where}
use agent_trust_runtime.Value.{Fields}
use agent_trust_runtime.Projection.{
  SessionRow, ToolCallRow, ApprovalRow, Tables, no_rows, of_run, of_call,
}
use agent_trust_runtime.Projection.Database.{
  project_event, committed, apply_event, project_all, project_traces, StateRebuildResult, cleared,
  rebuild, without_run, rebuild_run, reset,
}
use agent_trust_runtime.Projection.Rows.{AllRows-delete, AllRows-kept, select-delete}
use agent_trust_runtime.Projection.Fits.{IsSessionRow, IsCallRow, IsApprovalRow, RowsFit}
use agent_trust_runtime.Projection.Kept.{project_event-RowsFit}

tables-eq :
    {A : Type 0} (a b : A) (x y : Tables)
    → ◌≡◌ {A = Result (A × Tables)} (ok (a, x)) (ok (b, y))
    → x ≡ y
tables-eq a b x y h = cc

project_all-RowsFit :
    (db next : Tables) (events : List Fields) (n : ℕ)
    → RowsFit db
    → project_all db events ≡ ok (n, next)
    → RowsFit next
unfolding project_all
project_all-RowsFit db next [] n fit h = subst RowsFit (tables-eq 0 n db next h) fit
project_all-RowsFit db next (event ∷ events) n fit h =
    let ((changed, one), p, h1) = >>=-ok (project_event db event) others h in
    let ((k, rest), r, q) = >>=-ok (project_all one events) (counted changed) h1 in
    subst RowsFit (tables-eq (if changed then suc k else k) n rest next q)
      (project_all-RowsFit one rest events k (project_event-RowsFit db one event changed fit p) r)
  where
    counted : Bool → ℕ × Tables → Result (ℕ × Tables)
    counted changed rest = ok (if changed then suc rest.0 else rest.0, rest.1)

    others : Bool × Tables → Result (ℕ × Tables)
    others one = project_all one.1 events >>= counted one.0

project_traces-RowsFit :
    (db next : Tables) (traces : List (List Fields)) (counts : ℕ × ℕ)
    → RowsFit db
    → project_traces db traces ≡ ok (counts, next)
    → RowsFit next
unfolding project_traces
project_traces-RowsFit db next [] counts fit h =
    subst RowsFit (tables-eq (0, 0) counts db next h) fit
project_traces-RowsFit db next (events ∷ traces) counts fit h =
    let ((n, one), p, h1) = >>=-ok (project_all db events) others h in
    let (((runs, all), rest), r, q) = >>=-ok (project_traces one traces) (counted n) h1 in
    subst RowsFit (tables-eq (if leb 1 n then suc runs else runs, n + all) counts rest next q) (
      project_traces-RowsFit one rest traces (runs, all) (project_all-RowsFit db one events n fit p)
        r)
  where
    counted : ℕ → (ℕ × ℕ) × Tables → Result ((ℕ × ℕ) × Tables)
    counted n rest = ok ((if leb 1 n then suc rest.0.0 else rest.0.0, n + rest.0.1), rest.1)

    others : ℕ × Tables → Result ((ℕ × ℕ) × Tables)
    others one = project_traces one.1 traces >>= counted one.0

-- What a run's rows are for, the other runs' rows do not need.
without_run-RowsFit : (run : String) (db : Tables) → RowsFit db → RowsFit (without_run run db)
unfolding without_run
without_run-RowsFit run db (s, t, a) = (
  AllRows-delete IsSessionRow (of_run run) db.sessions s,
  AllRows-kept (IsCallRow db.sessions) (IsCallRow (delete_where (of_run run) db.sessions))
      (λ r. r.run_id == run) db.tool_calls
      (λ r e (l, u, c, f).
        (l, u, c, select-delete (of_run r.run_id) (of_run run) db.sessions (apart_session r e) ∙ f))
      t,
  AllRows-kept (IsApprovalRow db.tool_calls)
      (IsApprovalRow (delete_where (λ r. r.run_id == run) db.tool_calls)) (λ r. r.run_id == run)
      db.approvals
      (λ r e f.
        select-delete (of_call r.run_id r.tool_call_id) (λ r. r.run_id == run) db.tool_calls
          (apart_call r e)
        ∙ f)
      a,
)
  where
    apart_session :
        (r : ToolCallRow)
        → (r.run_id == run) ≡ false
        → (x : SessionRow) → of_run r.run_id x ≡ true
        → of_run run x ≡ false
    apart_session r e x h =
        ground (arith, eq_iff x.run_id r.run_id, eq_iff x.run_id run, eq_iff r.run_id run)

    apart_call :
        (r : ApprovalRow)
        → (r.run_id == run) ≡ false
        → (x : ToolCallRow) → of_call r.run_id r.tool_call_id x ≡ true
        → (x.run_id == run) ≡ false
    apart_call r e x h =
        ground (arith, eq_iff x.run_id r.run_id, eq_iff x.run_id run, eq_iff r.run_id run)

committed-RowsFit :
    {A : Type 0} (db : Tables) (m : Result (A × Tables))
    → RowsFit db
    → ((a : A) (next : Tables) → m ≡ ok (a, next) → RowsFit next)
    → RowsFit (committed db m).1
committed-RowsFit db (ok (a, next)) fit k = k a next refl
committed-RowsFit db (raised e) fit k = fit

rebuild-RowsFit :
    (db : Tables) (traces : Result (List (List Fields)))
    → RowsFit db
    → RowsFit (rebuild db traces).1
unfolding rebuild
rebuild-RowsFit db (raised e) fit = fit
rebuild-RowsFit db (ok traces) fit =
    committed-RowsFit db (project_traces (cleared db) traces >>= summed) fit (λ a next h.
      let ((counts, last), p, q) = >>=-ok (project_traces (cleared db) traces) summed h in
      subst RowsFit (tables-eq (total counts) a last next q)
        (project_traces-RowsFit no_rows last traces counts (tt, tt, tt) p))
  where
    total : ℕ × ℕ → StateRebuildResult
    total counts = record {
      traces_scanned = length traces;
      runs_projected = counts.0;
      events_projected = counts.1;
    }

    summed : (ℕ × ℕ) × Tables → Result (StateRebuildResult × Tables)
    summed counts = ok (total counts.0, counts.1)

rebuild_run-RowsFit :
    (db : Tables) (run : String) (events : Result (List Fields))
    → RowsFit db
    → RowsFit (rebuild_run db run events).1
unfolding rebuild_run
rebuild_run-RowsFit db run (raised e) fit = fit
rebuild_run-RowsFit db run (ok events) fit =
    committed-RowsFit db (project_all (without_run run db) events >>= summed) fit (λ a next h.
      let ((n, last), p, q) = >>=-ok (project_all (without_run run db) events) summed h in
      subst RowsFit (tables-eq (total n) a last next q)
        (project_all-RowsFit (without_run run db) last events n (without_run-RowsFit run db fit) p))
  where
    total : ℕ → StateRebuildResult
    total n = record {
      traces_scanned = 1;
      runs_projected = if leb 1 n then 1 else 0;
      events_projected = n;
    }

    summed : ℕ × Tables → Result (StateRebuildResult × Tables)
    summed counts = ok (total counts.0, counts.1)

-- Where the rows fit together before an operation, they do after it, whether it returns or raises:
-- every tool call has the session of its run and every approval its tool call, every status is one
-- of the lifecycle's, and every sequence is positive and below 2 ^ 63.
pub operations-RowsFit :
    (db : Tables)
    → RowsFit db
    → ((event : Fields) → RowsFit (apply_event db event).1)
      × ((traces : Result (List (List Fields))) → RowsFit (rebuild db traces).1)
      × ((run : String) (events : Result (List Fields)) → RowsFit (rebuild_run db run events).1)
      × RowsFit (reset db)
unfolding apply_event reset
operations-RowsFit db fit = (
  (λ event.
      committed-RowsFit db (project_event db event) fit
        (λ changed next h. project_event-RowsFit db next event changed fit h)),
  (λ traces. rebuild-RowsFit db traces fit),
  (λ run events. rebuild_run-RowsFit db run events fit),
  (tt, tt, tt),
)
