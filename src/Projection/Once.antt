-- ===== src/Projection/Once.antt =====
-- adapters/evidence/sqlite_state.py: an event that was applied changes nothing a second time.
use agent_trust_runtime.Base.{
  String, ◌≡◌, refl, ap, ◌∙◌, subst, Bool, true, false, eq_refl, Option, none, some, List, [], ◌∷◌,
  ◌++◌, is_some, arith, Result, ok, raised, ◌>>=◌, >>=-ok,
}
use agent_trust_runtime.Base.Tables.{select}
use agent_trust_runtime.Value.{Fields}
use agent_trust_runtime.Replay.{required_text}
use agent_trust_runtime.Projection.{Tables, EventRow, of_hash, insert_event}
use agent_trust_runtime.Projection.Database.{
  handler_of, apply_new, apply_once, project_event, committed, apply_event,
}

pub select-append {ℓ} :
    {A : Type ℓ} (p : A → Bool) (r : A) (rs : List A)
    → p r ≡ true
    → is_some (select p (rs ++ r ∷ [])) ≡ true
unfolding select
select-append p r [] h = rw h
select-append p r (s ∷ rs) h = ground (arith, select-append p r rs h)

insert_event-listed :
    (row : EventRow) (db next : Tables)
    → insert_event row db ≡ ok next
    → is_some (select (of_hash row.event_hash) next.projection_events) ≡ true
unfolding insert_event
insert_event-listed row db next h = ground (
  arith,
  select-append (of_hash row.event_hash) row db.projection_events (eq_refl row.event_hash),
)

apply_new-listed :
    (handler : Tables → Fields → String → Result Tables) (db next : Tables) (event : Fields)
    (event_type hash : String)
    → apply_new handler db event event_type hash ≡ ok next
    → is_some (select (of_hash hash) next.projection_events) ≡ true
unfolding apply_new
apply_new-listed handler db next event event_type hash h =
    let (between, _, h1) = >>=-ok (handler db event hash) runs h in
    let (run_id, _, h2) = >>=-ok (required_text event "run_id") (times between) h1 in
    let (created_at, _, q) =
      >>=-ok (required_text event "created_at") (λ c. insert_event (row run_id c) between) h2 in
    insert_event-listed (row run_id created_at) between next q
  where
    row : String → String → EventRow
    row run_id created_at = record {
      event_hash = hash;
      run_id = run_id;
      event_type = event_type;
      created_at = created_at;
    }

    times : Tables → String → Result Tables
    times between run_id =
        required_text event "created_at" >>= (λ c. insert_event (row run_id c) between)

    runs : Tables → Result Tables
    runs between = required_text event "run_id" >>= times between

pair-eq :
    (b c : Bool) (x y : Tables)
    → ◌≡◌ {A = Result (Bool × Tables)} (ok (b, x)) (ok (c, y))
    → (b ≡ c) × (x ≡ y)
pair-eq b c x y h = (cc, cc)

apply_once-again :
    (db next : Tables) (event : Fields) (event_type hash : String)
    (o : Option (Tables → Fields → String → Result Tables)) (row : Option EventRow)
    → apply_once db event event_type hash o row ≡ ok (true, next)
    → apply_once next event event_type hash o (select (of_hash hash) next.projection_events)
      ≡ ok (false, next)
unfolding apply_once
apply_once-again db next event event_type hash none row h = cc
apply_once-again db next event event_type hash (some handler) (some row) h = cc
apply_once-again db next event event_type hash (some handler) none h =
    let (last, p, q) =
      >>=-ok (apply_new handler db event event_type hash) (λ next. ok (true, next)) h in
    let listed =
      subst (λ d. is_some (select (of_hash hash) d.projection_events) ≡ true)
        (pair-eq true true last next q).1
        (apply_new-listed handler db last event event_type hash p) in
    go (select (of_hash hash) next.projection_events) refl listed
  where
    go :
        (o : Option EventRow)
        → select (of_hash hash) next.projection_events ≡ o
        → is_some o ≡ true
        → apply_once next event event_type hash (some handler) o ≡ ok (false, next)
    go none e l = cc
    go (some r) e l = refl

-- An event that changed the tables changes nothing when it is apply_once again.
project_event-again :
    (db next : Tables) (event : Fields)
    → project_event db event ≡ ok (true, next)
    → project_event next event ≡ ok (false, next)
unfolding project_event
project_event-again db next event h =
    let (event_type, t, h1) = >>=-ok (required_text event "event_type") (hashed db) h in
    let (hash, g, q) = >>=-ok (required_text event "event_hash") (done db event_type) h1 in
    ap (λ m. m >>= hashed next) t
    ∙ ap (λ m. m >>= done next event_type) g
    ∙ apply_once-again db next event event_type hash (handler_of event_type)
        (select (of_hash hash) db.projection_events) q
  where
    done : Tables → String → String → Result (Bool × Tables)
    done d event_type hash =
        apply_once d event event_type hash (handler_of event_type)
          (select (of_hash hash) d.projection_events)

    hashed : Tables → String → Result (Bool × Tables)
    hashed d event_type = required_text event "event_hash" >>= done d event_type

ok-eq : (a b : Bool) → ok a ≡ ok b → a ≡ b
ok-eq a b h = cc

committed-true :
    (db next : Tables) (m : Result (Bool × Tables))
    → committed db m ≡ (ok true, next)
    → m ≡ ok (true, next)
committed-true db next (ok (b, d)) h =
    let p : ◌≡◌ {A = Result Bool} (ok b) (ok true) = ap (λ x. x.0) h in
    let q : d ≡ next = ap (λ x. x.1) h in rw (ok-eq b true p, q)
committed-true db next (raised e) h =
    let p : ◌≡◌ {A = Result Bool} (raised e) (ok true) = ap (λ x. x.0) h in cc p

-- An event that changed the tables is applied once: applied again, it is reported as no change and
-- the tables stay as they are.
pub apply_event-again :
    (db next : Tables) (event : Fields)
    → apply_event db event ≡ (ok true, next)
    → apply_event next event ≡ (ok false, next)
unfolding apply_event
apply_event-again db next event h =
    ap (committed next) (project_event-again db next event (committed-true db next _ h))
