-- ===== src/Trace/Recorder.antt =====
-- adapters/evidence/jsonl_store.py: `TraceRecorder`. The state is the run directory's trace and head
-- file with the cached head; the context and the run's name are fixed. A file's size and time after a
-- write, the clock, the fresh `uuid4` name, the errors of a write and what a line reads back as are
-- arguments. Errors of the file system while the head is loaded are not modelled.
pub mod Appends
pub mod Loads
pub mod Writes
pub mod Sound
use agent_trust_runtime.Base.{
  ℕ, zero, suc, ◌+◌, ◌%◌, String, Bool, true, false, not, ◌&&◌, ◌||◌, Option, none, some, List, [],
  ◌∷◌, ◌++◌, ◌==◌, eqb, is_none, is_some, is_empty, if◌then◌else◌, Error, Result, ok, raised,
  value_error, require,
}
use agent_trust_runtime.Exec.{Exec, pure, raise, lift, ◌>>=◌, ◌>>◌, when, check}
use agent_trust_runtime.Value.{
  ℤ, Value, null, integer, text, object, Fields, end, field, dict, opt_text, number, get,
  get_or_none, set, merge, same,
}
use agent_trust_runtime.Host.{Host}
use agent_trust_runtime.Protocol.{as_text}
use agent_trust_runtime.Trace.{
  evidence_schema_version, Verification, valid, invalid, event_hash, verify_events,
}

-- A file's size and modification time.
pub record Stat : Type 0 where
  pub size : ℕ
  pub mtime_ns : ℕ

-- A trace head: the content of `trace-head.json`, and the cached value.
pub record Head : Type 0 where
  pub event_count : ℕ
  pub head_hash : Option String
  pub trace_size : ℕ
  pub trace_mtime_ns : ℕ

pub record Trace : Type 0 where
  pub events : List Fields
  pub stat : Stat

pub record Store : Type 0 where
  pub trace : Option Trace
  -- What `_read_head` finds: a head file that is missing or malformed is `none`.
  pub stored_head : Option Head
  pub cache : Option Head

abbrev pub same_stat : Head → Stat → Bool
same_stat head stat = eqb head.trace_size stat.size && eqb head.trace_mtime_ns stat.mtime_ns

-- `_read_last_event`.
unfoldable pub read_last_event : List Fields → Option Fields
read_last_event [] = none
read_last_event (event ∷ []) = some event
read_last_event (event ∷ next ∷ rest) = read_last_event (next ∷ rest)

-- The last event has the head's hash and its count as sequence.
unfoldable pub last_event_matches : Head → Option Fields → Bool
last_event_matches head none = false
last_event_matches head (some event) =
    same (get_or_none "event_hash" event) (opt_text head.head_hash)
    && same (get_or_none "event_sequence" event) (number head.event_count)

-- `_head_matches_trace`.
unfoldable pub head_matches_trace : Head → Trace → Bool
unfolding read_last_event last_event_matches
head_matches_trace head trace =
    same_stat head trace.stat
    && (if eqb head.event_count 0
        then eqb trace.stat.size 0 && is_none head.head_hash
        else last_event_matches head (read_last_event trace.events))

-- `_current_head`.
abbrev pub current_head : ℕ → Option String → Stat → Head
current_head event_count head_hash stat = record {
  event_count = event_count;
  head_hash = head_hash;
  trace_size = stat.size;
  trace_mtime_ns = stat.mtime_ns;
}

abbrev pub envelope_fields : List String
envelope_fields =
    "schema_version" ∷ "event_id" ∷ "event_sequence" ∷ "event_type" ∷ "subject" ∷ "payload"
    ∷ "previous_hash" ∷ "event_hash" ∷ []

-- `_ENVELOPE_FIELDS.intersection(context)`, as a test.
unfoldable pub overrides : List String → Fields → Bool
overrides [] context = false
overrides (key ∷ keys) context = is_some (get key context) || overrides keys context

-- The subject: the identities in the context that are not `None`.
unfoldable pub subject_of : List String → Fields → Fields
subject_of [] context = end
subject_of (key ∷ keys) context =
    let rest = subject_of keys context in
    elim (get_or_none key context) [ null ↦ rest | value ↦ field key value rest ]

-- `context.get(key, default)`, where only a non-empty string will do.
unfoldable pub nonempty_text : Option Value → String → Error → Result String
nonempty_text none default e = if default == "" then raised e else ok default
nonempty_text (some (text s)) default e = if s == "" then raised e else ok s
nonempty_text (some v) default e = raised e

-- How the write of an event ends. The file cannot be opened, and nothing is written; or the line is
-- in the file, and then `fsync` or the `stat` after it raises; or `_write_head` raises, where a head is
-- stored; or all is well. A write that stops within its line is not modelled.
pub data Ending : Type 0 where
  written : Ending
  unopened unsynced unsaved : Error → Ending

-- What surrounds an append: the clock, the event's fresh name, the file after the write, the ending.
pub record Moment : Type 0 where
  pub now : String
  pub event_id : String
  pub stat : Stat
  pub ending : Ending

-- The head of a trace that is not there.
abbrev pub no_head : Head
no_head = record { event_count = 0; head_hash = none; trace_size = 0; trace_mtime_ns = 0 }

abbrev pub events_of : Option Trace → List Fields
events_of none = []
events_of (some trace) = trace.events

-- A head is stored at the first event and every 64th.
abbrev pub is_checkpoint : ℕ → Bool
is_checkpoint count = eqb count 1 || eqb (count % 64) 0

-- The trace with one more line, given as what it reads back as.
abbrev pub with_line : Fields → Stat → Store → Store
with_line line stat s = record s {
  trace = some (record { events = events_of s.trace ++ line ∷ []; stat = stat });
}

-- The write: one more line, the new head cached, and stored at a checkpoint. `reload` gives what
-- `json.loads` reads in the line that `json.dumps` makes of the event; it was serialized before, for
-- its hash.
unfoldable pub write_event : (reload : Fields → Fields) → Moment → Fields → Head → Exec Store Fields
write_event reload m event head s =
    let count = head.event_count + 1 in
    let next = current_head count (as_text (get_or_none "event_hash" event)) m.stat in
    let added = with_line (reload event) m.stat s in
    let cached : Store = record added { cache = some next } in
    elim m.ending [
      | unopened e ↦ (raised e, s)
      | unsynced e ↦ (raised e, added)
      | unsaved e ↦ if is_checkpoint count then (raised e, cached) else (ok event, cached)
      | written ↦ (
        ok event,
        record cached { stored_head = if is_checkpoint count then some next else s.stored_head },
      )
    ]

module _ (host : Host) where
  -- The hash of the event is its last entry.
  unfoldable pub seal_event : Result Fields → Result Fields
  unfolding event_hash set
  seal_event (raised e) = raised e
  seal_event (ok event) = elim (event_hash host event) [
    | raised e ↦ raised e
    | ok hash ↦ ok (set "event_hash" (text hash) event)
  ]

  -- `_rebuild_head`: the trace is verified from its start, and its head stored and cached.
  unfoldable pub rebuild_head : Trace → Exec Store Head
  unfolding verify_events
  rebuild_head trace s = elim (verify_events host trace.events) [
    | raised e ↦ (raised e, s)
    | ok (invalid index reason) ↦
        (raised (value_error "cannot append to invalid evidence trace"), s)
    | ok (valid event_count head_hash) ↦
        let head = current_head event_count head_hash trace.stat in
        (ok head, record s { stored_head = some head; cache = some head })
  ]

  -- The stored head, if it matches the trace, and else a new one.
  unfoldable pub stored_or_rebuilt : Option Head → Trace → Exec Store Head
  unfolding head_matches_trace rebuild_head
  stored_or_rebuilt none trace s = rebuild_head trace s
  stored_or_rebuilt (some head) trace s =
      if head_matches_trace head trace
      then (ok head, record s { cache = some head })
      else rebuild_head trace s

  unfoldable pub head_of_trace : Option Head → Trace → Exec Store Head
  unfolding stored_or_rebuilt
  head_of_trace none trace s = stored_or_rebuilt s.stored_head trace s
  head_of_trace (some head) trace s =
      if same_stat head trace.stat then (ok head, s) else stored_or_rebuilt s.stored_head trace s

  -- `_load_verified_head`.
  unfoldable pub load_from : Option Trace → Exec Store Head
  unfolding head_of_trace
  load_from none s = (ok no_head, record s { stored_head = none; cache = none })
  load_from (some trace) s = head_of_trace s.cache trace s

  unfoldable pub load_verified_head : Exec Store Head
  unfolding load_from
  load_verified_head s = load_from s.trace s

-- The event that `_new_event` puts together, before its hash is added.
unfoldable pub assemble :
    (event_id event_type created_at : String) (payload : Fields) (event_count : ℕ)
    (head_hash : Option String) (context : Fields)
    → Fields
unfolding merge set subject_of
assemble event_id event_type created_at payload event_count head_hash context =
    let subject =
      subject_of ("actor_id" ∷ "agent_id" ∷ "session_id" ∷ "tool_call_id" ∷ []) context in
    let identity = dict (
      ("schema_version", text evidence_schema_version)
      ∷ ("event_id", text event_id)
      ∷ ("event_sequence", number (event_count + 1))
      ∷ ("event_type", text event_type)
      ∷ ("created_at", text created_at)
      ∷ []) in
    set "previous_hash" (opt_text head_hash)
      (set "payload" (object payload) (set "subject" (object subject) (merge identity context)))

module _ (run_name : String) (bound : Fields) where
  -- The event of `_new_event` before its hash is added.
  unfoldable pub envelope :
      (now event_id event_type : String) (payload : Fields) (event_count : ℕ)
      (head_hash : Option String)
      → Result Fields
  unfolding merge set get overrides nonempty_text assemble
  envelope now event_id event_type payload event_count head_hash =
      let context = merge bound payload in
      if overrides envelope_fields context
      then raised (value_error "evidence payload cannot override envelope fields")
      else elim (nonempty_text (get "run_id" context) run_name
          (value_error "evidence events require a non-empty run_id")) [
            | raised e ↦ raised e
            | ok run_id ↦
                if not (run_id == run_name)
                then raised
                    (value_error "evidence event run_id must match the recorder run directory")
                else let named = set "run_id" (text run_id) context in
                  elim (nonempty_text (get "created_at" named) now
                    (value_error "evidence events require a non-empty created_at")) [
                      | raised e ↦ raised e
                      | ok created_at ↦ ok (
                          assemble event_id event_type created_at payload event_count head_hash
                            named)
                    ]
          ]

module _ (host : Host) (run_name : String) (bound : Fields) where
  -- `_new_event`.
  unfoldable pub new_event : Moment → (event_type : String) → Fields → Head → Result Fields
  unfolding envelope seal_event
  new_event m event_type payload head =
      seal_event host (
        envelope run_name bound m.now m.event_id event_type payload head.event_count head.head_hash)

  -- `append`.
  unfoldable pub append_event :
      (reload : Fields → Fields) → Moment → (event_type : String) → Fields → Exec Store Fields
  unfolding load_verified_head new_event write_event
  append_event reload m event_type payload = do
    head ← load_verified_head host
    event ← lift (new_event m event_type payload head)
    write_event reload m event head
