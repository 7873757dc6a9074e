-- ===== src/Examples/Chains.antt =====
-- adapters/evidence/jsonl_store.py: a chain of two events, and an append to an empty store.
use Prim.Native.String.{◌++◌}
use agent_trust_runtime.Base.{
  Error, String, ◌≡◌, refl, sym, ◌∙◌, false, Option, none, some, [], ◌∷◌, ◌⊎◌, map, ok, ◌==◌,
  eq_iff, arith, if◌then◌else◌,
}
use agent_trust_runtime.Value.{null, text, Fields, end, field, dict, get, get_or_none}
use agent_trust_runtime.Host.{Host}
use agent_trust_runtime.Protocol.{as_text}
use agent_trust_runtime.Trace.{valid, verify_events}
use agent_trust_runtime.Trace.Tamper.{canonical, Collision, TellsTexts, head_binds_trace}
use agent_trust_runtime.Trace.Recorder.{Store, Moment, written, unsaved, append_event}
use agent_trust_runtime.Trace.Recorder.Loads.{IsSound}
use agent_trust_runtime.Trace.Recorder.Writes.{IsAppended}
use agent_trust_runtime.Trace.Recorder.Sound.{append_event-IsSound}
use agent_trust_runtime.Examples.Decisions.{instants}

-- Only the events whose one field is the hash before them are written.
abbrev write : Fields → Option String
write (field k null end) = if k == "previous_hash" then some "" else none
write (field k (text v) end) =
    if k == "previous_hash" then (if v == "" then none else some v) else none
write d = none

abbrev host : Host
host = record {
  dumps = λ _ d. write d;
  sha256 = λ t. "h" ++ t;
  fromisoformat = instants;
  add_seconds = λ t k. none;
  lower = λ t. t;
  fnmatch = λ name pattern. name == pattern;
  shlex_join = λ _. "";
  sensitive_key = λ key. false;
  redact_text = λ t. t;
  float_equals = λ t n. false;
}

-- The string at a key is told by the text.
told : String → String → Option String
told t k = if k == "previous_hash" then (if t == "" then none else some t) else none

write-told : (d : Fields) (t k : String) → write d ≡ some t → as_text (get_or_none k d) ≡ told t k
unfolding get_or_none get told
write-told (field j null end) t k h =
    ground (arith, eq_iff j "previous_hash", eq_iff j k, eq_iff k "previous_hash", eq_iff "" t)
write-told (field j (text v) end) t k h =
    ground (arith, eq_iff j "previous_hash", eq_iff j k, eq_iff k "previous_hash", eq_iff v t)
write-told d t k h = cc

tells : TellsTexts host
tells a b t k p q = write-told a t k p ∙ sym (write-told b t k q)

abbrev first : Fields
first = dict (("previous_hash", null) ∷ ("event_hash", text "h") ∷ [])

abbrev second : Fields
second = dict (("previous_hash", text "h") ∷ ("event_hash", text "hh") ∷ [])

chain_run : verify_events host (first ∷ second ∷ []) ≡ ok (valid 2 (some "hh"))
unfolding verify_events
chain_run = refl

head_binds_trace_example :
    Collision host
    ⊎ (map (canonical host) (first ∷ second ∷ []) ≡ map (canonical host) (first ∷ second ∷ []))
head_binds_trace_example =
    head_binds_trace host (first ∷ second ∷ []) (first ∷ second ∷ []) 2 2 (some "hh") tells
      chain_run chain_run

-- The host that writes every dict as one text.
abbrev plain : Host
plain = record host { dumps = λ _ _. some "{}" }

abbrev empty : Store
empty = record { trace = none; stored_head = none; cache = none }

abbrev moment : Moment
moment = record {
  now = "t0";
  event_id = "event";
  stat = record { size = 10; mtime_ns = 1 };
  ending = written;
}

empty-IsSound : IsSound plain empty 0 none
unfolding verify_events
empty-IsSound = record {
  verifies = refl;
  told = λ trace head e m. absurd (cc);
  cached = λ trace head e c m. absurd (cc);
}

-- The disk is full when the head is stored.
abbrev full : Moment
full = record moment { ending = unsaved (Error.os_error "disk") }

abbrev same_dict : Fields → Fields
same_dict d = d

append_event-IsSound_example :
    IsAppended plain same_dict full.ending
      (append_event plain "run" end same_dict full "session_started" end empty)
      empty
      0
      none
append_event-IsSound_example =
    append_event-IsSound plain "run" end same_dict full "session_started" end empty 0 none
      empty-IsSound (omega arith) λ head event h. (refl, refl, refl, refl)
