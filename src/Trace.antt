-- ===== src/Trace.antt =====
-- adapters/evidence/jsonl_store.py: the hash chain over the events of a run. A trace is the list of
-- the JSON objects of its lines.
pub mod Tamper
pub mod Recorder
use agent_trust_runtime.Base.{
  ℕ, zero, suc, ◌+◌, String, Bool, true, false, not, ◌&&◌, Option, none, some, List, [], ◌∷◌, ◌++◌,
  ◌==◌, any, one_of, if◌then◌else◌, Error, Result, ok, raised, value_error, type_error, require,
  ◌>>=◌, ◌>>◌,
}
use agent_trust_runtime.Value.{
  Value, null, text, object, Fields, end, field, dict, opt_text, number, get, get_or_none, set,
  merge, without, same,
}
use agent_trust_runtime.Host.{Host}
use agent_trust_runtime.Protocol.{as_text}

abbrev pub evidence_schema_version : String
evidence_schema_version = "agenttrust.evidence/v1"

-- What `verify_events` reports.
pub data Verification : Type 0 where
  valid : (event_count : ℕ) (head_hash : Option String) → Verification
  invalid : (event_index : ℕ) (reason : String) → Verification

-- What one event is found to be: linked, with its hash, or broken.
pub data Verdict : Type 0 where
  linked : String → Verdict
  broken : String → Verdict

module _ (host : Host) where
  -- `_event_hash`.
  unfoldable pub event_hash : Fields → Result String
  unfolding without
  event_hash event = elim (host.dumps true (without "event_hash" event)) [
    | none ↦ raised (type_error "not JSON serializable")
    | some payload ↦ ok (host.sha256 payload)
  ]

  -- `_event_hash(event) != actual_hash`, for a recorded hash that is a string.
  unfoldable pub compare_hash : Result String → String → Result Verdict
  compare_hash (raised e) actual = raised e
  compare_hash (ok computed) actual =
      ok (if computed == actual then linked actual else broken "event_hash_mismatch")

  -- The body of the loop of `verify_events`.
  unfoldable pub check_event : Option String → Fields → Result Verdict
  unfolding get_or_none same event_hash compare_hash
  check_event previous_hash event =
      if same (get_or_none "previous_hash" event) (opt_text previous_hash)
      then elim (as_text (get_or_none "event_hash" event)) [
        | none ↦ ok (broken "event_hash_mismatch")
        | some actual ↦ compare_hash (event_hash event) actual
      ]
      else ok (broken "previous_hash_mismatch")

  -- The loop: the number of the events checked so far and the hash of the last one.
  unfoldable pub verify_from : ℕ → Option String → List Fields → Result Verification
  unfolding check_event
  verify_from checked previous_hash [] = ok (valid checked previous_hash)
  verify_from checked previous_hash (event ∷ rest) = elim (check_event previous_hash event) [
    | ok (linked actual) ↦ verify_from (suc checked) (some actual) rest
    | ok (broken reason) ↦ ok (invalid (suc checked) reason)
    | raised e ↦ raised e
  ]

  unfoldable pub verify_events : List Fields → Result Verification
  unfolding verify_from
  verify_events events = verify_from 0 none events
