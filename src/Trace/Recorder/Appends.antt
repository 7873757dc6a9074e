-- ===== src/Trace/Recorder/Appends.antt =====
-- adapters/evidence/jsonl_store.py: an append to a sound store links one event to the chain, and
-- neither the cached head nor the stored one can make it link to anything but the verified head.
use agent_trust_runtime.Base.{
  ℕ, suc, ◌+◌, String, ◌≡◌, refl, ap, ◌∙◌, true, false, Option, none, some, List, [], ◌∷◌, ◌++◌,
  eq_refl, arith, Error, Result, ok, raised, value_error,
}
use agent_trust_runtime.Value.{
  Value, text, object, Fields, dict, opt_text, number, get, get_or_none, set, merge, same,
}
use agent_trust_runtime.Value.Laws.{get-set, without-set, get-merge-none}
use agent_trust_runtime.Host.{Host}
use agent_trust_runtime.Trace.{
  valid, linked, event_hash, compare_hash, check_event, verify_from, evidence_schema_version,
}
use agent_trust_runtime.Trace.Tamper.{verify_from-nil, verify_from-cons, verify_from-linked}
use agent_trust_runtime.Trace.Recorder.{
  read_last_event, envelope_fields, overrides, assemble, subject_of, nonempty_text, envelope,
  seal_event,
}

module _ (host : Host) where
  -- The chain goes on behind a prefix that verifies.
  pub verify_from-append :
      (xs ys : List Fields) (checked n : ℕ) (previous head : Option String)
      → verify_from host checked previous xs ≡ ok (valid n head)
      → verify_from host checked previous (xs ++ ys) ≡ verify_from host n head ys
  verify_from-append [] ys checked n previous head h =
      let (p, c) = verify_from-nil host checked n previous head h in cc
  verify_from-append (x ∷ xs) ys checked n previous head h =
      let (hash, e, rest) = verify_from-cons host checked n previous head x xs h in
      verify_from-linked host checked previous x (xs ++ ys) hash e
      ∙ verify_from-append xs ys (suc checked) n (some hash) head rest

  pub verify_from-one :
      (n : ℕ) (head : Option String) (event : Fields) (hash : String)
      → check_event host head event ≡ ok (linked hash)
      → verify_from host n head (event ∷ []) ≡ ok (valid (suc n) (some hash))
  unfolding verify_from
  verify_from-one n head event hash h = rw (h, verify_from)

  same_self : (o : Option String) → same (opt_text o) (opt_text o) ≡ true
  unfolding same
  same_self none = refl
  same_self (some t) = eq_refl t

  event_hash-set :
      (v : Value) (event : Fields)
      → event_hash host (set "event_hash" v event) ≡ event_hash host event
  unfolding event_hash
  event_hash-set v event = rw (without-set "event_hash" v event, event_hash)

  check_event-sealed :
      (event : Fields) (head : Option String) (hash : String)
      → get "previous_hash" event ≡ some (opt_text head)
      → get "event_hash" event ≡ some (text hash)
      → event_hash host event ≡ ok hash
      → check_event host head event ≡ ok (linked hash)
  unfolding check_event get_or_none compare_hash
  check_event-sealed event head hash p q r =
      rw (p, q, r, same_self head, eq_refl hash, check_event, get_or_none, compare_hash)

  seal_event-ok :
      (body event : Fields)
      → seal_event host (ok body) ≡ ok event
      → (hash : String) × (event_hash host body ≡ ok hash)
        × (event ≡ set "event_hash" (text hash) body)
  unfolding seal_event
  seal_event-ok body event h = go (event_hash host body) refl
    where
      go :
          (r : Result String)
          → event_hash host body ≡ r
          → (hash : String) × (event_hash host body ≡ ok hash)
            × (event ≡ set "event_hash" (text hash) body)
      go (ok hash) e = (hash, e, ground arith)
      go (raised x) e = absurd (ground arith)

  -- A sealed event links to the hash that its body names.
  pub seal_event-linked :
      (body event : Fields) (head : Option String) (sequence : Value)
      → get "previous_hash" body ≡ some (opt_text head)
      → get "event_sequence" body ≡ some sequence
      → seal_event host (ok body) ≡ ok event
      → (hash : String) × (get "event_hash" event ≡ some (text hash))
        × (get "event_sequence" event ≡ some sequence)
        × (check_event host head event ≡ ok (linked hash))
  seal_event-linked body event head sequence p q h =
      let (hash, e, eq) = seal_event-ok body event h in
      let stored = ap (get "event_hash") eq ∙ get-set "event_hash" "event_hash" (text hash) body in
      let before =
        ap (get "previous_hash") eq ∙ get-set "event_hash" "previous_hash" (text hash) body ∙ p in
      let counted =
        ap (get "event_sequence") eq ∙ get-set "event_hash" "event_sequence" (text hash) body ∙ q in
      (
        hash,
        stored,
        counted,
        check_event-sealed event head hash before stored
            (ap (event_hash host) eq ∙ event_hash-set (text hash) body ∙ e),
      )

pub read_last_event-append :
    (xs : List Fields) (e : Fields) → read_last_event (xs ++ e ∷ []) ≡ some e
unfolding read_last_event
read_last_event-append [] e = refl
read_last_event-append (x ∷ []) e = refl
read_last_event-append (x ∷ y ∷ xs) e = read_last_event-append (y ∷ xs) e

not_overridden :
    (context : Fields)
    → overrides envelope_fields context ≡ false
    → get "event_sequence" context ≡ none
unfolding overrides
not_overridden context h = go (get "event_sequence" context) refl
  where
    go : (o : Option Value) → get "event_sequence" context ≡ o → get "event_sequence" context ≡ none
    go none e = e
    go (some v) e = absurd (ground arith)

assemble-links :
    (event_id event_type created_at : String) (payload context : Fields) (n : ℕ) (q : Option String)
    → get "event_sequence" context ≡ none
    → (get "previous_hash" (assemble event_id event_type created_at payload n q context)
        ≡ some (opt_text q))
      × (get "event_sequence" (assemble event_id event_type created_at payload n q context)
          ≡ some (number (n + 1)))
unfolding assemble get
assemble-links event_id event_type created_at payload context n q h =
    let key : String = "event_sequence" in
    let subject =
      subject_of ("actor_id" ∷ "agent_id" ∷ "session_id" ∷ "tool_call_id" ∷ []) context in
    let identity = dict (
      ("schema_version", text evidence_schema_version)
      ∷ ("event_id", text event_id)
      ∷ (key, number (n + 1))
      ∷ ("event_type", text event_type)
      ∷ ("created_at", text created_at)
      ∷ []) in
    let named = set "subject" (object subject) (merge identity context) in
    let filled = set "payload" (object payload) named in
    (
      get-set "previous_hash" "previous_hash" (opt_text q) filled,
      get-set "previous_hash" key (opt_text q) filled
          ∙ get-set "payload" key (object payload) named
          ∙ get-set "subject" key (object subject) (merge identity context)
          ∙ get-merge-none key identity context h,
    )

module _ (run_name : String) (bound : Fields) where
  abbrev run_error : Error
  run_error = value_error "evidence events require a non-empty run_id"

  abbrev time_error : Error
  time_error = value_error "evidence events require a non-empty created_at"

  -- The body that an envelope makes is assembled from a context without a sequence.
  envelope-ok :
      (now event_id event_type : String) (payload body : Fields) (n : ℕ) (q : Option String)
      → envelope run_name bound now event_id event_type payload n q ≡ ok body
      → (run_id : String) × (created_at : String) × (overrides envelope_fields (merge bound payload)
          ≡ false)
        × (body
            ≡ assemble event_id event_type created_at payload n q
                (set "run_id" (text run_id) (merge bound payload)))
  unfolding envelope
  envelope-ok now event_id event_type payload body n q h =
      run (nonempty_text (get "run_id" context) run_name run_error) refl
    where
      context : Fields
      context = merge bound payload

      Parts : Type 0
      Parts =
          (run_id : String) × (created_at : String) × (overrides envelope_fields context ≡ false)
          × (body
              ≡ assemble event_id event_type created_at payload n q
                  (set "run_id" (text run_id) context))

      time :
          (run_id : String)
          → nonempty_text (get "run_id" context) run_name run_error ≡ ok run_id
          → (r : Result String)
          → nonempty_text (get "created_at" (set "run_id" (text run_id) context)) now time_error ≡ r
          → Parts
      time run_id e (ok created_at) f = (run_id, created_at, ground arith, ground arith)
      time run_id e (raised x) f = absurd (ground arith)

      run :
          (r : Result String) → nonempty_text (get "run_id" context) run_name run_error ≡ r → Parts
      run (ok run_id) e =
          time run_id e
            (nonempty_text (get "created_at" (set "run_id" (text run_id) context)) now time_error)
            refl
      run (raised x) e = absurd (ground arith)

  -- The body names the hash and the place that the head gives it.
  pub envelope-links :
      (now event_id event_type : String) (payload body : Fields) (n : ℕ) (q : Option String)
      → envelope run_name bound now event_id event_type payload n q ≡ ok body
      → (get "previous_hash" body ≡ some (opt_text q))
        × (get "event_sequence" body ≡ some (number (n + 1)))
  envelope-links now event_id event_type payload body n q h =
      let (run_id, created_at, e, eq) = envelope-ok now event_id event_type payload body n q h in
      let context = merge bound payload in
      let absent =
        get-set "run_id" "event_sequence" (text run_id) context ∙ not_overridden context e in
      let links =
        assemble-links event_id event_type created_at payload (set "run_id" (text run_id) context) n
          q absent in
      (ap (get "previous_hash") eq ∙ links.0, ap (get "event_sequence") eq ∙ links.1)
