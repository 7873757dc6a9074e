-- ===== src/Replay/Session/Lives.antt =====
-- domain/sessions.py and adapters/evidence/replay.py: a session's whole history is read back.
use agent_trust_runtime.Base.{
  String, ◌≡◌, refl, ap, ◌∙◌, true, false, eq_refl, some, List, [], ◌∷◌, is_blank, member, ok,
  ◌>>=◌,
}
use agent_trust_runtime.Value.{text, Fields, get}
use agent_trust_runtime.Host.{Host}
use agent_trust_runtime.Lifecycle.Session.{
  SessionStatus, SessionStatus-discrete, session_transitions,
}
use agent_trust_runtime.Sessions.{AgentSession, session_to_dict}
use agent_trust_runtime.Sessions.Validity.{IsValid, moved, transition_session_lem}
use agent_trust_runtime.Replay.Run.{
  ReplayState, nothing_replayed, on_session_created, on_session_status_changed, dispatch,
  replay_event, replay_all,
}
use agent_trust_runtime.Replay.Session.{
  Carries, required_text-carried, valid_texts, session_from_event-session_to_dict,
  apply_session_event-session_to_dict,
}

-- The event of a type that records a session.
abbrev pub Records : String → AgentSession → Fields → Type 0
Records event_type s e =
    (get "event_type" e ≡ some (text event_type)) × Carries (session_to_dict s) e

-- The session after its changes.
abbrev pub after : AgentSession → List (SessionStatus × String) → AgentSession
after s [] = s
after s ((target, at) ∷ changes) = after (moved s target at) changes

-- The changes follow the lifecycle's edges, at times that are not blank, and each event records the
-- session after its change.
abbrev pub AreRecorded : AgentSession → List (SessionStatus × String) → List Fields → Type 0
AreRecorded s [] [] = Unit
AreRecorded s ((target, at) ∷ changes) (e ∷ es) =
    (member SessionStatus-discrete target (session_transitions s.status) ≡ true)
    × (is_blank at ≡ false)
    × Records "session_status_changed" (moved s target at) e
    × AreRecorded (moved s target at) changes es
AreRecorded s _ _ = ⊥

module _ (host : Host) (now : String) where
  replay_event-typed :
      (s : AgentSession) (st : ReplayState) (e : Fields) (event_type : String)
      → IsValid s
      → is_blank event_type ≡ false
      → Records event_type s e
      → replay_event host now s.run_id st e ≡ dispatch host now event_type s.run_id st e
  unfolding replay_event session_to_dict get
  replay_event-typed s st e event_type v b (typed, carried) = rw (
    replay_event,
    required_text-carried e "run_id" s.run_id (carried "run_id" _ refl) (valid_texts s v).0,
    eq_refl s.run_id,
    required_text-carried e "event_type" event_type typed b,
  )

  replay_created :
      (s : AgentSession) (e : Fields)
      → IsValid s
      → s.status ≡ SessionStatus.created
      → Records "session_created" s e
      → replay_event host now s.run_id nothing_replayed e
        ≡ ok (record nothing_replayed { session = some s })
  unfolding dispatch on_session_created is_blank
  replay_created s e v c r =
      replay_event-typed s nothing_replayed e "session_created" v refl r
      ∙ rw (session_from_event-session_to_dict s e v c r.1)

  replay_changed :
      (s : AgentSession) (st : ReplayState) (target : SessionStatus) (at : String) (e : Fields)
      → IsValid s
      → st.session ≡ some s
      → member SessionStatus-discrete target (session_transitions s.status) ≡ true
      → is_blank at ≡ false
      → Records "session_status_changed" (moved s target at) e
      → replay_event host now s.run_id st e ≡ ok (record st { session = some (moved s target at) })
  unfolding dispatch on_session_status_changed is_blank
  replay_changed s st target at e v k edge b r =
      replay_event-typed (moved s target at) st e "session_status_changed"
        (transition_session_lem at s target v b).0 refl r
      ∙ rw (k, apply_session_event-session_to_dict now s target at e v b edge r.1)

  replay_changes :
      (s : AgentSession) (st : ReplayState) (changes : List (SessionStatus × String))
      (es : List Fields)
      → IsValid s
      → st.session ≡ some s
      → AreRecorded s changes es
      → replay_all host now s.run_id st es ≡ ok (record st { session = some (after s changes) })
  unfolding replay_all
  replay_changes s st [] [] v k r = ap (λ o. ok (record st { session = o })) k
  replay_changes s st ((target, at) ∷ changes) (e ∷ es) v k (edge, b, r, rest) =
      ap (λ m. m >>= (λ next. replay_all host now s.run_id next es))
        (replay_changed s st target at e v k edge b r)
      ∙ replay_changes (moved s target at) (record st { session = some (moved s target at) })
          changes es (transition_session_lem at s target v b).0 refl rest
  replay_changes s st [] (e ∷ es) v k r = absurd r
  replay_changes s st ((target, at) ∷ changes) [] v k r = absurd r

  -- The events that a valid session writes about its creation and about changes along the
  -- lifecycle's edges, at times that are not blank, replay to exactly the session after them.
  pub replay_all-session_to_dict :
      (s : AgentSession) (created : Fields) (changes : List (SessionStatus × String))
      (events : List Fields)
      → IsValid s
      → s.status ≡ SessionStatus.created
      → Records "session_created" s created
      → AreRecorded s changes events
      → replay_all host now s.run_id nothing_replayed (created ∷ events)
        ≡ ok (record nothing_replayed { session = some (after s changes) })
  unfolding replay_all
  replay_all-session_to_dict s created changes events v c r rest =
      ap (λ m. m >>= (λ next. replay_all host now s.run_id next events))
        (replay_created s created v c r)
      ∙ replay_changes s (record nothing_replayed { session = some s }) changes events v refl rest
