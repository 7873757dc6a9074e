-- ===== src/Replay/Session.antt =====
-- domain/sessions.py and adapters/evidence/replay.py: the events that a session writes about itself
-- replay to that session.
pub mod Lives
use agent_trust_runtime.Base.{
  String, ◌≡◌, refl, Bool-cases, inl, inr, ap, ◌∙◌, true, false, not, ◌==◌, eq_iff, eq_refl, subst,
  sym, Option, none, some, is_blank, member, or_else, arith, if◌then◌else◌, Result, ok, ◌>>=◌,
  require,
}
use agent_trust_runtime.Value.{Value, text, opt_text, Fields, get, get_or_none}
use agent_trust_runtime.Lifecycle.Session.{
  SessionStatus, SessionStatus-discrete, session_status_text, parse_session_status,
  session_transitions, assert_session_transition,
}
use agent_trust_runtime.Sessions.{
  AgentSession, require_text, require_opt_text, check_session, transition_session, session_to_dict,
}
use agent_trust_runtime.Sessions.Validity.{IsValid, moved, transition_session_lem}
use agent_trust_runtime.Replay.{
  required_text, optional_text, same_opt, session_fields, session_from_event,
}
use agent_trust_runtime.Replay.Entities.{
  require_text_equal, require_opt_equal, session_change, transition_session_named,
  apply_session_event,
}

-- The event has every field of the dict, beside the recorder's own.
abbrev pub Carries : Fields → Fields → Type 0
Carries d e = (k : String) (v : Value) → get k d ≡ some v → get k e ≡ some v

get_or_none-some : (k : String) (e : Fields) (v : Value) → get k e ≡ some v → get_or_none k e ≡ v
unfolding get_or_none
get_or_none-some k e v h = rw (get_or_none, h)

pub required_text-carried :
    (e : Fields) (k s : String)
    → get k e ≡ some (text s)
    → is_blank s ≡ false
    → required_text e k ≡ ok s
unfolding required_text
required_text-carried e k s h b = rw (required_text, get_or_none-some k e (text s) h, b)

pub optional_text-carried :
    (e : Fields) (k : String) (o : Option String)
    → get k e ≡ some (opt_text o)
    → require_opt_text o ≡ ok tt
    → optional_text e k ≡ ok o
unfolding require_opt_text require_text optional_text
optional_text-carried e k none h b = rw (optional_text, get_or_none-some k e (opt_text none) h)
optional_text-carried e k (some s) h b =
    rw (optional_text, get_or_none-some k e (opt_text (some s)) h) (ground arith)

-- What a valid session has in its fields.
pub valid_texts :
    (s : AgentSession)
    → IsValid s
    → (is_blank s.run_id ≡ false)
      × (is_blank s.actor_id ≡ false)
      × (is_blank s.session_id ≡ false)
      × (is_blank s.created_at ≡ false)
      × (is_blank s.updated_at ≡ false)
      × (require_opt_text s.agent_id ≡ ok tt)
      × (require_opt_text s.policy_version ≡ ok tt)
unfolding check_session require_text
valid_texts s v = ground arith

status_text_present : (t : SessionStatus) → is_blank (session_status_text t) ≡ false
unfolding session_status_text is_blank
status_text_present SessionStatus.created = refl
status_text_present SessionStatus.running = refl
status_text_present SessionStatus.waiting_approval = refl
status_text_present SessionStatus.completed = refl
status_text_present SessionStatus.failed = refl
status_text_present SessionStatus.cancelled = refl

parse-status_text : (t : SessionStatus) → parse_session_status (session_status_text t) ≡ some t
unfolding session_status_text parse_session_status
parse-status_text SessionStatus.created = refl
parse-status_text SessionStatus.running = refl
parse-status_text SessionStatus.waiting_approval = refl
parse-status_text SessionStatus.completed = refl
parse-status_text SessionStatus.failed = refl
parse-status_text SessionStatus.cancelled = refl

-- The event of a creation replays to the session.
pub session_from_event-session_to_dict :
    (s : AgentSession) (e : Fields)
    → IsValid s
    → s.status ≡ SessionStatus.created
    → Carries (session_to_dict s) e
    → session_from_event e ≡ ok s
unfolding session_to_dict session_status_text get session_from_event session_fields is_blank
session_from_event-session_to_dict s e v c h =
    let (run, actor, id, created, updated, agent, policy) = valid_texts s v in
    rw
      (
        session_fields,
        required_text-carried e "status" "created"
            (subst (λ t. get "status" e ≡ some (text (session_status_text t))) c
              (h "status" _ refl))
            refl,
        required_text-carried e "run_id" s.run_id (h "run_id" _ refl) run,
        required_text-carried e "actor_id" s.actor_id (h "actor_id" _ refl) actor,
        required_text-carried e "session_id" s.session_id (h "session_id" _ refl) id,
        required_text-carried e "created_at" s.created_at (h "created_at" _ refl) created,
        required_text-carried e "updated_at" s.updated_at (h "updated_at" _ refl) updated,
        optional_text-carried e "agent_id" s.agent_id (h "agent_id" _ refl) agent,
        optional_text-carried e "policy_version" s.policy_version (h "policy_version" _ refl)
            policy,
      )
      (subst (λ t. check_session (record s { status = t }) ≡ ok s) c v)

require_text_equal-carried :
    (e : Fields) (k s : String)
    → get k e ≡ some (text s)
    → is_blank s ≡ false
    → require_text_equal e k s ≡ ok tt
unfolding require_text_equal
require_text_equal-carried e k s h b =
    rw (require_text_equal, required_text-carried e k s h b, eq_refl s)

same_opt_refl : (o : Option String) → same_opt o o ≡ true
unfolding same_opt
same_opt_refl none = refl
same_opt_refl (some s) = eq_refl s

require_opt_equal-carried :
    (e : Fields) (k : String) (o : Option String)
    → get k e ≡ some (opt_text o)
    → require_opt_text o ≡ ok tt
    → require_opt_equal e k o ≡ ok tt
unfolding require_opt_equal
require_opt_equal-carried e k o h b =
    rw (require_opt_equal, optional_text-carried e k o h b, same_opt_refl o)

or_else-present : (at now : String) → is_blank at ≡ false → or_else (some at) now ≡ at
unfolding is_blank
or_else-present at now b = elim (Bool-cases (at == "")) [
  | inl e ↦ cc (subst (λ x. is_blank x ≡ false) ((eq_iff at "").0 e) b)
  | inr e ↦ rw e
]

transition_session-at :
    (now : String) (s : AgentSession) (target : SessionStatus) (at : String)
    → IsValid s
    → is_blank at ≡ false
    → member SessionStatus-discrete target (session_transitions s.status) ≡ true
    → transition_session now s target (some at) ≡ ok (moved s target at)
unfolding transition_session
transition_session-at now s target at v b edge =
    rw (or_else-present at now b) ((transition_session_lem at s target v b).1 ∙ rw edge)

-- The event of a transition replays to the session after it.
pub apply_session_event-session_to_dict :
    (now : String) (s : AgentSession) (target : SessionStatus) (at : String) (e : Fields)
    → IsValid s
    → is_blank at ≡ false
    → member SessionStatus-discrete target (session_transitions s.status) ≡ true
    → Carries (session_to_dict (moved s target at)) e
    → apply_session_event now s e ≡ ok (moved s target at)
unfolding session_to_dict get apply_session_event session_change transition_session_named
apply_session_event-session_to_dict now s target at e v b edge h =
    let (run, actor, id, created, updated, agent, policy) = valid_texts s v in
    rw
      (
        apply_session_event,
        session_change,
        require_text_equal-carried e "run_id" s.run_id (h "run_id" _ refl) run,
        require_text_equal-carried e "actor_id" s.actor_id (h "actor_id" _ refl) actor,
        require_text_equal-carried e "session_id" s.session_id (h "session_id" _ refl) id,
        require_opt_equal-carried e "agent_id" s.agent_id (h "agent_id" _ refl) agent,
        require_opt_equal-carried e "policy_version" s.policy_version (h "policy_version" _ refl)
            policy,
        require_text_equal-carried e "created_at" s.created_at (h "created_at" _ refl) created,
        required_text-carried e "status" (session_status_text target) (h "status" _ refl)
            (status_text_present target),
        required_text-carried e "updated_at" at (h "updated_at" _ refl) b,
        transition_session_named,
        parse-status_text target,
      )
      (transition_session-at now s target at v b edge)
