-- ===== src/Governed/Failures.antt =====
-- application/governed_session.py: a tool run that raises ends the session.
use agent_trust_runtime.Base.{
  String, ◌≡◌, refl, sym, subst, ap, ◌∙◌, Bool, true, false, Bool-cases, ◌⊎◌, inl, inr, Option,
  none, Result, ok, raised, Error, [], ◌∷◌, is_blank, member,
}
use agent_trust_runtime.Exec.{Exec, pure, lift, continue, ◌>>=◌, when, reraise, settle, on_raise}
use agent_trust_runtime.Value.{Fields, dict, text}
use agent_trust_runtime.Lifecycle.Session.{
  SessionStatus, SessionStatus-discrete, session_transitions, is_terminal_session_status,
}
use agent_trust_runtime.Sessions.{
  AgentSession, transition_session, is_terminal_session, session_to_dict,
}
use agent_trust_runtime.Sessions.Validity.{IsValid, moved, transition_session_lem}
use agent_trust_runtime.Models.{ToolIntent}
use agent_trust_runtime.RunTool.{ToolRunOutcome}
use agent_trust_runtime.Governed.{
  Governed, Setup, Runner, modify, on_world, release, taking, emit, change_status, fail_live,
  run_governed, is_completed,
}
use agent_trust_runtime.Governed.Waiting.{IsStarted, is_terminal-status}

module _ {W : Type 0} where
  -- The action leaves the session as it is, whether it returns or raises.
  abbrev HasSession : {A : Type 0} → AgentSession → Result A × Governed W → Type 0
  HasSession session (r, s) = s.session ≡ session

  module _ {A B : Type 0} where
    bind-session :
        (m : Exec (Governed W) A) (f : A → Exec (Governed W) B)
        → ((s : Governed W) → HasSession s.session (m s))
        → ((a : A) (s : Governed W) → HasSession s.session (f a s))
        → (s : Governed W) → HasSession s.session ((m >>= f) s)
    unfolding ◌>>=◌
    bind-session m f hm hf s = go (m s) (hm s)
      where
        go :
            (r : Result A × Governed W)
            → HasSession s.session r
            → HasSession s.session (continue f r)
        go (ok a, t) e = hf a t ∙ e
        go (raised x, t) e = e

-- What a failed run leaves: an error, no active call and a session that is terminal.
abbrev pub HasFailed : {W A : Type 0} → Result A × Governed W → Type 0
HasFailed (ok a, s) = ⊥
HasFailed (raised e, s) = (s.active ≡ none) × (is_terminal_session s.session ≡ true)

module _ {W : Type 0} (setup : Setup W) where
  emit-session :
      (kind : String) (payload : Fields) (s : Governed W)
      → HasSession s.session (emit setup kind payload s)
  unfolding emit on_world
  emit-session kind payload s = refl

  when-session :
      (b : Bool) (kind : String) (payload : Fields) (s : Governed W)
      → HasSession s.session (when b (emit setup kind payload >>= λ _. pure tt) s)
  unfolding when pure
  when-session true kind payload s = bind-session _ _ (emit-session kind payload) (λ a t. refl) s
  when-session false kind payload s = refl

  -- A change of status along an edge sets the session, whether or not it can be recorded.
  change_status-session :
      (target : SessionStatus) (s : Governed W) (now : String) (w : W) (next : AgentSession)
      → setup.now s.world ≡ (ok now, w)
      → transition_session now s.session target none ≡ ok next
      → HasSession next (change_status setup target s)
  unfolding change_status ◌>>=◌ on_world lift modify
  change_status-session target s now w next c t =
      let u : Governed W = record s { world = w; session = next } in
      rw (c, t)
        (bind-session (emit setup "session_status_changed" (session_to_dict next))
          (λ _. when (is_completed target) (
            emit setup "session_completed" (dict (("run_id", text next.run_id) ∷ [])) >>= λ _.
            pure tt))
          (emit-session "session_status_changed" (session_to_dict next))
          (λ _ v.
            when-session (is_completed target) "session_completed"
              (dict (("run_id", text next.run_id) ∷ [])) v)
          u)

  may_fail :
      (status : SessionStatus)
      → IsStarted status
      → is_terminal_session_status status ≡ false
      → member SessionStatus-discrete SessionStatus.failed (session_transitions status) ≡ true
  unfolding is_terminal_session_status session_transitions SessionStatus-discrete
  may_fail SessionStatus.created i h = absurd i
  may_fail SessionStatus.running i h = refl
  may_fail SessionStatus.waiting_approval i h = refl
  may_fail SessionStatus.completed i h = cc
  may_fail SessionStatus.failed i h = cc
  may_fail SessionStatus.cancelled i h = cc

  failed-terminal :
      (session : AgentSession) (now : String)
      → is_terminal_session (moved session SessionStatus.failed now) ≡ true
  unfolding is_terminal_session SessionStatus-discrete
  failed-terminal session now = refl

  -- After the handler of a failed run the session is terminal.
  fail_live-terminal :
      (s : Governed W) (now : String) (w : W)
      → IsValid s.session
      → IsStarted s.session.status
      → setup.now s.world ≡ (ok now, w)
      → is_blank now ≡ false
      → is_terminal_session (fail_live setup s).1.session ≡ true
  unfolding fail_live pure
  fail_live-terminal s now w v i c h = go (Bool-cases (is_terminal_session s.session))
    where
      go :
          (is_terminal_session s.session ≡ true) ⊎ (is_terminal_session s.session ≡ false)
          → is_terminal_session (fail_live setup s).1.session ≡ true
      go (inl e) = rw (e, e)
      go (inr e) =
          let live = sym (is_terminal-status s.session) ∙ e in
          let edge = may_fail s.session.status i live in
          let moves : transition_session now s.session SessionStatus.failed none
              ≡ ok (moved s.session SessionStatus.failed now) =
            rw edge at ((transition_session_lem now s.session SessionStatus.failed v h).1) in
          rw e (
            ap is_terminal_session (
              change_status-session SessionStatus.failed s now w
                (moved s.session SessionStatus.failed now) c moves)
            ∙ failed-terminal s.session now)

  -- A tool runner that raises, in a session that has started and is valid, at a time that is not
  -- blank, makes the run raise an error, takes the active call and leaves the session terminal, also
  -- where the failure itself cannot be recorded.
  pub run_governed-HasFailed :
      (runner : Runner W) (intent : ToolIntent) (response : Option String) (s t : Governed W)
      (e : Error) (now : String) (w : W)
      → runner intent response s ≡ (raised e, t)
      → IsValid t.session
      → IsStarted t.session.status
      → setup.now t.world ≡ (ok now, w)
      → is_blank now ≡ false
      → HasFailed (run_governed setup runner intent response s)
  unfolding run_governed taking on_raise
  run_governed-HasFailed runner intent response s t e now w h v i c b =
      subst (λ r. HasFailed (release (settle (fail_live setup) r))) (sym h)
        (go (fail_live setup t) (fail_live-terminal t now w v i c b))
    where
      go :
          (r : Result (Unit {0}) × Governed W)
          → is_terminal_session r.1.session ≡ true
          → HasFailed (release (reraise {A = ToolRunOutcome} e r))
      go (ok u, s') x = (refl, x)
      go (raised f, s') x = (refl, x)
