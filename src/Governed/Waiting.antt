-- ===== src/Governed/Waiting.antt =====
-- application/governed_session.py: a session waits exactly while an id of a tool call waits.
use agent_trust_runtime.Base.{
  String, ◌≡◌, sym, ap, ◌∙◌, subst, true, false, not, ◌&&◌, Option, none, some, List, is_empty,
  arith, ok, runtime_error,
}
use agent_trust_runtime.Exec.{raise}
use agent_trust_runtime.Exec.Rules.{
  Ensures, Keeps, Ensures-pure, Ensures-raise, Ensures-if, Ensures-bind, Ensures-then,
  Ensures-weaken, Keeps-when, Keeps-pure,
}
use agent_trust_runtime.Value.{Fields}
use agent_trust_runtime.Lifecycle.Session.{
  SessionStatus, is_terminal_session_status, session_transitions,
}
use agent_trust_runtime.Lifecycle.Call.{ToolCallStatus}
use agent_trust_runtime.Sessions.{
  AgentSession, SessionToolCall, transition_session, check_session, is_terminal_session,
}
use agent_trust_runtime.Sessions.Validity.{moved}
use agent_trust_runtime.Governed.{
  Governed, Setup, emit, change_status, reconcile, record_active, record_tool_status, is_running,
  is_session_waiting,
}
use agent_trust_runtime.Governed.Rules.{
  Ensures-with_state, Ensures-lift, Ensures-modify, Keeps-modify, Ensures-from, on_world-Keeps,
}

-- What the status says of the waiting ids; a session that has not started is not balanced.
abbrev pub Balanced : SessionStatus → List String → Type 0
Balanced SessionStatus.created ids = ⊥
Balanced SessionStatus.running ids = is_empty ids ≡ true
Balanced SessionStatus.waiting_approval ids = is_empty ids ≡ false
Balanced status ids = Unit

abbrev pub IsConsistent : {W : Type 0} → Governed W → Type 0
IsConsistent s = Balanced s.session.status s.pending

-- The session has started.
abbrev pub IsStarted : SessionStatus → Type 0
IsStarted SessionStatus.created = ⊥
IsStarted status = Unit

pub IsConsistent-IsStarted :
    (status : SessionStatus) (ids : List String) → Balanced status ids → IsStarted status
IsConsistent-IsStarted SessionStatus.created ids h = h
IsConsistent-IsStarted status ids h = tt

pub check_session-eq : (s t : AgentSession) → check_session s ≡ ok t → t ≡ s
unfolding check_session
check_session-eq s t h = ground arith

-- A transition that succeeds ends in its target.
transition_session-status :
    (now : String) (s t : AgentSession) (target : SessionStatus)
    → transition_session now s target none ≡ ok t
    → t.status ≡ target
unfolding transition_session
transition_session-status now s t target h = ground (arith, check_session-eq (moved s target now) t)

pub is_terminal-status :
    (s : AgentSession) → is_terminal_session s ≡ is_terminal_session_status s.status
unfolding is_terminal_session is_terminal_session_status session_transitions
is_terminal-status s = ground arith

terminal-Balanced :
    (status : SessionStatus) (ids : List String)
    → is_terminal_session_status status ≡ true
    → Balanced status ids
unfolding is_terminal_session_status session_transitions
terminal-Balanced SessionStatus.created ids h = cc
terminal-Balanced SessionStatus.running ids h = cc
terminal-Balanced SessionStatus.waiting_approval ids h = cc
terminal-Balanced status ids h = tt

-- Where a reconciliation has nothing to change, the status is right.
unchanged-Balanced :
    (status : SessionStatus) (ids : List String)
    → IsStarted status
    → (not (is_empty ids) && is_running status) ≡ false
    → (is_empty ids && is_session_waiting status) ≡ false
    → Balanced status ids
unfolding is_running is_session_waiting
unchanged-Balanced SessionStatus.created ids h r w = h
unchanged-Balanced SessionStatus.running ids h r w = ground arith
unchanged-Balanced SessionStatus.waiting_approval ids h r w = ground arith
unchanged-Balanced status ids h r w = tt

module _ {W : Type 0} (setup : Setup W) where
  pub emit-Keeps :
      {P : Governed W → Type 0} (kind : String) (payload : Fields)
      → ((s : Governed W) (w : W) → P s → P (record s { world = w }))
      → Keeps P (emit setup kind payload)
  unfolding emit
  emit-Keeps kind payload h = on_world-Keeps _ h

  -- A change of status that returns ends in its target, and the same ids wait.
  change_status-Ensures :
      (target : SessionStatus) (ids : List String)
      → Ensures
          (λ s. s.pending ≡ ids)
          (λ _ s. (s.session.status ≡ target) × (s.pending ≡ ids))
          (change_status setup target)
  unfolding change_status
  change_status-Ensures target ids = Ensures-then _ _ (on_world-Keeps _ λ s w p. p) λ now.
      Ensures-bind (λ (next : AgentSession) s. (next.status ≡ target) × (s.pending ≡ ids)) _ _
        (Ensures-with_state _ λ t p. Ensures-lift _ λ next s made e. (
          transition_session-status now t.session next target made,
          ap (λ (u : Governed W). u.pending) e ∙ p,
        ))
        λ next.
          Ensures-bind (λ _ s. (s.session.status ≡ target) × (s.pending ≡ ids)) _ _
            (Ensures-modify _ λ s p. p)
            λ _.
              Ensures-then _ _ (emit-Keeps _ _ λ s w p. p)
                λ _. Keeps-when _ _ (Ensures-then _ _ (emit-Keeps _ _ λ s w p. p) λ _. Keeps-pure _)

  change_status-Balanced :
      (target : SessionStatus) (t : Governed W)
      → Balanced target t.pending
      → Ensures (λ s. s ≡ t) (λ _ s. IsConsistent s) (change_status setup target)
  change_status-Balanced target t b =
      Ensures-weaken _ _
        (Ensures-from _ (λ s e. ap (λ (u : Governed W). u.pending) e)
          (change_status-Ensures target t.pending))
        λ _ s h.
          subst (λ ids. Balanced s.session.status ids) (sym (h.1))
            (subst (λ x. Balanced x t.pending) (sym (h.0)) b)

  -- A reconciliation of a session that has started leaves it consistent.
  reconcile-IsConsistent :
      Ensures (λ s. IsStarted s.session.status) (λ _ s. IsConsistent s) (reconcile setup)
  unfolding reconcile
  reconcile-IsConsistent = Ensures-with_state _ λ t started.
      let same : (s : Governed W) → s ≡ t → Balanced t.session.status t.pending → IsConsistent s =
        λ s e b. subst IsConsistent (sym e) b in
      Ensures-if (is_terminal_session t.session) _ _
        (λ h. Ensures-pure _ λ s e.
          same s e
            (terminal-Balanced t.session.status t.pending (sym (is_terminal-status t.session) ∙ h)))
        (λ _.
          Ensures-if (not (is_empty t.pending) && is_running t.session.status) _ _
            (λ h. change_status-Balanced SessionStatus.waiting_approval t (ground arith))
            (λ r.
              Ensures-if (is_empty t.pending && is_session_waiting t.session.status) _ _
                (λ h. change_status-Balanced SessionStatus.running t (ground arith))
                (λ w.
                  Ensures-pure _
                    λ s e. same s e (unchanged-Balanced t.session.status t.pending started r w))))

  record_active-IsConsistent :
      (status : ToolCallStatus) (call : SessionToolCall)
      → Ensures
          (λ s. IsStarted s.session.status)
          (λ _ s. IsConsistent s)
          (record_active setup status call)
  unfolding record_active
  record_active-IsConsistent status call = Ensures-then _ _ (on_world-Keeps _ λ s w p. p) λ now.
      Ensures-then _ _ (Ensures-lift _ λ next s made p. p) λ next.
        Ensures-then _ _ (Keeps-modify _ λ s p. p) λ _.
          Ensures-then _ _ (emit-Keeps _ _ λ s w p. p)
            λ _. Ensures-then _ _ (Keeps-modify _ λ s p. p) λ _. reconcile-IsConsistent

  -- When a status of the active call is recorded in a session that has started, the session waits
  -- for an approval afterwards, if it is live, exactly when some id waits.
  pub record_tool_status-IsConsistent :
      (status : ToolCallStatus)
      → Ensures
          (λ s. IsStarted s.session.status)
          (λ _ s. IsConsistent s)
          (record_tool_status setup status)
  unfolding record_tool_status
  record_tool_status-IsConsistent status =
      Ensures-with_state _ λ t started. active t started t.active
    where
      active :
          (t : Governed W)
          → IsStarted t.session.status
          → (o : Option SessionToolCall)
          → Ensures {A = Unit {0}}
              (λ s. s ≡ t)
              (λ _ s. IsConsistent s)
              (elim o [
                | none ↦ raise (runtime_error "tool call lifecycle event has no active tool call")
                | some call ↦ record_active setup status call
              ])
      active t started none = Ensures-raise _
      active t started (some call) =
          Ensures-from _
            (λ s e. subst (λ (u : Governed W). IsStarted u.session.status) (sym e) started)
            (record_active-IsConsistent status call)
