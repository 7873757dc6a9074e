-- ===== src/Replay/Kept.antt =====
-- adapters/evidence/replay.py: what a replayed entity is made of, and what a later event keeps.
use agent_trust_runtime.Base.{
  String, ◌≡◌, refl, Bool, true, false, Option, none, some, ap, ◌∙◌, sym, subst, or_else, arith, ok,
  >>=-ok,
}
use agent_trust_runtime.Value.{Fields}
use agent_trust_runtime.Host.{Host}
use agent_trust_runtime.Lifecycle.Session.{SessionStatus, parse_session_status}
use agent_trust_runtime.Lifecycle.Call.{ToolCallStatus, parse_tool_call_status}
use agent_trust_runtime.Sessions.{
  AgentSession, check_session, transition_session, SessionToolCall, check_tool_call,
  transition_tool_call,
}
use agent_trust_runtime.Sessions.Validity.{IsValid, IsValidCall}
use agent_trust_runtime.Sessions.Paths.{check_tool_call-eq}
use agent_trust_runtime.Governed.Waiting.{check_session-eq}
use agent_trust_runtime.Approvals.{
  ApprovalDecision, approved, denied, ApprovalRequest, check_approval, decide_approval, approve,
  deny, expire,
}
use agent_trust_runtime.Approvals.Decisions.{check_approval-eq, decide_approval-ok}
use agent_trust_runtime.Replay.{
  required_text, session_fields, session_from_event, tool_call_fields, tool_call_from_event,
  approval_fields, approval_from_event,
}
use agent_trust_runtime.Replay.Entities.{
  session_change, tool_call_change, approval_change, RecordedDecision, transition_session_named,
  apply_session_event, transition_tool_call_named, apply_tool_call_event, replay_decision,
  apply_approval_event,
}

check_session-IsValid : (s t : AgentSession) → check_session s ≡ ok t → (t ≡ s) × IsValid t
check_session-IsValid s t h =
    let e = check_session-eq s t h in (e, subst (λ x. check_session x ≡ ok t) (sym e) h)

check_tool_call-IsValidCall :
    (c d : SessionToolCall) → check_tool_call c ≡ ok d → (d ≡ c) × IsValidCall d
check_tool_call-IsValidCall c d h =
    let e = check_tool_call-eq c d h in (e, subst (λ x. check_tool_call x ≡ ok d) (sym e) h)

transition_session-kept :
    (now : String) (s t : AgentSession) (target : SessionStatus) (at : Option String)
    → transition_session now s target at ≡ ok t
    → IsValid t × (t.run_id ≡ s.run_id) × (t.session_id ≡ s.session_id)
unfolding transition_session
transition_session-kept now s t target at h =
    ground
      (arith, check_session-IsValid (record s { status = target; updated_at = or_else at now }) t)

transition_tool_call-kept :
    (now : String) (c d : SessionToolCall) (target : ToolCallStatus) (at : Option String)
    → transition_tool_call now c target at ≡ ok d
    → IsValidCall d × (d ≡ record c { status = target; updated_at = or_else at now })
unfolding transition_tool_call
transition_tool_call-kept now c d target at h = ground (
  arith,
  check_tool_call-IsValidCall (record c { status = target; updated_at = or_else at now }) d,
)

session_fields-run :
    (event : Fields) (run_id : String) (s : AgentSession)
    → required_text event "run_id" ≡ ok run_id
    → session_fields event ≡ ok s
    → s.run_id ≡ run_id
unfolding session_fields
session_fields-run event run_id s r h = ground arith

-- A session that an event creates is valid, and has the event's run.
pub session_from_event-ok :
    (event : Fields) (run_id : String) (s : AgentSession)
    → required_text event "run_id" ≡ ok run_id
    → session_from_event event ≡ ok s
    → IsValid s × (s.run_id ≡ run_id)
unfolding session_from_event
session_from_event-ok event run_id s r h =
    let (t, p, q) = >>=-ok (session_fields event) check_session h in
    let (made, v) = check_session-IsValid t s q in
    (v, ap (λ (x : AgentSession). x.run_id) made ∙ session_fields-run event run_id t r p)

transition_session_named-kept :
    (now : String) (s t : AgentSession) (change : String × String)
    → transition_session_named now s change ≡ ok t
    → IsValid t × (t.run_id ≡ s.run_id) × (t.session_id ≡ s.session_id)
unfolding transition_session_named
transition_session_named-kept now s t (status, at) h = go (parse_session_status status) refl
  where
    go :
        (o : Option SessionStatus)
        → parse_session_status status ≡ o
        → IsValid t × (t.run_id ≡ s.run_id) × (t.session_id ≡ s.session_id)
    go none e = cc (rw (transition_session_named, e) at h)
    go (some target) e =
        transition_session-kept now s t target (some at) (rw (transition_session_named, e) at h)

pub apply_session_event-ok :
    (now : String) (s t : AgentSession) (event : Fields)
    → apply_session_event now s event ≡ ok t
    → IsValid t × (t.run_id ≡ s.run_id) × (t.session_id ≡ s.session_id)
unfolding apply_session_event
apply_session_event-ok now s t event h =
    let (change, _, h) = >>=-ok (session_change s event) (transition_session_named now s) h in
    transition_session_named-kept now s t change h

transition_tool_call_named-kept :
    (now : String) (c d : SessionToolCall) (change : String × String)
    → transition_tool_call_named now c change ≡ ok d
    → (target : ToolCallStatus) × (updated_at : String) × IsValidCall d
      × (d ≡ record c { status = target; updated_at = updated_at })
unfolding transition_tool_call_named
transition_tool_call_named-kept now c d (status, at) h = go (parse_tool_call_status status) refl
  where
    go :
        (o : Option ToolCallStatus)
        → parse_tool_call_status status ≡ o
        → (target : ToolCallStatus) × (updated_at : String) × IsValidCall d
          × (d ≡ record c { status = target; updated_at = updated_at })
    go none e = cc (rw (transition_tool_call_named, e) at h)
    go (some target) e =
        let (v, moved) =
          transition_tool_call-kept now c d target (some at)
            (rw (transition_tool_call_named, e) at h) in
        (target, or_else (some at) now, v, moved)

pub apply_tool_call_event-ok :
    (host : Host) (now : String) (c d : SessionToolCall) (event : Fields)
    → apply_tool_call_event now host c event ≡ ok d
    → (target : ToolCallStatus) × (updated_at : String) × IsValidCall d
      × (d ≡ record c { status = target; updated_at = updated_at })
unfolding apply_tool_call_event
apply_tool_call_event-ok host now c d event h =
    let (change, _, h) =
      >>=-ok (tool_call_change host c event) (transition_tool_call_named now c) h in
    transition_tool_call_named-kept now c d change h

-- An approval that an event creates is valid.
pub approval_from_event-ok :
    (host : Host) (event : Fields) (a : ApprovalRequest)
    → approval_from_event host event ≡ ok a
    → check_approval host a ≡ ok a
unfolding approval_from_event
approval_from_event-ok host event a h =
    let (b, _, q) = >>=-ok (approval_fields event) (check_approval host) h in
    subst (λ x. check_approval host x ≡ ok a) (sym (check_approval-eq host b a q)) q

-- What a decision leaves as it was.
abbrev pub SameRequest : ApprovalRequest → ApprovalRequest → Type 0
SameRequest a b =
    (b.approval_id ≡ a.approval_id)
    × (b.run_id ≡ a.run_id)
    × (b.tool_call_id ≡ a.tool_call_id)
    × (b.tool_name ≡ a.tool_name)
    × (b.arguments_digest ≡ a.arguments_digest)

decide_approval-kept :
    (host : Host) (now : String) (a b : ApprovalRequest) (decision : ApprovalDecision)
    (who why : String) (at : Option String) (enforce : Bool)
    → decide_approval host now a decision who why at enforce ≡ ok b
    → (check_approval host b ≡ ok b) × SameRequest a b
decide_approval-kept host now a b decision who why at enforce h =
    let (_, _, e, v) = decide_approval-ok host now a b decision who why at enforce h in
    (v, rw e (refl, refl, refl, refl, refl))

expire-kept :
    (host : Host) (now : String) (a b : ApprovalRequest) (who : String) (at : Option String)
    → expire host now a who at ≡ ok b
    → (check_approval host b ≡ ok b) × SameRequest a b
unfolding expire
expire-kept host now a b who at h = ground (
  arith,
  decide_approval-kept host now a b denied who "approval_expired" (some (or_else at now)) false,
)

replay_decision-kept :
    (host : Host) (now : String) (a b : ApprovalRequest) (r : RecordedDecision)
    → replay_decision now host a r ≡ ok b
    → (check_approval host b ≡ ok b) × SameRequest a b
unfolding replay_decision approve deny
replay_decision-kept host now a b r h = ground (
  arith,
  decide_approval-kept host now a b approved r.approver_id r.decision_reason (some r.decided_at)
      true,
  decide_approval-kept host now a b denied r.approver_id r.decision_reason (some r.decided_at) true,
  expire-kept host now a b r.approver_id (some r.decided_at),
)

pub apply_approval_event-ok :
    (host : Host) (now : String) (a b : ApprovalRequest) (event : Fields)
    → apply_approval_event now host a event ≡ ok b
    → (check_approval host b ≡ ok b) × SameRequest a b
unfolding apply_approval_event
apply_approval_event-ok host now a b event h =
    let (r, _, q) = >>=-ok (approval_change a event) (replay_decision now host a) h in
    replay_decision-kept host now a b r q

-- A tool call that an event creates is valid.
pub tool_call_from_event-ok :
    (event : Fields) (c : SessionToolCall) → tool_call_from_event event ≡ ok c → IsValidCall c
unfolding tool_call_from_event
tool_call_from_event-ok event c h =
    let (d, _, q) = >>=-ok (tool_call_fields event) check_tool_call h in
    (check_tool_call-IsValidCall d c q).1
