-- ===== src/Replay/Run/Steps.antt =====
-- adapters/evidence/replay.py: every handler keeps what is known coherent.
use agent_trust_runtime.Base.{
  String, ◌≡◌, refl, sym, ◌∙◌, subst, Bool, true, false, ◌==◌, eq_iff, Option, none, some, List, [],
  ◌∷◌, ◌++◌, arith, if◌then◌else◌, Error, Result, ok, value_error, ◌>>=◌, ◌>>◌, require, >>=-ok,
  >>-ok,
}
use agent_trust_runtime.Base.Dict.{lookup, put, Entries, Entries-put, Entries-lookup, Entries-map}
use agent_trust_runtime.Value.{Fields}
use agent_trust_runtime.Host.{Host}
use agent_trust_runtime.Sessions.{AgentSession, SessionToolCall}
use agent_trust_runtime.Sessions.Validity.{IsValidCall}
use agent_trust_runtime.Approvals.{ApprovalRequest, check_approval}
use agent_trust_runtime.Replay.{
  required_text, session_from_event, tool_call_from_event, approval_from_event,
}
use agent_trust_runtime.Replay.Entities.{
  apply_session_event, apply_tool_call_event, apply_approval_event,
}
use agent_trust_runtime.Replay.Kept.{
  session_from_event-ok, apply_session_event-ok, tool_call_from_event-ok, apply_tool_call_event-ok,
  approval_from_event-ok, apply_approval_event-ok, SameRequest,
}
use agent_trust_runtime.Replay.Run.{
  ReplayState, present, admit_tool_call, admit_approval, recorded_intent, mapped_facts,
  on_session_created, on_session_status_changed, on_tool_call_requested,
  on_tool_call_status_changed, on_tool_intent, on_approval_requested, on_approval_decided,
  on_fact_mapped, dispatch, replay_event, replay_all,
}
use agent_trust_runtime.Replay.Run.Invariant.{
  IsCallOf, CallsFit, IsApprovalOf, approved_ids, taken, Distinct, IsCoherent, approvals-put,
  taken-any, Distinct-append, approved_ids-new, approved_ids-same,
}

pub present-ok : {A : Type 0} (o : Option A) (e : Error) (a : A) → present o e ≡ ok a → o ≡ some a
present-ok none e a h = cc
present-ok (some b) e a h = cc

pub state-eq : (a b : ReplayState) → ok a ≡ ok b → a ≡ b
state-eq a b h = cc

admit_tool_call-ok :
    (s : AgentSession) (st : ReplayState) (c : SessionToolCall)
    → admit_tool_call s st c ≡ ok tt
    → (c.run_id ≡ s.run_id)
      × (c.session_id ≡ s.session_id)
      × (lookup c.tool_call_id st.tool_calls ≡ none)
unfolding admit_tool_call
admit_tool_call-ok s st c h =
    ground (arith, eq_iff c.run_id s.run_id, eq_iff c.session_id s.session_id)

admit_approval-found :
    (run : String) (st : ReplayState) (a : ApprovalRequest) (o : Option SessionToolCall)
    → lookup a.tool_call_id st.tool_calls ≡ o
    → admit_approval run st a ≡ ok tt
    → (a.run_id ≡ run)
      × (lookup a.approval_id st.approvals ≡ none)
      × (taken a.tool_call_id (approved_ids st.approvals) ≡ false)
      × ((c : SessionToolCall) × (o ≡ some c)
          × (c.tool_name ≡ a.tool_name)
          × (c.arguments_digest ≡ a.arguments_digest))
unfolding admit_approval
admit_approval-found run st a none e h = ground (arith, e)
admit_approval-found run st a (some c) e h =
    let checks : (a.run_id ≡ run)
        × (lookup a.approval_id st.approvals ≡ none)
        × (taken a.tool_call_id (approved_ids st.approvals) ≡ false)
        × (c.tool_name ≡ a.tool_name)
        × (c.arguments_digest ≡ a.arguments_digest) =
      ground (
        arith,
        e,
        taken-any a.tool_call_id st.approvals,
        eq_iff a.run_id run,
        eq_iff c.tool_name a.tool_name,
        eq_iff c.arguments_digest a.arguments_digest,
      ) in
    let (r, l, t, n, d) = checks in (r, l, t, (c, refl, n, d))

abbrev SameCall : SessionToolCall → SessionToolCall → Type 0
SameCall c d =
    (d.tool_call_id ≡ c.tool_call_id)
    × (d.run_id ≡ c.run_id)
    × (d.session_id ≡ c.session_id)
    × (d.tool_name ≡ c.tool_name)
    × (d.arguments_digest ≡ c.arguments_digest)

module _ (host : Host) (run now : String) where
  on_session_created-IsCoherent :
      (st next : ReplayState) (event : Fields)
      → required_text event "run_id" ≡ ok run
      → IsCoherent host run st
      → on_session_created st event ≡ ok next
      → IsCoherent host run next
  unfolding on_session_created
  on_session_created-IsCoherent st next event r (calls, approvals, distinct) h = go st.session refl
    where
      go : (o : Option AgentSession) → st.session ≡ o → IsCoherent host run next
      go none e =
          let (s, p, q) =
            >>=-ok (session_from_event event) (λ s. ok (record st { session = some s }))
              (rw (on_session_created, e) at h) in
          let (v, i) = session_from_event-ok event run s r p in
          let no_calls : st.tool_calls ≡ [] = rw e at calls in
          subst (IsCoherent host run) (state-eq (record st { session = some s }) next q)
            ((v, i, subst (Entries (IsCallOf s)) (sym no_calls) tt), approvals, distinct)
      go (some s) e = cc (rw (on_session_created, e) at h)

  IsCallOf-moved :
      (s t : AgentSession)
      → t.run_id ≡ s.run_id
      → t.session_id ≡ s.session_id
      → (id : String) (c : SessionToolCall) → IsCallOf s id c
      → IsCallOf t id c
  IsCallOf-moved s t r i id c (v, n, p, q) = (v, n, p ∙ sym r, q ∙ sym i)

  on_session_status_changed-IsCoherent :
      (st next : ReplayState) (event : Fields)
      → IsCoherent host run st
      → on_session_status_changed host now st event ≡ ok next
      → IsCoherent host run next
  unfolding on_session_status_changed
  on_session_status_changed-IsCoherent st next event (calls, approvals, distinct) h =
      go st.session refl
    where
      go : (o : Option AgentSession) → st.session ≡ o → IsCoherent host run next
      go none e = absurd (cc (rw (on_session_status_changed, e) at h))
      go (some s) e =
          let (t, p, q) =
            >>=-ok (apply_session_event now s event) (λ t. ok (record st { session = some t }))
              (rw (on_session_status_changed, e) at h) in
          let (v, r, i) = apply_session_event-ok now s t event p in
          let fit : CallsFit run (some s) st.tool_calls = rw e at calls in
          subst (IsCoherent host run) (state-eq (record st { session = some t }) next q) (
            (
              v,
              r ∙ fit.1,
              Entries-map (IsCallOf s) (IsCallOf t) st.tool_calls (IsCallOf-moved s t r i) fit.2,
            ),
            approvals,
            distinct,
          )

  CallsFit-put :
      (o : Option AgentSession) (s : AgentSession) (calls : List (String × SessionToolCall))
      (c : SessionToolCall) (id : String)
      → o ≡ some s
      → CallsFit run o calls
      → IsCallOf s id c
      → CallsFit run o (put id c calls)
  CallsFit-put o s calls c id e fit p =
      let (v, r, cs) = subst (λ o. CallsFit run o calls) e fit in
      subst (λ o. CallsFit run o (put id c calls)) (sym e)
        (v, r, Entries-put (IsCallOf s) id c calls p cs)

  on_tool_call_requested-IsCoherent :
      (st next : ReplayState) (event : Fields)
      → IsCoherent host run st
      → on_tool_call_requested st event ≡ ok next
      → IsCoherent host run next
  unfolding on_tool_call_requested
  on_tool_call_requested-IsCoherent st next event (calls, approvals, distinct) h =
      let (s, e, h1) =
        >>=-ok (present st.session (value_error "tool call request precedes session creation"))
          (λ s. tool_call_from_event event >>= (λ c. admit_tool_call s st c >> added c)) h in
      let (c, p, h2) =
        >>=-ok (tool_call_from_event event) (λ c. admit_tool_call s st c >> added c) h1 in
      let (fits, q) = >>-ok (admit_tool_call s st c) (added c) h2 in
      let (r, i, fresh) = admit_tool_call-ok s st c fits in
      let known = present-ok st.session _ s e in
      subst (IsCoherent host run) (state-eq (with_call c) next q) (
        CallsFit-put st.session s st.tool_calls c c.tool_call_id known calls
            (tool_call_from_event-ok event c p, refl, r, i),
        approvals-put host run st.tool_calls c.tool_call_id c st.approvals
            (λ d found. cc (fresh, found)) approvals,
        distinct,
      )
    where
      with_call : SessionToolCall → ReplayState
      with_call c = record st { tool_calls = put c.tool_call_id c st.tool_calls }

      added : SessionToolCall → Result ReplayState
      added c = ok (with_call c)

  -- A call that is known and changes its status and its time alone.
  CallsFit-moved :
      (o : Option AgentSession) (calls : List (String × SessionToolCall)) (id : String)
      (c d : SessionToolCall)
      → lookup id calls ≡ some c
      → CallsFit run o calls
      → IsValidCall d
      → SameCall c d
      → CallsFit run o (put id d calls)
  unfolding lookup
  CallsFit-moved none calls id c d found fit v m = cc (subst (λ l. lookup id l ≡ some c) fit found)
  CallsFit-moved (some s) calls id c d found fit v (n, r, i, _, _) =
      let (_, n2, r2, i2) = Entries-lookup (IsCallOf s) id c calls fit.2 found in
      CallsFit-put (some s) s calls d id refl fit (v, n ∙ n2, r ∙ r2, i ∙ i2)

  on_tool_call_status_changed-IsCoherent :
      (st next : ReplayState) (event : Fields)
      → IsCoherent host run st
      → on_tool_call_status_changed host now st event ≡ ok next
      → IsCoherent host run next
  unfolding on_tool_call_status_changed
  on_tool_call_status_changed-IsCoherent st next event (calls, approvals, distinct) h =
      let (id, _, h1) =
        >>=-ok (required_text event "tool_call_id")
          (λ id. found id >>= (λ c. apply_tool_call_event now host c event >>= changed id)) h in
      let (c, e, h2) =
        >>=-ok (found id) (λ c. apply_tool_call_event now host c event >>= changed id) h1 in
      let (d, p, q) = >>=-ok (apply_tool_call_event now host c event) (changed id) h2 in
      let (_, _, v, m) = apply_tool_call_event-ok host now c d event p in
      let known = present-ok (lookup id st.tool_calls) _ c e in
      let same : SameCall c d = rw m (refl, refl, refl, refl, refl) in
      subst (IsCoherent host run) (state-eq (with_call id d) next q) (
        CallsFit-moved st.session st.tool_calls id c d known calls v same,
        approvals-put host run st.tool_calls id d st.approvals
            (λ x f.
              let e2 : c ≡ x = cc (known, f) in
              subst (λ x. (d.tool_name ≡ x.tool_name) × (d.arguments_digest ≡ x.arguments_digest))
                e2 (same.3, same.4))
            approvals,
        distinct,
      )
    where
      found : String → Result SessionToolCall
      found id =
          present (lookup id st.tool_calls)
            (value_error "tool call status references an unknown call")

      with_call : String → SessionToolCall → ReplayState
      with_call id d = record st { tool_calls = put id d st.tool_calls }

      changed : String → SessionToolCall → Result ReplayState
      changed id d = ok (with_call id d)

  on_tool_intent-IsCoherent :
      (st next : ReplayState) (event : Fields)
      → IsCoherent host run st
      → on_tool_intent st event ≡ ok next
      → IsCoherent host run next
  unfolding on_tool_intent
  on_tool_intent-IsCoherent st next event inv h =
      let (intent, _, q) =
        >>=-ok (recorded_intent st event)
          (λ i. ok (record st { arguments_by_tool_call = put i.0 i.1 st.arguments_by_tool_call }))
          h in
      subst (IsCoherent host run) (state-eq _ next q) inv

  on_fact_mapped-IsCoherent :
      (st next : ReplayState) (event : Fields)
      → IsCoherent host run st
      → on_fact_mapped st event ≡ ok next
      → IsCoherent host run next
  unfolding on_fact_mapped
  on_fact_mapped-IsCoherent st next event inv h =
      let (facts, _, q) =
        >>=-ok (mapped_facts event) (λ facts. ok (record st { facts = st.facts ++ facts })) h in
      subst (IsCoherent host run) (state-eq _ next q) inv

  on_approval_requested-IsCoherent :
      (st next : ReplayState) (event : Fields)
      → IsCoherent host run st
      → on_approval_requested host now run st event ≡ ok next
      → IsCoherent host run next
  unfolding on_approval_requested
  on_approval_requested-IsCoherent st next event (calls, approvals, distinct) h =
      let (a, p, h1) =
        >>=-ok (approval_from_event host event) (λ a. admit_approval run st a >> added a) h in
      let (fits, q) = >>-ok (admit_approval run st a) (added a) h1 in
      let (r, fresh, free, (c, f, n, d)) =
        admit_approval-found run st a (lookup a.tool_call_id st.tool_calls) refl fits in
      subst (IsCoherent host run) (state-eq (with_approval a) next q) (
        calls,
        Entries-put (IsApprovalOf host run st.tool_calls) a.approval_id a st.approvals
            (approval_from_event-ok host event a p, refl, r, (c, f, n, d)) approvals,
        subst Distinct (sym (approved_ids-new a.approval_id a st.approvals fresh))
            (Distinct-append a.tool_call_id (approved_ids st.approvals) distinct free),
      )
    where
      with_approval : ApprovalRequest → ReplayState
      with_approval a = record st { approvals = put a.approval_id a st.approvals }

      added : ApprovalRequest → Result ReplayState
      added a = ok (with_approval a)

  IsApprovalOf-decided :
      (calls : List (String × SessionToolCall)) (id : String) (a b : ApprovalRequest)
      → check_approval host b ≡ ok b
      → SameRequest a b
      → IsApprovalOf host run calls id a
      → IsApprovalOf host run calls id b
  IsApprovalOf-decided calls id a b v (i, r, t, n, d) (_, i2, r2, (c, f, n2, d2)) = (
    v,
    i ∙ i2,
    r ∙ r2,
    (c, subst (λ k. lookup k calls ≡ some c) (sym t) f, n2 ∙ sym n, d2 ∙ sym d),
  )

  on_approval_decided-IsCoherent :
      (st next : ReplayState) (event : Fields)
      → IsCoherent host run st
      → on_approval_decided host now st event ≡ ok next
      → IsCoherent host run next
  unfolding on_approval_decided
  on_approval_decided-IsCoherent st next event (calls, approvals, distinct) h =
      let (id, _, h1) =
        >>=-ok (required_text event "approval_id")
          (λ id. found id >>= (λ a. apply_approval_event now host a event >>= decided id)) h in
      let (a, e, h2) =
        >>=-ok (found id) (λ a. apply_approval_event now host a event >>= decided id) h1 in
      let (b, p, q) = >>=-ok (apply_approval_event now host a event) (decided id) h2 in
      let (v, same) = apply_approval_event-ok host now a b event p in
      let known = present-ok (lookup id st.approvals) _ a e in
      subst (IsCoherent host run) (state-eq (with_approval id b) next q) (
        calls,
        Entries-put (IsApprovalOf host run st.tool_calls) id b st.approvals
            (IsApprovalOf-decided st.tool_calls id a b v same (
              Entries-lookup (IsApprovalOf host run st.tool_calls) id a st.approvals approvals
                known))
            approvals,
        subst Distinct (sym (approved_ids-same id b a st.approvals known same.2)) distinct,
      )
    where
      found : String → Result ApprovalRequest
      found id =
          present (lookup id st.approvals)
            (value_error "approval decision references an unknown approval")

      with_approval : String → ApprovalRequest → ReplayState
      with_approval id b = record st { approvals = put id b st.approvals }

      decided : String → ApprovalRequest → Result ReplayState
      decided id b = ok (with_approval id b)

  dispatch-IsCoherent :
      (st next : ReplayState) (event_type : String) (event : Fields)
      → required_text event "run_id" ≡ ok run
      → IsCoherent host run st
      → dispatch host now event_type run st event ≡ ok next
      → IsCoherent host run next
  unfolding dispatch
  dispatch-IsCoherent st next event_type event r inv =
      branch (event_type == "session_created") _ _
        (on_session_created-IsCoherent st next event r inv)
        (branch (event_type == "session_status_changed") _ _
          (on_session_status_changed-IsCoherent st next event inv)
          (branch (event_type == "tool_call_requested") _ _
            (on_tool_call_requested-IsCoherent st next event inv)
            (branch (event_type == "tool_call_status_changed") _ _
              (on_tool_call_status_changed-IsCoherent st next event inv)
              (branch (event_type == "tool_intent") _ _
                (on_tool_intent-IsCoherent st next event inv)
                (branch (event_type == "approval_requested") _ _
                  (on_approval_requested-IsCoherent st next event inv)
                  (branch (event_type == "approval_decided") _ _
                    (on_approval_decided-IsCoherent st next event inv)
                    (branch (event_type == "fact_mapped") _ _
                      (on_fact_mapped-IsCoherent st next event inv)
                      (λ q. subst (IsCoherent host run) (state-eq st next q) inv))))))))
    where
      branch :
          (b : Bool) (x y : Result ReplayState)
          → (x ≡ ok next → IsCoherent host run next)
          → (y ≡ ok next → IsCoherent host run next)
          → (if b then x else y) ≡ ok next
          → IsCoherent host run next
      branch true x y f g h = f h
      branch false x y f g h = g h

  -- An event that is replayed keeps the state coherent.
  replay_event-IsCoherent :
      (st next : ReplayState) (event : Fields)
      → IsCoherent host run st
      → replay_event host now run st event ≡ ok next
      → IsCoherent host run next
  unfolding replay_event
  replay_event-IsCoherent st next event inv h =
      let (id, e, h1) = >>=-ok (required_text event "run_id") (λ id. same_run id >> typed id) h in
      let (same, h2) = >>-ok (same_run id) (typed id) h1 in
      let (event_type, _, q) =
        >>=-ok (required_text event "event_type") (λ t. dispatch host now t id st event) h2 in
      let known : id ≡ run = ground (arith, same, eq_iff id run) in
      dispatch-IsCoherent st next event_type event
        (subst (λ i. required_text event "run_id" ≡ ok i) known e) inv
        (subst (λ i. dispatch host now event_type i st event ≡ ok next) known q)
    where
      same_run : String → Result (Unit {0})
      same_run id =
          require (id == run) (value_error "evidence event run_id does not match run directory")

      typed : String → Result ReplayState
      typed id = do
        event_type ← required_text event "event_type"
        dispatch host now event_type id st event

  pub replay_all-IsCoherent :
      (st last : ReplayState) (events : List Fields)
      → IsCoherent host run st
      → replay_all host now run st events ≡ ok last
      → IsCoherent host run last
  unfolding replay_all
  replay_all-IsCoherent st last [] inv h = subst (IsCoherent host run) (state-eq st last h) inv
  replay_all-IsCoherent st last (event ∷ events) inv h =
      let (next, p, q) =
        >>=-ok (replay_event host now run st event) (λ next. replay_all host now run next events)
          h in
      replay_all-IsCoherent next last events (replay_event-IsCoherent st next event inv p) q
