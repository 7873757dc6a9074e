-- ===== src/Replay/Run/Bound.antt =====
-- adapters/evidence/replay.py: what a trace that replays says of its session, calls and approvals.
use agent_trust_runtime.Base.{
  String, ◌≡◌, refl, sym, ap, ◌∙◌, subst, ◌==◌, eq_iff, some, List, [], ◌∷◌, arith, Result, ok,
  value_error, require, ◌>>=◌, ◌>>◌, >>=-ok, >>-ok,
}
use agent_trust_runtime.Base.Dict.{lookup, values, Entries, Entries-lookup, Entries-map}
use agent_trust_runtime.Value.{Fields}
use agent_trust_runtime.Host.{Host}
use agent_trust_runtime.Sessions.{AgentSession, SessionToolCall, arguments_digest}
use agent_trust_runtime.Sessions.Validity.{IsValid, IsValidCall}
use agent_trust_runtime.Approvals.{ApprovalRequest, check_approval}
use agent_trust_runtime.Replay.Run.{
  ReplayState, nothing_replayed, ReplayedRunState, arguments_for, present, sort_calls, replay_all,
  check_intents, replay_events,
}
use agent_trust_runtime.Replay.Run.Invariant.{
  IsCallOf, CallsFit, IsApprovalOf, approved_ids, Distinct, IsCoherent,
}
use agent_trust_runtime.Replay.Run.Sorting.{
  AllCalls, AmongCalls, Ordered, sort_calls-AllCalls, sort_calls-Ordered, sort_calls-AmongCalls,
  lookup-AmongCalls, Entries-AllCalls,
}
use agent_trust_runtime.Replay.Run.Steps.{present-ok, replay_all-IsCoherent}

-- A call of the session that was recorded with arguments of the digest it names.
abbrev pub IsRecorded : Host → ReplayedRunState → SessionToolCall → Type 0
IsRecorded host r c =
    IsValidCall c
    × (c.run_id ≡ r.session.run_id)
    × (c.session_id ≡ r.session.session_id)
    × ((d : Fields) × (arguments_for r c ≡ ok d)
        × (arguments_digest host d ≡ ok c.arguments_digest))

-- An approval of the run, for the arguments of one of its calls.
abbrev pub IsForCall : Host → ReplayedRunState → ApprovalRequest → Type 0
IsForCall host r a =
    (check_approval host a ≡ ok a)
    × (a.run_id ≡ r.session.run_id)
    × ((c : SessionToolCall) × AmongCalls c r.tool_calls
        × (c.tool_call_id ≡ a.tool_call_id)
        × (c.tool_name ≡ a.tool_name)
        × (c.arguments_digest ≡ a.arguments_digest))

abbrev pub AllApprovals : (ApprovalRequest → Type 0) → List ApprovalRequest → Type 0
AllApprovals P [] = Unit
AllApprovals P (a ∷ rest) = P a × AllApprovals P rest

abbrev pub call_ids : List ApprovalRequest → List String
call_ids [] = []
call_ids (a ∷ rest) = a.tool_call_id ∷ call_ids rest

abbrev pub IsEvidenced : Host → String → ReplayedRunState → Type 0
IsEvidenced host run r =
    IsValid r.session
    × (r.session.run_id ≡ run)
    × AllCalls (IsRecorded host r) r.tool_calls
    × Ordered r.tool_calls
    × AllApprovals (IsForCall host r) r.approvals
    × Distinct (call_ids r.approvals)

call_ids-values : (d : List (String × ApprovalRequest)) → call_ids (values d) ≡ approved_ids d
call_ids-values [] = refl
call_ids-values ((k, a) ∷ d) = ap (λ ids. a.tool_call_id ∷ ids) (call_ids-values d)

Entries-AllApprovals :
    (P : ApprovalRequest → Type 0) (d : List (String × ApprovalRequest))
    → Entries (λ id a. P a) d
    → AllApprovals P (values d)
Entries-AllApprovals P [] h = tt
Entries-AllApprovals P ((id, a) ∷ d) h = (h.0, Entries-AllApprovals P d h.1)

-- The arguments that stand under the name of a call.
abbrev HasArguments : Host → List (String × Fields) → String → SessionToolCall → Type 0
HasArguments host recorded id c =
    (d : Fields) × (lookup id recorded ≡ some d) × (arguments_digest host d ≡ ok c.arguments_digest)

check_intents-ok :
    (host : Host) (now : String) (recorded : List (String × Fields))
    (calls : List (String × SessionToolCall))
    → check_intents host now recorded calls ≡ ok tt
    → Entries (HasArguments host recorded) calls
unfolding check_intents
check_intents-ok host now recorded [] h = tt
check_intents-ok host now recorded ((id, c) ∷ calls) h =
    let (d, e, h1) = >>=-ok found (λ d. arguments_digest host d >>= checked) h in
    let (digest, p, h2) = >>=-ok (arguments_digest host d) checked h1 in
    let (same, q) = >>-ok (fits digest) (check_intents host now recorded calls) h2 in
    let known : digest ≡ c.arguments_digest =
      ground (arith, same, eq_iff digest c.arguments_digest) in
    (
      (d, present-ok (lookup id recorded) _ d e, p ∙ ap ok known),
      check_intents-ok host now recorded calls q,
    )
  where
    found : Result Fields
    found = present (lookup id recorded) (value_error "tool call has no persisted tool intent")

    fits : String → Result (Unit {0})
    fits digest =
        require (digest == c.arguments_digest)
          (value_error "tool call arguments do not match its recorded digest")

    checked : String → Result (Unit {0})
    checked digest = fits digest >> check_intents host now recorded calls

Entries-both :
    {A : Type 0} (P Q : String → A → Type 0) (d : List (String × A))
    → Entries P d
    → Entries Q d
    → Entries (λ k v. P k v × Q k v) d
Entries-both P Q [] h g = tt
Entries-both P Q ((k, v) ∷ d) h g = ((h.0, g.0), Entries-both P Q d h.1 g.1)

arguments_for-found :
    (r : ReplayedRunState) (c : SessionToolCall) (d : Fields)
    → lookup c.tool_call_id r.arguments_by_tool_call ≡ some d
    → arguments_for r c ≡ ok d
unfolding arguments_for
arguments_for-found r c d h = rw (arguments_for, h)

result-eq : (a b : ReplayedRunState) → ok a ≡ ok b → a ≡ b
result-eq a b h = cc

module _ (host : Host) (now run : String) where
  abbrev replayed : AgentSession → ReplayState → ReplayedRunState
  replayed s st = record {
    session = s;
    tool_calls = sort_calls (values st.tool_calls);
    approvals = values st.approvals;
    facts = st.facts;
    arguments_by_tool_call = st.arguments_by_tool_call;
  }

  IsRecorded-replayed :
      (s : AgentSession) (st : ReplayState) (id : String) (c : SessionToolCall)
      → IsCallOf s id c × HasArguments host st.arguments_by_tool_call id c
      → IsRecorded host (replayed s st) c
  IsRecorded-replayed s st id c ((v, n, r, i), (d, l, g)) =
      let found = subst (λ k. lookup k st.arguments_by_tool_call ≡ some d) (sym n) l in
      (v, r, i, (d, arguments_for-found (replayed s st) c d found, g))

  IsForCall-replayed :
      (s : AgentSession) (st : ReplayState)
      → s.run_id ≡ run
      → Entries (IsCallOf s) st.tool_calls
      → (id : String) (a : ApprovalRequest) → IsApprovalOf host run st.tool_calls id a
      → IsForCall host (replayed s st) a
  IsForCall-replayed s st e calls id a (v, _, r, (c, f, n, d)) = (
    v,
    r ∙ sym e,
    (
      c,
      sort_calls-AmongCalls c (values st.tool_calls)
          (lookup-AmongCalls a.tool_call_id c st.tool_calls f),
      (Entries-lookup (IsCallOf s) a.tool_call_id c st.tool_calls calls f).1,
      n,
      d,
    ),
  )

  replayed-IsEvidenced :
      (s : AgentSession) (st : ReplayState)
      → st.session ≡ some s
      → IsCoherent host run st
      → Entries (HasArguments host st.arguments_by_tool_call) st.tool_calls
      → IsEvidenced host run (replayed s st)
  replayed-IsEvidenced s st e (fit, approvals, distinct) args =
      let owned : CallsFit run (some s) st.tool_calls =
        subst (λ o. CallsFit run o st.tool_calls) e fit in
      let (v, r, calls) = owned in
      let has = HasArguments host st.arguments_by_tool_call in
      (
        v,
        r,
        sort_calls-AllCalls (IsRecorded host (replayed s st)) (values st.tool_calls) (
            Entries-AllCalls (IsRecorded host (replayed s st)) st.tool_calls (
              Entries-map (λ id c. IsCallOf s id c × has id c)
                (λ id c. IsRecorded host (replayed s st) c) st.tool_calls (IsRecorded-replayed s st)
                (Entries-both (IsCallOf s) has st.tool_calls calls args))),
        sort_calls-Ordered (values st.tool_calls),
        Entries-AllApprovals (IsForCall host (replayed s st)) st.approvals (
            Entries-map (IsApprovalOf host run st.tool_calls)
              (λ id a. IsForCall host (replayed s st) a) st.approvals
              (IsForCall-replayed s st r calls) approvals),
        subst Distinct (sym (call_ids-values st.approvals)) distinct,
      )

  -- A trace that replays has one valid session, of the run that was expected. Each of its tool calls
  -- is valid, belongs to that session and was recorded with arguments of the digest that it names;
  -- the calls come in the order of their sequence. Each approval is valid and is for a call of the
  -- run with the same tool and the same digest, and no call has two approvals.
  pub replay_events-IsEvidenced :
      (events : List Fields) (r : ReplayedRunState)
      → replay_events host now events run ≡ ok r
      → IsEvidenced host run r
  unfolding replay_events
  replay_events-IsEvidenced events r h =
      let (st, p, h1) = >>=-ok (replay_all host now run nothing_replayed events) finish h in
      let (s, e, h2) = >>=-ok (found st) (closed st) h1 in
      let (ok_intents, q) = >>-ok (intents st) (ok (replayed s st)) h2 in
      subst (IsEvidenced host run) (result-eq (replayed s st) r q) (
        replayed-IsEvidenced s st (present-ok st.session _ s e)
          (replay_all-IsCoherent host run now nothing_replayed st events (refl, tt, tt) p)
          (check_intents-ok host now st.arguments_by_tool_call st.tool_calls ok_intents))
    where
      found : ReplayState → Result AgentSession
      found st = present st.session (value_error "run has no session_created event")

      intents : ReplayState → Result (Unit {0})
      intents st = check_intents host now st.arguments_by_tool_call st.tool_calls

      closed : ReplayState → AgentSession → Result ReplayedRunState
      closed st s = intents st >> ok (replayed s st)

      finish : ReplayState → Result ReplayedRunState
      finish st = found st >>= closed st
