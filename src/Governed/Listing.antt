-- ===== src/Governed/Listing.antt =====
-- application/governed_session.py: the ids that wait are those of the calls that wait.
use agent_trust_runtime.Base.{
  ℕ, >>=-ok, not, ◌&&◌, is_empty, String, ◌≡◌, refl, sym, ap, subst, Bool, true, false, Option,
  none, some, List, [], ◌∷◌, ◌==◌, eq_iff, one_of, arith, if◌then◌else◌, ok, runtime_error,
}
use agent_trust_runtime.Base.Digits.{call_id}
use agent_trust_runtime.Exec.{raise}
use agent_trust_runtime.Exec.Rules.{
  Ensures, Keeps, Ensures-raise, Ensures-if, Ensures-bind, Ensures-then, Keeps-when, Keeps-pure,
}
use agent_trust_runtime.Value.{Fields}
use agent_trust_runtime.Host.{Host}
use agent_trust_runtime.Lifecycle.Session.{SessionStatus}
use agent_trust_runtime.Lifecycle.Call.{ToolCallStatus}
use agent_trust_runtime.Sessions.{
  SessionToolCall, check_tool_call, create_tool_call, arguments_digest, transition_tool_call,
  is_terminal_session,
}
use agent_trust_runtime.Sessions.Validity.{moved_call}
use agent_trust_runtime.Governed.{
  Governed, Setup, discard, add, is_waiting, is_running, is_session_waiting, change_status,
  reconcile, record_active, record_tool_status,
}
use agent_trust_runtime.Governed.Rules.{
  Ensures-with_state, Ensures-lift, Ensures-modify, Keeps-modify, Ensures-from, on_world-Keeps,
  with_state-Keeps,
}
use agent_trust_runtime.Governed.Waiting.{emit-Keeps}

-- A call with that status waits for an approval.
abbrev pub waits : ToolCallStatus → Bool
waits ToolCallStatus.waiting_approval = true
waits status = false

pub is_waiting-waits : (status : ToolCallStatus) → is_waiting status ≡ waits status
unfolding is_waiting
is_waiting-waits ToolCallStatus.waiting_approval = refl
is_waiting-waits status = ground arith

-- Of the ids `now`, the call's is among them exactly while it waits, and any other exactly if it was
-- among `before`.
abbrev pub Lists : (before now : List String) → SessionToolCall → Type 0
Lists before now c =
    (j : String) → one_of j now ≡ (if j == c.tool_call_id then waits c.status else one_of j before)

one_of-discard :
    (j id : String) (ids : List String)
    → one_of j (discard id ids) ≡ (if j == id then false else one_of j ids)
unfolding discard
one_of-discard j id [] = ground arith
one_of-discard j id (x ∷ xs) =
    ground (arith, eq_iff x id, eq_iff j id, eq_iff j x, one_of-discard j id xs)

one_of-add :
    (j id : String) (ids : List String)
    → one_of j (add id ids) ≡ (if j == id then true else one_of j ids)
unfolding add
one_of-add j id ids = ground (arith, one_of-discard j id ids)

-- The ids after the status of a call is recorded.
abbrev relisted : ToolCallStatus → String → List String → List String
relisted status id ids = if is_waiting status then add id ids else discard id ids

relisted-Lists :
    (before ids : List String) (c next : SessionToolCall) (status : ToolCallStatus)
    → Lists before ids c
    → next.tool_call_id ≡ c.tool_call_id
    → next.status ≡ status
    → Lists before (relisted status next.tool_call_id ids) next
relisted-Lists before ids c next status h i e j = ground (
  arith,
  h j,
  one_of-add j next.tool_call_id ids,
  one_of-discard j next.tool_call_id ids,
  is_waiting-waits next.status,
)

check_tool_call-eq : (a b : SessionToolCall) → check_tool_call a ≡ ok b → b ≡ a
unfolding check_tool_call
check_tool_call-eq a b h = ground arith

transition_tool_call-moved :
    (now : String) (c next : SessionToolCall) (status : ToolCallStatus)
    → transition_tool_call now c status none ≡ ok next
    → next ≡ moved_call c status now
unfolding transition_tool_call
transition_tool_call-moved now c next status h =
    ground (arith, check_tool_call-eq (moved_call c status now) next)

abbrev new_call : (now run session tool digest : String) (n : ℕ) → SessionToolCall
new_call now run session tool digest n = record {
  run_id = run;
  session_id = session;
  tool_call_id = call_id n;
  sequence = n;
  tool_name = tool;
  arguments_digest = digest;
  requested_at = now;
  updated_at = now;
  status = ToolCallStatus.requested;
  policy_rule_id = none;
}

-- A call that is made has the id of its sequence and is requested.
pub create_tool_call-requested :
    (host : Host) (now run session tool : String) (n : ℕ) (arguments : Fields) (c : SessionToolCall)
    → create_tool_call host now run session n tool arguments none none ≡ ok c
    → (c.tool_call_id ≡ call_id n) × (c.status ≡ ToolCallStatus.requested)
unfolding create_tool_call
create_tool_call-requested host now run session tool n arguments c h =
    let (digest, digested, made) = >>=-ok (arguments_digest host arguments) _ h in
    let e = check_tool_call-eq (new_call now run session tool digest n) c made in
    (ap (λ (x : SessionToolCall). x.tool_call_id) e, ap (λ (x : SessionToolCall). x.status) e)

-- The active call, if there is one, is listed.
abbrev pub ActiveLists : (before now : List String) → Option SessionToolCall → Type 0
ActiveLists before now none = Unit
ActiveLists before now (some c) = Lists before now c

module _ (before : List String) {W : Type 0} where
  abbrev pub IsTracked : Governed W → Type 0
  IsTracked s = ActiveLists before s.pending s.active

  pub world-IsTracked : (s : Governed W) (w : W) → IsTracked s → IsTracked (record s { world = w })
  world-IsTracked s w p = p

  module _ (setup : Setup W) where
    change_status-IsTracked :
        (target : SessionStatus) → Keeps IsTracked (change_status setup target)
    unfolding change_status
    change_status-IsTracked target = Ensures-then _ _ (on_world-Keeps _ world-IsTracked) λ now.
        Ensures-then _ _ (with_state-Keeps _ λ t. Ensures-lift _ λ a s e p. p) λ next.
          Ensures-then _ _ (Keeps-modify _ λ s p. p) λ _.
            Ensures-then _ _ (emit-Keeps setup _ _ world-IsTracked) λ _.
              Keeps-when _ _
                (Ensures-then _ _ (emit-Keeps setup _ _ world-IsTracked) λ _. Keeps-pure _)

    reconcile-IsTracked : Keeps IsTracked (reconcile setup)
    unfolding reconcile
    reconcile-IsTracked = with_state-Keeps _ λ t.
        Ensures-if (is_terminal_session t.session) _ _ (λ _. Keeps-pure tt)
          λ _.
            Ensures-if (not (is_empty t.pending) && is_running t.session.status) _ _
              (λ _. change_status-IsTracked SessionStatus.waiting_approval)
              λ _.
                Ensures-if (is_empty t.pending && is_session_waiting t.session.status) _ _
                  (λ _. change_status-IsTracked SessionStatus.running) λ _. Keeps-pure tt

    -- The state between the transition and the listing of a call.
    abbrev Moved : SessionToolCall → ToolCallStatus → SessionToolCall → Governed W → Type 0
    Moved c status next s =
        Lists before s.pending c
        × (next.tool_call_id ≡ c.tool_call_id)
        × (next.status ≡ status)
        × (s.active ≡ some next)

    record_active-IsTracked :
        (status : ToolCallStatus) (c : SessionToolCall)
        → Ensures
            (λ s. Lists before s.pending c)
            (λ _ s. IsTracked s)
            (record_active setup status c)
    unfolding record_active
    record_active-IsTracked status c = Ensures-then _ _ (on_world-Keeps _ λ s w p. p) λ now.
        Ensures-bind
          (λ (next : SessionToolCall) s.
            Lists before s.pending c
            × (next.tool_call_id ≡ c.tool_call_id)
            × (next.status ≡ status))
          _ _
          (Ensures-lift _ λ next s made p.
            let e = transition_tool_call-moved now c next status made in
            (
              p,
              ap (λ (x : SessionToolCall). x.tool_call_id) e,
              ap (λ (x : SessionToolCall). x.status) e,
            ))
          λ next.
            Ensures-bind (λ _. Moved c status next) _ _
              (Ensures-modify _ λ s p. (p.0, p.1, p.2, refl))
              λ _. Ensures-then _ _ (emit-Keeps setup _ _ λ s w p. p) λ _.
                Ensures-bind (λ _. IsTracked) _ _
                  (Ensures-modify _ λ s (p, i, e, a).
                    subst (ActiveLists before (relisted status next.tool_call_id s.pending)) (sym a)
                      (relisted-Lists before s.pending c next status p i e))
                  λ _. reconcile-IsTracked

    -- A status that is recorded keeps the active call listed.
    pub record_tool_status-IsTracked :
        (status : ToolCallStatus) → Keeps IsTracked (record_tool_status setup status)
    unfolding record_tool_status
    record_tool_status-IsTracked status =
        Ensures-with_state _ λ t tracked. active t t.active refl tracked
      where
        active :
            (t : Governed W) (o : Option SessionToolCall)
            → t.active ≡ o
            → IsTracked t
            → Ensures {A = Unit {0}}
                (λ s. s ≡ t)
                (λ _ s. IsTracked s)
                (elim o [
                  | none ↦ raise (runtime_error "tool call lifecycle event has no active tool call")
                  | some call ↦ record_active setup status call
                ])
        active t none e tracked = Ensures-raise _
        active t (some c) e tracked =
            Ensures-from _
              (λ s same.
                subst (λ (u : Governed W). Lists before u.pending c) (sym same)
                  (subst (ActiveLists before t.pending) e tracked))
              (record_active-IsTracked status c)
