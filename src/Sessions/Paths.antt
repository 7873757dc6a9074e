-- ===== src/Sessions/Paths.antt =====
-- domain/sessions.py and domain/lifecycle.py: the paths that a tool call can take.
use agent_trust_runtime.Base.{
  ℕ, suc, ◌+◌, ◌≤◌, String, ◌≡◌, refl, true, Option, none, List, [], ◌∷◌, length, or_else, ap,
  subst, arith, member, Result, ok, raised,
}
use agent_trust_runtime.Lifecycle.Call.{
  ToolCallStatus, ToolCallStatus-discrete, tool_call_transitions,
}
use agent_trust_runtime.Sessions.{SessionToolCall, check_tool_call, transition_tool_call}

-- The targets are taken one after the other; the first refusal ends the walk.
unfoldable pub walk : String → SessionToolCall → List ToolCallStatus → Result SessionToolCall
walk now c [] = ok c
walk now c (t ∷ ts) = elim (transition_tool_call now c t none) [
  | ok d ↦ walk now d ts
  | raised e ↦ raised e
]

-- How many transitions a status may still be away from the end.
abbrev reserve : ToolCallStatus → ℕ
reserve ToolCallStatus.requested = 4
reserve ToolCallStatus.waiting_approval = 3
reserve ToolCallStatus.approved = 2
reserve ToolCallStatus.executing = 1
reserve _ = 0

abbrev status_of : SessionToolCall → ToolCallStatus
status_of c = c.status

pub check_tool_call-eq : (c d : SessionToolCall) → check_tool_call c ≡ ok d → d ≡ c
unfolding check_tool_call
check_tool_call-eq c d h = ground arith

-- What a transition that succeeds has checked, and what it returns.
pub transition_tool_call-ok :
    (now : String) (c d : SessionToolCall) (t : ToolCallStatus) (at : Option String)
    → transition_tool_call now c t at ≡ ok d
    → (member ToolCallStatus-discrete t (tool_call_transitions c.status) ≡ true)
      × (d ≡ record c { status = t; updated_at = or_else at now })
unfolding transition_tool_call
transition_tool_call-ok now c d t at h =
    ground (arith, check_tool_call-eq (record c { status = t; updated_at = or_else at now }) d)

edge-reserve :
    (s t : ToolCallStatus)
    → member ToolCallStatus-discrete t (tool_call_transitions s) ≡ true
    → suc (reserve t) ≤ reserve s
unfolding tool_call_transitions ToolCallStatus-discrete
edge-reserve s t h = ground arith

walk-nil : (now : String) (c d : SessionToolCall) → walk now c [] ≡ ok d → c ≡ d
unfolding walk
walk-nil now c d h = cc

walk-cons :
    (now : String) (c d : SessionToolCall) (t : ToolCallStatus) (ts : List ToolCallStatus)
    → walk now c (t ∷ ts) ≡ ok d
    → (e : SessionToolCall) × (transition_tool_call now c t none ≡ ok e) × (walk now e ts ≡ ok d)
unfolding walk
walk-cons now c d t ts h = go (transition_tool_call now c t none) refl
  where
    go :
        (r : Result SessionToolCall)
        → transition_tool_call now c t none ≡ r
        → (e : SessionToolCall) × (transition_tool_call now c t none ≡ ok e)
          × (walk now e ts ≡ ok d)
    go (ok e) p = (e, p, rw (p, walk) at h)
    go (raised e) p = cc (rw (p, walk) at h)

-- The statuses of a path along the lifecycle's edges.
abbrev Follows : ToolCallStatus → List ToolCallStatus → ToolCallStatus → Type 0
Follows s [] e = s ≡ e
Follows s (t ∷ ts) e =
    (member ToolCallStatus-discrete t (tool_call_transitions s) ≡ true) × Follows t ts e

walk-Follows :
    (now : String) (c d : SessionToolCall) (ts : List ToolCallStatus)
    → walk now c ts ≡ ok d
    → Follows c.status ts d.status
walk-Follows now c d [] h = ap status_of (walk-nil now c d h)
walk-Follows now c d (t ∷ ts) h =
    let (e, p, q) = walk-cons now c d t ts h in
    let (edge, moved) = transition_tool_call-ok now c e t none p in
    (edge, subst (λ s. Follows s ts d.status) (ap status_of moved) (walk-Follows now e d ts q))

Follows-length :
    (s e : ToolCallStatus) (ts : List ToolCallStatus)
    → Follows s ts e
    → length ts + reserve e ≤ reserve s
Follows-length s e [] h = omega (arith, ap reserve h)
Follows-length s e (t ∷ ts) h = omega (arith, edge-reserve s t h.0, Follows-length t e ts h.1)

Follows-succeeded :
    (ts : List ToolCallStatus) (e : ToolCallStatus)
    → Follows ToolCallStatus.succeeded ts e
    → ts ≡ []
unfolding tool_call_transitions
Follows-succeeded [] e h = refl
Follows-succeeded (t ∷ ts) e h = cc (h.0)

Follows-failed :
    (ts : List ToolCallStatus) → Follows ToolCallStatus.failed ts ToolCallStatus.succeeded → ⊥
unfolding tool_call_transitions
Follows-failed [] h = cc
Follows-failed (t ∷ ts) h = cc (h.0)

Follows-executing :
    (ts : List ToolCallStatus)
    → Follows ToolCallStatus.executing ts ToolCallStatus.succeeded
    → ts ≡ ToolCallStatus.succeeded ∷ []
unfolding tool_call_transitions ToolCallStatus-discrete
Follows-executing [] h = cc
Follows-executing (ToolCallStatus.succeeded ∷ ts) h =
    ap (λ us. ToolCallStatus.succeeded ∷ us) (Follows-succeeded ts ToolCallStatus.succeeded h.1)
Follows-executing (ToolCallStatus.failed ∷ ts) h = absurd (Follows-failed ts h.1)
Follows-executing (t ∷ ts) h = cc (h.0)

Follows-sandbox_denied :
    (ts : List ToolCallStatus)
    → Follows ToolCallStatus.sandbox_denied ts ToolCallStatus.succeeded
    → ⊥
unfolding tool_call_transitions
Follows-sandbox_denied [] h = cc
Follows-sandbox_denied (t ∷ ts) h = cc (h.0)

Follows-policy_denied :
    (ts : List ToolCallStatus)
    → Follows ToolCallStatus.policy_denied ts ToolCallStatus.succeeded
    → ⊥
unfolding tool_call_transitions
Follows-policy_denied [] h = cc
Follows-policy_denied (t ∷ ts) h = cc (h.0)

Follows-approved :
    (ts : List ToolCallStatus)
    → Follows ToolCallStatus.approved ts ToolCallStatus.succeeded
    → ts ≡ ToolCallStatus.executing ∷ ToolCallStatus.succeeded ∷ []
unfolding tool_call_transitions ToolCallStatus-discrete
Follows-approved [] h = cc
Follows-approved (ToolCallStatus.executing ∷ ts) h =
    ap (λ us. ToolCallStatus.executing ∷ us) (Follows-executing ts h.1)
Follows-approved (ToolCallStatus.sandbox_denied ∷ ts) h = absurd (Follows-sandbox_denied ts h.1)
Follows-approved (ToolCallStatus.failed ∷ ts) h = absurd (Follows-failed ts h.1)
Follows-approved (t ∷ ts) h = cc (h.0)

Follows-waiting :
    (ts : List ToolCallStatus)
    → Follows ToolCallStatus.waiting_approval ts ToolCallStatus.succeeded
    → ts ≡ ToolCallStatus.approved ∷ ToolCallStatus.executing ∷ ToolCallStatus.succeeded ∷ []
unfolding tool_call_transitions ToolCallStatus-discrete
Follows-waiting [] h = cc
Follows-waiting (ToolCallStatus.approved ∷ ts) h =
    ap (λ us. ToolCallStatus.approved ∷ us) (Follows-approved ts h.1)
Follows-waiting (ToolCallStatus.policy_denied ∷ ts) h = absurd (Follows-policy_denied ts h.1)
Follows-waiting (ToolCallStatus.failed ∷ ts) h = absurd (Follows-failed ts h.1)
Follows-waiting (t ∷ ts) h = cc (h.0)

-- A tool call that was requested accepts four transitions at most, whatever is asked of it.
pub requested_walk_bounded :
    (now : String) (c d : SessionToolCall) (ts : List ToolCallStatus)
    → c.status ≡ ToolCallStatus.requested
    → walk now c ts ≡ ok d
    → length ts ≤ 4
requested_walk_bounded now c d ts requested h =
    omega
      (arith, Follows-length c.status d.status ts (walk-Follows now c d ts h), ap reserve requested)

-- A tool call that waits for an approval succeeds only by being approved, then executed, and by
-- nothing else in between.
pub waiting_walk_approved :
    (now : String) (c d : SessionToolCall) (ts : List ToolCallStatus)
    → c.status ≡ ToolCallStatus.waiting_approval
    → walk now c ts ≡ ok d
    → d.status ≡ ToolCallStatus.succeeded
    → ts ≡ ToolCallStatus.approved ∷ ToolCallStatus.executing ∷ ToolCallStatus.succeeded ∷ []
waiting_walk_approved now c d ts waiting h succeeded = Follows-waiting ts (
    subst (λ s. Follows s ts ToolCallStatus.succeeded) waiting
      (subst (λ e. Follows c.status ts e) succeeded (walk-Follows now c d ts h)))
