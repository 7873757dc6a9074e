-- ===== src/Replay/Run/Invariant.antt =====
-- adapters/evidence/replay.py: what holds after each event of a replay.
use agent_trust_runtime.Base.{
  String, ◌≡◌, refl, sym, ap, ◌∙◌, subst, ◌⊎◌, inl, inr, Bool, true, false, ◌||◌, Bool-cases, ◌==◌,
  eq_iff, Option, none, some, List, [], ◌∷◌, ◌++◌, any, arith, ok,
}
use agent_trust_runtime.Base.Dict.{lookup, put, values, lookup-put, Entries, Entries-map}
use agent_trust_runtime.Host.{Host}
use agent_trust_runtime.Sessions.{AgentSession, SessionToolCall}
use agent_trust_runtime.Sessions.Validity.{IsValid, IsValidCall}
use agent_trust_runtime.Approvals.{ApprovalRequest, check_approval}
use agent_trust_runtime.Replay.Run.{ReplayState}

-- A call of the session, under its own name.
abbrev pub IsCallOf : AgentSession → String → SessionToolCall → Type 0
IsCallOf s id c =
    IsValidCall c × (c.tool_call_id ≡ id) × (c.run_id ≡ s.run_id) × (c.session_id ≡ s.session_id)

-- There are calls only beside a session, which is valid and of the run.
abbrev pub CallsFit : String → Option AgentSession → List (String × SessionToolCall) → Type 0
CallsFit run none calls = calls ≡ []
CallsFit run (some s) calls = IsValid s × (s.run_id ≡ run) × Entries (IsCallOf s) calls

-- The call that an approval is bound to, by its name and the digest of its arguments.
abbrev pub IsBound : List (String × SessionToolCall) → ApprovalRequest → Type 0
IsBound calls a =
    (c : SessionToolCall) × (lookup a.tool_call_id calls ≡ some c)
    × (c.tool_name ≡ a.tool_name)
    × (c.arguments_digest ≡ a.arguments_digest)

abbrev pub IsApprovalOf :
    Host → String → List (String × SessionToolCall) → String → ApprovalRequest → Type 0
IsApprovalOf host run calls id a =
    (check_approval host a ≡ ok a) × (a.approval_id ≡ id) × (a.run_id ≡ run) × IsBound calls a

-- The calls that the approvals are for, and that none stands there twice.
abbrev pub approved_ids : List (String × ApprovalRequest) → List String
approved_ids [] = []
approved_ids ((id, a) ∷ d) = a.tool_call_id ∷ approved_ids d

abbrev pub taken : String → List String → Bool
taken id [] = false
taken id (x ∷ xs) = (x == id) || taken id xs

abbrev pub Distinct : List String → Type 0
Distinct [] = Unit
Distinct (x ∷ xs) = (taken x xs ≡ false) × Distinct xs

abbrev pub IsCoherent : Host → String → ReplayState → Type 0
IsCoherent host run st =
    CallsFit run st.session st.tool_calls
    × Entries (IsApprovalOf host run st.tool_calls) st.approvals
    × Distinct (approved_ids st.approvals)

-- An approval stays bound when a call is added, or changes its status and its time alone.
IsBound-put :
    (calls : List (String × SessionToolCall)) (id : String) (d : SessionToolCall)
    (a : ApprovalRequest)
    → ((c : SessionToolCall)
        → lookup id calls ≡ some c
        → (d.tool_name ≡ c.tool_name) × (d.arguments_digest ≡ c.arguments_digest))
    → IsBound calls a
    → IsBound (put id d calls) a
IsBound-put calls id d a same (c, found, name, digest) = go (Bool-cases (id == a.tool_call_id))
  where
    go :
        ((id == a.tool_call_id) ≡ true) ⊎ ((id == a.tool_call_id) ≡ false)
        → IsBound (put id d calls) a
    go (inl e) =
        let (n, g) =
          same c
            (subst (λ i. lookup i calls ≡ some c) (sym ((eq_iff id a.tool_call_id).0 e)) found) in
        (d, rw (lookup-put id a.tool_call_id d calls, e) refl, n ∙ name, g ∙ digest)
    go (inr e) = (c, rw (lookup-put id a.tool_call_id d calls, e) found, name, digest)

pub approvals-put :
    (host : Host) (run : String) (calls : List (String × SessionToolCall)) (id : String)
    (d : SessionToolCall) (approvals : List (String × ApprovalRequest))
    → ((c : SessionToolCall)
        → lookup id calls ≡ some c
        → (d.tool_name ≡ c.tool_name) × (d.arguments_digest ≡ c.arguments_digest))
    → Entries (IsApprovalOf host run calls) approvals
    → Entries (IsApprovalOf host run (put id d calls)) approvals
approvals-put host run calls id d approvals same h =
    Entries-map (IsApprovalOf host run calls) (IsApprovalOf host run (put id d calls)) approvals
      (λ i a (v, n, r, b). (v, n, r, IsBound-put calls id d a same b)) h

pub taken-any :
    (id : String) (d : List (String × ApprovalRequest))
    → any (λ item. item.tool_call_id == id) (values d) ≡ taken id (approved_ids d)
taken-any id [] = refl
taken-any id ((k, a) ∷ d) = ap (λ b. (a.tool_call_id == id) || b) (taken-any id d)

taken-append :
    (x y : String) (xs : List String)
    → taken x xs ≡ false
    → (y == x) ≡ false
    → taken x (xs ++ y ∷ []) ≡ false
taken-append x y [] h e = rw e
taken-append x y (z ∷ zs) h e = ground (arith, taken-append x y zs)

pub Distinct-append :
    (y : String) (xs : List String) → Distinct xs → taken y xs ≡ false → Distinct (xs ++ y ∷ [])
Distinct-append y [] h t = (refl, tt)
Distinct-append y (x ∷ xs) h t = (
  ground (arith, taken-append x y xs, eq_iff x y, eq_iff y x, h.0),
  Distinct-append y xs h.1 (ground arith),
)

pub approved_ids-new :
    (k : String) (a : ApprovalRequest) (d : List (String × ApprovalRequest))
    → lookup k d ≡ none
    → approved_ids (put k a d) ≡ approved_ids d ++ a.tool_call_id ∷ []
unfolding lookup put
approved_ids-new k a [] h = refl
approved_ids-new k a ((j, b) ∷ d) h = ground (arith, approved_ids-new k a d)

pub approved_ids-same :
    (k : String) (a b : ApprovalRequest) (d : List (String × ApprovalRequest))
    → lookup k d ≡ some b
    → a.tool_call_id ≡ b.tool_call_id
    → approved_ids (put k a d) ≡ approved_ids d
unfolding lookup put
approved_ids-same k a b [] h e = cc
approved_ids-same k a b ((j, c) ∷ d) h e = ground (arith, approved_ids-same k a b d)
