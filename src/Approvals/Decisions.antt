-- ===== src/Approvals/Decisions.antt =====
-- domain/approvals.py: a request is decided once, at a time that fits its expiry, and a decision
-- changes nothing of what was requested.
use agent_trust_runtime.Base.{
  ℕ, suc, ◌+◌, ◌*◌, String, ◌≡◌, refl, ap, ◌∙◌, >>=-ok, Bool, true, false, Option, none, some,
  arith, leb, or_else, Error, Result, ok, raised, value_error, ◌⊎◌, inl, inr,
}
use agent_trust_runtime.Value.{ℤ, integer, Fields}
use agent_trust_runtime.Host.{Host}
use agent_trust_runtime.Approvals.{
  ApprovalDecision, approved, denied, is_pending_decision, ApprovalRequest, check_approval,
  resolve_expiry, parse_timestamp, create_approval, is_expired, refuse_expired, decide_approval,
  approve, deny, expire,
}

-- The request with a decision on it.
abbrev pub decided : ApprovalRequest → ApprovalDecision → (who why at : String) → ApprovalRequest
decided a decision who why at = record a {
  decision = decision;
  approver_id = some who;
  decision_reason = some why;
  decided_at = some at;
}

module _ (host : Host) where
  pub check_approval-eq : (a b : ApprovalRequest) → check_approval host a ≡ ok b → b ≡ a
  unfolding check_approval
  check_approval-eq a b h = ground arith

  pub decide_approval-ok :
      (now : String) (a b : ApprovalRequest) (decision : ApprovalDecision) (who why : String)
      (at : Option String) (enforce : Bool)
      → decide_approval host now a decision who why at enforce ≡ ok b
      → (is_pending_decision a.decision ≡ true)
        × (refuse_expired host enforce a (or_else at now) ≡ ok tt)
        × (b ≡ decided a decision who why (or_else at now))
        × (check_approval host b ≡ ok b)
  unfolding decide_approval
  decide_approval-ok now a b decision who why at enforce h =
      ground (arith, check_approval-eq (decided a decision who why (or_else at now)) b)

  approve-decide :
      (now : String) (a b : ApprovalRequest) (who why : String) (at : Option String)
      → approve host now a who why at ≡ ok b
      → decide_approval host now a approved who why at true ≡ ok b
  unfolding approve
  approve-decide now a b who why at h = h

  unexpired :
      (a : ApprovalRequest) (at : String)
      → refuse_expired host true a at ≡ ok tt
      → is_expired host a at ≡ ok false
  unfolding refuse_expired
  unexpired a at h = ground arith

  decided_twice :
      (later : String) (b : ApprovalRequest) (who why : String) (at : Option String)
      → is_pending_decision b.decision ≡ false
      → (approve host later b who why at ≡ raised (value_error "approval has already been decided"))
        × (deny host later b who why at ≡ raised (value_error "approval has already been decided"))
  unfolding approve deny decide_approval
  decided_twice later b who why at h = (rw h, rw h)

  -- An expiry of a request that is decided raises, whatever its time.
  expired_late :
      (later : String) (b : ApprovalRequest) (who : String) (at : Option String)
      → is_pending_decision b.decision ≡ false
      → (e : Error) × (expire host later b who at ≡ raised e)
  unfolding expire decide_approval
  expired_late later b who at h = go (is_expired host b (or_else at later)) refl
    where
      go :
          (r : Result Bool)
          → is_expired host b (or_else at later) ≡ r
          → (e : Error) × (expire host later b who at ≡ raised e)
      go (raised e) p = (e, rw p)
      go (ok false) p = (value_error "approval has not expired", rw p)
      go (ok true) p = (value_error "approval has already been decided", rw (p, h))

  -- An approval that succeeds was given on a pending request, at a time before the expiry, if there
  -- is one. The result is the request with the decision, the approver, the reason and the time set
  -- and all else unchanged, it is valid, and every later approval, denial or expiry of it raises.
  pub approve_lem :
      (now : String) (a b : ApprovalRequest) (who why : String) (at : Option String)
      → approve host now a who why at ≡ ok b
      → (is_pending_decision a.decision ≡ true)
        × (is_expired host a (or_else at now) ≡ ok false)
        × (b ≡ decided a approved who why (or_else at now))
        × (check_approval host b ≡ ok b)
        × ((later who' why' : String) (at' : Option String)
            → (approve host later b who' why' at'
                ≡ raised (value_error "approval has already been decided"))
              × (deny host later b who' why' at'
                  ≡ raised (value_error "approval has already been decided"))
              × ((e : Error) × (expire host later b who' at' ≡ raised e)))
  approve_lem now a b who why at h =
      let (p, e, q, v) =
        decide_approval-ok now a b approved who why at true (approve-decide now a b who why at h) in
      (
        p,
        unexpired a (or_else at now) e,
        q,
        v,
        λ later who' why' at'.
            let (twice_approved, twice_denied) = decided_twice later b who' why' at' (rw q) in
            (twice_approved, twice_denied, expired_late later b who' at' (rw q)),
      )

  expire-decide :
      (now : String) (a b : ApprovalRequest) (who : String) (at : Option String)
      → expire host now a who at ≡ ok b
      → (is_expired host a (or_else at now) ≡ ok true)
        × (decide_approval host now a denied who "approval_expired" (some (or_else at now)) false
            ≡ ok b)
  unfolding expire
  expire-decide now a b who at h = ground arith

  expire-unexpired :
      (now : String) (a : ApprovalRequest) (who : String) (at : Option String)
      → is_expired host a (or_else at now) ≡ ok false
      → expire host now a who at ≡ raised (value_error "approval has not expired")
  unfolding expire
  expire-unexpired now a who at h = rw h

  decided_in_time :
      (now : String) (a b : ApprovalRequest) (who why : String) (at : Option String)
      → (approve host now a who why at ≡ ok b) ⊎ (deny host now a who why at ≡ ok b)
      → refuse_expired host true a (or_else at now) ≡ ok tt
  unfolding approve deny
  decided_in_time now a b who why at (inl h) =
      (decide_approval-ok now a b approved who why at true h).1
  decided_in_time now a b who why at (inr h) =
      (decide_approval-ok now a b denied who why at true h).1

  resolve_expiry-ok :
      (n : ℕ) (timestamp : String) (o : Option String)
      → resolve_expiry host (some (integer (ℤ.pos (suc n)))) none timestamp ≡ ok o
      → (t : String) × (host.add_seconds timestamp (suc n) ≡ some t) × (o ≡ some t)
  unfolding resolve_expiry
  resolve_expiry-ok n timestamp o h = go (host.add_seconds timestamp (suc n)) refl
    where
      go :
          (r : Option String)
          → host.add_seconds timestamp (suc n) ≡ r
          → (t : String) × (host.add_seconds timestamp (suc n) ≡ some t) × (o ≡ some t)
      go none e = absurd (ground arith)
      go (some t) e = (t, e, ground arith)

  created_expiry :
      (now approval_id run_id call_id tool digest reason : String) (rule : Option String)
      (preview : Fields) (n : ℕ) (requested : Option String) (a : ApprovalRequest)
      → create_approval host now approval_id run_id call_id tool digest reason rule preview none
          (some (integer (ℤ.pos (suc n))))
          requested
        ≡ ok a
      → (t : String) × (host.add_seconds (or_else requested now) (suc n) ≡ some t)
        × (a.expires_at ≡ some t)
  unfolding create_approval
  created_expiry now approval_id run_id call_id tool digest reason rule preview n requested a h =
      let timestamp = or_else requested now in
      let (o, resolved, made) =
        >>=-ok (resolve_expiry host (some (integer (ℤ.pos (suc n)))) none timestamp) _ h in
      let (t, added, e) = resolve_expiry-ok n timestamp o resolved in
      (t, added, ap (λ (b : ApprovalRequest). b.expires_at) (check_approval-eq _ a made) ∙ e)

  is_expired-at :
      (a : ApprovalRequest) (at t : String) (limit instant : ℕ)
      → a.expires_at ≡ some t
      → parse_timestamp host t ≡ ok limit
      → parse_timestamp host at ≡ ok instant
      → is_expired host a at ≡ ok (leb limit instant)
  unfolding is_expired
  is_expired-at a at t limit instant e l i = ground arith

  -- An expiry that succeeds was recorded on a pending request, at a time that is not before its
  -- expiry; the result is the denied request, with the reason `approval_expired`, and it is valid.
  pub expire_lem :
      (now : String) (a b : ApprovalRequest) (who : String) (at : Option String)
      → expire host now a who at ≡ ok b
      → (is_pending_decision a.decision ≡ true)
        × (is_expired host a (or_else at now) ≡ ok true)
        × (b ≡ decided a denied who "approval_expired" (or_else (some (or_else at now)) now))
        × (check_approval host b ≡ ok b)
  expire_lem now a b who at h =
      let (e, d) = expire-decide now a b who at h in
      let (p, _, q, v) =
        decide_approval-ok now a b denied who "approval_expired" (some (or_else at now)) false d in
      (p, e, q, v)

  -- At a time when an approval or a denial of a request succeeds, an expiry is refused.
  pub expire_refused :
      (now : String) (a b : ApprovalRequest) (who why actor : String) (at : Option String)
      → (approve host now a who why at ≡ ok b) ⊎ (deny host now a who why at ≡ ok b)
      → expire host now a actor at ≡ raised (value_error "approval has not expired")
  expire_refused now a b who why actor at h =
      expire-unexpired now a actor at
        (unexpired a (or_else at now) (decided_in_time now a b who why at h))

  -- With a time to live of `n` seconds a request runs out exactly `n` seconds after it was made,
  -- where adding seconds to a timestamp gives the timestamp of the later instant.
  pub create_approval-expiry :
      (now approval_id run_id call_id tool digest reason : String) (rule : Option String)
      (preview : Fields) (n : ℕ) (requested : Option String) (a : ApprovalRequest) (at : String)
      (start instant : ℕ)
      → ((t u : String) (k m : ℕ)
          → host.add_seconds t k ≡ some u
          → parse_timestamp host t ≡ ok m
          → parse_timestamp host u ≡ ok (m + k * 1000000))
      → create_approval host now approval_id run_id call_id tool digest reason rule preview none
          (some (integer (ℤ.pos (suc n))))
          requested
        ≡ ok a
      → parse_timestamp host (or_else requested now) ≡ ok start
      → parse_timestamp host at ≡ ok instant
      → is_expired host a at ≡ ok (leb (start + suc n * 1000000) instant)
  create_approval-expiry now approval_id run_id call_id tool digest reason rule preview n requested
        a at start instant later h s i =
      let (t, added, e) =
        created_expiry now approval_id run_id call_id tool digest reason rule preview n requested a
          h in
      is_expired-at a at t (start + suc n * 1000000) instant e
        (later (or_else requested now) t (suc n) start added s) i
