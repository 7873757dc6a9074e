-- ===== src/Approvals.antt =====
-- domain/approvals.py: an approval request bound to the digest of one tool call's arguments, the
-- decision on it, and the redacted view of the arguments that a human reviews.
pub mod Review
pub mod Decisions
use agent_trust_runtime.Base.{
  ℕ, zero, suc, ◌*◌, ◌≤◌, String, Bool, true, false, not, ◌&&◌, Option, none, some, List, [], ◌∷◌,
  is_none, is_blank, or_else, leb, ◌==◌, member, if◌then◌else◌, Error, Result, ok, raised,
  value_error, overflow_error, require, ◌>>=◌, ◌>>◌,
}
use agent_trust_runtime.Value.{ℤ, Value, integer, text, object, Fields, end, dict, opt_text}
use agent_trust_runtime.Host.{Host}
use agent_trust_runtime.Sessions.{require_text, require_opt_text}

pub data ApprovalDecision : Type 0 where
  pending approved denied : ApprovalDecision

unfoldable pub decision_text : ApprovalDecision → String
decision_text pending = "pending"
decision_text approved = "approved"
decision_text denied = "denied"

abbrev pub is_pending_decision : ApprovalDecision → Bool
is_pending_decision pending = true
is_pending_decision _ = false

pub record ApprovalRequest : Type 0 where
  pub approval_id : String
  pub run_id : String
  pub tool_call_id : String
  pub tool_name : String
  pub arguments_digest : String
  pub reason : String
  pub requested_at : String
  pub arguments_preview : Fields
  pub policy_rule_id : Option String
  pub expires_at : Option String
  pub decision : ApprovalDecision
  pub approver_id : Option String
  pub decision_reason : Option String
  pub decided_at : Option String

-- `isinstance(value, int)`, no bool, and positive.
unfoldable pub positive_int : Value → Option ℕ
positive_int (integer (ℤ.pos (suc n))) = some (suc n)
positive_int _ = none

-- An instant, in microseconds.
unfoldable pub parse_timestamp : Host → String → Result ℕ
parse_timestamp host value = elim (host.fromisoformat value) [
  | none ↦ raised (value_error "invalid approval timestamp")
  | some (instant, aware) ↦
      if aware
      then ok instant
      else raised (value_error "approval timestamp must include a timezone")
]

-- `_require_text` of a value that must not be `None`.
unfoldable pub require_present : Option String → Result (Unit {0})
unfolding require_text
require_present none =
    raised (value_error "decided approval requires approver_id, decision_reason, and decided_at")
require_present (some value) = require_text value

-- The last part of `__post_init__`: the decision's fields.
unfoldable pub check_decision : ApprovalRequest → Result (Unit {0})
unfolding require_present
check_decision a =
    if is_pending_decision a.decision
    then require (is_none a.approver_id && is_none a.decision_reason && is_none a.decided_at)
        (value_error "pending approval must not include a decision")
    else do
      require
          (not (is_none a.approver_id)
            && not (is_none a.decision_reason)
            && not (is_none a.decided_at))
          (value_error "decided approval requires approver_id, decision_reason, and decided_at")
      require_present a.approver_id
      require_present a.decision_reason
      require_present a.decided_at

module _ (host : Host) where
  -- `_require_text("expires_at", ...)` and `_parse_timestamp(...)`, if there is one.
  unfoldable pub check_expiry : Option String → Result (Unit {0})
  unfolding require_text parse_timestamp
  check_expiry none = ok tt
  check_expiry (some t) = do require_text t; instant ← parse_timestamp host t; ok tt

  -- `ApprovalRequest.__post_init__`, and the value that the constructor returns.
  unfoldable pub check_approval : ApprovalRequest → Result ApprovalRequest
  unfolding require_text require_opt_text check_expiry check_decision
  check_approval a = do
    require_text a.approval_id
    require_text a.run_id
    require_text a.tool_call_id
    require_text a.tool_name
    require_text a.arguments_digest
    require_text a.reason
    require_text a.requested_at
    require_opt_text a.policy_rule_id
    require (not (is_none (host.dumps false a.arguments_preview)))
        (value_error "approval arguments_preview must be JSON serializable")
    check_expiry a.expires_at
    check_decision a
    ok a

  -- The expiry that `create` computes from `ttl_seconds`, or the one given.
  unfoldable pub resolve_expiry : Option Value → Option String → String → Result (Option String)
  unfolding positive_int parse_timestamp
  resolve_expiry none expires_at timestamp = ok expires_at
  resolve_expiry (some ttl) expires_at timestamp = elim (positive_int ttl) [
    | none ↦ raised (value_error "approval ttl_seconds must be a positive integer")
    | some seconds ↦ do
      require (is_none expires_at)
          (value_error "approval expires_at and ttl_seconds are mutually exclusive")
      instant ← parse_timestamp host timestamp
      elim (host.add_seconds timestamp seconds) [
        | none ↦ raised (overflow_error "date value out of range")
        | some t ↦ ok (some t)
      ]
  ]

  -- `ApprovalRequest.create`; `now` is the clock and `approval_id` the fresh `uuid4` name.
  unfoldable pub create_approval :
      (now approval_id run_id tool_call_id tool_name arguments_digest reason : String)
      (policy_rule_id : Option String) (arguments_preview : Fields) (expires_at : Option String)
      (ttl_seconds : Option Value) (requested_at : Option String)
      → Result ApprovalRequest
  unfolding resolve_expiry
  create_approval now approval_id run_id tool_call_id tool_name arguments_digest reason
        policy_rule_id arguments_preview expires_at ttl_seconds requested_at =
      do
        let timestamp = or_else requested_at now
        expiry ← resolve_expiry ttl_seconds expires_at timestamp
        check_approval (record {
          approval_id = approval_id;
          run_id = run_id;
          tool_call_id = tool_call_id;
          tool_name = tool_name;
          arguments_digest = arguments_digest;
          reason = reason;
          requested_at = timestamp;
          arguments_preview = arguments_preview;
          policy_rule_id = policy_rule_id;
          expires_at = expiry;
          decision = pending;
          approver_id = none;
          decision_reason = none;
          decided_at = none;
        })

  -- `is_expired(at)` at a time that is given.
  unfoldable pub is_expired : ApprovalRequest → String → Result Bool
  unfolding parse_timestamp
  is_expired a at = elim a.expires_at [
    | none ↦ ok false
    | some t ↦ do
      limit ← parse_timestamp host t
      instant ← parse_timestamp host at
      ok (leb limit instant)
  ]

  -- `if enforce_expiry and self.is_expired(timestamp): raise ...`.
  unfoldable pub refuse_expired : Bool → ApprovalRequest → String → Result (Unit {0})
  unfolding is_expired
  refuse_expired false a timestamp = ok tt
  refuse_expired true a timestamp = do
    expired ← is_expired a timestamp
    require (not expired) (value_error "approval has expired")

  -- `_decide`; `now` is the clock.
  unfoldable pub decide_approval :
      (now : String)
      → ApprovalRequest
      → ApprovalDecision
      → (approver_id decision_reason : String)
      → (decided_at : Option String) (enforce_expiry : Bool) → Result ApprovalRequest
  decide_approval now a decision approver_id decision_reason decided_at enforce_expiry = do
    require (is_pending_decision a.decision) (value_error "approval has already been decided")
    let timestamp = or_else decided_at now
    refuse_expired enforce_expiry a timestamp
    check_approval (record a {
      decision = decision;
      approver_id = some approver_id;
      decision_reason = some decision_reason;
      decided_at = some timestamp;
    })

  unfoldable pub approve :
      String
      → ApprovalRequest
      → (approver_id decision_reason : String) → Option String
      → Result ApprovalRequest
  approve now a approver_id decision_reason decided_at =
      decide_approval now a approved approver_id decision_reason decided_at true

  unfoldable pub deny :
      String
      → ApprovalRequest
      → (approver_id decision_reason : String) → Option String
      → Result ApprovalRequest
  unfolding decide_approval
  deny now a approver_id decision_reason decided_at =
      decide_approval now a denied approver_id decision_reason decided_at true

  -- A pending request that has run out is recorded as denied.
  unfoldable pub expire :
      String → ApprovalRequest → (actor_id : String) → Option String → Result ApprovalRequest
  expire now a actor_id decided_at = do
    let timestamp = or_else decided_at now
    expired ← is_expired a timestamp
    require expired (value_error "approval has not expired")
    decide_approval now a denied actor_id "approval_expired" (some timestamp) false

unfoldable pub approval_to_dict : ApprovalRequest → Fields
unfolding decision_text
approval_to_dict a = dict (
    ("approval_id", text a.approval_id)
    ∷ ("run_id", text a.run_id)
    ∷ ("tool_call_id", text a.tool_call_id)
    ∷ ("tool_name", text a.tool_name)
    ∷ ("arguments_digest", text a.arguments_digest)
    ∷ ("arguments", object a.arguments_preview)
    ∷ ("policy_rule_id", opt_text a.policy_rule_id)
    ∷ ("reason", text a.reason)
    ∷ ("requested_at", text a.requested_at)
    ∷ ("expires_at", opt_text a.expires_at)
    ∷ ("decision", text (decision_text a.decision))
    ∷ ("approver_id", opt_text a.approver_id)
    ∷ ("decision_reason", opt_text a.decision_reason)
    ∷ ("decided_at", opt_text a.decided_at)
    ∷ [])
