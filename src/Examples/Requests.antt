-- ===== src/Examples/Requests.antt =====
-- domain/approvals.py: a request that is approved in time, and one that runs out.
use agent_trust_runtime.Base.{
  ◌+◌, ◌≤◌, String, ℕ, ◌+◌, ◌*◌, String, ◌≡◌, refl, true, false, Option, none, some, inl, Error, ok,
  raised, value_error, arith, eq_iff, [], ◌∷◌,
}
use agent_trust_runtime.Value.{ℤ, Fields, integer, dict, text, null}
use agent_trust_runtime.Approvals.{
  pending, approved, denied, ApprovalRequest, is_pending_decision, parse_timestamp, check_approval,
  decide_approval, refuse_expired, create_approval, is_expired, approve, deny, expire,
}
use agent_trust_runtime.Approvals.Review.{count, preview_text, reviewable_arguments}
use agent_trust_runtime.Approvals.Review.Bounds.{IsPreviewOf, preview_text_bounded}
use agent_trust_runtime.Approvals.Review.Redaction.{mask, reviewable_arguments-mask}
use agent_trust_runtime.Approvals.Decisions.{
  decided, approve_lem, expire_lem, expire_refused, create_approval-expiry,
}
use agent_trust_runtime.Examples.Decisions.{host}

abbrev request : ApprovalRequest
request = record {
  approval_id = "approval";
  run_id = "run";
  tool_call_id = "call_001";
  tool_name = "shell";
  arguments_digest = "sha256:0";
  reason = "rule";
  requested_at = "t0";
  arguments_preview = Fields.end;
  policy_rule_id = none;
  expires_at = some "t5";
  decision = pending;
  approver_id = none;
  decision_reason = none;
  decided_at = none;
}

abbrev approval : ApprovalRequest
approval = decided request approved "ann" "fine" "t0"

abbrev expiry : ApprovalRequest
expiry = decided request denied "clock" "approval_expired" "t5"

approve_run : approve host "t0" request "ann" "fine" none ≡ ok approval
unfolding approve decide_approval refuse_expired check_approval
approve_run = refl

expire_run : expire host "t5" request "clock" none ≡ ok expiry
unfolding expire is_expired decide_approval refuse_expired check_approval
expire_run = refl

create_run :
    create_approval host "t0" "approval" "run" "call_001" "shell" "sha256:0" "rule" none Fields.end
      none
      (some (integer (ℤ.pos 5)))
      none
    ≡ ok request
unfolding create_approval check_approval
create_run = refl

approve_lem_example :
    (is_pending_decision request.decision ≡ true)
    × (is_expired host request "t0" ≡ ok false)
    × (approval ≡ decided request approved "ann" "fine" "t0")
    × (check_approval host approval ≡ ok approval)
    × ((later who' why' : String) (at' : Option String)
        → (approve host later approval who' why' at'
            ≡ raised (value_error "approval has already been decided"))
          × (deny host later approval who' why' at'
              ≡ raised (value_error "approval has already been decided"))
          × ((e : Error) × (expire host later approval who' at' ≡ raised e)))
approve_lem_example = approve_lem host "t0" request approval "ann" "fine" none approve_run

expire_lem_example :
    (is_pending_decision request.decision ≡ true)
    × (is_expired host request "t5" ≡ ok true)
    × (expiry ≡ decided request denied "clock" "approval_expired" "t5")
    × (check_approval host expiry ≡ ok expiry)
expire_lem_example = expire_lem host "t5" request expiry "clock" none expire_run

expire_refused_example :
    expire host "t0" request "clock" none ≡ raised (value_error "approval has not expired")
expire_refused_example =
    expire_refused host "t0" request approval "ann" "fine" "clock" none (inl approve_run)

start : parse_timestamp host "t0" ≡ ok 0
unfolding parse_timestamp
start = refl

limit : parse_timestamp host "t5" ≡ ok 5000000
unfolding parse_timestamp
limit = refl

later :
    (t u : String) (k m : ℕ)
    → host.add_seconds t k ≡ some u
    → parse_timestamp host t ≡ ok m
    → parse_timestamp host u ≡ ok (m + k * 1000000)
later t u k m h p = ground (arith, eq_iff t "t0", start, limit)

create_approval-expiry_example : is_expired host request "t5" ≡ ok true
create_approval-expiry_example =
    create_approval-expiry host "t0" "approval" "run" "call_001" "shell" "sha256:0" "rule" none
      Fields.end 4 none request "t5" 0 5000000 later create_run start limit

abbrev arguments : Fields
arguments = dict (("token", text "secret") ∷ ("path", text "a") ∷ [])

masked : mask host arguments ≡ dict (("token", null) ∷ ("path", text "a") ∷ [])
unfolding mask
masked = refl

reviewed :
    reviewable_arguments host arguments
    ≡ dict (("token", text "[REDACTED]") ∷ ("path", text "a") ∷ [])
unfolding reviewable_arguments
reviewed = refl

reviewable_arguments-mask_example :
    reviewable_arguments host (mask host arguments) ≡ reviewable_arguments host arguments
reviewable_arguments-mask_example = reviewable_arguments-mask host arguments

preview_text_bounded_example :
    (count (preview_text host "secret") ≤ 243) × IsPreviewOf "secret" (preview_text host "secret")
preview_text_bounded_example = preview_text_bounded host "secret"
