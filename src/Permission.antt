-- ===== src/Permission.antt =====
-- permissions/approvals.py: how a permission decision becomes one that can be enforced.
pub mod Finality
use agent_trust_runtime.Base.{
  String, Bool, true, false, not, Option, none, some, List, [], ◌∷◌, ◌==◌, ◌&&◌, one_of, or_else,
  if◌then◌else◌, Result, ok, raised, value_error,
}
use agent_trust_runtime.Models.{PermissionDecision, FinalPermission}
use agent_trust_runtime.Host.{Host}

-- `approval_mode_for_runtime`.
unfoldable pub approval_mode_for_runtime : String → Option String → Result String
approval_mode_for_runtime runtime_mode none =
    ok (if runtime_mode == "test" then "mock" else "deferred")
approval_mode_for_runtime runtime_mode (some mode) =
    if not (one_of mode ("deferred" ∷ "deny" ∷ "inline_prompt" ∷ "mock" ∷ []))
    then raised (value_error "invalid approval mode")
    else if (mode == "mock") && not (runtime_mode == "test")
    then raised (value_error "approval mode 'mock' is only available in test runtime mode")
    else ok mode

-- A permission for a decision that needs an approval.
abbrev pub pending_permission :
    PermissionDecision → (final_effect reason : String) → FinalPermission
pending_permission d final_effect reason = record {
  effect = d.effect;
  final_effect = final_effect;
  reason = reason;
  approval_required = true;
}

-- The answer to an interactive prompt, where there is one.
unfoldable pub interactive_permission : PermissionDecision → Option String → FinalPermission
interactive_permission d none = pending_permission d "ask" "interactive_approval_required"
interactive_permission d (some response) =
    if response == "approve"
    then pending_permission d "allow" "interactive_approved"
    else if response == "deny"
    then pending_permission d "deny" "interactive_denied"
    else pending_permission d "ask" "interactive_approval_required"

-- `finalize_permission` in the mode that it has resolved.
unfoldable pub finalize_in_mode : PermissionDecision → String → Option String → FinalPermission
unfolding interactive_permission
finalize_in_mode d mode approval_response =
    if one_of d.effect ("allow" ∷ "deny" ∷ [])
    then record {
      effect = d.effect;
      final_effect = d.effect;
      reason = d.reason;
      approval_required = false;
    }
    else if one_of mode ("noninteractive" ∷ "deny" ∷ [])
    then pending_permission d "deny" "approval_required"
    else if one_of mode ("test" ∷ "mock" ∷ [])
    then pending_permission d "allow" "mock_approver_approved"
    else if one_of mode ("interactive" ∷ "inline_prompt" ∷ [])
    then interactive_permission d approval_response
    else pending_permission d "deny" "interactive_approval_required"

-- `finalize_permission`: the runtime mode is tried after the approval mode, and `deny` last.
unfoldable pub finalize_permission :
    PermissionDecision
    → (runtime_mode approval_response approval_mode : Option String) → FinalPermission
unfolding finalize_in_mode
finalize_permission d runtime_mode approval_response approval_mode =
    finalize_in_mode d (or_else approval_mode (or_else runtime_mode "deny")) approval_response
