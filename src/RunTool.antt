-- ===== src/RunTool.antt =====
-- application/run_tool.py: `RunToolUseCase`, the stages of one governed tool execution. The ports of
-- application/ports.py are a record of actions on a state `S`. A record that a port hands over is
-- known by its `to_dict`.
pub mod Stages
pub mod Permits
pub mod Keeps
use agent_trust_runtime.Base.{
  ℕ, String, Bool, true, false, not, ◌&&◌, Option, none, some, List, [], ◌∷◌, ◌==◌, length, is_none,
  is_some, is_empty, if◌then◌else◌, Error, type_error,
}
use agent_trust_runtime.Exec.{Exec, pure, raise, ◌>>=◌, ◌>>◌, when, on_raise}
use agent_trust_runtime.Value.{
  Value, null, text, object, array, Values, nil, cons, Fields, dict, number, merge,
}
use agent_trust_runtime.Models.{
  ToolIntent, intent_to_dict, ToolResult, result_to_dict, PermissionDecision, permission_to_dict,
  FinalPermission, final_to_dict, HookDecision, hook_decision_to_dict, SandboxDecision,
  sandbox_to_dict,
}
use agent_trust_runtime.Host.{Host}
use agent_trust_runtime.Lifecycle.Call.{ToolCallStatus}
use agent_trust_runtime.Approvals.Review.{reviewable_arguments}
use agent_trust_runtime.Policy.{HookRule}

pub record Ports (S : Type 0) : Type 0 where
  pub append : String → Fields → Exec S Fields
  pub decide : ToolIntent → Exec S PermissionDecision
  pub check : ToolIntent → Exec S SandboxDecision
  pub execute : ToolIntent → Exec S ToolResult
  -- The executor's `execute_async`, if it implements one.
  pub execute_async : Option (ToolIntent → Exec S ToolResult)
  pub finalize : PermissionDecision → String → Option String → FinalPermission
  pub evaluate_hooks : ToolIntent → List HookRule → HookDecision
  pub request_approval : Option (PermissionDecision → Fields → Exec S String)
  pub create_checkpoint : Option (ToolIntent → Exec S (Option Fields))
  pub bind_checkpoint : Option (ToolIntent → ToolResult → Fields → Exec S (Option Fields))
  pub map_facts : Option (ToolResult → Exec S (List Fields))
  pub store_facts : Option (List Fields → Exec S (Unit {0}))
  -- `on_tool_call_status`.
  pub observe : Option (ToolCallStatus → Exec S (Unit {0}))

pub record ToolRunOutcome : Type 0 where
  pub intent : ToolIntent
  pub permission_decision : PermissionDecision
  pub final_permission : FinalPermission
  pub hook_decision : HookDecision
  pub sandbox_decision : Option SandboxDecision
  pub result : Option ToolResult
  pub facts : List Fields

-- `approval_mode or {...}.get(runtime_mode, "deny")`.
unfoldable pub default_approval_mode : String → String
default_approval_mode runtime_mode =
    if runtime_mode == "interactive"
    then "inline_prompt"
    else if runtime_mode == "noninteractive"
    then "deny"
    else if runtime_mode == "test"
    then "mock"
    else "deny"

unfoldable pub resolved_approval_mode : Option String → String → String
unfolding default_approval_mode
resolved_approval_mode none runtime_mode = default_approval_mode runtime_mode
resolved_approval_mode (some mode) runtime_mode =
    if mode == "" then default_approval_mode runtime_mode else mode

abbrev pub objects : List Fields → Values
objects [] = nil
objects (f ∷ rest) = cons (object f) (objects rest)

module _ (host : Host) {S : Type 0} (ports : Ports S) where
  -- `if on_tool_call_status is not None: on_tool_call_status(status)`.
  unfoldable pub notify : ToolCallStatus → Exec S (Unit {0})
  notify status = elim ports.observe [ none ↦ pure tt | some observer ↦ observer status ]

  -- The prompt, if there is someone to ask; `none` where nobody answers.
  unfoldable pub prompt : ToolIntent → PermissionDecision → Exec S (Option String)
  unfolding reviewable_arguments
  prompt intent decision = elim ports.request_approval [
    | none ↦ pure none
    | some request ↦ do
      ports.append "approval_prompted" (
          dict (
            ("run_id", text intent.run_id)
            ∷ ("tool_call_id", text intent.tool_call_id)
            ∷ ("tool_name", text intent.tool_name)
            ∷ ("reason", text decision.reason)
            ∷ ("arguments", object (reviewable_arguments host intent.arguments))
            ∷ []))
      answer ← request decision intent.arguments
      pure (some answer)
  ]

  -- The response that the caller gave, or the one that the prompt obtains.
  unfoldable pub obtain_response :
      ToolIntent
      → PermissionDecision
      → HookDecision
      → (mode : String) → Option String
      → Exec S (Option String)
  unfolding notify prompt
  obtain_response intent decision hook mode response = do
    when (decision.effect == "ask" && is_none response) (notify ToolCallStatus.waiting_approval)
    if decision.effect == "ask"
          && is_none response
          && mode == "inline_prompt"
          && not (hook.effect == "deny")
        then prompt intent decision
        else pure response

  -- The permission before a hook's denial is applied.
  unfoldable pub proposed_permission :
      PermissionDecision → HookDecision → (mode : String) → Option String → FinalPermission
  proposed_permission decision hook mode none =
      if decision.effect == "ask" && mode == "deferred" && not (hook.effect == "deny")
      then record {
        effect = decision.effect;
        final_effect = "ask";
        reason = "approval_pending";
        approval_required = true;
      }
      else ports.finalize decision mode none
  proposed_permission decision hook mode (some response) =
      ports.finalize decision "inline_prompt" (some response)

  unfoldable pub settle_permission :
      PermissionDecision → HookDecision → (mode : String) → Option String → FinalPermission
  unfolding proposed_permission
  settle_permission decision hook mode response =
      let proposed = proposed_permission decision hook mode response in
      if hook.effect == "deny" && not (proposed.final_effect == "deny")
      then record {
        effect = proposed.effect;
        final_effect = "deny";
        reason = hook.reason;
        approval_required = proposed.approval_required;
      }
      else proposed
