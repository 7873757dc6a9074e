-- ===== src/RunTool/Stages.antt =====
-- application/run_tool.py: the stages of `execute` behind the decision, `execute` itself and
-- `execute_async`.
use agent_trust_runtime.Base.{
  String, Bool, not, ◌&&◌, Option, none, some, List, [], ◌∷◌, ◌==◌, length, is_some, is_empty,
  if◌then◌else◌, type_error,
}
use agent_trust_runtime.Exec.{Exec, pure, raise, ◌>>=◌, ◌>>◌, when, on_raise}
use agent_trust_runtime.Value.{text, array, Fields, dict, number, merge}
use agent_trust_runtime.Models.{
  ToolIntent, intent_to_dict, ToolResult, result_to_dict, PermissionDecision, permission_to_dict,
  FinalPermission, final_to_dict, HookDecision, hook_decision_to_dict, sandbox_to_dict,
}
use agent_trust_runtime.Host.{Host}
use agent_trust_runtime.Lifecycle.Call.{ToolCallStatus}
use agent_trust_runtime.Policy.{HookRule}
use agent_trust_runtime.RunTool.{
  Ports, ToolRunOutcome, resolved_approval_mode, objects, notify, obtain_response,
  settle_permission,
}

module _ (host : Host) {S : Type 0} (ports : Ports S) where
  -- The write's checkpoint is recorded if the result is fine and the bytes are the result's.
  unfoldable pub bind_stage : ToolIntent → ToolResult → Option Fields → Exec S (Unit {0})
  bind_stage intent result none = pure tt
  bind_stage intent result (some backup) = elim ports.bind_checkpoint [
    | none ↦ pure tt
    | some bind ↦
        if result.status == "ok"
        then (do
          bound ← bind intent result backup
          elim bound [
            | none ↦ pure tt
            | some checkpoint ↦ do ports.append "write_recovery_checkpoint" checkpoint; pure tt
          ])
        else pure tt
  ]

  unfoldable pub map_stage : ToolResult → Exec S (List Fields)
  map_stage result = elim ports.map_facts [ none ↦ pure [] | some mapper ↦ mapper result ]

  unfoldable pub store_stage : List Fields → (has_path : Bool) → Exec S (Unit {0})
  store_stage facts has_path = elim ports.store_facts [
    | none ↦ pure tt
    | some store ↦ when (not (is_empty facts) && has_path) (store facts)
  ]

  unfoldable pub checkpoint_stage : ToolIntent → Exec S (Option Fields)
  checkpoint_stage intent = elim ports.create_checkpoint [
    | none ↦ pure none
    | some create ↦ create intent
  ]

  -- What follows a sandbox that allows the call: checkpoint, execution, binding and facts.
  unfoldable pub execute_stage :
      ToolIntent → (has_facts_path : Bool) → Exec S (ToolResult × List Fields)
  unfolding notify checkpoint_stage bind_stage map_stage store_stage
  execute_stage intent has_facts_path = do
    backup ← checkpoint_stage intent
    notify host ports ToolCallStatus.executing
    result ← on_raise (ports.execute intent) (notify host ports ToolCallStatus.failed)
    ports.append "tool_result" (result_to_dict result)
    bind_stage intent result backup
    notify host ports
        (if result.status == "ok" then ToolCallStatus.succeeded else ToolCallStatus.failed)
    facts ← map_stage result
    store_stage facts has_facts_path
    ports.append "fact_mapped" (
        dict (
          ("run_id", text intent.run_id)
          ∷ ("tool_call_id", text intent.tool_call_id)
          ∷ ("tool_name", text intent.tool_name)
          ∷ ("fact_count", number (length facts))
          ∷ ("facts", array (objects facts))
          ∷ []))
    pure (result, facts)

  -- What follows a final permission of `allow`.
  unfoldable pub sandbox_stage :
      ToolIntent
      → PermissionDecision
      → FinalPermission
      → HookDecision
      → (has_facts_path : Bool) → Exec S ToolRunOutcome
  unfolding notify execute_stage
  sandbox_stage intent decision final hook has_facts_path = do
    when (decision.effect == "ask") (notify host ports ToolCallStatus.approved)
    sandbox ← ports.check intent
    ports.append "sandbox_decision" (sandbox_to_dict sandbox)
    if sandbox.effect == "allow"
        then (do
          outcome ← execute_stage intent has_facts_path
          pure (record {
            intent = intent;
            permission_decision = decision;
            final_permission = final;
            hook_decision = hook;
            sandbox_decision = some sandbox;
            result = some outcome.0;
            facts = outcome.1;
          }))
        else (do
          notify host ports ToolCallStatus.sandbox_denied
          pure (record {
            intent = intent;
            permission_decision = decision;
            final_permission = final;
            hook_decision = hook;
            sandbox_decision = some sandbox;
            result = none;
            facts = [];
          }))

  -- A call without permission: a denial is reported, a question is not.
  unfoldable pub refuse_stage :
      ToolIntent → PermissionDecision → FinalPermission → HookDecision → Exec S ToolRunOutcome
  unfolding notify
  refuse_stage intent decision final hook = do
    when (not (final.final_effect == "ask")) (notify host ports ToolCallStatus.policy_denied)
    pure (record {
      intent = intent;
      permission_decision = decision;
      final_permission = final;
      hook_decision = hook;
      sandbox_decision = none;
      result = none;
      facts = [];
    })

  -- What follows the answer to the approval question.
  unfoldable pub permission_stage :
      ToolIntent
      → PermissionDecision
      → FinalPermission
      → HookDecision
      → (runtime_mode : String) → (has_facts_path : Bool) → Exec S ToolRunOutcome
  unfolding sandbox_stage refuse_stage
  permission_stage intent decision final hook runtime_mode has_facts_path = do
    ports.append "permission_decision" (
        merge (merge (permission_to_dict decision) (final_to_dict final))
          (dict (("runtime_mode", text runtime_mode) ∷ [])))
    if final.final_effect == "allow"
        then sandbox_stage intent decision final hook has_facts_path
        else refuse_stage intent decision final hook

  -- `if hook_decision.hook_id is not None: ...append("hook_decision", ...)`.
  unfoldable pub record_hook : HookDecision → Exec S (Unit {0})
  record_hook hook =
      when (is_some hook.hook_id)
        (do ports.append "hook_decision" (hook_decision_to_dict hook); pure tt)

  -- `execute`.
  unfoldable pub run_tool :
      ToolIntent
      → (runtime_mode : String) → List HookRule
      → (approval_mode : Option String)
      → (has_facts_path : Bool) (approval_response : Option String) → Exec S ToolRunOutcome
  unfolding resolved_approval_mode record_hook obtain_response settle_permission permission_stage
  run_tool intent runtime_mode hooks approval_mode has_facts_path approval_response = do
    let mode = resolved_approval_mode approval_mode runtime_mode
    ports.append "tool_intent" (intent_to_dict intent)
    decision ← ports.decide intent
    let hook = ports.evaluate_hooks intent hooks
    record_hook hook
    response ← obtain_response host ports intent decision hook mode approval_response
    let final = settle_permission host ports decision hook mode response
    permission_stage intent decision final hook runtime_mode has_facts_path

-- `execute_async`: the same stages over the executor's `execute_async`.
unfoldable pub run_tool_async :
    Host
    → {S : Type 0} → Ports S
    → ToolIntent
    → (runtime_mode : String) → List HookRule
    → (approval_mode : Option String) (has_facts_path : Bool) (approval_response : Option String)
    → Exec S ToolRunOutcome
unfolding run_tool
run_tool_async host ports intent runtime_mode hooks approval_mode has_facts_path approval_response =
    elim ports.execute_async [
      | none ↦ raise (type_error "tool executor does not implement execute_async")
      | some execute ↦
          run_tool host (record ports { execute = execute }) intent runtime_mode hooks approval_mode
            has_facts_path approval_response
    ]
