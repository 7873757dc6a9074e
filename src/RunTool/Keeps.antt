-- ===== src/RunTool/Keeps.antt =====
-- application/run_tool.py: what every port keeps, the use case keeps.
use agent_trust_runtime.Base.{String, Bool, Option, List, ◌==◌}
use agent_trust_runtime.Exec.Rules.{
  Keeps, Ensures-if, Ensures-then, Ensures-on_raise, Keeps-when, Keeps-pure,
}
use agent_trust_runtime.Value.{Fields}
use agent_trust_runtime.Host.{Host}
use agent_trust_runtime.Models.{
  ToolIntent, ToolResult, PermissionDecision, FinalPermission, HookDecision,
}
use agent_trust_runtime.Lifecycle.Call.{ToolCallStatus}
use agent_trust_runtime.Policy.{HookRule}
use agent_trust_runtime.RunTool.{Ports, notify, prompt, obtain_response}
use agent_trust_runtime.RunTool.Stages.{
  bind_stage, map_stage, store_stage, checkpoint_stage, execute_stage, sandbox_stage, refuse_stage,
  permission_stage, record_hook, run_tool,
}

-- Each port keeps a predicate on the state, and each optional port does where it is there.
pub record AreKept {S : Type 0} (P : S → Type 0) (host : Host) (ports : Ports S) : Type 0 where
  pub append : (kind : String) (payload : Fields) → Keeps P (ports.append kind payload)
  pub decide : (i : ToolIntent) → Keeps P (ports.decide i)
  pub check : (i : ToolIntent) → Keeps P (ports.check i)
  pub execute : (i : ToolIntent) → Keeps P (ports.execute i)
  pub notify : (status : ToolCallStatus) → Keeps P (notify host ports status)
  pub prompt : (i : ToolIntent) (d : PermissionDecision) → Keeps P (prompt host ports i d)
  pub create : (i : ToolIntent) → Keeps P (checkpoint_stage host ports i)
  pub bind :
      (i : ToolIntent) (r : ToolResult) (b : Option Fields) → Keeps P (bind_stage host ports i r b)
  pub map_facts : (r : ToolResult) → Keeps P (map_stage host ports r)
  pub store : (fs : List Fields) (b : Bool) → Keeps P (store_stage host ports fs b)

module _ (host : Host) {S : Type 0} {P : S → Type 0} (ports : Ports S)
    (kept : AreKept P host ports) where
  execute_stage-Keeps : (i : ToolIntent) (b : Bool) → Keeps P (execute_stage host ports i b)
  unfolding execute_stage
  execute_stage-Keeps i b = Ensures-then _ _ (kept.create i) λ backup.
      Ensures-then _ _ (kept.notify ToolCallStatus.executing) λ _.
        Ensures-then _ _ (Ensures-on_raise _ _ (kept.execute i)) λ result.
          Ensures-then _ _ (kept.append _ _) λ _. Ensures-then _ _ (kept.bind i result backup) λ _.
            Ensures-then _ _ (kept.notify _) λ _. Ensures-then _ _ (kept.map_facts result) λ facts.
              Ensures-then _ _ (kept.store facts b)
                λ _. Ensures-then _ _ (kept.append _ _) λ _. Keeps-pure _

  sandbox_stage-Keeps :
      (i : ToolIntent) (d : PermissionDecision) (f : FinalPermission) (hook : HookDecision)
      (b : Bool)
      → Keeps P (sandbox_stage host ports i d f hook b)
  unfolding sandbox_stage
  sandbox_stage-Keeps i d f hook b =
      Ensures-then _ _ (Keeps-when _ _ (kept.notify ToolCallStatus.approved)) λ _.
        Ensures-then _ _ (kept.check i) λ sandbox. Ensures-then _ _ (kept.append _ _) λ _.
          Ensures-if (sandbox.effect == "allow") _ _
            (λ _. Ensures-then _ _ (execute_stage-Keeps i b) λ _. Keeps-pure _)
            (λ _. Ensures-then _ _ (kept.notify ToolCallStatus.sandbox_denied) λ _. Keeps-pure _)

  refuse_stage-Keeps :
      (i : ToolIntent) (d : PermissionDecision) (f : FinalPermission) (hook : HookDecision)
      → Keeps P (refuse_stage host ports i d f hook)
  unfolding refuse_stage
  refuse_stage-Keeps i d f hook =
      Ensures-then _ _ (Keeps-when _ _ (kept.notify ToolCallStatus.policy_denied)) λ _. Keeps-pure _

  permission_stage-Keeps :
      (i : ToolIntent) (d : PermissionDecision) (f : FinalPermission) (hook : HookDecision)
      (mode : String) (b : Bool)
      → Keeps P (permission_stage host ports i d f hook mode b)
  unfolding permission_stage
  permission_stage-Keeps i d f hook mode b = Ensures-then _ _ (kept.append _ _) λ _.
      Ensures-if (f.final_effect == "allow") _ _ (λ _. sandbox_stage-Keeps i d f hook b)
        (λ _. refuse_stage-Keeps i d f hook)

  record_hook-Keeps : (hook : HookDecision) → Keeps P (record_hook host ports hook)
  unfolding record_hook
  record_hook-Keeps hook = Keeps-when _ _ (Ensures-then _ _ (kept.append _ _) λ _. Keeps-pure tt)

  obtain_response-Keeps :
      (i : ToolIntent) (d : PermissionDecision) (hook : HookDecision) (mode : String)
      (response : Option String)
      → Keeps P (obtain_response host ports i d hook mode response)
  unfolding obtain_response
  obtain_response-Keeps i d hook mode response =
      Ensures-then _ _ (Keeps-when _ _ (kept.notify ToolCallStatus.waiting_approval))
        λ _. Ensures-if _ _ _ (λ _. kept.prompt i d) (λ _. Keeps-pure response)

  pub run_tool-Keeps :
      (i : ToolIntent) (runtime_mode : String) (hooks : List HookRule)
      (approval_mode : Option String) (b : Bool) (response : Option String)
      → Keeps P (run_tool host ports i runtime_mode hooks approval_mode b response)
  unfolding run_tool
  run_tool-Keeps i runtime_mode hooks approval_mode b response =
      Ensures-then _ _ (kept.append _ _) λ _. Ensures-then _ _ (kept.decide i) λ decision.
        Ensures-then _ _ (record_hook-Keeps _) λ _.
          Ensures-then _ _ (obtain_response-Keeps i decision (ports.evaluate_hooks i hooks) _ _)
            λ answer.
              permission_stage-Keeps i decision _ (ports.evaluate_hooks i hooks) runtime_mode b
