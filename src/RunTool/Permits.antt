-- ===== src/RunTool/Permits.antt =====
-- application/run_tool.py: a tool runs only with permission, and without it nothing is touched.
use agent_trust_runtime.Base.{
  String, ◌≡◌, ◌≢◌, refl, Bool, Option, none, some, List, ◌==◌, eq_iff, arith, ◌⊎◌, inl, inr, ok,
  subst,
}
use agent_trust_runtime.Exec.Rules.{
  Returned, Ensures, Keeps, Ensures-pure, Ensures-if, Ensures-then, Ensures-any, Keeps-when,
  Keeps-pure,
}
use agent_trust_runtime.Value.{Fields}
use agent_trust_runtime.Models.{
  ToolIntent, PermissionDecision, FinalPermission, HookDecision, SandboxDecision,
}
use agent_trust_runtime.Host.{Host}
use agent_trust_runtime.Lifecycle.Call.{ToolCallStatus}
use agent_trust_runtime.Policy.{HookRule}
use agent_trust_runtime.RunTool.{
  Ports, ToolRunOutcome, notify, prompt, obtain_response, proposed_permission, settle_permission,
}
use agent_trust_runtime.RunTool.Stages.{
  sandbox_stage, refuse_stage, permission_stage, record_hook, run_tool,
}

-- The sandbox was asked and allowed the call.
abbrev pub Sandboxed : Option SandboxDecision → Type 0
Sandboxed none = ⊥
Sandboxed (some d) = d.effect ≡ "allow"

-- Why an outcome may hold a tool's result.
pub record IsPermitted (o : ToolRunOutcome) : Type 0 where
  pub allowed : o.final_permission.final_effect ≡ "allow"
  pub unhooked : o.hook_decision.effect ≢ "deny"
  pub sandboxed : Sandboxed o.sandbox_decision

-- Either the call was permitted, or there is no result and `P` still holds.
abbrev pub Guarded : {S : Type 0} → (S → Type 0) → ToolRunOutcome → S → Type 0
Guarded P o s = IsPermitted o ⊎ (o.result ≡ none) × P s

-- The ports that act before the executor keep a predicate on the state.
pub record AreQuiet {S : Type 0} (P : S → Type 0) (ports : Ports S) : Type 0 where
  pub append : (kind : String) (payload : Fields) → Keeps P (ports.append kind payload)
  pub decide : (i : ToolIntent) → Keeps P (ports.decide i)
  pub check : (i : ToolIntent) → Keeps P (ports.check i)
  pub notify : (host : Host) (status : ToolCallStatus) → Keeps P (notify host ports status)
  pub prompt :
      (host : Host) (i : ToolIntent) (d : PermissionDecision) → Keeps P (prompt host ports i d)

module _ (host : Host) {S : Type 0} {P : S → Type 0} (ports : Ports S)
    (quiet : AreQuiet P ports) where
  settled_unhooked :
      (d : PermissionDecision) (hook : HookDecision) (mode : String) (response : Option String)
      → (settle_permission host ports d hook mode response).final_effect ≡ "allow"
      → hook.effect ≢ "deny"
  unfolding settle_permission
  settled_unhooked d hook mode response h = ground (
    arith,
    eq_iff hook.effect "deny",
    eq_iff (proposed_permission host ports d hook mode response).final_effect "deny",
    eq_iff "deny" "allow",
  )

  sandbox_stage-Guarded :
      (i : ToolIntent) (d : PermissionDecision) (f : FinalPermission) (hook : HookDecision)
      (b : Bool)
      → f.final_effect ≡ "allow"
      → hook.effect ≢ "deny"
      → Ensures P (Guarded P) (sandbox_stage host ports i d f hook b)
  unfolding sandbox_stage
  sandbox_stage-Guarded i d f hook b allowed unhooked =
      Ensures-then _ _ (Keeps-when _ _ (quiet.notify host ToolCallStatus.approved)) λ _.
        Ensures-then _ _ (quiet.check i) λ sandbox. Ensures-then _ _ (quiet.append _ _) λ _.
          Ensures-if (sandbox.effect == "allow") _ _
            (λ e. Ensures-any _ _ λ outcome. Ensures-pure _ λ s _. inl (record {
              allowed = allowed;
              unhooked = unhooked;
              sandboxed = (eq_iff sandbox.effect "allow").0 e;
            }))
            (λ e.
              Ensures-then _ _ (quiet.notify host ToolCallStatus.sandbox_denied)
                λ _. Ensures-pure _ λ s p. inr (refl, p))

  refuse_stage-Guarded :
      (i : ToolIntent) (d : PermissionDecision) (f : FinalPermission) (hook : HookDecision)
      → Ensures P (Guarded P) (refuse_stage host ports i d f hook)
  unfolding refuse_stage
  refuse_stage-Guarded i d f hook =
      Ensures-then _ _ (Keeps-when _ _ (quiet.notify host ToolCallStatus.policy_denied))
        λ _. Ensures-pure _ λ s p. inr (refl, p)

  permission_stage-Guarded :
      (i : ToolIntent) (d : PermissionDecision) (f : FinalPermission) (hook : HookDecision)
      (mode : String) (b : Bool)
      → (f.final_effect ≡ "allow" → hook.effect ≢ "deny")
      → Ensures P (Guarded P) (permission_stage host ports i d f hook mode b)
  unfolding permission_stage
  permission_stage-Guarded i d f hook mode b unhooked = Ensures-then _ _ (quiet.append _ _) λ _.
      Ensures-if (f.final_effect == "allow") _ _
        (λ e.
          let allowed = (eq_iff f.final_effect "allow").0 e in
          sandbox_stage-Guarded i d f hook b allowed (unhooked allowed))
        (λ _. refuse_stage-Guarded i d f hook)

  record_hook-Keeps : (hook : HookDecision) → Keeps P (record_hook host ports hook)
  unfolding record_hook
  record_hook-Keeps hook = Keeps-when _ _ (Ensures-then _ _ (quiet.append _ _) λ _. Keeps-pure tt)

  obtain_response-Keeps :
      (i : ToolIntent) (d : PermissionDecision) (hook : HookDecision) (mode : String)
      (response : Option String)
      → Keeps P (obtain_response host ports i d hook mode response)
  unfolding obtain_response
  obtain_response-Keeps i d hook mode response =
      Ensures-then _ _ (Keeps-when _ _ (quiet.notify host ToolCallStatus.waiting_approval))
        λ _. Ensures-if _ _ _ (λ _. quiet.prompt host i d) (λ _. Keeps-pure response)

  run_tool-Guarded :
      (i : ToolIntent) (runtime_mode : String) (hooks : List HookRule)
      (approval_mode : Option String) (has_facts_path : Bool) (response : Option String)
      → Ensures P
          (Guarded P)
          (run_tool host ports i runtime_mode hooks approval_mode has_facts_path response)
  unfolding run_tool
  run_tool-Guarded i runtime_mode hooks approval_mode has_facts_path response =
      Ensures-then _ _ (quiet.append _ _) λ _. Ensures-then _ _ (quiet.decide i) λ d.
        Ensures-then _ _ (record_hook-Keeps _) λ _.
          Ensures-then _ _ (obtain_response-Keeps i d (ports.evaluate_hooks i hooks) _ response)
            λ answer.
              permission_stage-Guarded i d _ (ports.evaluate_hooks i hooks) runtime_mode
                has_facts_path (settled_unhooked d (ports.evaluate_hooks i hooks) _ answer)

  -- If the use case returns an outcome, then either the final permission was `allow`, no hook denied
  -- and the sandbox allowed the call, or the outcome holds no result and every predicate that the
  -- ports before the execution keep still holds of the state.
  pub run_tool-IsPermitted :
      (i : ToolIntent) (runtime_mode : String) (hooks : List HookRule)
      (approval_mode : Option String) (has_facts_path : Bool) (response : Option String) (s s' : S)
      (o : ToolRunOutcome)
      → P s
      → run_tool host ports i runtime_mode hooks approval_mode has_facts_path response s
        ≡ (ok o, s')
      → IsPermitted o ⊎ (o.result ≡ none) × P s'
  run_tool-IsPermitted i runtime_mode hooks approval_mode has_facts_path response s s' o p h =
      subst (Returned (Guarded P)) h
        ((run_tool-Guarded i runtime_mode hooks approval_mode has_facts_path response).at s p)
