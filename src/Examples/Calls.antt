-- ===== src/Examples/Calls.antt =====
-- application/run_tool.py: a run whose state counts the executions of the tool.
use agent_trust_runtime.Base.{ℕ, suc, String, ◌≡◌, refl, true, false, none, some, [], ◌⊎◌, ok}
use agent_trust_runtime.Exec.{Exec, pure, ◌>>=◌, when, on_raise}
use agent_trust_runtime.Exec.Rules.{Keeps-pure}
use agent_trust_runtime.Value.{end}
use agent_trust_runtime.Models.{ToolResult, PermissionDecision, HookDecision, SandboxDecision}
use agent_trust_runtime.Permission.{finalize_permission}
use agent_trust_runtime.RunTool.{Ports, ToolRunOutcome, notify, prompt}
use agent_trust_runtime.RunTool.Stages.{run_tool}
use agent_trust_runtime.RunTool.Permits.{IsPermitted, AreQuiet, run_tool-IsPermitted}
use agent_trust_runtime.Examples.Decisions.{host, intent}

abbrev pub decision : String → PermissionDecision
decision effect = record {
  run_id = "run";
  tool_call_id = "call_001";
  tool_name = "shell";
  effect = effect;
  reason = "rule";
  rule_id = none;
}

abbrev pub unhooked : HookDecision
unhooked = record {
  run_id = "run";
  tool_call_id = "call_001";
  tool_name = "shell";
  effect = "allow";
  hook_id = none;
  reason = "no_hook_matched";
}

abbrev pub boxed : SandboxDecision
boxed = record {
  run_id = "run";
  tool_call_id = "call_001";
  tool_name = "shell";
  effect = "allow";
  reason = "inside";
  path = none;
}

abbrev pub result : ToolResult
result = record {
  run_id = "run";
  tool_call_id = "call_001";
  tool_name = "shell";
  status = "ok";
  output_preview = "";
  output_digest = none;
  metadata = end;
  error = none;
  created_at = "t0";
}

abbrev pub run_once : Exec ℕ ToolResult
run_once n = (ok result, suc n)

abbrev pub ports : Ports ℕ
ports = record {
  append = λ _ payload. pure payload;
  decide = λ _. pure (decision "ask");
  check = λ _. pure boxed;
  execute = λ _. run_once;
  execute_async = none;
  finalize = λ d mode response. finalize_permission d (some mode) response none;
  evaluate_hooks = λ _ _. unhooked;
  request_approval = none;
  create_checkpoint = none;
  bind_checkpoint = none;
  map_facts = none;
  store_facts = none;
  observe = none;
}

quiet : AreQuiet (λ n. n ≡ 0) ports
unfolding notify prompt
quiet = record {
  append = λ kind payload. Keeps-pure _;
  decide = λ i. Keeps-pure _;
  check = λ i. Keeps-pure _;
  notify = λ h status. Keeps-pure _;
  prompt = λ h i d. Keeps-pure _;
}

abbrev outcome : ToolRunOutcome
outcome = record {
  intent = intent "shell" end;
  permission_decision = decision "ask";
  final_permission = record {
    effect = "ask";
    final_effect = "allow";
    reason = "mock_approver_approved";
    approval_required = true;
  };
  hook_decision = unhooked;
  sandbox_decision = some boxed;
  result = some result;
  facts = [];
}

call_run : run_tool host ports (intent "shell" end) "test" [] none false none 0 ≡ (ok outcome, 1)
unfolding run_tool ◌>>=◌ when finalize_permission on_raise
call_run = refl

run_tool-IsPermitted_example : IsPermitted outcome ⊎ (outcome.result ≡ none) × (◌≡◌ {A = ℕ} 1 0)
run_tool-IsPermitted_example =
    run_tool-IsPermitted host ports quiet (intent "shell" end) "test" [] none false none 0 1 outcome
      refl call_run
