-- ===== src/Examples/Governance.antt =====
-- application/governed_session.py: a call that asks, its approval, and an answer that is blocked.
use agent_trust_runtime.Base.{
  ℕ, String, ◌≡◌, ◌≢◌, refl, Bool, true, false, none, some, List, [], ◌∷◌, ◌⊎◌, Error, ok, raised,
}
use agent_trust_runtime.Exec.{pure, ◌>>=◌, when, check, on_raise, raise}
use agent_trust_runtime.Value.{end}
use agent_trust_runtime.Lifecycle.Session.{SessionStatus}
use agent_trust_runtime.Lifecycle.Call.{ToolCallStatus}
use agent_trust_runtime.Models.{FinalPermission}
use agent_trust_runtime.Sessions.{
  AgentSession, SessionToolCall, create_tool_call, transition_tool_call, transition_session,
  is_terminal_session, arguments_digest, check_session,
}
use agent_trust_runtime.Approvals.{pending, create_approval, check_approval}
use agent_trust_runtime.Permission.{finalize_permission}
use agent_trust_runtime.RunTool.Stages.{run_tool}
use agent_trust_runtime.Governed.{
  Governed, Setup, SessionToolRun, Runner, is_running, is_session_waiting, is_waiting, run_governed,
  record_tool_status, reconcile, add, discard, change_status, on_world, emit, modify,
}
use agent_trust_runtime.Governed.Answers.{close, record_final_answer}
use agent_trust_runtime.Governed.Calls.{execute_with, resume_with}
use agent_trust_runtime.Governed.Runner.{tool_runner, execute, resume_tool_call}
use agent_trust_runtime.Governed.Waiting.{IsConsistent}
use agent_trust_runtime.Governed.Listing.{Lists}
use agent_trust_runtime.Governed.Status.{execute-IsConsistent, resume_tool_call-IsConsistent}
use agent_trust_runtime.Governed.Failures.{HasFailed, run_governed-HasFailed}
use agent_trust_runtime.Governed.Guards.{
  IsResumable, resume_with-IsResumable, unverified_answer_blocks,
}
use agent_trust_runtime.Examples.Decisions.{host, intent}
use agent_trust_runtime.Examples.Calls.{decision, unhooked, boxed, result, ports}

abbrev setup : Setup ℕ
setup = record {
  append = λ _ payload. pure payload;
  journal = none;
  now = pure "t5";
  fresh_id = pure "approval";
  runtime_mode = "test";
  simulation_allowed = false;
  approval_ttl_seconds = none;
  final_answer_mode = "deny_completion";
}

abbrev session : SessionStatus → AgentSession
session status = record {
  run_id = "run";
  actor_id = "actor";
  session_id = "session";
  created_at = "t0";
  updated_at = "t5";
  agent_id = none;
  policy_version = none;
  status = status;
}

abbrev governed : SessionStatus → List String → ℕ → Governed ℕ
governed status waiting runs = record {
  session = session status;
  sequence = 1;
  pending = waiting;
  started = true;
  active = none;
  facts = [];
  completion_blocked = false;
  world = runs;
}

abbrev call : ToolCallStatus → SessionToolCall
call status = record {
  run_id = "run";
  session_id = "session";
  tool_call_id = "call_001";
  sequence = 1;
  tool_name = "shell";
  arguments_digest = "{}";
  requested_at = "t5";
  updated_at = "t5";
  status = status;
  policy_rule_id = none;
}

abbrev final : String → String → FinalPermission
final effect reason = record {
  effect = "ask";
  final_effect = effect;
  reason = reason;
  approval_required = true;
}

abbrev waiting_run : SessionToolRun
waiting_run = record {
  session = session SessionStatus.waiting_approval;
  tool_call = call ToolCallStatus.waiting_approval;
  outcome = record {
    intent = record (intent "shell" end) { created_at = "t5"; source = "sdk" };
    permission_decision = decision "ask";
    final_permission = final "ask" "approval_pending";
    hook_decision = unhooked;
    sandbox_decision = none;
    result = none;
    facts = [];
  };
  approval_request = some (record {
    approval_id = "approval";
    run_id = "run";
    tool_call_id = "call_001";
    tool_name = "shell";
    arguments_digest = "{}";
    reason = "rule";
    requested_at = "t5";
    arguments_preview = end;
    policy_rule_id = none;
    expires_at = none;
    decision = pending;
    approver_id = none;
    decision_reason = none;
    decided_at = none;
  });
}

abbrev resumed_run : SessionToolRun
resumed_run = record {
  session = session SessionStatus.running;
  tool_call = call ToolCallStatus.succeeded;
  outcome = record {
    intent = record (intent "shell" end) { created_at = "t5"; source = "sdk" };
    permission_decision = decision "ask";
    final_permission = final "allow" "interactive_approved";
    hook_decision = unhooked;
    sandbox_decision = some boxed;
    result = some result;
    facts = [];
  };
  approval_request = none;
}

asked :
    execute host setup ports [] "deferred" "shell" end "sdk"
      (record (governed SessionStatus.running [] 0) { sequence = 0 })
    ≡ (ok waiting_run, governed SessionStatus.waiting_approval ("call_001" ∷ []) 0)
unfolding execute execute_with create_tool_call create_approval check_approval ◌>>=◌ check
    is_running is_session_waiting is_waiting run_governed on_raise run_tool when record_tool_status
    reconcile transition_tool_call is_terminal_session add discard change_status transition_session
    on_world emit modify arguments_digest finalize_permission
asked = refl

resumed :
    resume_tool_call host setup ports [] "deferred"
      (call ToolCallStatus.waiting_approval)
      end
      "approve"
      "sdk"
      (governed SessionStatus.waiting_approval ("call_001" ∷ []) 0)
    ≡ (ok resumed_run, governed SessionStatus.running [] 1)
unfolding resume_tool_call resume_with ◌>>=◌ check is_running is_session_waiting is_waiting
    run_governed on_raise run_tool when record_tool_status reconcile transition_tool_call
    is_terminal_session add discard change_status transition_session on_world emit modify
    arguments_digest finalize_permission
resumed = refl

blocked :
    record_final_answer setup "done" "unsupported" end (governed SessionStatus.running [] 1) ≡ (
      ok (record { completed = false; completion_action = "completion_denied" }),
      record (governed SessionStatus.running [] 1) { completion_blocked = true },
    )
unfolding record_final_answer ◌>>=◌ check is_running modify
blocked = refl

execute-IsConsistent_example :
    IsConsistent (governed SessionStatus.waiting_approval ("call_001" ∷ []) 0)
    × Lists [] ("call_001" ∷ []) (call ToolCallStatus.waiting_approval)
execute-IsConsistent_example =
    execute-IsConsistent host setup ports [] "deferred" "shell" end "sdk"
      (record (governed SessionStatus.running [] 0) { sequence = 0 })
      (governed SessionStatus.waiting_approval ("call_001" ∷ []) 0) waiting_run refl refl asked

resume_tool_call-IsConsistent_example :
    IsConsistent (governed SessionStatus.running [] 1)
    × Lists ("call_001" ∷ []) [] (call ToolCallStatus.succeeded)
resume_tool_call-IsConsistent_example =
    resume_tool_call-IsConsistent host setup ports [] "deferred"
      (call ToolCallStatus.waiting_approval) end "approve" "sdk"
      (governed SessionStatus.waiting_approval ("call_001" ∷ []) 0)
      (governed SessionStatus.running [] 1) resumed_run refl refl resumed

abbrev runner : Runner ℕ
runner = tool_runner host setup ports [] "deferred"

abbrev failing : Runner ℕ
failing i response = raise (Error.os_error "disk")

run_governed-HasFailed_example :
    HasFailed
      (run_governed setup failing (intent "shell" end) none (governed SessionStatus.running [] 0))
unfolding check_session raise pure
run_governed-HasFailed_example =
    run_governed-HasFailed setup failing (intent "shell" end) none
      (governed SessionStatus.running [] 0) (governed SessionStatus.running [] 0)
      (Error.os_error "disk") "t5" 0 refl refl tt refl refl

unsupported : (◌≢◌ {A = String} "unsupported" "verified")
unsupported p = cc p

deny : (◌≢◌ {A = String} "deny_completion" "warn")
deny p = cc p

resume_with-IsResumable_example :
    IsResumable host
      (governed SessionStatus.waiting_approval [] 0)
      (call ToolCallStatus.waiting_approval)
      end
      "later"
    ⊎ ((e : Error) × (resume_with host setup runner
            (call ToolCallStatus.waiting_approval)
            end
            "later"
            "sdk"
            (governed SessionStatus.waiting_approval [] 0)
          ≡ (raised e, governed SessionStatus.waiting_approval [] 0)))
resume_with-IsResumable_example =
    resume_with-IsResumable host setup runner (call ToolCallStatus.waiting_approval) end "later"
      "sdk" (governed SessionStatus.waiting_approval [] 0)

unverified_answer_blocks_example :
    (◌≡◌ {A = Bool} false false)
    × (session SessionStatus.running ≡ session SessionStatus.running)
    × (close setup (record (governed SessionStatus.running [] 1) { completion_blocked = true }) ≡ (
      ok (session SessionStatus.running),
      record (governed SessionStatus.running [] 1) { completion_blocked = true },
    ))
unverified_answer_blocks_example =
    unverified_answer_blocks setup "done" "unsupported" end (governed SessionStatus.running [] 1)
      (record (governed SessionStatus.running [] 1) { completion_blocked = true })
      (record { completed = false; completion_action = "completion_denied" }) unsupported deny
      blocked
