-- ===== src/Governed/Runner.antt =====
-- application/governed_session.py: the tool runner of a session. Its ports act on the world alone, and
-- `_record_tool_status` observes the statuses of the call.
use agent_trust_runtime.Base.{String, true, Option, none, some, List}
use agent_trust_runtime.Exec.{Exec}
use agent_trust_runtime.Value.{Fields}
use agent_trust_runtime.Host.{Host}
use agent_trust_runtime.Policy.{HookRule}
use agent_trust_runtime.RunTool.{Ports}
use agent_trust_runtime.RunTool.Stages.{run_tool, run_tool_async}
use agent_trust_runtime.Governed.{
  Governed, Setup, SessionToolRun, Runner, on_world, record_tool_status,
}
use agent_trust_runtime.Governed.Calls.{execute_with, resume_with}
use agent_trust_runtime.Sessions.{SessionToolCall}

-- A port that may be missing.
abbrev optional : {A B : Type 0} → (A → B) → Option A → Option B
optional f none = none
optional f (some a) = some (f a)

module _ {W : Type 0} (setup : Setup W) (ports : Ports W) where
  unfoldable pub governed_ports : Ports (Governed W)
  governed_ports = record {
    append = λ kind payload. on_world (ports.append kind payload);
    decide = λ i. on_world (ports.decide i);
    check = λ i. on_world (ports.check i);
    execute = λ i. on_world (ports.execute i);
    execute_async = optional (λ f i. on_world (f i)) ports.execute_async;
    finalize = ports.finalize;
    evaluate_hooks = ports.evaluate_hooks;
    request_approval = optional (λ f d arguments. on_world (f d arguments)) ports.request_approval;
    create_checkpoint = optional (λ f i. on_world (f i)) ports.create_checkpoint;
    bind_checkpoint = optional (λ f i r b. on_world (f i r b)) ports.bind_checkpoint;
    map_facts = optional (λ f r. on_world (f r)) ports.map_facts;
    store_facts = optional (λ f facts. on_world (f facts)) ports.store_facts;
    observe = some (record_tool_status setup);
  }

module _ (host : Host) {W : Type 0} (setup : Setup W) (ports : Ports W) (hooks : List HookRule)
    (approval_mode : String) where
  -- `self._tool_runner.execute(...)`.
  unfoldable pub tool_runner : Runner W
  unfolding governed_ports
  tool_runner intent response =
      run_tool host (governed_ports setup ports) intent setup.runtime_mode hooks
        (some approval_mode) true response

  -- `self._tool_runner.execute_async(...)`.
  unfoldable pub tool_runner_async : Runner W
  unfolding governed_ports
  tool_runner_async intent response =
      run_tool_async host (governed_ports setup ports) intent setup.runtime_mode hooks
        (some approval_mode) true response

  -- `execute`.
  unfoldable pub execute :
      (tool_name : String) → Fields → (source : String) → Exec (Governed W) SessionToolRun
  unfolding tool_runner
  execute = execute_with host setup tool_runner

  -- `execute_async`.
  unfoldable pub execute_async :
      (tool_name : String) → Fields → (source : String) → Exec (Governed W) SessionToolRun
  unfolding tool_runner_async
  execute_async = execute_with host setup tool_runner_async

  -- `resume_tool_call`.
  unfoldable pub resume_tool_call :
      SessionToolCall → Fields → (response source : String) → Exec (Governed W) SessionToolRun
  unfolding tool_runner
  resume_tool_call = resume_with host setup tool_runner

  -- `resume_tool_call_async`.
  unfoldable pub resume_tool_call_async :
      SessionToolCall → Fields → (response source : String) → Exec (Governed W) SessionToolRun
  unfolding tool_runner_async
  resume_tool_call_async = resume_with host setup tool_runner_async
