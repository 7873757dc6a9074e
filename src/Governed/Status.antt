-- ===== src/Governed/Status.antt =====
-- application/governed_session.py: the operations keep the session and its waiting calls consistent.
use agent_trust_runtime.Base.{
  ◌+◌, refl, false, one_of, String, ◌≡◌, subst, true, Option, none, some, List, ◌==◌, ok,
}
use agent_trust_runtime.Exec.{Exec, pure}
use agent_trust_runtime.Exec.Rules.{
  Returned, Keeps, Ensures-if, Ensures-then, Ensures-on_raise, Keeps-pure,
}
use agent_trust_runtime.Value.{Fields}
use agent_trust_runtime.Host.{Host}
use agent_trust_runtime.Models.{ToolIntent}
use agent_trust_runtime.Policy.{HookRule}
use agent_trust_runtime.Sessions.{SessionToolCall}
use agent_trust_runtime.RunTool.{Ports, ToolRunOutcome}
use agent_trust_runtime.RunTool.Keeps.{run_tool-Keeps}
use agent_trust_runtime.Lifecycle.Call.{ToolCallStatus}
use agent_trust_runtime.Base.Digits.{call_id}
use agent_trust_runtime.Governed.Listing.{
  Lists, IsTracked, world-IsTracked, record_tool_status-IsTracked,
}
use agent_trust_runtime.Governed.Listed.{execute_with-Lists, resume_with-Lists}
use agent_trust_runtime.Governed.Ports.{port-Keeps, governed_ports-AreKept}
use agent_trust_runtime.Governed.{
  Governed, Setup, SessionToolRun, Runner, on_world, record_tool_status, run_governed,
}
use agent_trust_runtime.Governed.Calls.{request_approval, run_call, execute_with, resume_with}
use agent_trust_runtime.Governed.Runner.{governed_ports, tool_runner, execute, resume_tool_call}
use agent_trust_runtime.Governed.Rules.{
  Ensures-lift, Keeps-modify, Ensures-from, taking-Keeps, check-Keeps, with_state-Keeps,
}
use agent_trust_runtime.Governed.Waiting.{
  IsConsistent, IsConsistent-IsStarted, emit-Keeps, record_tool_status-IsConsistent,
}

module _ {W : Type 0} where
  world-IsConsistent :
      (s : Governed W) (w : W) → IsConsistent s → IsConsistent (record s { world = w })
  world-IsConsistent s w p = p

  port-IsConsistent : {A : Type 0} (m : Exec W A) → Keeps IsConsistent (on_world m)
  port-IsConsistent m = port-Keeps world-IsConsistent m

module _ (host : Host) {W : Type 0} (setup : Setup W) where
  -- A run keeps the session consistent if the tool runner does.
  run_call-IsConsistent :
      (runner : Runner W)
      → ((i : ToolIntent) (r : Option String) → Keeps IsConsistent (runner i r))
      → (call : SessionToolCall) (arguments : Fields) (source : String) (response : Option String)
        (message : String)
      → Keeps IsConsistent (run_call host setup runner call arguments source response message)
  unfolding run_call run_governed
  run_call-IsConsistent runner kept call arguments source response message =
      Ensures-then _ _ (port-IsConsistent _) λ now.
        Ensures-then _ _
          (with_state-Keeps _
            λ t. taking-Keeps _ (λ s p. p) (Ensures-on_raise _ _ (kept _ response)))
          λ ran.
            Ensures-then _ _ (Ensures-lift _ λ done s e p. p)
              λ done. Ensures-then _ _ (Keeps-modify _ λ s p. p) λ _. Keeps-pure _

  request_approval-IsConsistent :
      (call : SessionToolCall) (outcome : ToolRunOutcome) (arguments : Fields)
      → Keeps IsConsistent (request_approval host setup call outcome arguments)
  unfolding request_approval
  request_approval-IsConsistent call outcome arguments =
      Ensures-if (outcome.final_permission.final_effect == "ask") _ _
        (λ _. Ensures-then _ _ (port-IsConsistent _) λ now.
          Ensures-then _ _ (port-IsConsistent _) λ id.
            Ensures-then _ _ (with_state-Keeps _ λ t. Ensures-lift _ λ a s e p. p) λ request.
              Ensures-then _ _ (emit-Keeps setup _ _ λ s w p. p) λ event.
                Ensures-then _ _ (journal event setup.journal) λ _. Keeps-pure (some request))
        (λ _. Keeps-pure none)
    where
      journal :
          (event : Fields) (o : Option (Fields → Exec W (Unit {0})))
          → Keeps {A = Unit {0}}
              (IsConsistent {W = W})
              (elim o [ none ↦ pure tt | some append ↦ on_world (append event) ])
      journal event none = Keeps-pure tt
      journal event (some f) = port-IsConsistent _

  execute_with-IsConsistent :
      (runner : Runner W)
      → ((i : ToolIntent) (r : Option String) → Keeps IsConsistent (runner i r))
      → (tool_name : String) (arguments : Fields) (source : String)
      → Keeps IsConsistent (execute_with host setup runner tool_name arguments source)
  unfolding execute_with
  execute_with-IsConsistent runner kept tool_name arguments source =
      Ensures-then _ _ (check-Keeps _ _) λ _. Ensures-then _ _ (check-Keeps _ _) λ _.
        Ensures-then _ _ (Keeps-modify _ λ s p. p) λ _.
          Ensures-then _ _ (port-IsConsistent _) λ now.
            Ensures-then _ _ (with_state-Keeps _ λ t. Ensures-lift _ λ c s e p. p) λ call.
              Ensures-then _ _ (Keeps-modify _ λ s p. p) λ _.
                Ensures-then _ _ (emit-Keeps setup _ _ λ s w p. p) λ _.
                  Ensures-then _ _ (run_call-IsConsistent runner kept call arguments source none _)
                    λ ran.
                      Ensures-then _ _ (request_approval-IsConsistent ran.0 ran.1 arguments)
                        λ request. with_state-Keeps _ λ t. Keeps-pure _

  resume_with-IsConsistent :
      (runner : Runner W)
      → ((i : ToolIntent) (r : Option String) → Keeps IsConsistent (runner i r))
      → (call : SessionToolCall) (arguments : Fields) (response source : String)
      → Keeps IsConsistent (resume_with host setup runner call arguments response source)
  unfolding resume_with
  resume_with-IsConsistent runner kept call arguments response source =
      Ensures-then _ _ (check-Keeps _ _) λ _. Ensures-then _ _ (check-Keeps _ _) λ _.
        Ensures-then _ _ (check-Keeps _ _) λ _. Ensures-then _ _ (check-Keeps _ _) λ _.
          Ensures-then _ _ (Ensures-lift _ λ u s e p. p) λ _.
            Ensures-then _ _ (Keeps-modify _ λ s p. p) λ _.
              Ensures-then _ _
                (run_call-IsConsistent runner kept call arguments source (some response) _)
                λ ran. with_state-Keeps _ λ t. Keeps-pure _

module _ (host : Host) {W : Type 0} (setup : Setup W) (ports : Ports W) (hooks : List HookRule)
    (approval_mode : String) where
  tool_runner-Keeps :
      {P : Governed W → Type 0}
      → ((s : Governed W) (w : W) → P s → P (record s { world = w }))
      → ((status : ToolCallStatus) → Keeps P (record_tool_status setup status))
      → (i : ToolIntent) (response : Option String)
      → Keeps P (tool_runner host setup ports hooks approval_mode i response)
  unfolding tool_runner
  tool_runner-Keeps moves recorded i response =
      run_tool-Keeps host (governed_ports setup ports)
        (governed_ports-AreKept moves host setup ports recorded) i setup.runtime_mode hooks
        (some approval_mode) true response

  tool_runner-IsConsistent :
      (i : ToolIntent) (response : Option String)
      → Keeps IsConsistent (tool_runner host setup ports hooks approval_mode i response)
  tool_runner-IsConsistent = tool_runner-Keeps world-IsConsistent λ status.
      Ensures-from _ (λ s p. IsConsistent-IsStarted s.session.status s.pending p)
        (record_tool_status-IsConsistent setup status)

  tool_runner-IsTracked :
      (before : List String) (i : ToolIntent) (response : Option String)
      → Keeps (IsTracked before) (tool_runner host setup ports hooks approval_mode i response)
  tool_runner-IsTracked before =
      tool_runner-Keeps (world-IsTracked before) (record_tool_status-IsTracked before setup)

  -- A tool call that returns in a consistent session, where the id of the next call is not among the
  -- waiting ones, leaves the session consistent: if it is live, it waits for an approval exactly when
  -- an id waits. The id of the returned call waits exactly if its status is `waiting_approval`, and
  -- every other id waits exactly if it did before.
  pub execute-IsConsistent :
      (tool_name : String) (arguments : Fields) (source : String) (s s' : Governed W)
      (run : SessionToolRun)
      → IsConsistent s
      → one_of (call_id (s.sequence + 1)) s.pending ≡ false
      → execute host setup ports hooks approval_mode tool_name arguments source s ≡ (ok run, s')
      → IsConsistent s' × Lists s.pending s'.pending run.tool_call
  unfolding execute
  execute-IsConsistent tool_name arguments source s s' run p fresh h = (
    subst (Returned (λ _ t. IsConsistent t)) h (
        (execute_with-IsConsistent host setup _ tool_runner-IsConsistent tool_name arguments
            source).at
          s p),
    subst (Returned (λ (r : SessionToolRun) t. Lists s.pending t.pending r.tool_call)) h (
        (execute_with-Lists host s.pending setup _ (tool_runner-IsTracked s.pending) tool_name
            arguments source (s.sequence + 1) fresh).at
          s (refl, refl)),
  )

  -- A waiting call that is resumed with an answer to its approval request and returns, in a
  -- consistent session among whose waiting ids its own is, leaves the session consistent: if it is
  -- live, it waits for an approval exactly when an id waits. The id of the returned call waits exactly
  -- if its status is `waiting_approval`, and every other id waits exactly if it did before.
  pub resume_tool_call-IsConsistent :
      (call : SessionToolCall) (arguments : Fields) (response source : String) (s s' : Governed W)
      (run : SessionToolRun)
      → IsConsistent s
      → one_of call.tool_call_id s.pending ≡ true
      → resume_tool_call host setup ports hooks approval_mode call arguments response source s
        ≡ (ok run, s')
      → IsConsistent s' × Lists s.pending s'.pending run.tool_call
  unfolding resume_tool_call
  resume_tool_call-IsConsistent call arguments response source s s' run p listed h = (
    subst (Returned (λ _ t. IsConsistent t)) h (
        (resume_with-IsConsistent host setup _ tool_runner-IsConsistent call arguments response
            source).at
          s p),
    subst (Returned (λ (r : SessionToolRun) t. Lists s.pending t.pending r.tool_call)) h (
        (resume_with-Lists host s.pending setup _ (tool_runner-IsTracked s.pending) call arguments
            response source listed).at
          s refl),
  )
