-- ===== src/Governed/Calls.antt =====
-- application/governed_session.py: `execute` and `resume_tool_call`, and both asynchronous versions,
-- which differ in the runner alone.
use agent_trust_runtime.Base.{
  ◌+◌, String, ◌||◌, Option, none, some, [], ◌∷◌, ◌++◌, ◌==◌, one_of, if◌then◌else◌, Result, ok,
  raised, value_error, runtime_error,
}
use agent_trust_runtime.Exec.{Exec, pure, lift, ◌>>=◌, ◌>>◌, check}
use agent_trust_runtime.Value.{Fields}
use agent_trust_runtime.Host.{Host}
use agent_trust_runtime.Models.{ToolIntent}
use agent_trust_runtime.Sessions.{
  AgentSession, SessionToolCall, create_tool_call, tool_call_to_dict, arguments_digest,
}
use agent_trust_runtime.Approvals.{ApprovalRequest, create_approval, approval_to_dict}
use agent_trust_runtime.Approvals.Review.{reviewable_arguments}
use agent_trust_runtime.RunTool.{ToolRunOutcome}
use agent_trust_runtime.Governed.{
  Governed, Setup, SessionToolRun, Runner, with_state, modify, on_world, emit, run_governed,
  completed_call, is_running, is_session_waiting, is_waiting,
}

-- `if arguments_digest(arguments) != tool_call.arguments_digest: raise ...`.
unfoldable pub check_digest : SessionToolCall → Result String → Result (Unit {0})
check_digest call (raised e) = raised e
check_digest call (ok digest) =
    if digest == call.arguments_digest
    then ok tt
    else raised (value_error "persisted tool arguments do not match the approval-bound digest")

module _ (host : Host) {W : Type 0} (setup : Setup W) where
  -- The intent that a call is run with; its time is the clock's.
  abbrev intent_of :
      (now : String) → AgentSession → SessionToolCall → Fields → (source : String) → ToolIntent
  intent_of now session call arguments source = record {
    run_id = session.run_id;
    tool_call_id = call.tool_call_id;
    tool_name = call.tool_name;
    arguments = arguments;
    source = source;
    created_at = now;
    runtime_mode = setup.runtime_mode;
    simulation_allowed = setup.simulation_allowed;
  }

  -- The approval that a call waits for, recorded and entered in the journal.
  unfoldable pub request_approval :
      SessionToolCall → ToolRunOutcome → Fields → Exec (Governed W) (Option ApprovalRequest)
  unfolding emit on_world
  request_approval call outcome arguments =
      if outcome.final_permission.final_effect == "ask"
      then (do
        now ← on_world setup.now
        id ← on_world setup.fresh_id
        request ← with_state λ s. lift (
            create_approval host now id s.session.run_id call.tool_call_id call.tool_name
              call.arguments_digest outcome.permission_decision.reason
              outcome.permission_decision.rule_id (reviewable_arguments host arguments) none
              setup.approval_ttl_seconds none)
        event ← emit setup "approval_requested" (approval_to_dict request)
        elim setup.journal [ none ↦ pure tt | some append ↦ on_world (append event) ]
        pure (some request))
      else pure none

  -- A call from the moment it is active: the run, its facts, and what the caller is given.
  unfoldable pub run_call :
      Runner W
      → SessionToolCall
      → Fields
      → (source : String) → Option String
      → (message : String) → Exec (Governed W) (SessionToolCall × ToolRunOutcome)
  unfolding modify completed_call
  run_call runner call arguments source response message = do
    now ← on_world setup.now
    ran ←
        with_state
          λ s. run_governed setup runner (intent_of now s.session call arguments source) response
    done ← lift (completed_call message ran.1)
    modify λ s. record s { facts = s.facts ++ ran.0.facts }
    pure (done, ran.0)

  -- `_execute`.
  unfoldable pub execute_with :
      Runner W
      → (tool_name : String) → Fields
      → (source : String) → Exec (Governed W) SessionToolRun
  unfolding request_approval run_call modify emit
  execute_with runner tool_name arguments source = do
    with_state λ s. check s.started (runtime_error "session must be started before executing tools")
    with_state λ s.
        check (is_running s.session.status || is_session_waiting s.session.status)
          (runtime_error "cannot execute tools in this status")
    modify λ s. record s { sequence = s.sequence + 1 }
    now ← on_world setup.now
    call ← with_state λ s. lift (
        create_tool_call host now s.session.run_id s.session.session_id s.sequence tool_name
          arguments none none)
    modify λ s. record s { active = some call }
    _ ← emit setup "tool_call_requested" (tool_call_to_dict call)
    ran ← run_call runner call arguments source none "tool call lifecycle did not complete"
    request ← request_approval ran.0 ran.1 arguments
    with_state λ s. pure (record {
      session = s.session;
      tool_call = ran.0;
      outcome = ran.1;
      approval_request = request;
    })

  -- `_resume_tool_call`.
  unfoldable pub resume_with :
      Runner W
      → SessionToolCall
      → Fields
      → (response source : String) → Exec (Governed W) SessionToolRun
  unfolding run_call modify check_digest
  resume_with runner call arguments response source = do
    with_state λ s. check s.started (runtime_error "session has not been restored")
    with_state λ s.
        check (is_session_waiting s.session.status)
          (runtime_error "cannot resume a tool in this status")
    check (is_waiting call.status) (runtime_error "cannot resume tool call in this status")
    check (one_of response ("approve" ∷ "deny" ∷ []))
        (value_error "invalid persisted approval response")
    lift (check_digest call (arguments_digest host arguments))
    modify λ s. record s { active = some call }
    ran ←
        run_call runner call arguments source (some response)
          "resumed tool call lifecycle did not complete"
    with_state λ s. pure (record {
      session = s.session;
      tool_call = ran.0;
      outcome = ran.1;
      approval_request = none;
    })
