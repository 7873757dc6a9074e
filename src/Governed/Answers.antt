-- ===== src/Governed/Answers.antt =====
-- application/governed_session.py: `close`, `record_final_answer`, `fail` and `timeout`.
use agent_trust_runtime.Base.{
  String, true, false, not, ◌&&◌, ◌==◌, [], ◌∷◌, if◌then◌else◌, runtime_error,
}
use agent_trust_runtime.Exec.{Exec, pure, ◌>>=◌, ◌>>◌, when, check}
use agent_trust_runtime.Value.{Fields, text, dict, merge}
use agent_trust_runtime.Lifecycle.Session.{SessionStatus}
use agent_trust_runtime.Sessions.{AgentSession, is_terminal_session}
use agent_trust_runtime.Governed.{
  Governed, Setup, FinalAnswerOutcome, with_state, modify, emit, change_status, is_running,
}

module _ {W : Type 0} (setup : Setup W) where
  -- `close`.
  unfoldable pub close : Exec (Governed W) AgentSession
  unfolding change_status is_running
  close = do
    with_state λ s. check s.started (runtime_error "session has not started")
    with_state λ s.
        when (is_running s.session.status && not s.completion_blocked)
          (change_status setup SessionStatus.completed)
    with_state λ s. pure s.session

  -- The answer is accepted, and the session completes.
  unfoldable pub accept_answer : (action : String) → Exec (Governed W) FinalAnswerOutcome
  accept_answer action = do
    modify λ s. record s { completion_blocked = false }
    change_status setup SessionStatus.completed
    pure (record { completed = true; completion_action = action })

  unfoldable pub block_answer : Exec (Governed W) FinalAnswerOutcome
  block_answer = do
    modify λ s. record s { completion_blocked = true }
    pure (record {
      completed = false;
      completion_action =
          if setup.final_answer_mode == "require_revision"
          then "revision_required"
          else "completion_denied";
    })

  -- `record_final_answer`.
  unfoldable pub record_final_answer :
      (answer coverage_status : String) → Fields → Exec (Governed W) FinalAnswerOutcome
  unfolding accept_answer block_answer emit
  record_final_answer answer coverage_status coverage_payload = do
    with_state λ s. check s.started (runtime_error "session has not started")
    with_state λ s.
        check (is_running s.session.status)
          (runtime_error "cannot finalize an answer in this status")
    _ ← with_state λ s.
        emit setup "final_answer_submitted"
          (dict (("run_id", text s.session.run_id) ∷ ("answer", text answer) ∷ []))
    _ ← with_state λ s.
        emit setup "groundguard_check"
          (merge (dict (("run_id", text s.session.run_id) ∷ [])) coverage_payload)
    if coverage_status == "verified"
        then accept_answer "completed"
        else if setup.final_answer_mode == "warn"
        then accept_answer "warned"
        else block_answer

  -- `fail`.
  unfoldable pub fail : Exec (Governed W) AgentSession
  unfolding change_status
  fail = do
    with_state λ s.
        when (s.started && not (is_terminal_session s.session))
          (change_status setup SessionStatus.failed)
    with_state λ s. pure s.session

  -- `timeout`.
  unfoldable pub timeout : Exec (Governed W) AgentSession
  unfolding change_status emit
  timeout = do
    with_state λ s. when (s.started && not (is_terminal_session s.session)) (do
      _ ← emit setup "session_timed_out" (dict (("run_id", text s.session.run_id) ∷ []))
      change_status setup SessionStatus.failed)
    with_state λ s. pure s.session
