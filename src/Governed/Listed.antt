-- ===== src/Governed/Listed.antt =====
-- application/governed_session.py: an operation lists the call that it ran.
use agent_trust_runtime.Base.{
  ℕ, ◌+◌, String, ◌≡◌, sym, ap, ◌∙◌, subst, true, false, Option, none, some, List, ◌==◌, eq_iff,
  one_of, arith, Result, ok, raised,
}
use agent_trust_runtime.Base.Digits.{call_id}
use agent_trust_runtime.Exec.{Exec, pure, lift}
use agent_trust_runtime.Exec.Rules.{
  Returned, Ensures, Keeps, Ensures-if, Ensures-bind, Ensures-then, Ensures-on_raise, Keeps-pure,
  Ensures-pure,
}
use agent_trust_runtime.Value.{Fields}
use agent_trust_runtime.Host.{Host}
use agent_trust_runtime.Models.{ToolIntent}
use agent_trust_runtime.Lifecycle.Call.{ToolCallStatus}
use agent_trust_runtime.Sessions.{SessionToolCall, create_tool_call}
use agent_trust_runtime.RunTool.{ToolRunOutcome}
use agent_trust_runtime.Governed.{
  Governed, Setup, SessionToolRun, Runner, on_world, run_governed, release, taking, completed_call,
  is_waiting,
}
use agent_trust_runtime.Governed.Calls.{request_approval, run_call, execute_with, resume_with}
use agent_trust_runtime.Governed.Rules.{
  Ensures-lift, Ensures-modify, Keeps-modify, Ensures-with_state, on_world-Keeps, check-Keeps,
  check-true, with_state-Ensures, with_state-Keeps,
}
use agent_trust_runtime.Governed.Waiting.{emit-Keeps}
use agent_trust_runtime.Governed.Listing.{
  waits, is_waiting-waits, Lists, ActiveLists, IsTracked, world-IsTracked,
  create_tool_call-requested,
}

completed_call-Lists :
    (before : List String) (message : String) (o : Option SessionToolCall) (c : SessionToolCall)
    (now : List String)
    → completed_call message o ≡ ok c
    → ActiveLists before now o
    → Lists before now c
unfolding completed_call
completed_call-Lists before message none c now h p = cc
completed_call-Lists before message (some d) c now h p =
    let e : d ≡ c = cc in subst (Lists before now) e p

module _ (before : List String) {W : Type 0} where
  -- Taking the active call hands on that it is listed.
  taking-Lists :
      {A : Type 0} (m : Exec (Governed W) A)
      → Keeps (IsTracked before) m
      → Ensures
          (λ s. IsTracked before s)
          (λ (r : A × Option SessionToolCall) s. ActiveLists before s.pending r.1)
          (taking m)
  unfolding taking
  taking-Lists {A} m k = record { at = λ s p. taken (m s) (k.at s p) }
    where
      taken :
          (r : Result A × Governed W)
          → Returned (λ _ t. IsTracked before t) r
          → Returned
              (λ (x : A × Option SessionToolCall) t. ActiveLists before t.pending x.1)
              (release r)
      taken (ok a, s) p = p
      taken (raised e, s) p = tt

module _ (before : List String) {W : Type 0} (setup : Setup W) where
  run_governed-Lists :
      (runner : Runner W)
      → ((i : ToolIntent) (r : Option String) → Keeps (IsTracked before) (runner i r))
      → (i : ToolIntent) (response : Option String)
      → Ensures
          (λ s. IsTracked before s)
          (λ (ran : ToolRunOutcome × Option SessionToolCall) s. ActiveLists before s.pending ran.1)
          (run_governed setup runner i response)
  unfolding run_governed
  run_governed-Lists runner kept i response =
      taking-Lists before _ (Ensures-on_raise _ _ (kept i response))

module _ (host : Host) (before : List String) {W : Type 0} (setup : Setup W) where
  -- The call that a run ends with is listed if the tool runner keeps the active call listed.
  run_call-Lists :
      (runner : Runner W)
      → ((i : ToolIntent) (r : Option String) → Keeps (IsTracked before) (runner i r))
      → (call : SessionToolCall) (arguments : Fields) (source : String) (response : Option String)
        (message : String)
      → Ensures
          (λ s. IsTracked before s)
          (λ (ran : SessionToolCall × ToolRunOutcome) s. Lists before s.pending ran.0)
          (run_call host setup runner call arguments source response message)
  unfolding run_call
  run_call-Lists runner kept call arguments source response message =
      Ensures-then _ _ (on_world-Keeps _ (world-IsTracked before)) λ now.
        Ensures-bind
          (λ (ran : ToolRunOutcome × Option SessionToolCall) s. ActiveLists before s.pending ran.1)
          _ _ (with_state-Ensures _ λ t. run_governed-Lists before setup runner kept _ response)
          λ ran.
            Ensures-bind (λ (done : SessionToolCall) s. Lists before s.pending done) _ _
              (Ensures-lift _
                λ done s e p. completed_call-Lists before message ran.1 done s.pending e p)
              λ done. Ensures-then _ _ (Keeps-modify _ λ s p. p) λ _. Ensures-pure _ λ s p. p

  -- An approval request leaves the ids as they are.
  request_approval-Lists :
      (call : SessionToolCall) (outcome : ToolRunOutcome) (arguments : Fields)
      → Keeps
          (λ s. Lists before s.pending call)
          (request_approval host setup call outcome arguments)
  unfolding request_approval
  request_approval-Lists call outcome arguments =
      Ensures-if (outcome.final_permission.final_effect == "ask") _ _
        (λ _. Ensures-then _ _ (port _) λ now. Ensures-then _ _ (port _) λ id.
          Ensures-then _ _ (with_state-Keeps _ λ t. Ensures-lift _ λ a s e p. p) λ request.
            Ensures-then _ _ (emit-Keeps setup _ _ λ s w p. p) λ event.
              Ensures-then _ _ (journal event setup.journal) λ _. Keeps-pure (some request))
        (λ _. Keeps-pure none)
    where
      port : {A : Type 0} (m : Exec W A) → Keeps (λ s. Lists before s.pending call) (on_world m)
      port m = on_world-Keeps m λ s w p. p

      journal :
          (event : Fields) (o : Option (Fields → Exec W (Unit {0})))
          → Keeps {S = Governed W} {A = Unit {0}}
              (λ s. Lists before s.pending call)
              (elim o [ none ↦ pure tt | some append ↦ on_world (append event) ])
      journal event none = Keeps-pure tt
      journal event (some f) = port _

  -- A call that is new is listed before its run, and one that waits is too.
  requested-Lists :
      (c : SessionToolCall) (id : String)
      → one_of id before ≡ false
      → c.tool_call_id ≡ id
      → c.status ≡ ToolCallStatus.requested
      → Lists before before c
  requested-Lists c id fresh i e j = ground (arith, fresh, i, e, eq_iff j c.tool_call_id)

  waiting-Lists :
      (c : SessionToolCall)
      → one_of c.tool_call_id before ≡ true
      → waits c.status ≡ true
      → Lists before before c
  waiting-Lists c listed w j = ground (arith, listed, w, eq_iff j c.tool_call_id)

  made-Lists :
      (now tool_name : String) (t : Governed W) (arguments : Fields) (n : ℕ)
      → one_of (call_id n) before ≡ false
      → (t.pending ≡ before) × (t.sequence ≡ n)
      → Ensures
          (λ s. s ≡ t)
          (λ (c : SessionToolCall) s. (s.pending ≡ before) × Lists before before c)
          (lift (
            create_tool_call host now t.session.run_id t.session.session_id t.sequence tool_name
              arguments none none))
  made-Lists now tool_name t arguments n fresh p = Ensures-lift _ λ c s made e.
      let (i, q) =
        create_tool_call-requested host now t.session.run_id t.session.session_id tool_name
          t.sequence arguments c made in
      (
        ap (λ (u : Governed W). u.pending) e ∙ p.0,
        requested-Lists c (call_id n) fresh (i ∙ ap call_id p.1) q,
      )

  -- The call of a run that `execute` returns is listed.
  pub execute_with-Lists :
      (runner : Runner W)
      → ((i : ToolIntent) (r : Option String) → Keeps (IsTracked before) (runner i r))
      → (tool_name : String) (arguments : Fields) (source : String) (n : ℕ)
      → one_of (call_id n) before ≡ false
      → Ensures
          (λ s. (s.pending ≡ before) × (s.sequence + 1 ≡ n))
          (λ (run : SessionToolRun) s. Lists before s.pending run.tool_call)
          (execute_with host setup runner tool_name arguments source)
  unfolding execute_with
  execute_with-Lists runner kept tool_name arguments source n fresh =
      Ensures-then _ _ (check-Keeps _ _) λ _. Ensures-then _ _ (check-Keeps _ _) λ _.
        Ensures-bind (λ _ s. (s.pending ≡ before) × (s.sequence ≡ n)) _ _
          (Ensures-modify _ λ s p. p)
          λ _. Ensures-then _ _ (on_world-Keeps _ λ s w p. p) λ now.
            Ensures-bind (λ (c : SessionToolCall) s. (s.pending ≡ before) × Lists before before c) _
              _
              (Ensures-with_state
                (λ t. lift (
                  create_tool_call host now t.session.run_id t.session.session_id t.sequence
                    tool_name arguments none none))
                λ t p. made-Lists now tool_name t arguments n fresh p)
              λ call.
                Ensures-bind (λ _. IsTracked before) _ _
                  (Ensures-modify _ λ s p. subst (λ ids. Lists before ids call) (sym p.0) p.1)
                  λ _. Ensures-then _ _ (emit-Keeps setup _ _ (world-IsTracked before)) λ _.
                    Ensures-bind
                      (λ (ran : SessionToolCall × ToolRunOutcome) s. Lists before s.pending ran.0) _
                      _ (run_call-Lists runner kept call arguments source none _)
                      λ ran.
                        Ensures-then _ _ (request_approval-Lists ran.0 ran.1 arguments)
                          λ request. with_state-Ensures _ λ t. Ensures-pure _ λ s p. p

  -- The call of a run that `resume_tool_call` returns is listed.
  pub resume_with-Lists :
      (runner : Runner W)
      → ((i : ToolIntent) (r : Option String) → Keeps (IsTracked before) (runner i r))
      → (call : SessionToolCall) (arguments : Fields) (response source : String)
      → one_of call.tool_call_id before ≡ true
      → Ensures
          (λ s. s.pending ≡ before)
          (λ (run : SessionToolRun) s. Lists before s.pending run.tool_call)
          (resume_with host setup runner call arguments response source)
  unfolding resume_with
  resume_with-Lists runner kept call arguments response source listed =
      Ensures-then _ _ (check-Keeps _ _) λ _. Ensures-then _ _ (check-Keeps _ _) λ _.
        Ensures-bind (λ _ s. (s.pending ≡ before) × (is_waiting call.status ≡ true)) _ _
          (check-true (is_waiting call.status) _)
          λ _. Ensures-then _ _ (check-Keeps _ _) λ _.
            Ensures-then _ _ (Ensures-lift _ λ u s e p. p) λ _.
              Ensures-bind (λ _. IsTracked before) _ _
                (Ensures-modify _ λ s p.
                  subst (λ ids. Lists before ids call) (sym p.0)
                    (waiting-Lists call listed (sym (is_waiting-waits call.status) ∙ p.1)))
                λ _.
                  Ensures-bind
                    (λ (ran : SessionToolCall × ToolRunOutcome) s. Lists before s.pending ran.0) _ _
                    (run_call-Lists runner kept call arguments source (some response) _)
                    λ ran. with_state-Ensures _ λ t. Ensures-pure _ λ s p. p
