-- ===== src/Governed/Guards.antt =====
-- application/governed_session.py: what a resumed call is bound to, and a completion that is blocked.
use agent_trust_runtime.Base.{
  String, ◌≡◌, ◌≢◌, refl, subst, ap, ◌∙◌, Bool, true, false, Bool-cases, ◌⊎◌, inl, inr, [], ◌∷◌,
  ◌==◌, eq_iff, arith, Result, ok, raised, Error, one_of, value_error, runtime_error,
}
use agent_trust_runtime.Exec.{pure, raise, lift, ◌>>=◌, when, check}
use agent_trust_runtime.Exec.Rules.{
  Returned, Ensures, Ensures-bind, Ensures-then, Ensures-if, Ensures-pure, Ensures-weaken,
}
use agent_trust_runtime.Value.{Fields}
use agent_trust_runtime.Host.{Host}
use agent_trust_runtime.Sessions.{SessionToolCall, arguments_digest}
use agent_trust_runtime.Governed.{
  Governed, Setup, FinalAnswerOutcome, Runner, with_state, is_running, is_session_waiting,
  is_waiting,
}
use agent_trust_runtime.Governed.Calls.{check_digest, resume_with}
use agent_trust_runtime.Governed.Answers.{close, block_answer, record_final_answer}
use agent_trust_runtime.Governed.Rules.{Ensures-modify, check-Keeps, with_state-Keeps}
use agent_trust_runtime.Governed.Waiting.{emit-Keeps}

-- What a resumed call needs: a session and a call that wait, an answer, and the approved arguments.
pub record IsResumable (host : Host) {W : Type 0} (s : Governed W) (call : SessionToolCall)
    (arguments : Fields) (response : String) : Type 0 where
  pub started : s.started ≡ true
  pub session_waits : is_session_waiting s.session.status ≡ true
  pub call_waits : is_waiting call.status ≡ true
  pub answered : one_of response ("approve" ∷ "deny" ∷ []) ≡ true
  pub unchanged : arguments_digest host arguments ≡ ok call.arguments_digest

differs : (a b : String) → a ≢ b → (a == b) ≡ false
differs a b n = ground (arith, eq_iff a b)

check_digest-ok :
    (call : SessionToolCall) (r : Result String)
    → check_digest call r ≡ ok tt
    → r ≡ ok call.arguments_digest
unfolding check_digest
check_digest-ok call (ok digest) h = ap ok ((eq_iff digest call.arguments_digest).0 (ground arith))
check_digest-ok call (raised e) h = cc

module _ (host : Host) {W : Type 0} (setup : Setup W) where
  -- Whatever the tool runner does: a call is resumed only where the session and the call wait for an
  -- approval, the response is an answer and the arguments have the digest of the approved ones.
  -- Otherwise an error is raised, and the session and the world are as before.
  pub resume_with-IsResumable :
      (runner : Runner W) (call : SessionToolCall) (arguments : Fields) (response source : String)
      (s : Governed W)
      → IsResumable host s call arguments response
        ⊎ ((e : Error) × (resume_with host setup runner call arguments response source s
              ≡ (raised e, s)))
  unfolding resume_with ◌>>=◌ check lift pure raise
  resume_with-IsResumable runner call arguments response source s = elim (Bool-cases s.started) [
    | inr e ↦ inr (runtime_error "session has not been restored", rw e)
    | inl a ↦ elim (Bool-cases (is_session_waiting s.session.status)) [
      | inr e ↦ inr (runtime_error "cannot resume a tool in this status", rw (a, e))
      | inl b ↦ elim (Bool-cases (is_waiting call.status)) [
        | inr e ↦ inr (runtime_error "cannot resume tool call in this status", rw (a, b, e))
        | inl c ↦ elim (Bool-cases (one_of response ("approve" ∷ "deny" ∷ []))) [
          | inr e ↦ inr (value_error "invalid persisted approval response", rw (a, b, c, e))
          | inl d ↦ digest a b c d (check_digest call (arguments_digest host arguments)) refl
        ]
      ]
    ]
  ]
    where
      digest :
          s.started ≡ true
          → is_session_waiting s.session.status ≡ true
          → is_waiting call.status ≡ true
          → one_of response ("approve" ∷ "deny" ∷ []) ≡ true
          → (r : Result (Unit {0})) → check_digest call (arguments_digest host arguments) ≡ r
          → IsResumable host s call arguments response
            ⊎ ((e : Error) × (resume_with host setup runner call arguments response source s
                  ≡ (raised e, s)))
      digest a b c d (ok u) h = inl (record {
        started = a;
        session_waits = b;
        call_waits = c;
        answered = d;
        unchanged = check_digest-ok call (arguments_digest host arguments) h;
      })
      digest a b c d (raised x) h = inr (x, rw (a, b, c, d, h))

module _ {W : Type 0} {P : Governed W → Type 0} where
  -- Behind a check, what it tests is so.
  check-Ensures :
      (f : Governed W → Bool) (e : Error)
      → Ensures P (λ _ s. P s × (f s ≡ true)) (with_state λ s. check (f s) e)
  unfolding check pure raise
  check-Ensures f e = record { at = λ s p. go s p (f s) refl }
    where
      go :
          (s : Governed W)
          → P s
          → (b : Bool) → f s ≡ b
          → Returned (λ _ t. P t × (f t ≡ true)) (check b e s)
      go s p true h = (p, h)
      go s p false h = tt

module _ {W : Type 0} (setup : Setup W) where
  -- A session whose completion is blocked is not changed by a close.
  close-blocked :
      (s : Governed W)
      → s.started ≡ true
      → s.completion_blocked ≡ true
      → close setup s ≡ (ok s.session, s)
  unfolding close ◌>>=◌ check when pure raise
  close-blocked s a b = elim (Bool-cases (is_running s.session.status)) [
    | inl e ↦ rw (a, b, e)
    | inr e ↦ rw (a, b, e)
  ]

  -- What is known of a blocked session whose answers were recorded from `t`.
  abbrev IsBlocked : Governed W → FinalAnswerOutcome → Governed W → Type 0
  IsBlocked t o s =
      (o.completed ≡ false)
      × (s.session ≡ t.session)
      × (s.started ≡ true)
      × (s.completion_blocked ≡ true)

  record_final_answer-IsBlocked :
      (answer coverage_status : String) (payload : Fields) (t : Governed W)
      → (coverage_status == "verified") ≡ false
      → (setup.final_answer_mode == "warn") ≡ false
      → Ensures
          (λ s. s ≡ t)
          (IsBlocked t)
          (record_final_answer setup answer coverage_status payload)
  unfolding record_final_answer block_answer
  record_final_answer-IsBlocked answer coverage_status payload t c m =
      Ensures-bind (λ _ s. (s.session ≡ t.session) × (s.started ≡ true)) _ _
        (Ensures-weaken _ _ (check-Ensures _ _)
          λ _ s h. (ap (λ (u : Governed W). u.session) (h.0), h.1))
        λ _. Ensures-then _ _ (check-Keeps _ _) λ _.
          Ensures-then _ _ (with_state-Keeps _ λ u. emit-Keeps setup _ _ λ s w p. p) λ _.
            Ensures-then _ _ (with_state-Keeps _ λ u. emit-Keeps setup _ _ λ s w p. p) λ _.
              Ensures-if (coverage_status == "verified") _ _ (λ e. absurd (cc))
                λ _.
                  Ensures-if (setup.final_answer_mode == "warn") _ _ (λ e. absurd (cc))
                    λ _.
                      Ensures-bind
                        (λ _ s.
                          (s.session ≡ t.session)
                          × (s.started ≡ true)
                          × (s.completion_blocked ≡ true))
                        _ _ (Ensures-modify _ λ s p. (p.0, p.1, refl))
                        λ _. Ensures-pure _ λ s p. (refl, p.0, p.1, p.2)

  -- An answer that was not verified does not complete the session unless the mode is `warn`, and a
  -- close afterwards does not either: it returns the session and changes nothing.
  pub unverified_answer_blocks :
      (answer coverage_status : String) (payload : Fields) (s s' : Governed W)
      (o : FinalAnswerOutcome)
      → coverage_status ≢ "verified"
      → setup.final_answer_mode ≢ "warn"
      → record_final_answer setup answer coverage_status payload s ≡ (ok o, s')
      → (o.completed ≡ false) × (s'.session ≡ s.session) × (close setup s' ≡ (ok s.session, s'))
  unverified_answer_blocks answer coverage_status payload s s' o c m h =
      let (incomplete, same, started, blocked) = subst (Returned (IsBlocked s)) h (
        (record_final_answer-IsBlocked answer coverage_status payload s
            (differs coverage_status "verified" c) (differs setup.final_answer_mode "warn" m)).at
          s refl) in
      (incomplete, same, close-blocked s' started blocked ∙ ap (λ x. (ok x, s')) same)
