-- ===== src/Coverage/Verdicts.antt =====
-- adapters/verification/verifier.py: every report sorts each required key into one list.
use agent_trust_runtime.Base.{
  String, ◌≡◌, ◌≢◌, ◌↔◌, refl, subst, sym, value_error, true, false, Bool, Bool-cases, inl, inr,
  ◌==◌, Option, none, some, List, [], ◌∷◌, one_of, if◌then◌else◌, Error, Result, ok, require, ◌>>◌,
  >>=-ok,
}
use agent_trust_runtime.Value.{Value, Values, Fields, cons, array, get, get_or_none}
use agent_trust_runtime.Facts.{Fact}
use agent_trust_runtime.Coverage.{
  CoverageReport, Tally, overall_status, report, Numbers, judge_keys, facts_by_key,
  fallback_verify_answer,
}
use agent_trust_runtime.Coverage.Sorting.{
  Sorts, sorted, as_unverified, SortsTally, judge_keys-SortsTally, gate_keys-SortsTally,
}
use agent_trust_runtime.Coverage.Gate.{
  Gate, gate_keys, gate_report, gate_session, omitted_items, omitted_keys, details_by_key,
  trusted_facts, gate_missing, try_groundguard, ungated_report, verify_answer,
}

-- The lists of a report hold the required keys, each where its detail says; the status is the worst
-- verdict among them.
abbrev pub IsSorted : List String → CoverageReport → Type 0
IsSorted keys r =
    Sorts keys r.verified_keys r.contradicted_keys r.unverified_keys r.details
    × (r.required_fact_keys ≡ keys)
    × (r.status ≡ "verified" → (r.contradicted_keys ≡ []) × (r.unverified_keys ≡ []))
    × ((r.status ≡ "contradicted") ↔ (r.contradicted_keys ≢ []))

pub status_worst :
    (t : Tally) (cs us : List String)
    → t.contradicted ≡ cs
    → t.unverified ≡ us
    → (overall_status t ≡ "verified" → (cs ≡ []) × (us ≡ []))
      × ((overall_status t ≡ "contradicted") ↔ (cs ≢ []))
unfolding overall_status
status_worst t [] [] p q = rw (p, q) ((λ _. (refl, refl)), ((λ h. cc), (λ h. absurd (h refl))))
status_worst t [] (u ∷ us) p q = rw (p, q) ((λ h. cc), ((λ h. cc), (λ h. absurd (h refl))))
status_worst t (c ∷ cs) us p q = rw p ((λ h. cc), ((λ _ e. cc), (λ _. refl)))

report-IsSorted :
    (engine session_id : String) (keys : List String) (t : Tally)
    → SortsTally keys t
    → IsSorted keys (report engine session_id keys t)
unfolding report
report-IsSorted engine session_id keys t h =
    let (v, c) = status_worst t t.contradicted t.unverified refl refl in (h, refl, v, c)

gate_missing-Sorts :
    (keys : List String) (session_id : String)
    → Sorts keys [] [] keys (gate_missing keys session_id).details
unfolding gate_missing get
gate_missing-Sorts [] session_id = sorted
gate_missing-Sorts (key ∷ keys) session_id =
    as_unverified (refl, refl) (gate_missing-Sorts keys session_id)

gate_missing-IsSorted :
    (keys : List String) (session_id : String) → IsSorted keys (gate_missing keys session_id)
unfolding gate_missing
gate_missing-IsSorted keys session_id =
    (gate_missing-Sorts keys session_id, refl, (λ h. cc), ((λ h. cc), (λ h. absurd (h refl))))

some-eq : (a b : CoverageReport) → ok (some a) ≡ ok (some b) → a ≡ b
some-eq a b h = cc

gate_report-IsSorted :
    (shown : Value → String) (payload : Fields) (keys : List String) (session_id : String)
    (r : CoverageReport)
    → gate_report shown payload keys session_id ≡ ok (some r)
    → IsSorted keys r
unfolding gate_report
gate_report-IsSorted shown payload keys session_id r h = go (get_or_none "claims" payload) refl
  where
    gated : Value → Values → Values → CoverageReport
    gated claim claims omitted = report "groundguard" (gate_session shown payload session_id) keys (
        gate_keys shown (details_by_key shown [] (cons claim claims)) (omitted_keys shown omitted)
          keys)

    go : (v : Value) → get_or_none "claims" payload ≡ v → IsSorted keys r
    go (array (cons claim claims)) e =
        let (omitted, p, q) =
          >>=-ok (omitted_items payload) (λ omitted. ok (some (gated claim claims omitted)))
            (rw (e, gate_report) at h) in
        subst (IsSorted keys) (some-eq (gated claim claims omitted) r q) (
          report-IsSorted "groundguard" (gate_session shown payload session_id) keys
            (gate_keys shown (details_by_key shown [] (cons claim claims))
              (omitted_keys shown omitted) keys)
            (gate_keys-SortsTally shown (cons claim claims) (omitted_keys shown omitted) keys))
    go v e = cc (rw (e, gate_report) at h)

require-ok :
    (b : Bool) (e : Error) (k : Result CoverageReport) (r : CoverageReport)
    → require b e >> k ≡ ok r
    → (b ≡ true) × (k ≡ ok r)
require-ok true e k r h = (refl, h)
require-ok false e k r h = cc

ok-eq : (a b : CoverageReport) → ok a ≡ ok b → a ≡ b
ok-eq a b h = cc

module _ {ℓ} {D : Type ℓ} (numbers : Numbers D) (shown : Value → String) (gate : Gate)
    (answer : String) (facts : List Fact) (keys : List String) (session_id : String) where
  try_groundguard-IsSorted :
      (r : CoverageReport)
      → try_groundguard numbers shown gate answer facts keys session_id ≡ ok (some r)
      → IsSorted keys r
  unfolding try_groundguard
  try_groundguard-IsSorted r h = go (gate answer facts keys session_id) refl
    where
      go : (o : Option Fields) → gate answer facts keys session_id ≡ o → IsSorted keys r
      go none e = cc (rw (e, try_groundguard) at h)
      go (some payload) e =
          gate_report-IsSorted shown payload keys session_id r (rw (e, try_groundguard) at h)

  ungated_report-IsSorted :
      (mode : String)
      → IsSorted keys (ungated_report numbers shown gate answer facts keys session_id mode)
  unfolding ungated_report fallback_verify_answer
  ungated_report-IsSorted mode = elim (Bool-cases (mode == "groundguard_required")) [
    | inl e ↦ rw e (gate_missing-IsSorted keys session_id)
    | inr e ↦ rw e (
        report-IsSorted "agenttrust-fallback" session_id keys
          (judge_keys numbers answer (facts_by_key [] facts) keys)
          (judge_keys-SortsTally numbers answer (facts_by_key [] facts) keys))
  ]

  -- The report of the gate, or else that of the mode.
  abbrev pub settled : String → Option CoverageReport → CoverageReport
  settled mode none = ungated_report numbers shown gate answer facts keys session_id mode
  settled mode (some r) = r

  settled-IsSorted :
      (mode : String) (gated : Option CoverageReport)
      → try_groundguard numbers shown gate answer facts keys session_id ≡ ok gated
      → IsSorted keys (settled mode gated)
  settled-IsSorted mode none e = ungated_report-IsSorted mode
  settled-IsSorted mode (some r) e = try_groundguard-IsSorted r e

module _ {ℓ} {D : Type ℓ} (numbers : Numbers D) (shown : Value → String) (gate : Gate)
    (answer : String) (facts : List Fact) (keys : List String) (session_id : String) (allow : Bool)
    (mode : String) (r : CoverageReport) where
  -- What a verification that returns has done.
  pub verify_answer-ok :
      verify_answer numbers shown gate answer facts keys session_id allow mode ≡ ok r
      → let eligible = if allow then facts else trusted_facts facts in
        (gated : Option CoverageReport) × (try_groundguard numbers shown gate answer eligible keys
            session_id
          ≡ ok gated)
        × (r ≡ settled numbers shown gate answer eligible keys session_id mode gated)
  unfolding verify_answer
  verify_answer-ok h =
      let eligible = if allow then facts else trusted_facts facts in
      let (known, after) =
        require-ok (one_of mode ("fallback" ∷ "groundguard_required" ∷ []))
          (value_error "invalid verification mode") _ r h in
      let (gated, p, q) = >>=-ok _ _ after in (gated, p, settle gated q)
    where
      settle :
          (gated : Option CoverageReport)
          → (elim gated [
            | some s ↦ ok s
            | none ↦ ok (
                ungated_report numbers shown gate answer
                  (if allow then facts else trusted_facts facts)
                  keys
                  session_id
                  mode)
          ])
            ≡ ok r
          → r
            ≡ settled numbers shown gate answer
                (if allow then facts else trusted_facts facts)
                keys
                session_id
                mode
                gated
      settle none q = sym (ok-eq _ r q)
      settle (some s) q = sym (ok-eq s r q)

  -- Whatever the gate answers: a report has one detail for each required key, in their order, and
  -- sorts each key into the verified, contradicted or unverified keys by the status of its detail; it
  -- is verified only if no key is in the two other lists, and contradicted exactly if a key is
  -- contradicted.
  pub verify_answer-IsSorted :
      verify_answer numbers shown gate answer facts keys session_id allow mode ≡ ok r
      → IsSorted keys r
  verify_answer-IsSorted h =
      let (gated, p, q) = verify_answer-ok h in
      subst (IsSorted keys) (sym q) (
        settled-IsSorted numbers shown gate answer (if allow then facts else trusted_facts facts)
          keys session_id mode gated p)
