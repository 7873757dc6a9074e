-- ===== src/Coverage/Trusted.antt =====
-- adapters/verification/verifier.py: what stands behind a verified answer, and what a mode that
-- requires the gate never grants.
use agent_trust_runtime.Base.{
  String, ◌≡◌, ◌⊎◌, refl, sym, ap, ◌∙◌, subst, inl, inr, Bool, true, false, Bool-cases, ◌==◌,
  eq_iff, Option, none, some, List, [], ◌∷◌, contains, is_none, arith, if◌then◌else◌, ok,
}
use agent_trust_runtime.Base.Dict.{lookup, put, lookup-put}
use agent_trust_runtime.Value.{Value, Fields}
use agent_trust_runtime.Facts.{Fact}
use agent_trust_runtime.Coverage.{
  CoverageReport, Tally, place, report, Numbers, marker, extract_nearest_number, conflict,
  judge_fact, judge_keys, facts_by_key, fallback_verify_answer,
}
use agent_trust_runtime.Coverage.Gate.{
  Gate, trusted_facts, gate_missing, try_groundguard, ungated_report, verify_answer,
}
use agent_trust_runtime.Coverage.Verdicts.{settled, status_worst, verify_answer-ok}

abbrev pub Among : Fact → List Fact → Type 0
Among f [] = ⊥
Among f (x ∷ xs) = (x ≡ f) ⊎ Among f xs

abbrev pub Each : (String → Type 0) → List String → Type 0
Each P [] = Unit
Each P (k ∷ ks) = P k × Each P ks

Each-map :
    (P Q : String → Type 0) (ks : List String) → ((k : String) → P k → Q k) → Each P ks → Each Q ks
Each-map P Q [] f h = tt
Each-map P Q (k ∷ ks) f h = (f k h.0, Each-map P Q ks f h.1)

trusted_facts-Among :
    (f : Fact) (fs : List Fact)
    → Among f (trusted_facts fs)
    → Among f fs × (f.trust_level ≡ "trusted")
unfolding trusted_facts
trusted_facts-Among f [] h = absurd h
trusted_facts-Among f (x ∷ xs) h =
    go (trusted_facts-Among f xs) (Bool-cases (x.trust_level == "trusted"))
  where
    go :
        (Among f (trusted_facts xs) → Among f xs × (f.trust_level ≡ "trusted"))
        → ((x.trust_level == "trusted") ≡ true) ⊎ ((x.trust_level == "trusted") ≡ false)
        → Among f (x ∷ xs) × (f.trust_level ≡ "trusted")
    go more (inl e) = elim (rw (trusted_facts, e) at h) [
      | inl p ↦
          (inl p, subst (λ g. g.trust_level ≡ "trusted") p ((eq_iff x.trust_level "trusted").0 e))
      | inr q ↦ let (a, t) = more q in (inr a, t)
    ]
    go more (inr e) = let (a, t) = more (rw (trusted_facts, e) at h) in (inr a, t)

lookup-facts_by_key :
    (key : String) (f : Fact) (d : List (String × Fact)) (fs : List Fact)
    → lookup key (facts_by_key d fs) ≡ some f
    → (lookup key d ≡ some f) ⊎ (Among f fs × (f.key ≡ key))
unfolding facts_by_key
lookup-facts_by_key key f d [] h = inl h
lookup-facts_by_key key f d (x ∷ xs) h = elim (lookup-facts_by_key key f (put x.key x d) xs h) [
  | inr (a, e) ↦ inr (inr a, e)
  | inl e ↦ last (Bool-cases (x.key == key)) e
]
  where
    last :
        ((x.key == key) ≡ true) ⊎ ((x.key == key) ≡ false)
        → lookup key (put x.key x d) ≡ some f
        → (lookup key d ≡ some f) ⊎ (Among f (x ∷ xs) × (f.key ≡ key))
    last c e = ground (arith, c, e, lookup-put x.key key x d, eq_iff x.key key)

place-verified :
    (status key : String) (detail : Fields) (t : Tally)
    → (place status key detail t).contradicted ≡ []
    → (place status key detail t).unverified ≡ []
    → (status ≡ "verified") × (t.contradicted ≡ []) × (t.unverified ≡ [])
unfolding place
place-verified status key detail t c u = ground (arith, eq_iff status "verified")

module _ {ℓ} {D : Type ℓ} (numbers : Numbers D) (answer : String) where
  -- The answer cites the key, and no amount that stands last before the citation differs from the
  -- fact's value.
  abbrev pub IsSupported : Fact → String → Type 0
  IsSupported f key =
      (contains answer (marker key) ≡ true)
      × (is_none (
            conflict numbers (numbers.to_decimal f.value)
              (extract_nearest_number numbers answer (marker key)))
          ≡ true)

  judge_fact-IsSupported :
      (key : String) (f : Fact) (cited : Bool) (o : Option (D × D))
      → contains answer (marker key) ≡ cited
      → conflict numbers
          (numbers.to_decimal f.value)
          (extract_nearest_number numbers answer (marker key))
        ≡ o
      → (judge_fact numbers answer key (some f)).0 ≡ "verified"
      → IsSupported f key
  unfolding judge_fact
  judge_fact-IsSupported key f true none c o h = (c, rw o refl)
  judge_fact-IsSupported key f true (some _) c o h = cc (rw (c, o, judge_fact) at h)
  judge_fact-IsSupported key f false o c e h = cc (rw (c, judge_fact) at h)

  judge_fact-verified :
      (key : String) (o : Option Fact)
      → (judge_fact numbers answer key o).0 ≡ "verified"
      → (f : Fact) × (o ≡ some f) × IsSupported f key
  unfolding judge_fact
  judge_fact-verified key none h = cc
  judge_fact-verified key (some f) h =
      (f, refl, judge_fact-IsSupported key f (contains answer (marker key)) _ refl refl h)

  judge_keys-verified :
      (facts : List (String × Fact)) (keys : List String)
      → (judge_keys numbers answer facts keys).contradicted ≡ []
      → (judge_keys numbers answer facts keys).unverified ≡ []
      → Each (λ key. (f : Fact) × (lookup key facts ≡ some f) × IsSupported f key) keys
  unfolding judge_keys
  judge_keys-verified facts [] c u = tt
  judge_keys-verified facts (key ∷ keys) c u =
      let (status, detail) = judge_fact numbers answer key (lookup key facts) in
      let (v, c2, u2) =
        place-verified status key detail (judge_keys numbers answer facts keys) c u in
      (judge_fact-verified key (lookup key facts) v, judge_keys-verified facts keys c2 u2)

module _ {ℓ} {D : Type ℓ} (numbers : Numbers D) (shown : Value → String) (gate : Gate)
    (answer : String) (facts : List Fact) (keys : List String) (session_id : String) (allow : Bool)
    (mode : String) (r : CoverageReport) where
  -- A recorded fact with the key, trusted unless simulated facts are allowed.
  abbrev pub IsBacked : String → Type 0
  IsBacked key =
      (f : Fact) × Among f facts
      × (f.key ≡ key)
      × (allow ≡ false → f.trust_level ≡ "trusted")
      × IsSupported numbers answer f key

  abbrev eligible : List Fact
  eligible = if allow then facts else trusted_facts facts

  eligible-Among :
      (f : Fact) → Among f eligible → Among f facts × (allow ≡ false → f.trust_level ≡ "trusted")
  eligible-Among f h = elim (Bool-cases allow) [
    | inl e ↦ (rw e at h, (λ d. cc (e, d)))
    | inr e ↦ let (a, t) = trusted_facts-Among f facts (rw e at h) in (a, (λ _. t))
  ]

  backed :
      (key : String)
      → ((f : Fact) × (lookup key (facts_by_key [] eligible) ≡ some f)
          × IsSupported numbers answer f key)
      → IsBacked key
  unfolding lookup
  backed key (f, e, s) = elim (lookup-facts_by_key key f [] eligible e) [
    | inl d ↦ cc d
    | inr (a, k) ↦ let (a2, t) = eligible-Among f a in (f, a2, k, t, s)
  ]

  ungated_report-verified :
      (ungated_report numbers shown gate answer eligible keys session_id mode).status ≡ "verified"
      → ((mode == "groundguard_required") ≡ false) × Each IsBacked keys
  unfolding ungated_report gate_missing fallback_verify_answer report
  ungated_report-verified h = go (Bool-cases (mode == "groundguard_required"))
    where
      go :
          ((mode == "groundguard_required") ≡ true) ⊎ ((mode == "groundguard_required") ≡ false)
          → ((mode == "groundguard_required") ≡ false) × Each IsBacked keys
      go (inl e) = cc (rw (e, ungated_report) at h)
      go (inr e) =
          let t = judge_keys numbers answer (facts_by_key [] eligible) keys in
          let (c, u) =
            (status_worst t t.contradicted t.unverified refl refl).0
              (rw (e, ungated_report) at h) in
          (
            e,
            Each-map _ IsBacked keys backed
                (judge_keys-verified numbers answer (facts_by_key [] eligible) keys c u),
          )

  -- Where the gate gives no payload and the report is verified, the mode does not require the gate,
  -- and every required key has a recorded fact, a trusted one unless simulated facts are allowed,
  -- whose marker the answer cites and whose value no amount before the marker contradicts.
  pub verified_answer-IsBacked :
      gate answer eligible keys session_id ≡ none
      → verify_answer numbers shown gate answer facts keys session_id allow mode ≡ ok r
      → r.status ≡ "verified"
      → ((mode == "groundguard_required") ≡ false) × Each IsBacked keys
  unfolding try_groundguard
  verified_answer-IsBacked g h v =
      let (gated, p, q) =
        verify_answer-ok numbers shown gate answer facts keys session_id allow mode r h in
      go gated p q
    where
      go :
          (gated : Option CoverageReport)
          → try_groundguard numbers shown gate answer eligible keys session_id ≡ ok gated
          → r ≡ settled numbers shown gate answer eligible keys session_id mode gated
          → ((mode == "groundguard_required") ≡ false) × Each IsBacked keys
      go none p q = ungated_report-verified (ap (λ x. x.status) (sym q) ∙ v)
      go (some x) p q = cc (rw (g, try_groundguard) at p)
