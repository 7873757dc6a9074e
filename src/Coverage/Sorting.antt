-- ===== src/Coverage/Sorting.antt =====
-- adapters/verification/verifier.py: which list each required key is sorted into, by its detail.
use agent_trust_runtime.Base.{
  String, ◌≡◌, ◌⊎◌, refl, ◌∙◌, subst, Bool, true, false, Bool-cases, inl, inr, ◌==◌, Option, none,
  some, List, [], ◌∷◌, contains, one_of, if◌then◌else◌,
}
use agent_trust_runtime.Base.Dict.{lookup, put, Entries, Entries-put, Entries-lookup}
use agent_trust_runtime.Value.{
  Value, Values, nil, cons, object, text, Fields, dict, get, get_or_none, truthy,
}
use agent_trust_runtime.Value.Laws.{get-set}
use agent_trust_runtime.Facts.{Fact}
use agent_trust_runtime.Coverage.{
  Tally, place, normalize_status, Numbers, marker, extract_nearest_number, conflict, judge_fact,
  judge_keys,
}
use agent_trust_runtime.Coverage.Gate.{
  is_null, with_value, claim_detail, details_by_key, gate_detail, gate_keys,
}

-- The detail gives the verdict on the key.
abbrev pub Tells : (key status : String) → Fields → Type 0
Tells key status detail =
    (get "key" detail ≡ some (text key)) × (get "status" detail ≡ some (text status))

-- Keys sorted by the verdicts of their details, which stand in the order of the keys.
pub data Sorts : (keys verified contradicted unverified : List String) → List Fields → Type 0 where
  sorted : Sorts [] [] [] [] []
  as_verified :
      {key : String} {detail : Fields} {ks vs cs us : List String} {ds : List Fields}
      → Tells key "verified" detail
      → Sorts ks vs cs us ds
      → Sorts (key ∷ ks) (key ∷ vs) cs us (detail ∷ ds)
  as_contradicted :
      {key : String} {detail : Fields} {ks vs cs us : List String} {ds : List Fields}
      → Tells key "contradicted" detail
      → Sorts ks vs cs us ds
      → Sorts (key ∷ ks) vs (key ∷ cs) us (detail ∷ ds)
  as_unverified :
      {key : String} {detail : Fields} {ks vs cs us : List String} {ds : List Fields}
      → Tells key "unverified" detail
      → Sorts ks vs cs us ds
      → Sorts (key ∷ ks) vs cs (key ∷ us) (detail ∷ ds)

abbrev pub SortsTally : List String → Tally → Type 0
SortsTally keys t = Sorts keys t.verified t.contradicted t.unverified t.details

-- One of the three verdicts, with a detail that gives it.
abbrev pub IsVerdict : String → String × Fields → Type 0
IsVerdict key (status, detail) =
    ((status ≡ "verified") ⊎ ((status ≡ "contradicted") ⊎ (status ≡ "unverified")))
    × Tells key status detail

place-SortsTally :
    (key : String) (found : String × Fields) (keys : List String) (t : Tally)
    → IsVerdict key found
    → SortsTally keys t
    → SortsTally (key ∷ keys) (place found.0 key found.1 t)
unfolding place
place-SortsTally key (status, detail) keys t (inl e, told) h =
    rw (e, place) (as_verified (subst (λ s. Tells key s detail) e told) h)
place-SortsTally key (status, detail) keys t (inr (inl e), told) h =
    rw (e, place) (as_contradicted (subst (λ s. Tells key s detail) e told) h)
place-SortsTally key (status, detail) keys t (inr (inr e), told) h =
    rw (e, place) (as_unverified (subst (λ s. Tells key s detail) e told) h)

module _ {ℓ} {D : Type ℓ} (numbers : Numbers D) (answer : String) where
  judge_fact-IsVerdict :
      (key : String) (o : Option Fact) → IsVerdict key (judge_fact numbers answer key o)
  unfolding judge_fact get
  judge_fact-IsVerdict key none = (inr (inr refl), (refl, refl))
  judge_fact-IsVerdict key (some fact) =
      go (contains answer (marker key))
        (conflict numbers (numbers.to_decimal fact.value)
          (extract_nearest_number numbers answer (marker key)))
        refl refl
    where
      go :
          (cited : Bool) (o : Option (D × D))
          → contains answer (marker key) ≡ cited
          → conflict numbers
              (numbers.to_decimal fact.value)
              (extract_nearest_number numbers answer (marker key))
            ≡ o
          → IsVerdict key (judge_fact numbers answer key (some fact))
      go false o c e = rw (c, judge_fact) (inr (inr refl), (refl, refl))
      go true none c e = rw (c, e, judge_fact) (inl refl, (refl, refl))
      go true (some (x, y)) c e = rw (c, e, judge_fact) (inr (inl refl), (refl, refl))

  pub judge_keys-SortsTally :
      (facts : List (String × Fact)) (keys : List String)
      → SortsTally keys (judge_keys numbers answer facts keys)
  unfolding judge_keys
  judge_keys-SortsTally facts [] = sorted
  judge_keys-SortsTally facts (key ∷ keys) =
      place-SortsTally key (judge_fact numbers answer key (lookup key facts)) keys
        (judge_keys numbers answer facts keys) (judge_fact-IsVerdict key (lookup key facts))
        (judge_keys-SortsTally facts keys)

normalize_status-cases :
    (s : String)
    → (normalize_status s ≡ "verified")
      ⊎ ((normalize_status s ≡ "contradicted") ⊎ (normalize_status s ≡ "unverified"))
unfolding normalize_status
normalize_status-cases s = elim (Bool-cases (s == "verified")) [
  | inl e ↦ inl (rw e refl)
  | inr e ↦ elim (Bool-cases (s == "contradicted")) [
    | inl f ↦ inr (inl (rw (e, f) refl))
    | inr f ↦ inr (inr (rw (e, f) refl))
  ]
]

module _ (shown : Value → String) where
  get-with_value :
      (name k : String) (v : Value) (d : Fields)
      → (name == k) ≡ false
      → get k (with_value shown name v d) ≡ get k d
  unfolding with_value
  get-with_value name k v d h = elim (Bool-cases (is_null v)) [
    | inl e ↦ rw (e, with_value) refl
    | inr e ↦ rw (e, with_value) (get-set name k (text (shown v)) d ∙ rw h refl)
  ]

  with_values-Tells :
      (key status : String) (a b : Value) (d : Fields)
      → Tells key status d
      → Tells key status (with_value shown "actual" a (with_value shown "expected" b d))
  with_values-Tells key status a b d (k, s) =
      let inner = with_value shown "expected" b d in
      (
        get-with_value "actual" "key" a inner refl ∙ get-with_value "expected" "key" b d refl ∙ k,
        get-with_value "actual" "status" a inner refl
            ∙ get-with_value "expected" "status" b d refl
            ∙ s,
      )

  -- The key of a claim, and the verdict on it.
  abbrev claim_key : Fields → Value
  claim_key claim =
      let first = get_or_none "fact_key" claim in
      if truthy first then first else get_or_none "matched_fact_key" claim

  abbrev claim_status : Fields → String
  claim_status claim =
      normalize_status (elim (get "status" claim) [ none ↦ "unverified" | some v ↦ shown v ])

  abbrev claim_found : Fields → String × Fields
  claim_found claim = (
    claim_status claim,
    with_value shown "actual" (get_or_none "answer_value" claim) (
        with_value shown "expected" (get_or_none "ledger_value" claim) (
          dict (
            ("key", text (shown (claim_key claim))) ∷ ("status", text (claim_status claim)) ∷ []))),
  )

  claim_found-IsVerdict : (claim : Fields) → IsVerdict (shown (claim_key claim)) (claim_found claim)
  unfolding get
  claim_found-IsVerdict claim = (
    normalize_status-cases (elim (get "status" claim) [ none ↦ "unverified" | some v ↦ shown v ]),
    with_values-Tells (shown (claim_key claim)) (claim_status claim)
        (get_or_none "answer_value" claim) (get_or_none "ledger_value" claim)
        (dict
          (("key", text (shown (claim_key claim))) ∷ ("status", text (claim_status claim)) ∷ []))
        (refl, refl),
  )

  details_by_key-Entries :
      (d : List (String × (String × Fields))) (claims : Values)
      → Entries IsVerdict d
      → Entries IsVerdict (details_by_key shown d claims)
  unfolding details_by_key claim_detail
  details_by_key-Entries d nil h = h
  details_by_key-Entries d (cons (object claim) rest) h =
      elim (Bool-cases (is_null (claim_key claim))) [
        | inl e ↦ rw (e, details_by_key, claim_detail) (details_by_key-Entries d rest h)
        | inr e ↦
            rw (e, details_by_key, claim_detail)
              (details_by_key-Entries (put (shown (claim_key claim)) (claim_found claim) d) rest (
                Entries-put IsVerdict (shown (claim_key claim)) (claim_found claim) d
                  (claim_found-IsVerdict claim) h))
      ]
  details_by_key-Entries d (cons v rest) h = details_by_key-Entries d rest h

  gate_detail-IsVerdict :
      (details : List (String × (String × Fields))) (omitted : List String) (key : String)
      → Entries IsVerdict details
      → IsVerdict key (gate_detail shown details omitted key)
  unfolding gate_detail get
  gate_detail-IsVerdict details omitted key h = elim (Bool-cases (one_of key omitted)) [
    | inl e ↦ rw (e, gate_detail) (inr (inr refl), (refl, refl))
    | inr e ↦ found e (lookup key details) refl
  ]
    where
      found :
          one_of key omitted ≡ false
          → (o : Option (String × Fields)) → lookup key details ≡ o
          → IsVerdict key (gate_detail shown details omitted key)
      found e none l = rw (e, l, gate_detail) (inr (inr refl), (refl, refl))
      found e (some v) l = rw (e, l, gate_detail) (Entries-lookup IsVerdict key v details h l)

  pub gate_keys-SortsTally :
      (claims : Values) (omitted keys : List String)
      → SortsTally keys (gate_keys shown (details_by_key shown [] claims) omitted keys)
  unfolding gate_keys
  gate_keys-SortsTally claims omitted [] = sorted
  gate_keys-SortsTally claims omitted (key ∷ keys) =
      let details = details_by_key shown [] claims in
      place-SortsTally key (gate_detail shown details omitted key) keys
        (gate_keys shown details omitted keys)
        (gate_detail-IsVerdict details omitted key (details_by_key-Entries [] claims tt))
        (gate_keys-SortsTally claims omitted keys)
