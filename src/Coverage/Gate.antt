-- ===== src/Coverage/Gate.antt =====
-- adapters/verification/verifier.py: the gate of GroundGuard, the reading of its payload, and
-- `verify_answer`. The gate is a parameter: it takes the answer, the facts that are recorded, the
-- required keys and the session, and gives the versioned payload, or `none` where the package is
-- missing or raised. `str(value)` is the parameter `shown`.
use agent_trust_runtime.Base.{
  String, Bool, true, false, ◌==◌, Option, none, some, List, [], ◌∷◌, one_of, if◌then◌else◌, Result,
  ok, raised, value_error, type_error, require, ◌>>=◌, ◌>>◌,
}
use agent_trust_runtime.Base.Dict.{lookup, put}
use agent_trust_runtime.Value.{
  Value, Values, nil, cons, null, text, array, tuple, object, Fields, dict, get, get_or_none, set,
  truthy,
}
use agent_trust_runtime.Facts.{Fact}
use agent_trust_runtime.Coverage.{
  CoverageReport, Tally, no_keys, place, report, normalize_status, Numbers, fallback_verify_answer,
}

abbrev pub is_null : Value → Bool
is_null null = true
is_null _ = false

-- `for item in value`; the items of a text or of a dict are texts, which the loops pass over.
unfoldable pub items_of : Value → Result Values
items_of (array xs) = ok xs
items_of (tuple xs) = ok xs
items_of (text s) = ok nil
items_of (object d) = ok nil
items_of _ = raised (type_error "object is not iterable")

-- `payload.get("omitted_required_facts", [])`, to be gone through.
unfoldable pub omitted_items : Fields → Result Values
unfolding get items_of
omitted_items payload =
    items_of (elim (get "omitted_required_facts" payload) [ none ↦ array nil | some value ↦ value ])

module _ (shown : Value → String) where
  unfoldable pub omitted_keys : Values → List String
  unfolding get_or_none
  omitted_keys nil = []
  omitted_keys (cons (object item) rest) =
      let key = get_or_none "key" item in
      let keys = omitted_keys rest in if is_null key then keys else shown key ∷ keys
  omitted_keys (cons _ rest) = omitted_keys rest

  -- A value of a claim, where it is not None, as one more text of the detail.
  unfoldable pub with_value : (name : String) → Value → Fields → Fields
  unfolding set
  with_value name value detail =
      if is_null value then detail else set name (text (shown value)) detail

  -- The key and the detail of a claim.
  unfoldable pub claim_detail : Fields → Option (String × (String × Fields))
  unfolding get get_or_none normalize_status with_value
  claim_detail claim =
      let first = get_or_none "fact_key" claim in
      let key = if truthy first then first else get_or_none "matched_fact_key" claim in
      let status =
        normalize_status
          (elim (get "status" claim) [ none ↦ "unverified" | some value ↦ shown value ]) in
      if is_null key
      then none
      else some (
        shown key,
        (
          status,
          with_value "actual" (get_or_none "answer_value" claim) (
              with_value "expected" (get_or_none "ledger_value" claim)
                (dict (("key", text (shown key)) ∷ ("status", text status) ∷ []))),
        ),
      )

  -- `details_by_key`, each detail with its status.
  unfoldable pub details_by_key :
      List (String × (String × Fields)) → Values → List (String × (String × Fields))
  unfolding claim_detail put
  details_by_key d nil = d
  details_by_key d (cons (object claim) rest) =
      details_by_key
        (elim (claim_detail claim) [ none ↦ d | some (key, detail) ↦ put key detail d ]) rest
  details_by_key d (cons _ rest) = details_by_key d rest

  unfoldable pub gate_detail :
      List (String × (String × Fields)) → List String → String → String × Fields
  unfolding lookup
  gate_detail details omitted key =
      if one_of key omitted
      then (
        "unverified",
        dict (
            ("key", text key)
            ∷ ("status", text "unverified")
            ∷ ("reason", text "required fact omitted")
            ∷ []),
      )
      else elim (lookup key details) [
        | some detail ↦ detail
        | none ↦ ("unverified", dict (("key", text key) ∷ ("status", text "unverified") ∷ []))
      ]

  unfoldable pub gate_keys : List (String × (String × Fields)) → List String → List String → Tally
  unfolding gate_detail place
  gate_keys details omitted [] = no_keys
  gate_keys details omitted (key ∷ keys) =
      let (status, detail) = gate_detail details omitted key in
      place status key detail (gate_keys details omitted keys)

  -- `str(payload.get("session_id", session_id))`.
  unfoldable pub gate_session : Fields → String → String
  unfolding get
  gate_session payload session_id = elim (get "session_id" payload) [
    | none ↦ session_id
    | some value ↦ shown value
  ]

  -- The payload of the gate as a report; `none` where it makes no claim.
  unfoldable pub gate_report :
      Fields → List String → (session_id : String) → Result (Option CoverageReport)
  unfolding gate_session get_or_none omitted_items omitted_keys details_by_key gate_keys report
  gate_report payload keys session_id = elim (get_or_none "claims" payload) [
    | array (cons claim claims) ↦ do
      omitted ← omitted_items payload
      let details = details_by_key [] (cons claim claims)
      ok (
          some (
            report "groundguard" (gate_session payload session_id) keys
              (gate_keys details (omitted_keys omitted) keys)))
    | _ ↦ ok none
  ]

abbrev pub Gate : Type 0
Gate = (answer : String) → List Fact → List String → (session_id : String) → Option Fields

-- `[fact for fact in facts if fact.trust_level == "trusted"]`.
unfoldable pub trusted_facts : List Fact → List Fact
trusted_facts [] = []
trusted_facts (f ∷ fs) =
    let rest = trusted_facts fs in if f.trust_level == "trusted" then f ∷ rest else rest

-- The report of a run that requires the gate and had none.
unfoldable pub gate_missing : List String → (session_id : String) → CoverageReport
gate_missing keys session_id = record {
  status = "unverified";
  required_fact_keys = keys;
  engine = "groundguard-required";
  session_id = some session_id;
  verified_keys = [];
  contradicted_keys = [];
  unverified_keys = keys;
  details = missing keys;
}
  where
    missing : List String → List Fields
    missing [] = []
    missing (key ∷ keys) =
        dict (
          ("key", text key)
          ∷ ("status", text "unverified")
          ∷ ("reason", text "GroundGuard verification was unavailable or invalid")
          ∷ [])
        ∷ missing keys

module _ {ℓ} {D : Type ℓ} (numbers : Numbers D) (shown : Value → String) (gate : Gate) where
  -- `_try_groundguard`.
  unfoldable pub try_groundguard :
      (answer : String)
      → List Fact
      → List String
      → (session_id : String) → Result (Option CoverageReport)
  unfolding gate_report
  try_groundguard answer facts keys session_id = elim (gate answer facts keys session_id) [
    | none ↦ ok none
    | some payload ↦ gate_report shown payload keys session_id
  ]

  -- What is reported where the gate gave nothing.
  unfoldable pub ungated_report :
      (answer : String)
      → List Fact
      → List String
      → (session_id : String) → (verification_mode : String) → CoverageReport
  unfolding gate_missing fallback_verify_answer
  ungated_report answer eligible keys session_id verification_mode =
      if verification_mode == "groundguard_required"
      then gate_missing keys session_id
      else fallback_verify_answer numbers answer eligible keys session_id

  unfoldable pub verify_answer :
      (answer : String)
      → List Fact
      → List String
      → (session_id : String) → (allow_simulated_facts : Bool) → (verification_mode : String)
      → Result CoverageReport
  unfolding trusted_facts try_groundguard ungated_report
  verify_answer answer facts keys session_id allow_simulated_facts verification_mode = do
    require (one_of verification_mode ("fallback" ∷ "groundguard_required" ∷ []))
        (value_error "invalid verification mode")
    let eligible = if allow_simulated_facts then facts else trusted_facts facts
    gated ← try_groundguard answer eligible keys session_id
    elim gated [
      | some r ↦ ok r
      | none ↦ ok (ungated_report answer eligible keys session_id verification_mode)
    ]
