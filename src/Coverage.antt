-- ===== src/Coverage.antt =====
-- adapters/verification/verifier.py: whether a final answer covers the facts it must cite. A
-- decimal number, the last amount before a marker and GroundGuard's gate are parameters.
pub mod Gate
pub mod Sorting
pub mod Verdicts
pub mod Trusted
use Prim.Native.String.{◌++◌}
use agent_trust_runtime.Base.{
  ℕ, String, Bool, true, false, not, ◌&&◌, ◌||◌, ◌==◌, Option, none, some, List, [], ◌∷◌, map,
  one_of, contains, is_empty, if◌then◌else◌, Error, Result, ok, raised, value_error, type_error,
  require, ◌>>=◌, ◌>>◌,
}
use agent_trust_runtime.Base.Lines.{split_once}
use agent_trust_runtime.Base.Dict.{lookup, put}
use agent_trust_runtime.Value.{
  ℤ, Value, Values, nil, cons, null, boolean, integer, float, text, array, tuple, object, opaque,
  Fields, end, field, dict, strings, opt_text, get, get_or_none, set,
}
use agent_trust_runtime.Facts.{Fact}

pub record CoverageReport : Type 0 where
  pub status : String
  pub required_fact_keys : List String
  pub engine : String
  pub session_id : Option String
  pub verified_keys : List String
  pub contradicted_keys : List String
  pub unverified_keys : List String
  pub details : List Fields

abbrev detail_values : List Fields → Values
detail_values [] = nil
detail_values (d ∷ ds) = cons (object d) (detail_values ds)

unfoldable pub coverage_to_dict : CoverageReport → Fields
coverage_to_dict r = dict (
    ("status", text r.status)
    ∷ ("engine", text r.engine)
    ∷ ("session_id", opt_text r.session_id)
    ∷ ("required_fact_keys", array (strings r.required_fact_keys))
    ∷ ("verified_keys", array (strings r.verified_keys))
    ∷ ("contradicted_keys", array (strings r.contradicted_keys))
    ∷ ("unverified_keys", array (strings r.unverified_keys))
    ∷ ("details", array (detail_values r.details))
    ∷ [])

-- The three lists of keys and the details that both engines fill.
pub record Tally : Type 0 where
  pub verified : List String
  pub contradicted : List String
  pub unverified : List String
  pub details : List Fields

abbrev no_keys : Tally
no_keys = record { verified = []; contradicted = []; unverified = []; details = [] }

-- A key and its detail, put in front of those that come after it.
unfoldable pub place : String → String → Fields → Tally → Tally
place status key detail rest =
    if status == "contradicted"
    then record rest { contradicted = key ∷ rest.contradicted; details = detail ∷ rest.details }
    else if status == "verified"
    then record rest { verified = key ∷ rest.verified; details = detail ∷ rest.details }
    else record rest { unverified = key ∷ rest.unverified; details = detail ∷ rest.details }

unfoldable pub overall_status : Tally → String
overall_status t =
    if not (is_empty t.contradicted)
    then "contradicted"
    else if not (is_empty t.unverified)
    then "unverified"
    else "verified"

unfoldable pub report : (engine session_id : String) → List String → Tally → CoverageReport
unfolding overall_status
report engine session_id keys t = record {
  status = overall_status t;
  required_fact_keys = keys;
  engine = engine;
  session_id = some session_id;
  verified_keys = t.verified;
  contradicted_keys = t.contradicted;
  unverified_keys = t.unverified;
  details = t.details;
}

-- What the verifier asks of numbers: `_to_decimal`, `!=`, `str`, and the number that
-- `_extract_nearest_number` finds last in the text before the marker, its unit worked in.
pub record Numbers {ℓ} (D : Type ℓ) : Type ℓ where
  pub to_decimal : String → Option D
  pub equal : D → D → Bool
  pub shown : D → String
  pub last_number : String → Option D

unfoldable pub marker : String → String
marker key = "[fact:" ++ key ++ "]"

-- `_normalize_groundguard_status`.
unfoldable pub normalize_status : String → String
normalize_status status =
    if status == "verified"
    then "verified"
    else if status == "contradicted"
    then "contradicted"
    else "unverified"

-- `{fact.key: fact for fact in facts}`.
unfoldable pub facts_by_key : List (String × Fact) → List Fact → List (String × Fact)
facts_by_key d [] = d
facts_by_key d (f ∷ fs) = facts_by_key (put f.key f d) fs

module _ {ℓ} {D : Type ℓ} (numbers : Numbers D) where
  -- `_extract_nearest_number`.
  unfoldable pub extract_nearest_number : (answer mark : String) → Option D
  unfolding split_once
  extract_nearest_number answer mark =
      numbers.last_number
        (elim (split_once answer mark) [ none ↦ answer | some (before, after) ↦ before ])

  -- The two numbers, where both are there and they differ.
  unfoldable pub conflict : Option D → Option D → Option (D × D)
  conflict (some expected) (some actual) =
      if numbers.equal expected actual then none else some (expected, actual)
  conflict _ _ = none

  -- One round of the loop: the verdict on a key, and its detail.
  unfoldable pub judge_fact : (answer key : String) → Option Fact → String × Fields
  unfolding marker extract_nearest_number conflict
  judge_fact answer key none = (
    "unverified",
    dict (
        ("key", text key)
        ∷ ("status", text "unverified")
        ∷ ("reason", text "required fact not recorded")
        ∷ []),
  )
  judge_fact answer key (some fact) =
      if not (contains answer (marker key))
      then (
        "unverified",
        dict (
            ("key", text key)
            ∷ ("status", text "unverified")
            ∷ ("reason", text "final answer does not cite required fact")
            ∷ []),
      )
      else elim (conflict (numbers.to_decimal fact.value)
          (extract_nearest_number answer (marker key))) [
            | some (expected, actual) ↦ (
              "contradicted",
              dict (
                  ("key", text key)
                  ∷ ("status", text "contradicted")
                  ∷ ("expected", text (numbers.shown expected))
                  ∷ ("actual", text (numbers.shown actual))
                  ∷ []),
            )
            | none ↦ (
              "verified",
              dict (
                  ("key", text key)
                  ∷ ("status", text "verified")
                  ∷ ("value", text fact.value)
                  ∷ []),
            )
          ]

  unfoldable pub judge_keys : (answer : String) → List (String × Fact) → List String → Tally
  unfolding judge_fact lookup place
  judge_keys answer facts [] = no_keys
  judge_keys answer facts (key ∷ keys) =
      let (status, detail) = judge_fact answer key (lookup key facts) in
      place status key detail (judge_keys answer facts keys)

  unfoldable pub fallback_verify_answer :
      (answer : String) → List Fact → List String → (session_id : String) → CoverageReport
  unfolding judge_keys facts_by_key report
  fallback_verify_answer answer facts keys session_id =
      report "agenttrust-fallback" session_id keys (judge_keys answer (facts_by_key [] facts) keys)
