-- ===== src/Facts/Sources.antt =====
-- adapters/verification/mapper.py: which facts a result can state.
use agent_trust_runtime.Base.{
  String, ◌≡◌, refl, Bool, true, false, not, ◌||◌, Bool-cases, inl, inr, ◌==◌, Option, none, some,
  List, [], ◌∷◌, ◌++◌, or_else, if◌then◌else◌, Result, ok, ◌>>=◌,
}
use agent_trust_runtime.Base.Lines.{splitlines, strip, words, join_words, split_once}
use agent_trust_runtime.Value.{Value, get, get_or_none}
use agent_trust_runtime.Models.{ToolResult}
use agent_trust_runtime.Facts.{
  Fact, check_fact, is_true, fact_provenance, fact_trust_level, metadata_fact, line_fact,
  block_facts, explicit_fact_block_mapper, metric_keys, metric_facts, digest_facts,
  tool_metadata_mapper, map_tool_result,
}

-- A fact that names the result as its source, and is real and trusted unless the result is marked
-- as simulated; then it is simulated and for tests only.
abbrev pub IsSourcedAs : Bool → ToolResult → Fact → Type 0
IsSourcedAs simulated r f =
    (f.source_tool_call_id ≡ r.tool_call_id)
    × (f.source_tool_name ≡ r.tool_name)
    × (f.provenance ≡ (if simulated then "simulated" else "real"))
    × (f.trust_level ≡ (if simulated then "test_only" else "trusted"))

abbrev pub IsSourced : ToolResult → Fact → Type 0
IsSourced r f = IsSourcedAs (is_true (get_or_none "simulated" r.metadata)) r f

abbrev pub AllSourced : ToolResult → List Fact → Type 0
AllSourced r [] = Unit
AllSourced r (f ∷ fs) = IsSourced r f × AllSourced r fs

-- The facts that a part of the mapper states.
abbrev pub States : ToolResult → Result (List Fact) → Type 0
States r m = (fs : List Fact) × (m ≡ ok fs) × AllSourced r fs

AllSourced-append :
    (r : ToolResult) (fs gs : List Fact)
    → AllSourced r fs
    → AllSourced r gs
    → AllSourced r (fs ++ gs)
AllSourced-append r [] gs h k = k
AllSourced-append r (f ∷ fs) gs h k = (h.0, AllSourced-append r fs gs h.1 k)

abbrev sourced : Bool → ToolResult → String → String → Option String → Fact
sourced simulated r key value unit = record {
  key = key;
  value = value;
  unit = unit;
  source_tool_call_id = r.tool_call_id;
  source_tool_name = r.tool_name;
  provenance = if simulated then "simulated" else "real";
  trust_level = if simulated then "test_only" else "trusted";
}

metadata_fact-ok :
    (r : ToolResult) (key value : String) (unit : Option String)
    → (f : Fact) × (metadata_fact r key value unit ≡ ok f) × IsSourced r f
unfolding metadata_fact check_fact fact_provenance fact_trust_level
metadata_fact-ok r key value unit = go (is_true (get_or_none "simulated" r.metadata)) refl
  where
    go :
        (b : Bool)
        → is_true (get_or_none "simulated" r.metadata) ≡ b
        → (f : Fact) × (metadata_fact r key value unit ≡ ok f) × IsSourcedAs b r f
    go true e = (sourced true r key value unit, rw e, (refl, refl, refl, refl))
    go false e = (sourced false r key value unit, rw e, (refl, refl, refl, refl))

one_fact :
    (r : ToolResult) (key value : String) (unit : Option String)
    → States r (metadata_fact r key value unit >>= (λ f. ok (f ∷ [])))
one_fact r key value unit =
    let (f, e, s) = metadata_fact-ok r key value unit in (f ∷ [], rw e, (s, tt))

States-append :
    (r : ToolResult) (m n : Result (List Fact))
    → States r m
    → States r n
    → States r (m >>= (λ fs. n >>= (λ gs. ok (fs ++ gs))))
States-append r m n (fs, e, s) (gs, d, t) = (fs ++ gs, rw (e, d), AllSourced-append r fs gs s t)

line_fact-States : (r : ToolResult) (line : String) → States r (line_fact r line)
unfolding line_fact
line_fact-States r line = go (split_once line "=") refl
  where
    go_words :
        (key : String) (ws : List String)
        → States r (elim ws [
          | [] ↦ ok []
          | first ∷ [] ↦ metadata_fact r (strip key) first none >>= (λ f. ok (f ∷ []))
          | first ∷ second ∷ more ↦
              metadata_fact r (strip key) first (some (join_words (second ∷ more)))
              >>= (λ f. ok (f ∷ []))
        ])
    go_words key [] = ([], refl, tt)
    go_words key (first ∷ []) = one_fact r (strip key) first none
    go_words key (first ∷ second ∷ more) =
        one_fact r (strip key) first (some (join_words (second ∷ more)))

    go : (o : Option (String × String)) → split_once line "=" ≡ o → States r (line_fact r line)
    go none e = ([], rw (e, line_fact), tt)
    go (some (key, raw_value)) e = rw (e, line_fact) (go_words key (words (strip raw_value)))

block_facts-States :
    (r : ToolResult) (in_block : Bool) (lines : List String)
    → States r (block_facts r in_block lines)
unfolding block_facts
block_facts-States r in_block [] = ([], refl, tt)
block_facts-States r in_block (raw_line ∷ lines) =
    let line = strip raw_line in
    let opens = line == "AGENTTRUST_FACTS:" in
    let closes = line == "END_AGENTTRUST_FACTS" in
    let inside = if opens then true else if closes then false else in_block in
    States-append r (if opens || closes || not in_block then ok [] else line_fact r line)
      (block_facts r inside lines)
      (elim (Bool-cases (opens || closes || not in_block)) [
        | inl e ↦ rw e ([], refl, tt)
        | inr e ↦ rw e (line_fact-States r line)
      ])
      (block_facts-States r inside lines)

module _ (shown : Value → String) where
  metric_facts-States :
      (r : ToolResult) (keys : List (String × String × String))
      → States r (metric_facts shown r keys)
  unfolding metric_facts
  metric_facts-States r [] = ([], refl, tt)
  metric_facts-States r ((metadata_key, fact_key, unit) ∷ more) =
      go (metric_facts-States r more) (get metadata_key r.metadata) refl
    where
      go :
          States r (metric_facts shown r more)
          → (o : Option Value) → get metadata_key r.metadata ≡ o
          → States r (metric_facts shown r ((metadata_key, fact_key, unit) ∷ more))
      go rest none e = rw (e, metric_facts) rest
      go (fs, q, t) (some value) e =
          let (f, p, s) = metadata_fact-ok r fact_key (shown value) (some unit) in
          (f ∷ fs, rw (e, metric_facts, p, q), (s, t))

  digest_facts-States : (r : ToolResult) → States r (digest_facts shown r)
  unfolding digest_facts
  digest_facts-States r =
      let digest = or_else r.output_digest "" in
      elim (Bool-cases (not (r.tool_name == "read_file") || (digest == ""))) [
        | inl e ↦ rw e ([], refl, tt)
        | inr e ↦ rw e (one_fact r "read_file_sha256" digest none)
      ]

  -- The mapper always returns. Every fact of it names the result as its source, and is real and
  -- trusted unless the result's metadata mark it as simulated, else simulated and for tests only; a
  -- result whose status is not ok states no fact.
  pub map_tool_result_lem :
      (r : ToolResult)
      → (fs : List Fact) × (map_tool_result shown r ≡ ok fs)
        × AllSourced r fs
        × ((r.status == "ok") ≡ false → fs ≡ [])
  unfolding map_tool_result explicit_fact_block_mapper tool_metadata_mapper
  map_tool_result_lem r = elim (Bool-cases (r.status == "ok")) [
    | inl e ↦
        let (fs, p, s) =
          States-append r (explicit_fact_block_mapper r) (tool_metadata_mapper shown r)
            (block_facts-States r false (splitlines r.output_preview))
            (States-append r (metric_facts shown r (metric_keys r.tool_name)) (digest_facts shown r)
              (metric_facts-States r (metric_keys r.tool_name)) (digest_facts-States r)) in
        (fs, rw e p, s, (λ h. cc (e, h)))
    | inr e ↦ ([], rw e, tt, (λ h. refl))
  ]
