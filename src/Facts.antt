-- ===== src/Facts.antt =====
-- adapters/verification/mapper.py: the facts that a tool's result states, and the ledger's entries.
-- `str(value)` of a metadata value is the parameter `shown`.
pub mod Sources
pub mod Breaks
pub mod Files
pub mod Ledger
use agent_trust_runtime.Base.{
  String, Bool, true, false, not, ◌&&◌, ◌||◌, ◌==◌, Option, none, some, List, [], ◌∷◌, ◌++◌, one_of,
  or_else, is_blank, if◌then◌else◌, Error, Result, ok, raised, value_error, require, ◌>>=◌, ◌>>◌,
}
use agent_trust_runtime.Base.Lines.{splitlines, strip, words, join_words, split_once}
use agent_trust_runtime.Value.{Value, null, boolean, text, Fields, dict, opt_text, get, get_or_none}
use agent_trust_runtime.Models.{ToolResult}

pub record Fact : Type 0 where
  pub key : String
  pub value : String
  pub unit : Option String
  pub source_tool_call_id : String
  pub source_tool_name : String
  pub provenance : String
  pub trust_level : String

-- `Fact.__post_init__`, and the value that the constructor returns.
unfoldable pub check_fact : Fact → Result Fact
check_fact f = do
  require (one_of f.provenance ("real" ∷ "simulated" ∷ [])) (value_error "invalid fact provenance")
  require (one_of f.trust_level ("trusted" ∷ "test_only" ∷ []))
      (value_error "invalid fact trust level")
  require
      (((f.provenance == "real") && (f.trust_level == "trusted"))
        || ((f.provenance == "simulated") && (f.trust_level == "test_only")))
      (value_error "fact provenance and trust level must agree")
  ok f

unfoldable pub fact_to_dict : Fact → Fields
fact_to_dict f = dict (
    ("key", text f.key)
    ∷ ("value", text f.value)
    ∷ ("unit", opt_text f.unit)
    ∷ ("source_tool_call_id", text f.source_tool_call_id)
    ∷ ("source_tool_name", text f.source_tool_name)
    ∷ ("provenance", text f.provenance)
    ∷ ("trust_level", text f.trust_level)
    ∷ [])

-- `metadata.get("simulated") is True`.
abbrev pub is_true : Value → Bool
is_true (boolean true) = true
is_true _ = false

unfoldable pub fact_provenance : ToolResult → String
unfolding get_or_none
fact_provenance result =
    if is_true (get_or_none "simulated" result.metadata) then "simulated" else "real"

unfoldable pub fact_trust_level : ToolResult → String
unfolding fact_provenance
fact_trust_level result = if fact_provenance result == "simulated" then "test_only" else "trusted"

-- A fact that names the result as its source.
unfoldable pub metadata_fact : ToolResult → (key value : String) → Option String → Result Fact
unfolding check_fact fact_provenance fact_trust_level
metadata_fact result key value unit = check_fact (record {
  key = key;
  value = value;
  unit = unit;
  source_tool_call_id = result.tool_call_id;
  source_tool_name = result.tool_name;
  provenance = fact_provenance result;
  trust_level = fact_trust_level result;
})

-- The fact of one line `key=value unit...` within a block, if it states one.
unfoldable pub line_fact : ToolResult → String → Result (List Fact)
unfolding metadata_fact strip words join_words split_once
line_fact result line = elim (split_once line "=") [
  | none ↦ ok []
  | some (key, raw_value) ↦ elim (words (strip raw_value)) [
    | [] ↦ ok []
    | first ∷ [] ↦ do fact ← metadata_fact result (strip key) first none; ok (fact ∷ [])
    | first ∷ second ∷ more ↦ do
      fact ← metadata_fact result (strip key) first (some (join_words (second ∷ more)))
      ok (fact ∷ [])
  ]
]

-- The loop of `explicit_fact_block_mapper`, with its flag `in_block`.
unfoldable pub block_facts : ToolResult → Bool → List String → Result (List Fact)
unfolding line_fact strip
block_facts result in_block [] = ok []
block_facts result in_block (raw_line ∷ lines) =
    let line = strip raw_line in
    let opens = line == "AGENTTRUST_FACTS:" in
    let closes = line == "END_AGENTTRUST_FACTS" in
    do
      stated ← (if opens || closes || not in_block then ok [] else line_fact result line)
      rest ← block_facts result (if opens then true else if closes then false else in_block) lines
      ok (stated ++ rest)

unfoldable pub explicit_fact_block_mapper : ToolResult → Result (List Fact)
unfolding block_facts splitlines
explicit_fact_block_mapper result = block_facts result false (splitlines result.output_preview)

-- `metric_keys`: the metadata's key, the fact's key and its unit.
unfoldable pub metric_keys : String → List (String × String × String)
metric_keys tool =
    if tool == "read_file"
    then ("bytes", "read_file_bytes", "bytes") ∷ ("lines", "read_file_lines", "count") ∷ []
    else if tool == "git_diff"
    then ("files_changed", "git_diff_files_changed", "count")
      ∷ ("added_lines", "git_diff_added_lines", "count")
      ∷ ("deleted_lines", "git_diff_deleted_lines", "count")
      ∷ []
    else if tool == "shell"
    then ("exit_code", "shell_exit_code", "code") ∷ ("duration_ms", "shell_duration_ms", "ms") ∷ []
    else []

module _ (shown : Value → String) where
  unfoldable pub metric_facts : ToolResult → List (String × String × String) → Result (List Fact)
  unfolding metadata_fact get
  metric_facts result [] = ok []
  metric_facts result ((metadata_key, fact_key, unit) ∷ more) =
      elim (get metadata_key result.metadata) [
        | none ↦ metric_facts result more
        | some value ↦ do
          fact ← metadata_fact result fact_key (shown value) (some unit)
          rest ← metric_facts result more
          ok (fact ∷ rest)
      ]

  -- The digest of a file that was read.
  unfoldable pub digest_facts : ToolResult → Result (List Fact)
  unfolding metadata_fact
  digest_facts result =
      let digest = or_else result.output_digest "" in
      if not (result.tool_name == "read_file") || (digest == "")
      then ok []
      else do fact ← metadata_fact result "read_file_sha256" digest none; ok (fact ∷ [])

  unfoldable pub tool_metadata_mapper : ToolResult → Result (List Fact)
  unfolding metric_facts metric_keys digest_facts
  tool_metadata_mapper result = do
    metrics ← metric_facts result (metric_keys result.tool_name)
    digests ← digest_facts result
    ok (metrics ++ digests)

  unfoldable pub map_tool_result : ToolResult → Result (List Fact)
  unfolding explicit_fact_block_mapper tool_metadata_mapper
  map_tool_result result = if not (result.status == "ok") then ok [] else do
    facts ← explicit_fact_block_mapper result
    more ← tool_metadata_mapper result
    ok (facts ++ more)

-- `_required_fact_text`.
unfoldable pub required_fact_text : Fields → String → Result String
unfolding get_or_none is_blank
required_fact_text raw key = elim (get_or_none key raw) [
  | text s ↦
      if is_blank s then raised (value_error "fact ledger requires a non-empty key") else ok s
  | _ ↦ raised (value_error "fact ledger requires a non-empty key")
]

-- `_optional_fact_text`.
unfoldable pub optional_fact_text : Fields → String → Result (Option String)
unfolding get_or_none is_blank
optional_fact_text raw key = elim (get_or_none key raw) [
  | null ↦ ok none
  | text s ↦
      if is_blank s
      then raised (value_error "fact ledger requires a non-empty string or null")
      else ok (some s)
  | _ ↦ raised (value_error "fact ledger requires a non-empty string or null")
]

-- One entry of the ledger, as `read_facts` reads it.
unfoldable pub read_fact : Fields → Result Fact
unfolding required_fact_text optional_fact_text check_fact
read_fact raw = do
  key ← required_fact_text raw "key"
  value ← required_fact_text raw "value"
  unit ← optional_fact_text raw "unit"
  source_tool_call_id ← required_fact_text raw "source_tool_call_id"
  source_tool_name ← required_fact_text raw "source_tool_name"
  provenance ← optional_fact_text raw "provenance"
  trust_level ← optional_fact_text raw "trust_level"
  check_fact (record {
    key = key;
    value = value;
    unit = unit;
    source_tool_call_id = source_tool_call_id;
    source_tool_name = source_tool_name;
    provenance = or_else provenance "real";
    trust_level = or_else trust_level "trusted";
  })
