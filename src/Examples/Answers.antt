-- ===== src/Examples/Answers.antt =====
-- adapters/verification: facts of a result, their ledger, and answers that cite them.
use agent_trust_runtime.Base.{
  String, ◌≡◌, refl, false, ◌==◌, none, some, List, [], ◌∷◌, ok, is_blank,
}
use agent_trust_runtime.Value.{Value, object, text, dict}
use agent_trust_runtime.Models.{ToolResult}
use agent_trust_runtime.Facts.{
  Fact, check_fact, fact_to_dict, map_tool_result, explicit_fact_block_mapper,
}
use agent_trust_runtime.Facts.Sources.{AllSourced, map_tool_result_lem}
use agent_trust_runtime.Facts.Ledger.{is_printable, AllKept, read_facts-write_facts}
use agent_trust_runtime.Facts.Files.{Json, write_facts, read_facts}
use agent_trust_runtime.Base.Lines.{is_break}
use agent_trust_runtime.Coverage.{CoverageReport, Numbers}
use agent_trust_runtime.Coverage.Gate.{Gate, verify_answer}
use agent_trust_runtime.Coverage.Verdicts.{IsSorted, verify_answer-IsSorted}
use agent_trust_runtime.Coverage.Trusted.{Each, IsBacked, verified_answer-IsBacked}

abbrev shown : Value → String
shown (text s) = s
shown v = "value"

abbrev result : ToolResult
result = record {
  run_id = "run";
  tool_call_id = "call_001";
  tool_name = "read_file";
  status = "ok";
  output_preview = "AGENTTRUST_FACTS:\nrevenue = 5 million\nEND_AGENTTRUST_FACTS\nmargin=3";
  output_digest = none;
  metadata = dict (("lines", text "4") ∷ []);
  error = none;
  created_at = "t0";
}

abbrev revenue : Fact
revenue = record {
  key = "revenue";
  value = "5";
  unit = some "million";
  source_tool_call_id = "call_001";
  source_tool_name = "read_file";
  provenance = "real";
  trust_level = "trusted";
}

-- Only the line within the block is a fact.
block_run : explicit_fact_block_mapper result ≡ ok (revenue ∷ [])
unfolding explicit_fact_block_mapper
block_run = refl

map_tool_result_lem_example :
    (fs : List Fact) × (map_tool_result shown result ≡ ok fs)
    × AllSourced result fs
    × ((result.status == "ok") ≡ false → fs ≡ [])
map_tool_result_lem_example = map_tool_result_lem shown result

-- The json module on the entry of the revenue.
abbrev json : Json
json = record {
  dumps = λ d. "{\"key\": \"revenue\"}";
  loads = λ t. some (object (fact_to_dict revenue));
}

read_facts-write_facts_example :
    read_facts json
      (some (write_facts json (revenue ∷ []) (some (write_facts json (revenue ∷ []) none))))
    ≡ ok (revenue ∷ revenue ∷ [])
unfolding check_fact is_printable is_blank is_break
read_facts-write_facts_example =
    let kept : AllKept json (revenue ∷ []) =
      ((refl, refl, (refl, refl, fact_to_dict revenue, refl, (λ key. refl))), tt) in
    read_facts-write_facts json (revenue ∷ []) (revenue ∷ []) kept kept

-- Numbers are texts here, and the amount before a marker is the text before it.
abbrev numbers : Numbers String
numbers = record {
  to_decimal = λ s. some s;
  equal = λ a b. a == b;
  shown = λ s. s;
  last_number = λ s. some s;
}

abbrev no_gate : Gate
no_gate = λ answer facts keys session_id. none

abbrev covered : CoverageReport
covered = record {
  status = "verified";
  required_fact_keys = "revenue" ∷ [];
  engine = "agenttrust-fallback";
  session_id = some "s";
  verified_keys = "revenue" ∷ [];
  contradicted_keys = [];
  unverified_keys = [];
  details =
      dict (("key", text "revenue") ∷ ("status", text "verified") ∷ ("value", text "5") ∷ []) ∷ [];
}

covered_run :
    verify_answer numbers shown no_gate "5[fact:revenue]"
      (revenue ∷ [])
      ("revenue" ∷ [])
      "s"
      false
      "fallback"
    ≡ ok covered
unfolding verify_answer
covered_run = refl

verify_answer-IsSorted_example : IsSorted ("revenue" ∷ []) covered
verify_answer-IsSorted_example =
    verify_answer-IsSorted numbers shown no_gate "5[fact:revenue]" (revenue ∷ []) ("revenue" ∷ [])
      "s" false "fallback" covered covered_run

verified_answer-IsBacked_example :
    (("fallback" == "groundguard_required") ≡ false)
    × Each
        (IsBacked numbers shown no_gate "5[fact:revenue]"
          (revenue ∷ [])
          ("revenue" ∷ [])
          "s"
          false
          "fallback"
          covered)
        ("revenue" ∷ [])
verified_answer-IsBacked_example =
    verified_answer-IsBacked numbers shown no_gate "5[fact:revenue]" (revenue ∷ []) ("revenue" ∷ [])
      "s" false "fallback" covered refl covered_run refl
