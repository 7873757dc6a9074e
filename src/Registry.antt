-- ===== src/Registry.antt =====
-- tools/registry.py: the specifications of the built-in tools.
use agent_trust_runtime.Base.{
  String, Bool, true, false, Option, none, some, List, [], ◌∷◌, ◌==◌, ◌&&◌, if◌then◌else◌,
}
use agent_trust_runtime.Value.{boolean, text, object, Fields, end, dict, same_dict}

pub record ToolSpec : Type 0 where
  pub name : String
  pub category : String
  pub input_schema : Fields
  pub default_effect : String
  pub enabled : Bool
  pub source : String

unfoldable pub spec_to_dict : ToolSpec → Fields
spec_to_dict s = dict (
    ("schema_version", text "agenttrust.tool-spec/v1")
    ∷ ("name", text s.name)
    ∷ ("category", text s.category)
    ∷ ("input_schema", object s.input_schema)
    ∷ ("default_effect", text s.default_effect)
    ∷ ("enabled", boolean s.enabled)
    ∷ ("source", text s.source)
    ∷ [])

abbrev same_flag : Bool → Bool → Bool
same_flag true b = b
same_flag false true = false
same_flag false false = true

-- `a == b` of two specifications.
unfoldable pub same_spec : ToolSpec → ToolSpec → Bool
unfolding same_dict
same_spec a b =
    (a.name == b.name)
    && (a.category == b.category)
    && same_dict a.input_schema b.input_schema
    && (a.default_effect == b.default_effect)
    && same_flag a.enabled b.enabled
    && (a.source == b.source)

abbrev builtin : String → String → Fields → String → String → ToolSpec
builtin name category schema effect source = record {
  name = name;
  category = category;
  input_schema = schema;
  default_effect = effect;
  enabled = true;
  source = source;
}

-- `TOOL_SPECS`.
abbrev pub tool_specs : List (String × ToolSpec)
tool_specs =
    (
      "read_file",
      builtin "read_file" "file" (dict (("path", text "string") ∷ [])) "allow" "builtin",
    )
    ∷ (
      "write_file",
      builtin "write_file" "file" (dict (("path", text "string") ∷ ("content", text "string") ∷ []))
          "ask" "builtin",
    )
    ∷ (
      "shell",
      builtin "shell" "process"
          (dict (("argv", text "string[]") ∷ ("simulated_output", text "string?") ∷ [])) "ask"
          "builtin",
    )
    ∷ (
      "unsafe_shell_command",
      builtin "unsafe_shell_command" "process" (dict (("command", text "string") ∷ [])) "deny"
          "explicit_compatibility",
    )
    ∷ ("git_diff", builtin "git_diff" "git" end "allow" "builtin")
    ∷ (
      "mcp_tool",
      builtin "mcp_tool" "mcp"
          (dict (
            ("server", text "string")
            ∷ ("tool", text "string")
            ∷ ("input", text "object")
            ∷ ("simulated", text "boolean?")
            ∷ []))
          "ask" "mcp_lite",
    )
    ∷ (
      "skill_context",
      builtin "skill_context" "skill" (dict (("skill", text "string") ∷ [])) "allow"
          "skill_context",
    )
    ∷ []

-- `specs.get(name)`.
unfoldable pub find_spec : String → List (String × ToolSpec) → Option ToolSpec
find_spec name [] = none
find_spec name ((key, spec) ∷ rest) = if key == name then some spec else find_spec name rest

-- `get_tool_spec`, whose `ValueError` is `none`.
unfoldable pub get_tool_spec : String → Option ToolSpec
unfolding find_spec
get_tool_spec name = find_spec name tool_specs
