-- ===== src/Policy.antt =====
-- domain/policy.py: policy rules and pre-tool hooks matched against a normalized tool intent, and
-- permissions/hooks.py: the evaluation of the hooks.
pub mod Argv
pub mod Parsing
use agent_trust_runtime.Base.{
  ℕ, String, Bool, true, false, Option, none, some, List, [], ◌∷◌, map, ◌==◌, ◌&&◌, ◌||◌, any,
  is_empty, slashes, contains, if◌then◌else◌,
}
use agent_trust_runtime.Value.{Value, Fields, get_or_none}
use agent_trust_runtime.Models.{ToolIntent, HookDecision}
use agent_trust_runtime.Host.{Host}
use agent_trust_runtime.Protocol.{as_text}
use Argv.{normalized_argv, argv_pattern_matches}

pub record PolicyRule : Type 0 where
  pub id : String
  pub tool : String
  pub effect : String
  pub reason : String
  pub paths : List String
  pub command_patterns : List String
  pub argv_patterns : List (List String)

pub record HookRule : Type 0 where
  pub id : String
  pub tool : String
  pub action : String
  pub reason : String
  pub path_glob : Option String

pub record Policy : Type 0 where
  pub project_root : String
  pub mode : String
  pub rules : List PolicyRule
  pub hooks : List HookRule
  pub final_answer_mode : String
  pub verification_mode : String
  pub approval_ttl_seconds : ℕ
  pub protocol_version : String

abbrev first_some : Option String → Option String → Option String
first_some (some s) o = some s
first_some none o = o

module _ (host : Host) where
  -- `fnmatch(path, pattern)` on forward slashes.
  unfoldable pub path_matches : String → String → Bool
  unfolding slashes
  path_matches path pattern = host.fnmatch (slashes path) (slashes pattern)

  unfoldable pub paths_match : List String → Fields → Bool
  unfolding path_matches get_or_none
  paths_match [] arguments = true
  paths_match (pattern ∷ rest) arguments = elim (as_text (get_or_none "path" arguments)) [
    | none ↦ false
    | some path ↦ any (path_matches path) (pattern ∷ rest)
  ]

  -- `shlex.join(argv) if argv is not None else None`.
  unfoldable pub joined_argv : Fields → Option String
  unfolding get_or_none normalized_argv
  joined_argv arguments = elim (normalized_argv host (get_or_none "argv" arguments)) [
    | none ↦ none
    | some argv ↦ some (host.shlex_join argv)
  ]

  -- The command, if it is a string, or else the joined argument vector.
  unfoldable pub command_text : Fields → Option String
  unfolding get_or_none joined_argv
  command_text arguments =
      first_some (as_text (get_or_none "command" arguments)) (joined_argv arguments)

  unfoldable pub commands_match : List String → Fields → Bool
  unfolding command_text
  commands_match [] arguments = true
  commands_match (pattern ∷ rest) arguments = elim (command_text arguments) [
    | none ↦ false
    | some command ↦ any (λ p. host.fnmatch command p || contains command p) (pattern ∷ rest)
  ]

  unfoldable pub argv_match : List (List String) → Fields → Bool
  unfolding get_or_none normalized_argv argv_pattern_matches
  argv_match [] arguments = true
  argv_match (pattern ∷ rest) arguments =
      elim (normalized_argv host (get_or_none "argv" arguments)) [
        | none ↦ false
        | some argv ↦ any (argv_pattern_matches host argv) (pattern ∷ rest)
      ]

  -- `PolicyRule.matches`.
  unfoldable pub rule_matches : PolicyRule → ToolIntent → Bool
  unfolding paths_match commands_match argv_match
  rule_matches rule intent =
      (rule.tool == intent.tool_name)
      && paths_match rule.paths intent.arguments
      && commands_match rule.command_patterns intent.arguments
      && argv_match rule.argv_patterns intent.arguments

  unfoldable pub glob_matches : Option String → Fields → Bool
  unfolding path_matches get_or_none
  glob_matches none arguments = true
  glob_matches (some glob) arguments =
      if glob == "" then true else elim (as_text (get_or_none "path" arguments)) [
        | none ↦ false
        | some path ↦ path_matches path glob
      ]

  -- `HookRule.matches`.
  unfoldable pub hook_matches : HookRule → ToolIntent → Bool
  unfolding glob_matches
  hook_matches hook intent =
      (hook.tool == "*" || hook.tool == intent.tool_name)
      && glob_matches hook.path_glob intent.arguments

  -- `evaluate_pre_tool_hooks` of permissions/hooks.py: the first hook that matches.
  unfoldable pub evaluate_pre_tool_hooks : ToolIntent → List HookRule → HookDecision
  unfolding hook_matches
  evaluate_pre_tool_hooks intent [] = record {
    run_id = intent.run_id;
    tool_call_id = intent.tool_call_id;
    tool_name = intent.tool_name;
    effect = "allow";
    hook_id = none;
    reason = "no matching hook";
  }
  evaluate_pre_tool_hooks intent (hook ∷ rest) =
      if hook_matches hook intent
      then record {
        run_id = intent.run_id;
        tool_call_id = intent.tool_call_id;
        tool_name = intent.tool_name;
        effect = if hook.action == "deny" then "deny" else "allow";
        hook_id = some hook.id;
        reason = hook.reason;
      }
      else evaluate_pre_tool_hooks intent rest
