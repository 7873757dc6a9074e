-- ===== src/Sandbox.antt =====
-- adapters/sandbox/filesystem.py: PathSandbox. Paths and what the file system resolves them to are
-- a parameter; an operation on them may raise.
pub mod Allowed
use text.Mathlib.Text.{starts_with}
use agent_trust_runtime.Base.{
  String, Bool, true, false, not, ◌&&◌, ◌||◌, ◌==◌, Option, none, some, List, [], ◌∷◌, any, one_of,
  or_else, if◌then◌else◌, Error, Result, ok, raised, ◌>>=◌,
}
use agent_trust_runtime.Value.{Fields, get_or_none}
use agent_trust_runtime.Protocol.{as_text}
use agent_trust_runtime.Models.{ToolIntent, SandboxDecision}

-- What `pathlib` is asked.
pub record Paths {ℓ} (P : Type ℓ) : Type ℓ where
  -- `Path(text).expanduser()`.
  pub expanduser : String → Result P
  pub is_absolute : P → Bool
  -- `a / b`.
  pub join : P → P → P
  -- `path / text`.
  pub child : P → String → P
  pub parent : P → P
  pub name : P → String
  pub suffix : P → String
  pub parts : P → List String
  -- `path.resolve(strict=False)`.
  pub resolve : P → Result P
  -- Whether `path.relative_to(root)` returns.
  pub is_relative_to : P → P → Bool
  -- `str(path)`.
  pub shown : P → String
  -- `str.lower`.
  pub lower : String → String

-- What is blocked on a system that is not Windows.
abbrev pub posix_prefixes : List String
posix_prefixes = "/etc" ∷ "/bin" ∷ "/usr" ∷ "/var" ∷ "/root" ∷ []

abbrev allow_unrestricted : ToolIntent → SandboxDecision
allow_unrestricted intent = record {
  run_id = intent.run_id;
  tool_call_id = intent.tool_call_id;
  tool_name = intent.tool_name;
  effect = "allow";
  reason = "tool has no path sandbox requirement";
  path = none;
}

module _ {ℓ} {P : Type ℓ} (paths : Paths P) (blocked_prefixes : List String)
    (project_root : P) where
  unfoldable pub deny_path : ToolIntent → (reason : String) → Option P → SandboxDecision
  deny_path intent reason path = record {
    run_id = intent.run_id;
    tool_call_id = intent.tool_call_id;
    tool_name = intent.tool_name;
    effect = "deny";
    reason = reason;
    path = elim path [ none ↦ none | some p ↦ some (paths.shown p) ];
  }

  unfoldable pub is_inside_project : P → Bool
  is_inside_project path = paths.is_relative_to path project_root

  unfoldable pub is_secret_path : P → Bool
  is_secret_path path =
      (paths.lower (paths.name path) == ".env")
      || (paths.lower (paths.suffix path) == ".pem")
      || any (λ part. paths.lower part == ".ssh") (paths.parts path)

  unfoldable pub is_system_path : P → Bool
  is_system_path path =
      any (λ prefix. starts_with (paths.lower (paths.shown path)) prefix) blocked_prefixes

  -- The target of a write may not be there yet: its parent is resolved first.
  unfoldable pub resolve_new : P → Result P
  resolve_new target = do
    resolved ← paths.resolve (paths.parent target)
    paths.resolve (paths.child resolved (paths.name target))

  -- The path that a tool would reach.
  unfoldable pub final_target : (tool_name path_value : String) → Result P
  unfolding resolve_new
  final_target tool_name path_value = do
    given ← paths.expanduser path_value
    let target = if paths.is_absolute given then given else paths.join project_root given
    if tool_name == "write_file" then resolve_new target else paths.resolve target

  -- The verdict on a path that is resolved.
  unfoldable pub judge_path : ToolIntent → P → SandboxDecision
  unfolding deny_path is_inside_project is_secret_path is_system_path
  judge_path intent path =
      if is_system_path path
      then deny_path intent "system paths are blocked" (some path)
      else if not (is_inside_project path)
      then deny_path intent "path escapes project_root" (some path)
      else if is_secret_path path
      then deny_path intent "secret files are blocked" (some path)
      else record {
        run_id = intent.run_id;
        tool_call_id = intent.tool_call_id;
        tool_name = intent.tool_name;
        effect = "allow";
        reason = "path allowed";
        path = some (paths.shown path);
      }

  unfoldable pub check_path : ToolIntent → (path_value : String) → Result SandboxDecision
  unfolding deny_path final_target judge_path
  check_path intent path_value =
      if path_value == ""
      then ok (deny_path intent "path argument is required" none)
      else do path ← final_target intent.tool_name path_value; ok (judge_path intent path)

  -- `PathSandbox.check`; a path that is no text is as one that is missing.
  unfoldable pub check_sandbox : ToolIntent → Result SandboxDecision
  unfolding get_or_none check_path
  check_sandbox intent =
      if not (one_of intent.tool_name ("read_file" ∷ "write_file" ∷ []))
      then ok (allow_unrestricted intent)
      else check_path intent (or_else (as_text (get_or_none "path" intent.arguments)) "")
