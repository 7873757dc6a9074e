-- ===== src/Policy/Argv.antt =====
-- domain/policy.py: `_normalized_argv` and `_argv_pattern_matches`.
pub mod Patterns
use agent_trust_runtime.Base.{
  String, Bool, true, false, Option, none, some, List, [], ◌∷◌, map, ◌==◌, ◌&&◌, ◌||◌, is_empty,
  slashes, last_part, if◌then◌else◌,
}
use agent_trust_runtime.Value.{Value, text, array, Values, nil, cons}
use agent_trust_runtime.Host.{Host}

-- The tokens of a list of non-empty strings.
unfoldable pub tokens : Values → Option (List String)
tokens nil = some []
tokens (cons (text s) rest) =
    let more = tokens rest in
    if s == "" then none else elim more [ none ↦ none | some ts ↦ some (s ∷ ts) ]
tokens (cons _ rest) = none

module _ (host : Host) where
  -- Forward slashes, the program's base name first, all in lower case.
  unfoldable pub normalize_tokens : List String → Option (List String)
  unfolding slashes last_part
  normalize_tokens [] = none
  normalize_tokens (program ∷ rest) =
      some (host.lower (last_part (slashes program)) ∷ map (λ t. host.lower (slashes t)) rest)

  unfoldable pub normalized_argv : Value → Option (List String)
  unfolding tokens normalize_tokens
  normalized_argv (array items) = elim (tokens items) [
    | none ↦ none
    | some ts ↦ normalize_tokens ts
  ]
  normalized_argv _ = none

-- `any(f(rest) for rest in the suffixes of argv)`.
abbrev pub any_suffix : (List String → Bool) → List String → Bool
any_suffix f [] = f []
any_suffix f (a ∷ argv) = f (a ∷ argv) || any_suffix f argv

module _ (host : Host) where
  -- The inner `matches`, over a pattern in lower case: an index is the list from there on.
  unfoldable pub match_from : List String → List String → Bool
  match_from [] argv = is_empty argv
  match_from (p ∷ pattern) argv = elim (p == "**") [
    | true ↦ any_suffix (match_from pattern) argv
    | false ↦ elim argv [ [] ↦ false | a ∷ rest ↦ host.fnmatch a p && match_from pattern rest ]
  ]

  unfoldable pub argv_pattern_matches : List String → List String → Bool
  unfolding match_from
  argv_pattern_matches argv pattern = match_from (map host.lower pattern) argv
