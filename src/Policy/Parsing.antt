-- ===== src/Policy/Parsing.antt =====
-- domain/policy.py: `from_dict` and `to_dict` of rules, hooks and policies. `str(value)` of a value
-- that is no text is the parameter `shown`.
pub mod Policies
pub mod RoundTrip
use agent_trust_runtime.Base.{
  ℕ, zero, suc, String, Bool, true, false, not, ◌&&◌, ◌==◌, Option, none, some, List, [], ◌∷◌, all,
  one_of, is_empty, if◌then◌else◌, Error, Result, ok, raised, value_error, key_error, type_error,
  attribute_error, require, ◌>>=◌, ◌>>◌,
}
use agent_trust_runtime.Value.{
  ℤ, Value, null, integer, text, array, tuple, object, Values, nil, cons, Fields, end, field, dict,
  strings, number, get, get_or_none, truthy,
}
use agent_trust_runtime.Protocol.{policy_protocol_version}
use agent_trust_runtime.Policy.{PolicyRule, HookRule, Policy}

-- `raw.get(key, default)`.
unfoldable pub get_default : String → Value → Fields → Value
unfolding get
get_default key default raw = elim (get key raw) [ none ↦ default | some v ↦ v ]

abbrev pub characters : String → Values
characters String.[] = nil
characters (String.◌∷◌ c s) = cons (text (String.◌∷◌ c "")) (characters s)

abbrev pub keys : Fields → Values
keys end = nil
keys (field k v r) = cons (text k) (keys r)

-- `for item in value or ()`.
unfoldable pub items_or_empty : Value → Result Values
items_or_empty (array xs) = ok xs
items_or_empty (tuple xs) = ok xs
items_or_empty (text s) = ok (characters s)
items_or_empty (object d) = ok (keys d)
items_or_empty v = if truthy v then raised (type_error "object is not iterable") else ok nil

-- `isinstance(value, (list, tuple))`.
abbrev pub as_sequence : Value → Option Values
as_sequence (array xs) = some xs
as_sequence (tuple xs) = some xs
as_sequence _ = none

-- The tokens of a pattern: texts that are not empty.
unfoldable pub tokens : Values → Result (List String)
tokens nil = ok []
tokens (cons (text s) rest) = do
  require (not (s == "")) (value_error "argv pattern tokens must be non-empty strings")
  more ← tokens rest
  ok (s ∷ more)
tokens (cons _ rest) = raised (value_error "argv pattern tokens must be non-empty strings")

unfoldable pub parse_pattern : Value → Result (List String)
unfolding tokens
parse_pattern v = elim (as_sequence v) [
  | some (cons x xs) ↦ tokens (cons x xs)
  | _ ↦ raised (value_error "each argv pattern must be a non-empty token list")
]

unfoldable pub parse_patterns : Values → Result (List (List String))
unfolding parse_pattern
parse_patterns nil = ok []
parse_patterns (cons v rest) = do
  pattern ← parse_pattern v
  more ← parse_patterns rest
  ok (pattern ∷ more)

-- `raw.get("argv_patterns", ()) or ()`, which must be a list.
unfoldable pub argv_patterns_of : Value → Result (List (List String))
unfolding parse_patterns
argv_patterns_of v = if not (truthy v) then ok [] else elim (as_sequence v) [
  | none ↦ raised (value_error "argv_patterns must be a list of token lists")
  | some xs ↦ parse_patterns xs
]

abbrev pub valid_effects : List String
valid_effects = "allow" ∷ "ask" ∷ "deny" ∷ []

module _ (shown : Value → String) where
  -- `str(value)`.
  abbrev pub str_of : Value → String
  str_of (text s) = s
  str_of v = shown v

  unfoldable pub texts : Values → List String
  texts nil = []
  texts (cons v rest) = str_of v ∷ texts rest

  -- `tuple(str(item) for item in raw.get(key, ()) or ())`.
  unfoldable pub text_items : String → Fields → Result (List String)
  unfolding get_default items_or_empty texts
  text_items key raw = do items ← items_or_empty (get_default key (tuple nil) raw); ok (texts items)

  -- `PolicyRule.from_dict`.
  unfoldable pub parse_rule : Fields → Result PolicyRule
  unfolding get_default get argv_patterns_of text_items
  parse_rule raw = do
    let effect = str_of (get_default "effect" (text "deny") raw)
    require (one_of effect valid_effects) (value_error "invalid policy effect")
    patterns ← argv_patterns_of (get_default "argv_patterns" (tuple nil) raw)
    tool ← (elim (get "tool" raw) [ none ↦ raised (key_error "tool") | some v ↦ ok (str_of v) ])
    paths ← text_items "paths" raw
    commands ← text_items "command_patterns" raw
    ok (record {
      id = str_of (get_default "id" (text "unnamed-rule") raw);
      tool = tool;
      effect = effect;
      reason = str_of (get_default "reason" (text "") raw);
      paths = paths;
      command_patterns = commands;
      argv_patterns = patterns;
    })

-- A field that is left out where the list is empty.
unfoldable pub unless_empty : String → List String → Fields → Fields
unless_empty key [] rest = rest
unless_empty key (s ∷ ss) rest = field key (array (strings (s ∷ ss))) rest

unfoldable pub pattern_values : List (List String) → Values
pattern_values [] = nil
pattern_values (p ∷ ps) = cons (array (strings p)) (pattern_values ps)

unfoldable pub patterns_field : List (List String) → Fields
unfolding pattern_values
patterns_field [] = end
patterns_field (p ∷ ps) = field "argv_patterns" (array (pattern_values (p ∷ ps))) end

-- `PolicyRule.to_dict`.
unfoldable pub rule_to_dict : PolicyRule → Fields
unfolding unless_empty patterns_field
rule_to_dict r = field "id" (text r.id) (
    field "tool" (text r.tool) (
      field "effect" (text r.effect) (
        field "reason" (text r.reason) (
          unless_empty "paths" r.paths (
            unless_empty "command_patterns" r.command_patterns (patterns_field r.argv_patterns))))))
