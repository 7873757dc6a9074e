-- ===== src/Policy/Parsing/RoundTrip.antt =====
-- domain/policy.py: a rule is read back from what it is printed as.
use agent_trust_runtime.Base.{
  String, ◌≡◌, refl, ap, Bool, true, false, not, ◌&&◌, ◌==◌, Option, none, some, List, [], ◌∷◌,
  one_of, arith, ok,
}
use agent_trust_runtime.Value.{Value, array, tuple, nil, Fields, strings, get}
use agent_trust_runtime.Policy.{PolicyRule}
use agent_trust_runtime.Policy.Parsing.{
  get_default, items_or_empty, tokens, parse_pattern, parse_patterns, argv_patterns_of,
  valid_effects, texts, text_items, parse_rule, unless_empty, pattern_values, patterns_field,
  rule_to_dict,
}

-- A pattern that the parser accepts: it has a token, and none is empty.
abbrev pub full_tokens : List String → Bool
full_tokens [] = true
full_tokens (s ∷ ss) = not (s == "") && full_tokens ss

abbrev pub full_patterns : List (List String) → Bool
full_patterns [] = true
full_patterns ([] ∷ ps) = false
full_patterns ((s ∷ ss) ∷ ps) = full_tokens (s ∷ ss) && full_patterns ps

tokens-strings : (ss : List String) → full_tokens ss ≡ true → tokens (strings ss) ≡ ok ss
unfolding tokens
tokens-strings [] h = refl
tokens-strings (s ∷ ss) h = ground (arith, tokens-strings ss)

parse_patterns-pattern_values :
    (ps : List (List String)) → full_patterns ps ≡ true → parse_patterns (pattern_values ps) ≡ ok ps
unfolding parse_patterns pattern_values parse_pattern
parse_patterns-pattern_values [] h = refl
parse_patterns-pattern_values ([] ∷ ps) h = cc
parse_patterns-pattern_values ((s ∷ ss) ∷ ps) h =
    ground (arith, tokens-strings (s ∷ ss), parse_patterns-pattern_values ps)

-- What a field that is left out where its list is empty holds.
abbrev pub listed : List String → Option Value
listed [] = none
listed (s ∷ ss) = some (array (strings (s ∷ ss)))

abbrev listed_patterns : List (List String) → Option Value
listed_patterns [] = none
listed_patterns (p ∷ ps) = some (array (pattern_values (p ∷ ps)))

abbrev tail_of : List String → List String → List (List String) → Fields
tail_of ps cs qs = unless_empty "paths" ps (unless_empty "command_patterns" cs (patterns_field qs))

get-paths :
    (ps cs : List String) (qs : List (List String)) → get "paths" (tail_of ps cs qs) ≡ listed ps
unfolding get unless_empty patterns_field
get-paths (p ∷ ps) cs qs = refl
get-paths [] (c ∷ cs) [] = refl
get-paths [] (c ∷ cs) (q ∷ qs) = refl
get-paths [] [] [] = refl
get-paths [] [] (q ∷ qs) = refl

get-commands :
    (ps cs : List String) (qs : List (List String))
    → get "command_patterns" (tail_of ps cs qs) ≡ listed cs
unfolding get unless_empty patterns_field
get-commands (p ∷ ps) (c ∷ cs) qs = refl
get-commands [] (c ∷ cs) qs = refl
get-commands (p ∷ ps) [] [] = refl
get-commands (p ∷ ps) [] (q ∷ qs) = refl
get-commands [] [] [] = refl
get-commands [] [] (q ∷ qs) = refl

get-patterns :
    (ps cs : List String) (qs : List (List String))
    → get "argv_patterns" (tail_of ps cs qs) ≡ listed_patterns qs
unfolding get unless_empty patterns_field
get-patterns (p ∷ ps) (c ∷ cs) [] = refl
get-patterns (p ∷ ps) (c ∷ cs) (q ∷ qs) = refl
get-patterns [] (c ∷ cs) [] = refl
get-patterns [] (c ∷ cs) (q ∷ qs) = refl
get-patterns (p ∷ ps) [] [] = refl
get-patterns (p ∷ ps) [] (q ∷ qs) = refl
get-patterns [] [] [] = refl
get-patterns [] [] (q ∷ qs) = refl

argv_patterns_of-listed :
    (ps : List (List String)) (raw : Fields)
    → get "argv_patterns" raw ≡ listed_patterns ps
    → full_patterns ps ≡ true
    → argv_patterns_of (get_default "argv_patterns" (tuple nil) raw) ≡ ok ps
unfolding argv_patterns_of get_default pattern_values
argv_patterns_of-listed [] raw h f = rw (get_default, h)
argv_patterns_of-listed (p ∷ ps) raw h f =
    rw (get_default, h) (parse_patterns-pattern_values (p ∷ ps) f)

module _ (shown : Value → String) where
  texts-strings : (ss : List String) → texts shown (strings ss) ≡ ss
  unfolding texts
  texts-strings [] = refl
  texts-strings (s ∷ ss) = ap (λ r. s ∷ r) (texts-strings ss)

  text_items-listed :
      (key : String) (ss : List String) (raw : Fields)
      → get key raw ≡ listed ss
      → text_items shown key raw ≡ ok ss
  unfolding text_items get_default items_or_empty texts
  text_items-listed key [] raw h = rw (text_items, get_default, h)
  text_items-listed key (s ∷ ss) raw h = rw (text_items, get_default, h, texts-strings ss)

  -- A rule whose effect is valid and whose patterns are token lists is read back from its dict.
  pub parse_rule-rule_to_dict :
      (r : PolicyRule)
      → one_of r.effect valid_effects ≡ true
      → full_patterns r.argv_patterns ≡ true
      → parse_rule shown (rule_to_dict r) ≡ ok r
  unfolding parse_rule rule_to_dict get_default get
  parse_rule-rule_to_dict r e p =
      let d = rule_to_dict r in
      rw (
        parse_rule,
        e,
        argv_patterns_of-listed r.argv_patterns d
            (get-patterns r.paths r.command_patterns r.argv_patterns) p,
        text_items-listed "paths" r.paths d (get-paths r.paths r.command_patterns r.argv_patterns),
        text_items-listed "command_patterns" r.command_patterns d
            (get-commands r.paths r.command_patterns r.argv_patterns),
      )
