-- ===== src/Base/Lines.antt =====
-- Python's `str.splitlines`, `str.strip` and `str.split` on the whitespace of `str.isspace`.
use Prim.Native.Nat.{ℕ, ◌+◌}
use Prim.Native.Char.{Char, code}
use Prim.Native.String.{String, ◌++◌, len}
use mathlib.Core.Bool.{Bool, true, false, ◌&&◌, ◌||◌}
use mathlib.Core.List.{List, [], ◌∷◌}
use mathlib.Core.Option.{Option, none, some}
use text.Mathlib.Text.{◌==◌, find?, get?}
use agent_trust_runtime.Base.Tests.{leb, eqb, if◌then◌else◌}
use agent_trust_runtime.Base.Text.{is_space}

-- What `splitlines` breaks at, but for `\r\n`.
unfoldable pub is_break : ℕ → Bool
is_break c =
    (leb 10 c && leb c 13) || (leb 28 c && leb c 30) || eqb c 0x85 || eqb c 0x2028 || eqb c 0x2029

-- A character in front of the first line.
abbrev in_front : Char → List String → List String
in_front c [] = String.◌∷◌ c "" ∷ []
in_front c (l ∷ ls) = String.◌∷◌ c l ∷ ls

abbrev starts_with_newline : String → Bool
starts_with_newline String.[] = false
starts_with_newline (String.◌∷◌ c s) = eqb (code c) 10

-- `\r\n` is one break: its `\r` is passed over.
unfoldable pub splitlines : String → List String
unfolding is_break
splitlines String.[] = []
splitlines (String.◌∷◌ c s) =
    let rest = splitlines s in
    if eqb (code c) 13 && starts_with_newline s
    then rest
    else if is_break (code c)
    then "" ∷ rest
    else in_front c rest

unfoldable pub lstrip : String → String
unfolding is_space
lstrip String.[] = ""
lstrip (String.◌∷◌ c s) = let rest = lstrip s in if is_space (code c) then rest else String.◌∷◌ c s

unfoldable pub rstrip : String → String
unfolding is_space
rstrip String.[] = ""
rstrip (String.◌∷◌ c s) =
    let rest = rstrip s in if rest == "" && is_space (code c) then "" else String.◌∷◌ c rest

unfoldable pub strip : String → String
unfolding lstrip rstrip
strip s = rstrip (lstrip s)

-- The words of a text, and whether its first character is in the first of them.
unfoldable pub words_from : String → Bool × List String
unfolding is_space
words_from String.[] = (false, [])
words_from (String.◌∷◌ c s) =
    let (inside, ws) = words_from s in
    if is_space (code c)
    then (false, ws)
    else (true, if inside then in_front c ws else String.◌∷◌ c "" ∷ ws)

-- `value.split()`.
unfoldable pub words : String → List String
unfolding words_from
words s = (words_from s).1

-- `" ".join(parts)`.
unfoldable pub join_words : List String → String
join_words [] = ""
join_words (w ∷ []) = w
join_words (w ∷ ws) = w ++ " " ++ join_words ws

abbrev or_empty : Option String → String
or_empty none = ""
or_empty (some s) = s

-- `value.split(separator, 1)` where the separator occurs, and `none` where it does not.
unfoldable pub split_once : String → String → Option (String × String)
split_once s separator = elim (find? s separator) [
  | none ↦ none
  | some p ↦ some (or_empty (get? s 0 p), or_empty (get? s (p + len separator) (len s)))
]
