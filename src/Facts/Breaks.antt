-- ===== src/Facts/Breaks.antt =====
-- The lines that `str.splitlines` cuts a text into.
use Prim.Native.Char.{Char, code}
use Prim.Native.String.{◌++◌}
use Prim.Native.String.append
use agent_trust_runtime.Base.{String, ◌≡◌, ap, ◌∙◌, Bool, true, false, not, ◌&&◌, ◌∷◌, arith}
use agent_trust_runtime.Base.Lines.{splitlines, is_break}

-- No character of the text ends a line for `splitlines`.
abbrev pub is_line : String → Bool
is_line String.[] = true
is_line (String.◌∷◌ c s) = not (is_break (code c)) && is_line s

-- A character that ends no line goes in front of the first line.
splitlines-first :
    (c : Char) (s t rest : String)
    → is_break (code c) ≡ false
    → splitlines t ≡ s ∷ splitlines rest
    → splitlines (String.◌∷◌ c t) ≡ String.◌∷◌ c s ∷ splitlines rest
unfolding splitlines is_break
splitlines-first c s t rest h k = rw k (ground (arith, h))

splitlines-newline : (rest : String) → splitlines ("\n" ++ rest) ≡ "" ∷ splitlines rest
unfolding splitlines is_break
splitlines-newline rest =
    ap splitlines (append.cons "\n" "" rest ∙ ap (λ t. String.◌∷◌ "\n" t) (append.nil rest))

pub splitlines-line :
    (line rest : String)
    → is_line line ≡ true
    → splitlines (line ++ ("\n" ++ rest)) ≡ line ∷ splitlines rest
splitlines-line String.[] rest h =
    ap splitlines (append.nil ("\n" ++ rest)) ∙ splitlines-newline rest
splitlines-line (String.◌∷◌ c s) rest h =
    ap splitlines (append.cons c s ("\n" ++ rest))
    ∙ splitlines-first c s (s ++ ("\n" ++ rest)) rest (ground arith)
        (splitlines-line s rest (ground arith))
