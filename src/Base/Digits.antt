-- ===== src/Base/Digits.antt =====
-- Decimal text of a number, and `f"call_{n:03d}"`.
use Prim.Native.Nat.{ℕ, zero, suc, ◌/◌, ◌%◌}
use Prim.Native.Char.{Char}
use Prim.Native.String.{String, ◌++◌}
use agent_trust_runtime.Base.Tests.{eqb, ltb, if◌then◌else◌}

-- The digit of a number below 10.
unfoldable pub digit : ℕ → Char
digit d =
    if eqb d 0
    then "0"
    else if eqb d 1
    then "1"
    else if eqb d 2
    then "2"
    else if eqb d 3
    then "3"
    else if eqb d 4
    then "4"
    else if eqb d 5
    then "5"
    else if eqb d 6
    then "6"
    else if eqb d 7
    then "7"
    else if eqb d 8
    then "8"
    else "9"

-- Writes `n` in front of a text, a digit a round: fuel `n` is enough, as `n / 10 < n`.
unfoldable pub write_digits : ℕ → ℕ → String → String
unfolding digit
write_digits zero n rest = String.◌∷◌ (digit (n % 10)) rest
write_digits (suc fuel) n rest =
    let more = write_digits fuel (n / 10) (String.◌∷◌ (digit (n % 10)) rest) in
    if ltb n 10 then String.◌∷◌ (digit n) rest else more

-- `str(n)`.
unfoldable pub decimal : ℕ → String
unfolding write_digits
decimal n = write_digits n n ""

-- `f"call_{n:03d}"`: at least three digits, zeros in front.
unfoldable pub call_id : ℕ → String
unfolding decimal
call_id n =
    if ltb n 10
    then "call_00" ++ decimal n
    else if ltb n 100
    then "call_0" ++ decimal n
    else "call_" ++ decimal n
