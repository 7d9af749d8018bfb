-- ===== src/Base/Text.antt =====
-- Texts: `strings.EqualFold` against an ASCII key, as encoding/json matches keys, and `%d`.
use Prim.Native.Nat.{ℕ, zero, suc, ◌+◌, ◌/◌, ◌%◌}
use Prim.Native.Char.{code}
use Prim.Native.String.{String, [], ◌∷◌, ◌++◌}
use mathlib.Core.Bool.{Bool, true, false, ◌&&◌}
use galera_k8s_operator.Base.Tests.{ltb, leb, eqb, if◌then◌else◌}

-- The least letter that a letter folds to: upper case to lower case, and the two letters outside
-- of ASCII that fold into it, the Kelvin sign and the long s.
pub fold_code : ℕ → ℕ
fold_code c =
    if leb b'A' c && leb c b'Z'
    then c + 32
    else if eqb c 0x212a
    then b'k'
    else if eqb c 0x17f
    then b's'
    else c

unfoldable pub equal_fold : String → String → Bool
unfolding fold_code
equal_fold [] [] = true
equal_fold (c ∷ s) (d ∷ t) = eqb (fold_code (code c)) (fold_code (code d)) && equal_fold s t
equal_fold _ _ = false

abbrev digit : ℕ → String
digit zero = "0"
digit (suc zero) = "1"
digit (suc (suc zero)) = "2"
digit (suc (suc (suc zero))) = "3"
digit (suc (suc (suc (suc zero)))) = "4"
digit (suc (suc (suc (suc (suc zero))))) = "5"
digit (suc (suc (suc (suc (suc (suc zero)))))) = "6"
digit (suc (suc (suc (suc (suc (suc (suc zero))))))) = "7"
digit (suc (suc (suc (suc (suc (suc (suc (suc zero)))))))) = "8"
digit _ = "9"

decimal_from : ℕ → ℕ → String → String
decimal_from zero n acc = acc
decimal_from (suc fuel) n acc =
    let rest = decimal_from fuel (n / 10) (digit (n % 10) ++ acc) in
    if ltb n 10 then digit n ++ acc else rest

-- `%d` of a number that is not negative; a number has fewer digits than its successor.
unfoldable pub decimal : ℕ → String
unfolding decimal_from
decimal n = decimal_from (suc n) n ""
