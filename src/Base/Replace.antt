-- ===== src/Base/Replace.antt =====
-- strings.ReplaceAll and strings.Join.
use Prim.Native.Nat.{ℕ, zero, suc, ◌-◌}
use Prim.Native.String
use Prim.Native.String.{String, [], ◌∷◌, count}
use mathlib.Core.List
use text.Mathlib.Text.{starts_with}
use galera_k8s_operator.Base.Tests.{if◌then◌else◌}

-- `skip` characters of an occurrence are still to be passed over.
replace_from : String → String → ℕ → String → String
replace_from old by skip [] = ""
replace_from old by (suc skip) (c ∷ s) = replace_from old by skip s
replace_from old by zero (c ∷ s) =
    let after = replace_from old by (count old - 1) s in
    let kept = replace_from old by zero s in
    if starts_with (c ∷ s) old then String.◌++◌ by after else c ∷ kept

-- Occurrences of a text that is not empty, from left to right, none inside another.
unfoldable pub replace_all : String → String → String → String
unfolding replace_from
replace_all s old by = replace_from old by zero s

unfoldable pub join : List.List String → String → String
join List.[] sep = ""
join (List.◌∷◌ a List.[]) sep = a
join (List.◌∷◌ a (List.◌∷◌ b l)) sep =
    let rest = join (List.◌∷◌ b l) sep in String.◌++◌ a (String.◌++◌ sep rest)
