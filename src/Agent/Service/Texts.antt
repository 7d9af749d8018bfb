-- ===== src/Agent/Service/Texts.antt =====
-- strings.TrimSpace and strings.Split at a colon, as internal/agent/mariadb/service/mariadb.go uses
-- them, and what they do to a text of the form key, colon, value.
use Prim.Native.Char.{Char, code}
use Prim.Native.String.{String, [], ◌∷◌, ◌++◌}
use mathlib.Core.Path.{◌≡◌, refl, ap, ◌∙◌}
use mathlib.Core.Logic.{◌≢◌}
use mathlib.Core.Bool.{Bool, false, ◌&&◌, ◌||◌}
use mathlib.Core.List
use native.Mathlib.Omega.{arith}
use text.Mathlib.Text.{◌==◌}
use text.Mathlib.TextEquality.{eq_iff}
use text.Mathlib.TextLemmas.{append-ne-nil_of_right_ne-nil, nil-append, cons-append}
use galera_k8s_operator.Base.{leb, eqb, if◌then◌else◌}

-- unicode.IsSpace
unfoldable pub is_space : Char → Bool
is_space c =
    leb 9 (code c) && leb (code c) 13
    || eqb (code c) 32
    || eqb (code c) 0x85
    || eqb (code c) 0xa0
    || eqb (code c) 0x1680
    || leb 0x2000 (code c) && leb (code c) 0x200a
    || eqb (code c) 0x2028
    || eqb (code c) 0x2029
    || eqb (code c) 0x202f
    || eqb (code c) 0x205f
    || eqb (code c) 0x3000

unfoldable pub trim_left : String → String
trim_left [] = ""
trim_left (c ∷ s) = let rest = trim_left s in if is_space c then rest else c ∷ s

unfoldable pub trim_right : String → String
trim_right [] = ""
trim_right (c ∷ s) = let rest = trim_right s in if is_space c && rest == "" then "" else c ∷ rest

unfoldable pub trim_space : String → String
unfolding trim_left trim_right
trim_space s = trim_right (trim_left s)

abbrev pub is_colon : Char → Bool
is_colon c = eqb (code c) 58

-- A character before the first of some parts
push : Char → List.List String → List.List String
push c List.[] = List.[]
push c (List.◌∷◌ part parts) = List.◌∷◌ (c ∷ part) parts

-- strings.Split(s, ":")
unfoldable pub split_colon : String → List.List String
unfolding push
split_colon [] = List.◌∷◌ "" List.[]
split_colon (c ∷ s) =
    let parts = split_colon s in if is_colon c then List.◌∷◌ "" parts else push c parts

-- strings.HasPrefix(s, "#")
unfoldable pub is_comment : String → Bool
is_comment [] = false
is_comment (c ∷ s) = eqb (code c) b'#'

-- No colon is in the text.
abbrev pub NoColon : String → Type 0
NoColon [] = Unit
NoColon (c ∷ s) = (is_colon c ≡ false) × NoColon s

-- Nothing is to be trimmed at the right.
unfoldable pub IsTrimmed : String → Type 0
IsTrimmed s = trim_right s ≡ s

-- A text that starts with a character that is no space.
abbrev pub StartsPlain : String → Type 0
StartsPlain [] = ⊥
StartsPlain (c ∷ s) = is_space c ≡ false

colon_cons : (t : String) → ":" ++ t ≡ ":" ∷ t
colon_cons t = cons-append ":" [] t ∙ ap (λ x. ":" ∷ x) (nil-append t)

pub split_alone : (s : String) → NoColon s → split_colon s ≡ List.◌∷◌ s List.[]
unfolding split_colon push
split_alone [] h = refl
split_alone (c ∷ s) h = rw (h.0, split_alone s h.1) refl

pub split_first :
    (s t : String) → NoColon s → split_colon (s ++ (":" ++ t)) ≡ List.◌∷◌ s (split_colon t)
unfolding split_colon push
split_first [] t h = rw (nil-append (":" ++ t), colon_cons t) refl
split_first (c ∷ s) t h = rw (cons-append c s (":" ++ t), h.0, split_first s t h.1) refl

keep : (c : Char) (s : String) → s ≢ "" → (if is_space c && s == "" then "" else c ∷ s) ≡ c ∷ s
keep c s h = ground (arith, eq_iff s "")

pub trim_right-append : (s t : String) → trim_right t ≢ "" → trim_right (s ++ t) ≡ s ++ trim_right t
unfolding trim_right
trim_right-append [] t h = rw (nil-append t, nil-append (trim_right t)) refl
trim_right-append (c ∷ s) t h =
    rw (cons-append c s t, cons-append c s (trim_right t), trim_right-append s t h)
      (keep c (s ++ trim_right t) (append-ne-nil_of_right_ne-nil s h))

pub trim_right_colon : (t : String) → IsTrimmed t → IsTrimmed (":" ++ t)
unfolding trim_right IsTrimmed is_space
trim_right_colon t h = rw (colon_cons t, h) refl

pub trim_left_plain : (s t : String) → StartsPlain s → trim_left (s ++ t) ≡ s ++ t
unfolding trim_left
trim_left_plain [] t h = absurd h
trim_left_plain (c ∷ s) t h = rw (cons-append c s t, h) refl
