-- ===== src/Base/Lists.antt =====
-- Lists measured by native numbers, predicates on all items, and Go's slices.
use Prim.Native.Nat.{ℕ, suc}
use mathlib.Core.Path.{◌≡◌, refl, ap}
use mathlib.Core.Logic.{◌≢◌}
use mathlib.Core.List.{List, [], ◌∷◌, ◌++◌, map}
use mathlib.Core.Option.{Option, none, some}

abbrev pub length {ℓ} : {A : Type ℓ} → List A → ℕ
length [] = 0
length (x ∷ xs) = suc (length xs)

abbrev pub All {ℓ κ} : {A : Type ℓ} → (A → Type κ) → List A → Type κ
All P [] = Unit
All P (x ∷ xs) = P x × All P xs

-- A slice of Go: `none` is the nil slice, which encoding/json tells from an empty one.
abbrev pub Slice {ℓ} : Type ℓ → Type ℓ
Slice A = Option (List A)

-- What `range` goes over.
abbrev pub items {ℓ} : {A : Type ℓ} → Slice A → List A
items none = []
items (some l) = l

-- `for _, opt := range opts { opt(params) }`, for options that set a field
unfoldable pub apply_options {ℓ} : {A : Type ℓ} → List (A → A) → A → A
apply_options [] params = params
apply_options (opt ∷ opts) params = apply_options opts (opt params)

pub All-last {ℓ κ} :
    {A : Type ℓ} (P : A → Type κ) (xs : List A) (a : A) → All P (xs ++ a ∷ []) → P a
All-last P [] a h = h.0
All-last P (x ∷ xs) a h = All-last P xs a h.1

pub length-append_last {ℓ} :
    {A : Type ℓ} (xs : List A) (a : A) → length (xs ++ a ∷ []) ≡ suc (length xs)
length-append_last [] a = refl
length-append_last (x ∷ xs) a = ap suc (length-append_last xs a)

pub append_last-ne-nil {ℓ} : {A : Type ℓ} (xs : List A) (a : A) → xs ++ a ∷ [] ≢ []
append_last-ne-nil [] a e = cc
append_last-ne-nil (x ∷ xs) a e = cc

module _ {ℓ κ} {A : Type ℓ} (P : A → Type κ) where
  pub All-append : (xs ys : List A) → All P xs → All P ys → All P (xs ++ ys)
  All-append [] ys a b = b
  All-append (x ∷ xs) ys a b = (a.0, All-append xs ys a.1 b)

  pub All-split : (xs ys : List A) → All P (xs ++ ys) → All P xs × All P ys
  All-split [] ys h = (tt, h)
  All-split (x ∷ xs) ys h = let (a, b) = All-split xs ys h.1 in ((h.0, a), b)

pub map-middle {ℓ κ} :
    {A : Type ℓ} {B : Type κ} (f : A → B) (l : List B) (a b : List A) (v : A)
    → l ++ map f (a ++ v ∷ b) ≡ (l ++ map f a) ++ f v ∷ map f b
map-middle f [] [] b v = refl
map-middle f [] (x ∷ a) b v = ap (λ m. f x ∷ m) (map-middle f [] a b v)
map-middle f (j ∷ l) a b v = ap (λ m. j ∷ m) (map-middle f l a b v)
