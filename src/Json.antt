-- ===== src/Json.antt =====
-- encoding/json: the values of JSON and how Go's decoder fills a variable of a basic type, a slice
-- or a struct. The decoder starts from the value that the variable holds: `null` leaves it alone.
-- The text layer is not modelled, so a raw message is a value, no bytes at all, or no JSON.
pub mod RoundTrip
pub mod Bounds
use galera_k8s_operator.Base.{
  ℤ, is_int64, String, Bool, ◌||◌, ◌==◌, List, [], ◌∷◌, map, Option, none, some, if◌then◌else◌,
  Slice, equal_fold, Result, ok, err, json_error, ◌>>=◌, map_ok,
}

-- A number is an integer, or a literal with a fraction or an exponent.
mutual
  pub data Json : Type 0 where
    null : Json
    bool : Bool → Json
    int : ℤ → Json
    frac : String → Json
    str : String → Json
    arr : Elems → Json
    obj : Members → Json

  pub data Elems : Type 0 where
    nil : Elems
    elem : Json → Elems → Elems

  pub data Members : Type 0 where
    done : Members
    member : String → Json → Members → Members

abbrev pub to_elems : List Json → Elems
to_elems [] = nil
to_elems (j ∷ js) = elem j (to_elems js)

abbrev to_members : List (String × Json) → Members
to_members [] = done
to_members ((k, v) ∷ ms) = member k v (to_members ms)

-- json.Marshal of a struct: its tagged fields in order.
abbrev pub object : List (String × Json) → Json
object ms = obj (to_members ms)

-- A nil slice is written as `null`.
abbrev pub encode_slice {ℓ} : {A : Type ℓ} → (A → Json) → Slice A → Json
encode_slice f none = null
encode_slice f (some l) = arr (to_elems (map f l))

-- A member's key fits a field's tag up to the case of letters.
unfoldable pub is_key : String → String → Bool
unfolding equal_fold
is_key k tag = k == tag || equal_fold k tag

unfoldable pub decode_string : Json → String → Result String
decode_string null old = ok old
decode_string (str s) old = ok s
decode_string _ old = err json_error

unfoldable pub decode_bool : Json → Bool → Result Bool
decode_bool null old = ok old
decode_bool (bool b) old = ok b
decode_bool _ old = err json_error

-- A number that does not fit in 64 bits, or is no integer, is an error.
unfoldable pub decode_int : Json → ℤ → Result ℤ
decode_int null old = ok old
decode_int (int i) old = if is_int64 i then ok i else err json_error
decode_int _ old = err json_error

unfoldable pub decode_elems {ℓ} : {A : Type ℓ} → (Json → Result A) → Elems → Result (List A)
decode_elems f nil = ok []
decode_elems f (elem j js) = let rest = decode_elems f js in f j >>= λ a. rest >>= λ l. ok (a ∷ l)

-- `null` makes a slice nil. As Unmarshal is documented, the length is reset to zero and each element
-- is appended: it is decoded into a zero value, which `f` starts from. Go reuses the array that the
-- slice had, so where the key of a slice occurs twice in one object, parts of an earlier element may
-- stay there that are gone here.
unfoldable pub decode_slice {ℓ} :
    {A : Type ℓ} → (Json → Result A) → Json → Slice A → Result (Slice A)
unfolding decode_elems
decode_slice f null old = ok none
decode_slice f (arr js) old = map_ok some (decode_elems f js)
decode_slice f _ old = err json_error

unfoldable pub decode_members {ℓ} :
    {S : Type ℓ} → (String → Json → S → Result S) → Members → S → Result S
decode_members set done s = ok s
decode_members set (member k v ms) s = set k v s >>= λ s'. decode_members set ms s'

-- A struct: each member in turn goes to the field of its key, and a key of no field is skipped.
unfoldable pub decode_struct {ℓ} :
    {S : Type ℓ} → (String → Json → S → Result S) → Json → S → Result S
unfolding decode_members
decode_struct set null s = ok s
decode_struct set (obj ms) s = decode_members set ms s
decode_struct set _ s = err json_error

-- json.RawMessage
pub data RawMessage : Type 0 where
  empty : RawMessage
  raw : Json → RawMessage
  junk : String → RawMessage

-- Unmarshal of no bytes, or of a text that is no JSON, is an error.
abbrev pub parse : RawMessage → Result Json
parse (raw j) = ok j
parse _ = err json_error

-- A nil message is written as `null`; one that is no JSON is refused.
unfoldable pub encode_raw : RawMessage → Result Json
encode_raw empty = ok null
encode_raw (raw j) = ok j
encode_raw (junk text) = err json_error
