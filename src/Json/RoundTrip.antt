-- ===== src/Json/RoundTrip.antt =====
-- Decoding what was encoded, for slices; keys are matched up to the case of letters.
use galera_k8s_operator.Base.{◌≡◌, refl, List, [], ◌∷◌, none, some, Slice, Result, ok, map}
use galera_k8s_operator.Json.{Json, to_elems, encode_slice, decode_elems, decode_slice}

module _ {ℓ} {A : Type ℓ} (enc : A → Json) (dec : Json → Result A) where
  pub decode_elems-map :
      (l : List A) → ((a : A) → dec (enc a) ≡ ok a) → decode_elems dec (to_elems (map enc l)) ≡ ok l
  unfolding decode_elems
  decode_elems-map [] h = refl
  decode_elems-map (a ∷ l) h = rw (h a, decode_elems-map l h)

  pub decode_slice-encode_slice :
      (s old : Slice A)
      → ((a : A) → dec (enc a) ≡ ok a)
      → decode_slice dec (encode_slice enc s) old ≡ ok s
  unfolding decode_slice
  decode_slice-encode_slice none old h = refl
  decode_slice-encode_slice (some l) old h = rw (decode_elems-map l h)
