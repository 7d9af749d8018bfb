-- ===== src/Entities/General.antt =====
-- internal/entities/general.go: the resource that the storage holds, its spec and meta left as raw
-- JSON, and its deep copy by way of JSON.
pub mod Laws
use galera_k8s_operator.Base.{
  String, Bool, List, [], ◌∷◌, Option, none, some, if◌then◌else◌, Error, Result, ok, err, ◌>>=◌,
  map_ok, or_wrap,
}
use galera_k8s_operator.Json.{
  Json, str, object, is_key, decode_string, decode_struct, RawMessage, empty, raw, encode_raw,
}

abbrev pub status_creating : String
status_creating = "CREATING"

abbrev pub status_active : String
status_active = "ACTIVE"

pub record GeneralTargetState : Type 0 where
  pub version : String
  pub kind : String
  pub name : String
  pub spec : RawMessage
  pub meta : RawMessage

abbrev pub zero_general : GeneralTargetState
zero_general = record { version = ""; kind = ""; name = ""; spec = empty; meta = empty }

abbrev general_object : GeneralTargetState → Json → Json → Json
general_object g spec meta = object (
    ("version", str g.version)
    ∷ ("kind", str g.kind)
    ∷ ("name", str g.name)
    ∷ ("spec", spec)
    ∷ ("meta", meta)
    ∷ [])

encode_general : GeneralTargetState → Result Json
unfolding encode_raw
encode_general g = do
  spec ← encode_raw g.spec
  meta ← encode_raw g.meta
  ok (general_object g spec meta)

-- A raw message takes any value, `null` too.
set_general : String → Json → GeneralTargetState → Result GeneralTargetState
set_general k v g =
    if is_key k "version"
    then map_ok (λ x. record g { version = x }) (decode_string v g.version)
    else if is_key k "kind"
    then map_ok (λ x. record g { kind = x }) (decode_string v g.kind)
    else if is_key k "name"
    then map_ok (λ x. record g { name = x }) (decode_string v g.name)
    else if is_key k "spec"
    then ok (record g { spec = raw v })
    else if is_key k "meta"
    then ok (record g { meta = raw v })
    else ok g

-- Copy
unfoldable pub copy : GeneralTargetState → Result GeneralTargetState
unfolding encode_general set_general decode_struct decode_string is_key
copy g = do
  data_ ← or_wrap "failed to marshal for copy" (encode_general g)
  or_wrap "failed to unmarshal for copy" (decode_struct set_general data_ zero_general)

-- MustCopy; `none` is a panic.
pub must_copy : GeneralTargetState → Option GeneralTargetState
must_copy g = elim (copy g) [ ok c ↦ some c | err e ↦ none ]

pub record ReconcileResult : Type 0 where
  pub success : Bool
  pub reason : String
  pub error : Option Error
