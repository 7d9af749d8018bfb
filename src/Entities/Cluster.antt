-- ===== src/Entities/Cluster.antt =====
-- internal/entities/cluster/betav1: the target state of a cluster, to and from a resource, and the
-- conversion of the Kubernetes object in dto/dto.go and k8s/k8s.go.
pub mod RoundTrip
use galera_k8s_operator.Base.{
  ℤ, pos, String, List, [], ◌∷◌, if◌then◌else◌, Result, ok, ◌>>=◌, map_ok, or_wrap,
}
use galera_k8s_operator.Json.{
  Json, int, str, object, is_key, decode_string, decode_int, decode_struct, raw, parse,
}
use galera_k8s_operator.Entities.General.{GeneralTargetState}
use galera_k8s_operator.Entities.Node.{decode_meta}

abbrev pub version : String
version = "betav1"

abbrev pub kind : String
kind = "Galera"

pub record Spec : Type 0 where
  pub replicas : ℤ
  pub status : String
  pub image : String

-- Meta has no fields.
pub record ClusterTargetState : Type 0 where
  pub version : String
  pub kind : String
  pub name : String
  pub namespace : String
  pub spec : Spec

abbrev pub zero_spec : Spec
zero_spec = record { replicas = pos 0; status = ""; image = "" }

-- Two of the fields have no tag, so their keys are their names.
unfoldable pub encode_spec : Spec → Json
encode_spec s =
    object (("replicas", int s.replicas) ∷ ("Status", str s.status) ∷ ("Image", str s.image) ∷ [])

set_spec : String → Json → Spec → Result Spec
set_spec k v s =
    if is_key k "replicas"
    then map_ok (λ x. record s { replicas = x }) (decode_int v s.replicas)
    else if is_key k "Status"
    then map_ok (λ x. record s { status = x }) (decode_string v s.status)
    else if is_key k "Image"
    then map_ok (λ x. record s { image = x }) (decode_string v s.image)
    else ok s

unfoldable pub decode_spec : Json → Spec → Result Spec
unfolding set_spec decode_struct decode_string decode_int is_key
decode_spec = decode_struct set_spec

-- FromGeneralTargetState: the namespace of a resource is not kept.
unfoldable pub from_general : GeneralTargetState → Result ClusterTargetState
unfolding decode_spec decode_meta
from_general state = do
  spec ← or_wrap "failed to unmarshal spec" (parse state.spec >>= λ j. decode_spec j zero_spec)
  or_wrap "failed to unmarshal meta" (parse state.meta >>= decode_meta) >>= λ _.
      ok (record { version = version; kind = kind; name = state.name; namespace = ""; spec = spec })

-- ToGeneralTargetState; nothing in the spec can fail to marshal.
unfoldable pub to_general : ClusterTargetState → Result GeneralTargetState
unfolding encode_spec
to_general c = ok (record {
  version = version;
  kind = c.kind;
  name = c.name;
  spec = raw (encode_spec c.spec);
  meta = raw (object []);
})

-- k8s.GaleraClusterSpec; its `Status` is an int32.
pub record GaleraClusterSpec : Type 0 where
  pub replicas : ℤ
  pub image : String
  pub status : ℤ

-- k8s.GaleraCluster, of whose metadata only the name is read.
pub record GaleraCluster : Type 0 where
  pub api_version : String
  pub kind : String
  pub name : String
  pub spec : GaleraClusterSpec
  pub status : ℤ

-- K8sClusterToBetav1Cluster
unfoldable pub of_k8s : GaleraCluster → ClusterTargetState
of_k8s cluster = record {
  version = cluster.api_version;
  kind = cluster.kind;
  name = cluster.name;
  namespace = "";
  spec = record { replicas = cluster.spec.replicas; status = ""; image = cluster.spec.image };
}
