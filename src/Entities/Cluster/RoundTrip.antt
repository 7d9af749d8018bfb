-- ===== src/Entities/Cluster/RoundTrip.antt =====
-- A cluster stored and read back.
use galera_k8s_operator.Base.{◌≡◌, ok, IsInt64, ◌>>=◌}
use galera_k8s_operator.Entities.Cluster.{
  ClusterTargetState, version, kind, to_general, from_general,
}

-- A cluster whose replicas fit 64 bits, that is made a resource and read back, keeps its name and
-- its spec. Its version and kind are the constants, and its namespace is lost.
pub cluster_round_trip :
    (c : ClusterTargetState)
    → IsInt64 c.spec.replicas
    → (to_general c >>= from_general)
      ≡ ok (record c { version = version; kind = kind; namespace = "" })
unfolding to_general from_general
cluster_round_trip c h = rw h
