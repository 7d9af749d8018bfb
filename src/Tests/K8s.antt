-- ===== src/Tests/K8s.antt =====
-- The controller fed from Kubernetes at a concrete list.
use galera_k8s_operator.Base.{◌≡◌, refl, List, [], ◌∷◌, Result, ok, pos}
use galera_k8s_operator.Json.{Json, object}
use galera_k8s_operator.Entities.General.{GeneralTargetState}
use galera_k8s_operator.Entities.Cluster.{GaleraCluster}
use galera_k8s_operator.Controller.K8s.{get_resources, get_resources_empty}

-- A decoder that reads every object as one cluster.
abbrev one_cluster : Json → Result GaleraCluster
one_cluster j = ok (record {
  api_version = "operator.vlourd/betav1";
  kind = "GaleraCluster";
  name = "db";
  spec = record { replicas = pos 3; image = "mariadb"; status = pos 0 };
  status = pos 0;
})

listed : get_resources one_cluster (ok (ok (object []) ∷ [])) ≡ ok []
unfolding get_resources
listed = refl

get_resources_empty_example : ◌≡◌ {A = List GeneralTargetState} [] []
get_resources_empty_example = get_resources_empty one_cluster (ok (ok (object []) ∷ [])) [] listed
