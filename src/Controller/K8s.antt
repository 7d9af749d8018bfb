-- ===== src/Controller/K8s.antt =====
-- internal/k8s-controller/cluster: the controller of clusters that is fed from Kubernetes. Its
-- processNewCluster and Reconcile are those of internal/controller/cluster, word for word.
use galera_k8s_operator.Base.{◌≡◌, List, [], ◌∷◌, Result, ok, ◌>>=◌, >>=-eq-ok, or_wrap}
use galera_k8s_operator.Json.{Json}
use galera_k8s_operator.Entities.Agent.{TimeText}
use galera_k8s_operator.Entities.General.{GeneralTargetState, ReconcileResult}
use galera_k8s_operator.Entities.Cluster.{ClusterTargetState, GaleraCluster}
use galera_k8s_operator.Storage.{Storage}
use galera_k8s_operator.Controller.Cluster

-- `decode` is json.Unmarshal into a GaleraCluster, whose metadata are of the package metav1.
module _ (decode : Json → Result GaleraCluster) where
  -- The loop over the items, each with what MarshalJSON returns for it. Nothing is appended.
  unfoldable pub read_items :
      List (Result Json) → List GeneralTargetState → Result (List GeneralTargetState)
  read_items [] resources = ok resources
  read_items (item ∷ items) resources = do
    cont ← or_wrap "failed to marshal k8s resource to JSON" item
    or_wrap "failed to unmarshal k8s resource to GaleraCluster" (decode cont) >>= λ _.
        read_items items resources

  -- GetResources, from what the list call of the client returns
  unfoldable pub get_resources : Result (List (Result Json)) → Result (List GeneralTargetState)
  unfolding read_items
  get_resources answer = do
    items ← or_wrap "failed to list k8s resources" answer
    read_items items []

  read_items_same :
      (items : List (Result Json)) (resources l : List GeneralTargetState)
      → read_items items resources ≡ ok l
      → ◌≡◌ {A = Result (List GeneralTargetState)} (ok resources) (ok l)
  unfolding read_items
  read_items_same [] resources l e = e
  read_items_same (item ∷ items) resources l e =
      let (cont, a, rest) = >>=-eq-ok (or_wrap "failed to marshal k8s resource to JSON" item) _ e in
      let (c, b, more) =
        >>=-eq-ok (or_wrap "failed to unmarshal k8s resource to GaleraCluster" (decode cont)) _
          rest in
      read_items_same items resources l more

  -- Whatever Kubernetes lists, no resource comes of it: a list that is returned is empty.
  pub get_resources_empty :
      (answer : Result (List (Result Json))) (l : List GeneralTargetState)
      → get_resources answer ≡ ok l
      → l ≡ []
  unfolding get_resources
  get_resources_empty answer l e =
      let (items, a, rest) = >>=-eq-ok (or_wrap "failed to list k8s resources" answer) _ e in
      let same = read_items_same items [] l rest in cc same

module _ ⦃rfc : TimeText⦄ where
  abbrev pub process_new_cluster : ClusterTargetState → Storage → ReconcileResult × Storage
  process_new_cluster = Cluster.process_new_cluster

  abbrev pub reconcile : GeneralTargetState → Storage → ReconcileResult × Storage
  reconcile = Cluster.reconcile
