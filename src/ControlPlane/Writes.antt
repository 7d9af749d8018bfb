-- ===== src/ControlPlane/Writes.antt =====
-- The writes that the controllers and the state API plan, and what they do to the storage.
use galera_k8s_operator.Base.{
  ◌≡◌, ◌≢◌, refl, sym, Bool, true, false, ◌⊎◌, inl, inr, none, some, ◌==◌, eq_iff, if◌then◌else◌,
  arith, assign, lookup-assign, Distinct-assign, All-assign, All-lookup, Option-cases,
}
use galera_k8s_operator.Entities.Agent.{TimeText}
use galera_k8s_operator.Entities.General.{GeneralTargetState}
use galera_k8s_operator.Entities.Node as Node_v1
use galera_k8s_operator.Entities.Cluster as Cluster_v1
use galera_k8s_operator.Storage.{Storage, resource_key, create_resource, update_general_resource}
use galera_k8s_operator.Storage.Keys.{
  NoSlash, resource_key-injective, node_kind-NoSlash, cluster_kind-NoSlash,
}
use galera_k8s_operator.Storage.Laws.{
  stored, create_resource_lem, update_resource_lem, update_absent,
}
use galera_k8s_operator.ControlPlane.Plans.{Write, nothing, create, update, perform}
use galera_k8s_operator.ControlPlane.Members.{IsKnown, IsEntry, IsSane, known-IsSound, known_copied}

-- A resource without a kind and a name is what an update that cannot succeed writes.
abbrev pub IsBlank : GeneralTargetState → Type 0
IsBlank g = (g.kind ≡ "") × (g.name ≡ "")

module _ ⦃rfc : TimeText⦄ where
  abbrev pub IsFine : Write → Type 0
  IsFine nothing = Unit
  IsFine (create g) = IsKnown g
  IsFine (update g) = IsKnown g ⊎ IsBlank g

  known_kind : (g : GeneralTargetState) → IsKnown g → NoSlash g.kind × (g.kind ≢ "")
  known_kind g (inl e) =
      (rw e cluster_kind-NoSlash, rw e (ground (arith, eq_iff Cluster_v1.kind "")))
  known_kind g (inr m) =
      (rw m.kind_same node_kind-NoSlash, rw m.kind_same (ground (arith, eq_iff Node_v1.kind "")))

  -- Nothing stands under the empty kind and name.
  pub blank_absent : (s : Storage) → IsSane s → stored "" "" s ≡ none
  blank_absent s h = elim (Option-cases (stored "" "" s)) [
    | inl e ↦ e
    | inr (v, e) ↦
        let entry = All-lookup IsEntry (resource_key "" "") v s.gr h.entries e in
        let (plain, given) = known_kind v entry.known in
        absurd (given (sym (resource_key-injective "" v.kind "" v.name tt plain entry.keyed).0))
  ]

  assign-IsSane :
      (g : GeneralTargetState) (s : Storage)
      → IsKnown g
      → IsSane s
      → IsSane (record { gr = assign (resource_key g.kind g.name) g s.gr })
  assign-IsSane g s k h = record {
    distinct = Distinct-assign (resource_key g.kind g.name) g s.gr h.distinct;
    entries =
        All-assign IsEntry (resource_key g.kind g.name) g s.gr h.entries
          (record { keyed = refl; known = k });
    first_there =
        rw (lookup-assign (resource_key g.kind g.name) (resource_key Node_v1.kind "node-1") g s.gr)
          (kept (resource_key g.kind g.name == resource_key Node_v1.kind "node-1") h.first_there);
  }
    where
      kept :
          (b : Bool)
          → stored Node_v1.kind "node-1" s ≢ none
          → (if b then some g else stored Node_v1.kind "node-1" s) ≢ none
      kept true f e = cc e
      kept false f e = f e

  create-IsSane :
      (g : GeneralTargetState) (s : Storage) → IsKnown g → IsSane s → IsSane (create_resource g s).1
  create-IsSane g s k h =
      rw (create_resource_lem g s (known-IsSound g k), known_copied g k) (assign-IsSane g s k h)

  update-IsSane :
      (g : GeneralTargetState) (s : Storage)
      → IsKnown g
      → IsSane s
      → IsSane (update_general_resource g s).1
  update-IsSane g s k h = elim (Option-cases (stored g.kind g.name s)) [
    | inl e ↦ rw (update_absent g s e) h
    | inr (old, e) ↦
        rw (update_resource_lem g s (known-IsSound g k) (λ f. cc (f, e)), known_copied g k)
          (assign-IsSane g s k h)
  ]

  -- A planned write keeps the storage sane, whatever happened since it was planned.
  pub perform-IsSane : (w : Write) (s : Storage) → IsFine w → IsSane s → IsSane (perform w s)
  unfolding perform
  perform-IsSane nothing s f h = h
  perform-IsSane (create g) s f h = create-IsSane g s f h
  perform-IsSane (update g) s (inl k) h = update-IsSane g s k h
  perform-IsSane (update g) s (inr (a, b)) h =
      rw (update_absent g s (rw (a, b) (blank_absent s h))) h
