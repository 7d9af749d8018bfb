-- ===== src/ControlPlane/Growth.antt =====
-- No goroutine of cmd/controller-manager/main.go removes what is stored.
use galera_k8s_operator.Base.{
  ◌≤◌, String, ◌≡◌, ◌≢◌, true, false, Bool, List, none, some, ok, inl, inr, length, if◌then◌else◌,
  ◌==◌, arith, Table, lookup, assign, lookup-assign, Option-cases, Result-cases,
}
use galera_k8s_operator.Entities.Agent.{TimeText}
use galera_k8s_operator.Entities.General.{GeneralTargetState, copy}
use galera_k8s_operator.Entities.Node.{NodeTargetState}
use galera_k8s_operator.Storage.{
  Storage, initial_cluster, resource_key, create_resource, update_general_resource,
  get_nodes_by_cluster,
}
use galera_k8s_operator.ControlPlane.Plans.{Write, nothing, create, update, perform}
use galera_k8s_operator.ControlPlane.Census.{node_key, present, census}
use galera_k8s_operator.ControlPlane.System.{
  System, Step, list_clusters, list_nodes, read_cluster, read_node, read_report, write, Reach,
  later,
}
use galera_k8s_operator.ControlPlane.Safety.{Reach-IsSound}

pub assign-keeps :
    (k j : String) (v : GeneralTargetState) (gr : Table GeneralTargetState)
    → lookup j gr ≢ none
    → lookup j (assign k v gr) ≢ none
assign-keeps k j v gr h = rw (lookup-assign k j v gr) (kept (k == j))
  where
    kept : (b : Bool) → (if b then some v else lookup j gr) ≢ none
    kept true e = cc e
    kept false e = h e

create-keeps :
    (g : GeneralTargetState) (s : Storage) (j : String)
    → lookup j s.gr ≢ none
    → lookup j (create_resource g s).1.gr ≢ none
unfolding create_resource
create-keeps g s j h = elim (Result-cases (copy g)) [
  | inr (x, e) ↦ rw (e, create_resource) h
  | inl (c, e) ↦ rw (e, create_resource) (assign-keeps (resource_key g.kind g.name) j c s.gr h)
]

update-keeps :
    (g : GeneralTargetState) (s : Storage) (j : String)
    → lookup j s.gr ≢ none
    → lookup j (update_general_resource g s).1.gr ≢ none
unfolding update_general_resource
update-keeps g s j h = elim (Result-cases (copy g)) [
  | inr (x, e) ↦ rw (e, update_general_resource) h
  | inl (c, e) ↦ elim (Option-cases (lookup (resource_key g.kind g.name) s.gr)) [
    | inl f ↦ rw (e, f, update_general_resource) h
    | inr (old, f) ↦
        rw (e, f, update_general_resource) (assign-keeps (resource_key g.kind g.name) j c s.gr h)
  ]
]

-- A write keeps every key.
pub perform-keeps :
    (w : Write) (s : Storage) (j : String) → lookup j s.gr ≢ none → lookup j (perform w s).gr ≢ none
unfolding perform
perform-keeps nothing s j h = h
perform-keeps (create g) s j h = create-keeps g s j h
perform-keeps (update g) s j h = update-keeps g s j h

present-grows :
    (k : String) (a b : Table GeneralTargetState)
    → (lookup k a ≢ none → lookup k b ≢ none)
    → present k a ≤ present k b
present-grows k a b h = elim (Option-cases (lookup k a)) [
  | inl e ↦ rw (e, present) (omega arith)
  | inr (v, e) ↦ elim (Option-cases (lookup k b)) [
    | inl f ↦ absurd (h (λ n. cc (n, e)) f)
    | inr (w, f) ↦ rw (e, f, present) (omega arith)
  ]
]

module _ ⦃rfc : TimeText⦄ where
  -- From a state to one that follows it
  pub data Leads (s : System) : System → Type 0 where
    here : Leads s s
    on : {t u : System} → Leads s t → Step t u → Leads s u

  pub Step-keeps :
      (s t : System) (j : String)
      → Step s t
      → lookup j s.storage.gr ≢ none
      → lookup j t.storage.gr ≢ none
  Step-keeps s t j (list_clusters l e) h = h
  Step-keeps s t j (list_nodes l e) h = h
  Step-keeps s t j (read_cluster a b r e) h = h
  Step-keeps s t j (read_node a b r e) h = h
  Step-keeps s t j (read_report now req) h = h
  Step-keeps s t j (write a b w e) h = perform-keeps w s.storage j h

  pub Leads-keeps :
      (s t : System) (j : String)
      → Leads s t
      → lookup j s.storage.gr ≢ none
      → lookup j t.storage.gr ≢ none
  Leads-keeps s t j here h = h
  Leads-keeps s u j (on {t} l x) h = Step-keeps t u j x (Leads-keeps s t j l h)

  pub Leads-Reach : (s t : System) → Leads s t → Reach s → Reach t
  Leads-Reach s t here r = r
  Leads-Reach s u (on {t} l x) r = later (Leads-Reach s t l r) x

  pub Leads-trans : (s t u : System) → Leads s t → Leads t u → Leads s u
  Leads-trans s t u a here = a
  Leads-trans s t u a (on {t = m} b x) = on (Leads-trans s t m a b) x

  -- Whatever the goroutines do from a state on that was reached from NewStorage, the cluster never
  -- has fewer nodes than it had.
  pub nodes_grow :
      (s t : System)
      → Reach s
      → Leads s t
      → (before after : List NodeTargetState) × (get_nodes_by_cluster initial_cluster.name s.storage
          ≡ ok before)
        × (get_nodes_by_cluster initial_cluster.name t.storage ≡ ok after)
        × (length before ≤ length after)
  unfolding get_nodes_by_cluster
  nodes_grow s t r l =
      let a = (Reach-IsSound s r).sane in
      let b = (Reach-IsSound t (Leads-Reach s t l r)).sane in
      let c = census s.storage.gr a.distinct a.entries in
      let d = census t.storage.gr b.distinct b.entries in
      let grows = λ (name : String).
        present-grows (node_key name) s.storage.gr t.storage.gr
          (Leads-keeps s t (node_key name) l) in
      (
        c.nodes,
        d.nodes,
        c.read,
        d.read,
        omega (arith, c.counted, d.counted, grows "node-1", grows "node-2", grows "node-3"),
      )
