-- ===== src/Controller/Node/Joining.antt =====
-- What the controller of nodes writes for a node that is not ready yet.
use galera_k8s_operator.Base.{
  String, ◌≡◌, ◌≢◌, refl, ◌∙◌, inl, inr, false, List, [], ◌∷◌, map, none, some, true, pos, ◌==◌,
  eq_iff, arith, Result, ok, err, new, Result-cases, Bool-cases, assign, All,
}
use galera_k8s_operator.Json.{Json}
use galera_k8s_operator.Entities.Agent.{TimeText}
use galera_k8s_operator.Entities.AgentJson.{encode_state}
use galera_k8s_operator.Entities.General.{GeneralTargetState, ReconcileResult, status_creating}
use galera_k8s_operator.Entities.Node as Node_v1
use galera_k8s_operator.Entities.Node.{NodeTargetState, Spec, node_resource, spec_object}
use galera_k8s_operator.Entities.Node.RoundTrip.{to_general_lem, to_general-eq-ok}
use galera_k8s_operator.Storage.{
  Storage, resource_key, update_general_resource, get_nodes_by_cluster,
}
use galera_k8s_operator.Storage.Laws.{stored, update_resource_lem, update_absent}
use galera_k8s_operator.Controller.Outcome.{because, failed, unless_failed-storage}
use galera_k8s_operator.Controller.Node.{
  is_ready, as_primary, as_secondary, addresses, write_back, process_new_primary,
  process_new_secondary, process_new_node, finish, reconcile,
}

abbrev pub ip_of : NodeTargetState → String
ip_of n = n.spec.heartbeat.ip_address

abbrev pub HasAddress : NodeTargetState → Type 0
HasAddress n = ip_of n ≢ ""

addresses_lem :
    (nodes : List NodeTargetState) → All HasAddress nodes → addresses nodes ≡ ok (map ip_of nodes)
unfolding addresses
addresses_lem [] h = refl
addresses_lem (n ∷ nodes) h = ground (arith, addresses_lem nodes h.1, eq_iff (ip_of n) "")

addresses_missing :
    (nodes : List NodeTargetState)
    → ¬ All HasAddress nodes
    → addresses nodes ≡ err (new "node has no IP address")
unfolding addresses
addresses_missing [] h = absurd (h tt)
addresses_missing (n ∷ nodes) h = elim (Bool-cases (ip_of n == "")) [
  | inl e ↦ rw e
  | inr e ↦ rw (e, addresses_missing nodes (λ a. h (λ f. cc (e, (eq_iff (ip_of n) "").1 f), a)))
]

-- A node that is being created, has reported, and is not ready.
pub record IsJoining (r : GeneralTargetState) (n : NodeTargetState) ⦃rfc : TimeText⦄ : Type 0 where
  pub decoded : Node_v1.from_general r ≡ ok n
  pub creating : n.spec.status ≡ status_creating
  pub reported : n.spec.heartbeat.timestamp ≢ 0
  pub unready : is_ready n ≡ false

secondary_test : (role : String) → role ≡ "secondary" → (role == "primary") ≡ false
secondary_test role h = rw h

module _ ⦃rfc : TimeText⦄ where
  write_back_lem :
      (n : NodeTargetState) (s : Storage) (j : Json)
      → encode_state n.spec.heartbeat ≡ ok j
      → stored n.kind n.name s ≢ none
      → write_back n s ≡ (
        because "requeued",
        record {
          gr = assign (resource_key n.kind n.name) (node_resource n (spec_object n.spec j)) s.gr;
        },
      )
  unfolding write_back
  write_back_lem n s j e p = rw (
    to_general_lem n j e,
    write_back,
    update_resource_lem (node_resource n (spec_object n.spec j)) s
        (record { spec_IsJson = tt; meta_IsJson = tt }) p,
  )

  pub write_back_missing :
      (n : NodeTargetState) (s : Storage) → stored n.kind n.name s ≡ none → (write_back n s).1 ≡ s
  unfolding write_back
  write_back_missing n s h = elim (Result-cases (Node_v1.to_general n)) [
    | inr (x, e) ↦ rw (e, write_back)
    | inl (g, e) ↦
        let (j, f, same) = to_general-eq-ok n g e in
        rw (e, write_back)
          (unless_failed-storage _ (update_general_resource g s)
            ∙ update_absent g s (rw (← same) h))
  ]

  module _ (r : GeneralTargetState) (n : NodeTargetState) (s : Storage) (h : IsJoining r n) where
    joining_lem :
        (p : ReconcileResult × Storage)
        → process_new_node n s ≡ p
        → p.0.success ≡ false
        → reconcile r s ≡ p
    unfolding reconcile finish
    joining_lem p b c =
        rw (h.decoded, reconcile, (eq_iff n.spec.status status_creating).1 h.creating, b, c)

    process_primary :
        n.spec.agent_target_state.node_role ≡ "primary"
        → process_new_node n s ≡ write_back (as_primary n) s
    unfolding process_new_node process_new_primary
    process_primary a =
        ground (arith, h.reported, h.unready, eq_iff n.spec.agent_target_state.node_role "primary")

    -- A primary that is being created, has reported and is not ready, whose report can be encoded
    -- and whose name is stored, is told to start MariaDB and a new cluster: its target state becomes
    -- that of a primary without tasks, configuration or addresses. Its other fields stay, its status
    -- and its report among them.
    pub reconcile_joining_primary :
        (j : Json)
        → n.spec.agent_target_state.node_role ≡ "primary"
        → encode_state n.spec.heartbeat ≡ ok j
        → stored n.kind n.name s ≢ none
        → let spec : Spec = record n.spec {
          agent_target_state = record {
            gather_hb = true;
            mariadb_started = true;
            galera_new_cluster = true;
            node_role = "primary";
            galera = record { cluster_size = pos 0; incoming_addresses = none };
            tasks = none;
            configuration = none;
          };
        } in
          reconcile r s ≡ (
            because "requeued",
            record {
              gr =
                  assign
                    (resource_key n.kind n.name)
                    (node_resource (record n { spec = spec }) (spec_object spec j))
                    s.gr;
            },
          )
    unfolding as_primary
    reconcile_joining_primary j a e p =
        joining_lem _ (process_primary a ∙ write_back_lem (as_primary n) s j e p) refl

    module _ (nodes : List NodeTargetState) (a : n.spec.agent_target_state.node_role ≡ "secondary")
        (b : get_nodes_by_cluster n.spec.cluster_name s ≡ ok nodes) where
      as_role : process_new_node n s ≡ process_new_secondary n s
      unfolding process_new_node
      as_role = ground (
        arith,
        h.reported,
        secondary_test n.spec.agent_target_state.node_role a,
        eq_iff n.spec.agent_target_state.node_role "secondary",
      )

      process_secondary :
          (ips : Result (List String))
          → addresses nodes ≡ ips
          → process_new_node n s ≡ (elim ips as (λ x. ReconcileResult × Storage) [
            | err e ↦ (failed e, s)
            | ok l ↦ write_back (as_secondary n l) s
          ])
      unfolding process_new_secondary
      process_secondary ips c = as_role ∙ (rw (h.unready, process_new_secondary, b, c))

      -- A secondary that is being created, has reported and is not ready, whose report can be
      -- encoded and whose name is stored, is told to start MariaDB and to join at the addresses of
      -- all nodes of its cluster, in their order, where each of them has one. Nothing else of the
      -- node changes.
      pub reconcile_joining_secondary :
          (j : Json)
          → All HasAddress nodes
          → encode_state n.spec.heartbeat ≡ ok j
          → stored n.kind n.name s ≢ none
          → let t = n.spec.agent_target_state in
            let spec : Spec = record n.spec {
              agent_target_state = record t {
                mariadb_started = true;
                galera_new_cluster = false;
                galera = record t.galera {
                  incoming_addresses = some (map (λ m. m.spec.heartbeat.ip_address) nodes);
                };
              };
            } in
            reconcile r s ≡ (
              because "requeued",
              record {
                gr =
                    assign
                      (resource_key n.kind n.name)
                      (node_resource (record n { spec = spec }) (spec_object spec j))
                      s.gr;
              },
            )
      unfolding as_secondary
      reconcile_joining_secondary j all e p =
          joining_lem _
            (process_secondary _ (addresses_lem nodes all)
              ∙ write_back_lem (as_secondary n (map ip_of nodes)) s j e p)
            refl

      -- For a secondary that is being created, has reported and is not ready, while a node of its
      -- cluster has no address, the reconciliation is an error and the storage stays as it is.
      pub reconcile_missing_address :
          ¬ All HasAddress nodes → reconcile r s ≡ (failed (new "node has no IP address"), s)
      reconcile_missing_address miss =
          joining_lem _ (process_secondary _ (addresses_missing nodes miss)) refl
