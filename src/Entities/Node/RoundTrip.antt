-- ===== src/Entities/Node/RoundTrip.antt =====
-- A node stored and read back.
use galera_k8s_operator.Base.{
  Result-cases, inl, inr, ◌≡◌, ok, IsInt64, ◌>>=◌, >>=-eq-ok, or_wrap, arith,
}
use galera_k8s_operator.Json.{Json, parse}
use galera_k8s_operator.Entities.Agent.{TimeText, TargetState}
use galera_k8s_operator.Entities.AgentJson.{encode_state}
use galera_k8s_operator.Entities.AgentJson.RoundTrip.{
  omitted, decode_state-encode_state, decode_target_state-encode_target_state,
}
use galera_k8s_operator.Entities.General.{GeneralTargetState}
use galera_k8s_operator.Entities.Node.{
  decode_meta, node_resource, Spec, NodeTargetState, version, kind, zero_spec, spec_object,
  encode_spec, decode_spec, to_general, from_general,
}

-- The numbers of a node that Go holds in an `int`.
pub record IsInt64Node (s : Spec) : Type 0 where
  pub cluster_size_IsInt64 : IsInt64 s.agent_target_state.galera.cluster_size
  pub wsrep_size_IsInt64 : IsInt64 s.heartbeat.wsrep_info.wsrep_cluster_size

-- What comes back of a target state and of a spec.
abbrev pub omitted_target : TargetState → TargetState
omitted_target t = record t { tasks = omitted t.tasks; configuration = omitted t.configuration }

abbrev pub omitted_spec : Spec → Spec
omitted_spec s = record s { agent_target_state = omitted_target s.agent_target_state }

module _ ⦃rfc : TimeText⦄ where
  spec_object_lem :
      (s : Spec) (j : Json)
      → IsInt64Node s
      → encode_state s.heartbeat ≡ ok j
      → decode_spec (spec_object s j) zero_spec ≡ ok (omitted_spec s)
  unfolding decode_spec
  spec_object_lem s j h e = rw (
    decode_target_state-encode_target_state s.agent_target_state h.cluster_size_IsInt64,
    decode_state-encode_state s.heartbeat j h.wsrep_size_IsInt64 e,
  )

  -- A node is made a resource exactly when its heartbeat encodes.
  pub to_general-eq-ok :
      (n : NodeTargetState) (g : GeneralTargetState)
      → to_general n ≡ ok g
      → (j : Json) × (encode_state n.spec.heartbeat ≡ ok j)
        × (node_resource n (spec_object n.spec j) ≡ g)
  unfolding to_general encode_spec
  to_general-eq-ok n g e = elim (Result-cases (encode_state n.spec.heartbeat)) [
    | inl (j, f) ↦ (j, f, ground arith)
    | inr (x, f) ↦ cc (rw (f, to_general) at e)
  ]

  pub to_general_lem :
      (n : NodeTargetState) (j : Json)
      → encode_state n.spec.heartbeat ≡ ok j
      → to_general n ≡ ok (node_resource n (spec_object n.spec j))
  unfolding to_general encode_spec
  to_general_lem n j e = rw (e, to_general)

  pub from_general-node_resource :
      (n : NodeTargetState) (j : Json)
      → IsInt64Node n.spec
      → encode_state n.spec.heartbeat ≡ ok j
      → from_general (node_resource n (spec_object n.spec j))
        ≡ ok (record n { version = version; kind = kind; spec = omitted_spec n.spec })
  unfolding from_general
  from_general-node_resource n j h e = rw (spec_object_lem n.spec j h e)

  -- A node whose numbers fit 64 bits, that is made a resource and read back, is the same, but
  -- that its version and kind are the constants and that an empty list of tasks or an empty
  -- configuration comes back nil.
  pub from_general-to_general :
      (n : NodeTargetState) (g : GeneralTargetState)
      → IsInt64Node n.spec
      → to_general n ≡ ok g
      → from_general g
        ≡ ok (record n { version = version; kind = kind; spec = omitted_spec n.spec })
  from_general-to_general n g h e =
      let (j, f, same) = to_general-eq-ok n g e in rw (← same) (from_general-node_resource n j h f)

  -- What is read from a resource has its name, and the kind of nodes.
  pub from_general_names :
      (g : GeneralTargetState) (n : NodeTargetState)
      → from_general g ≡ ok n
      → (n.name ≡ g.name) × (n.kind ≡ kind)
  unfolding from_general
  from_general_names g n e =
      let (spec, a, rest) =
        >>=-eq-ok
          (or_wrap "failed to unmarshal spec" (parse g.spec >>= λ j. decode_spec j zero_spec)) _
          e in
      let (u, b, made) =
        >>=-eq-ok (or_wrap "failed to unmarshal meta" (parse g.meta >>= decode_meta)) _ rest in
      (ground arith, ground arith)
