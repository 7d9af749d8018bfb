-- ===== src/Entities/Node/Bounds.antt =====
-- The numbers of a node that is read from a resource.
use galera_k8s_operator.Base.{String, ◌≡◌, refl, ok, or_wrap, ◌>>=◌, >>=-eq-ok, Result, err}
use galera_k8s_operator.Json.{Json, is_key, decode_string, parse}
use galera_k8s_operator.Json.Bounds.{
  ok-injective, ok-keeps, map_ok-keeps, if-keeps, decode_struct-keeps,
}
use galera_k8s_operator.Entities.Agent.{TimeText}
use galera_k8s_operator.Entities.AgentJson.{decode_state, decode_target_state}
use galera_k8s_operator.Entities.AgentJson.Bounds.{
  decode_state-IsFitState, decode_target_state-IsFitTarget,
}
use galera_k8s_operator.Entities.General.{GeneralTargetState}
use galera_k8s_operator.Entities.Node.{
  Spec, NodeTargetState, zero_spec, set_spec, decode_spec, decode_meta, from_general,
}
use galera_k8s_operator.Entities.Node.RoundTrip.{IsInt64Node}

or_wrap-ok : {A : Type 0} (text : String) (r : Result A) {a : A} → or_wrap text r ≡ ok a → r ≡ ok a
or_wrap-ok text (ok b) e = e
or_wrap-ok text (err x) e = cc e

zero_spec-IsInt64Node : IsInt64Node zero_spec
zero_spec-IsInt64Node = record { cluster_size_IsInt64 = refl; wsrep_size_IsInt64 = refl }

module _ ⦃rfc : TimeText⦄ where
  set_spec-keeps :
      (k : String) (v : Json) (a b : Spec) → IsInt64Node a → set_spec k v a ≡ ok b → IsInt64Node b
  unfolding set_spec
  set_spec-keeps k v a b h =
      let P = IsInt64Node in
      if-keeps P (is_key k "cluster_name") _ _ b
        (map_ok-keeps P _ (decode_string v a.cluster_name) b (λ x y. record {
          cluster_size_IsInt64 = h.cluster_size_IsInt64;
          wsrep_size_IsInt64 = h.wsrep_size_IsInt64;
        }))
        (if-keeps P (is_key k "image") _ _ b
          (map_ok-keeps P _ (decode_string v a.image) b (λ x y. record {
            cluster_size_IsInt64 = h.cluster_size_IsInt64;
            wsrep_size_IsInt64 = h.wsrep_size_IsInt64;
          }))
          (if-keeps P (is_key k "status") _ _ b
            (map_ok-keeps P _ (decode_string v a.status) b (λ x y. record {
              cluster_size_IsInt64 = h.cluster_size_IsInt64;
              wsrep_size_IsInt64 = h.wsrep_size_IsInt64;
            }))
            (if-keeps P (is_key k "agent_target_state") _ _ b
              (map_ok-keeps P _ (decode_target_state v a.agent_target_state) b (λ x y. record {
                cluster_size_IsInt64 =
                    decode_target_state-IsFitTarget v a.agent_target_state x h.cluster_size_IsInt64
                      y;
                wsrep_size_IsInt64 = h.wsrep_size_IsInt64;
              }))
              (if-keeps P (is_key k "heartbeat") _ _ b
                (map_ok-keeps P _ (decode_state v a.heartbeat) b (λ x y. record {
                  cluster_size_IsInt64 = h.cluster_size_IsInt64;
                  wsrep_size_IsInt64 =
                      decode_state-IsFitState v a.heartbeat x h.wsrep_size_IsInt64 y;
                }))
                (ok-keeps P a b h)))))

  decode_spec-IsInt64Node : (j : Json) (s : Spec) → decode_spec j zero_spec ≡ ok s → IsInt64Node s
  unfolding decode_spec
  decode_spec-IsInt64Node j s =
      decode_struct-keeps IsInt64Node set_spec set_spec-keeps j zero_spec s zero_spec-IsInt64Node

  -- The numbers of a node that is read from a resource fit in 64 bits, whatever the resource holds.
  pub from_general-IsInt64Node :
      (g : GeneralTargetState) (n : NodeTargetState) → from_general g ≡ ok n → IsInt64Node n.spec
  unfolding from_general
  from_general-IsInt64Node g n e =
      let (s, a, rest) =
        >>=-eq-ok
          (or_wrap "failed to unmarshal spec" (parse g.spec >>= λ j. decode_spec j zero_spec)) _
          e in
      let (u, b, made) =
        >>=-eq-ok (or_wrap "failed to unmarshal meta" (parse g.meta >>= decode_meta)) _ rest in
      let (j, c, d) =
        >>=-eq-ok (parse g.spec) _ (
          or_wrap-ok "failed to unmarshal spec" (parse g.spec >>= λ j. decode_spec j zero_spec)
            a) in
      rw (← ok-injective made) (decode_spec-IsInt64Node j s d)
