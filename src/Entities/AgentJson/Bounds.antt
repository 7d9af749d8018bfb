-- ===== src/Entities/AgentJson/Bounds.antt =====
-- The numbers of an agent's report and of its target state fit in 64 bits once they are decoded.
use galera_k8s_operator.Base.{String, ◌≡◌, ok, IsInt64}
use galera_k8s_operator.Json.{
  Json, decode_int, decode_struct, is_key, decode_string, decode_bool, decode_slice,
}
use galera_k8s_operator.Json.Bounds.{
  ok-keeps, decode_int-IsInt64, map_ok-keeps, if-keeps, decode_struct-keeps,
}
use galera_k8s_operator.Entities.Agent.{
  TimeText, WsrepInfo, State, GaleraTargetState, TargetState, zero_task, zero_device,
}
use galera_k8s_operator.Entities.AgentJson.{
  set_wsrep_info, set_device, set_heartbeat, decode_time, decode_task, decode_map, set_state,
  decode_state, set_galera, set_target_state, decode_target_state,
}

abbrev IsFitInfo : WsrepInfo → Type 0
IsFitInfo w = IsInt64 w.wsrep_cluster_size

abbrev pub IsFitState : State → Type 0
IsFitState s = IsFitInfo s.wsrep_info

abbrev IsFitGalera : GaleraTargetState → Type 0
IsFitGalera g = IsInt64 g.cluster_size

abbrev pub IsFitTarget : TargetState → Type 0
IsFitTarget t = IsFitGalera t.galera

set_wsrep_info-keeps :
    (k : String) (v : Json) (a b : WsrepInfo)
    → IsFitInfo a
    → set_wsrep_info k v a ≡ ok b
    → IsFitInfo b
unfolding set_wsrep_info
set_wsrep_info-keeps k v a b h =
    let P = IsFitInfo in
    if-keeps P (is_key k "WsrepClusterStatus") _ _ b
      (map_ok-keeps P _ (decode_string v a.wsrep_cluster_status) b (λ x y. h))
      (if-keeps P (is_key k "WsrepClusterSize") _ _ b
        (map_ok-keeps P _ (decode_int v a.wsrep_cluster_size) b
          (λ x y. decode_int-IsInt64 v a.wsrep_cluster_size x h y))
        (if-keeps P (is_key k "WsrepIncomingAddresses") _ _ b
          (map_ok-keeps P _ (decode_string v a.wsrep_incoming_addresses) b (λ x y. h))
          (ok-keeps P a b h)))

set_galera-keeps :
    (k : String) (v : Json) (a b : GaleraTargetState)
    → IsFitGalera a
    → set_galera k v a ≡ ok b
    → IsFitGalera b
unfolding set_galera
set_galera-keeps k v a b h =
    let P = IsFitGalera in
    if-keeps P (is_key k "cluster_size") _ _ b
      (map_ok-keeps P _ (decode_int v a.cluster_size) b
        (λ x y. decode_int-IsInt64 v a.cluster_size x h y))
      (if-keeps P (is_key k "incoming_addresses") _ _ b
        (map_ok-keeps P _ (decode_slice (λ j. decode_string j "") v a.incoming_addresses) b
          (λ x y. h))
        (ok-keeps P a b h))

set_target_state-keeps :
    (k : String) (v : Json) (a b : TargetState)
    → IsFitTarget a
    → set_target_state k v a ≡ ok b
    → IsFitTarget b
unfolding set_target_state
set_target_state-keeps k v a b h =
    let P = IsFitTarget in
    if-keeps P (is_key k "gather_hb") _ _ b
      (map_ok-keeps P _ (decode_bool v a.gather_hb) b (λ x y. h))
      (if-keeps P (is_key k "mariadb_started") _ _ b
        (map_ok-keeps P _ (decode_bool v a.mariadb_started) b (λ x y. h))
        (if-keeps P (is_key k "galera_new_cluster") _ _ b
          (map_ok-keeps P _ (decode_bool v a.galera_new_cluster) b (λ x y. h))
          (if-keeps P (is_key k "role") _ _ b
            (map_ok-keeps P _ (decode_string v a.node_role) b (λ x y. h))
            (if-keeps P (is_key k "galera") _ _ b
              (map_ok-keeps P _ (decode_struct set_galera v a.galera) b (λ x y.
                decode_struct-keeps IsFitGalera set_galera set_galera-keeps v a.galera x h y))
              (if-keeps P (is_key k "tasks") _ _ b
                (map_ok-keeps P _ (decode_slice (λ j. decode_task j zero_task) v a.tasks) b
                  (λ x y. h))
                (if-keeps P (is_key k "configuration") _ _ b
                  (map_ok-keeps P _ (decode_map v a.configuration) b (λ x y. h))
                  (ok-keeps P a b h)))))))

-- The cluster size of a decoded target state fits in 64 bits, if that of the variable did.
pub decode_target_state-IsFitTarget :
    (j : Json) (old t : TargetState)
    → IsFitTarget old
    → decode_target_state j old ≡ ok t
    → IsFitTarget t
unfolding decode_target_state
decode_target_state-IsFitTarget =
    decode_struct-keeps IsFitTarget set_target_state set_target_state-keeps

module _ ⦃rfc : TimeText⦄ where
  set_state-keeps :
      (k : String) (v : Json) (a b : State) → IsFitState a → set_state k v a ≡ ok b → IsFitState b
  unfolding set_state
  set_state-keeps k v a b h =
      let P = IsFitState in
      if-keeps P (is_key k "name") _ _ b (map_ok-keeps P _ (decode_string v a.name) b (λ x y. h)) (
        if-keeps P (is_key k "version") _ _ b
          (map_ok-keeps P _ (decode_string v a.version) b (λ x y. h))
          (if-keeps P (is_key k "timestamp") _ _ b
            (map_ok-keeps P _ (decode_time v a.timestamp) b (λ x y. h))
            (if-keeps P (is_key k "ip_address") _ _ b
              (map_ok-keeps P _ (decode_string v a.ip_address) b (λ x y. h))
              (if-keeps P (is_key k "devices") _ _ b
                (map_ok-keeps P _
                  (decode_slice (λ j. decode_struct set_device j zero_device) v a.devices) b
                  (λ x y. h))
                (if-keeps P (is_key k "initialized") _ _ b
                  (map_ok-keeps P _ (decode_bool v a.initialized) b (λ x y. h))
                  (if-keeps P (is_key k "wsrep_info") _ _ b
                    (map_ok-keeps P _ (decode_struct set_wsrep_info v a.wsrep_info) b (λ x y.
                      decode_struct-keeps IsFitInfo set_wsrep_info set_wsrep_info-keeps v
                        a.wsrep_info x h y))
                    (map_ok-keeps P (λ x. record a { heartbeat = x })
                      (set_heartbeat k v a.heartbeat) b (λ x y. h))))))))

  -- The cluster size of a decoded report fits in 64 bits, if that of the variable did.
  pub decode_state-IsFitState :
      (j : Json) (old s : State) → IsFitState old → decode_state j old ≡ ok s → IsFitState s
  unfolding decode_state
  decode_state-IsFitState = decode_struct-keeps IsFitState set_state set_state-keeps
