-- ===== src/ControlPlane/Reports.antt =====
-- The same for the reports of agents.
use galera_k8s_operator.Base.{
  ℕ, String, ◌≡◌, ◌≢◌, refl, ◌∙◌, ap, true, inl, inr, some, ◌==◌, eq_iff, arith, IsInt64, [], ◌∷◌,
  Table, Result, ok, err, ◌>>=◌, >>=-eq-ok, All, All-lookup, Bool-cases, Option-cases, Result-cases,
}
use galera_k8s_operator.Json.{parse}
use galera_k8s_operator.Entities.Agent.{TimeText, State, zero_state}
use galera_k8s_operator.Entities.AgentJson.{decode_state}
use galera_k8s_operator.Entities.AgentJson.Bounds.{decode_state-IsFitState}
use galera_k8s_operator.Entities.General.{GeneralTargetState, zero_general}
use galera_k8s_operator.Entities.Node as Node_v1
use galera_k8s_operator.Entities.Node.{NodeTargetState, zero_node}
use galera_k8s_operator.Entities.Node.RoundTrip.{to_general-eq-ok}
use galera_k8s_operator.Entities.Cluster as Cluster_v1
use galera_k8s_operator.Storage.{Storage, resource_key, get_general_resource}
use galera_k8s_operator.Storage.Keys.{
  resource_key-injective, node_kind-NoSlash, cluster_kind-NoSlash,
}
use galera_k8s_operator.Storage.Laws.{stored}
use galera_k8s_operator.Storage.Laws.Invariant.{IsValid, IsOwn, get_lem}
use galera_k8s_operator.StateApi.{Request, Response, or_report, with_heartbeat, find_node}
use galera_k8s_operator.ControlPlane.Plans.{
  nothing, update, or_zero_general, plan_report, plan_heartbeat,
}
use galera_k8s_operator.ControlPlane.Members.{
  home_resource, IsNode, IsEntry, IsSane, known-IsSound, known_copied,
}
use galera_k8s_operator.ControlPlane.Writes.{IsFine}
use galera_k8s_operator.ControlPlane.Planned.{
  IsFine-if, IsWritable, node_IsWritable, encoded-IsFine,
}

pub kind_named : ◌≢◌ {A = String} Node_v1.kind ""
kind_named = ground (arith, eq_iff Node_v1.kind "")

abbrev pub or_zero_node : Result NodeTargetState → NodeTargetState
or_zero_node (ok n) = n
or_zero_node (err e) = zero_node

reported_value :
    (prefix : String) (w : Response) (r : Result NodeTargetState)
    → (or_report zero_node prefix r w).0 ≡ or_zero_node r
reported_value prefix w (ok n) = refl
reported_value prefix w (err e) = refl

module _ ⦃rfc : TimeText⦄ where
  entries-IsOwn : (gr : Table GeneralTargetState) → All IsEntry gr → All IsOwn gr
  entries-IsOwn [] a = tt
  entries-IsOwn ((k, v) ∷ gr) a = (
    record {
      keyed = a.0.keyed;
      sound = known-IsSound v a.0.known;
      copied = known_copied v a.0.known;
    },
    entries-IsOwn gr a.1,
  )

  -- A sane storage is a valid one.
  pub sane_IsValid : (s : Storage) → IsSane s → IsValid s
  sane_IsValid s h = record { distinct = h.distinct; own = entries-IsOwn s.gr h.entries }

  -- The node that a report is written into is the decoded one, or the zero node.
  pub find_value :
      (found : Result GeneralTargetState)
      → (find_node found).0 ≡ or_zero_node (Node_v1.from_general (or_zero_general found))
  unfolding find_node
  find_value (ok g) = reported_value _ _ (Node_v1.from_general g)
  find_value (err e) = reported_value _ _ (Node_v1.from_general zero_general)

  -- What is stored under the kind of nodes is a node.
  pub stored-IsNode :
      (name : String) (s : Storage) (g : GeneralTargetState)
      → IsSane s
      → stored Node_v1.kind name s ≡ some g
      → IsNode g
  stored-IsNode name s g h e =
      let entry = All-lookup IsEntry (resource_key Node_v1.kind name) g s.gr h.entries e in
      elim entry.known [
        | inr m ↦ m
        | inl f ↦
            let same =
              resource_key-injective Node_v1.kind Cluster_v1.kind name home_resource.name
                node_kind-NoSlash cluster_kind-NoSlash
                (entry.keyed ∙ ap (λ r. resource_key r.kind r.name) f) in
            absurd (kinds_differ same.0)
      ]
    where
      kinds_differ : ◌≢◌ {A = String} Node_v1.kind Cluster_v1.kind
      kinds_differ = ground (arith, eq_iff Node_v1.kind Cluster_v1.kind)

  -- A report that is written into a node.
  report_member :
      (hb : State) (n : NodeTargetState)
      → IsInt64 hb.wsrep_info.wsrep_cluster_size
      → IsWritable n
      → IsFine (update (or_zero_general (Node_v1.to_general (with_heartbeat n hb))))
  report_member hb n i w = encoded-IsFine (with_heartbeat n hb) (record {
    kind_same = w.kind_same;
    fits = record { cluster_size_IsInt64 = w.fits.cluster_size_IsInt64; wsrep_size_IsInt64 = i };
    member = record {
      at_home = w.member.at_home;
      seat = w.member.seat;
      working = w.member.working;
    };
  })

  -- A report without a node is not written anywhere.
  report_blank :
      (hb : State)
      → IsFine (update (or_zero_general (Node_v1.to_general (with_heartbeat zero_node hb))))
  report_blank hb = elim (Result-cases (Node_v1.to_general (with_heartbeat zero_node hb))) [
    | inr (x, e) ↦ rw (e) (inr (refl, refl))
    | inl (g, e) ↦
        let (j, f, same) = to_general-eq-ok (with_heartbeat zero_node hb) g e in
        rw (e, ← same) (inr (refl, refl))
  ]

  zero_decoded : or_zero_node (Node_v1.from_general zero_general) ≡ zero_node
  unfolding Node_v1.from_general
  zero_decoded = refl

  zero_name :
      (name : String) (s : Storage)
      → (name == "") ≡ true
      → or_zero_general (get_general_resource name Node_v1.kind s) ≡ zero_general
  unfolding get_general_resource
  zero_name name s e = rw (e, get_general_resource)

  pub plan_report-IsFine :
      (hb : State) (s : Storage)
      → IsInt64 hb.wsrep_info.wsrep_cluster_size
      → IsSane s
      → IsFine (plan_report hb s)
  unfolding plan_report
  plan_report-IsFine hb s i h =
      rw (find_value (get_general_resource hb.name Node_v1.kind s))
        (elim (Bool-cases (hb.name == "")) [
          | inl e ↦ rw (zero_name hb.name s e, zero_decoded) (report_blank hb)
          | inr e ↦
              rw
                (get_lem hb.name Node_v1.kind s (sane_IsValid s h)
                  (ground (arith, eq_iff hb.name "")) kind_named)
                (elim (Option-cases (stored Node_v1.kind hb.name s)) [
                  | inl f ↦ rw (f, zero_decoded) (report_blank hb)
                  | inr (g, f) ↦
                      let m = stored-IsNode hb.name s g h f in
                      rw (f, m.decoded) (report_member hb m.node i (node_IsWritable g m))
                ])
        ])

  pub plan_heartbeat-IsFine :
      (now : ℕ) (req : Request) (s : Storage) → IsSane s → IsFine (plan_heartbeat now req s)
  unfolding plan_heartbeat
  plan_heartbeat-IsFine now req s h =
      IsFine-if (req.method == "POST") _ nothing
        (elim (Result-cases (parse req.body >>= λ j. decode_state j zero_state)) [
          | inr (x, e) ↦ rw (e) tt
          | inl (hb, e) ↦
              let (j, f, d) = >>=-eq-ok (parse req.body) _ e in
              rw (e) (
                plan_report-IsFine (record hb { timestamp = now }) s
                  (decode_state-IsFitState j zero_state hb refl d) h)
        ])
        tt
