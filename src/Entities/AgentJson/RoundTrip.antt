-- ===== src/Entities/AgentJson/RoundTrip.antt =====
-- The JSON of the entities of an agent, encoded and decoded.
use galera_k8s_operator.Base.{
  ℕ, Option-cases, inl, inr, >>=-eq-ok, String, ◌≡◌, refl, Slice, [], ◌∷◌, some, none, List, ok,
  IsInt64, arith,
}
use galera_k8s_operator.Json.{
  Json, str, obj, encode_slice, decode_slice, decode_struct, decode_string, decode_bool, decode_int,
  is_key,
}
use galera_k8s_operator.Json.RoundTrip.{decode_slice-encode_slice}
use galera_k8s_operator.Entities.Agent.{
  TimeText, Device, State, TargetState, GaleraTargetState, GeneralTask, WsrepInfo, zero_device,
  zero_state, zero_task, zero_galera, zero_target_state, zero_wsrep_info,
}
use galera_k8s_operator.Entities.AgentJson.{
  state_object, to_object, entries, decode_map, encode_device, set_device, encode_state,
  decode_state, encode_target_state, decode_target_state, set_galera, encode_galera, set_wsrep_info,
  encode_wsrep_info, encode_time, decode_time, encode_task, decode_task,
}

device : (d : Device) → decode_struct set_device (encode_device d) zero_device ≡ ok d
unfolding decode_struct set_device decode_string is_key
device d = refl

task : (t : GeneralTask) → decode_task (encode_task t) zero_task ≡ ok t
unfolding decode_struct decode_task encode_task decode_string is_key
task t = refl

devices :
    (s old : Slice Device)
    → decode_slice (λ j. decode_struct set_device j zero_device) (encode_slice encode_device s) old
      ≡ ok s
devices s old =
    decode_slice-encode_slice encode_device (λ j. decode_struct set_device j zero_device) s old
      device

wsrep_info :
    (w old : WsrepInfo)
    → IsInt64 w.wsrep_cluster_size
    → decode_struct set_wsrep_info (encode_wsrep_info w) old ≡ ok w
unfolding decode_struct set_wsrep_info decode_string is_key decode_int
wsrep_info w old h = rw h

addresses :
    (s old : Slice String) → decode_slice (λ j. decode_string j "") (encode_slice str s) old ≡ ok s
unfolding decode_string
addresses s old = decode_slice-encode_slice str (λ j. decode_string j "") s old (λ a. refl)

galera :
    (g old : GaleraTargetState)
    → IsInt64 g.cluster_size
    → decode_struct set_galera (encode_galera g) old ≡ ok g
unfolding decode_struct set_galera decode_string is_key decode_int
galera g old h = rw (h, addresses g.incoming_addresses old.incoming_addresses)

module _ ⦃rfc : TimeText⦄ where
  time : (t old : ℕ) (j : Json) → encode_time t ≡ ok j → decode_time j old ≡ ok t
  unfolding encode_time decode_time
  time t old j h = elim (Option-cases (rfc.format t)) [
    | inl e ↦ ground arith
    | inr (s, e) ↦ ground (arith, rfc.read_of_format t s e)
  ]

  state_object_lem :
      (s : State) (stamp : Json)
      → IsInt64 s.wsrep_info.wsrep_cluster_size
      → decode_time stamp 0 ≡ ok s.timestamp
      → decode_state (state_object s stamp) zero_state ≡ ok s
  unfolding decode_state decode_string decode_bool is_key decode_struct
  state_object_lem s stamp h e =
      rw (e, devices s.devices none, wsrep_info s.wsrep_info zero_wsrep_info h)

  -- A report that encodes decodes to itself.
  pub decode_state-encode_state :
      (s : State) (j : Json)
      → IsInt64 s.wsrep_info.wsrep_cluster_size
      → encode_state s ≡ ok j
      → decode_state j zero_state ≡ ok s
  unfolding encode_state
  decode_state-encode_state s j h e =
      let (stamp, t, f) =
        >>=-eq-ok (encode_time s.timestamp) (λ stamp. ok (state_object s stamp)) e in
      ground (arith, f, state_object_lem s stamp h (time s.timestamp 0 stamp t))

entries-to_object : (l : List (String × String)) → entries (to_object l) ≡ ok l
unfolding entries to_object decode_string
entries-to_object [] = refl
entries-to_object ((k, v) ∷ l) = rw (entries-to_object l)

configuration_lem : (l : List (String × String)) → decode_map (obj (to_object l)) none ≡ ok (some l)
unfolding decode_map
configuration_lem l = rw (entries-to_object l)

tasks_lem :
    (l : List GeneralTask)
    → decode_slice (λ j. decode_task j zero_task) (encode_slice encode_task (some l)) none
      ≡ ok (some l)
tasks_lem l =
    decode_slice-encode_slice encode_task (λ j. decode_task j zero_task) (some l) none task

-- An empty slice with `omitempty` is read back as nil.
abbrev pub omitted {ℓ} : {A : Type ℓ} → Slice A → Slice A
omitted none = none
omitted (some []) = none
omitted (some (x ∷ l)) = some (x ∷ l)

module _ (t : TargetState) (h : IsInt64 t.galera.cluster_size) where
  Back : Slice GeneralTask → Slice (String × String) → Type 0
  Back ts c =
      decode_target_state (encode_target_state (record t { tasks = ts; configuration = c }))
        zero_target_state
      ≡ ok (record t { tasks = omitted ts; configuration = omitted c })

  Back-holds : (ts : Slice GeneralTask) (c : Slice (String × String)) → Back ts c
  unfolding Back encode_target_state decode_target_state decode_string decode_bool is_key
      decode_struct
  Back-holds none none = rw (galera t.galera zero_galera h)
  Back-holds none (some []) = rw (galera t.galera zero_galera h)
  Back-holds none (some (x ∷ l)) = rw (galera t.galera zero_galera h, configuration_lem (x ∷ l))
  Back-holds (some []) none = rw (galera t.galera zero_galera h)
  Back-holds (some []) (some []) = rw (galera t.galera zero_galera h)
  Back-holds (some []) (some (x ∷ l)) =
      rw (galera t.galera zero_galera h, configuration_lem (x ∷ l))
  Back-holds (some (y ∷ m)) none = rw (galera t.galera zero_galera h, tasks_lem (y ∷ m))
  Back-holds (some (y ∷ m)) (some []) = rw (galera t.galera zero_galera h, tasks_lem (y ∷ m))
  Back-holds (some (y ∷ m)) (some (x ∷ l)) =
      rw (galera t.galera zero_galera h, tasks_lem (y ∷ m), configuration_lem (x ∷ l))

  -- A target state that is encoded and decoded is the same, but that an empty list of tasks or an
  -- empty configuration comes back nil.
  pub decode_target_state-encode_target_state :
      decode_target_state (encode_target_state t) zero_target_state
      ≡ ok (record t { tasks = omitted t.tasks; configuration = omitted t.configuration })
  unfolding Back
  decode_target_state-encode_target_state = Back-holds t.tasks t.configuration
