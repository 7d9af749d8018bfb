-- ===== src/Agent/StateManager/Laws.antt =====
-- What an agent makes of the answers of the state API.
use galera_k8s_operator.Base.{
  ℕ, String, Bool-cases, inl, inr, false, ◌≡◌, ◌≢◌, refl, eqb, none, some, Result, ok, err, arith,
  IsInt64,
}
use galera_k8s_operator.Json.{raw}
use galera_k8s_operator.Entities.Agent.{TimeText, State, TargetState, zero_target_state}
use galera_k8s_operator.Entities.AgentJson.{decode_target_state, encode_target_state}
use galera_k8s_operator.Entities.General.{GeneralTargetState}
use galera_k8s_operator.Entities.Node
use galera_k8s_operator.Entities.Node.{NodeTargetState}
use galera_k8s_operator.Entities.Node.RoundTrip.{omitted_target}
use galera_k8s_operator.Storage.Interface.{ResourceStorage}
use galera_k8s_operator.StateApi.{Request, handle_target_state}
use galera_k8s_operator.StateApi.TargetStates.{handle_target_state_found}
use galera_k8s_operator.Agent.Galera.{Env}
use galera_k8s_operator.Agent.Reconciler.{MariadbManager, World, reconcile}
use galera_k8s_operator.Agent.StateManager.{Answer, get_target_state, received, tick, or_nil}

other_status : (c : ℕ) → c ≢ 200 → eqb c 200 ≡ false
other_status c h = ground arith

decoded_answer :
    (j : _) (ts : TargetState)
    → decode_target_state j zero_target_state ≡ ok ts
    → get_target_state (ok (record { status = 200; body = raw j })) ≡ ok (some ts)
unfolding get_target_state
decoded_answer j ts e = rw e

module _ ⦃rfc : TimeText⦄ (st : ResourceStorage) where
  open st use {S, Valid, view}

  -- An agent that asks with the name of a stored resource that decodes to a node, in a valid storage
  -- and where the cluster size fits 64 bits, gets the target state that is stored, but that empty
  -- tasks or an empty configuration are nil.
  pub get_target_state_stored :
      (req : Request) (s : S) (gen : GeneralTargetState) (node : NodeTargetState)
      → Valid s
      → req.method ≡ "GET"
      → req.query_name ≢ ""
      → view Node.kind req.query_name s ≡ some gen
      → gen.name ≡ req.query_name
      → Node.from_general gen ≡ ok node
      → IsInt64 node.spec.agent_target_state.galera.cluster_size
      → get_target_state (ok (received (handle_target_state st req s)))
        ≡ ok (some (omitted_target node.spec.agent_target_state))
  unfolding received
  get_target_state_stored req s gen node v m n found own decoded fits =
      let (answer, back) =
        handle_target_state_found st req s v m n gen node found own decoded fits in
      rw answer (decoded_answer (encode_target_state node.spec.agent_target_state) _ back)

nothing_decoded :
    (answer : Result Answer)
    → ((a : Answer) → answer ≡ ok a → a.status ≢ 200)
    → or_nil (get_target_state answer) ≡ none
unfolding get_target_state
nothing_decoded (err e) h = refl
nothing_decoded (ok a) h =
    let other = other_status a.status (h a refl) in
    elim (Bool-cases (eqb a.status 204)) [
      | inl e ↦ rw (e, get_target_state)
      | inr e ↦ rw (e, other, get_target_state)
    ]

module _ (hash : String → String) (mdb : MariadbManager) where
  open mdb use {M}

  -- An answer with another status than 200, and a call without an answer, change nothing on the
  -- host.
  pub tick_refused :
      (env : Env) (answer : Result Answer) (collected : Result State) (w : World M)
      → ((a : Answer) → answer ≡ ok a → a.status ≢ 200)
      → tick hash mdb env answer collected w ≡ w
  unfolding tick reconcile
  tick_refused env answer collected w h = rw (nothing_decoded answer h, tick)
