-- ===== src/Agent/Galera/Laws.antt =====
-- When the configuration of Galera asks for a restart.
use galera_k8s_operator.Base.{
  String, ◌≡◌, ◌≢◌, refl, sym, Bool, true, false, not, ◌&&◌, inl, inr, none, some, Option, ◌==◌,
  eq_iff, items, ok, arith, Bool-cases, Option-cases,
}
use galera_k8s_operator.Entities.Agent.{TargetState}
use galera_k8s_operator.Agent.Galera.{Env, render, rewrite, configure_with, configure_galera}

rewrite_sound :
    (env : Env) (cfg : String) (conf conf' : Option String) (b : Bool)
    → rewrite env cfg conf ≡ (ok b, conf')
    → conf' ≡ some cfg
unfolding rewrite
rewrite_sound env cfg conf conf' b e = ground arith

module _ (hash : String → String) (hash_text : (t : String) → hash t ≢ "") where
  same_hash :
      (cfg old : String)
      → hash cfg ≡ hash old
      → (not (hash old == "") && hash cfg == hash old) ≡ true
  same_hash cfg old h =
      ground (arith, hash_text old, eq_iff (hash old) "", eq_iff (hash cfg) (hash old))

  -- Where the file has the hash of the text that is wanted, nothing is written.
  pub configure_unchanged :
      (env : Env) (ts : TargetState) (ip old : String)
      → env.current_ip ≡ ok ip
      → env.read_error ≡ none
      → hash (render (items ts.galera.incoming_addresses) ip) ≡ hash old
      → configure_galera hash env ts (some old) ≡ (ok false, some old)
  unfolding configure_galera configure_with
  configure_unchanged env ts ip old a r h = rw (
    a,
    configure_galera,
    r,
    configure_with,
    same_hash (render (items ts.galera.incoming_addresses) ip) old h,
  )

  configure_with_sound :
      (env : Env) (cfg : String) (conf conf' : Option String) (b : Bool)
      → configure_with hash env cfg conf ≡ (ok b, conf')
      → (c : String) × (conf' ≡ some c) × (hash c ≡ hash cfg)
  unfolding configure_with
  configure_with_sound env cfg none conf' b e = (cfg, rewrite_sound env cfg none conf' b e, refl)
  configure_with_sound env cfg (some old) conf' b e = elim (Option-cases env.read_error) [
    | inr (x, f) ↦ absurd (ground arith)
    | inl f ↦ elim (Bool-cases (not (hash old == "") && hash cfg == hash old)) [
      | inl g ↦ (old, ground arith, ground (arith, eq_iff (hash cfg) (hash old)))
      | inr g ↦ (cfg, rewrite_sound env cfg (some old) conf' b (ground arith), refl)
    ]
  ]

  -- After a call without error, at a known address, the file is there and its hash is that of the
  -- text that is wanted.
  pub configure_sound :
      (env : Env) (ts : TargetState) (ip : String) (conf conf' : Option String) (b : Bool)
      → env.current_ip ≡ ok ip
      → configure_galera hash env ts conf ≡ (ok b, conf')
      → (c : String) × (conf' ≡ some c)
        × (hash c ≡ hash (render (items ts.galera.incoming_addresses) ip))
  unfolding configure_galera
  configure_sound env ts ip conf conf' b a e =
      configure_with_sound env (render (items ts.galera.incoming_addresses) ip) conf conf' b
        (rw (a, configure_galera) at e)

  -- Where no text has an empty hash: once a call went without error at a known address, the next one
  -- for the same target state at the same address, with the file readable, asks for no restart and
  -- leaves the file alone.
  pub configure_settles :
      (env env' : Env) (ts : TargetState) (ip : String) (conf conf' : Option String) (b : Bool)
      → env.current_ip ≡ ok ip
      → env'.current_ip ≡ ok ip
      → env'.read_error ≡ none
      → configure_galera hash env ts conf ≡ (ok b, conf')
      → configure_galera hash env' ts conf' ≡ (ok false, conf')
  configure_settles env env' ts ip conf conf' b a a' r e =
      let (c, same, h) = configure_sound env ts ip conf conf' b a e in
      rw same (configure_unchanged env' ts ip c a' r (sym h))
