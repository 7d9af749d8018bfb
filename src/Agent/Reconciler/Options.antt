-- ===== src/Agent/Reconciler/Options.antt =====
-- internal/agent/target-state-handler/handler.go: the options and New. The logger, the manager of
-- MariaDB and the collector are of types that are not looked into.
use galera_k8s_operator.Base.{List, Option, none, some, apply_options}

pub record ReconcilerOpts (L M B : Type 0) : Type 0 where
  pub l : Option L
  pub manager : Option M
  pub hb : Option B

pub record Reconciler (L M B : Type 0) : Type 0 where
  pub l : Option L
  pub manager : Option M
  pub hb : Option B

module _ {L M B : Type 0} where
  unfoldable pub with_logger : L → ReconcilerOpts L M B → ReconcilerOpts L M B
  with_logger logger r = record r { l = some logger }

  unfoldable pub with_manager : M → ReconcilerOpts L M B → ReconcilerOpts L M B
  with_manager m r = record r { manager = some m }

  unfoldable pub with_hb : B → ReconcilerOpts L M B → ReconcilerOpts L M B
  with_hb hb r = record r { hb = some hb }

  -- New
  unfoldable pub new_reconciler :
      List (ReconcilerOpts L M B → ReconcilerOpts L M B) → Reconciler L M B
  unfolding apply_options
  new_reconciler opts =
      let params = apply_options opts (record { l = none; manager = none; hb = none }) in
      record { l = params.l; manager = params.manager; hb = params.hb }
