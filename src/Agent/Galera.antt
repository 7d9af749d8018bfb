-- ===== src/Agent/Galera.antt =====
-- configureGalera of internal/agent/target-state-handler/bootstrap_new_cluster.go: the file that
-- tells Galera its cluster. internal/agent/tasks/bootstrap/task.go has the same code over a payload.
pub mod Laws
use Prim.Native.String
use galera_k8s_operator.Base.{
  String, Bool, true, false, ◌&&◌, not, List, [], ◌∷◌, Option, none, some, ◌==◌, if◌then◌else◌,
  items, Error, wrap, Result, ok, err, replace_all, join,
}
use galera_k8s_operator.Entities.Agent.{TargetState}

-- The template galeraConf.
abbrev pub galera_conf : String
galera_conf =
    "\n[mysqld]\nwsrep_on                 = 1\nwsrep_provider = /usr/lib/galera/libgalera_smm.so\nbinlog_format            = row\ndefault_storage_engine   = InnoDB\ninnodb_autoinc_lock_mode = 2\nwsrep_cluster_address = \"gcomm://<node_hostnames>\"\nwsrep_cluster_name    = \"galera-cluster\"\nwsrep_node_name       = \"<node_name>\"\nwsrep_node_address    = \"<node_hostname>\"\n\nwsrep_sst_method=rsync\nwsrep_sst_auth=root:\n"

-- What the system answers during one call: the address of the host, whether the file can be read
-- and written (a write that fails leaves some content), and whether the flag file can be touched.
pub record Env : Type 0 where
  pub current_ip : Result String
  pub read_error : Option Error
  pub write_error : Option (Error × Option String)
  pub touch_error : Option Error

-- The text of the file for a list of other nodes and the host's own address.
unfoldable pub render : List String → String → String
unfolding replace_all join
render addresses ip =
    let hostnames = String.◌++◌ (join addresses ",") (String.◌++◌ "," ip) in
    let cfg = replace_all galera_conf "<node_hostnames>" hostnames in
    let cfg' = replace_all cfg "<node_name>" ip in replace_all cfg' "<node_hostname>" ip

-- os.WriteFile at the end of configureGalera
unfoldable pub rewrite : Env → String → Option String → Result Bool × Option String
rewrite env cfg conf = elim env.write_error [
  | some (e, left) ↦ (err (wrap "failed to rewrite galera configuration" e), left)
  | none ↦ (ok true, some cfg)
]

-- `hash` is the hexadecimal SHA-256 of a text; `conf` is the file, `none` if there is none.
module _ (hash : String → String) where
  unfoldable pub configure_with : Env → String → Option String → Result Bool × Option String
  configure_with env cfg none = rewrite env cfg none
  configure_with env cfg (some old) = elim env.read_error [
    | some e ↦ (err (wrap "failed to read galera config" e), some old)
    | none ↦
        if not (hash old == "") && hash cfg == hash old
        then (ok false, some old)
        else rewrite env cfg (some old)
  ]

  unfoldable pub configure_galera : Env → TargetState → Option String → Result Bool × Option String
  configure_galera env ts conf = elim env.current_ip [
    | err e ↦ (err (wrap "failed to get current ip" e), conf)
    | ok ip ↦ configure_with env (render (items ts.galera.incoming_addresses) ip) conf
  ]
