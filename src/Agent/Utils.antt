-- ===== src/Agent/Utils.antt =====
-- internal/agent/utils/utils.go, but Atoi: what it asks of the system, which is a parameter.
use galera_k8s_operator.Base.{
  ℕ, String, Bool, true, false, List, [], ◌∷◌, ◌++◌, if◌then◌else◌, Error, wrap, Result, ok, err,
}

-- The flags that os.OpenFile is called with.
pub data OpenFlag : Type 0 where
  o_rdonly o_create : OpenFlag

-- The calls of os, path/filepath and time on a file system; modes are the numbers that are passed.
pub record FileSystem : Type 1 where
  pub W : Type 0
  pub stat : String → W → Result (Unit {0})
  pub is_not_exist : Error → Bool
  pub dir : String → String
  pub mkdir_all : String → ℕ → W → Result (Unit {0}) × W
  -- OpenFile by path, flags and mode, and the Close after it
  pub open_file : String → List OpenFlag → ℕ → W → Result (Unit {0}) × W
  pub now : W → ℕ
  pub chtimes : String → ℕ → ℕ → W → Result (Unit {0}) × W

module _ (fs : FileSystem) where
  open fs use {W}

  unfoldable pub file_exists : String → W → Bool
  file_exists filename w = elim (fs.stat filename w) [
    | ok u ↦ true
    | err e ↦ if fs.is_not_exist e then false else false
  ]

  -- The time is read once, for both times of the file.
  unfoldable pub update_times : String → W → Result (Unit {0}) × W
  update_times path w =
      let current_time = fs.now w in
      let (r, w') = fs.chtimes path current_time current_time w in
      elim r [ err e ↦ (err (wrap "failed to update timestamps" e), w') | ok u ↦ (ok tt, w') ]

  unfoldable pub create_file : String → W → Result (Unit {0}) × W
  create_file path w =
      let (r, w') = fs.open_file path (o_rdonly ∷ o_create ∷ []) 420 w in
      elim r [ err e ↦ (err (wrap "failed to create file" e), w') | ok u ↦ update_times path w' ]

  -- TouchFile; the modes are 0755 and 0644.
  unfoldable pub touch_file : String → W → Result (Unit {0}) × W
  touch_file path w =
      let (r, w') = fs.mkdir_all (fs.dir path) 493 w in
      elim r [
        | err e ↦ (err (wrap "failed to create directories" e), w')
        | ok u ↦ create_file path w'
      ]

-- GetCurrentIP: `dial` is net.Dial followed by the address of the local end.
unfoldable pub get_current_ip : {A : Type 0} → (String → String → Result A) → Result A
get_current_ip dial = elim (dial "udp" "8.8.8.8:80") [ err e ↦ err e | ok ip ↦ ok ip ]

-- An exec.Cmd: the arguments begin with the name of the program.
pub record Command : Type 0 where
  pub args : List String
  pub env : List String

-- RunMariadb: `environ` is what os.Environ returns, and `run` starts the command and waits for it.
unfoldable pub run_mariadb :
    List String → (Command → Result (Unit {0})) → List String → Result (Unit {0})
run_mariadb environ run args =
    elim (run (record {
      args = ("docker-entrypoint.sh" ∷ []) ++ args;
      env = environ ++ "MYSQL_ROOT_PASSWORD=root" ∷ [];
    })) [ err e ↦ err (wrap "failed to start mariadb" e) | ok u ↦ ok tt ]
