-- ===== src/Agent/Service.antt =====
-- internal/agent/mariadb/service/mariadb.go: the state file of Galera, and the queries of databases
-- and users. What the file system and the driver of the database answer is an argument.
pub mod Texts
pub mod Grastate
use galera_k8s_operator.Base.{
  String, List, [], ◌∷◌, ◌++◌, Option, none, some, ◌==◌, ◌||◌, if◌then◌else◌, Error, new, wrap,
  Result, ok, err, ◌>>=◌,
}
use Prim.Native.String as Text
use galera_k8s_operator.Agent.Service.Texts.{is_comment, trim_space, split_colon}

-- The variables `seqno` and `safeToBootstrap`, which are returned with an error, too.
pub record GraState : Type 0 where
  pub seqno : String
  pub safe_to_bootstrap : String

abbrev pub initial_state : GraState
initial_state = record { seqno = "-1"; safe_to_bootstrap = "0" }

abbrev pub wrapped : String → Option Error → Option Error
wrapped prefix none = none
wrapped prefix (some e) = some (wrap prefix e)

-- The switch on the key
unfoldable pub set_entry : String → String → GraState → GraState
set_entry key value st =
    if key == "seqno"
    then record st { seqno = value }
    else if key == "safe_to_bootstrap"
    then record st { safe_to_bootstrap = value }
    else st

-- A line that is split at its colons
unfoldable pub parse_parts : String → List String → GraState → Result GraState
unfolding set_entry
parse_parts line (key ∷ value ∷ []) st = ok (set_entry (trim_space key) (trim_space value) st)
parse_parts line _ st = err (new (Text.◌++◌ "invalid string format: " line))

-- One line of the file
unfoldable pub parse_line : String → GraState → Result GraState
unfolding parse_parts
parse_line text st =
    let line = trim_space text in
    if is_comment line || line == "" then ok st else parse_parts line (split_colon line) st

-- The loop over the scanner's lines, and the scanner's own error
unfoldable pub parse_lines : List String → Option Error → GraState → GraState × Option Error
unfolding parse_line
parse_lines [] end st = (st, wrapped "failed to scan grastate file" end)
parse_lines (text ∷ lines) end st = elim (parse_line text st) [
  | err e ↦ (st, some e)
  | ok st' ↦ parse_lines lines end st'
]

-- ParseGraState, from what the opened file holds
unfoldable pub parse_gra_state : Result (List String × Option Error) → GraState × Option Error
unfolding parse_lines
parse_gra_state (err e) = (initial_state, some (wrap "failed to open grastate file" e))
parse_gra_state (ok (lines, end)) = parse_lines lines end initial_state

-- What the driver answers to a query: the errors of the connection, the ping, the preparation and
-- the query, the scan of each row, and the error at the end of the rows.
pub data Scan (A : Type 0) : Type 0 where
  scanned : A → Scan A
  no_rows : Scan A
  scan_error : Error → Scan A

pub record Query (A : Type 0) : Type 0 where
  pub open_error : Option Error
  pub ping_error : Option Error
  pub prepare_error : Option Error
  pub query_error : Option Error
  pub rows : List (Scan A)
  pub rows_error : Option Error

-- `if err != nil { return nil, fmt.Errorf(…) }`
unfoldable pub checked : String → Option Error → Result (Unit {0})
checked prefix none = ok tt
checked prefix (some e) = err (wrap prefix e)

unfoldable pub queried : {A : Type 0} → Query A → Result (Unit {0})
queried q = do
  x ← checked "failed to connect to mariadb" q.open_error
  y ← checked "failed to ping mariadb" q.ping_error
  z ← checked "failed to prepare query" q.prepare_error
  checked "failed to query" q.query_error

unfoldable pub scan_databases :
    List (Scan String) → Option Error → List String → Result (List String)
scan_databases [] end names = checked "error rows" end >>= λ x. ok names
scan_databases (scanned name ∷ rows) end names = scan_databases rows end (names ++ name ∷ [])
scan_databases (no_rows ∷ rows) end names = ok names
scan_databases (scan_error e ∷ rows) end names = err (wrap "failed to scan databases" e)

-- Databases
unfoldable pub databases : Query String → Result (List String)
unfolding queried scan_databases
databases q = queried q >>= λ x. scan_databases q.rows q.rows_error []

pub record User : Type 0 where
  pub username : String
  pub password : String
  pub host : String

-- The error of database/sql's ErrNoRows is an error like any other here.
unfoldable pub scan_users : Error → List (Scan User) → Option Error → List User → Result (List User)
scan_users none_left [] end users = checked "error rows" end >>= λ x. ok users
scan_users none_left (scanned u ∷ rows) end users = scan_users none_left rows end (users ++ u ∷ [])
scan_users none_left (no_rows ∷ rows) end users = err (wrap "failed to scan user" none_left)
scan_users none_left (scan_error e ∷ rows) end users = err (wrap "failed to scan user" e)

-- Users; `none_left` is sql.ErrNoRows.
unfoldable pub users : Error → Query User → Result (List User)
unfolding queried scan_users
users none_left q = queried q >>= λ x. scan_users none_left q.rows q.rows_error []
