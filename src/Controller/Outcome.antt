-- ===== src/Controller/Outcome.antt =====
-- The literals of entities.ReconcileResult that the controllers return.
use galera_k8s_operator.Base.{String, true, false, none, some, Error, Result, ok, err, ◌≡◌, refl}
use galera_k8s_operator.Entities.General.{ReconcileResult}
use galera_k8s_operator.Storage.{Storage}

-- ReconcileResult{}, {Reason: reason}, {Error: e} and {Success: true}
abbrev pub requeue : ReconcileResult
requeue = record { success = false; reason = ""; error = none }

abbrev pub because : String → ReconcileResult
because reason = record { success = false; reason = reason; error = none }

abbrev pub failed : Error → ReconcileResult
failed e = record { success = false; reason = ""; error = some e }

abbrev pub succeeded : ReconcileResult
succeeded = record { success = true; reason = ""; error = none }

-- `if err != nil { return {Error: err} }; return res` after a write to the storage
abbrev pub unless_failed : ReconcileResult → Result (Unit {0}) × Storage → ReconcileResult × Storage
unless_failed res (err e, s) = (failed e, s)
unless_failed res (ok x, s) = (res, s)

pub unless_failed-storage :
    (res : ReconcileResult) (p : Result (Unit {0}) × Storage) → (unless_failed res p).1 ≡ p.1
unless_failed-storage res (err e, s) = refl
unless_failed-storage res (ok x, s) = refl
