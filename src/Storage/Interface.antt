-- ===== src/Storage/Interface.antt =====
-- The interface `Storage` of internal/state-api/server.go, with what a caller may rely on, and the
-- in-memory storage as one that keeps it.
use galera_k8s_operator.Base.{
  String, ◌≡◌, ◌≢◌, refl, List, Option, none, some, if◌then◌else◌, Result, ok, err, new,
}
use galera_k8s_operator.Entities.General.{GeneralTargetState}
use galera_k8s_operator.Entities.General.Laws.{IsSound, settled_general}
use galera_k8s_operator.Storage.{
  Storage, get_general_resource, update_general_resource, delete_general_resource,
  list_general_resources_by_kind,
}
use galera_k8s_operator.Storage.Keys.{NoSlash}
use galera_k8s_operator.Storage.Laws.{stored, update_absent, update_resource_lem}
use galera_k8s_operator.Storage.Laws.Invariant.{
  IsValid, or_zero, names, get_lem, update-IsValid, stored-update,
}

pub record ResourceStorage : Type 1 where
  pub S : Type 0
  pub get : String → String → S → Result GeneralTargetState
  pub update : GeneralTargetState → S → Result (Unit {0}) × S
  pub delete : String → String → S → Result (Unit {0}) × S
  pub list_by_kind : String → S → Result (List GeneralTargetState)
  pub Valid : S → Type 0
  -- what is stored under a kind and a name
  pub view : String → String → S → Option GeneralTargetState
  pub get_of_view :
      (name kind : String) (s : S)
      → Valid s
      → name ≢ ""
      → kind ≢ ""
      → get name kind s ≡ ok (or_zero (view kind name s))
  pub get_unnamed : (kind : String) (s : S) → get "" kind s ≡ err (new "invalid parameter")
  pub update_absent_keeps :
      (g : GeneralTargetState) (s : S) → view g.kind g.name s ≡ none → (update g s).1 ≡ s
  pub update_present :
      (g : GeneralTargetState) (s : S)
      → IsSound g
      → view g.kind g.name s ≢ none
      → (update g s).0 ≡ ok tt
  pub view_of_update :
      (g : GeneralTargetState) (kind name : String) (s : S)
      → IsSound g
      → NoSlash kind
      → NoSlash g.kind
      → view g.kind g.name s ≢ none
      → view kind name (update g s).1
        ≡ (if names g kind name then some (settled_general g) else view kind name s)
  pub update_keeps_Valid :
      (g : GeneralTargetState) (s : S) → IsSound g → Valid s → Valid (update g s).1

pub get_unnamed_lem :
    (kind : String) (s : Storage) → get_general_resource "" kind s ≡ err (new "invalid parameter")
unfolding get_general_resource
get_unnamed_lem kind s = refl

pub update_present_lem :
    (g : GeneralTargetState) (s : Storage)
    → IsSound g
    → stored g.kind g.name s ≢ none
    → (update_general_resource g s).0 ≡ ok tt
update_present_lem g s h p = rw (update_resource_lem g s h p)

abbrev pub in_memory : ResourceStorage
in_memory = record {
  S = Storage;
  get = get_general_resource;
  update = update_general_resource;
  delete = delete_general_resource;
  list_by_kind = list_general_resources_by_kind;
  Valid = IsValid;
  view = stored;
  get_of_view = get_lem;
  get_unnamed = get_unnamed_lem;
  update_absent_keeps = update_absent;
  update_present = update_present_lem;
  view_of_update = stored-update;
  update_keeps_Valid = update-IsValid;
}
