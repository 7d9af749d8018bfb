-- ===== src/Storage/Laws.antt =====
-- What the methods of internal/in-memory-storage promise to each other's callers.
pub mod Invariant
use galera_k8s_operator.Base.{
  String, ◌≡◌, ◌≢◌, refl, Bool, false, true, Option, none, some, ◌==◌, eq_iff, if◌then◌else◌,
  Result, ok, err, new, arith, lookup, assign, lookup-assign, lookup-remove, Result-cases, inl, inr,
  Error, wrap, json_error, ◌&&◌, Option-cases,
}
use galera_k8s_operator.Json.{RawMessage, raw, empty, junk}
use galera_k8s_operator.Entities.General.{GeneralTargetState, zero_general, copy}
use galera_k8s_operator.Entities.General.Laws.{settled, settled_general, IsJson, IsSound, copy_lem}
use galera_k8s_operator.Storage.{
  Storage, resource_key, create_resource, get_general_resource, update_general_resource,
  delete_general_resource,
}
use galera_k8s_operator.Storage.Keys.{NoSlash, resource_key-injective}

-- What is stored under a kind and a name.
abbrev pub stored : String → String → Storage → Option GeneralTargetState
stored kind name s = lookup (resource_key kind name) s.gr

pub create_resource_lem :
    (g : GeneralTargetState) (s : Storage)
    → IsSound g
    → create_resource g s
      ≡ (ok tt, record { gr = assign (resource_key g.kind g.name) (settled_general g) s.gr })
unfolding create_resource
create_resource_lem g s h = rw (copy_lem g h, create_resource)

pub update_resource_lem :
    (g : GeneralTargetState) (s : Storage)
    → IsSound g
    → stored g.kind g.name s ≢ none
    → update_general_resource g s
      ≡ (ok tt, record { gr = assign (resource_key g.kind g.name) (settled_general g) s.gr })
unfolding update_general_resource
update_resource_lem g s h p = elim (Option-cases (stored g.kind g.name s)) [
  | inl e ↦ absurd (p e)
  | inr (old, e) ↦ rw (copy_lem g h, e, update_general_resource)
]

-- An update of a resource that is not there is an error and changes nothing.
pub update_missing :
    (g : GeneralTargetState) (s : Storage)
    → IsSound g
    → stored g.kind g.name s ≡ none
    → update_general_resource g s ≡ (err (new "resource not found"), s)
unfolding update_general_resource
update_missing g s h p = rw (copy_lem g h, p, update_general_resource)

-- Whatever the resource, an update of a key that is not there changes nothing.
pub update_absent :
    (g : GeneralTargetState) (s : Storage)
    → stored g.kind g.name s ≡ none
    → (update_general_resource g s).1 ≡ s
unfolding update_general_resource
update_absent g s p = elim (Result-cases (copy g)) [
  | inl (c, e) ↦ rw (e, p, update_general_resource)
  | inr (x, e) ↦ rw (e, update_general_resource)
]

settled_sound : (r : RawMessage) → IsJson r → IsJson (settled r)
settled_sound empty h = tt
settled_sound (raw j) h = tt
settled_sound (junk t) h = elim h [ ]

settled_idem : (r : RawMessage) → settled (settled r) ≡ settled r
settled_idem empty = refl
settled_idem (raw j) = refl
settled_idem (junk t) = refl

pub settled-IsSound : (g : GeneralTargetState) → IsSound g → IsSound (settled_general g)
settled-IsSound g h = record {
  spec_IsJson = settled_sound g.spec h.spec_IsJson;
  meta_IsJson = settled_sound g.meta h.meta_IsJson;
}

pub settled_settled :
    (g : GeneralTargetState) → settled_general (settled_general g) ≡ settled_general g
settled_settled g = rw (settled_idem g.spec, settled_idem g.meta)

pub copy-settled :
    (g : GeneralTargetState) → IsSound g → copy (settled_general g) ≡ ok (settled_general g)
copy-settled g h =
    rw
      (copy_lem (settled_general g) (settled-IsSound g h), settled_idem g.spec, settled_idem g.meta)
