-- ===== src/Storage/Laws/Invariant.antt =====
-- The storage's invariant, and the abstract map from kinds and names that it implements.
use galera_k8s_operator.Base.{
  lookup, true, ◌++◌, String, ◌≡◌, ◌≢◌, refl, Bool, ◌&&◌, List, [], ◌∷◌, Option, none, some, ◌==◌,
  eq_iff, eq_refl, if◌then◌else◌, ok, arith, Table, assign, lookup-assign, lookup-remove, Distinct,
  Distinct-assign, Distinct-remove, All, All-assign, All-remove, All-lookup, Bool-cases,
  Option-cases, inl, inr,
}
use mathlib.Core.Option.{some-injective}
use galera_k8s_operator.Entities.General.{GeneralTargetState, zero_general, copy}
use galera_k8s_operator.Entities.General.Laws.{settled_general, IsSound, copy_lem}
use galera_k8s_operator.Storage.{
  Storage, resource_key, create_resource, get_general_resource, update_general_resource,
  delete_general_resource, list_from, list_general_resources_by_kind,
}
use galera_k8s_operator.Storage.Keys.{NoSlash, resource_key-injective}
use galera_k8s_operator.Storage.Laws.{
  stored, create_resource_lem, update_resource_lem, update_missing, settled-IsSound,
  settled_settled,
}

-- An entry stands under the key of the resource that it holds, which can be marshalled and is what
-- its own copy would be.
pub record IsOwn (e : String × GeneralTargetState) : Type 0 where
  pub keyed : e.0 ≡ resource_key e.1.kind e.1.name
  pub sound : IsSound e.1
  pub copied : settled_general e.1 ≡ e.1

pub record IsValid (s : Storage) : Type 0 where
  pub distinct : Distinct s.gr
  pub own : All IsOwn s.gr

settled-IsOwn :
    (g : GeneralTargetState) → IsSound g → IsOwn (resource_key g.kind g.name, settled_general g)
settled-IsOwn g h = record { keyed = refl; sound = settled-IsSound g h; copied = settled_settled g }

assign-IsValid :
    (g : GeneralTargetState) (s : Storage)
    → IsSound g
    → IsValid s
    → IsValid (record { gr = assign (resource_key g.kind g.name) (settled_general g) s.gr })
assign-IsValid g s h v = record {
  distinct = Distinct-assign (resource_key g.kind g.name) (settled_general g) s.gr v.distinct;
  own =
      All-assign IsOwn (resource_key g.kind g.name) (settled_general g) s.gr v.own
        (settled-IsOwn g h);
}

pub create-IsValid :
    (g : GeneralTargetState) (s : Storage) → IsSound g → IsValid s → IsValid (create_resource g s).1
create-IsValid g s h v = rw (create_resource_lem g s h) (assign-IsValid g s h v)

-- An update of a resource whose raw parts are JSON keeps a valid storage valid.
pub update-IsValid :
    (g : GeneralTargetState) (s : Storage)
    → IsSound g
    → IsValid s
    → IsValid (update_general_resource g s).1
update-IsValid g s h v = elim (Option-cases (stored g.kind g.name s)) [
  | inl e ↦ rw (update_missing g s h e) v
  | inr (old, e) ↦ rw (update_resource_lem g s h (λ f. cc (f, e))) (assign-IsValid g s h v)
]

pub delete-IsValid :
    (name kind : String) (s : Storage) → IsValid s → IsValid (delete_general_resource name kind s).1
unfolding delete_general_resource
delete-IsValid name kind s v = record {
  distinct = Distinct-remove (resource_key kind name) s.gr v.distinct;
  own = All-remove IsOwn (resource_key kind name) s.gr v.own;
}

abbrev pub or_zero : Option GeneralTargetState → GeneralTargetState
or_zero none = zero_general
or_zero (some g) = g

stored_copied :
    (kind name : String) (s : Storage) (g : GeneralTargetState)
    → IsValid s
    → stored kind name s ≡ some g
    → copy g ≡ ok g
stored_copied kind name s g v e =
    let o = All-lookup IsOwn (resource_key kind name) g s.gr v.own e in
    rw (copy_lem g o.sound, o.copied)

-- A read of a valid storage, with a name and a kind that are not empty, returns what is stored,
-- or the zero resource.
pub get_lem :
    (name kind : String) (s : Storage)
    → IsValid s
    → name ≢ ""
    → kind ≢ ""
    → get_general_resource name kind s ≡ ok (or_zero (stored kind name s))
unfolding get_general_resource
get_lem name kind s v n k = elim (Option-cases (stored kind name s)) [
  | inl e ↦ ground (arith, eq_iff name "", eq_iff kind "", e)
  | inr (g, e) ↦ ground (arith, eq_iff name "", eq_iff kind "", e, stored_copied kind name s g v e)
]

-- Whether a kind and a name are those of a resource.
abbrev pub names : GeneralTargetState → String → String → Bool
names g kind name = g.kind == kind && g.name == name

key_names :
    (g : GeneralTargetState) (kind name : String)
    → NoSlash kind
    → NoSlash g.kind
    → (resource_key g.kind g.name == resource_key kind name) ≡ names g kind name
key_names g kind name h k =
    elim (Bool-cases (resource_key g.kind g.name == resource_key kind name)) [
      | inl e ↦
          let (a, b) = resource_key-injective g.kind kind g.name name k h ((eq_iff _ _).0 e) in
          rw (e, a, b, eq_refl kind, eq_refl name)
      | inr e ↦ ground (
        arith,
        eq_iff g.kind kind,
        eq_iff g.name name,
        eq_iff (resource_key g.kind g.name) (resource_key kind name),
      )
    ]

stored-assign :
    (g c : GeneralTargetState) (kind name : String) (s : Storage)
    → NoSlash kind
    → NoSlash g.kind
    → stored kind name (record { gr = assign (resource_key g.kind g.name) c s.gr })
      ≡ (if names g kind name then some c else stored kind name s)
stored-assign g c kind name s h k = rw (
  lookup-assign (resource_key g.kind g.name) (resource_key kind name) c s.gr,
  key_names g kind name h k,
)

-- Where the raw parts of a resource are JSON and the kinds hold no slash, a creation writes one
-- place of the map from kinds and names and no other.
pub stored-create :
    (g : GeneralTargetState) (kind name : String) (s : Storage)
    → IsSound g
    → NoSlash kind
    → NoSlash g.kind
    → stored kind name (create_resource g s).1
      ≡ (if names g kind name then some (settled_general g) else stored kind name s)
stored-create g kind name s h k l =
    rw (create_resource_lem g s h) (stored-assign g (settled_general g) kind name s k l)

-- Where the kinds hold no slash, a deletion clears one place of the map from kinds and names and
-- no other.
pub stored-delete :
    (k n kind name : String) (s : Storage)
    → NoSlash k
    → NoSlash kind
    → stored kind name (delete_general_resource n k s).1
      ≡ (if k == kind && n == name then none else stored kind name s)
unfolding delete_general_resource
stored-delete k n kind name s h l =
    let g : GeneralTargetState = record zero_general { kind = k; name = n } in
    rw (lookup-remove (resource_key k n) (resource_key kind name) s.gr, key_names g kind name l h)

-- Where the raw parts of a resource are JSON, the kinds hold no slash and the resource is there,
-- an update writes one place of the map from kinds and names and no other.
pub stored-update :
    (g : GeneralTargetState) (kind name : String) (s : Storage)
    → IsSound g
    → NoSlash kind
    → NoSlash g.kind
    → stored g.kind g.name s ≢ none
    → stored kind name (update_general_resource g s).1
      ≡ (if names g kind name then some (settled_general g) else stored kind name s)
stored-update g kind name s h k l p =
    rw (update_resource_lem g s h p) (stored-assign g (settled_general g) kind name s k l)

-- The entries of a kind, in the order of the range.
abbrev pub of_kind : String → Table GeneralTargetState → List GeneralTargetState
of_kind kind [] = []
of_kind kind ((k, v) ∷ gr) = if v.kind == kind then v ∷ of_kind kind gr else of_kind kind gr

list_from_lem :
    (kind : String) (gr : Table GeneralTargetState)
    → All IsOwn gr
    → list_from kind gr ≡ ok (of_kind kind gr)
unfolding list_from
list_from_lem kind [] a = refl
list_from_lem kind ((k, v) ∷ gr) a = elim (Bool-cases (v.kind == kind)) [
  | inl e ↦ rw (e, copy_lem v a.0.sound, a.0.copied, list_from_lem kind gr a.1)
  | inr e ↦ rw (e, list_from_lem kind gr a.1)
]

-- A listing of a valid storage does not fail, and returns all that is stored of the kind.
pub list_lem :
    (kind : String) (s : Storage)
    → IsValid s
    → list_general_resources_by_kind kind s ≡ ok (of_kind kind s.gr)
unfolding list_general_resources_by_kind
list_lem kind s v = list_from_lem kind s.gr v.own

-- What is stored under the kind is listed.
pub listed_there :
    (kind k : String) (v : GeneralTargetState) (gr : Table GeneralTargetState)
    → lookup k gr ≡ some v
    → (v.kind == kind) ≡ true
    → (a b : List GeneralTargetState) × (of_kind kind gr ≡ a ++ v ∷ b)
unfolding lookup
listed_there kind k v [] e t = cc e
listed_there kind k v ((j, u) ∷ gr) e t = elim (Bool-cases (j == k)) [
  | inl f ↦
      let same : some u ≡ some v = rw f at e in
      ([], of_kind kind gr, rw (some-injective u v same, t) refl)
  | inr f ↦
      let (a, b, g) = listed_there kind k v gr (rw f at e) t in
      elim (Bool-cases (u.kind == kind)) [
        | inl h ↦ (u ∷ a, b, rw (h, g) refl)
        | inr h ↦ (a, b, rw (h, g) refl)
      ]
]
