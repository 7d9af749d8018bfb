-- ===== src/Entities/General/Laws.antt =====
-- What the deep copy of a resource returns.
use galera_k8s_operator.Base.{◌≡◌, refl, ok, err, wrap, json_error, ◌⊎◌, arith}
use galera_k8s_operator.Json.{null, RawMessage, empty, raw, junk}
use galera_k8s_operator.Entities.General.{GeneralTargetState, copy}

-- No bytes at all become the value `null`.
abbrev pub settled : RawMessage → RawMessage
settled empty = raw null
settled r = r

abbrev pub settled_general : GeneralTargetState → GeneralTargetState
settled_general g = record g { spec = settled g.spec; meta = settled g.meta }

abbrev pub IsJson : RawMessage → Type 0
IsJson (junk text) = ⊥
IsJson _ = Unit

-- The raw parts of a resource can be marshalled.
pub record IsSound (g : GeneralTargetState) : Type 0 where
  pub spec_IsJson : IsJson g.spec
  pub meta_IsJson : IsJson g.meta

abbrev with_raw : GeneralTargetState → RawMessage → RawMessage → GeneralTargetState
with_raw g s m = record g { spec = s; meta = m }

copy_cases :
    (g : GeneralTargetState) (s m : RawMessage)
    → IsJson s
    → IsJson m
    → copy (with_raw g s m) ≡ ok (with_raw g (settled s) (settled m))
unfolding copy
copy_cases g empty empty h k = refl
copy_cases g empty (raw j) h k = refl
copy_cases g (raw i) empty h k = refl
copy_cases g (raw i) (raw j) h k = refl
copy_cases g (raw i) (junk t) h k = absurd k
copy_cases g empty (junk t) h k = absurd k
copy_cases g (junk t) m h k = absurd h

pub copy_lem : (g : GeneralTargetState) → IsSound g → copy g ≡ ok (settled_general g)
copy_lem g h = copy_cases g g.spec g.meta h.spec_IsJson h.meta_IsJson

copy_fails_cases :
    (g : GeneralTargetState) (s m : RawMessage)
    → (IsJson s × IsJson m)
      ⊎ (copy (with_raw g s m) ≡ err (wrap "failed to marshal for copy" json_error))
unfolding copy
copy_fails_cases g empty empty = ground arith
copy_fails_cases g empty (raw j) = ground arith
copy_fails_cases g empty (junk t) = ground arith
copy_fails_cases g (raw i) empty = ground arith
copy_fails_cases g (raw i) (raw j) = ground arith
copy_fails_cases g (raw i) (junk t) = ground arith
copy_fails_cases g (junk t) empty = ground arith
copy_fails_cases g (junk t) (raw j) = ground arith
copy_fails_cases g (junk t) (junk u) = ground arith
