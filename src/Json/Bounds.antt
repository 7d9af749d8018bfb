-- ===== src/Json/Bounds.antt =====
-- What a property of a variable needs to outlast its decoding.
use galera_k8s_operator.Base.{
  String, ◌≡◌, refl, Bool, true, false, Result, ok, err, if◌then◌else◌, >>=-eq-ok, map_ok, IsInt64,
  is_int64, ℤ, Bool-cases, inl, inr,
}
use galera_k8s_operator.Json.{
  Json, null, bool, int, frac, str, arr, obj, Members, done, member, decode_int, decode_members,
  decode_struct,
}

pub ok-injective {ℓ} : {A : Type ℓ} {a b : A} → ◌≡◌ {A = Result A} (ok a) (ok b) → a ≡ b
ok-injective e = cc e

-- A number that is decoded fits in 64 bits if the variable did.
pub decode_int-IsInt64 : (j : Json) (old i : ℤ) → IsInt64 old → decode_int j old ≡ ok i → IsInt64 i
unfolding decode_int
decode_int-IsInt64 null old i h e = rw (← ok-injective e) h
decode_int-IsInt64 (int k) old i h e = elim (Bool-cases (is_int64 k)) [
  | inl t ↦ rw (← ok-injective (rw t at e)) t
  | inr f ↦ cc (rw f at e)
]
decode_int-IsInt64 (bool b) old i h e = cc e
decode_int-IsInt64 (frac s) old i h e = cc e
decode_int-IsInt64 (str s) old i h e = cc e
decode_int-IsInt64 (arr l) old i h e = cc e
decode_int-IsInt64 (obj m) old i h e = cc e

module _ {S : Type 0} (P : S → Type 0) where
  pub map_ok-keeps :
      {A : Type 0} (f : A → S) (r : Result A) (b : S)
      → ((a : A) → r ≡ ok a → P (f a))
      → map_ok f r ≡ ok b
      → P b
  map_ok-keeps f (ok a) b h e = rw (← ok-injective e) (h a refl)
  map_ok-keeps f (err x) b h e = cc e

  pub ok-keeps : (a b : S) → P a → ◌≡◌ {A = Result S} (ok a) (ok b) → P b
  ok-keeps a b h e = rw (← ok-injective e) h

  pub if-keeps :
      (c : Bool) (r r' : Result S) (b : S)
      → (r ≡ ok b → P b)
      → (r' ≡ ok b → P b)
      → (if c then r else r') ≡ ok b
      → P b
  if-keeps true r r' b h g e = h e
  if-keeps false r r' b h g e = g e

  module _ (set : String → Json → S → Result S)
      (keeps : (k : String) (v : Json) (a b : S) → P a → set k v a ≡ ok b → P b) where
    decode_members-keeps : (ms : Members) (a b : S) → P a → decode_members set ms a ≡ ok b → P b
    unfolding decode_members
    decode_members-keeps done a b h e = rw (← ok-injective e) h
    decode_members-keeps (member k v ms) a b h e =
        let (c, first, rest) = >>=-eq-ok (set k v a) _ e in
        decode_members-keeps ms c b (keeps k v a c h first) rest

    -- What each member keeps, the decoding of a struct keeps.
    pub decode_struct-keeps : (j : Json) (a b : S) → P a → decode_struct set j a ≡ ok b → P b
    unfolding decode_struct
    decode_struct-keeps null a b h e = rw (← ok-injective e) h
    decode_struct-keeps (obj ms) a b h e = decode_members-keeps ms a b h e
    decode_struct-keeps (bool x) a b h e = cc e
    decode_struct-keeps (int x) a b h e = cc e
    decode_struct-keeps (frac x) a b h e = cc e
    decode_struct-keeps (str x) a b h e = cc e
    decode_struct-keeps (arr x) a b h e = cc e
