-- ===== src/Storage/Keys.antt =====
-- The keys of internal/in-memory-storage: "/kind/name".
use Prim.Native.Char.{code}
use Prim.Native.String
use Prim.Native.String.{[], ◌∷◌}
use text.Mathlib.TextLemmas.{nil-append, cons-append, cons-eq-cons, append_cancel_left}
use galera_k8s_operator.Base.{String, ◌≡◌, ◌≢◌, refl, ap, sym, ◌∙◌, arith}
use galera_k8s_operator.Entities.Node
use galera_k8s_operator.Entities.Cluster
use galera_k8s_operator.Storage.{resource_key}

abbrev pub NoSlash : String → Type 0
NoSlash [] = Unit
NoSlash (c ∷ s) = (code c ≢ b'/') × NoSlash s

slash_cons : (m : String) → String.◌++◌ "/" m ≡ "/" ∷ m
slash_cons m = cons-append "/" [] m ∙ ap (λ t. "/" ∷ t) (nil-append m)

slash_inj :
    (k l m n : String)
    → NoSlash k
    → NoSlash l
    → String.◌++◌ k (String.◌++◌ "/" m) ≡ String.◌++◌ l (String.◌++◌ "/" n)
    → (k ≡ l) × (m ≡ n)
slash_inj [] [] m n h g e = (refl, append_cancel_left "/" m n (simp nil-append at e))
slash_inj [] (c ∷ l) m n h g e =
    let (first, rest) = cons-eq-cons.0 (simp (nil-append, slash_cons, cons-append) at e) in
    absurd (g.0 (sym (ap code first)))
slash_inj (c ∷ k) [] m n h g e =
    let (first, rest) = cons-eq-cons.0 (simp (nil-append, slash_cons, cons-append) at e) in
    absurd (h.0 (ap code first))
slash_inj (c ∷ k) (d ∷ l) m n h g e =
    let (first, rest) = cons-eq-cons.0 (sym (cons-append c k _) ∙ e ∙ cons-append d l _) in
    let (same, others) = slash_inj k l m n h.1 g.1 rest in (cons-eq-cons.1 (first, same), others)

-- Two resources whose kinds hold no slash have the same key only if kind and name are the same.
pub resource_key-injective :
    (k l m n : String)
    → NoSlash k
    → NoSlash l
    → resource_key k m ≡ resource_key l n
    → (k ≡ l) × (m ≡ n)
unfolding resource_key
resource_key-injective k l m n h g e = slash_inj k l m n h g (append_cancel_left "/" _ _ e)

pub node_kind-NoSlash : NoSlash Node.kind
node_kind-NoSlash = omega arith

pub cluster_kind-NoSlash : NoSlash Cluster.kind
cluster_kind-NoSlash = omega arith
