-- ===== src/Storage/Order.antt =====
-- GetNodesByCluster of internal/in-memory-storage/node.go and the order of the range over the map.
use galera_k8s_operator.Base.{
  String, ◌≡◌, refl, sym, ◌∙◌, ap, List, ◌∷◌, Option, none, some, Result, ok, err, Table, inl, inr,
}
use mathlib.Core.Path.{subst}
use mathlib.Core.List.{Permᴰ}
use mathlib.Core.List.Permᴰ
use galera_k8s_operator.Entities.Agent.{TimeText}
use galera_k8s_operator.Entities.General.{GeneralTargetState}
use galera_k8s_operator.Entities.Node.{NodeTargetState}
use galera_k8s_operator.Storage.{visit_node, nodes_from}
use galera_k8s_operator.Storage.Nodes.{visit_node_cases}

-- What an entry adds to the nodes
abbrev put : Option NodeTargetState → List NodeTargetState → List NodeTargetState
put none l = l
put (some n) l = n ∷ l

put-perm :
    (o : Option NodeTargetState) {l m : List NodeTargetState}
    → Permᴰ l m
    → Permᴰ (put o l) (put o m)
put-perm none p = p
put-perm (some n) p = Permᴰ.cons refl p

put-swap :
    (o p : Option NodeTargetState) (l : List NodeTargetState)
    → Permᴰ (put o (put p l)) (put p (put o l))
put-swap none p l = Permᴰ.refl (put p l)
put-swap (some n) none l = Permᴰ.refl (n ∷ l)
put-swap (some n) (some m) l = Permᴰ.swap refl refl

module _ ⦃rfc : TimeText⦄ (c : String) where
  -- An entry that does not fail
  record Added (v : GeneralTargetState) (rest : Result (List NodeTargetState))
      (l : List NodeTargetState) : Type 0 where
    others : List NodeTargetState
    rest_ok : rest ≡ ok others
    own : Option NodeTargetState
    all_of : l ≡ put own others
    again : (m : List NodeTargetState) → visit_node c v (ok m) ≡ ok (put own m)

  added :
      (v : GeneralTargetState) (rest : Result (List NodeTargetState)) (l : List NodeTargetState)
      → visit_node c v rest ≡ ok l
      → Added v rest l
  added v (err x) l e = elim (visit_node_cases c v) [
    | inl f ↦ cc (f (err x))
    | inr (inl (node, f)) ↦ cc (f (err x))
    | inr (inr (y, f)) ↦ cc (f (err x))
  ]
  added v (ok m) l e = elim (visit_node_cases c v) [
    | inl f ↦ record {
      others = m;
      rest_ok = refl;
      own = none;
      all_of = cc (f (ok m));
      again = λ k. f (ok k);
    }
    | inr (inl (node, f)) ↦ record {
      others = m;
      rest_ok = refl;
      own = some node;
      all_of = cc (f (ok m));
      again = λ k. f (ok k);
    }
    | inr (inr (y, f)) ↦ cc (f (ok m))
  ]

  pub record Reordered (gr : Table GeneralTargetState) (l : List NodeTargetState) : Type 0 where
    pub nodes : List NodeTargetState
    pub read : nodes_from c gr ≡ ok nodes
    pub same : Permᴰ l nodes

  -- In another order of the same entries the same nodes are found.
  pub nodes_from-perm :
      {a b : Table GeneralTargetState}
      → Permᴰ a b
      → (l : List NodeTargetState) → nodes_from c a ≡ ok l
      → Reordered b l
  unfolding nodes_from
  nodes_from-perm Permᴰ.nil l e = record { nodes = l; read = e; same = Permᴰ.refl l }
  nodes_from-perm (Permᴰ.cons {a} {b} {l₁} {l₂} e p) l f =
      let x = added a.1 (nodes_from c l₁) l f in
      let r = nodes_from-perm p x.others x.rest_ok in
      record {
        nodes = put x.own r.nodes;
        read =
            ap (λ v. visit_node c v.1 (nodes_from c l₂)) (sym e)
            ∙ ap (visit_node c a.1) r.read
            ∙ x.again r.nodes;
        same = subst (λ m. Permᴰ m (put x.own r.nodes)) (sym x.all_of) (put-perm x.own r.same);
      }
  nodes_from-perm (Permᴰ.swap {a} {b} {a'} {b'} {l = t} e f) l g =
      let x = added a.1 (visit_node c b.1 (nodes_from c t)) l g in
      let y = added b.1 (nodes_from c t) x.others x.rest_ok in
      record {
        nodes = put y.own (put x.own y.others);
        read =
            ap (λ v. visit_node c a'.1 (visit_node c v.1 (nodes_from c t))) (sym e)
            ∙ ap (λ v. visit_node c v.1 (visit_node c a.1 (nodes_from c t))) (sym f)
            ∙ ap (λ r. visit_node c b.1 (visit_node c a.1 r)) y.rest_ok
            ∙ ap (visit_node c b.1) (x.again y.others)
            ∙ y.again (put x.own y.others);
        same =
            subst (λ m. Permᴰ m (put y.own (put x.own y.others)))
              (sym (x.all_of ∙ ap (put x.own) y.all_of)) (put-swap x.own y.own y.others);
      }
  nodes_from-perm (Permᴰ.trans p q) l e =
      let r = nodes_from-perm p l e in
      let s = nodes_from-perm q r.nodes r.read in
      record { nodes = s.nodes; read = s.read; same = Permᴰ.trans r.same s.same }
