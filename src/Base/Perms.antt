-- ===== src/Base/Perms.antt =====
-- Rearrangements of a list as data, for an item that is looked up where it stands.
use mathlib.Core.Path.{◌≡◌, ap}
use mathlib.Core.List.{
  List, [], ◌∷◌, ◌++◌, Permᴰ, nil≢cons, head-eq_of_cons-eq, tail-eq_of_cons-eq, append_assoc,
}
use mathlib.Core.List.Permᴰ

module _ {ℓ} {A : Type ℓ} where
  -- Where an item stands in a list, and the others, rearranged from `rest`
  pub record Standing (j : A) (rest l : List A) : Type ℓ where
    pub before : List A
    pub after : List A
    pub parts : l ≡ before ++ j ∷ after
    pub others : Permᴰ rest (before ++ after)

  pull_next :
      (z : A) (j y : A) (rest l : List A)
      → z ≡ y
      → Standing j rest l
      → Standing j (z ∷ rest) (y ∷ l)
  pull_next z j y rest l e p = record {
    before = y ∷ p.before;
    after = p.after;
    parts = ap (λ v. y ∷ v) p.parts;
    others = Permᴰ.cons e p.others;
  }

  pub pull :
      {l l' : List A} (a b : List A) (j : A) → Permᴰ l l' → l ≡ a ++ j ∷ b → Standing j (a ++ b) l'
  pull [] b j Permᴰ.nil e = absurd (nil≢cons e)
  pull (z ∷ a) b j Permᴰ.nil e = absurd (nil≢cons e)
  pull [] b j (Permᴰ.cons {a = x} {b = y} {l₁} {l₂} f p) e = record {
    before = [];
    after = l₂;
    parts = cc (f, head-eq_of_cons-eq e);
    others = rw (← tail-eq_of_cons-eq e) p;
  }
  pull (z ∷ a) b j (Permᴰ.cons {a = x} {b = y} {l₁} {l₂} f p) e =
      pull_next z j y (a ++ b) l₂ (cc (f, head-eq_of_cons-eq e))
        (pull a b j p (tail-eq_of_cons-eq e))
  pull [] b j (Permᴰ.swap {a = x} {b = y} {a' = x'} {b' = y'} {l} f g) e = record {
    before = x' ∷ [];
    after = l;
    parts = cc (f, head-eq_of_cons-eq e);
    others = rw (← tail-eq_of_cons-eq e) (Permᴰ.cons g (Permᴰ.refl l));
  }
  pull (z ∷ []) b j (Permᴰ.swap {a = x} {b = y} {a' = x'} {b' = y'} {l} f g) e = record {
    before = [];
    after = y' ∷ l;
    parts = cc (g, head-eq_of_cons-eq (tail-eq_of_cons-eq e));
    others =
        rw (← tail-eq_of_cons-eq (tail-eq_of_cons-eq e))
          (Permᴰ.cons (cc (f, head-eq_of_cons-eq e)) (Permᴰ.refl l));
  }
  pull (z ∷ w ∷ a) b j (Permᴰ.swap {a = x} {b = y} {a' = x'} {b' = y'} {l} f g) e = record {
    before = x' ∷ y' ∷ a;
    after = b;
    parts = ap (λ v. x' ∷ y' ∷ v) (tail-eq_of_cons-eq (tail-eq_of_cons-eq e));
    others =
        Permᴰ.swap (cc (f, head-eq_of_cons-eq e))
          (cc (g, head-eq_of_cons-eq (tail-eq_of_cons-eq e)));
  }
  pull a b j (Permᴰ.trans {l₂} {l₃} p q) e =
      let m = pull a b j p e in
      let n = pull m.before m.after j q m.parts in
      record {
        before = n.before;
        after = n.after;
        parts = n.parts;
        others = Permᴰ.trans m.others n.others;
      }

module _ {A : Type 0} where
  pub exchange : (a b c : List A) → Permᴰ (a ++ (b ++ c)) (b ++ (a ++ c))
  exchange a b c =
      rw (← append_assoc a b c, ← append_assoc b a c) (Permᴰ.append_right c (Permᴰ.append_comm a b))

  pub sink : (a b c d : List A) → Permᴰ (a ++ (b ++ (c ++ d))) (b ++ (c ++ (a ++ d)))
  sink a b c d = Permᴰ.trans (exchange a b (c ++ d)) (Permᴰ.append_left b (exchange a c d))

  pub focus :
      (a b x y : List A) (j : A) → Permᴰ (((a ++ j ∷ b) ++ x) ++ y) (j ∷ (((a ++ b) ++ x) ++ y))
  focus a b x y j = Permᴰ.append_right y (Permᴰ.append_right x (Permᴰ.middle j a b))
