-- ===== src/Table/Valued.antt =====
-- Writing a value to a node that has a key keeps the hash part in order.
use soft_renderer_lua.Base.{
  ℕ, ◌<◌, ◌≡◌, ◌≢◌, refl, sym, ap, ◌∙◌, subst, Bool, true, false, inl, inr, List, get_elem?, set,
}
use soft_renderer_lua.Table.{TValue, Node, is_nil}
use soft_renderer_lua.Table.Links.{At, At-same, Edge, Used, Reach, here, step, Links, same-or-not}
use soft_renderer_lua.Table.Keys.{Home, Keys}
use soft_renderer_lua.Table.Steps.{written, kept, count-same}

nil-clash : (b : Bool) → b ≡ true → b ≡ false → ⊥
nil-clash b e e' = cc

module _ {Number : Type 0} (nodes : List (Node Number)) (i : ℕ) (n : Node Number)
    (v : TValue Number) (at : At nodes i n) (used : is_nil n.i_key ≡ false) where
  abbrev pub valued : List (Node Number)
  valued = set nodes i (record n { i_val = v })

  -- A node before the write, with what the write leaves.
  record Was (j : ℕ) (m : Node Number) : Type 0 where
    node : Node Number
    was : At nodes j node
    key : m.i_key ≡ node.i_key
    next : m.next ≡ node.next
    val : j ≢ i → m.i_val ≡ node.i_val

  before_write : (j : ℕ) (m : Node Number) → At valued j m → Was j m
  before_write j m e = elim (same-or-not j i) [
    | inl q ↦
        let same : m ≡ record n { i_val = v } =
          At-same e (ap (get_elem? valued) q ∙ written nodes i n _ at) in
        record {
          node = n;
          was = ap (get_elem? nodes) q ∙ at;
          key = ap (λ x. x.i_key) same;
          next = ap (λ x. x.next) same;
          val = λ ne. absurd (ne q);
        }
    | inr q ↦ record {
      node = m;
      was = sym (kept nodes i j _ q) ∙ e;
      key = refl;
      next = refl;
      val = λ ne. refl;
    }
  ]

  after_write :
      (j : ℕ) (m : Node Number)
      → At nodes j m
      → (m' : Node Number) × At valued j m'
        × (m'.i_key ≡ m.i_key)
        × (m'.next ≡ m.next)
        × (j ≢ i → m'.i_val ≡ m.i_val)
  after_write j m e = elim (same-or-not j i) [
    | inl q ↦
        let same : n ≡ m = At-same at (ap (get_elem? nodes) (sym q) ∙ e) in
        (
          record n { i_val = v },
          ap (get_elem? valued) q ∙ written nodes i n _ at,
          ap (λ x. x.i_key) same,
          ap (λ x. x.next) same,
          λ ne. absurd (ne q),
        )
    | inr q ↦ (m, kept nodes i j _ q ∙ e, refl, refl, λ ne. refl)
  ]

  pub key_was :
      (j : ℕ) (m : Node Number)
      → At valued j m
      → (m' : Node Number) × At nodes j m' × (m'.i_key ≡ m.i_key)
  key_was j m e = let w = before_write j m e in (w.node, w.was, sym w.key)

  pub key_is :
      (j : ℕ) (m : Node Number)
      → At nodes j m
      → (m' : Node Number) × At valued j m' × (m'.i_key ≡ m.i_key)
  key_is j m e = let (m', e', key, next, val) = after_write j m e in (m', e', key)

  Edge-was : (j k : ℕ) → Edge valued j k → Edge nodes j k
  Edge-was j k e =
      let w = before_write j e.from e.at in
      record { from = w.node; at = w.was; next = sym w.next ∙ e.next }

  Edge-is : (j k : ℕ) → Edge nodes j k → Edge valued j k
  Edge-is j k e =
      let (m, e', key, next, val) = after_write j e.from e.at in
      record { from = m; at = e'; next = next ∙ e.next }

  Used-was : (j : ℕ) → Used valued j → Used nodes j
  Used-was j u =
      let w = before_write j u.node u.at in
      record { node = w.node; at = w.was; key = sym (ap is_nil w.key) ∙ u.key }

  Used-is : (j : ℕ) → Used nodes j → Used valued j
  Used-is j u =
      let (m, e, key, next, val) = after_write j u.node u.at in
      record { node = m; at = e; key = ap is_nil key ∙ u.key }

  Reach-is : {j k : ℕ} → Reach nodes j k → Reach valued j k
  Reach-is here = here
  Reach-is (step {i = j} {j = k} e r) = step (Edge-is j k e) (Reach-is r)

  pub Valued-Links : {rank : ℕ → ℕ} → Links nodes rank → Links valued rank
  Valued-Links {rank} links = record {
    descends = λ j k e. links.descends j k (Edge-was j k e);
    single = λ j k l e e'. links.single j k l (Edge-was j l e) (Edge-was k l e');
    source = λ j k e. Used-is j (links.source j k (Edge-was j k e));
    target = λ j k e. Used-is k (links.target j k (Edge-was j k e));
    bound = λ j u.
        subst (λ c. rank j < c) (sym (count-same nodes i n _ at refl))
          (links.bound j (Used-was j u));
  }

  Home-is : {main : TValue Number → ℕ} (k : TValue Number) → Home main nodes k → Home main valued k
  Home-is {main} k h =
      let (m, e, key, next, val) = after_write (main k) h.node h.at in
      record { node = m; at = e; key = ap is_nil key ∙ h.key; same = ap main key ∙ h.same }

  module _ {main : TValue Number → ℕ} {eq : TValue Number → TValue Number → Bool}
      {Ok : TValue Number → Type 0} where
    pub Valued-Keys : Keys main eq Ok nodes → Keys main eq Ok valued
    Valued-Keys keys = record {
      reach = λ j m e u.
          let w = before_write j m e in
          subst (λ x. Reach valued (main x) j) (sym w.key)
            (Reach-is (keys.reach j w.node w.was (sym (ap is_nil w.key) ∙ u)));
      home = λ j m e u.
          let w = before_write j m e in
          subst (λ x. Home main valued x) (sym w.key)
            (Home-is w.node.i_key (keys.home j w.node w.was (sym (ap is_nil w.key) ∙ u)));
      unique = λ j k m m' e e' u q.
          let w = before_write j m e in
          let w' = before_write k m' e' in
          keys.unique j k w.node w'.node w.was w'.was (sym (ap is_nil w.key) ∙ u) (
            subst (λ x. eq x w'.node.i_key ≡ true) w.key
              (subst (λ x. eq m.i_key x ≡ true) w'.key q));
      fresh = λ j m e u. elim (same-or-not j i) [
        | inl q ↦ absurd (
            nil-clash _ u (
              ap (λ x. is_nil x.i_key)
                (At-same e (ap (get_elem? valued) q ∙ written nodes i n _ at))
              ∙ used))
        | inr q ↦
            let w = before_write j m e in
            ap is_nil (w.val q) ∙ keys.fresh j w.node w.was (sym (ap is_nil w.key) ∙ u)
      ];
      ok = λ j m e u.
          let w = before_write j m e in
          subst Ok (sym w.key) (keys.ok j w.node w.was (sym (ap is_nil w.key) ∙ u));
    }
