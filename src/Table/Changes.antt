-- ===== src/Table/Changes.antt =====
-- The three ways in which newkey changes the nodes of a table keep their links.
use soft_renderer_lua.Base.{
  ℕ, suc, ◌≤◌, ◌<◌, ◌≡◌, ◌≢◌, sym, ap, ◌∙◌, subst, arith, Bool, true, false, ◌&&◌, ◌==◌, Bool-cases,
  inl, inr, if◌then◌else◌, Option, none, some, List, get_elem?,
}
use soft_renderer_lua.Table.{Node, is_nil}
use soft_renderer_lua.Table.Links.{
  At, At-same, Edge, Used, Reach, here, step, Links, count_used, same-or-not,
}

module _ {Number : Type 0} (nodes nodes' : List (Node Number)) where
  -- The key of node `m` is overwritten.
  pub record Overwritten (m : ℕ) (old new : Node Number) : Type 0 where
    pub was : At nodes m old
    pub now : At nodes' m new
    pub next : new.next ≡ old.next
    pub key : is_nil new.i_key ≡ false
    pub others : (i : ℕ) → i ≢ m → get_elem? nodes' i ≡ get_elem? nodes i

  -- A new key stands in the node `f` that was free, which is linked behind node `m`.
  pub record Spliced (m f : ℕ) (old linked free new : Node Number) : Type 0 where
    pub distinct : m ≢ f
    pub was : At nodes m old
    pub was_free : At nodes f free
    pub used : is_nil old.i_key ≡ false
    pub empty : is_nil free.i_key ≡ true
    pub now : At nodes' m linked
    pub now_free : At nodes' f new
    pub key : is_nil new.i_key ≡ false
    pub same_key : linked.i_key ≡ old.i_key
    pub same_val : linked.i_val ≡ old.i_val
    pub next : linked.next ≡ some f
    pub next_free : new.next ≡ old.next
    pub count : count_used nodes' ≡ suc (count_used nodes)
    pub others : (i : ℕ) → i ≢ m → i ≢ f → get_elem? nodes' i ≡ get_elem? nodes i

  -- Node `m` has moved to the node `f` that was free, and `p`, which was before it, is linked to `f`; a new key
  -- stands in `m`.
  pub record Moved (m f p : ℕ) (old free new before after : Node Number) : Type 0 where
    pub distinct : m ≢ f
    pub distinct_before : p ≢ m
    pub was : At nodes m old
    pub was_free : At nodes f free
    pub was_before : At nodes p before
    pub used : is_nil old.i_key ≡ false
    pub empty : is_nil free.i_key ≡ true
    pub now : At nodes' m new
    pub now_free : At nodes' f old
    pub now_before : At nodes' p after
    pub key : is_nil new.i_key ≡ false
    pub same_key : after.i_key ≡ before.i_key
    pub same_val : after.i_val ≡ before.i_val
    pub linked : before.next ≡ some m
    pub next_before : after.next ≡ some f
    pub next : new.next ≡ none
    pub count : count_used nodes' ≡ suc (count_used nodes)
    pub others : (i : ℕ) → i ≢ m → i ≢ f → i ≢ p → get_elem? nodes' i ≡ get_elem? nodes i

nil-clash : (b : Bool) → b ≡ true → b ≡ false → ⊥
nil-clash b e e' = cc

pub some-inj : {i j : ℕ} → some i ≡ some j → i ≡ j
some-inj h = cc

pub link-clash : {o : Option ℕ} {i : ℕ} → o ≡ none → o ≡ some i → ⊥
link-clash e e' = cc

module _ {Number : Type 0} {nodes : List (Node Number)} {rank : ℕ → ℕ}
    (links : Links nodes rank) where
  -- A node without a key is on no chain.
  pub free-source :
      {f j : ℕ} {n : Node Number} → At nodes f n → is_nil n.i_key ≡ true → Edge nodes f j → ⊥
  free-source {f} {j} at empty e =
      let u = links.source f j e in
      nil-clash _ empty (subst (λ x. is_nil x.i_key ≡ false) (At-same u.at at) u.key)

  pub free-target :
      {f i : ℕ} {n : Node Number} → At nodes f n → is_nil n.i_key ≡ true → Edge nodes i f → ⊥
  free-target {f} {i} at empty e =
      let u = links.target i f e in
      nil-clash _ empty (subst (λ x. is_nil x.i_key ≡ false) (At-same u.at at) u.key)

module _ {Number : Type 0} {nodes nodes' : List (Node Number)} {rank : ℕ → ℕ}
    (links : Links nodes rank) where
  module _ {m : ℕ} {old new : Node Number} (c : Overwritten nodes nodes' m old new) where
    Edge-back : (i j : ℕ) → Edge nodes' i j → Edge nodes i j
    Edge-back i j e = elim (same-or-not i m) [
      | inl q ↦ record {
        from = old;
        at = ap (get_elem? nodes) q ∙ c.was;
        next =
            sym c.next
            ∙ ap (λ x. x.next) (At-same c.now (sym (ap (get_elem? nodes') q) ∙ e.at))
            ∙ e.next;
      }
      | inr q ↦ record { from = e.from; at = sym (c.others i q) ∙ e.at; next = e.next }
    ]

    pub Overwritten-Edge : (i j : ℕ) → Edge nodes i j → Edge nodes' i j
    Overwritten-Edge i j e = elim (same-or-not i m) [
      | inl q ↦ record {
        from = new;
        at = ap (get_elem? nodes') q ∙ c.now;
        next =
            c.next
            ∙ ap (λ x. x.next) (At-same c.was (sym (ap (get_elem? nodes) q) ∙ e.at))
            ∙ e.next;
      }
      | inr q ↦ record { from = e.from; at = c.others i q ∙ e.at; next = e.next }
    ]

    Overwritten-Used : (i : ℕ) → Used nodes i → Used nodes' i
    Overwritten-Used i u = elim (same-or-not i m) [
      | inl q ↦ record { node = new; at = ap (get_elem? nodes') q ∙ c.now; key = c.key }
      | inr q ↦ record { node = u.node; at = c.others i q ∙ u.at; key = u.key }
    ]

    pub Overwritten-Reach : {i j : ℕ} → Reach nodes i j → Reach nodes' i j
    Overwritten-Reach here = here
    Overwritten-Reach (step {i = i} {j = j} e r) =
        step (Overwritten-Edge i j e) (Overwritten-Reach r)

    -- The rank of the node, which has none if it was free.
    abbrev pub overwritten_rank : ℕ → ℕ
    overwritten_rank i = if i == m && is_nil old.i_key then 0 else rank i

    Used-back : (i : ℕ) → i ≢ m → Used nodes' i → Used nodes i
    Used-back i q u = record { node = u.node; at = sym (c.others i q) ∙ u.at; key = u.key }

    overwritten-descends : (i j : ℕ) → Edge nodes i j → overwritten_rank j < overwritten_rank i
    overwritten-descends i j e = elim (Bool-cases (is_nil old.i_key)) [
      | inl free ↦
          let at_i : i ≢ m = λ q. free-source links c.was free (subst (λ k. Edge nodes k j) q e) in
          let at_j : j ≢ m = λ q. free-target links c.was free (subst (λ k. Edge nodes i k) q e) in
          ground (arith, links.descends i j e)
      | inr used ↦ ground (arith, links.descends i j e)
    ]

    module _ (le : count_used nodes ≤ count_used nodes')
        (lt : is_nil old.i_key ≡ true → count_used nodes < count_used nodes') where
      overwritten-bound : (i : ℕ) → Used nodes' i → overwritten_rank i < count_used nodes'
      overwritten-bound i u = elim (same-or-not i m) [
        | inl q ↦ elim (Bool-cases (is_nil old.i_key)) [
          | inl free ↦ let pos = lt free in ground arith
          | inr used ↦
              let b =
                links.bound i
                  (record { node = old; at = ap (get_elem? nodes) q ∙ c.was; key = used }) in
              ground arith
        ]
        | inr q ↦ let b = links.bound i (Used-back i q u) in ground arith
      ]

      pub Overwritten-Links : Links nodes' overwritten_rank
      Overwritten-Links = record {
        descends = λ i j e. overwritten-descends i j (Edge-back i j e);
        single = λ i j k e e'. links.single i j k (Edge-back i k e) (Edge-back j k e');
        source = λ i j e. Overwritten-Used i (links.source i j (Edge-back i j e));
        target = λ i j e. Overwritten-Used j (links.target i j (Edge-back i j e));
        bound = overwritten-bound;
      }
