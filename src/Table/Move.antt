-- ===== src/Table/Move.antt =====
-- Moving a colliding node to a free place keeps the links of a table.
use soft_renderer_lua.Base.{
  ℕ, ◌<◌, ◌≡◌, ◌≢◌, sym, ap, ◌∙◌, subst, arith, ◌==◌, inl, inr, if◌then◌else◌, List, get_elem?,
}
use soft_renderer_lua.Table.{Node, is_nil}
use soft_renderer_lua.Table.Links.{
  At-same, Edge, Used, Reach, here, step, Links, count_used, same-or-not,
}
use soft_renderer_lua.Table.Changes.{Moved, free-source, free-target, some-inj, link-clash}

module _ {Number : Type 0} {nodes nodes' : List (Node Number)} {rank : ℕ → ℕ}
    (links : Links nodes rank) {m f p : ℕ} {old free new before after : Node Number}
    (c : Moved nodes nodes' m f p old free new before after) where
  -- Where a link of the new nodes comes from.
  data Origin (i j : ℕ) : Type 0 where
    head : i ≡ p → j ≡ f → Origin i j
    tail : i ≡ f → Edge nodes m j → Origin i j
    rest : i ≢ m → i ≢ p → i ≢ f → Edge nodes i j → Origin i j

  into : Edge nodes p m
  into = record { from = before; at = c.was_before; next = c.linked }

  pub before-ne-free : p ≢ f
  before-ne-free e = free-source links c.was_free c.empty (subst (λ k. Edge nodes k m) e into)

  origin : (i j : ℕ) → Edge nodes' i j → Origin i j
  origin i j e = elim (same-or-not i m) [
    | inl q ↦ absurd (
        link-clash (ap (λ x. x.next) (At-same e.at (ap (get_elem? nodes') q ∙ c.now)) ∙ c.next)
          e.next)
    | inr q ↦ elim (same-or-not i f) [
      | inl r ↦ tail r (record {
        from = old;
        at = c.was;
        next =
            ap (λ x. x.next) (At-same c.now_free (sym (ap (get_elem? nodes') r) ∙ e.at)) ∙ e.next;
      })
      | inr r ↦ elim (same-or-not i p) [
        | inl s ↦ head s (
            some-inj (
              sym e.next
              ∙ ap (λ x. x.next) (At-same e.at (ap (get_elem? nodes') s ∙ c.now_before))
              ∙ c.next_before))
        | inr s ↦
            rest q s r (record { from = e.from; at = sym (c.others i q r s) ∙ e.at; next = e.next })
      ]
    ]
  ]

  nothing_to_free : (i : ℕ) → Edge nodes i f → ⊥
  nothing_to_free i e = free-target links c.was_free c.empty e

  abbrev pub moved_rank : ℕ → ℕ
  moved_rank i = if i == f then rank m else rank i

  rank_free : moved_rank f ≡ rank m
  rank_free = ground arith

  rank_other : (i : ℕ) → i ≢ f → moved_rank i ≡ rank i
  rank_other i q = ground arith

  moved-descends : (i j : ℕ) → Origin i j → moved_rank j < moved_rank i
  moved-descends i j (head q r) =
      rw (q, r, rank_free, rank_other p before-ne-free) (links.descends p m into)
  moved-descends i j (tail q e) =
      rw (q, rank_free, rank_other j (λ r. nothing_to_free m (subst (Edge nodes m) r e)))
        (links.descends m j e)
  moved-descends i j (rest q r s e) =
      rw (rank_other i s, rank_other j (λ z. nothing_to_free i (subst (Edge nodes i) z e)))
        (links.descends i j e)

  moved-single : (i j k : ℕ) → Origin i k → Origin j k → i ≡ j
  moved-single i j k (head q r) (head q' r') = q ∙ sym q'
  moved-single i j k (head q r) (tail q' e) = absurd (nothing_to_free m (subst (Edge nodes m) r e))
  moved-single i j k (head q r) (rest q' r' s' e) =
      absurd (nothing_to_free j (subst (Edge nodes j) r e))
  moved-single i j k (tail q e) (head q' r) = absurd (nothing_to_free m (subst (Edge nodes m) r e))
  moved-single i j k (tail q e) (tail q' e') = q ∙ sym q'
  moved-single i j k (tail q e) (rest q' r' s' e') = absurd (q' (links.single j m k e' e))
  moved-single i j k (rest q r s e) (head q' r') =
      absurd (nothing_to_free i (subst (Edge nodes i) r' e))
  moved-single i j k (rest q r s e) (tail q' e') = absurd (q (links.single i m k e e'))
  moved-single i j k (rest q r s e) (rest q' r' s' e') = links.single i j k e e'

  free_in_use : Used nodes' f
  free_in_use = record { node = old; at = c.now_free; key = c.used }

  before_in_use : Used nodes' p
  before_in_use =
      let u = links.source p m into in
      record {
        node = after;
        at = c.now_before;
        key = ap is_nil c.same_key ∙ ap (λ x. is_nil x.i_key) (At-same c.was_before u.at) ∙ u.key;
      }

  pub Moved-Used : (i : ℕ) → Used nodes i → Used nodes' i
  Moved-Used i u = elim (same-or-not i m) [
    | inl q ↦ record { node = new; at = ap (get_elem? nodes') q ∙ c.now; key = c.key }
    | inr q ↦ elim (same-or-not i f) [
      | inl r ↦ subst (Used nodes') (sym r) free_in_use
      | inr r ↦ elim (same-or-not i p) [
        | inl s ↦ subst (Used nodes') (sym s) before_in_use
        | inr s ↦ record { node = u.node; at = c.others i q r s ∙ u.at; key = u.key }
      ]
    ]
  ]

  moved-source : (i j : ℕ) → Origin i j → Used nodes' i
  moved-source i j (head q r) = subst (Used nodes') (sym q) before_in_use
  moved-source i j (tail q e) = subst (Used nodes') (sym q) free_in_use
  moved-source i j (rest q r s e) = Moved-Used i (links.source i j e)

  moved-target : (i j : ℕ) → Origin i j → Used nodes' j
  moved-target i j (head q r) = subst (Used nodes') (sym r) free_in_use
  moved-target i j (tail q e) = Moved-Used j (links.target m j e)
  moved-target i j (rest q r s e) = Moved-Used j (links.target i j e)

  m_in_use : Used nodes m
  m_in_use = record { node = old; at = c.was; key = c.used }

  was_in_use : (i : ℕ) → i ≢ f → Used nodes' i → Used nodes i
  was_in_use i q u = elim (same-or-not i m) [
    | inl r ↦ subst (Used nodes) (sym r) m_in_use
    | inr r ↦ elim (same-or-not i p) [
      | inl s ↦ subst (Used nodes) (sym s) (links.source p m into)
      | inr s ↦ record { node = u.node; at = sym (c.others i r q s) ∙ u.at; key = u.key }
    ]
  ]

  moved-bound : (i : ℕ) → Used nodes' i → moved_rank i < count_used nodes'
  moved-bound i u = rw c.count (elim (same-or-not i f) [
    | inl q ↦ let b = links.bound m m_in_use in rw (q, rank_free) (omega arith)
    | inr q ↦ let b = links.bound i (was_in_use i q u) in rw (rank_other i q) (omega arith)
  ])

  pub Moved-Links : Links nodes' moved_rank
  Moved-Links = record {
    descends = λ i j e. moved-descends i j (origin i j e);
    single = λ i j k e e'. moved-single i j k (origin i k e) (origin j k e');
    source = λ i j e. moved-source i j (origin i j e);
    target = λ i j e. moved-target i j (origin i j e);
    bound = moved-bound;
  }

  to_free : Edge nodes' p f
  to_free = record { from = after; at = c.now_before; next = c.next_before }

  from_free : (j : ℕ) → Edge nodes m j → Edge nodes' f j
  from_free j e = record {
    from = old;
    at = c.now_free;
    next = ap (λ x. x.next) (At-same c.was e.at) ∙ e.next;
  }

  other-Edge : (i j : ℕ) → i ≢ m → i ≢ p → Edge nodes i j → Edge nodes' i j
  other-Edge i j q r e = record {
    from = e.from;
    at =
        c.others i q (λ s. free-source links c.was_free c.empty (subst (λ k. Edge nodes k j) s e)) r
        ∙ e.at;
    next = e.next;
  }

  -- The moved node is reached from where it was reached.
  pub Moved-Reach_free : {i j : ℕ} → Reach nodes i j → j ≡ m → i ≢ m → Reach nodes' i f
  Moved-Reach_free here q r = absurd (r q)
  Moved-Reach_free (step {i = i} {j = j} e reach) q r = elim (same-or-not i p) [
    | inl s ↦ subst (λ x. Reach nodes' x f) (sym s) (step to_free here)
    | inr s ↦
        step (other-Edge i j r s e)
          (Moved-Reach_free reach q (λ z. s (links.single i p m (subst (Edge nodes i) z e) into)))
  ]

  into_only : (j : ℕ) → Edge nodes p j → j ≡ m
  into_only j e = some-inj (sym e.next ∙ ap (λ x. x.next) (At-same e.at c.was_before) ∙ c.linked)

  past_m : (k : ℕ) → Edge nodes m k → k ≢ m
  past_m k e q = omega (arith, subst (λ x. rank x < rank m) q (links.descends m k e))

  -- What was reached past it is reached past the free place.
  pub Moved-Reach : {i j : ℕ} → Reach nodes i j → i ≢ m → j ≢ m → Reach nodes' i j
  Moved-Reach here q r = here
  Moved-Reach (step {i = i} {j = j} e here) q r = elim (same-or-not i p) [
    | inl s ↦ absurd (r (into_only j (subst (λ x. Edge nodes x j) s e)))
    | inr s ↦ step (other-Edge i j q s e) here
  ]
  Moved-Reach (step {i = i} {j = j} e (step {j = k} {k = b} e' reach)) q r =
      elim (same-or-not i p) [
        | inl s ↦
            let from_m =
              subst (λ x. Edge nodes x k) (into_only j (subst (λ x. Edge nodes x j) s e)) e' in
            subst (λ x. Reach nodes' x b) (sym s)
              (step to_free (step (from_free k from_m) (Moved-Reach reach (past_m k from_m) r)))
        | inr s ↦ step (other-Edge i j q s e) (
            Moved-Reach (step e' reach)
              (λ z. s (links.single i p m (subst (Edge nodes i) z e) into)) r)
      ]
