-- ===== src/Table/Splice.antt =====
-- Linking a new key behind its main position keeps the links of a table.
use soft_renderer_lua.Base.{
  ℕ, suc, ◌+◌, ◌<◌, ◌≡◌, ◌≢◌, sym, ap, ◌∙◌, subst, arith, ◌==◌, leb, inl, inr, if◌then◌else◌, List,
  get_elem?,
}
use soft_renderer_lua.Table.{Node, is_nil}
use soft_renderer_lua.Table.Links.{
  At-same, Edge, Used, Reach, here, step, Links, count_used, same-or-not,
}
use soft_renderer_lua.Table.Changes.{Spliced, free-source, free-target, some-inj}

module _ {Number : Type 0} {nodes nodes' : List (Node Number)} {rank : ℕ → ℕ}
    (links : Links nodes rank) {m f : ℕ} {old linked free new : Node Number}
    (c : Spliced nodes nodes' m f old linked free new) where
  -- Where a link of the new nodes comes from.
  data Origin (i j : ℕ) : Type 0 where
    head : i ≡ m → j ≡ f → Origin i j
    tail : i ≡ f → Edge nodes m j → Origin i j
    rest : i ≢ m → i ≢ f → Edge nodes i j → Origin i j

  origin : (i j : ℕ) → Edge nodes' i j → Origin i j
  origin i j e = elim (same-or-not i m) [
    | inl q ↦ head q (
        some-inj
          (sym e.next ∙ ap (λ x. x.next) (At-same e.at (ap (get_elem? nodes') q ∙ c.now)) ∙ c.next))
    | inr q ↦ elim (same-or-not i f) [
      | inl r ↦ tail r (record {
        from = old;
        at = c.was;
        next =
            sym c.next_free
            ∙ ap (λ x. x.next) (At-same c.now_free (sym (ap (get_elem? nodes') r) ∙ e.at))
            ∙ e.next;
      })
      | inr r ↦ rest q r (record { from = e.from; at = sym (c.others i q r) ∙ e.at; next = e.next })
    ]
  ]

  nothing_to_free : (i : ℕ) → Edge nodes i f → ⊥
  nothing_to_free i e = free-target links c.was_free c.empty e

  -- The rank of node `m` and of what is before it grows by one.
  abbrev pub spliced_rank : ℕ → ℕ
  spliced_rank i = if i == f then rank m else if leb (rank m) (rank i) then rank i + 1 else rank i

  rank_free : spliced_rank f ≡ rank m
  rank_free = ground arith

  rank_head : spliced_rank m ≡ rank m + 1
  rank_head = let d = c.distinct in ground arith

  descends-rest : (i j : ℕ) → i ≢ f → j ≢ f → rank j < rank i → spliced_rank j < spliced_rank i
  descends-rest i j p q lt = ground arith

  descends-tail : (j : ℕ) → j ≢ f → rank j < rank m → spliced_rank j < rank m
  descends-tail j q lt = ground arith

  spliced-descends : (i j : ℕ) → Origin i j → spliced_rank j < spliced_rank i
  spliced-descends i j (head p q) = rw (p, q, rank_free, rank_head) (omega arith)
  spliced-descends i j (tail p e) =
      rw (p, rank_free)
        (descends-tail j (λ q. nothing_to_free m (subst (Edge nodes m) q e)) (links.descends m j e))
  spliced-descends i j (rest p q e) =
      descends-rest i j q (λ r. nothing_to_free i (subst (Edge nodes i) r e)) (links.descends i j e)

  spliced-single : (i j k : ℕ) → Origin i k → Origin j k → i ≡ j
  spliced-single i j k (head p q) (head p' q') = p ∙ sym p'
  spliced-single i j k (head p q) (tail p' e) =
      absurd (nothing_to_free m (subst (Edge nodes m) q e))
  spliced-single i j k (head p q) (rest p' q' e) =
      absurd (nothing_to_free j (subst (Edge nodes j) q e))
  spliced-single i j k (tail p e) (head p' q) =
      absurd (nothing_to_free m (subst (Edge nodes m) q e))
  spliced-single i j k (tail p e) (tail p' e') = p ∙ sym p'
  spliced-single i j k (tail p e) (rest p' q' e') = absurd (p' (links.single j m k e' e))
  spliced-single i j k (rest p q e) (head p' q') =
      absurd (nothing_to_free i (subst (Edge nodes i) q' e))
  spliced-single i j k (rest p q e) (tail p' e') = absurd (p (links.single i m k e e'))
  spliced-single i j k (rest p q e) (rest p' q' e') = links.single i j k e e'

  head_in_use : Used nodes' m
  head_in_use = record { node = linked; at = c.now; key = ap is_nil c.same_key ∙ c.used }

  free_in_use : Used nodes' f
  free_in_use = record { node = new; at = c.now_free; key = c.key }

  pub Spliced-Used : (i : ℕ) → Used nodes i → Used nodes' i
  Spliced-Used i u = elim (same-or-not i m) [
    | inl q ↦ subst (Used nodes') (sym q) head_in_use
    | inr q ↦ elim (same-or-not i f) [
      | inl r ↦ subst (Used nodes') (sym r) free_in_use
      | inr r ↦ record { node = u.node; at = c.others i q r ∙ u.at; key = u.key }
    ]
  ]

  spliced-source : (i j : ℕ) → Origin i j → Used nodes' i
  spliced-source i j (head p q) = subst (Used nodes') (sym p) head_in_use
  spliced-source i j (tail p e) = subst (Used nodes') (sym p) free_in_use
  spliced-source i j (rest p q e) = Spliced-Used i (links.source i j e)

  spliced-target : (i j : ℕ) → Origin i j → Used nodes' j
  spliced-target i j (head p q) = subst (Used nodes') (sym q) free_in_use
  spliced-target i j (tail p e) = Spliced-Used j (links.target m j e)
  spliced-target i j (rest p q e) = Spliced-Used j (links.target i j e)

  rank-le : (i k : ℕ) → rank m < k → (i ≢ f → rank i < k) → spliced_rank i < suc k
  rank-le i k lt h = elim (same-or-not i f) [
    | inl q ↦ rw (q, rank_free) (omega arith)
    | inr q ↦ let b = h q in ground arith
  ]

  spliced-bound : (i : ℕ) → Used nodes' i → spliced_rank i < count_used nodes'
  spliced-bound i u =
      let used_m : Used nodes m = record { node = old; at = c.was; key = c.used } in
      rw c.count (
        rank-le i (count_used nodes) (links.bound m used_m) λ q. elim (same-or-not i m) [
          | inl r ↦ links.bound i (subst (Used nodes) (sym r) used_m)
          | inr r ↦
              links.bound i
                (record { node = u.node; at = sym (c.others i r q) ∙ u.at; key = u.key })
        ])

  pub Spliced-Links : Links nodes' spliced_rank
  Spliced-Links = record {
    descends = λ i j e. spliced-descends i j (origin i j e);
    single = λ i j k e e'. spliced-single i j k (origin i k e) (origin j k e');
    source = λ i j e. spliced-source i j (origin i j e);
    target = λ i j e. spliced-target i j (origin i j e);
    bound = spliced-bound;
  }

  -- What was reached is reached, and the new node is reached from the main position.
  pub Spliced-Reach : {i j : ℕ} → Reach nodes i j → Reach nodes' i j
  Spliced-Reach here = here
  Spliced-Reach (step {i = i} {j = j} {k = b} e r) = elim (same-or-not i m) [
    | inl q ↦
        subst (λ x. Reach nodes' x b) (sym q)
          (step to_free (step (from_free j (subst (λ k. Edge nodes k j) q e)) (Spliced-Reach r)))
    | inr q ↦ elim (same-or-not i f) [
      | inl s ↦ absurd (free-source links c.was_free c.empty (subst (λ k. Edge nodes k j) s e))
      | inr s ↦
          step (record { from = e.from; at = c.others i q s ∙ e.at; next = e.next })
            (Spliced-Reach r)
    ]
  ]
    where
      to_free : Edge nodes' m f
      to_free = record { from = linked; at = c.now; next = c.next }

      from_free : (j : ℕ) → Edge nodes m j → Edge nodes' f j
      from_free j e = record {
        from = new;
        at = c.now_free;
        next = c.next_free ∙ ap (λ x. x.next) (At-same c.was e.at) ∙ e.next;
      }

  pub Spliced-Reach_new : Reach nodes' m f
  Spliced-Reach_new = step (record { from = linked; at = c.now; next = c.next }) here
