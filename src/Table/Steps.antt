-- ===== src/Table/Steps.antt =====
-- What the steps of newkey do to the nodes: the free place, the node before a node, and the three changes.
use soft_renderer_lua.Base.{
  ℕ, zero, suc, ◌≤◌, ◌<◌, ◌≡◌, ◌≢◌, refl, sym, ap, ◌∙◌, subst, arith, true, false, ◌==◌, Bool-cases,
  ◌⊎◌, inl, inr, if◌then◌else◌, Option, none, some, List, get_elem?, set, get_elem?-set_self,
  get_elem?-set_ne, lt_of_get_elem?,
}
use soft_renderer_lua.Table.{TValue, Node, Table, node_slot, is_nil}
use soft_renderer_lua.Table.Insert.{free_from, find_previous, set_next, put_key, set_nodes}
use soft_renderer_lua.Table.Links.{
  At, Edge, Reach, here, step, Links, count_used, count_used-set, used_key,
}
use soft_renderer_lua.Table.Changes.{some-inj}

module _ {Number : Type 0} where
  -- The free node is before the old `lastfree`, and its key is nil.
  pub record Free (nodes : List (Node Number)) (lastfree f : ℕ) : Type 0 where
    pub node : Node Number
    pub at : At nodes f node
    pub empty : is_nil node.i_key ≡ true
    pub before : f < lastfree

  free_from-suc :
      (nodes : List (Node Number)) (i : ℕ) (n : Node Number)
      → At nodes i n
      → free_from nodes (suc i) ≡ (if is_nil n.i_key then some i else free_from nodes i)
  unfolding free_from
  free_from-suc nodes i n at = rw at refl

  free_from_out :
      (nodes : List (Node Number)) (i : ℕ)
      → get_elem? nodes i ≡ none
      → free_from nodes (suc i) ≡ none
  unfolding free_from
  free_from_out nodes i at = rw at refl

  pub free_from-Free :
      (nodes : List (Node Number)) (i f : ℕ) → free_from nodes i ≡ some f → Free nodes i f
  unfolding free_from
  free_from-Free nodes zero f h = absurd (cc)
  free_from-Free nodes (suc i) f h = elim (found (get_elem? nodes i)) [
    | inl out ↦ absurd (clash (sym (free_from_out nodes i out) ∙ h))
    | inr (n, at) ↦ elim (Bool-cases (is_nil n.i_key)) [
      | inl empty ↦
          let same : i ≡ f = some-inj (sym (free_from-suc nodes i n at ∙ rw empty refl) ∙ h) in
          record {
            node = n;
            at = ap (get_elem? nodes) (sym same) ∙ at;
            empty = empty;
            before = omega arith;
          }
      | inr used ↦
          let rest =
            free_from-Free nodes i f (sym (free_from-suc nodes i n at ∙ rw used refl) ∙ h) in
          record {
            node = rest.node;
            at = rest.at;
            empty = rest.empty;
            before = omega (arith, rest.before);
          }
    ]
  ]
    where
      found : (o : Option (Node Number)) → (o ≡ none) ⊎ ((n : Node Number) × (o ≡ some n))
      found none = inl refl
      found (some n) = inr (n, refl)

      clash : ◌≡◌ {A = Option ℕ} none (some f) → ⊥
      clash e = cc

  find_previous-suc :
      (fuel : ℕ) (nodes : List (Node Number)) (i mp : ℕ) (n : Node Number) (j : ℕ)
      → At nodes i n
      → n.next ≡ some j
      → find_previous (suc fuel) nodes i mp
        ≡ elim (j == mp) [ true ↦ some i | false ↦ find_previous fuel nodes j mp ]
  unfolding find_previous
  find_previous-suc fuel nodes i mp n j at next = rw (at, next) refl

  -- The node before `m`, on the way to it
  pub find_previous-finds :
      {nodes : List (Node Number)} {rank : ℕ → ℕ} {i j m : ℕ} (fuel : ℕ)
      → Links nodes rank
      → Reach nodes i j
      → j ≡ m
      → i ≢ m
      → rank i < fuel
      → (p : ℕ) × (find_previous fuel nodes i m ≡ some p) × Edge nodes p m
  find_previous-finds fuel links here q r lt = absurd (r q)
  find_previous-finds zero links (step e reach) q r lt = absurd (omega arith)
  find_previous-finds {nodes} {m} (suc fuel) links (step {i = i} {j = k} e reach) q r lt =
      let run = find_previous-suc fuel nodes i m e.from k e.at e.next in
      elim (Bool-cases (k == m)) [
        | inl hit ↦ (i, run ∙ rw hit refl, subst (Edge nodes i) (eq k m hit) e)
        | inr other ↦
            let (p, more, edge) =
              find_previous-finds fuel links reach q (ne k m other)
                (omega (arith, links.descends i k e)) in
            (p, run ∙ rw other more, edge)
      ]
    where
      eq : (a b : ℕ) → (a == b) ≡ true → a ≡ b
      eq a b h = ground arith

      ne : (a b : ℕ) → (a == b) ≡ false → a ≢ b
      ne a b h = ground arith

  -- A write and its effect
  pub written :
      (nodes : List (Node Number)) (i : ℕ) (n n' : Node Number)
      → At nodes i n
      → At (set nodes i n') i n'
  written nodes i n n' at = get_elem?-set_self nodes i n' (lt_of_get_elem? nodes i n at)

  pub kept :
      (nodes : List (Node Number)) (i j : ℕ) (n' : Node Number)
      → j ≢ i
      → get_elem? (set nodes i n') j ≡ get_elem? nodes j
  kept nodes i j n' ne = get_elem?-set_ne nodes n' (λ e. ne (sym e))

  -- A write that leaves the key in use or not.
  pub count-same :
      (nodes : List (Node Number)) (i : ℕ) (n n' : Node Number)
      → At nodes i n
      → is_nil n'.i_key ≡ is_nil n.i_key
      → count_used (set nodes i n') ≡ count_used nodes
  count-same nodes i n n' at e =
      let same : used_key n'.i_key ≡ used_key n.i_key = ap (λ b. if b then 0 else 1) e in
      omega (arith, count_used-set nodes i n n' at, same)

  pub count-new :
      (nodes : List (Node Number)) (i : ℕ) (n n' : Node Number)
      → At nodes i n
      → is_nil n.i_key ≡ true
      → is_nil n'.i_key ≡ false
      → count_used (set nodes i n') ≡ suc (count_used nodes)
  count-new nodes i n n' at e e' =
      let before : used_key n.i_key ≡ 0 = ap (λ b. if b then 0 else 1) e in
      let after : used_key n'.i_key ≡ 1 = ap (λ b. if b then 0 else 1) e' in
      omega (arith, count_used-set nodes i n n' at, before, after)

  pub count-put :
      (nodes : List (Node Number)) (i : ℕ) (n n' : Node Number)
      → At nodes i n
      → is_nil n'.i_key ≡ false
      → count_used nodes ≤ count_used (set nodes i n')
  count-put nodes i n n' at e = elim (Bool-cases (is_nil n.i_key)) [
    | inl free ↦ omega (arith, count-new nodes i n n' at free e)
    | inr used ↦ omega (arith, count-same nodes i n n' at (e ∙ sym used))
  ]

  pub put_key_lem :
      (t : Table Number) (nodes : List (Node Number)) (i : ℕ) (key : TValue Number)
      (n : Node Number)
      → At nodes i n
      → put_key t nodes i key
        ≡ some (node_slot i, set_nodes t (set nodes i (record n { i_key = key })))
  unfolding put_key
  put_key_lem t nodes i key n at = rw at refl

  pub set_next_lem :
      (nodes : List (Node Number)) (i : ℕ) (o : Option ℕ) (n : Node Number)
      → At nodes i n
      → set_next nodes i o ≡ some (set nodes i (record n { next = o }))
  unfolding set_next
  set_next_lem nodes i o n at = rw at refl
