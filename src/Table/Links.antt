-- ===== src/Table/Links.antt =====
-- The links of the nodes of a table: chains that do not meet and have no cycle, over the nodes that are in use.
use soft_renderer_lua.Base.{
  ℕ, zero, suc, ◌+◌, ◌≤◌, ◌<◌, ◌≡◌, ◌≢◌, refl, sym, ◌⊎◌, ◌∙◌, arith, true, false, ◌==◌, Bool-cases,
  inl, inr, if◌then◌else◌, Option, none, some, List, [], ◌∷◌, length, get_elem?, set,
}
use soft_renderer_lua.Table.{TValue, Node, is_nil}
use soft_renderer_lua.Table.Chains.{ChainEnds, last, link}

module _ {Number : Type 0} where
  -- The node at an index
  abbrev pub At : List (Node Number) → ℕ → Node Number → Type 0
  At nodes i n = get_elem? nodes i ≡ some n

  pub At-same : {o : Option (Node Number)} {n n' : Node Number} → o ≡ some n → o ≡ some n' → n ≡ n'
  At-same {n} {n'} e e' = same (sym e ∙ e')
    where
      same : some n ≡ some n' → n ≡ n'
      same h = cc

  pub record Edge (nodes : List (Node Number)) (i j : ℕ) : Type 0 where
    pub from : Node Number
    pub at : At nodes i from
    pub next : from.next ≡ some j

  -- A node that has or had a key
  pub record Used (nodes : List (Node Number)) (i : ℕ) : Type 0 where
    pub node : Node Number
    pub at : At nodes i node
    pub key : is_nil node.i_key ≡ false

  pub data Reach (nodes : List (Node Number)) : ℕ → ℕ → Type 0 where
    here : {i : ℕ} → Reach nodes i i
    step : {i j k : ℕ} → Edge nodes i j → Reach nodes j k → Reach nodes i k

  abbrev pub used_key : TValue Number → ℕ
  used_key k = if is_nil k then 0 else 1

  -- How many nodes are in use
  unfoldable pub count_used : List (Node Number) → ℕ
  count_used [] = 0
  count_used (n ∷ nodes) = used_key n.i_key + count_used nodes

  pub count_used-le : (nodes : List (Node Number)) → count_used nodes ≤ length nodes
  unfolding count_used
  count_used-le [] = omega arith
  count_used-le (n ∷ nodes) = ground (arith, count_used-le nodes)

  pub count_used-set :
      (nodes : List (Node Number)) (i : ℕ) (n n' : Node Number)
      → At nodes i n
      → count_used (set nodes i n') + used_key n.i_key ≡ count_used nodes + used_key n'.i_key
  unfolding count_used
  count_used-set [] i n n' e = absurd (cc)
  count_used-set (m ∷ nodes) zero n n' e =
      let same : m ≡ n = At-same refl e in rw same (omega arith)
  count_used-set (m ∷ nodes) (suc i) n n' e = omega (arith, count_used-set nodes i n n' e)

  -- `rank` falls along the links.
  pub record Links (nodes : List (Node Number)) (rank : ℕ → ℕ) : Type 0 where
    pub descends : (i j : ℕ) → Edge nodes i j → rank j < rank i
    pub single : (i j k : ℕ) → Edge nodes i k → Edge nodes j k → i ≡ j
    pub source : (i j : ℕ) → Edge nodes i j → Used nodes i
    pub target : (i j : ℕ) → Edge nodes i j → Used nodes j
    pub bound : (i : ℕ) → Used nodes i → rank i < count_used nodes

  Edge-or-end : (n : Node Number) → (n.next ≡ none) ⊎ ((j : ℕ) × (n.next ≡ some j))
  Edge-or-end n = of n.next
    where
      of : (o : Option ℕ) → (o ≡ none) ⊎ ((j : ℕ) × (o ≡ some j))
      of none = inl refl
      of (some j) = inr (j, refl)

  -- The chain of a node is no longer than its rank says.
  pub chain-ends :
      {nodes : List (Node Number)} {rank : ℕ → ℕ} (k i : ℕ) (n : Node Number)
      → Links nodes rank
      → At nodes i n
      → rank i < k
      → ChainEnds nodes k i
  chain-ends {nodes} zero i n links at lt = absurd (omega arith)
  chain-ends {nodes} (suc k) i n links at lt = elim (Edge-or-end n) [
    | inl e ↦ last n at e
    | inr (j, e) ↦
        let edge : Edge nodes i j = record { from = n; at = at; next = e } in
        let to = links.target i j edge in
        link n at e (chain-ends k j to.node links to.at (omega (arith, links.descends i j edge)))
  ]

  pub unused-chain :
      {nodes : List (Node Number)} {rank : ℕ → ℕ} (k i : ℕ) (n : Node Number)
      → Links nodes rank
      → At nodes i n
      → is_nil n.i_key ≡ true
      → ChainEnds nodes (suc k) i
  unused-chain k i n links at empty = elim (Edge-or-end n) [
    | inl e ↦ last n at e
    | inr (j, e) ↦
        let from = links.source i j (record { from = n; at = at; next = e }) in
        absurd (differs from.node from.key (At-same from.at at) empty)
  ]
    where
      differs : (m : Node Number) → is_nil m.i_key ≡ false → m ≡ n → is_nil n.i_key ≡ true → ⊥
      differs m h e h' = cc

-- Both `i ≡ j` and not, with the test
pub same-or-not : (i j : ℕ) → (i ≡ j) ⊎ (i ≢ j)
same-or-not i j = elim (Bool-cases (i == j)) [
  | inl e ↦ inl (ground arith)
  | inr e ↦ inr (ground arith)
]
