-- ===== src/Table/Keys.antt =====
-- The keys in the hash part of a table: each is reached from its main position, where a key stands that is at
-- home there, and no key stands twice. `main` is the main position and `eq` the raw equality.
use soft_renderer_lua.Base.{ℕ, ◌≡◌, sym, ap, ◌⊎◌, ◌∙◌, subst, Bool, true, false, inl, inr, List}
use soft_renderer_lua.Table.{TValue, Node, is_nil}
use soft_renderer_lua.Table.Links.{At, Reach}

module _ {Number : Type 0} where
  -- Of the keys that satisfy `Ok`, equal ones have one main position.
  pub record KeyLaws (main : TValue Number → ℕ) (eq : TValue Number → TValue Number → Bool)
      (Ok : TValue Number → Type 0) : Type 0 where
    pub symmetric : (a b : TValue Number) → eq a b ≡ true → eq b a ≡ true
    pub transitive : (a b c : TValue Number) → eq a b ≡ true → eq b c ≡ true → eq a c ≡ true
    pub same_main : (a b : TValue Number) → Ok a → Ok b → eq a b ≡ true → main a ≡ main b
    pub not_nil : (a b : TValue Number) → is_nil b ≡ false → eq a b ≡ true → is_nil a ≡ false

  -- At the main position of the key stands a key that is at home there.
  pub record Home (main : TValue Number → ℕ) (nodes : List (Node Number)) (k : TValue Number)
      : Type 0 where
    pub node : Node Number
    pub at : At nodes (main k) node
    pub key : is_nil node.i_key ≡ false
    pub same : main node.i_key ≡ main k

  pub record Keys (main : TValue Number → ℕ) (eq : TValue Number → TValue Number → Bool)
      (Ok : TValue Number → Type 0) (nodes : List (Node Number)) : Type 0 where
    pub reach :
        (i : ℕ) (n : Node Number)
        → At nodes i n
        → is_nil n.i_key ≡ false
        → Reach nodes (main n.i_key) i
    pub home :
        (i : ℕ) (n : Node Number) → At nodes i n → is_nil n.i_key ≡ false → Home main nodes n.i_key
    pub unique :
        (i j : ℕ) (n n' : Node Number)
        → At nodes i n
        → At nodes j n'
        → is_nil n.i_key ≡ false
        → eq n.i_key n'.i_key ≡ true
        → i ≡ j
    pub fresh :
        (i : ℕ) (n : Node Number) → At nodes i n → is_nil n.i_key ≡ true → is_nil n.i_val ≡ true
    pub ok : (i : ℕ) (n : Node Number) → At nodes i n → is_nil n.i_key ≡ false → Ok n.i_key

  -- A node of the old nodes that node `i` of the new ones is a copy of
  pub record Kept (nodes : List (Node Number)) (place : ℕ → ℕ) (i : ℕ) (n : Node Number)
      : Type 0 where
    pub index : ℕ
    pub node : Node Number
    pub at : At nodes index node
    pub moved : i ≡ place index
    pub key : n.i_key ≡ node.i_key
    pub val : n.i_val ≡ node.i_val

  -- A new key has come to node `c`, without a value, and the old nodes are where `place` says; only one without a
  -- value can be lost.
  pub record Placed (nodes nodes' : List (Node Number)) (place : ℕ → ℕ) (c : ℕ) (new : Node Number)
      : Type 0 where
    pub now : At nodes' c new
    pub key : is_nil new.i_key ≡ false
    pub empty : is_nil new.i_val ≡ true
    pub back :
        (i : ℕ) (n : Node Number) → At nodes' i n → ((i ≡ c) × (n ≡ new)) ⊎ Kept nodes place i n
    pub forth :
        (i : ℕ) (n : Node Number)
        → At nodes i n
        → is_nil n.i_val ≡ false
        → (n' : Node Number) × At nodes' (place i) n' × (n'.i_key ≡ n.i_key) × (n'.i_val ≡ n.i_val)

module _ {Number : Type 0} {main : TValue Number → ℕ} {eq : TValue Number → TValue Number → Bool}
    {Ok : TValue Number → Type 0} {nodes nodes' : List (Node Number)} {place : ℕ → ℕ} {c : ℕ}
    {new : Node Number} (laws : KeyLaws main eq Ok) (keys : Keys main eq Ok nodes)
    (placed : Placed nodes nodes' place c new)
    (absent : (i : ℕ) (n : Node Number) → At nodes i n → eq n.i_key new.i_key ≡ true → ⊥) where
  Kept-unique :
      (i j : ℕ) (n n' : Node Number)
      → ((i ≡ c) × (n ≡ new)) ⊎ Kept nodes place i n
      → ((j ≡ c) × (n' ≡ new)) ⊎ Kept nodes place j n'
      → is_nil n.i_key ≡ false
      → eq n.i_key n'.i_key ≡ true
      → i ≡ j
  Kept-unique i j n n' (inl (p, q)) (inl (p', q')) used e = p ∙ sym p'
  Kept-unique i j n n' (inl (p, q)) (inr k) used e = absurd (
      absent k.index k.node k.at (
        laws.symmetric _ _
          (subst (λ x. eq new.i_key x ≡ true) k.key (subst (λ x. eq x.i_key n'.i_key ≡ true) q e))))
  Kept-unique i j n n' (inr k) (inl (p, q)) used e = absurd (
      absent k.index k.node k.at
        (subst (λ x. eq x new.i_key ≡ true) k.key (subst (λ x. eq n.i_key x.i_key ≡ true) q e)))
  Kept-unique i j n n' (inr k) (inr k') used e =
      k.moved
      ∙ ap place (
          keys.unique k.index k'.index k.node k'.node k.at k'.at (sym (ap is_nil k.key) ∙ used) (
            subst (λ x. eq x k'.node.i_key ≡ true) k.key
              (subst (λ x. eq n.i_key x ≡ true) k'.key e)))
      ∙ sym k'.moved

  nil-clash : (b : Bool) → b ≡ true → b ≡ false → ⊥
  nil-clash b e e' = cc

  Kept-fresh :
      (i : ℕ) (n : Node Number)
      → ((i ≡ c) × (n ≡ new)) ⊎ Kept nodes place i n
      → is_nil n.i_key ≡ true
      → is_nil n.i_val ≡ true
  Kept-fresh i n (inl (p, q)) e =
      absurd (nil-clash _ (subst (λ x. is_nil x.i_key ≡ true) q e) placed.key)
  Kept-fresh i n (inr k) e =
      ap is_nil k.val ∙ keys.fresh k.index k.node k.at (sym (ap is_nil k.key) ∙ e)

  Kept-ok :
      Ok new.i_key
      → (i : ℕ) (n : Node Number) → ((i ≡ c) × (n ≡ new)) ⊎ Kept nodes place i n
      → is_nil n.i_key ≡ false
      → Ok n.i_key
  Kept-ok new_ok i n (inl (p, q)) e = subst (λ x. Ok x.i_key) (sym q) new_ok
  Kept-ok new_ok i n (inr k) e =
      subst Ok (sym k.key) (keys.ok k.index k.node k.at (sym (ap is_nil k.key) ∙ e))

  -- It is enough to look at the new key, and at each old one where it is now.
  pub Placed-Keys :
      Ok new.i_key
      → Reach nodes' (main new.i_key) c × Home main nodes' new.i_key
      → ((i : ℕ) (n : Node Number)
          → At nodes i n
          → is_nil n.i_key ≡ false
          → Reach nodes' (main n.i_key) (place i) × Home main nodes' n.i_key)
      → Keys main eq Ok nodes'
  Placed-Keys new_ok at_new at_old = record {
    reach = λ i n at e. (reach_home i n (placed.back i n at) e).0;
    home = λ i n at e. (reach_home i n (placed.back i n at) e).1;
    unique =
        λ i j n n' at at' e q. Kept-unique i j n n' (placed.back i n at) (placed.back j n' at') e q;
    fresh = λ i n at e. Kept-fresh i n (placed.back i n at) e;
    ok = λ i n at e. Kept-ok new_ok i n (placed.back i n at) e;
  }
    where
      reach_home :
          (i : ℕ) (n : Node Number)
          → ((i ≡ c) × (n ≡ new)) ⊎ Kept nodes place i n
          → is_nil n.i_key ≡ false
          → Reach nodes' (main n.i_key) i × Home main nodes' n.i_key
      reach_home i n (inl (p, q)) e =
          subst (λ x. Reach nodes' (main x.i_key) i × Home main nodes' x.i_key) (sym q)
            (subst (λ j. Reach nodes' (main new.i_key) j × Home main nodes' new.i_key) (sym p)
              at_new)
      reach_home i n (inr k) e =
          subst (λ x. Reach nodes' (main x) i × Home main nodes' x) (sym k.key)
            (subst (λ j. Reach nodes' (main k.node.i_key) j × Home main nodes' k.node.i_key)
              (sym k.moved) (at_old k.index k.node k.at (sym (ap is_nil k.key) ∙ e)))
