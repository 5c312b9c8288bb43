-- ===== src/Table/Agree.antt =====
-- Tables whose nodes have the same keys: the search gives the same place in both.
use mathlib.Core.Path.{fun_ext}
use soft_renderer_lua.Base.{
  ℕ, ◌≡◌, refl, sym, ◌∙◌, subst, arith, true, false, Option, some, List, length,
}
use soft_renderer_lua.Table.{
  NumberOps, TValue, nil, boolean, light_userdata, number, string, object, Node, Table, Slot,
  node_slot, is_nil, sizenode, hashpow2, hashmod, hashnum, rawequal_obj, mainposition, get_any,
}
use soft_renderer_lua.Table.Links.{At, Links}
use soft_renderer_lua.Table.Keys.{KeyLaws, Keys}
use soft_renderer_lua.Table.Lookup.{Hashed, get_any_hit, get_any-Search, Search, hit, missing}

module _ {Number : Type 0} (ops : NumberOps Number) where
  -- The main positions depend on the size of the node vector only.
  pub main-size :
      (t t' : Table Number) (k : TValue Number)
      → t'.lsizenode ≡ t.lsizenode
      → mainposition ops t' k ≡ mainposition ops t k
  unfolding mainposition hashpow2 hashmod hashnum sizenode
  main-size t t' nil e = rw e refl
  main-size t t' (boolean b) e = rw e refl
  main-size t t' (light_userdata p) e = rw e refl
  main-size t t' (number n) e = rw e refl
  main-size t t' (string s) e = rw e refl
  main-size t t' (object tag a) e = rw e refl

  pub sizenode-same : (t t' : Table Number) → t'.lsizenode ≡ t.lsizenode → sizenode t' ≡ sizenode t
  unfolding sizenode
  sizenode-same t t' e = rw e refl

  -- A table with the same sizes, and nodes in order
  pub Hashed-same :
      {Ok : TValue Number → Type 0} (t t' : Table Number)
      → (inv : Hashed ops Ok t) → t'.lsizenode ≡ t.lsizenode
      → t'.lastfree ≡ t.lastfree
      → t'.node_is_dummy ≡ t.node_is_dummy
      → length t'.node ≡ length t.node
      → Links t'.node inv.rank
      → Keys (mainposition ops t) (rawequal_obj ops) Ok t'.node
      → Hashed ops Ok t'
  Hashed-same {Ok} t t' inv e lastfree dummy size links keys = record {
    size = size ∙ inv.size ∙ sym (sizenode-same t t' e);
    rank = inv.rank;
    links = links;
    keys =
        subst (λ main. Keys main (rawequal_obj ops) Ok t'.node)
          (fun_ext (λ k. sym (main-size t t' k e))) keys;
    lastfree = omega (arith, inv.lastfree, lastfree, size);
    dummy = λ d. lastfree ∙ inv.dummy (sym dummy ∙ d);
  }

-- Where the first vector has a node, the second has one with the same key.
abbrev pub KeysIn : {Number : Type 0} → List (Node Number) → List (Node Number) → Type 0
KeysIn {Number} nodes nodes' =
    (j : ℕ) (m : Node Number)
    → At nodes j m
    → (m' : Node Number) × At nodes' j m' × (m'.i_key ≡ m.i_key)

module _ {Number : Type 0} (ops : NumberOps Number) (Ok : TValue Number → Type 0)
    (laws : (t : Table Number) → KeyLaws (mainposition ops t) (rawequal_obj ops) Ok) where
  pub same_search :
      (t t' : Table Number) (inv : Hashed ops Ok t) (inv' : Hashed ops Ok t')
      → KeysIn t.node t'.node
      → KeysIn t'.node t.node
      → (k : TValue Number) → Ok k
      → is_nil k ≡ false
      → get_any ops t' k ≡ get_any ops t k
  same_search t t' inv inv' there back k ok used =
      of (get_any-Search ops Ok laws t inv k ok used) (get_any-Search ops Ok laws t' inv' k ok used)
        refl
    where
      known :
          (i : ℕ) (n : Node Number)
          → rawequal_obj ops n.i_key k ≡ true
          → (m : Node Number) × At t'.node i m × (m.i_key ≡ n.i_key)
          → get_any ops t' k ≡ some (node_slot i)
      known i n e (m, at, key) =
          let eq : rawequal_obj ops m.i_key k ≡ true =
            subst (λ x. rawequal_obj ops x k ≡ true) (sym key) e in
          get_any_hit ops Ok laws t' inv' k i m ok at ((laws t).not_nil _ _ used eq) eq

      of :
          {o o' : Option Slot}
          → Search ops Ok laws t inv k o
          → Search ops Ok laws t' inv' k o'
          → get_any ops t' k ≡ o'
          → get_any ops t' k ≡ o
      of (hit i n at e run) s r = known i n e (there i n at) ∙ sym run
      of (missing run unseen) (missing run' unseen') r = r ∙ run' ∙ sym run
      of (missing run unseen) (hit i n at e run') r =
          let (m, at', key) = back i n at in
          absurd (unseen i m at' (subst (λ x. rawequal_obj ops x k ≡ true) (sym key) e))
