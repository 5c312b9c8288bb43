-- ===== src/Table/Inserted.antt =====
-- What a new key leaves of a table, from a change of its nodes that places the key.
use mathlib.Core.Path.{fun_ext}
use soft_renderer_lua.Base.{
  ℕ, ◌≤◌, ◌≡◌, refl, sym, ◌∙◌, subst, arith, Bool, true, false, some, List, length,
}
use soft_renderer_lua.Table.{
  NumberOps, TValue, nil, boolean, light_userdata, number, string, object, Node, Table, node_slot,
  is_nil, sizenode, hashpow2, hashmod, hashnum, value_at, rawequal_obj, mainposition, get_any,
}
use soft_renderer_lua.Table.Insert.{set_lastfree, set_nodes}
use soft_renderer_lua.Table.Links.{At, Links}
use soft_renderer_lua.Table.Keys.{KeyLaws, Keys, Placed}
use soft_renderer_lua.Table.Lookup.{Hashed, get_any_hit, Placed-read, read, nil-value}

module _ {Number : Type 0} (ops : NumberOps Number) where
  -- The main positions depend on the size of the node vector only.
  pub same_main :
      (t : Table Number) (i : ℕ) (nodes : List (Node Number)) (k : TValue Number)
      → mainposition ops (set_nodes (set_lastfree t i) nodes) k ≡ mainposition ops t k
  unfolding mainposition hashpow2 hashmod hashnum sizenode
  same_main t i nodes nil = refl
  same_main t i nodes (boolean b) = refl
  same_main t i nodes (light_userdata p) = refl
  same_main t i nodes (number n) = refl
  same_main t i nodes (string s) = refl
  same_main t i nodes (object tag a) = refl

  same_size :
      (t : Table Number) (i : ℕ) (nodes : List (Node Number))
      → sizenode (set_nodes (set_lastfree t i) nodes) ≡ sizenode t
  unfolding sizenode
  same_size t i nodes = refl

  -- The key has come to the place of the answer, which has no value yet, and every other key has the value
  -- that it had.
  pub record Inserted (Ok : TValue Number → Type 0) (t : Table Number) (key : TValue Number) (i : ℕ)
      (t' : Table Number) : Type 0 where
    pub hashed : Hashed ops Ok t'
    pub found : get_any ops t' key ≡ some (node_slot i)
    pub empty : value_at t' (node_slot i) ≡ nil
    pub array : t'.array ≡ t.array
    pub others :
        (k : TValue Number)
        → Ok k
        → is_nil k ≡ false
        → rawequal_obj ops key k ≡ false
        → read t' (get_any ops t' k) ≡ read t (get_any ops t k)

pub false-true : (b : Bool) → b ≡ false → b ≡ true → ⊥
false-true b e e' = cc

module _ {Number : Type 0} (ops : NumberOps Number) (Ok : TValue Number → Type 0)
    (laws : (t : Table Number) → KeyLaws (mainposition ops t) (rawequal_obj ops) Ok)
    (t : Table Number) (inv : Hashed ops Ok t) (key : TValue Number) (ok : Ok key)
    (used : is_nil key ≡ false) (self : rawequal_obj ops key key ≡ true) where
  value_new :
      (t' : Table Number) (i : ℕ) (n : Node Number)
      → At t'.node i n
      → is_nil n.i_val ≡ true
      → value_at t' (node_slot i) ≡ nil
  unfolding value_at
  value_new t' i n at e = rw at (nil-value n.i_val e)

  -- A change of the nodes that places the key and keeps the invariants
  pub inserted :
      (i : ℕ) (nodes : List (Node Number)) {rank : ℕ → ℕ} {place : ℕ → ℕ} {c : ℕ}
      {new : Node Number}
      → new.i_key ≡ key
      → length nodes ≡ length t.node
      → i ≤ length t.node
      → t.node_is_dummy ≡ false
      → Links nodes rank
      → Keys (mainposition ops t) (rawequal_obj ops) Ok nodes
      → Placed t.node nodes place c new
      → Inserted ops Ok t key c (set_nodes (set_lastfree t i) nodes)
  inserted i nodes {rank} {place} {c} {new} e size le real links keys placed =
      let t' : Table Number = set_nodes (set_lastfree t i) nodes in
      let hashed : Hashed ops Ok t' = record {
        size = size ∙ inv.size ∙ sym (same_size ops t i nodes);
        rank = rank;
        links = links;
        keys =
            subst (λ main. Keys main (rawequal_obj ops) Ok nodes)
              (fun_ext (λ k. sym (same_main ops t i nodes k))) keys;
        lastfree = omega (arith, le, size);
        dummy = λ d. absurd (false-true _ real d);
      } in
      record {
        hashed = hashed;
        found =
            get_any_hit ops Ok laws t' hashed key c new ok placed.now placed.key
              (subst (λ x. rawequal_obj ops x key ≡ true) (sym e) self);
        empty = value_new t' c new placed.now placed.empty;
        array = refl;
        others = λ k ok_k used_k differs.
            Placed-read ops Ok laws t t' inv hashed placed k ok_k used_k
              (λ same. false-true _ differs (subst (λ x. rawequal_obj ops x k ≡ true) e same));
      }
