-- ===== src/Table/Store.antt =====
-- A value that is written to the place of a key leaves every search as it was.
use soft_renderer_lua.Base.{
  ℕ, ◌<◌, ◌≡◌, ◌≢◌, refl, sym, ap, ◌∙◌, false, Option, none, some, List, length, get_elem?_of_lt,
  get_elem?-set_self, get_elem?-set_ne, set, length-set,
}
use soft_renderer_lua.Table.{
  NumberOps, TValue, Node, Table, Slot, nilobject, array_slot, node_slot, is_nil, value_at,
  rawequal_obj, mainposition, get_any, get,
}
use soft_renderer_lua.Table.Insert.{set_nodes}
use soft_renderer_lua.Table.Set.{set_array, reset_flags, store}
use soft_renderer_lua.Table.Links.{At}
use soft_renderer_lua.Table.Keys.{KeyLaws}
use soft_renderer_lua.Table.Steps.{written, kept}
use soft_renderer_lua.Table.Valued.{valued, key_is, key_was, Valued-Links, Valued-Keys}
use soft_renderer_lua.Table.Lookup.{Hashed}
use soft_renderer_lua.Table.Laws.{NumberLaws}
use soft_renderer_lua.Table.Access.{array_index, locate, get-locate}
use soft_renderer_lua.Table.Agree.{Hashed-same, KeysIn, same_search}

-- A value has come to the place, and no key has moved.
pub record Stored {Number : Type 0} (ops : NumberOps Number) (Ok : TValue Number → Type 0)
    (t : Table Number) (s : Slot) (v : TValue Number) (t' : Table Number) : Type 0 where
  pub hashed : Hashed ops Ok t'
  pub now : value_at t' s ≡ v
  pub others : (s' : Slot) → s' ≢ s → value_at t' s' ≡ value_at t s'
  pub same : (k : TValue Number) → Ok k → is_nil k ≡ false → get ops t' k ≡ get ops t k

module _ {Number : Type 0} where
  stored_value :
      (t : Table Number) (i : ℕ) (n : Node Number) (v : TValue Number)
      → At t.node i n
      → value_at (set_nodes t (set t.node i (record n { i_val = v }))) (node_slot i) ≡ v
  unfolding value_at
  stored_value t i n v at = rw (written t.node i n (record n { i_val = v }) at) refl

  stored_other :
      (t : Table Number) (i : ℕ) (n : Node Number) (s : Slot)
      → s ≢ node_slot i
      → value_at (set_nodes t (set t.node i n)) s ≡ value_at t s
  unfolding value_at
  stored_other t i n nilobject ne = refl
  stored_other t i n (array_slot j) ne = refl
  stored_other t i n (node_slot j) ne = rw (kept t.node i j n (λ e. ne (ap node_slot e))) refl

  array_value :
      (t : Table Number) (i : ℕ) (v : TValue Number)
      → i < length t.array
      → value_at (set_array t (set t.array i v)) (array_slot i) ≡ v
  unfolding value_at
  array_value t i v lt = rw (get_elem?-set_self t.array i v lt) refl

  array_other :
      (t : Table Number) (i : ℕ) (v : TValue Number) (s : Slot)
      → s ≢ array_slot i
      → value_at (set_array t (set t.array i v)) s ≡ value_at t s
  unfolding value_at
  array_other t i v nilobject ne = refl
  array_other t i v (array_slot j) ne =
      rw (get_elem?-set_ne t.array v (λ e. ne (ap array_slot (sym e)))) refl
  array_other t i v (node_slot j) ne = refl

  store-node :
      (t : Table Number) (i : ℕ) (n : Node Number) (v : TValue Number)
      → At t.node i n
      → store t (node_slot i) v ≡ some (set_nodes t (set t.node i (record n { i_val = v })))
  unfolding store
  store-node t i n v at = rw at refl

  store-array :
      (t : Table Number) (i : ℕ) (v : TValue Number)
      → i < length t.array
      → store t (array_slot i) v ≡ some (set_array t (set t.array i v))
  unfolding store
  store-array t i v lt = let (old, at) = get_elem?_of_lt t.array i lt in rw at refl

  keys_same : (nodes : List (Node Number)) → KeysIn nodes nodes
  keys_same nodes j m e = (m, e, refl)

locate-same :
    {Number : Type 0} (ops : NumberOps Number) (t t' : Table Number) (k : TValue Number)
    (o : Option ℕ)
    → get_any ops t' k ≡ get_any ops t k
    → locate ops t' k o ≡ locate ops t k o
locate-same ops t t' k none e = e
locate-same ops t t' k (some i) e = refl

module _ {Number : Type 0} (ops : NumberOps Number) (numbers : NumberLaws ops)
    (Ok : TValue Number → Type 0)
    (laws : (t : Table Number) → KeyLaws (mainposition ops t) (rawequal_obj ops) Ok) where
  pub get-same :
      (t t' : Table Number) (inv : Hashed ops Ok t) (inv' : Hashed ops Ok t')
      → length t'.array ≡ length t.array
      → KeysIn t.node t'.node
      → KeysIn t'.node t.node
      → (k : TValue Number) → Ok k
      → is_nil k ≡ false
      → get ops t' k ≡ get ops t k
  get-same t t' inv inv' size there back k ok used =
      get-locate ops numbers t' k used
      ∙ ap (λ x. locate ops t' k (array_index ops x k)) size
      ∙ locate-same ops t t' k _ (same_search ops Ok laws t t' inv inv' there back k ok used)
      ∙ sym (get-locate ops numbers t k used)

  pub store-node-Stored :
      (t : Table Number) (inv : Hashed ops Ok t) (i : ℕ) (n : Node Number) (v : TValue Number)
      → At t.node i n
      → is_nil n.i_key ≡ false
      → (t' : Table Number) × (store t (node_slot i) v ≡ some t')
        × Stored ops Ok t (node_slot i) v t'
        × (t'.array ≡ t.array)
  store-node-Stored t inv i n v at used =
      let t' : Table Number = set_nodes t (valued t.node i n v at used) in
      let hashed : Hashed ops Ok t' =
        Hashed-same ops t t' inv refl refl refl (length-set t.node i _)
          (Valued-Links t.node i n v at used inv.links)
          (Valued-Keys t.node i n v at used inv.keys) in
      (
        t',
        store-node t i n v at,
        record {
          hashed = hashed;
          now = stored_value t i n v at;
          others = stored_other t i _;
          same =
              get-same t t' inv hashed refl (key_is t.node i n v at used)
                (key_was t.node i n v at used);
        },
        refl,
      )

  pub Hashed-array :
      (t : Table Number) (array : List (TValue Number))
      → Hashed ops Ok t
      → Hashed ops Ok (set_array t array)
  Hashed-array t array inv =
      Hashed-same ops t (set_array t array) inv refl refl refl refl inv.links inv.keys

  pub Hashed-flags : (t : Table Number) → Hashed ops Ok t → Hashed ops Ok (reset_flags t)
  Hashed-flags t inv = Hashed-same ops t (reset_flags t) inv refl refl refl refl inv.links inv.keys

  pub store-array-Stored :
      (t : Table Number) (inv : Hashed ops Ok t) (i : ℕ) (v : TValue Number)
      → i < length t.array
      → (t' : Table Number) × (store t (array_slot i) v ≡ some t')
        × Stored ops Ok t (array_slot i) v t'
  store-array-Stored t inv i v lt =
      let t' : Table Number = set_array t (set t.array i v) in
      let hashed = Hashed-array t (set t.array i v) inv in
      (
        t',
        store-array t i v lt,
        record {
          hashed = hashed;
          now = array_value t i v lt;
          others = array_other t i v;
          same =
              get-same t t' inv hashed (length-set t.array i v) (keys_same t.node)
                (keys_same t.node);
        },
      )

  pub get-flags :
      (t : Table Number)
      → Hashed ops Ok t
      → (k : TValue Number) → Ok k
      → is_nil k ≡ false
      → get ops (reset_flags t) k ≡ get ops t k
  get-flags t inv =
      get-same t (reset_flags t) inv (Hashed-flags t inv) refl (keys_same t.node) (keys_same t.node)

  pub search-flags :
      (t : Table Number)
      → Hashed ops Ok t
      → (k : TValue Number) → Ok k
      → is_nil k ≡ false
      → get_any ops (reset_flags t) k ≡ get_any ops t k
  search-flags t inv =
      same_search ops Ok laws t (reset_flags t) inv (Hashed-flags t inv) (keys_same t.node)
        (keys_same t.node)
