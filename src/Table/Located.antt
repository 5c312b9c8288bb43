-- ===== src/Table/Located.antt =====
-- The place that luaH_get finds for a key, and a write to it: only equal keys have one place.
use soft_renderer_lua.Base.{
  ℕ, ◌≡◌, ◌≢◌, refl, sym, ap, ◌∙◌, subst, Bool, true, false, Option, none, some, length, get_elem?,
}
use soft_renderer_lua.Table.{
  NumberOps, TValue, Node, Table, Slot, nilobject, array_slot, node_slot, is_nil, rawequal_obj,
  mainposition, get_any, get,
}
use soft_renderer_lua.Table.Set.{store}
use soft_renderer_lua.Table.Links.{At, At-same}
use soft_renderer_lua.Table.Keys.{KeyLaws}
use soft_renderer_lua.Table.Lookup.{Hashed, get_any-Search, Search, hit, missing, read}
use soft_renderer_lua.Table.Laws.{NumberLaws}
use soft_renderer_lua.Table.Access.{array_index, array_index-lt, index-equal, locate, get-locate}
use soft_renderer_lua.Table.Store.{Stored, store-node-Stored, store-array-Stored}

-- The value of a key
abbrev pub lookup :
    {Number : Type 0} → NumberOps Number → Table Number → TValue Number → Option (TValue Number)
lookup ops t k = read t (get ops t k)

-- The key has the value, and the keys that are not equal to it have the values that they had.
pub record Updated {Number : Type 0} (ops : NumberOps Number) (Ok : TValue Number → Type 0)
    (t : Table Number) (key v : TValue Number) (t' : Table Number) : Type 0 where
  pub hashed : Hashed ops Ok t'
  pub now : lookup ops t' key ≡ some v
  pub others :
      (k : TValue Number)
      → Ok k
      → is_nil k ≡ false
      → rawequal_obj ops key k ≡ false
      → lookup ops t' k ≡ lookup ops t k

module _ {Number : Type 0} (ops : NumberOps Number) (numbers : NumberLaws ops)
    (Ok : TValue Number → Type 0)
    (laws : (t : Table Number) → KeyLaws (mainposition ops t) (rawequal_obj ops) Ok) where
  -- Where luaH_get finds a key
  pub data Located (t : Table Number) (k : TValue Number) : Option Slot → Type 0 where
    in_array :
        {o : Option Slot} (i : ℕ)
        → array_index ops (length t.array) k ≡ some i
        → o ≡ some (array_slot i)
        → Located t k o
    in_hash :
        {o : Option Slot} (i : ℕ) (n : Node Number)
        → array_index ops (length t.array) k ≡ none
        → At t.node i n
        → rawequal_obj ops n.i_key k ≡ true
        → o ≡ some (node_slot i)
        → Located t k o
    nowhere :
        {o : Option Slot}
        → array_index ops (length t.array) k ≡ none
        → get_any ops t k ≡ some nilobject
        → o ≡ some nilobject
        → Located t k o

  pub get-Located :
      (t : Table Number)
      → Hashed ops Ok t
      → (k : TValue Number) → Ok k
      → is_nil k ≡ false
      → Located t k (get ops t k)
  get-Located t inv k ok used =
      of (array_index ops (length t.array) k) refl (get-locate ops numbers t k used)
    where
      hashed :
          array_index ops (length t.array) k ≡ none
          → {o : Option Slot} → get_any ops t k ≡ o
          → get ops t k ≡ o
          → Search ops Ok laws t inv k o
          → Located t k (get ops t k)
      hashed none_at run e (hit i n at eq q) = in_hash i n none_at at eq (e ∙ q)
      hashed none_at run e (missing q unseen) = nowhere none_at (run ∙ q) (e ∙ q)

      of :
          (o : Option ℕ)
          → array_index ops (length t.array) k ≡ o
          → get ops t k ≡ locate ops t k o
          → Located t k (get ops t k)
      of none at e = hashed at refl e (get_any-Search ops Ok laws t inv k ok used)
      of (some i) at e = in_array i at e

array-inj : {i j : ℕ} → ◌≡◌ {A = Option Slot} (some (array_slot i)) (some (array_slot j)) → i ≡ j
array-inj h = cc

node-inj : {i j : ℕ} → ◌≡◌ {A = Option Slot} (some (node_slot i)) (some (node_slot j)) → i ≡ j
node-inj h = cc

apart : {i j : ℕ} → ◌≡◌ {A = Option Slot} (some (array_slot i)) (some (node_slot j)) → ⊥
apart h = cc

array-nil : {i : ℕ} → ◌≡◌ {A = Option Slot} (some (array_slot i)) (some nilobject) → ⊥
array-nil h = cc

node-nil : {i : ℕ} → ◌≡◌ {A = Option Slot} (some (node_slot i)) (some nilobject) → ⊥
node-nil h = cc

pub slot_of : {s s' : Slot} → some s ≡ some s' → s ≡ s'
slot_of h = cc

false-true : (b : Bool) → b ≡ false → b ≡ true → ⊥
false-true b e e' = cc

module _ {Number : Type 0} (ops : NumberOps Number) (numbers : NumberLaws ops)
    (Ok : TValue Number → Type 0)
    (laws : (t : Table Number) → KeyLaws (mainposition ops t) (rawequal_obj ops) Ok)
    (t : Table Number) where
  -- Keys in one place are equal.
  same_place :
      (k k' : TValue Number) (s : Slot) {o o' : Option Slot}
      → Located ops numbers Ok laws t k o
      → Located ops numbers Ok laws t k' o'
      → o ≡ some s
      → o' ≡ some s
      → s ≢ nilobject
      → rawequal_obj ops k k' ≡ true
  same_place k k' s (in_array i at q) (in_array j at' q') e e' ne =
      let same : j ≡ i = array-inj (sym q' ∙ e' ∙ sym e ∙ q) in
      index-equal ops numbers (length t.array) k k' i at (at' ∙ ap some same)
  same_place k k' s (in_hash i n none_at at eq q) (in_hash j n' none_at' at' eq' q') e e' ne =
      let same : j ≡ i = node-inj (sym q' ∙ e' ∙ sym e ∙ q) in
      let node : n' ≡ n = At-same at' (ap (λ x. get_elem? t.node x) same ∙ at) in
      (laws t).transitive _ _ _ ((laws t).symmetric _ _ eq)
        (subst (λ x. rawequal_obj ops x.i_key k' ≡ true) node eq')
  same_place k k' s (in_array i at q) (in_hash j n none_at at' eq' q') e e' ne =
      absurd (apart (sym q ∙ e ∙ sym e' ∙ q'))
  same_place k k' s (in_hash i n none_at at eq q) (in_array j at' q') e e' ne =
      absurd (apart (sym q' ∙ e' ∙ sym e ∙ q))
  same_place k k' s (nowhere none_at run q) l e e' ne = absurd (ne (slot_of (sym e ∙ q)))
  same_place k k' s l (nowhere none_at run q) e e' ne = absurd (ne (slot_of (sym e' ∙ q)))

  -- There is a value, and luaH_get has a place for every key.
  pub place_of :
      (k : TValue Number) {o : Option Slot}
      → Located ops numbers Ok laws t k o
      → (s : Slot) × (o ≡ some s)
  place_of k (in_array i at q) = (array_slot i, q)
  place_of k (in_hash i n none_at at eq q) = (node_slot i, q)
  place_of k (nowhere none_at run q) = (nilobject, q)

  module _ (inv : Hashed ops Ok t) (key : TValue Number) (ok : Ok key) (used : is_nil key ≡ false)
      (v : TValue Number) where
    -- The write through the pointer of luaH_get
    write :
        (s : Slot) {o : Option Slot}
        → Located ops numbers Ok laws t key o
        → o ≡ some s
        → s ≢ nilobject
        → (t' : Table Number) × (store t s v ≡ some t') × Stored ops Ok t s v t'
    write s (in_array i at q) e ne =
        let same = slot_of (sym q ∙ e) in
        subst (λ s. (t' : Table Number) × (store t s v ≡ some t') × Stored ops Ok t s v t') same
          (store-array-Stored ops numbers Ok laws t inv i v
            (array_index-lt ops numbers (length t.array) key i at))
    write s (in_hash i n none_at at eq q) e ne =
        let same = slot_of (sym q ∙ e) in
        let (t', run, stored, rest) =
          store-node-Stored ops numbers Ok laws t inv i n v at ((laws t).not_nil _ _ used eq) in
        subst (λ s. (t' : Table Number) × (store t s v ≡ some t') × Stored ops Ok t s v t') same
          (t', run, stored)
    write s (nowhere none_at run q) e ne = absurd (ne (slot_of (sym e ∙ q)))

    Stored-Updated :
        (s : Slot) (t' : Table Number)
        → get ops t key ≡ some s
        → s ≢ nilobject
        → Stored ops Ok t s v t'
        → Updated ops Ok t key v t'
    Stored-Updated s t' at ne stored = record {
      hashed = stored.hashed;
      now = ap (read t') (stored.same key ok used ∙ at) ∙ ap some stored.now;
      others = λ k ok_k used_k differs.
          let l = get-Located ops numbers Ok laws t inv k ok_k used_k in
          let (s', e) = place_of k l in
          let other : s' ≢ s = λ q. false-true _ differs (
            same_place key k s (get-Located ops numbers Ok laws t inv key ok used) l at
              (e ∙ ap some q) ne) in
          ap (read t') (stored.same k ok_k used_k ∙ e)
          ∙ ap some (stored.others s' other)
          ∙ sym (ap (read t) e);
    }

    pub written-Updated :
        (s : Slot)
        → get ops t key ≡ some s
        → s ≢ nilobject
        → (t' : Table Number) × (store t s v ≡ some t') × Updated ops Ok t key v t'
    written-Updated s at ne =
        let (t', run, stored) = write s (get-Located ops numbers Ok laws t inv key ok used) at ne in
        (t', run, Stored-Updated s t' at ne stored)
