-- ===== src/Table/Update.antt =====
-- lua_rawset: a write to a table with luaH_set. The key then has the value, and no other key has changed.
use soft_renderer_lua.Base.{
  ℕ, ◌≡◌, ◌≢◌, refl, sym, ap, ◌∙◌, arith, Bool, true, false, Option, none, some, length, not,
}
use soft_renderer_lua.Table.{
  NumberOps, TValue, nil, boolean, light_userdata, number, string, object, Table, Slot, nilobject,
  array_slot, node_slot, is_nil, value_at, rawequal_obj, mainposition, get_any, get,
}
use soft_renderer_lua.Table.Insert.{free_from, newkey}
use soft_renderer_lua.Table.Set.{
  answer, Written, written_to, is_nan, reset_flags, store, set_slot, raw_set,
}
use soft_renderer_lua.Table.Keys.{KeyLaws}
use soft_renderer_lua.Table.Lookup.{Hashed, read}
use soft_renderer_lua.Table.Laws.{NumberLaws, Interned, raw-KeyLaws}
use soft_renderer_lua.Table.Inserted.{Inserted}
use soft_renderer_lua.Table.Newkey.{newkey-Inserted}
use soft_renderer_lua.Table.Access.{array_index, locate, get-locate}
use soft_renderer_lua.Table.Store.{Hashed-flags, get-flags, search-flags}
use soft_renderer_lua.Table.Located.{
  lookup, Updated, Located, in_array, in_hash, nowhere, get-Located, written-Updated,
}

self-equal :
    {Number : Type 0} (ops : NumberOps Number) (k : TValue Number)
    → is_nan ops k ≡ false
    → rawequal_obj ops k k ≡ true
unfolding rawequal_obj
self-equal ops nil e = refl
self-equal ops (boolean b) e = ground arith
self-equal ops (light_userdata p) e = ground arith
self-equal ops (number n) e = not_not (ops.numeq n n) e
  where
    not_not : (b : Bool) → not b ≡ false → b ≡ true
    not_not true e = refl
    not_not false e = absurd (cc)
self-equal ops (string s) e = ground arith
self-equal ops (object tag a) e = ground arith

array-value :
    {Number : Type 0} (t u : Table Number) (i : ℕ)
    → u.array ≡ t.array
    → read u (some (array_slot i)) ≡ read t (some (array_slot i))
unfolding value_at
array-value t u i e = rw e refl

node-not-nil : {i : ℕ} → node_slot i ≡ nilobject → ⊥
node-not-nil h = cc

array-not-nil : {i : ℕ} → array_slot i ≡ nilobject → ⊥
array-not-nil h = cc

flags-value :
    {Number : Type 0} (t : Table Number) (s : Slot) → value_at (reset_flags t) s ≡ value_at t s
unfolding value_at
flags-value t nilobject = refl
flags-value t (array_slot i) = refl
flags-value t (node_slot i) = refl

flags-read :
    {Number : Type 0} (t : Table Number) (o : Option Slot) → read (reset_flags t) o ≡ read t o
flags-read t none = refl
flags-read t (some s) = ap some (flags-value t s)

module _ {Number : Type 0} (ops : NumberOps Number) (numbers : NumberLaws ops)
    (Ok : TValue Number → Type 0)
    (laws : (t : Table Number) → KeyLaws (mainposition ops t) (rawequal_obj ops) Ok) where
  Updated-after :
      (t u t' : Table Number) (key v : TValue Number)
      → Updated ops Ok u key v t'
      → ((k : TValue Number)
          → Ok k
          → is_nil k ≡ false
          → rawequal_obj ops key k ≡ false
          → lookup ops u k ≡ lookup ops t k)
      → Updated ops Ok t key v t'
  Updated-after t u t' key v new before = record {
    hashed = new.hashed;
    now = new.now;
    others = λ k ok used differs. new.others k ok used differs ∙ before k ok used differs;
  }

  -- luaH_get sees the table that newkey leaves as the search in its hash part does.
  inserted-lookup :
      (t u : Table Number) (k : TValue Number)
      → is_nil k ≡ false
      → u.array ≡ t.array
      → read u (get_any ops u k) ≡ read t (get_any ops t k)
      → lookup ops u k ≡ lookup ops t k
  inserted-lookup t u k used arrays e =
      ap (read u) (get-locate ops numbers u k used)
      ∙ ap (λ a. read u (locate ops u k (array_index ops (length a) k))) arrays
      ∙ of (array_index ops (length t.array) k)
      ∙ sym (ap (read t) (get-locate ops numbers t k used))
    where
      of : (o : Option ℕ) → read u (locate ops u k o) ≡ read t (locate ops t k o)
      of none = e
      of (some i) = array-value t u i arrays

  module _ (grow : Table Number → TValue Number → Option (Slot × Table Number)) (t : Table Number)
      (inv : Hashed ops Ok t) (key : TValue Number) (ok : Ok key) (used : is_nil key ≡ false)
      (a_number : is_nan ops key ≡ false) (v : TValue Number) where
    abbrev Result : Option (Written Number) → Type 0
    Result o = (t' : Table Number) × (o ≡ some (written_to t')) × Updated ops Ok t key v t'

    stored-Result :
        (s : Slot) (u : Table Number)
        → set_slot ops grow t key ≡ some (answer s u)
        → (t' : Table Number) × (store u s v ≡ some t') × Updated ops Ok u key v t'
        → ((k : TValue Number)
            → Ok k
            → is_nil k ≡ false
            → rawequal_obj ops key k ≡ false
            → lookup ops u k ≡ lookup ops t k)
        → Result (raw_set ops grow t key v)
    unfolding raw_set
    stored-Result s u at (t', run, new) before =
        (t', rw (at, run) refl, Updated-after t u t' key v new before)

    found :
        (s : Slot)
        → get ops t key ≡ some s
        → s ≢ nilobject
        → set_slot ops grow t key ≡ some (answer s (reset_flags t))
    unfolding set_slot
    found nilobject at ne = absurd (ne refl)
    found (array_slot i) at ne = rw at refl
    found (node_slot i) at ne = rw at refl

    new_place :
        (s : Slot) (u : Table Number)
        → get ops t key ≡ some nilobject
        → newkey ops grow (reset_flags t) key ≡ some (s, u)
        → set_slot ops grow t key ≡ some (answer s u)
    unfolding set_slot
    new_place s u at run = rw (at, used, a_number, run) refl

    flags-lookup :
        (k : TValue Number)
        → Ok k
        → is_nil k ≡ false
        → lookup ops (reset_flags t) k ≡ lookup ops t k
    flags-lookup k ok_k used_k =
        ap (read (reset_flags t)) (get-flags ops numbers Ok laws t inv k ok_k used_k)
        ∙ flags-read t (get ops t k)

    -- A key that has a place
    found-Result :
        (s : Slot) → get ops t key ≡ some s → s ≢ nilobject → Result (raw_set ops grow t key v)
    found-Result s at ne =
        let flags = Hashed-flags ops numbers Ok laws t inv in
        stored-Result s (reset_flags t) (found s at ne)
          (written-Updated ops numbers Ok laws (reset_flags t) flags key ok used v s
            (get-flags ops numbers Ok laws t inv key ok used ∙ at) ne)
          (λ k ok_k used_k differs. flags-lookup k ok_k used_k)

    -- A key that newkey puts in
    new-Result :
        (i : ℕ) (u : Table Number)
        → get ops t key ≡ some nilobject
        → array_index ops (length t.array) key ≡ none
        → newkey ops grow (reset_flags t) key ≡ some (node_slot i, u)
        → Inserted ops Ok (reset_flags t) key i u
        → Result (raw_set ops grow t key v)
    new-Result i u at none_at run inserted =
        let place : get ops u key ≡ some (node_slot i) =
          get-locate ops numbers u key used
          ∙ ap (λ a. locate ops u key (array_index ops (length a) key)) inserted.array
          ∙ ap (locate ops u key) none_at
          ∙ inserted.found in
        stored-Result (node_slot i) u (new_place (node_slot i) u at run)
          (written-Updated ops numbers Ok laws u inserted.hashed key ok used v (node_slot i) place
            (λ e. node-not-nil e))
          (λ k ok_k used_k differs.
            inserted-lookup (reset_flags t) u k used_k inserted.array
              (inserted.others k ok_k used_k differs)
            ∙ flags-lookup k ok_k used_k)

    placed-Updated :
        (get ops t key ≡ some nilobject → (f : ℕ) × (free_from t.node t.lastfree ≡ some f))
        → (t' : Table Number) × (raw_set ops grow t key v ≡ some (written_to t'))
          × Updated ops Ok t key v t'
    placed-Updated room = of (get-Located ops numbers Ok laws t inv key ok used) refl
      where
        of :
            {o : Option Slot}
            → Located ops numbers Ok laws t key o
            → o ≡ get ops t key
            → Result (raw_set ops grow t key v)
        of (in_array i at q) e = found-Result (array_slot i) (sym e ∙ q) (λ e. array-not-nil e)
        of (in_hash i n none_at at eq q) e =
            found-Result (node_slot i) (sym e ∙ q) (λ e. node-not-nil e)
        of (nowhere none_at run q) e =
            let (f, free) = room (sym e ∙ q) in
            let flags = Hashed-flags ops numbers Ok laws t inv in
            let absent : get_any ops (reset_flags t) key ≡ some nilobject =
              search-flags ops numbers Ok laws t inv key ok used ∙ run in
            let (i, u, insert, inserted) =
              newkey-Inserted ops Ok laws (reset_flags t) flags key ok used
                (self-equal ops key a_number) absent grow f free in
            new-Result i u (sym e ∙ q) none_at insert inserted

module _ {Number : Type 0} (ops : NumberOps Number) (numbers : NumberLaws ops) (hash_of : ℕ → ℕ)
    (grow : Table Number → TValue Number → Option (Slot × Table Number)) (t : Table Number)
    (inv : Hashed ops (Interned hash_of) t) (key : TValue Number) where
  -- lua_rawset of a key that is not nil and not NaN, which the table has or which a free place is there for,
  -- writes the value: the key has it then, the keys that are not equal to it have the values that they had, and
  -- the hash part is in order. `hash_of` is the hash of each interned string.
  pub raw_set-Updated :
      Interned hash_of key
      → is_nil key ≡ false
      → is_nan ops key ≡ false
      → (v : TValue Number)
      → (get ops t key ≡ some nilobject → (f : ℕ) × (free_from t.node t.lastfree ≡ some f))
      → (t' : Table Number) × (raw_set ops grow t key v ≡ some (written_to t'))
        × Updated ops (Interned hash_of) t key v t'
  raw_set-Updated ok used a_number v room =
      placed-Updated ops numbers (Interned hash_of) (raw-KeyLaws ops numbers hash_of) grow t inv key
        ok used a_number v room
