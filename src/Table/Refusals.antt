-- ===== src/Table/Refusals.antt =====
-- luaH_set of a key that no table has: nil and NaN.
use soft_renderer_lua.Base.{
  ℕ, ◌≡◌, refl, ap, ◌∙◌, Bool, true, false, ◌⊎◌, inl, inr, Option, some, length, not, if◌then◌else◌,
}
use soft_renderer_lua.Table.{
  NumberOps, TValue, nil, boolean, light_userdata, number, string, object, Table, Slot, nilobject,
  is_nil, rawequal_obj, mainposition, get,
}
use soft_renderer_lua.Table.Set.{index_is_nil, index_is_nan, is_nan, reset_flags, set_slot}
use soft_renderer_lua.Table.Keys.{KeyLaws}
use soft_renderer_lua.Table.Lookup.{Hashed, nil-value}
use soft_renderer_lua.Table.Laws.{NumberLaws, Interned, raw-KeyLaws}
use soft_renderer_lua.Table.Access.{index-equal}
use soft_renderer_lua.Table.Located.{Located, in_array, in_hash, nowhere, get-Located}

nan-differs :
    {Number : Type 0} (ops : NumberOps Number) (k : TValue Number)
    → is_nan ops k ≡ true
    → rawequal_obj ops k k ≡ true
    → ⊥
unfolding rawequal_obj
nan-differs ops nil e e' = cc
nan-differs ops (boolean b) e e' = cc
nan-differs ops (light_userdata p) e e' = cc
nan-differs ops (number n) e e' = clash (ops.numeq n n) e e'
  where
    clash : (b : Bool) → not b ≡ true → b ≡ true → ⊥
    clash true e e' = cc
    clash false e e' = cc
nan-differs ops (string s) e e' = cc
nan-differs ops (object tag a) e e' = cc

nan-used :
    {Number : Type 0} (ops : NumberOps Number) (k : TValue Number)
    → is_nan ops k ≡ true
    → is_nil k ≡ false
nan-used ops nil e = absurd (cc)
nan-used ops (boolean b) e = refl
nan-used ops (light_userdata p) e = refl
nan-used ops (number n) e = refl
nan-used ops (string s) e = refl
nan-used ops (object tag a) e = refl

nan-Interned :
    {Number : Type 0} (ops : NumberOps Number) (hash_of : ℕ → ℕ) (k : TValue Number)
    → is_nan ops k ≡ true
    → Interned hash_of k
nan-Interned ops hash_of nil e = tt
nan-Interned ops hash_of (boolean b) e = tt
nan-Interned ops hash_of (light_userdata p) e = tt
nan-Interned ops hash_of (number n) e = tt
nan-Interned ops hash_of (string s) e = absurd (cc)
nan-Interned ops hash_of (object tag a) e = tt

get-nil :
    {Number : Type 0} (ops : NumberOps Number) (t : Table Number) → get ops t nil ≡ some nilobject
unfolding get
get-nil ops t = refl

module _ {Number : Type 0} (ops : NumberOps Number) (numbers : NumberLaws ops)
    (Ok : TValue Number → Type 0)
    (laws : (t : Table Number) → KeyLaws (mainposition ops t) (rawequal_obj ops) Ok) where
  module _ (grow : Table Number → TValue Number → Option (Slot × Table Number)) (t : Table Number)
      (inv : Hashed ops Ok t) (key : TValue Number) where
    refuses_nan :
        {o : Option Slot}
        → is_nan ops key ≡ true
        → Located ops numbers Ok laws t key o
        → o ≡ some nilobject
    refuses_nan nan (in_array i at q) =
        absurd (nan-differs ops key nan (index-equal ops numbers (length t.array) key key i at at))
    refuses_nan nan (in_hash i n none_at at eq q) =
        absurd (nan-differs ops key nan ((laws t).transitive _ _ _ ((laws t).symmetric _ _ eq) eq))
    refuses_nan nan (nowhere none_at run q) = q

    nil_index :
        get ops t key ≡ some nilobject
        → is_nil key ≡ true
        → set_slot ops grow t key ≡ some (index_is_nil (reset_flags t))
    unfolding set_slot
    nil_index at empty = rw (at, empty) refl

    nan_index :
        get ops t key ≡ some nilobject
        → is_nil key ≡ false
        → is_nan ops key ≡ true
        → set_slot ops grow t key ≡ some (index_is_nan (reset_flags t))
    unfolding set_slot
    nan_index at used nan = rw (at, used, nan) refl

module _ {Number : Type 0} (ops : NumberOps Number) (numbers : NumberLaws ops) (hash_of : ℕ → ℕ)
    (grow : Table Number → TValue Number → Option (Slot × Table Number)) (t : Table Number)
    (inv : Hashed ops (Interned hash_of) t) (key : TValue Number) where
  -- luaH_set of a key that is nil or NaN ends in the error of each, and only `flags` has changed: a table in order
  -- never has a place for them.
  pub set_slot-errors :
      (is_nil key ≡ true) ⊎ (is_nan ops key ≡ true)
      → set_slot ops grow t key
        ≡ some (if is_nil key then index_is_nil (reset_flags t) else index_is_nan (reset_flags t))
  set_slot-errors (inl empty) = rw empty (
      nil_index ops numbers (Interned hash_of) (raw-KeyLaws ops numbers hash_of) grow t inv key
        (ap (get ops t) (nil-value key empty) ∙ get-nil ops t) empty)
  set_slot-errors (inr nan) =
      let laws = raw-KeyLaws ops numbers hash_of in
      let used = nan-used ops key nan in
      let at = refuses_nan ops numbers (Interned hash_of) laws grow t inv key nan (
        get-Located ops numbers (Interned hash_of) laws t inv key (nan-Interned ops hash_of key nan)
          used) in
      rw used (nan_index ops numbers (Interned hash_of) laws grow t inv key at used nan)
