-- ===== src/Table/Set.antt =====
-- luaH_set of ltable.c, and lua_rawset of lapi.c without its stack: a value is written to the place of its key.
use soft_renderer_lua.Base.{
  Bool, false, not, if◌then◌else◌, Option, none, some, List, get_elem?, set,
}
use soft_renderer_lua.Table.{
  NumberOps, TValue, number, Table, Slot, nilobject, array_slot, node_slot, is_nil, get,
}
use soft_renderer_lua.Table.Insert.{newkey, set_nodes, ◌>>=◌}

-- The pointer that luaH_set answers, or its error, with the table it leaves.
pub data Answer (Number : Type 0) : Type 0 where
  index_is_nil index_is_nan : Table Number → Answer Number
  answer : Slot → Table Number → Answer Number

-- What is left of a call of lua_rawset.
pub data Written (Number : Type 0) : Type 0 where
  refused : Table Number → Written Number
  written_to : Table Number → Written Number

module _ {Number : Type 0} where
  abbrev pub set_array : Table Number → List (TValue Number) → Table Number
  set_array t array = record t { array = array }

  -- `t->flags = 0`
  abbrev pub reset_flags : Table Number → Table Number
  reset_flags t = record t { flags = 0 }

  -- `setobj2t` to the place that a pointer points to. Nothing is written to luaO_nilobject.
  unfoldable pub store : Table Number → Slot → TValue Number → Option (Table Number)
  store t nilobject v = none
  store t (array_slot i) v = do old ← get_elem? t.array i; some (set_array t (set t.array i v))
  store t (node_slot i) v = do
    n ← get_elem? t.node i
    some (set_nodes t (set t.node i (record n { i_val = v })))

module _ {Number : Type 0} (ops : NumberOps Number) where
  -- `ttisnumber(key) && luai_numisnan(nvalue(key))`
  abbrev pub is_nan : TValue Number → Bool
  is_nan (number n) = not (ops.numeq n n)
  is_nan k = false

  -- `grow` is `rehash(L, t, key); return luaH_set(L, t, key);` in newkey.
  unfoldable pub set_slot :
      (Table Number → TValue Number → Option (Slot × Table Number))
      → Table Number
      → TValue Number
      → Option (Answer Number)
  set_slot grow t key = do
    p ← get ops t key
    elim p [
      | nilobject ↦
          if is_nil key
          then some (index_is_nil (reset_flags t))
          else if is_nan key
          then some (index_is_nan (reset_flags t))
          else (do r ← newkey ops grow (reset_flags t) key; some (answer r.0 r.1))
      | array_slot i ↦ some (answer (array_slot i) (reset_flags t))
      | node_slot i ↦ some (answer (node_slot i) (reset_flags t))
    ]

  -- `setobj2t(L, luaH_set(L, hvalue(t), key), value)`
  unfoldable pub raw_set :
      (Table Number → TValue Number → Option (Slot × Table Number))
      → Table Number
      → TValue Number
      → TValue Number
      → Option (Written Number)
  raw_set grow t key value = do
    a ← set_slot grow t key
    elim a [
      | index_is_nil t' ↦ some (refused t')
      | index_is_nan t' ↦ some (refused t')
      | answer s t' ↦ do u ← store t' s value; some (written_to u)
    ]
