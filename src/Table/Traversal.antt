-- ===== src/Table/Traversal.antt =====
-- luaH_next and findindex of ltable.c. A position numbers the array part first and then the nodes.
use mathlib.Core.Option
use soft_renderer_lua.Base.{
  ℕ, zero, suc, ◌+◌, ◌-◌, Bool, ◌&&◌, not, leb, ltb, if◌then◌else◌, Option, none, some, List, [],
  ◌∷◌, length,
}
use soft_renderer_lua.Base.Int.{ℤ, pos, negsuc, pos_part, ◌+ℤ◌}
use soft_renderer_lua.Table.{
  NumberOps, TValue, nil, boolean, light_userdata, number, string, object, Node, Table, Slot,
  nilobject, array_slot, node_slot, is_nil, get_any,
}

-- `for (; i < size; i++) { if (!ttisnil(...)) ... }`: the first index from `i` on that passes the test.
module _ {A : Type 0} (test : A → Bool) where
  abbrev pub shift : Option (ℕ × A) → Option (ℕ × A)
  shift none = none
  shift (some (j, x)) = some (suc j, x)

  unfoldable pub scan : List A → ℕ → Option (ℕ × A)
  scan [] i = none
  scan (x ∷ xs) zero = if test x then some (0, x) else shift (scan xs 0)
  scan (x ∷ xs) (suc i) = shift (scan xs i)

abbrev pub live_node : {Number : Type 0} → Node Number → Bool
live_node n = not (is_nil n.i_val)

module _ {Number : Type 0} (ops : NumberOps Number) where
  unfoldable pub arrayindex : TValue Number → ℤ
  arrayindex (number n) =
      let k = ops.number2int n in if ops.numeq (ops.cast_num k) n then k else negsuc 0
  arrayindex nil = negsuc 0
  arrayindex (boolean b) = negsuc 0
  arrayindex (light_userdata p) = negsuc 0
  arrayindex (string s) = negsuc 0
  arrayindex (object tag a) = negsuc 0

  -- What the search for the key in the hash part gives; the error "invalid key to 'next'" is `none`.
  unfoldable pub hash_index : Table Number → Slot → Option ℤ
  hash_index t (node_slot i) = some (pos (i + length t.array))
  hash_index t (array_slot i) = none
  hash_index t nilobject = none

  -- `none` is a search that does not end, `some none` the error.
  unfoldable pub find_index : Table Number → TValue Number → Option (Option ℤ)
  find_index t nil = some (some (negsuc 0))
  find_index t key =
      let i = pos_part (arrayindex key) in
      if ltb 0 i && leb i (length t.array)
      then some (some (pos (i - 1)))
      else Option.map (hash_index t) (get_any ops t key)

  -- The two loops of luaH_next, from position `i` on: the next key and its value.
  unfoldable pub next_from : Table Number → ℕ → Option (TValue Number × TValue Number)
  next_from t i = elim (scan (λ v. not (is_nil v)) t.array i) [
    | some (j, v) ↦ some (number (ops.cast_num (pos (j + 1))), v)
    | none ↦
        Option.map (λ (r : ℕ × Node Number). (r.1.i_key, r.1.i_val))
          (scan live_node t.node (i - length t.array))
  ]

  -- luaH_next; the answer 0 is `some none` inside.
  unfoldable pub next_entry :
      Table Number → TValue Number → Option (Option (Option (TValue Number × TValue Number)))
  next_entry t key =
      Option.map (Option.map (λ i. next_from t (pos_part (i +ℤ pos 1)))) (find_index t key)
