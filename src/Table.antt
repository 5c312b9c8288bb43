-- ===== src/Table.antt =====
-- ltable.c and the types of lobject.h that it works on: the two parts of a table and the search in
-- them. Pointers to objects are addresses, and a pointer to a node is its index in the node array.
pub mod Border
pub mod Chains
pub mod Insert
pub mod Links
pub mod Changes
pub mod Splice
pub mod Move
pub mod Keys
pub mod Lookup
pub mod Placing
pub mod Replacing
pub mod Steps
pub mod Linking
pub mod Inserted
pub mod Newkey
pub mod Laws
pub mod Valued
pub mod Access
pub mod Agree
pub mod Store
pub mod Located
pub mod Set
pub mod Update
pub mod Refusals
pub mod Length
pub mod Order
pub mod Next
pub mod Rehash
pub mod Search
pub mod Sizes
pub mod Traversal
mod Examples
mod Tests
use mathlib.Core.Option
use soft_renderer_lua.Base.{
  ℕ, zero, suc, ◌+◌, ◌-◌, ◌*◌, ◌/◌, ◌%◌, ◌^◌, bit_and, bit_or, Bool, true, false, ◌&&◌, ◌==◌, ltb,
  leb, if◌then◌else◌, Option, none, some, List, length, get_elem?,
}
use soft_renderer_lua.Base.Int.{ℤ, pos, negsuc, ◌-ℤ◌}
use soft_renderer_lua.Opcodes.{to_unsigned}

-- The operations of C on `lua_Number`: luai_numeq, cast_num, lua_number2int, and the two unsigned ints
-- that its bytes make.
pub record NumberOps (Number : Type 0) : Type 0 where
  pub numeq : Number → Number → Bool
  pub cast_num : ℤ → Number
  pub number2int : Number → ℤ
  pub words : Number → ℕ × ℕ

-- What the table reads of an interned string: where it is and its `hash`.
pub record TString : Type 0 where
  pub address : ℕ
  pub hash : ℕ

-- TValue. `object` is any other collectable type, with its tag. Dead keys, which the collector leaves
-- in nodes without a value, are not modelled.
pub data TValue (Number : Type 0) : Type 0 where
  nil : TValue Number
  boolean : ℕ → TValue Number
  light_userdata : ℕ → TValue Number
  number : Number → TValue Number
  string : TString → TValue Number
  object : ℕ → ℕ → TValue Number

pub record Node (Number : Type 0) : Type 0 where
  pub i_val : TValue Number
  pub i_key : TValue Number
  pub next : Option ℕ

-- `node_is_dummy` is `t->node == dummynode`; `sizearray` is the length of `array`. `lastfree` is an index too: any
-- free position is before it. `flags` has a bit for each metamethod that is known to be absent.
pub record Table (Number : Type 0) : Type 0 where
  pub lsizenode : ℕ
  pub array : List (TValue Number)
  pub node : List (Node Number)
  pub node_is_dummy : Bool
  pub lastfree : ℕ
  pub flags : ℕ

-- What a `const TValue *` of the search functions points to.
pub data Slot : Type 0 where
  nilobject : Slot
  array_slot node_slot : ℕ → Slot

-- MAX_INT of llimits.h
abbrev pub max_int : ℕ
max_int = 2 ^ 31 - 3

-- The `int` with the bits of an `unsigned int`.
abbrev pub to_int : ℕ → ℤ
to_int u = if ltb u (2 ^ 31) then pos u else negsuc (2 ^ 32 - 1 - u)

module _ {Number : Type 0} where
  abbrev pub dummynode : Node Number
  dummynode = record { i_val = nil; i_key = nil; next = none }

  -- ttisnil
  abbrev pub is_nil : TValue Number → Bool
  is_nil nil = true
  is_nil (boolean b) = false
  is_nil (light_userdata p) = false
  is_nil (number n) = false
  is_nil (string s) = false
  is_nil (object tag a) = false

  unfoldable pub sizenode : Table Number → ℕ
  sizenode t = 2 ^ t.lsizenode

  -- hashpow2 with lmod, and hashmod
  unfoldable pub hashpow2 : Table Number → ℕ → ℕ
  hashpow2 t n = bit_and n (sizenode t - 1)

  unfoldable pub hashmod : Table Number → ℕ → ℕ
  hashmod t n = n % bit_or (sizenode t - 1) 1

  abbrev value_of : Option (TValue Number) → TValue Number
  value_of none = nil
  value_of (some v) = v

  -- What the pointer points to. A pointer outside the arrays does not occur.
  unfoldable pub value_at : Table Number → Slot → TValue Number
  value_at t nilobject = nil
  value_at t (array_slot i) = value_of (get_elem? t.array i)
  value_at t (node_slot i) =
      value_of (Option.map (λ (n : Node Number). n.i_val) (get_elem? t.node i))

  -- `ttisnil(&t->array[m - 1])`
  unfoldable pub array_absent : Table Number → ℕ → Option Bool
  array_absent t m = Option.map is_nil (get_elem? t.array (m - 1))

  -- `do { if (...) return gval(n); else n = gnext(n); } while (n);` and `return luaO_nilobject;`.
  -- `none` is fuel that ran out, or a pointer outside the node array.
  unfoldable pub find : Table Number → (TValue Number → Bool) → ℕ → ℕ → Option Slot
  find t test zero i = none
  find t test (suc fuel) i = elim (get_elem? t.node i) [
    | none ↦ none
    | some n ↦ elim (test n.i_key) [
      | true ↦ some (node_slot i)
      | false ↦ elim n.next [ none ↦ some nilobject | some j ↦ find t test fuel j ]
    ]
  ]

  -- The search for a string does not use the operations on numbers.
  abbrev pub is_string_at : ℕ → TValue Number → Bool
  is_string_at a (string s) = s.address == a
  is_string_at a v = false

  unfoldable pub get_str : Table Number → TString → Option Slot
  get_str t key = find t (is_string_at key.address) (sizenode t) (hashpow2 t key.hash)

module _ {Number : Type 0} (ops : NumberOps Number) where
  -- luaO_rawequalObj
  unfoldable pub rawequal_obj : TValue Number → TValue Number → Bool
  rawequal_obj nil nil = true
  rawequal_obj (number a) (number b) = ops.numeq a b
  rawequal_obj (boolean a) (boolean b) = a == b
  rawequal_obj (light_userdata a) (light_userdata b) = a == b
  rawequal_obj (string a) (string b) = a.address == b.address
  rawequal_obj (object s a) (object t b) = s == t && a == b
  rawequal_obj a b = false

  unfoldable pub hashnum : Table Number → Number → ℕ
  hashnum t n =
      let (a, b) = ops.words n in
      if ops.numeq n (ops.cast_num (pos 0)) then 0 else hashmod t ((a + b) % 2 ^ 32)

  -- The main position of an element. IntPoint keeps the low 32 bits of an address. It is never asked for
  -- nil, whose `value` is not set.
  unfoldable pub mainposition : Table Number → TValue Number → ℕ
  mainposition t (number n) = hashnum t n
  mainposition t (string s) = hashpow2 t s.hash
  mainposition t (boolean b) = hashpow2 t b
  mainposition t (light_userdata p) = hashmod t (p % 2 ^ 32)
  mainposition t (object tag a) = hashmod t (a % 2 ^ 32)
  mainposition t nil = hashmod t 0

  abbrev pub is_number : Number → TValue Number → Bool
  is_number nk (number n) = ops.numeq n nk
  is_number nk v = false

  -- luaH_getnum
  unfoldable pub get_num : Table Number → ℤ → Option Slot
  get_num t key =
      let nk = ops.cast_num key in
      let i = to_unsigned (key -ℤ pos 1) in
      if ltb i (length t.array)
      then some (array_slot i)
      else find t (is_number nk) (sizenode t) (hashnum t nk)

  unfoldable pub get_any : Table Number → TValue Number → Option Slot
  get_any t key = find t (λ k. rawequal_obj k key) (sizenode t) (mainposition t key)

  -- luaH_get; the `default` case is `get_any`.
  unfoldable pub get : Table Number → TValue Number → Option Slot
  get t nil = some nilobject
  get t (string s) = get_str t s
  get t (number n) =
      let k = ops.number2int n in
      if ops.numeq (ops.cast_num k) n then get_num t k else get_any t (number n)
  get t (boolean b) = get_any t (boolean b)
  get t (light_userdata p) = get_any t (light_userdata p)
  get t (object tag a) = get_any t (object tag a)

  -- `ttisnil(luaH_getnum(t, j))`
  unfoldable pub absent : Table Number → ℕ → Option Bool
  absent t j = Option.map (λ s. is_nil (value_at t s)) (get_num t (to_int j))
