-- ===== src/Table/Search.antt =====
-- luaH_getn and unbound_search of ltable.c, with their loops.
use soft_renderer_lua.Base.{
  ℕ, zero, suc, ◌+◌, ◌-◌, ◌*◌, ◌/◌, ◌%◌, ◌^◌, Bool, true, false, ◌&&◌, ltb, if◌then◌else◌, Option,
  none, some, length,
}
use soft_renderer_lua.Table.{NumberOps, Table, max_int, absent, array_absent}

abbrev pub last_absent : Option Bool → Bool
last_absent none = false
last_absent (some gone) = gone

-- The loops of the search for a boundary, over the test for an absent element. `none` is fuel that
-- ran out.
module _ (absent : ℕ → Option Bool) where
  -- `while (j - i > 1) {...}` and `return i;`
  unfoldable pub binary_search : ℕ → ℕ → ℕ → Option ℕ
  binary_search zero i j = none
  binary_search (suc fuel) i j =
      let m = (i + j) % 2 ^ 32 / 2 in
      elim (ltb 1 ((j + 2 ^ 32 - i) % 2 ^ 32)) [
        | false ↦ some i
        | true ↦ elim (absent m) [
          | none ↦ none
          | some gone ↦ elim gone [ true ↦ binary_search fuel i m | false ↦ binary_search fuel m j ]
        ]
      ]

  -- `while (!ttisnil(luaH_getnum(t, i))) i++;` and `return i - 1;`
  unfoldable pub linear_search : ℕ → ℕ → Option ℕ
  linear_search zero i = none
  linear_search (suc fuel) i = elim (absent i) [
    | none ↦ none
    | some gone ↦ elim gone [
      | true ↦ some ((i + 2 ^ 32 - 1) % 2 ^ 32)
      | false ↦ linear_search fuel ((i + 1) % 2 ^ 32)
    ]
  ]

  -- The first loop of unbound_search and what follows it.
  unfoldable pub double_search : ℕ → ℕ → ℕ → Option ℕ
  double_search zero i j = none
  double_search (suc fuel) i j = elim (absent j) [
    | none ↦ none
    | some gone ↦ elim gone [
      | true ↦ binary_search 32 i j
      | false ↦ elim (ltb max_int (j * 2 % 2 ^ 32)) [
        | true ↦ linear_search (2 ^ 31) 1
        | false ↦ double_search fuel j (j * 2 % 2 ^ 32)
      ]
    ]
  ]

  unfoldable pub unbound_search : ℕ → Option ℕ
  unbound_search j = double_search 32 j ((j + 1) % 2 ^ 32)

module _ {Number : Type 0} (ops : NumberOps Number) where
  -- luaH_getn
  unfoldable pub get_n : Table Number → Option ℕ
  get_n t =
      let j = length t.array in
      elim (ltb 0 j && last_absent (array_absent t j)) [
        | true ↦ binary_search (array_absent t) 32 0 j
        | false ↦ if t.node_is_dummy then some j else unbound_search (absent ops t) j
      ]
