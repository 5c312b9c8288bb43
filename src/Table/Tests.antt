-- ===== src/Table/Tests.antt =====
-- A table with two elements in the array part and one in the hash part; numbers are natural here.
use soft_renderer_lua.Base.{
  ℕ, zero, suc, ◌/◌, ◌%◌, ◌^◌, ◌<◌, ◌≡◌, refl, arith, true, false, ◌==◌, none, some, [], ◌∷◌, List,
  ◌⊎◌, ◌≤◌,
}
use soft_renderer_lua.Base.Int.{pos, pos_part, ◌-ℤ◌, ◌+ℤ◌}
use soft_renderer_lua.Table.{
  NumberOps, TString, boolean, number, string, Table, Slot, node_slot, sizenode, hashpow2, hashmod,
  hashnum, is_string_at, find, value_at, get_str, get_num, get_any, mainposition, hashpow2,
  rawequal_obj, get, absent, array_absent,
}
use soft_renderer_lua.Table.Search.{
  binary_search, linear_search, double_search, unbound_search, get_n,
}
use soft_renderer_lua.Table.Border.{Boundary}
use soft_renderer_lua.Table.Chains.{
  ChainEnds, last, link, WellFormed, Outcome, InTable, get_str-finds, get-returns,
}
use soft_renderer_lua.Table.Traversal.{
  scan, arrayindex, hash_index, find_index, next_from, next_entry,
}
use soft_renderer_lua.Table.Rehash.{sizes_loop, computesizes}
use soft_renderer_lua.Table.Sizes.{in_use, computesizes-optimal}
use soft_renderer_lua.Table.Length.{get_n-Boundary}

abbrev natural : NumberOps ℕ
natural = record {
  numeq = λ a b. a == b;
  cast_num = pos_part;
  number2int = pos;
  words = λ n. (n % 2 ^ 32, n / 2 ^ 32);
}

abbrev name : TString
name = record { address = 4096; hash = 6 }

-- The string and the number 3 collide: the number hangs on the chain of the string.
abbrev three_elements : Table ℕ
three_elements = record {
  lsizenode = 1;
  array = boolean 1 ∷ boolean 0 ∷ [];
  node =
      record { i_val = boolean 1; i_key = string name; next = some 1 }
      ∷ record { i_val = boolean 1; i_key = number 3; next = none }
      ∷ [];
  node_is_dummy = false;
  lastfree = 1;
  flags = 0;
}

three_elements-WellFormed : WellFormed three_elements
unfolding sizenode
three_elements-WellFormed = record {
  size = refl;
  chains = λ i lt. ends i lt;
  dummy = λ h. absurd cc;
  sizearray = omega arith;
}
  where
    ends : (i : ℕ) → i < 2 → ChainEnds three_elements.node 2 i
    ends zero lt = link _ refl refl (last _ refl refl)
    ends (suc zero) lt = last _ refl refl
    ends (suc (suc i)) lt = absurd (omega arith)

length_is_three : get_n natural three_elements ≡ some 3
unfolding get_n array_absent unbound_search double_search binary_search linear_search absent
    value_at get_num find sizenode hashnum hashmod ◌-ℤ◌
length_is_three = refl

four_absent : absent natural three_elements 4 ≡ some true
unfolding absent value_at get_num find sizenode hashnum hashmod ◌-ℤ◌
four_absent = refl

find_three : get natural three_elements (number 3) ≡ some (node_slot 1)
unfolding get get_num find sizenode hashnum hashmod ◌-ℤ◌
find_three = refl

get_n-Boundary_example :
    (n : ℕ) × (get_n natural three_elements ≡ some n) × Boundary (absent natural three_elements) n
get_n-Boundary_example =
    get_n-Boundary natural three_elements three_elements-WellFormed 4 (omega arith) (omega arith)
      four_absent

get_str-finds_example :
    (s : Slot) × (get_str three_elements name ≡ some s)
    × Outcome three_elements (is_string_at 4096) (hashpow2 three_elements 6) s
get_str-finds_example = get_str-finds three_elements name three_elements-WellFormed

get-returns_example :
    (s : Slot) × (get natural three_elements (number 3) ≡ some s) × InTable three_elements s
get-returns_example = get-returns natural three_elements (number 3) three_elements-WellFormed

-- Keys 1, 2, 3 and 7: four indices are enough for the first three.
abbrev four_keys : List ℕ
four_keys = 1 ∷ 1 ∷ 1 ∷ 1 ∷ []

choose_four : computesizes four_keys 4 ≡ some (4, 3)
unfolding computesizes sizes_loop
choose_four = refl

four_keys_fit : (k : ℕ) → k < 4 → in_use four_keys k ≤ 2 ^ k
four_keys_fit zero lt = omega arith
four_keys_fit (suc zero) lt = omega arith
four_keys_fit (suc (suc zero)) lt = omega arith
four_keys_fit (suc (suc (suc zero))) lt = omega arith
four_keys_fit (suc (suc (suc (suc k)))) lt = absurd (omega arith)

computesizes-optimal_example :
    (n : ℕ) × (na : ℕ) × (computesizes four_keys 4 ≡ some (n, na))
    × (((n ≡ 0) × (na ≡ 0))
        ⊎ ((k : ℕ) × (k < 4) × (n ≡ 2 ^ k) × (na ≡ in_use four_keys k) × (n / 2 < na)))
    × ((k : ℕ) → k < 4 → 2 ^ k / 2 < in_use four_keys k → 2 ^ k ≤ n)
computesizes-optimal_example = computesizes-optimal four_keys four_keys_fit

-- The traversal after the string: the number that hangs on its chain.
name_index : find_index natural three_elements (string name) ≡ some (some (pos 2))
unfolding find_index arrayindex hash_index get_any find sizenode mainposition hashpow2 rawequal_obj
name_index = refl

after_name :
    next_entry natural three_elements (string name) ≡ some (some (some (number 3, boolean 1)))
unfolding next_entry next_from scan find_index arrayindex hash_index get_any find sizenode
    mainposition hashpow2 rawequal_obj ◌+ℤ◌
after_name = refl
