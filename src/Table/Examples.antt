-- ===== src/Table/Examples.antt =====
-- A table with a hash part of two nodes, of which one has a key; numbers are natural, and an int has their low bits.
use soft_renderer_lua.Base.{
  ◌<◌, ◌+◌, ℕ, zero, suc, ◌/◌, ◌%◌, ◌^◌, ◌≡◌, refl, sym, ap, ◌∙◌, arith, true, false, ◌==◌, Bool,
  get_elem?, none, some, [], ◌∷◌, ◌⊎◌, inl, inr, Option, subst,
}
use soft_renderer_lua.Base.Int.{pos, pos_part}
use soft_renderer_lua.Table.{
  NumberOps, TValue, nil, boolean, number, Node, Table, Slot, nilobject, node_slot, is_nil,
  dummynode, sizenode, hashmod, hashnum, mainposition, rawequal_obj, find, get_any,
}
use soft_renderer_lua.Table.Insert.{free_from, newkey}
use soft_renderer_lua.Table.Set.{set_slot, raw_set, written_to, index_is_nil, reset_flags}
use soft_renderer_lua.Table.Links.{At, At-same, Edge, Reach, count_used, here}
use soft_renderer_lua.Table.Keys.{Home}
use soft_renderer_lua.Table.Lookup.{Hashed}
use soft_renderer_lua.Table.Laws.{NumberLaws, Interned, raw-KeyLaws}
use soft_renderer_lua.Table.Inserted.{Inserted}
use soft_renderer_lua.Table.Newkey.{newkey-Inserted}
use soft_renderer_lua.Table.Traversal.{next_entry}
use soft_renderer_lua.Table.Order.{FirstLive}
use soft_renderer_lua.Table.Next.{IntKeys, Behind, of_node, next_entry-FirstLive}
use soft_renderer_lua.Table.Located.{Updated}
use soft_renderer_lua.Table.Update.{raw_set-Updated}
use soft_renderer_lua.Table.Refusals.{set_slot-errors}

abbrev low_bits : NumberOps ℕ
low_bits = record {
  numeq = λ a b. a == b;
  cast_num = pos_part;
  number2int = λ n. pos (n % 2 ^ 31);
  words = λ n. (n % 2 ^ 32, n / 2 ^ 32);
}

==→≡ : (a b : ℕ) → (a == b) ≡ true → a ≡ b
==→≡ a b h = ground arith

low_bits-NumberLaws : NumberLaws low_bits
low_bits-NumberLaws = record {
  symmetric = λ a b e. ground arith;
  transitive = λ a b c e e'. ground arith;
  same_words = λ a b e other. ap (λ n. (n % 2 ^ 32, n / 2 ^ 32)) (==→≡ a b e);
  same_int = λ a b e. ap (λ n. pos (n % 2 ^ 31)) (==→≡ a b e);
  int32 = λ a. ground arith;
}

abbrev first : Node ℕ
first = record { i_val = boolean 1; i_key = number 3; next = none }

abbrev one_element : Table ℕ
one_element = record {
  lsizenode = 1;
  array = boolean 1 ∷ boolean 0 ∷ [];
  node = first ∷ dummynode ∷ [];
  node_is_dummy = false;
  lastfree = 2;
  flags = 0;
}

nodes_are :
    (i : ℕ) (n : Node ℕ)
    → At one_element.node i n
    → ((i ≡ 0) × (n ≡ first)) ⊎ ((i ≡ 1) × (n ≡ dummynode))
nodes_are zero n e = inl (refl, At-same e refl)
nodes_are (suc zero) n e = inr (refl, At-same e refl)
nodes_are (suc (suc i)) n e = absurd (cc)

no_next : (i : ℕ) (n : Node ℕ) → At one_element.node i n → n.next ≡ none
no_next i n e = elim (nodes_are i n e) [
  | inl (p, q) ↦ ap (λ x. x.next) q
  | inr (p, q) ↦ ap (λ x. x.next) q
]

no_links : (i j : ℕ) → Edge one_element.node i j → ⊥
no_links i j e = clash (sym (no_next i e.from e.at) ∙ e.next)
  where
    clash : ◌≡◌ {A = Option ℕ} none (some j) → ⊥
    clash h = cc

used_first :
    (i : ℕ) (n : Node ℕ) → At one_element.node i n → is_nil n.i_key ≡ false → (i ≡ 0) × (n ≡ first)
used_first i n e used = elim (nodes_are i n e) [
  | inl both ↦ both
  | inr (p, q) ↦ absurd (clash (ap (λ x. is_nil x.i_key) q) used)
]
  where
    clash : is_nil n.i_key ≡ true → is_nil n.i_key ≡ false → ⊥
    clash e e' = cc

no_hash : ℕ → ℕ
no_hash a = 0

first-main : mainposition low_bits one_element (number 3) ≡ 0
unfolding mainposition hashnum hashmod sizenode
first-main = refl

one_used : count_used one_element.node ≡ 1
unfolding count_used
one_used = refl

two_nodes : sizenode one_element ≡ 2
unfolding sizenode
two_nodes = refl

at_first :
    (i : ℕ) (n : Node ℕ)
    → At one_element.node i n
    → is_nil n.i_key ≡ false
    → Reach one_element.node (mainposition low_bits one_element n.i_key) i
at_first i n e used =
    let (p, q) = used_first i n e used in
    let main : mainposition low_bits one_element n.i_key ≡ i =
      ap (λ x. mainposition low_bits one_element x.i_key) q ∙ first-main ∙ sym p in
    subst (λ x. Reach one_element.node x i) (sym main) here

Home-first :
    (i : ℕ) (n : Node ℕ)
    → At one_element.node i n
    → is_nil n.i_key ≡ false
    → Home (mainposition low_bits one_element) one_element.node n.i_key
Home-first i n e used =
    let (p, q) = used_first i n e used in
    subst (λ x. Home (mainposition low_bits one_element) one_element.node x.i_key) (sym q)
      (record {
        node = first;
        at = ap (get_elem? one_element.node) first-main;
        key = refl;
        same = refl;
      })

second_used :
    (n n' : Node ℕ)
    → is_nil n.i_key ≡ false
    → rawequal_obj low_bits n.i_key n'.i_key ≡ true
    → is_nil n'.i_key ≡ false
second_used n n' used same =
    let laws = raw-KeyLaws low_bits low_bits-NumberLaws no_hash one_element in
    laws.not_nil n'.i_key n.i_key used (laws.symmetric _ _ same)

fresh_node :
    {i : ℕ} {n : Node ℕ}
    → ((i ≡ 0) × (n ≡ first)) ⊎ ((i ≡ 1) × (n ≡ dummynode))
    → is_nil n.i_key ≡ true
    → is_nil n.i_val ≡ true
fresh_node (inl (p, q)) empty = absurd (clash (ap (λ x. is_nil x.i_key) q) empty)
  where
    clash : {b : Bool} → b ≡ false → b ≡ true → ⊥
    clash e e' = cc
fresh_node (inr (p, q)) empty = ap (λ x. is_nil x.i_val) q

ok_first :
    (i : ℕ) (n : Node ℕ)
    → At one_element.node i n
    → is_nil n.i_key ≡ false
    → Interned no_hash n.i_key
ok_first i n e used = subst (λ x. Interned no_hash x.i_key) (sym (used_first i n e used).1) tt

one_element-Hashed : Hashed low_bits (Interned no_hash) one_element
one_element-Hashed = record {
  size = sym two_nodes;
  rank = λ i. 0;
  links = record {
    descends = λ i j e. absurd (no_links i j e);
    single = λ i j k e e'. absurd (no_links i k e);
    source = λ i j e. absurd (no_links i j e);
    target = λ i j e. absurd (no_links i j e);
    bound = λ i u. omega (arith, one_used);
  };
  keys = record {
    reach = λ i n e used. at_first i n e used;
    home = λ i n e used. Home-first i n e used;
    unique = λ i j n n' e e' used same.
        (used_first i n e used).0 ∙ sym (used_first j n' e' (second_used n n' used same)).0;
    fresh = λ i n e empty. fresh_node (nodes_are i n e) empty;
    ok = λ i n e used. ok_first i n e used;
  };
  lastfree = omega arith;
  dummy = λ h. absurd (cc);
}

-- The second node is free.
second_free : free_from one_element.node one_element.lastfree ≡ some 1
unfolding free_from
second_free = refl

five_absent : get_any low_bits one_element (number 5) ≡ some nilobject
unfolding get_any find mainposition hashnum hashmod sizenode rawequal_obj
five_absent = refl

five_self : rawequal_obj low_bits (number 5) (number 5) ≡ true
unfolding rawequal_obj
five_self = refl

-- A table that cannot grow
no_grow : Table ℕ → TValue ℕ → Option (Slot × Table ℕ)
no_grow t k = none

-- The key 5 collides with 3 and comes to the second node.
newkey-Inserted_example :
    (i : ℕ) × (t' : Table ℕ) × (newkey low_bits no_grow one_element (number 5)
      ≡ some (node_slot i, t'))
    × Inserted low_bits (Interned no_hash) one_element (number 5) i t'
newkey-Inserted_example =
    newkey-Inserted low_bits (Interned no_hash) (raw-KeyLaws low_bits low_bits-NumberLaws no_hash)
      one_element one_element-Hashed (number 5) tt refl five_self five_absent no_grow 1 second_free

raw_set-Updated_example :
    (t' : Table ℕ) × (raw_set low_bits no_grow one_element (number 5) (boolean 0)
      ≡ some (written_to t'))
    × Updated low_bits (Interned no_hash) one_element (number 5) (boolean 0) t'
raw_set-Updated_example =
    raw_set-Updated low_bits low_bits-NumberLaws no_hash no_grow one_element one_element-Hashed
      (number 5) tt refl refl (boolean 0) (λ absent. (1, second_free))

set_slot-errors_example :
    set_slot low_bits no_grow one_element nil ≡ some (index_is_nil (reset_flags one_element))
set_slot-errors_example =
    set_slot-errors low_bits low_bits-NumberLaws no_hash no_grow one_element one_element-Hashed nil
      (inl refl)

small_keys : IntKeys low_bits 2
small_keys = record { equal = λ j lt. ground arith; back = λ j lt. ground arith }

three_self : rawequal_obj low_bits (number 3) (number 3) ≡ true
unfolding rawequal_obj
three_self = refl

not_in_array : (i : ℕ) → i < 2 → rawequal_obj low_bits (number 3) (number (i + 1)) ≡ false
unfolding rawequal_obj
not_in_array i lt = ground arith

behind_three : Behind low_bits one_element (number 3) 3
behind_three = of_node 0 first refl refl three_self not_in_array

next_entry-FirstLive_example :
    (o : Option (TValue ℕ × TValue ℕ)) × (next_entry low_bits one_element (number 3)
      ≡ some (some o))
    × FirstLive low_bits one_element 3 o
next_entry-FirstLive_example =
    next_entry-FirstLive low_bits low_bits-NumberLaws no_hash one_element one_element-Hashed
      small_keys (number 3) 3 behind_three
