-- ===== src/Table/Next.antt =====
-- luaH_next goes on behind the position of the key that it is given.
use soft_renderer_lua.Base.{
  ℕ, zero, suc, ◌+◌, ◌-◌, ◌<◌, ◌≡◌, refl, sym, ap, ◌∙◌, arith, Bool, true, false, ◌&&◌, ltb, leb,
  Bool-cases, inl, inr, Option, some, length,
}
use soft_renderer_lua.Base.Int.{ℤ, pos, negsuc, pos_part, ◌+ℤ◌}
use soft_renderer_lua.Table.{
  NumberOps, TValue, nil, boolean, light_userdata, number, string, object, Node, Table, node_slot,
  is_nil, rawequal_obj, get_any,
}
use soft_renderer_lua.Table.Traversal.{arrayindex, hash_index, find_index, next_entry}
use soft_renderer_lua.Table.Order.{FirstLive, next_entry-from}
use soft_renderer_lua.Table.Links.{At}
use soft_renderer_lua.Table.Lookup.{Hashed, get_any_hit}
use soft_renderer_lua.Table.Laws.{NumberLaws, Interned, raw-KeyLaws}

module _ {Number : Type 0} (ops : NumberOps Number) where
  -- The number of an int up to `size` is equal to itself and converts back.
  pub record IntKeys (size : ℕ) : Type 0 where
    pub equal :
        (j : ℕ)
        → j < size
        → ops.numeq (ops.cast_num (pos (j + 1))) (ops.cast_num (pos (j + 1))) ≡ true
    pub back : (j : ℕ) → j < size → ops.number2int (ops.cast_num (pos (j + 1))) ≡ pos (j + 1)

  -- A key of the table with the position behind its own: nil is before the first, the keys of the array part are
  -- the numbers from 1 on, and a node has its key, which is not NaN and no key of the array part.
  pub data Behind (t : Table Number) : TValue Number → ℕ → Type 0 where
    start : Behind t nil 0
    of_array : (j : ℕ) → j < length t.array → Behind t (number (ops.cast_num (pos (j + 1)))) (j + 1)
    of_node :
        (j : ℕ) (n : Node Number)
        → At t.node j n
        → is_nil n.i_key ≡ false
        → rawequal_obj ops n.i_key n.i_key ≡ true
        → ((i : ℕ)
            → i < length t.array
            → rawequal_obj ops n.i_key (number (ops.cast_num (pos (i + 1)))) ≡ false)
        → Behind t n.i_key (length t.array + j + 1)

  abbrev in_array : ℕ → ℕ → Bool
  in_array i size = ltb 0 i && leb i size

  nil_index : (t : Table Number) → find_index ops t nil ≡ some (some (negsuc 0))
  unfolding find_index
  nil_index t = refl

  array_position :
      (t : Table Number) (keys : IntKeys (length t.array)) (j : ℕ)
      → j < length t.array
      → find_index ops t (number (ops.cast_num (pos (j + 1)))) ≡ some (some (pos j))
  unfolding find_index arrayindex
  array_position t keys j lt =
      let first : ltb 0 (j + 1) ≡ true = ground arith in
      let within : leb (j + 1) (length t.array) ≡ true = ground arith in
      let same : j + 1 - 1 ≡ j = omega arith in
      rw (keys.back j lt, keys.equal j lt, first, within, same) refl

  hash_position :
      (t : Table Number) (k : TValue Number) (j : ℕ)
      → is_nil k ≡ false
      → in_array (pos_part (arrayindex ops k)) (length t.array) ≡ false
      → get_any ops t k ≡ some (node_slot j)
      → find_index ops t k ≡ some (some (pos (j + length t.array)))
  unfolding find_index hash_index
  hash_position t nil j used out e = absurd (cc)
  hash_position t (boolean b) j used out e = rw (out, e) refl
  hash_position t (light_userdata p) j used out e = rw (out, e) refl
  hash_position t (number n) j used out e = rw (out, e) refl
  hash_position t (string s) j used out e = rw (out, e) refl
  hash_position t (object tag a) j used out e = rw (out, e) refl

  false-true : (b : Bool) → b ≡ false → b ≡ true → ⊥
  false-true b e e' = cc

  module _ (laws : NumberLaws ops) where
    number_outside :
        (x : Number) (k : ℤ) (size : ℕ)
        → ops.numeq (ops.cast_num k) x ≡ true
        → ((i : ℕ) → i < size → ops.numeq x (ops.cast_num (pos (i + 1))) ≡ false)
        → in_array (pos_part k) size ≡ false
    number_outside x (negsuc n) size e other = refl
    number_outside x (pos zero) size e other = refl
    number_outside x (pos (suc j)) size e other = elim (Bool-cases (leb (suc j) size)) [
      | inr out ↦ ground (arith, out)
      | inl within ↦
          let up : j + 1 ≡ suc j = omega arith in
          let unequal : ops.numeq x (ops.cast_num (pos (suc j))) ≡ false =
            ap (λ i. ops.numeq x (ops.cast_num (pos i))) (sym up) ∙ other j (ground arith) in
          absurd (false-true _ unequal (laws.symmetric _ _ e))
    ]

    outside :
        (k : TValue Number) (size : ℕ)
        → ((i : ℕ) → i < size → rawequal_obj ops k (number (ops.cast_num (pos (i + 1)))) ≡ false)
        → in_array (pos_part (arrayindex ops k)) size ≡ false
    unfolding arrayindex rawequal_obj
    outside nil size other = refl
    outside (boolean b) size other = refl
    outside (light_userdata p) size other = refl
    outside (string s) size other = refl
    outside (object tag a) size other = refl
    outside (number x) size other =
        elim (Bool-cases (ops.numeq (ops.cast_num (ops.number2int x)) x)) [
          | inl e ↦ rw e (number_outside x (ops.number2int x) size e other)
          | inr e ↦ rw e refl
        ]

    -- luaH_next with a key of the table answers the element at the first position with a value behind the one of the
    -- key, and the end of the traversal when there is none; with nil it starts at the first position. The hash part is
    -- in order, and `hash_of` is the hash of each interned string.
    pub next_entry-FirstLive :
        (hash_of : ℕ → ℕ) (t : Table Number)
        → Hashed ops (Interned hash_of) t
        → IntKeys (length t.array)
        → (key : TValue Number) (p : ℕ) → Behind t key p
        → (o : Option (TValue Number × TValue Number)) × (next_entry ops t key ≡ some (some o))
          × FirstLive ops t p o
    unfolding ◌+ℤ◌
    next_entry-FirstLive hash_of t inv keys _ _ start =
        next_entry-from ops t nil (negsuc 0) 0 (nil_index t) refl
    next_entry-FirstLive hash_of t inv keys _ _ (of_array j lt) =
        next_entry-from ops t (number (ops.cast_num (pos (j + 1)))) (pos j) (j + 1)
          (array_position t keys j lt) (ground arith)
    next_entry-FirstLive hash_of t inv keys _ _ (of_node j n at used self other) =
        let found =
          get_any_hit ops (Interned hash_of) (raw-KeyLaws ops laws hash_of) t inv n.i_key j n
            (inv.keys.ok j n at used) at used self in
        next_entry-from ops t n.i_key (pos (j + length t.array)) (length t.array + j + 1)
          (hash_position t n.i_key j used (outside n.i_key (length t.array) other) found)
          (ground arith)
