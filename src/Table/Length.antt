-- ===== src/Table/Length.antt =====
-- luaH_getn finds a boundary of the table: the length operator of the language.
use mathlib.Core.Option
use soft_renderer_lua.Base.{
  ℕ, zero, suc, ◌+◌, ◌-◌, ◌%◌, ◌^◌, ◌≤◌, ◌<◌, ◌≡◌, refl, ap, sym, ◌∙◌, arith, Bool, true, false,
  ◌&&◌, ltb, Bool-cases, if◌then◌else◌, Option, some, [], ◌∷◌, length, get_elem?, get_elem?_of_lt,
  inl, inr, ◌⊎◌,
}
use soft_renderer_lua.Base.Int.{pos, ◌-ℤ◌}
use soft_renderer_lua.Opcodes.{to_unsigned}
use soft_renderer_lua.Table.{
  NumberOps, TValue, Table, array_slot, nilobject, to_int, is_nil, value_at, get_num, absent,
  array_absent, find, is_number, hashnum, sizenode, dummynode,
}
use soft_renderer_lua.Table.Search.{
  last_absent, binary_search, unbound_search, double_search, get_n,
}
use soft_renderer_lua.Table.Border.{Start, Boundary, Total, binary_search_lem, double_search_lem}
use soft_renderer_lua.Table.Chains.{
  WellFormed, get_num_array, get_num_hash, get_num-returns, find_end, hashnum_lt,
}

index_lem : (k : ℕ) → 0 < k → k < 2 ^ 31 → to_unsigned (to_int k -ℤ pos 1) ≡ k - 1
unfolding ◌-ℤ◌
index_lem k k0 k1 = ground arith

split : (b : Bool) (o : Option Bool) → o ≡ some b → (o ≡ some true) ⊎ (o ≡ some false)
split true o e = inl e
split false o e = inr e

if-false : {A : Type 0} (b : Bool) (x y : A) → b ≡ false → (if b then x else y) ≡ y
if-false b x y e = rw e refl

module _ {Number : Type 0} (ops : NumberOps Number) (t : Table Number) (wf : WellFormed t) where
  absent-Total : Total (absent ops t) (2 ^ 31)
  unfolding absent
  absent-Total k k0 k1 =
      let (s, run, _) = get_num-returns ops t (to_int k) wf in
      split (is_nil (value_at t s)) (absent ops t k) (ap (Option.map _) run)

  absent_of :
      (k i : ℕ) (v : TValue Number)
      → get_num ops t (to_int k) ≡ some (array_slot i)
      → get_elem? t.array i ≡ some v
      → absent ops t k ≡ some (is_nil v)
  unfolding absent value_at
  absent_of k i v slot at = rw (slot, at) refl

  array_absent_of :
      (k : ℕ) (v : TValue Number)
      → get_elem? t.array (k - 1) ≡ some v
      → array_absent t k ≡ some (is_nil v)
  unfolding array_absent
  array_absent_of k v at = rw at refl

  -- The array part answers for its own indices.
  absent_array :
      (k : ℕ)
      → 0 < k
      → k ≤ length t.array
      → (b : Bool) × (absent ops t k ≡ some b) × (array_absent t k ≡ some b)
  absent_array k k0 k1 =
      let bound = wf.sizearray in
      let i : to_unsigned (to_int k -ℤ pos 1) ≡ k - 1 = index_lem k k0 (omega arith) in
      let slot : get_num ops t (to_int k) ≡ some (array_slot (k - 1)) =
        get_num_array ops t (to_int k) (rw i (omega arith)) ∙ ap (λ j. some (array_slot j)) i in
      let (v, at) = get_elem?_of_lt t.array (k - 1) (omega arith) in
      (is_nil v, absent_of k (k - 1) v slot at, array_absent_of k v at)

  same_absent : (k : ℕ) → 0 < k → k ≤ length t.array → absent ops t k ≡ array_absent t k
  same_absent k k0 k1 = let (b, e, f) = absent_array k k0 k1 in e ∙ sym f

  array-Total : Total (array_absent t) (suc (length t.array))
  array-Total k k0 k1 =
      let (b, e, f) = absent_array k k0 (omega arith) in split b (array_absent t k) f

  dummy_find :
      (n : Number)
      → t.node ≡ dummynode ∷ []
      → t.lsizenode ≡ 0
      → find t (is_number ops n) (sizenode t) (hashnum ops t n) ≡ some nilobject
  unfolding sizenode
  dummy_find n node lsize =
      let one : sizenode t ≡ 1 = rw lsize refl in
      let first : hashnum ops t n ≡ 0 = omega (arith, hashnum_lt ops t n, one) in
      rw (one, first) (find_end t (is_number ops n) 0 0 dummynode (rw node refl) refl refl)

  -- An empty hash part has no element.
  dummy_absent : t.node_is_dummy ≡ true → absent ops t (length t.array + 1) ≡ some true
  unfolding absent value_at
  dummy_absent is_dummy =
      let (node, lsize) = wf.dummy is_dummy in
      let bound = wf.sizearray in
      let k = length t.array + 1 in
      let i : to_unsigned (to_int k -ℤ pos 1) ≡ k - 1 = index_lem k (omega arith) (omega arith) in
      ap (Option.map _) (
        get_num_hash ops t (to_int k) (rw i (ground arith))
        ∙ dummy_find (ops.cast_num (to_int k)) node lsize)

  get_n_array :
      0 < length t.array
      → array_absent t (length t.array) ≡ some true
      → get_n ops t ≡ binary_search (array_absent t) 32 0 (length t.array)
  unfolding get_n
  get_n_array full gone =
      let e : ltb 0 (length t.array) ≡ true = ground arith in rw (get_n, e, gone) refl

  -- What luaH_getn does when the array part does not end with nil.
  ends_full :
      Start (array_absent t) (length t.array)
      → ltb 0 (length t.array) && last_absent (array_absent t (length t.array)) ≡ false
  ends_full (inl empty) = rw empty refl
  ends_full (inr here) = elim (Bool-cases (ltb 0 (length t.array))) [
    | inl full ↦ rw (full, here) refl
    | inr empty ↦ rw empty refl
  ]

  get_n_dummy :
      Start (array_absent t) (length t.array)
      → t.node_is_dummy ≡ true
      → get_n ops t ≡ some (length t.array)
  unfolding get_n
  get_n_dummy start d = rw (get_n, ends_full start, d) refl

  get_n_hash :
      Start (array_absent t) (length t.array)
      → t.node_is_dummy ≡ false
      → get_n ops t ≡ unbound_search (absent ops t) (length t.array)
  unfolding get_n
  get_n_hash start d = rw (get_n, ends_full start) (if-false t.node_is_dummy _ _ d)

  start_lem : (n : ℕ) → n ≤ length t.array → Start (array_absent t) n → Start (absent ops t) n
  start_lem n le (inl e) = inl e
  start_lem zero le (inr here) = inl refl
  start_lem (suc n) le (inr here) = inr (same_absent (suc n) (omega arith) le ∙ here)

  -- The last element of the array part is nil: the search stays inside.
  inside_lem :
      0 < length t.array
      → array_absent t (length t.array) ≡ some true
      → (n : ℕ) × (get_n ops t ≡ some n) × Boundary (absent ops t) n
  inside_lem full gone =
      let bound = wf.sizearray in
      let (n, run, below, border) =
        binary_search_lem (array_absent t) 31 0 (length t.array) full (omega arith) (omega arith)
          (λ k lo hi. array-Total k lo (omega arith)) (inl refl) gone in
      (
        n,
        get_n_array full gone ∙ run,
        (
          start_lem n (omega arith) border.0,
          same_absent (n + 1) (omega arith) (omega arith) ∙ border.1,
        ),
      )

  outside_lem :
      (b : ℕ)
      → 0 < b
      → b < 2 ^ 31
      → absent ops t b ≡ some true
      → Start (array_absent t) (length t.array)
      → (n : ℕ) × (get_n ops t ≡ some n) × Boundary (absent ops t) n
  unfolding unbound_search
  outside_lem b b0 b1 gone start =
      let bound = wf.sizearray in
      let here = start_lem (length t.array) (omega arith) start in
      elim (Bool-cases t.node_is_dummy) [
        | inl d ↦ (length t.array, get_n_dummy start d, (here, dummy_absent d))
        | inr d ↦
            let next : (length t.array + 1) % 2 ^ 32 ≡ length t.array + 1 = omega arith in
            let (n, run, border) =
              double_search_lem (absent ops t) 32 (length t.array) (length t.array + 1) b
                (omega arith) (omega arith) (omega arith) b0 b1 absent-Total here gone in
            (
              n,
              get_n_hash start d ∙ ap (double_search (absent ops t) 32 (length t.array)) next ∙ run,
              border,
            )
      ]

  -- On a well-formed table, some positive index of which has no value, luaH_getn returns a boundary:
  -- zero or an index with a value, whose successor has none.
  pub get_n-Boundary :
      (b : ℕ)
      → 0 < b
      → b < 2 ^ 31
      → absent ops t b ≡ some true
      → (n : ℕ) × (get_n ops t ≡ some n) × Boundary (absent ops t) n
  get_n-Boundary b b0 b1 gone =
      let bound = wf.sizearray in
      elim (Bool-cases (ltb 0 (length t.array))) [
        | inr none_there ↦ outside_lem b b0 b1 gone (inl (ground arith))
        | inl some_there ↦ elim (array-Total (length t.array) (ground arith) (omega arith)) [
          | inl last_gone ↦ inside_lem (ground arith) last_gone
          | inr last_here ↦ outside_lem b b0 b1 gone (inr last_here)
        ]
      ]
