-- ===== src/Table/Chains.antt =====
-- The search functions of ltable.c walk the chain of a node to its end and answer a place in the table.
use native.Mathlib.Nat.{one-le-pow}
use soft_renderer_lua.Base.{
  ℕ, zero, suc, ◌+◌, ◌-◌, ◌*◌, ◌/◌, ◌%◌, ◌^◌, ◌<◌, ◌≡◌, refl, ◌∙◌, arith, bit_or, Bool, true, false,
  ltb, Bool-cases, none, some, List, [], ◌∷◌, length, get_elem?, lt_of_get_elem?, inl, inr,
}
use soft_renderer_lua.Base.Int.{ℤ, pos, ◌-ℤ◌}
use soft_renderer_lua.Base.Bits.{bit_or_digit, bit_or-zero, bit_and_ones}
use soft_renderer_lua.Opcodes.{to_unsigned}
use soft_renderer_lua.Table.{
  NumberOps, TString, TValue, nil, boolean, light_userdata, number, string, object, Node, Table,
  Slot, nilobject, array_slot, node_slot, dummynode, max_int, sizenode, hashpow2, hashmod, hashnum,
  mainposition, is_string_at, is_number, find, get_str, get_num, get_any, get,
}

-- The chain of a node ends after so many nodes at most.
pub data ChainEnds {Number : Type 0} (node : List (Node Number)) : ℕ → ℕ → Type 0 where
  last :
      {k i : ℕ} (n : Node Number)
      → get_elem? node i ≡ some n
      → n.next ≡ none
      → ChainEnds node (suc k) i
  link :
      {k i j : ℕ} (n : Node Number)
      → get_elem? node i ≡ some n
      → n.next ≡ some j
      → ChainEnds node k j
      → ChainEnds node (suc k) i

-- The shape of a table: the node vector has its size, its chains have no cycle, the dummy node is
-- empty, and the array is not too long for the indices of the search.
pub record WellFormed {Number : Type 0} (t : Table Number) : Type 0 where
  pub size : length t.node ≡ sizenode t
  pub chains : (i : ℕ) → i < sizenode t → ChainEnds t.node (sizenode t) i
  pub dummy : t.node_is_dummy ≡ true → (t.node ≡ dummynode ∷ []) × (t.lsizenode ≡ 0)
  pub sizearray : length t.array < max_int

module _ {Number : Type 0} (t : Table Number) (test : TValue Number → Bool) where
  -- No key on the chain of a node passes the test.
  pub data Missed : ℕ → Type 0 where
    miss :
        {i : ℕ} (n : Node Number)
        → get_elem? t.node i ≡ some n
        → test n.i_key ≡ false
        → n.next ≡ none
        → Missed i
    skip :
        {i j : ℕ} (n : Node Number)
        → get_elem? t.node i ≡ some n
        → test n.i_key ≡ false
        → n.next ≡ some j
        → Missed j
        → Missed i

  -- The answer of a search from node `i`: a node whose key passes, or the nil object when none does.
  pub data Outcome (i : ℕ) : Slot → Type 0 where
    found :
        {k : ℕ} (n : Node Number)
        → get_elem? t.node k ≡ some n
        → test n.i_key ≡ true
        → Outcome i (node_slot k)
    nothing : Missed i → Outcome i nilobject

  skip-Outcome :
      (i j : ℕ) (n : Node Number) (s : Slot)
      → get_elem? t.node i ≡ some n
      → test n.i_key ≡ false
      → n.next ≡ some j
      → Outcome j s
      → Outcome i s
  skip-Outcome i j n s at fails next (found m at_m passes) = found m at_m passes
  skip-Outcome i j n s at fails next (nothing missed) = nothing (skip n at fails next missed)

  find_hit :
      (k i : ℕ) (n : Node Number)
      → get_elem? t.node i ≡ some n
      → test n.i_key ≡ true
      → find t test (suc k) i ≡ some (node_slot i)
  unfolding find
  find_hit k i n at passes = rw (find, at, passes) refl

  pub find_end :
      (k i : ℕ) (n : Node Number)
      → get_elem? t.node i ≡ some n
      → test n.i_key ≡ false
      → n.next ≡ none
      → find t test (suc k) i ≡ some nilobject
  unfolding find
  find_end k i n at fails next = rw (find, at, fails, next) refl

  find_on :
      (k i j : ℕ) (n : Node Number)
      → get_elem? t.node i ≡ some n
      → test n.i_key ≡ false
      → n.next ≡ some j
      → find t test (suc k) i ≡ find t test k j
  unfolding find
  find_on k i j n at fails next = rw (find, at, fails, next) refl

  pub find-finds :
      (k i : ℕ) → ChainEnds t.node k i → (s : Slot) × (find t test k i ≡ some s) × Outcome i s
  find-finds zero i ends = elim ends [ ]
  find-finds (suc k) i (last n at next) = elim (Bool-cases (test n.i_key)) [
    | inl passes ↦ (node_slot i, find_hit k i n at passes, found n at passes)
    | inr fails ↦ (nilobject, find_end k i n at fails next, nothing (miss n at fails next))
  ]
  find-finds (suc k) i (link {j = j} n at next rest) = elim (Bool-cases (test n.i_key)) [
    | inl passes ↦ (node_slot i, find_hit k i n at passes, found n at passes)
    | inr fails ↦
        let (s, run, out) = find-finds k j rest in
        (s, find_on k i j n at fails next ∙ run, skip-Outcome i j n s at fails next out)
  ]

module _ {Number : Type 0} (t : Table Number) where
  sizenode_pos : 0 < sizenode t
  unfolding sizenode
  sizenode_pos = one-le-pow t.lsizenode 2 (omega arith)

  pub hashpow2_lt : (n : ℕ) → hashpow2 t n < sizenode t
  unfolding hashpow2 sizenode
  hashpow2_lt n =
      let p : 0 < 2 ^ t.lsizenode = one-le-pow t.lsizenode 2 (omega arith) in
      omega (arith, bit_and_ones t.lsizenode n (2 ^ t.lsizenode - 1) (omega arith))

  pub hashmod_lt : (n : ℕ) → hashmod t n < sizenode t
  unfolding hashmod
  hashmod_lt n =
      let m = sizenode t - 1 in
      let p : 0 < sizenode t = sizenode_pos in
      let odd : bit_or m 1 ≡ 1 + 2 * (m / 2) =
        omega (arith, bit_or_digit m 1, bit_or-zero (m / 2)) in
      let small : n % bit_or m 1 < bit_or m 1 = omega arith in omega arith

  -- luaH_getstr on a table without cycles returns a node with the key, or the nil object when no node on
  -- the chain of its main position has the key.
  pub get_str-finds :
      (key : TString)
      → WellFormed t
      → (s : Slot) × (get_str t key ≡ some s)
        × Outcome t (is_string_at key.address) (hashpow2 t key.hash) s
  unfolding get_str
  get_str-finds key wf =
      find-finds t (is_string_at key.address) (sizenode t) (hashpow2 t key.hash)
        (wf.chains _ (hashpow2_lt key.hash))

  -- A slot that exists in the table.
  abbrev pub InTable : Slot → Type 0
  InTable nilobject = Unit
  InTable (array_slot i) = i < length t.array
  InTable (node_slot i) = i < length t.node

  Outcome-InTable :
      (test : TValue Number → Bool) (i : ℕ) (s : Slot) → Outcome t test i s → InTable s
  Outcome-InTable test i s (found n at passes) = lt_of_get_elem? t.node _ n at
  Outcome-InTable test i s (nothing missed) = tt

module _ {Number : Type 0} (ops : NumberOps Number) (t : Table Number) where
  pub hashnum_lt : (n : Number) → hashnum ops t n < sizenode t
  unfolding hashnum
  hashnum_lt n = elim (Bool-cases (ops.numeq n (ops.cast_num (pos 0)))) [
    | inl null ↦ rw null (sizenode_pos t)
    | inr other ↦ rw other (hashmod_lt t _)
  ]

  pub mainposition_lt : (key : TValue Number) → mainposition ops t key < sizenode t
  unfolding mainposition
  mainposition_lt nil = hashmod_lt t _
  mainposition_lt (boolean b) = hashpow2_lt t b
  mainposition_lt (light_userdata p) = hashmod_lt t _
  mainposition_lt (number n) = hashnum_lt n
  mainposition_lt (string s) = hashpow2_lt t s.hash
  mainposition_lt (object tag a) = hashmod_lt t _

  find-answers :
      (test : TValue Number → Bool) (i : ℕ)
      → WellFormed t
      → i < sizenode t
      → (s : Slot) × (find t test (sizenode t) i ≡ some s) × InTable t s
  find-answers test i wf lt =
      let (s, run, out) = find-finds t test (sizenode t) i (wf.chains i lt) in
      (s, run, Outcome-InTable t test i s out)

  -- Where luaH_getnum looks.
  pub get_num_array :
      (key : ℤ)
      → to_unsigned (key -ℤ pos 1) < length t.array
      → get_num ops t key ≡ some (array_slot (to_unsigned (key -ℤ pos 1)))
  unfolding get_num
  get_num_array key lt = ground arith

  pub get_num_hash :
      (key : ℤ)
      → ltb (to_unsigned (key -ℤ pos 1)) (length t.array) ≡ false
      → get_num ops t key
        ≡ find t (is_number ops (ops.cast_num key)) (sizenode t) (hashnum ops t (ops.cast_num key))
  unfolding get_num
  get_num_hash key out = rw (get_num, out) refl

  pub get_num-returns :
      (key : ℤ) → WellFormed t → (s : Slot) × (get_num ops t key ≡ some s) × InTable t s
  get_num-returns key wf =
      let i = to_unsigned (key -ℤ pos 1) in
      elim (Bool-cases (ltb i (length t.array))) [
        | inl lt ↦
            let within : i < length t.array = ground arith in
            (array_slot i, get_num_array key within, within)
        | inr out ↦
            let (s, run, in_table) = find-answers _ _ wf (hashnum_lt (ops.cast_num key)) in
            (s, get_num_hash key out ∙ run, in_table)
      ]

  get_any-returns :
      (key : TValue Number) → WellFormed t → (s : Slot) × (get_any ops t key ≡ some s) × InTable t s
  unfolding get_any
  get_any-returns key wf = find-answers _ _ wf (mainposition_lt key)

  -- luaH_get on a table without cycles returns, for every key, a place that exists in the table.
  pub get-returns :
      (key : TValue Number) → WellFormed t → (s : Slot) × (get ops t key ≡ some s) × InTable t s
  unfolding get
  get-returns nil wf = (nilobject, refl, tt)
  get-returns (boolean b) wf = get_any-returns (boolean b) wf
  get-returns (light_userdata p) wf = get_any-returns (light_userdata p) wf
  get-returns (object tag a) wf = get_any-returns (object tag a) wf
  get-returns (string s) wf =
      let (place, run, out) = get_str-finds t s wf in (place, run, Outcome-InTable t _ _ place out)
  get-returns (number n) wf = elim (Bool-cases (ops.numeq (ops.cast_num (ops.number2int n)) n)) [
    | inl whole ↦
        let (s, run, in_table) = get_num-returns (ops.number2int n) wf in
        (s, rw whole run, in_table)
    | inr fraction ↦
        let (s, run, in_table) = get_any-returns (number n) wf in (s, rw fraction run, in_table)
  ]
