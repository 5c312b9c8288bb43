-- ===== src/Table/Insert.antt =====
-- getfreepos and newkey of ltable.c: a new key in the hash part.
use soft_renderer_lua.Base.{
  ℕ, zero, suc, true, false, not, ◌||◌, ◌==◌, if◌then◌else◌, Option, none, some, List, length,
  get_elem?, set,
}
use soft_renderer_lua.Table.{
  NumberOps, TValue, nil, Node, Table, Slot, node_slot, is_nil, mainposition,
}

infixl 5 ◌>>=◌
abbrev pub ◌>>=◌ : {A B : Type 0} → Option A → (A → Option B) → Option B
none >>= f = none
some x >>= f = f x

module _ {Number : Type 0} where
  -- The loop of getfreepos, with `t->lastfree` at the index; it gives the index of the free node, which is
  -- also the new `t->lastfree`. When there is none, `t->lastfree` is left before the first node, where the
  -- next call finds none either: this is 0 here.
  unfoldable pub free_from : List (Node Number) → ℕ → Option ℕ
  free_from nodes zero = none
  free_from nodes (suc i) = do
    n ← get_elem? nodes i
    if is_nil n.i_key then some i else free_from nodes i

  abbrev pub set_lastfree : Table Number → ℕ → Table Number
  set_lastfree t i = record t { lastfree = i }

  abbrev pub set_nodes : Table Number → List (Node Number) → Table Number
  set_nodes t nodes = record t { node = nodes }

  -- `while (gnext(othern) != mp) othern = gnext(othern);`
  unfoldable pub find_previous : ℕ → List (Node Number) → ℕ → ℕ → Option ℕ
  find_previous zero nodes i mp = none
  find_previous (suc fuel) nodes i mp = do
    n ← get_elem? nodes i
    j ← n.next
    elim (j == mp) [ true ↦ some i | false ↦ find_previous fuel nodes j mp ]

  -- `gnext(nodes + i) = next`
  unfoldable pub set_next : List (Node Number) → ℕ → Option ℕ → Option (List (Node Number))
  set_next nodes i next = do n ← get_elem? nodes i; some (set nodes i (record n { next = next }))

  -- The end of newkey: the key is written to node `i`, whose value is the answer.
  unfoldable pub put_key :
      Table Number → List (Node Number) → ℕ → TValue Number → Option (Slot × Table Number)
  put_key t nodes i key = do
    n ← get_elem? nodes i
    some (node_slot i, set_nodes t (set nodes i (record n { i_key = key })))

  -- The colliding node moves from `mp` to the free node `n`.
  unfoldable pub move_node : List (Node Number) → ℕ → ℕ → ℕ → Option (List (Node Number))
  move_node nodes other mp n = do
    previous ← find_previous (length nodes) nodes other mp
    linked ← set_next nodes previous (some n)
    moved ← get_elem? linked mp
    let copied = set linked n moved
    some (set copied mp (record moved { next = none; i_val = nil }))

  -- The free node `n` is linked behind `mp`.
  unfoldable pub link_node : List (Node Number) → ℕ → ℕ → Option (List (Node Number))
  link_node nodes mp n = do
    m ← get_elem? nodes mp
    chained ← set_next nodes n m.next
    set_next chained mp (some n)

module _ {Number : Type 0} (ops : NumberOps Number) where
  -- newkey with the free node `n`
  unfoldable pub newkey_at :
      Table Number → TValue Number → ℕ → TValue Number → ℕ → Option (Slot × Table Number)
  newkey_at t key mp colliding n =
      if mainposition ops t colliding == mp
      then (do nodes ← link_node t.node mp n; put_key t nodes n key)
      else (do nodes ← move_node t.node (mainposition ops t colliding) mp n; put_key t nodes mp key)

  -- newkey; `grow` is `rehash(L, t, key); return luaH_set(L, t, key);`.
  unfoldable pub newkey :
      (Table Number → TValue Number → Option (Slot × Table Number))
      → Table Number
      → TValue Number
      → Option (Slot × Table Number)
  newkey grow t key = do
    let mp = mainposition ops t key
    m ← get_elem? t.node mp
    if not (is_nil m.i_val) || t.node_is_dummy
        then elim (free_from t.node t.lastfree) [
          | none ↦ grow (set_lastfree t 0) key
          | some n ↦ newkey_at (set_lastfree t n) key mp m.i_key n
        ]
        else put_key t t.node mp key
