-- ===== src/Upvalues.antt =====
-- luaF_findupval and luaF_close of lfunc.c: the upvalues that still live in the stack. A StkId is an index in
-- the stack; the values are arbitrary.
pub mod Order
pub mod Sharing
pub mod Closing
mod Tests
use soft_renderer_lua.Base.{
  ℕ, zero, suc, ◌-◌, ◌^◌, bit_and, bit_or, bit_xor, Bool, true, false, not, ◌&&◌, ◌==◌, leb,
  if◌then◌else◌, Option, none, some, List, [], ◌∷◌, get_elem?,
}
use soft_renderer_lua.Strings.{whitebits, isdead}
use soft_renderer_lua.Table.Insert.{◌>>=◌}

-- An open UpVal: `v` is the place in the stack.
pub record UpVal : Type 0 where
  pub address : ℕ
  pub marked : ℕ
  pub v : ℕ

-- A closed one, whose `v` is `&u.value`
pub record Closed (Value : Type 0) : Type 0 where
  pub address : ℕ
  pub marked : ℕ
  pub value : Value

-- `openupval` is the list that starts at `L->openupval`, `uvhead` the double-linked list at `g->uvhead`, by address, and
-- `closed` has the upvalues that luaF_close has linked into `rootgc`.
pub record State (Value : Type 0) : Type 0 where
  pub stack : List Value
  pub openupval : List UpVal
  pub uvhead : List ℕ
  pub closed : List (Closed Value)

-- What is read of the collector: `currentwhite`, and whether `gcstate` is GCSpropagate.
pub record Collector : Type 0 where
  pub currentwhite : ℕ
  pub propagate : Bool

-- `isdead(g, obj2gco(p))` and `changewhite(obj2gco(p))`
unfoldable pub revive : ℕ → UpVal → UpVal
revive currentwhite p =
    if isdead currentwhite p.marked then record p { marked = bit_xor p.marked whitebits } else p

-- The loop of luaF_findupval: the upvalue, whether it is the new one, and the list.
unfoldable pub find_or_chain : ℕ → UpVal → List UpVal → UpVal × Bool × List UpVal
find_or_chain currentwhite uv [] = (uv, true, uv ∷ [])
find_or_chain currentwhite uv (p ∷ list) =
    let (found, created, rest) = find_or_chain currentwhite uv list in
    if leb uv.v p.v
    then (if p.v == uv.v
        then (revive currentwhite p, false, revive currentwhite p ∷ list)
        else (found, created, p ∷ rest))
    else (uv, true, uv ∷ p ∷ list)

-- The upvalue that luaF_findupval makes
abbrev pub new_upval : Collector → ℕ → ℕ → UpVal
new_upval g address level = record {
  address = address;
  marked = bit_and g.currentwhite whitebits;
  v = level;
}

-- `g->uvhead.u.l.next = uv`, with the links around it
abbrev pub link_head : Bool → ℕ → List ℕ → List ℕ
link_head created address uvhead = if created then address ∷ uvhead else uvhead

-- unlinkupval
unfoldable pub unlinkupval : ℕ → List ℕ → List ℕ
unlinkupval address [] = []
unlinkupval address (a ∷ uvhead) = if a == address then uvhead else a ∷ unlinkupval address uvhead

-- luaC_linkupval on the marks; the barrier that it calls does not change them.
unfoldable pub linked_marks : Collector → ℕ → ℕ
linked_marks g marked =
    if bit_and marked whitebits == 0 && bit_and marked 4 == 0
    then (if g.propagate
        then bit_or marked 4
        else bit_or (bit_and marked (2 ^ 8 - 1 - 7)) (bit_and g.currentwhite whitebits))
    else marked

module _ {Value : Type 0} where
  unfoldable pub findupval : Collector → ℕ → State Value → ℕ → UpVal × State Value
  findupval g address s level =
      let (uv, created, list) =
        find_or_chain g.currentwhite (new_upval g address level) s.openupval in
      (uv, record s { openupval = list; uvhead = link_head created address s.uvhead })

  -- A round of luaF_close
  unfoldable pub close_upval : Collector → UpVal → State Value → Option (State Value)
  close_upval g uv s =
      if isdead g.currentwhite uv.marked
      then some (record s { uvhead = unlinkupval uv.address s.uvhead })
      else (do
        x ← get_elem? s.stack uv.v
        some (record s {
          uvhead = unlinkupval uv.address s.uvhead;
          closed =
              record { address = uv.address; marked = linked_marks g uv.marked; value = x }
              ∷ s.closed;
        }))

  -- The loop; `openupval` is the rest of the list.
  unfoldable pub close_list : Collector → ℕ → List UpVal → State Value → Option (State Value)
  close_list g level [] s = some (record s { openupval = [] })
  close_list g level (uv ∷ list) s = elim (leb level uv.v) [
    | true ↦ do s' ← close_upval g uv s; close_list g level list s'
    | false ↦ some (record s { openupval = uv ∷ list })
  ]

  unfoldable pub close : Collector → State Value → ℕ → Option (State Value)
  close g s level = close_list g level s.openupval s
