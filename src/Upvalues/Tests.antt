-- ===== src/Upvalues/Tests.antt =====
-- Two open upvalues over a stack of three values
use soft_renderer_lua.Base.{Listed, first, later, ℕ, ◌<◌, ◌≡◌, refl, arith, false, some, [], ◌∷◌}
use soft_renderer_lua.Upvalues.{
  UpVal, State, Collector, new_upval, findupval, close, close_list, close_upval, unlinkupval,
  linked_marks,
}
use soft_renderer_lua.Upvalues.Order.{Sorted, nothing, above}
use soft_renderer_lua.Upvalues.Sharing.{Shared, findupval-Shared}
use soft_renderer_lua.Upvalues.Closing.{Closing, close-Closing}

abbrev high : UpVal
high = record { address = 100; marked = 1; v = 2 }

abbrev low : UpVal
low = record { address = 200; marked = 1; v = 0 }

abbrev two_open : State ℕ
two_open = record {
  stack = 7 ∷ 8 ∷ 9 ∷ [];
  openupval = high ∷ low ∷ [];
  uvhead = 100 ∷ 200 ∷ [];
  closed = [];
}

abbrev collector : Collector
collector = record { currentwhite = 1; propagate = false }

two_open-Sorted : Sorted two_open.openupval
two_open-Sorted = above (λ q m. lower q m) (above (λ q m. elim m [ ]) nothing)
  where
    lower : (q : UpVal) → Listed q (low ∷ []) → q.v < 2
    lower q first = omega arith
    lower q (later m) = elim m [ ]

two_open-inside : (p : UpVal) → Listed p two_open.openupval → p.v < 3
two_open-inside p first = omega arith
two_open-inside p (later first) = omega arith
two_open-inside p (later (later m)) = elim m [ ]

high_closed :
    close collector two_open 1
    ≡ some (record {
      stack = 7 ∷ 8 ∷ 9 ∷ [];
      openupval = low ∷ [];
      uvhead = 200 ∷ [];
      closed = record { address = 100; marked = 1; value = 9 } ∷ [];
    })
unfolding close close_list close_upval unlinkupval linked_marks soft_renderer_lua.Strings.isdead
high_closed = refl

findupval-Shared_example :
    Shared
      (new_upval collector 300 2)
      two_open.openupval
      (findupval collector 300 two_open 2).0
      (findupval collector 300 two_open 2).1.openupval
    × ((findupval collector 300 two_open 2).1.stack ≡ two_open.stack)
    × ((findupval collector 300 two_open 2).1.closed ≡ two_open.closed)
findupval-Shared_example = findupval-Shared collector 300 two_open 2 two_open-Sorted

close-Closing_example :
    (s : State ℕ) × (close collector two_open 1 ≡ some s)
    × Closing collector 1 two_open.openupval two_open s
close-Closing_example = close-Closing collector 1 two_open two_open-Sorted two_open-inside
