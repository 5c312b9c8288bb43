-- ===== src/Upvalues/Order.antt =====
-- The open upvalues in the order of their places in the stack, the highest first.
use soft_renderer_lua.Base.{Listed, ◌<◌, List, [], ◌∷◌}
use soft_renderer_lua.Upvalues.{UpVal}

pub data Sorted : List UpVal → Type 0 where
  nothing : Sorted []
  above :
      {p : UpVal} {list : List UpVal}
      → ((q : UpVal) → Listed q list → q.v < p.v)
      → Sorted list
      → Sorted (p ∷ list)
