-- ===== src/Table/Rehash.antt =====
-- computesizes of ltable.c: the new size of the array part.
use soft_renderer_lua.Base.{
  ℕ, ◌+◌, ◌*◌, ◌/◌, ◌&&◌, ◌==◌, ltb, if◌then◌else◌, Option, none, some, List, [], ◌∷◌,
}

-- The loop, over the counts from `nums[i]` on; `n` and `na` are the best size till now and the number of
-- keys in it, which are also the results. A read past the end of `nums` is `none`.
unfoldable pub sizes_loop : List ℕ → ℕ → ℕ → ℕ → ℕ × ℕ → Option (ℕ × ℕ)
sizes_loop [] narray twotoi a best = if ltb (twotoi / 2) narray then none else some best
sizes_loop (count ∷ nums) narray twotoi a best =
    let a' = a + count in
    let better = if ltb 0 count && ltb (twotoi / 2) a' then (twotoi, a') else best in
    let rest = sizes_loop nums narray (twotoi * 2) a' better in
    if ltb (twotoi / 2) narray then (if a' == narray then some better else rest) else some best

-- The new `*narray`, and the answer `na`.
unfoldable pub computesizes : List ℕ → ℕ → Option (ℕ × ℕ)
computesizes nums narray = sizes_loop nums narray 1 0 (0, 0)
