-- ===== src/Memory/Tests.antt =====
-- A vector of four-byte elements over an allocator that never reuses an address.
use soft_renderer_lua.Base.{ℕ, ◌+◌, ◌==◌, ◌≡◌, refl, if◌then◌else◌, none, some}
use soft_renderer_lua.Memory.{
  Alloc, GlobalState, allocated, raised, limit_reached, new_size, finish, realloc_with, realloc,
  reallocv, grow_to, growaux,
}
use soft_renderer_lua.Memory.Growth.{Grown, growaux-Grown}

unfoldable pub bump : Alloc ℕ
bump d block osize nsize = if nsize == 0 then (none, d) else (some d, d + nsize)

abbrev start : GlobalState ℕ
start = record { totalbytes = 100; ud = 4096 }

doubled :
    growaux bump start (some 64) 4 4 1000
    ≡ (allocated (some 4096), 8, record { totalbytes = 116; ud = 4128 })
unfolding growaux grow_to finish new_size reallocv realloc realloc_with bump
doubled = refl

full : growaux bump start (some 64) 10 4 10 ≡ (raised limit_reached, 10, start)
unfolding growaux grow_to new_size
full = refl

growaux-Grown_example : Grown start 4 4 1000 (growaux bump start (some 64) 4 4 1000)
growaux-Grown_example = growaux-Grown bump start (some 64) 4 4 1000
