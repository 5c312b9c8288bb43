-- ===== src/Memory.antt =====
-- lmem.c and the macro luaM_reallocv of lmem.h: allocation with its accounting, and growing vectors.
-- A block is its address, `none` for NULL; a `size_t` is 64 bits wide. An error leaves through a long
-- jump: it is a value here.
pub mod Growth
mod Tests
use soft_renderer_lua.Base.{
  ℕ, ◌+◌, ◌-◌, ◌*◌, ◌/◌, ◌%◌, ◌^◌, Bool, true, false, ltb, leb, if◌then◌else◌, Option, none, some,
}

-- `lua_Alloc` with the state that it keeps in `ud`: block, old size and new size.
abbrev pub Alloc : Type 0 → Type 0
Alloc D = D → Option ℕ → ℕ → ℕ → Option ℕ × D

-- The part of `global_State` that lmem.c uses.
pub record GlobalState (D : Type 0) : Type 0 where
  pub totalbytes : ℕ
  pub ud : D

-- `limit` carries the caller's message.
pub data MemoryError : Type 0 where
  limit_reached block_too_big no_memory : MemoryError

pub data Outcome : Type 0 where
  allocated : Option ℕ → Outcome
  raised : MemoryError → Outcome

-- MINSIZEARRAY, and MAX_SIZET of llimits.h
abbrev pub minsizearray : ℕ
minsizearray = 4

abbrev pub max_sizet : ℕ
max_sizet = 2 ^ 64 - 3

-- `(g->totalbytes - osize) + nsize`
abbrev pub account : ℕ → ℕ → ℕ → ℕ
account total osize nsize = ((total + 2 ^ 64 - osize) % 2 ^ 64 + nsize) % 2 ^ 64

-- The new size; `none` is the error.
unfoldable pub new_size : ℕ → ℕ → Option ℕ
new_size size limit =
    if leb (limit / 2) size
    then (if leb limit size then none else some limit)
    else if ltb (size * 2) minsizearray
    then some minsizearray
    else some (size * 2)

module _ {D : Type 0} where
  -- What luaM_realloc_ does with the answer of the allocator.
  unfoldable pub realloc_with : Option ℕ × D → GlobalState D → ℕ → ℕ → Outcome × GlobalState D
  realloc_with (some b, d) g osize nsize =
      (allocated (some b), record { totalbytes = account g.totalbytes osize nsize; ud = d })
  realloc_with (none, d) g osize nsize =
      if ltb 0 nsize
      then (raised no_memory, record g { ud = d })
      else (allocated none, record { totalbytes = account g.totalbytes osize nsize; ud = d })

  -- `*size` is updated only when the allocation has not raised an error.
  unfoldable pub finish : ℕ → ℕ → Outcome × GlobalState D → Outcome × ℕ × GlobalState D
  finish size newsize (allocated b, g) = (allocated b, newsize, g)
  finish size newsize (raised e, g) = (raised e, size, g)

module _ {D : Type 0} (frealloc : Alloc D) where
  -- luaM_realloc_
  unfoldable pub realloc : GlobalState D → Option ℕ → ℕ → ℕ → Outcome × GlobalState D
  realloc g block osize nsize = realloc_with (frealloc g.ud block osize nsize) g osize nsize

  -- luaM_reallocv, for counts that are not negative
  unfoldable pub reallocv : GlobalState D → Option ℕ → ℕ → ℕ → ℕ → Outcome × GlobalState D
  reallocv g b on n e =
      if leb (n + 1) (max_sizet / e)
      then realloc g b (on * e % 2 ^ 64) (n * e % 2 ^ 64)
      else (raised block_too_big, g)

  unfoldable pub grow_to : GlobalState D → Option ℕ → ℕ → ℕ → Option ℕ → Outcome × ℕ × GlobalState D
  grow_to g block size size_elems none = (raised limit_reached, size, g)
  grow_to g block size size_elems (some newsize) =
      finish size newsize (reallocv g block size newsize size_elems)

  -- luaM_growaux_: the block or the error, the new `*size`, and the state
  unfoldable pub growaux : GlobalState D → Option ℕ → ℕ → ℕ → ℕ → Outcome × ℕ × GlobalState D
  growaux g block size size_elems limit = grow_to g block size size_elems (new_size size limit)
