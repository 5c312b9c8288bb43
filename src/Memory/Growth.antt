-- ===== src/Memory/Growth.antt =====
-- luaM_growaux_ makes a vector larger or changes nothing, and keeps the count of allocated bytes.
use soft_renderer_lua.Base.{
  ◌≢◌, ℕ, ◌+◌, ◌*◌, ◌/◌, ◌%◌, ◌^◌, ◌≤◌, ◌<◌, ◌≡◌, refl, arith, max, ltb, leb, Bool-cases, Option,
  none, some, inl, inr, ◌⊎◌,
}
use soft_renderer_lua.Memory.{
  Alloc, GlobalState, MemoryError, limit_reached, block_too_big, no_memory, Outcome, allocated,
  raised, minsizearray, max_sizet, account, realloc_with, realloc, reallocv, new_size, finish,
  grow_to, growaux,
}

module _ {D : Type 0} (g : GlobalState D) where
  -- The bytes are counted when the allocation succeeds, and only then.
  data Counted (osize nsize : ℕ) : Outcome × GlobalState D → Type 0 where
    counted :
        (b : Option ℕ) (s : GlobalState D)
        → s.totalbytes ≡ account g.totalbytes osize nsize
        → Counted osize nsize (allocated b, s)
    uncounted :
        (e : MemoryError) (s : GlobalState D)
        → s.totalbytes ≡ g.totalbytes
        → e ≢ limit_reached
        → Counted osize nsize (raised e, s)

  realloc_with-Counted :
      (a : Option ℕ × D) (osize nsize : ℕ) → Counted osize nsize (realloc_with a g osize nsize)
  unfolding realloc_with
  realloc_with-Counted (some b, d) osize nsize = counted (some b) _ refl
  realloc_with-Counted (none, d) osize nsize = elim (Bool-cases (ltb 0 nsize)) [
    | inl wanted ↦ rw wanted (uncounted no_memory _ refl (λ h. cc))
    | inr freed ↦ rw freed (counted none _ refl)
  ]

  -- The vector has grown, by one place at least and to the limit at most or the least size, and its bytes
  -- are counted; or an error was raised with size and count as they were, about the limit only when the
  -- size has reached it.
  pub data Grown (size size_elems limit : ℕ) : Outcome × ℕ × GlobalState D → Type 0 where
    grown :
        (b : Option ℕ) (n : ℕ) (s : GlobalState D)
        → size < n
        → n ≤ max limit minsizearray
        → s.totalbytes ≡ account g.totalbytes (size * size_elems % 2 ^ 64) (n * size_elems % 2 ^ 64)
        → Grown size size_elems limit (allocated b, n, s)
    unchanged :
        (e : MemoryError) (s : GlobalState D)
        → s.totalbytes ≡ g.totalbytes
        → (e ≡ limit_reached → limit ≤ size)
        → Grown size size_elems limit (raised e, size, s)

new_size_lem :
    (size limit : ℕ)
    → ((new_size size limit ≡ none) × (limit ≤ size))
      ⊎ ((n : ℕ) × (new_size size limit ≡ some n) × (size < n) × (n ≤ max limit minsizearray))
unfolding new_size
new_size_lem size limit = elim (Bool-cases (leb (limit / 2) size)) [
  | inl half ↦ elim (Bool-cases (leb limit size)) [
    | inl full ↦ inl (rw (half, full) refl, ground arith)
    | inr room ↦ inr (limit, rw (half, room) refl, ground arith, omega arith)
  ]
  | inr double ↦ elim (Bool-cases (ltb (size * 2) minsizearray)) [
    | inl small ↦ inr (minsizearray, rw (double, small) refl, ground arith, omega arith)
    | inr large ↦ inr (size * 2, rw (double, large) refl, ground arith, ground arith)
  ]
]

module _ {D : Type 0} (frealloc : Alloc D) (g : GlobalState D) where
  reallocv-Counted :
      (b : Option ℕ) (on n e : ℕ)
      → Counted g (on * e % 2 ^ 64) (n * e % 2 ^ 64) (reallocv frealloc g b on n e)
  unfolding reallocv realloc
  reallocv-Counted b on n e = elim (Bool-cases (leb (n + 1) (max_sizet / e))) [
    | inl fits ↦ rw fits (realloc_with-Counted g _ _ _)
    | inr big ↦ rw big (uncounted block_too_big g refl (λ h. cc))
  ]

  finish-Grown :
      (size size_elems limit n : ℕ) (r : Outcome × GlobalState D)
      → size < n
      → n ≤ max limit minsizearray
      → Counted g (size * size_elems % 2 ^ 64) (n * size_elems % 2 ^ 64) r
      → Grown g size size_elems limit (finish size n r)
  unfolding finish
  finish-Grown size size_elems limit n (allocated b, s) lt le (counted _ _ total) =
      grown b n s lt le total
  finish-Grown size size_elems limit n (raised e, s) lt le (uncounted _ _ total other) =
      unchanged e s total (λ h. absurd (other h))

  -- luaM_growaux_ with any allocator makes the vector larger, up to the limit or the least size, and counts
  -- its bytes; or it raises an error and leaves the size and the count as they were, and the error of the
  -- limit only when the size has reached it.
  pub growaux-Grown :
      (block : Option ℕ) (size size_elems limit : ℕ)
      → Grown g size size_elems limit (growaux frealloc g block size size_elems limit)
  unfolding growaux grow_to
  growaux-Grown block size size_elems limit = elim (new_size_lem size limit) [
    | inl (full, le) ↦ rw full (unchanged limit_reached g refl (λ h. le))
    | inr (n, run, lt, le) ↦
        rw run
          (finish-Grown size size_elems limit n _ lt le (reallocv-Counted block size n size_elems))
  ]
