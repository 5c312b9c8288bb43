-- ===== src/Zio.antt =====
-- lzio.c and lzio.h: a buffered input stream over a reader.
-- The reader is a function of the embedding program: from its state it gives a block of bytes, or
-- NULL (`none`), and its next state. Bytes are numbers below 256, and a `size_t` is 64 bits wide.
pub mod Stream
pub mod Read
mod Tests
use soft_renderer_lua.Base.{
  ℕ, zero, suc, ◌+◌, ◌-◌, ◌%◌, ◌^◌, Bool, true, false, ◌==◌, ltb, leb, if◌then◌else◌, Option, none,
  some, List, [], ◌∷◌, ◌++◌, length, get_or, take, drop,
}

-- `lua_Reader` with the state that it keeps in `data`
abbrev pub Reader : Type 0 → Type 0
Reader D = D → Option (List ℕ) × D

-- struct Zio. The pointer `p` is the last block and a position in it.
pub record Zio (D : Type 0) : Type 0 where
  pub n : ℕ
  pub block : List ℕ
  pub pos : ℕ
  pub source : D

module _ {D : Type 0} where
  -- `*(z->p)`. A read outside the block is undefined in C; the invariant of `Stream` excludes it.
  abbrev pub current : Zio D → ℕ
  current z = get_or z.block z.pos 0

  -- luaZ_init
  unfoldable pub init : D → Zio D
  init d = record { n = 0; block = []; pos = 0; source = d }

  -- The branch of luaZ_lookahead after luaZ_fill: the first byte is put back.
  unfoldable pub put_back : Option ℕ × Zio D → Option ℕ × Zio D
  put_back (none, z) = (none, z)
  put_back (some c, z) =
      let z' = record z { n = (z.n + 1) % 2 ^ 64; pos = z.pos - 1 } in (some (current z'), z')

  -- The body of the loop of luaZ_read, after luaZ_lookahead; `again` is the next round.
  unfoldable pub read_round :
      Option ℕ × Zio D
      → ℕ
      → List ℕ
      → (Zio D → ℕ → List ℕ → Option (ℕ × List ℕ × Zio D))
      → Option (ℕ × List ℕ × Zio D)
  read_round (none, z) n copied again = some (n, copied, z)
  read_round (some c, z) n copied again =
      let m = if leb n z.n then n else z.n in
      again (record z { n = z.n - m; pos = z.pos + m }) (n - m)
        (copied ++ take m (drop z.pos z.block))

  -- What luaZ_fill does with the reader's answer. EOZ is `none`.
  unfoldable pub fill_with : Option (List ℕ) × D → Zio D → Option ℕ × Zio D
  fill_with (none, d) z = (none, record z { source = d })
  fill_with (some [], d) z = (none, record z { source = d })
  fill_with (some (b ∷ bs), d) z =
      (some b, record { n = length bs; block = b ∷ bs; pos = 1; source = d })

module _ {D : Type 0} (reader : Reader D) where
  -- luaZ_fill
  unfoldable pub fill : Zio D → Option ℕ × Zio D
  fill z = fill_with (reader z.source) z

  -- luaZ_lookahead
  unfoldable pub lookahead : Zio D → Option ℕ × Zio D
  lookahead z = if z.n == 0 then put_back (fill z) else (some (current z), z)

  -- The macro zgetc: `n--` wraps around at 0, also when luaZ_fill then finds the end.
  unfoldable pub zgetc : Zio D → Option ℕ × Zio D
  zgetc z =
      if ltb 0 z.n
      then (some (current z), record z { n = z.n - 1; pos = z.pos + 1 })
      else fill (record z { n = 2 ^ 64 - 1 })

  -- luaZ_read: the number of missing bytes and the bytes copied to the buffer so far. `none` is fuel
  -- that ran out; each round copies a byte at least.
  unfoldable pub read_loop : ℕ → Zio D → ℕ → List ℕ → Option (ℕ × List ℕ × Zio D)
  read_loop fuel z zero copied = some (0, copied, z)
  read_loop zero z (suc n) copied = none
  read_loop (suc fuel) z (suc n) copied = read_round (lookahead z) (suc n) copied (read_loop fuel)

  unfoldable pub read : Zio D → ℕ → Option (ℕ × List ℕ × Zio D)
  read z n = read_loop n z n []
