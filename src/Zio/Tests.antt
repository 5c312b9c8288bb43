-- ===== src/Zio/Tests.antt =====
-- A stream over a list of blocks.
use soft_renderer_lua.Base.{ℕ, ◌-◌, ◌^◌, ◌≤◌, ◌≡◌, refl, arith, none, some, List, [], ◌∷◌}
use soft_renderer_lua.Zio.{
  Reader, Zio, init, fill_with, fill, put_back, lookahead, zgetc, read_round, read_loop, read,
}
use soft_renderer_lua.Zio.Stream.{Delivers, null, block, Holds, init-Holds, zgetc-byte, zgetc-end}
use soft_renderer_lua.Zio.Read.{read_lem}

unfoldable pub blocks_reader : Reader (List (List ℕ))
blocks_reader [] = (none, [])
blocks_reader (b ∷ bs) = (some b, bs)

abbrev two_blocks : List (List ℕ)
two_blocks = (1 ∷ 2 ∷ []) ∷ (3 ∷ 4 ∷ []) ∷ []

across_blocks :
    read blocks_reader (init two_blocks) 3
    ≡ some (0, 1 ∷ 2 ∷ 3 ∷ [], record { n = 1; block = 3 ∷ 4 ∷ []; pos = 1; source = [] })
unfolding read read_loop read_round lookahead put_back fill fill_with init blocks_reader
across_blocks = refl

too_short :
    read blocks_reader (init two_blocks) 6
    ≡ some (2, 1 ∷ 2 ∷ 3 ∷ 4 ∷ [], record { n = 0; block = 3 ∷ 4 ∷ []; pos = 2; source = [] })
unfolding read read_loop read_round lookahead put_back fill fill_with init blocks_reader
too_short = refl

two_blocks-Delivers : Delivers blocks_reader two_blocks (1 ∷ 2 ∷ 3 ∷ 4 ∷ [])
unfolding blocks_reader
two_blocks-Delivers =
    block 1 (2 ∷ []) (3 ∷ 4 ∷ []) refl (omega arith) refl
      (block 3 (4 ∷ []) [] refl (omega arith) refl (null refl))

two_blocks-Holds : Holds blocks_reader (init two_blocks) (1 ∷ 2 ∷ 3 ∷ 4 ∷ [])
two_blocks-Holds = init-Holds blocks_reader two_blocks _ two_blocks-Delivers

no_blocks_Holds : Holds blocks_reader (init []) []
unfolding blocks_reader
no_blocks_Holds = init-Holds blocks_reader [] _ (null refl)

read_lem_example :
    (z' : Zio (List (List ℕ))) × (read blocks_reader (init two_blocks) 3
      ≡ some (0, 1 ∷ 2 ∷ 3 ∷ [], z'))
    × (3 ≤ 4 → Holds blocks_reader z' (4 ∷ []))
read_lem_example = read_lem blocks_reader (init two_blocks) 3 (1 ∷ 2 ∷ 3 ∷ 4 ∷ []) two_blocks-Holds

zgetc-byte_example :
    (z' : Zio (List (List ℕ))) × (zgetc blocks_reader (init two_blocks) ≡ (some 1, z'))
    × Holds blocks_reader z' (2 ∷ 3 ∷ 4 ∷ [])
zgetc-byte_example = zgetc-byte blocks_reader (init two_blocks) 1 (2 ∷ 3 ∷ 4 ∷ []) two_blocks-Holds

zgetc-end_example :
    ((zgetc blocks_reader (init [])).0 ≡ none) × ((zgetc blocks_reader (init [])).1.n ≡ 2 ^ 64 - 1)
zgetc-end_example = zgetc-end blocks_reader (init []) no_blocks_Holds
