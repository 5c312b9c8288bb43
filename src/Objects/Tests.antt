-- ===== src/Objects/Tests.antt =====
-- The functions of lobject.c at concrete inputs.
use mathlib.Core.Option
use soft_renderer_lua.Base.{
  ℕ, suc, ◌+◌, ◌-◌, ◌*◌, ◌^◌, ◌≤◌, ◌<◌, ◌≡◌, refl, arith, some, [], ◌∷◌, ◌++◌, length,
}
use soft_renderer_lua.Base.Int.{pos, negsuc}
use soft_renderer_lua.Objects.{int2fb, fb2int, log2, chunkid, dots}
use soft_renderer_lua.Objects.FloatingByte.{fb2int-int2fb}
use soft_renderer_lua.Objects.Log.{log2-floor}
use soft_renderer_lua.Objects.ChunkId.{chunkid-fits}

rounds_up : Option.bind (int2fb 1001) fb2int ≡ some 1024
unfolding int2fb fb2int Option.bind Option.map
rounds_up = refl

-- The sum `x+1` wraps around at the largest `unsigned int`.
wraps : int2fb (2 ^ 32 - 1) ≡ some 0
unfolding int2fb Option.map
wraps = refl

log2_zero : log2 0 ≡ some (negsuc 0)
unfolding log2 Option.map
log2_zero = refl

long_file : chunkid (b'@' ∷ b'a' ∷ b'b' ∷ b'c' ∷ b'd' ∷ []) 10 ≡ dots ++ b'c' ∷ b'd' ∷ []
unfolding chunkid
long_file = refl

fb2int-int2fb_example :
    (b : ℕ) × (r : ℕ) × (int2fb 1001 ≡ some b)
    × (fb2int b ≡ some r)
    × (b < 2 ^ 8)
    × (1001 ≤ r)
    × (7 * r ≤ 8 * 1001)
    × (r < 2 ^ 31)
fb2int-int2fb_example = fb2int-int2fb 1001 (omega arith)

log2-floor_example : (n : ℕ) × (log2 1000 ≡ some (pos n)) × (2 ^ n ≤ 1000) × (1000 < 2 ^ suc n)
log2-floor_example = log2-floor 1000 (omega arith) (omega arith)

chunkid-fits_example : length (chunkid (b'x' ∷ 10 ∷ b'y' ∷ []) 60) + 1 ≤ 60
chunkid-fits_example = chunkid-fits (b'x' ∷ 10 ∷ b'y' ∷ []) 60 (omega arith) (omega arith)
