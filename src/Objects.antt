-- ===== src/Objects.antt =====
-- lobject.c: conversions of sizes, logarithms, and the printable name of a chunk.
-- An `unsigned int` is a number below `2 ^ 32`, a `size_t` one below `2 ^ 64`. A C string is the list
-- of its bytes without the final zero, none of which is zero.
pub mod FloatingByte
pub mod Log
pub mod ChunkId
mod Tests
use mathlib.Core.Option
use soft_renderer_lua.Base.{
  ℕ, zero, suc, ◌+◌, ◌-◌, ◌*◌, ◌/◌, ◌%◌, ◌^◌, bit_and, bit_or, Bool, true, false, ◌||◌, ◌==◌, ltb,
  leb, if◌then◌else◌, Option, none, some, List, [], ◌∷◌, ◌++◌, length, get_or, take, drop,
}
use soft_renderer_lua.Base.Int.{ℤ, pos, negsuc, ◌+ℤ◌}

-- `while (x >= 16) { x = (x+1) >> 1; e++; }`; `none` is fuel that ran out.
unfoldable pub int2fb_loop : ℕ → ℕ → ℕ → Option (ℕ × ℕ)
int2fb_loop zero x e = none
int2fb_loop (suc fuel) x e =
    let rest = int2fb_loop fuel ((x + 1) % 2 ^ 32 / 2) (e + 1) in
    if leb 16 x then rest else some (x, e)

unfoldable pub int2fb : ℕ → Option ℕ
unfolding int2fb_loop
int2fb x =
    Option.map (λ (s : ℕ × ℕ). if ltb s.0 8 then s.0 else bit_or ((s.1 + 1) * 2 ^ 3) (s.0 - 8))
      (int2fb_loop 32 x 0)

-- An `int` that does not fit is `none`: C leaves the overflow of a signed shift undefined.
unfoldable pub fb2int : ℕ → Option ℕ
fb2int x =
    let e = bit_and (x / 2 ^ 3) 31 in
    let value = (bit_and x 7 + 8) * 2 ^ (e - 1) in
    if e == 0 then some x else if ltb value (2 ^ 31) then some value else none

unfoldable pub log_2 : List ℕ
log_2 =
    0 ∷ 1 ∷ 2 ∷ 2 ∷ 3 ∷ 3 ∷ 3 ∷ 3 ∷ 4 ∷ 4 ∷ 4 ∷ 4 ∷ 4 ∷ 4 ∷ 4 ∷ 4 ∷ 5 ∷ 5 ∷ 5 ∷ 5 ∷ 5 ∷ 5 ∷ 5 ∷ 5
    ∷ 5 ∷ 5 ∷ 5 ∷ 5 ∷ 5 ∷ 5 ∷ 5 ∷ 5 ∷ 6 ∷ 6 ∷ 6 ∷ 6 ∷ 6 ∷ 6 ∷ 6 ∷ 6 ∷ 6 ∷ 6 ∷ 6 ∷ 6 ∷ 6 ∷ 6 ∷ 6 ∷ 6
    ∷ 6 ∷ 6 ∷ 6 ∷ 6 ∷ 6 ∷ 6 ∷ 6 ∷ 6 ∷ 6 ∷ 6 ∷ 6 ∷ 6 ∷ 6 ∷ 6 ∷ 6 ∷ 6 ∷ 7 ∷ 7 ∷ 7 ∷ 7 ∷ 7 ∷ 7 ∷ 7 ∷ 7
    ∷ 7 ∷ 7 ∷ 7 ∷ 7 ∷ 7 ∷ 7 ∷ 7 ∷ 7 ∷ 7 ∷ 7 ∷ 7 ∷ 7 ∷ 7 ∷ 7 ∷ 7 ∷ 7 ∷ 7 ∷ 7 ∷ 7 ∷ 7 ∷ 7 ∷ 7 ∷ 7 ∷ 7
    ∷ 7 ∷ 7 ∷ 7 ∷ 7 ∷ 7 ∷ 7 ∷ 7 ∷ 7 ∷ 7 ∷ 7 ∷ 7 ∷ 7 ∷ 7 ∷ 7 ∷ 7 ∷ 7 ∷ 7 ∷ 7 ∷ 7 ∷ 7 ∷ 7 ∷ 7 ∷ 7 ∷ 7
    ∷ 7 ∷ 7 ∷ 7 ∷ 7 ∷ 7 ∷ 7 ∷ 7 ∷ 7 ∷ 8 ∷ 8 ∷ 8 ∷ 8 ∷ 8 ∷ 8 ∷ 8 ∷ 8 ∷ 8 ∷ 8 ∷ 8 ∷ 8 ∷ 8 ∷ 8 ∷ 8 ∷ 8
    ∷ 8 ∷ 8 ∷ 8 ∷ 8 ∷ 8 ∷ 8 ∷ 8 ∷ 8 ∷ 8 ∷ 8 ∷ 8 ∷ 8 ∷ 8 ∷ 8 ∷ 8 ∷ 8 ∷ 8 ∷ 8 ∷ 8 ∷ 8 ∷ 8 ∷ 8 ∷ 8 ∷ 8
    ∷ 8 ∷ 8 ∷ 8 ∷ 8 ∷ 8 ∷ 8 ∷ 8 ∷ 8 ∷ 8 ∷ 8 ∷ 8 ∷ 8 ∷ 8 ∷ 8 ∷ 8 ∷ 8 ∷ 8 ∷ 8 ∷ 8 ∷ 8 ∷ 8 ∷ 8 ∷ 8 ∷ 8
    ∷ 8 ∷ 8 ∷ 8 ∷ 8 ∷ 8 ∷ 8 ∷ 8 ∷ 8 ∷ 8 ∷ 8 ∷ 8 ∷ 8 ∷ 8 ∷ 8 ∷ 8 ∷ 8 ∷ 8 ∷ 8 ∷ 8 ∷ 8 ∷ 8 ∷ 8 ∷ 8 ∷ 8
    ∷ 8 ∷ 8 ∷ 8 ∷ 8 ∷ 8 ∷ 8 ∷ 8 ∷ 8 ∷ 8 ∷ 8 ∷ 8 ∷ 8 ∷ 8 ∷ 8 ∷ 8 ∷ 8 ∷ 8 ∷ 8 ∷ 8 ∷ 8 ∷ 8 ∷ 8 ∷ 8 ∷ 8
    ∷ 8 ∷ 8 ∷ 8 ∷ 8 ∷ 8 ∷ 8 ∷ 8 ∷ 8 ∷ 8 ∷ 8 ∷ 8 ∷ 8 ∷ 8 ∷ 8 ∷ 8 ∷ 8 ∷ []

-- `while (x >= 256) { l += 8; x >>= 8; }`
unfoldable pub log2_loop : ℕ → ℕ → ℤ → Option (ℕ × ℤ)
log2_loop zero x l = none
log2_loop (suc fuel) x l =
    let rest = log2_loop fuel (x / 2 ^ 8) (l +ℤ pos 8) in if leb 256 x then rest else some (x, l)

unfoldable pub log2 : ℕ → Option ℤ
unfolding log2_loop log_2 ◌+ℤ◌
log2 x = Option.map (λ (s : ℕ × ℤ). s.1 +ℤ pos (get_or log_2 s.0 0)) (log2_loop 4 x (negsuc 0))

-- `ceillog2(x)`, a macro of lobject.h
unfoldable pub ceillog2 : ℕ → Option ℤ
unfolding ◌+ℤ◌
ceillog2 x = Option.map (λ l. l +ℤ pos 1) (log2 ((x + 2 ^ 32 - 1) % 2 ^ 32))

-- `strcspn(source, "\n\r")`
unfoldable pub line_length : List ℕ → ℕ
line_length [] = 0
line_length (c ∷ s) = if c == 10 || c == 13 then 0 else suc (line_length s)

-- `bufflen -= k` on a size_t
abbrev pub size_minus : ℕ → ℕ → ℕ
size_minus n k = (n + 2 ^ 64 - k) % 2 ^ 64

-- The literals "...", "[string \"" and "\"]".
abbrev pub dots : List ℕ
dots = b'.' ∷ b'.' ∷ b'.' ∷ []

abbrev pub open_string : List ℕ
open_string = b'[' ∷ b's' ∷ b't' ∷ b'r' ∷ b'i' ∷ b'n' ∷ b'g' ∷ b' ' ∷ 34 ∷ []

abbrev pub close_string : List ℕ
close_string = 34 ∷ b']' ∷ []

-- The two branches for a source that does not start with `=`; 8 and 17 are the `sizeof` of the
-- literals " '...' " and " [string \"...\"] ".
unfoldable pub chunkid_file : List ℕ → ℕ → List ℕ
chunkid_file name bufflen =
    let room = size_minus bufflen 8 in
    let l = length name in if ltb room l then dots ++ drop (l - room) name else name

unfoldable pub chunkid_string : List ℕ → ℕ → List ℕ
unfolding line_length
chunkid_string source bufflen =
    let room = size_minus bufflen 17 in
    let line = line_length source in
    let len = if ltb room line then room else line in
    open_string
    ++ ((if ltb len (length source) then take len source ++ dots else source) ++ close_string)

-- luaO_chunkid: what `out` holds up to its final zero.
unfoldable pub chunkid : List ℕ → ℕ → List ℕ
unfolding chunkid_file chunkid_string
chunkid [] bufflen = chunkid_string [] bufflen
chunkid (c ∷ s) bufflen =
    if c == b'='
    then take (bufflen - 1) s
    else if c == b'@'
    then chunkid_file s bufflen
    else chunkid_string (c ∷ s) bufflen
