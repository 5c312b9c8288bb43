-- ===== src/Text.antt =====
-- lstrlib.c: the functions of strings without patterns. The default arguments are those of Lua, written out by
-- the caller; the answer of lua_checkstack is a parameter.
pub mod Slices
mod Tests
use soft_renderer_lua.Base.{
  ℕ, zero, suc, ◌+◌, ◌-◌, ◌%◌, ◌^◌, ◌≡◌, refl, ap, ◌∙◌, sym, arith, Bool, true, ltb, leb, ltb→lt,
  leb→le, Bool-cases, inl, inr, if◌then◌else◌, List, [], ◌∷◌, length, take, drop, map, get_elem?,
  ◌<◌, ◌≤◌, some,
}
use soft_renderer_lua.Base.Int.{ℤ, pos, negsuc}
use soft_renderer_lua.Base.Run.{Run, done, raised, ◌>>=◌}
use soft_renderer_lua.Match.{MatchError, stack_overflow, slice_too_long, invalid_value, char_at}
use soft_renderer_lua.Match.Parts.{part}
use soft_renderer_lua.Match.Find.{posrelat}

-- `start` of str_sub and `posi` of str_byte
abbrev pub first_place : ℤ → ℕ → ℕ
first_place i l = if ltb (posrelat i l) 1 then 1 else posrelat i l

-- `end` of str_sub and `pose` of str_byte
abbrev pub last_place : ℤ → ℕ → ℕ
last_place j l = if ltb l (posrelat j l) then l else posrelat j l

-- What str_sub pushes once its positions are settled
unfoldable pub slice : List ℕ → ℕ → ℕ → List ℕ
slice s start stop = if leb start stop then part s (start - 1) (stop - start + 1) else []

unfoldable pub str_sub : List ℕ → ℤ → ℤ → List ℕ
str_sub s i j = slice s (first_place i (length s)) (last_place j (length s))

-- The conversion of a size to an int
abbrev pub to_int : ℕ → ℤ
to_int n = if ltb (n % 2 ^ 32) (2 ^ 31) then pos (n % 2 ^ 32) else negsuc (2 ^ 32 - 1 - n % 2 ^ 32)

-- The loop of str_byte
unfoldable pub byte_loop : List ℕ → ℕ → ℕ → Run MatchError (List ℕ)
byte_loop s at zero = done []
byte_loop s at (suc n) = do c ← char_at s at; cs ← byte_loop s (at + 1) n; done (c ∷ cs)

unfoldable pub push_bytes : (ℕ → Bool) → List ℕ → ℕ → ℕ → ℤ → Run MatchError (List ℕ)
push_bytes room s posi pose (negsuc n) = raised slice_too_long
push_bytes room s posi pose (pos n) =
    if leb (posi + n) pose
    then raised slice_too_long
    else if room n
    then byte_loop s (posi - 1) n
    else raised stack_overflow

-- What str_byte pushes once its positions are settled
unfoldable pub bytes_between : (ℕ → Bool) → List ℕ → ℕ → ℕ → Run MatchError (List ℕ)
bytes_between room s posi pose =
    if ltb pose posi then done [] else push_bytes room s posi pose (to_int (pose - posi + 1))

unfoldable pub str_byte : (ℕ → Bool) → List ℕ → ℤ → ℤ → Run MatchError (List ℕ)
str_byte room s i j = bytes_between room s (first_place i (length s)) (last_place j (length s))

-- str_char, of its arguments
unfoldable pub str_char : List ℤ → Run MatchError (List ℕ)
str_char [] = done []
str_char (negsuc n ∷ cs) = raised invalid_value
str_char (pos c ∷ cs) =
    if ltb c 256 then (do b ← str_char cs; done (c ∷ b)) else raised invalid_value
