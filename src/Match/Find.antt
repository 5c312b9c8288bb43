-- ===== src/Match/Find.antt =====
-- string.find, string.match and the iterator of string.gmatch: lmemfind, push_captures, str_find_aux, gmatch_aux.
-- A value that is pushed on the stack of Lua is in the result; the answer of lua_checkstack is a parameter.
use soft_renderer_lua.Base.{
  ℕ, zero, suc, ◌+◌, ◌-◌, Bool, true, false, not, ◌&&◌, ◌||◌, ◌==◌, ltb, leb, if◌then◌else◌, Option,
  none, some, List, [], ◌∷◌, length, get_elem?,
}
use soft_renderer_lua.Base.Int.{ℤ, pos, negsuc}
use soft_renderer_lua.Base.Run.{Run, done, raised, stuck, ◌>>=◌}
use soft_renderer_lua.Match.{
  MatchError, invalid_capture_index, unfinished_capture, stack_overflow, char_at, Ctype,
  CaptureLength, cap_unfinished, cap_position, closed, MatchState,
}
use soft_renderer_lua.Match.Parts.{found, mem_cmp}
use soft_renderer_lua.Match.Engine.{match}

-- memchr: the first of `n` bytes from `i` on that is `c`
unfoldable pub mem_chr : List ℕ → ℕ → ℕ → ℕ → Run MatchError (Option ℕ)
mem_chr v i c zero = done none
mem_chr v i c (suc n) = do x ← char_at v i; if x == c then done (some i) else mem_chr v (i + 1) c n

module _ (src pat : List ℕ) where
  -- What the loop of lmemfind does with the answer of memchr.
  unfoldable pub lmemfind_round :
      ℕ → ℕ → ℕ → Option ℕ → (ℕ → ℕ → Run MatchError (Option ℕ)) → Run MatchError (Option ℕ)
  lmemfind_round s1 l1 l2 none again = done none
  lmemfind_round s1 l1 l2 (some i) again = do
    same ← mem_cmp src (i + 1) pat 1 l2
    if same then done (some (i + 1 - 1)) else again (i + 1) (l1 - (i + 1 - s1))

  unfoldable pub lmemfind_loop : ℕ → ℕ → ℕ → ℕ → Run MatchError (Option ℕ)
  lmemfind_loop zero s1 l1 l2 = stuck
  lmemfind_loop (suc fuel) s1 l1 l2 =
      if ltb 0 l1
      then (do
        c ← char_at pat 0
        r ← mem_chr src s1 c l1
        lmemfind_round s1 l1 l2 r (λ s l. lmemfind_loop fuel s l l2))
      else done none

  unfoldable pub lmemfind : ℕ → ℕ → ℕ → Run MatchError (Option ℕ)
  lmemfind s1 l1 l2 =
      if l2 == 0
      then done (some s1)
      else if ltb l1 l2
      then done none
      else lmemfind_loop (l1 + 1) s1 (l1 - (l2 - 1)) (l2 - 1)

-- What is pushed: lua_pushinteger, lua_pushlstring of a part of the subject, and lua_pushnil.
pub data Pushed : Type 0 where
  integer : ℕ → Pushed
  text : ℕ → ℕ → Pushed
  nil : Pushed

unfoldable pub push_length : ℕ → CaptureLength → Run MatchError Pushed
push_length init cap_unfinished = raised unfinished_capture
push_length init cap_position = done (integer (init + 1))
push_length init (closed n) = done (text init n)

unfoldable pub push_onecapture : MatchState → ℕ → ℕ → ℕ → Run MatchError Pushed
push_onecapture ms i s e =
    if leb ms.level i
    then (if i == 0 then done (text s (e - s)) else raised invalid_capture_index)
    else (do c ← found (get_elem? ms.capture i); push_length c.init c.len)

-- The loop of push_captures, from `i` on
unfoldable pub push_loop : MatchState → ℕ → ℕ → ℕ → ℕ → Run MatchError (List Pushed)
push_loop ms s e i zero = done []
push_loop ms s e i (suc n) = do
  v ← push_onecapture ms i s e
  vs ← push_loop ms s e (i + 1) n
  done (v ∷ vs)

-- `whole` is none for the pointers NULL and 0.
abbrev pub nlevels : MatchState → Option (ℕ × ℕ) → ℕ
nlevels ms none = ms.level
nlevels ms (some whole) = if ms.level == 0 then 1 else ms.level

unfoldable pub push_captures :
    (ℕ → Bool) → MatchState → Option (ℕ × ℕ) → Run MatchError (List Pushed)
push_captures room ms whole =
    if room (nlevels ms whole)
    then push_loop ms (start whole) (stop whole) 0 (nlevels ms whole)
    else raised stack_overflow
  where
    start : Option (ℕ × ℕ) → ℕ
    start none = 0
    start (some w) = w.0

    stop : Option (ℕ × ℕ) → ℕ
    stop none = 0
    stop (some w) = w.1

-- posrelat: a negative position is one from the end
abbrev pub posrelat : ℤ → ℕ → ℕ
posrelat (pos n) len = n
posrelat (negsuc n) len = len + 1 - suc n

-- `init` of str_find_aux; the subtraction stops at 0, as `if (init < 0) init = 0` has it.
unfoldable pub find_start : ℤ → ℕ → ℕ
find_start init l1 = if ltb l1 (posrelat init l1 - 1) then l1 else posrelat init l1 - 1

-- `strpbrk(p, SPECIALS) != NULL`, of the C string: up to a zero byte
unfoldable pub has_specials : List ℕ → Bool
has_specials [] = false
has_specials (c ∷ cs) =
    not (c == 0)
    && (c == b'^'
        || c == b'$'
        || c == b'*'
        || c == b'+'
        || c == b'?'
        || c == b'.'
        || c == b'('
        || c == b'['
        || c == b'%'
        || c == b'-'
        || has_specials cs)

-- `if ((res=match(...)) != NULL) ... `
unfoldable pub on_match :
    {A : Type 0}
    → Option ℕ × MatchState
    → (ℕ → MatchState → Run MatchError A)
    → (MatchState → Run MatchError A)
    → Run MatchError A
on_match (none, ms) f g = g ms
on_match (some e, ms) f g = f e ms

abbrev pub cleared : MatchState → MatchState
cleared ms = record { level = 0; capture = ms.capture }

module _ (ctype : Ctype) (room : ℕ → Bool) (src pat : List ℕ) where
  -- What str_find_aux pushes for a match from `s1` to `res`
  unfoldable pub push_match : Bool → ℕ → ℕ → MatchState → Run MatchError (List Pushed)
  push_match true s1 res ms = do
    vs ← push_captures room ms none
    done (integer (s1 + 1) ∷ integer res ∷ vs)
  push_match false s1 res ms = push_captures room ms (some (s1, res))

  unfoldable pub find_loop : ℕ → Bool → Bool → MatchState → ℕ → ℕ → Run MatchError (List Pushed)
  find_loop zero find anchor ms s1 p = stuck
  find_loop (suc fuel) find anchor ms s1 p = do
    r ← match ctype src pat (cleared ms) s1 p
    on_match r (λ res ms'. push_match find s1 res ms')
        (λ ms'.
          if ltb s1 (length src) && not anchor
          then find_loop fuel find anchor ms' (s1 + 1) p
          else done (nil ∷ []))

  -- What str_find_aux pushes after a plain search
  abbrev pub push_plain : Option ℕ → List Pushed
  push_plain none = nil ∷ []
  push_plain (some s2) = integer (s2 + 1) ∷ integer (s2 + length pat) ∷ []

  -- `ms` is the local variable before its assignments; `plain` is lua_toboolean(L, 4).
  unfoldable pub str_find_aux : MatchState → Bool → Bool → ℤ → Run MatchError (List Pushed)
  str_find_aux ms find plain init =
      let s1 = find_start init (length src) in
      if find && (plain || not (has_specials pat))
      then (do s2 ← lmemfind src pat s1 (length src - s1) (length pat); done (push_plain s2))
      else (do
        x ← char_at pat 0
        find_loop (length src + 1) find (x == b'^') ms s1 (if x == b'^' then 1 else 0))

  abbrev pub str_find : MatchState → Bool → ℤ → Run MatchError (List Pushed)
  str_find ms = str_find_aux ms true

  abbrev pub str_match : MatchState → Bool → ℤ → Run MatchError (List Pushed)
  str_match ms = str_find_aux ms false

  -- gmatch_aux from `s` on: the captures, and the new value of its third upvalue if it has one.
  unfoldable pub gmatch_loop : ℕ → MatchState → ℕ → Run MatchError (Option (List Pushed × ℕ))
  gmatch_loop zero ms s = if leb s (length src) then stuck else done none
  gmatch_loop (suc fuel) ms s =
      if leb s (length src)
      then (do
        r ← match ctype src pat (cleared ms) s 0
        on_match r
            (λ e ms'. do
              vs ← push_captures room ms' (some (s, e))
              done (some (vs, if e == s then e + 1 else e)))
            (λ ms'. gmatch_loop fuel ms' (s + 1)))
      else done none

  abbrev pub gmatch_aux : MatchState → ℕ → Run MatchError (Option (List Pushed × ℕ))
  gmatch_aux = gmatch_loop (length src + 1)
