-- ===== src/Chunk/Undump.antt =====
-- lundump.c: a function is loaded from a stream.
-- `error` leaves through a long jump: an error is a value here. Memory errors are left out, and so is
-- the Lua stack, where the functions that are being loaded are kept from the collector.
use mathlib.Core.Option.{or_else}
use soft_renderer_lua.Base.{
  ℕ, zero, suc, ◌-◌, ◌*◌, ◌^◌, Bool, true, false, ◌==◌, not, ltb, if◌then◌else◌, Option, none, some,
  List, [], ◌∷◌, length, take, drop,
}
use soft_renderer_lua.Zio.{Reader, Zio, read}
use soft_renderer_lua.Chunk.{
  NumberFormat, Text, Constant, nil, boolean, number, string, LocVar, Proto, Protos, proto, end,
  also, from_le, lua_tnil, lua_tboolean, lua_tnumber, lua_tstring, header, bytes_eq,
}

-- The messages of `error`. `stuck` is none: it is fuel of luaZ_read that ran out.
pub data Error : Type 0 where
  unexpected_end bad_integer bad_constant code_too_deep bad_code bad_header stuck : Error

pub data Result (A : Type 0) : Type 0 where
  ok : A → Result A
  err : Error → Result A

-- LUAI_MAXCCALLS of luaconf.h
abbrev pub luai_maxccalls : ℕ
luai_maxccalls = 200

-- A function of this file, over the stream of its `LoadState`.
abbrev pub Loader : Type 0 → Type 0 → Type 0
Loader D A = Zio D → Result (A × Zio D)

infixl 5 ◌>>=◌ ◌>>◌
abbrev pub then_load : {D A B : Type 0} → Result (A × Zio D) → (A → Loader D B) → Result (B × Zio D)
then_load (ok (a, z)) f = f a z
then_load (err e) f = err e

abbrev pub ◌>>=◌ : {D A B : Type 0} → Loader D A → (A → Loader D B) → Loader D B
◌>>=◌ m f z = then_load (m z) f

abbrev pub ◌>>◌ : {D B : Type 0} → Loader D (Unit {0}) → Loader D B → Loader D B
m >> k = m >>= λ _. k

abbrev pub pure : {D A : Type 0} → A → Loader D A
pure a z = ok (a, z)

abbrev pub fail : {D A : Type 0} → Error → Loader D A
fail e z = err e

-- `IF (c, s)`
unfoldable pub check : {D : Type 0} → Bool → Error → Loader D (Unit {0})
check true e = pure tt
check false e = fail e

-- What LoadBlock does with the answer of luaZ_read.
unfoldable pub load_all : {D : Type 0} → Option (ℕ × List ℕ × Zio D) → Result (List ℕ × Zio D)
load_all none = err stuck
load_all (some (zero, bytes, z)) = ok (bytes, z)
load_all (some (suc r, bytes, z)) = err unexpected_end

-- A loop that fills a vector of `n` elements.
unfoldable pub load_list : {D A : Type 0} → ℕ → Loader D A → Loader D (List A)
load_list zero m = pure []
load_list (suc n) m = do x ← m; xs ← load_list n m; pure (x ∷ xs)

unfoldable pub load_protos :
    {D Number : Type 0} → ℕ → Loader D (Proto Number) → Loader D (Protos Number)
load_protos zero m = pure end
load_protos (suc n) m = do f ← m; fs ← load_protos n m; pure (also f fs)

-- The elements of a vector of 4-byte elements.
unfoldable pub from_words : ℕ → List ℕ → List ℕ
from_words zero b = []
from_words (suc n) b = from_le (take 4 b) ∷ from_words n (drop 4 b)

module _ {D : Type 0} (reader : Reader D) where
  unfoldable pub load_block : ℕ → Loader D (List ℕ)
  load_block size z = load_all (read reader z size)

  -- A byte. As a `char` it is negative from 128 on; no caller tells such values apart.
  unfoldable pub load_char : Loader D ℕ
  load_char = do b ← load_block 1; pure (from_le b)

  unfoldable pub load_int : Loader D ℕ
  load_int = do b ← load_block 4; check (ltb (from_le b) (2 ^ 31)) bad_integer; pure (from_le b)

  -- luaS_newlstr(s, size-1)
  unfoldable pub load_text : ℕ → Loader D Text
  load_text zero = pure none
  load_text (suc len) = do b ← load_block (suc len); pure (some (take len b))

  unfoldable pub load_string : Loader D Text
  load_string = do b ← load_block 8; load_text (from_le b)

  -- LoadCode, and the line information of LoadDebug
  unfoldable pub load_vector : Loader D (List ℕ)
  load_vector = do n ← load_int; b ← load_block (n * 4); pure (from_words n b)

  unfoldable pub load_locvar : Loader D LocVar
  load_locvar = do
    varname ← load_string
    startpc ← load_int
    endpc ← load_int
    pure (record { varname = varname; startpc = startpc; endpc = endpc })

  unfoldable pub load_locvars : Loader D (List LocVar)
  load_locvars = do n ← load_int; load_list n load_locvar

  unfoldable pub load_upvalues : Loader D (List Text)
  load_upvalues = do n ← load_int; load_list n load_string

  unfoldable pub load_header : Loader D (Unit {0})
  load_header = do b ← load_block (length header); check (bytes_eq header b) bad_header

module _ {D Number : Type 0} (reader : Reader D) (format : NumberFormat Number) where
  unfoldable pub load_number : Loader D Number
  load_number = do b ← load_block reader 8; pure (format.from_bytes b)

  -- The cases of the switch in LoadConstants.
  unfoldable pub load_constant_of : ℕ → Loader D (Constant Number)
  load_constant_of t =
      if t == lua_tnil
      then pure nil
      else if t == lua_tboolean
      then (do c ← load_char reader; pure (boolean (not (c == 0))))
      else if t == lua_tnumber
      then (do x ← load_number; pure (number x))
      else if t == lua_tstring
      then (do s ← load_string reader; pure (string s))
      else fail bad_constant

  unfoldable pub load_constant : Loader D (Constant Number)
  load_constant = do t ← load_char reader; load_constant_of t

  unfoldable pub load_constants : Loader D (List (Constant Number))
  load_constants = do n ← load_int reader; load_list n load_constant

  -- luaG_checkcode of ldebug.c is the argument `checkcode`. The first number is how many more calls
  -- LUAI_MAXCCALLS allows; `nCcalls` is put back when a call returns. `p` is the source of the
  -- enclosing function.
  unfoldable pub load_function : (Proto Number → Bool) → ℕ → Text → Loader D (Proto Number)
  load_function checkcode zero p = fail code_too_deep
  load_function checkcode (suc room) p = do
    own ← load_string reader
    linedefined ← load_int reader
    lastlinedefined ← load_int reader
    nups ← load_char reader
    numparams ← load_char reader
    is_vararg ← load_char reader
    maxstacksize ← load_char reader
    code ← load_vector reader
    k ← load_constants
    n ← load_int reader
    fs ← load_protos n (load_function checkcode room (or_else own p))
    lineinfo ← load_vector reader
    locvars ← load_locvars reader
    upvalues ← load_upvalues reader
    let f =
        proto
          (record {
            source = or_else own p;
            linedefined = linedefined;
            lastlinedefined = lastlinedefined;
            nups = nups;
            numparams = numparams;
            is_vararg = is_vararg;
            maxstacksize = maxstacksize;
            code = code;
            k = k;
            lineinfo = lineinfo;
            locvars = locvars;
            upvalues = upvalues;
          })
          fs
    check (checkcode f) bad_code
    pure f

  -- luaU_undump, called with `calls` C calls in progress. The literal is "=?".
  unfoldable pub undump : (Proto Number → Bool) → ℕ → Loader D (Proto Number)
  undump checkcode calls = do
    load_header reader
    load_function checkcode (luai_maxccalls - calls) (some (b'=' ∷ b'?' ∷ []))
