-- ===== src/Chunk.antt =====
-- Precompiled chunks: what ldump.c writes and lundump.c reads.
-- The formats are those of the x64 build: a little-endian machine with an `int` and an `Instruction` of
-- 4 bytes and a `size_t` and a `lua_Number` of 8. A byte is a number below 256; an `int` is its 32-bit
-- pattern. A `TString*` is `none` for NULL, else the bytes of the string: strings are interned, so
-- equal pointers are equal contents.
pub mod Dump
pub mod Undump
pub mod Bytes
pub mod Encoding
pub mod Written
pub mod AfterError
pub mod Reading
pub mod Loaded
pub mod Restored
pub mod Functions
pub mod RoundTrip
mod Tests
use soft_renderer_lua.Base.{
  ℕ, zero, suc, ◌+◌, ◌*◌, ◌/◌, ◌%◌, ◌^◌, Bool, true, false, ◌&&◌, ◌==◌, Option, none, some, List,
  [], ◌∷◌, length, ◌≡◌,
}

-- The object representation of a `lua_Number`, copied byte by byte.
pub record NumberFormat (Number : Type 0) : Type 0 where
  pub to_bytes : Number → List ℕ
  pub from_bytes : List ℕ → Number
  pub length-to_bytes : (x : Number) → length (to_bytes x) ≡ 8
  pub from_bytes-to_bytes : (x : Number) → from_bytes (to_bytes x) ≡ x

abbrev pub Text : Type 0
Text = Option (List ℕ)

-- The values of a constant table.
pub data Constant (Number : Type 0) : Type 0 where
  nil : Constant Number
  boolean : Bool → Constant Number
  number : Number → Constant Number
  string : Text → Constant Number

-- struct LocVar
pub record LocVar : Type 0 where
  pub varname : Text
  pub startpc : ℕ
  pub endpc : ℕ

-- struct Proto, all but the nested functions
pub record Code (Number : Type 0) : Type 0 where
  pub source : Text
  pub linedefined : ℕ
  pub lastlinedefined : ℕ
  pub nups : ℕ
  pub numparams : ℕ
  pub is_vararg : ℕ
  pub maxstacksize : ℕ
  pub code : List ℕ
  pub k : List (Constant Number)
  pub lineinfo : List ℕ
  pub locvars : List LocVar
  pub upvalues : List Text

-- struct Proto
mutual
  pub data Proto (Number : Type 0) : Type 0 where
    proto : Code Number → Protos Number → Proto Number

  pub data Protos (Number : Type 0) : Type 0 where
    end : Protos Number
    also : Proto Number → Protos Number → Protos Number

abbrev pub count : {Number : Type 0} → Protos Number → ℕ
count end = 0
count (also f fs) = suc (count fs)

-- The bytes of an unsigned number in `w` bytes, and back.
unfoldable pub to_le : ℕ → ℕ → List ℕ
to_le zero n = []
to_le (suc w) n = n % 256 ∷ to_le w (n / 256)

unfoldable pub from_le : List ℕ → ℕ
from_le [] = 0
from_le (b ∷ bs) = b + 256 * from_le bs

-- LUA_TNIL, LUA_TBOOLEAN, LUA_TNUMBER and LUA_TSTRING
abbrev pub lua_tnil : ℕ
lua_tnil = 0

abbrev pub lua_tboolean : ℕ
lua_tboolean = 1

abbrev pub lua_tnumber : ℕ
lua_tnumber = 3

abbrev pub lua_tstring : ℕ
lua_tstring = 4

-- luaU_header: the signature, the version, the format, the byte order, the four sizes, and whether
-- `lua_Number` is integral.
abbrev pub header : List ℕ
header = 0x1b ∷ b'L' ∷ b'u' ∷ b'a' ∷ 0x51 ∷ 0 ∷ 1 ∷ 4 ∷ 8 ∷ 4 ∷ 8 ∷ 0 ∷ []

unfoldable pub bytes_eq : List ℕ → List ℕ → Bool
bytes_eq [] [] = true
bytes_eq [] (b ∷ bs) = false
bytes_eq (a ∷ as') [] = false
bytes_eq (a ∷ as') (b ∷ bs) = a == b && bytes_eq as' bs

-- `s == t` on two `TString*`
unfoldable pub same_text : Text → Text → Bool
unfolding bytes_eq
same_text none none = true
same_text none (some t) = false
same_text (some s) none = false
same_text (some s) (some t) = bytes_eq s t
