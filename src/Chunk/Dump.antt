-- ===== src/Chunk/Dump.antt =====
-- ldump.c: a function is written as a chunk through a writer.
-- The writer is a function of the embedding program: from a block and its state it gives a status,
-- which is not 0 on an error, and its next state.
use soft_renderer_lua.Base.{
  ℕ, ◌+◌, ◌%◌, Bool, true, false, ◌||◌, ◌==◌, if◌then◌else◌, none, some, List, [], ◌∷◌, ◌++◌,
  length,
}
use soft_renderer_lua.Chunk.{
  NumberFormat, Text, Constant, nil, boolean, number, string, LocVar, Code, Proto, Protos, proto,
  end, also, count, to_le, lua_tnil, lua_tboolean, lua_tnumber, lua_tstring, header, same_text,
}

abbrev pub Writer : Type 0 → Type 0
Writer W = List ℕ → W → ℕ × W

-- struct DumpState; its `strip` is an argument below.
pub record DumpState (W : Type 0) : Type 0 where
  pub status : ℕ
  pub sink : W

abbrev pub Dumper : Type 0 → Type 0
Dumper W = DumpState W → DumpState W

infixl 5 ◌>>◌
abbrev pub ◌>>◌ : {W : Type 0} → Dumper W → Dumper W → Dumper W
◌>>◌ m k s = k (m s)

-- The elements of a vector of ints or instructions, as `DumpMem` sees them.
unfoldable pub words : List ℕ → List ℕ
words [] = []
words (x ∷ xs) = to_le 4 x ++ words xs

module _ {W : Type 0} (writer : Writer W) where
  unfoldable pub dump_block : List ℕ → Dumper W
  dump_block b s =
      if s.status == 0
      then (let (status, sink) = writer b s.sink in record { status = status; sink = sink })
      else s

  unfoldable pub dump_char : ℕ → Dumper W
  dump_char y = dump_block (y % 256 ∷ [])

  unfoldable pub dump_int : ℕ → Dumper W
  dump_int x = dump_block (to_le 4 x)

  unfoldable pub dump_size : ℕ → Dumper W
  dump_size x = dump_block (to_le 8 x)

  -- DumpVector, for the two vectors of 4-byte elements
  unfoldable pub dump_vector : List ℕ → Dumper W
  dump_vector xs = do dump_int (length xs); dump_block (words xs)

  unfoldable pub dump_string : Text → Dumper W
  dump_string none = dump_size 0
  dump_string (some s) = do dump_size (length s + 1); dump_block (s ++ 0 ∷ [])

  -- The loops of DumpDebug.
  unfoldable pub dump_locvars : List LocVar → Dumper W
  dump_locvars [] s = s
  dump_locvars (v ∷ vs) s =
      dump_locvars vs ((do dump_string v.varname; dump_int v.startpc; dump_int v.endpc) s)

  unfoldable pub dump_upvalues : List Text → Dumper W
  dump_upvalues [] s = s
  dump_upvalues (u ∷ us) s = dump_upvalues us (dump_string u s)

module _ {W Number : Type 0} (writer : Writer W) (format : NumberFormat Number) where
  unfoldable pub dump_number : Number → Dumper W
  dump_number x = dump_block writer (format.to_bytes x)

  -- One round of the loop over the constants.
  unfoldable pub dump_constant : Constant Number → Dumper W
  dump_constant nil = dump_char writer lua_tnil
  dump_constant (boolean true) = do dump_char writer lua_tboolean; dump_char writer 1
  dump_constant (boolean false) = do dump_char writer lua_tboolean; dump_char writer 0
  dump_constant (number x) = do dump_char writer lua_tnumber; dump_number x
  dump_constant (string s) = do dump_char writer lua_tstring; dump_string writer s

  unfoldable pub dump_constants : List (Constant Number) → Dumper W
  dump_constants [] s = s
  dump_constants (c ∷ cs) s = dump_constants cs (dump_constant c s)

  unfoldable pub dump_debug : Bool → Code Number → Dumper W
  dump_debug strip f = do
    dump_vector writer (if strip then [] else f.lineinfo)
    dump_int writer (if strip then 0 else length f.locvars)
    dump_locvars writer (if strip then [] else f.locvars)
    dump_int writer (if strip then 0 else length f.upvalues)
    dump_upvalues writer (if strip then [] else f.upvalues)

  -- The fields of DumpFunction before the constants; `p` is the source of the enclosing function.
  unfoldable pub dump_head : Bool → Code Number → Text → Dumper W
  dump_head strip f p = do
    dump_string writer (if same_text f.source p || strip then none else f.source)
    dump_int writer f.linedefined
    dump_int writer f.lastlinedefined
    dump_char writer f.nups
    dump_char writer f.numparams
    dump_char writer f.is_vararg
    dump_char writer f.maxstacksize
    dump_vector writer f.code

  unfoldable mutual
    pub dump_function : Bool → Proto Number → Text → Dumper W
    dump_function strip (proto f fs) p s = dump_debug strip f (
        dump_protos strip fs f.source (
          (do
            dump_head strip f p
            dump_int writer (length f.k)
            dump_constants f.k
            dump_int writer (count fs))
            s))

    pub dump_protos : Bool → Protos Number → Text → Dumper W
    dump_protos strip end p s = s
    dump_protos strip (also f fs) p s = dump_protos strip fs p (dump_function strip f p s)

  -- luaU_dump: the final status and the writer's state
  unfoldable pub dump : Bool → Proto Number → W → DumpState W
  dump strip f w =
      dump_function strip f none (dump_block writer header (record { status = 0; sink = w }))
