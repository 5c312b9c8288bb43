-- ===== src/Chunk/Encoding.antt =====
-- The chunk format as a function from a function prototype to bytes: the contract between ldump.c,
-- which writes these bytes, and lundump.c, which reads them.
use soft_renderer_lua.Base.{
  ℕ, zero, suc, ◌+◌, ◌^◌, ◌<◌, ◌||◌, if◌then◌else◌, Bool, true, false, none, some, List, [], ◌∷◌,
  ◌++◌, length,
}
use soft_renderer_lua.Chunk.{
  NumberFormat, Text, Constant, nil, boolean, number, string, LocVar, Code, Proto, Protos, proto,
  end, also, count, to_le, lua_tnil, lua_tboolean, lua_tnumber, lua_tstring, header, same_text,
}
use soft_renderer_lua.Chunk.Dump.{words}

abbrev pub All : {A : Type 0} → (A → Type 0) → List A → Type 0
All P [] = Unit {0}
All P (x ∷ xs) = P x × All P xs

abbrev pub text_bytes : Text → List ℕ
text_bytes none = to_le 8 0
text_bytes (some s) = to_le 8 (length s + 1) ++ (s ++ 0 ∷ [])

abbrev pub vector_bytes : List ℕ → List ℕ
vector_bytes xs = to_le 4 (length xs) ++ words xs

abbrev pub locvar_bytes : LocVar → List ℕ
locvar_bytes v = text_bytes v.varname ++ (to_le 4 v.startpc ++ to_le 4 v.endpc)

abbrev pub list_bytes : {A : Type 0} → (A → List ℕ) → List A → List ℕ
list_bytes enc [] = []
list_bytes enc (x ∷ xs) = enc x ++ list_bytes enc xs

-- A count and the elements.
abbrev pub table_bytes : {A : Type 0} → (A → List ℕ) → List A → List ℕ
table_bytes enc xs = to_le 4 (length xs) ++ list_bytes enc xs

-- What is left of a function's debug information.
abbrev pub kept : {A : Type 0} → Bool → List A → List A
kept strip xs = if strip then [] else xs

-- The source that is written for a function inside one of source `p`.
abbrev pub written_source : {Number : Type 0} → Bool → Code Number → Text → Text
written_source strip f p = if same_text f.source p || strip then none else f.source

module _ {Number : Type 0} (format : NumberFormat Number) where
  abbrev pub constant_bytes : Constant Number → List ℕ
  constant_bytes nil = lua_tnil ∷ []
  constant_bytes (boolean true) = lua_tboolean ∷ 1 ∷ []
  constant_bytes (boolean false) = lua_tboolean ∷ 0 ∷ []
  constant_bytes (number x) = lua_tnumber ∷ format.to_bytes x
  constant_bytes (string s) = lua_tstring ∷ text_bytes s

  unfoldable mutual
    pub function_bytes : Bool → Proto Number → Text → List ℕ
    function_bytes strip (proto f fs) p =
        text_bytes (written_source strip f p)
        ++ (to_le 4 f.linedefined
            ++ (to_le 4 f.lastlinedefined
                ++ ((f.nups ∷ [])
                    ++ ((f.numparams ∷ [])
                        ++ ((f.is_vararg ∷ [])
                            ++ ((f.maxstacksize ∷ [])
                                ++ (vector_bytes f.code
                                    ++ (table_bytes constant_bytes f.k
                                        ++ (to_le 4 (count fs)
                                            ++ (protos_bytes strip fs f.source
                                                ++ (vector_bytes (kept strip f.lineinfo)
                                                    ++ (table_bytes locvar_bytes
                                                          (kept strip f.locvars)
                                                        ++ table_bytes text_bytes
                                                            (kept strip f.upvalues)))))))))))))

    pub protos_bytes : Bool → Protos Number → Text → List ℕ
    protos_bytes strip end p = []
    protos_bytes strip (also f fs) p = function_bytes strip f p ++ protos_bytes strip fs p

  abbrev pub chunk_bytes : Bool → Proto Number → List ℕ
  chunk_bytes strip f = header ++ function_bytes strip f none

-- The ranges of the fields in C. An `int` that LoadInt reads is not negative.
abbrev pub IsByte : ℕ → Type 0
IsByte x = x < 2 ^ 8

abbrev pub IsInt : ℕ → Type 0
IsInt x = x < 2 ^ 31

abbrev pub IsWord : ℕ → Type 0
IsWord x = x < 2 ^ 32

abbrev pub IsText : Text → Type 0
IsText none = Unit {0}
IsText (some s) = length s + 1 < 2 ^ 64

abbrev pub IsConstant : {Number : Type 0} → Constant Number → Type 0
IsConstant nil = Unit {0}
IsConstant (boolean b) = Unit {0}
IsConstant (number x) = Unit {0}
IsConstant (string s) = IsText s

pub record IsLocVar (v : LocVar) : Type 0 where
  pub varname : IsText v.varname
  pub startpc : IsInt v.startpc
  pub endpc : IsInt v.endpc

pub record IsCode {Number : Type 0} (f : Code Number) : Type 0 where
  pub source : IsText f.source
  pub linedefined : IsInt f.linedefined
  pub lastlinedefined : IsInt f.lastlinedefined
  pub nups : IsByte f.nups
  pub numparams : IsByte f.numparams
  pub is_vararg : IsByte f.is_vararg
  pub maxstacksize : IsByte f.maxstacksize
  pub code : IsInt (length f.code) × All IsWord f.code
  pub k : IsInt (length f.k) × All IsConstant f.k
  pub lineinfo : IsInt (length f.lineinfo) × All IsWord f.lineinfo
  pub locvars : IsInt (length f.locvars) × All IsLocVar f.locvars
  pub upvalues : IsInt (length f.upvalues) × All IsText f.upvalues

-- Functions whose fields are in range, nested at most `room` deep.
unfoldable mutual
  pub Fits : {Number : Type 0} → ℕ → Proto Number → Type 0
  Fits zero (proto f fs) = ⊥
  Fits (suc room) (proto f fs) = IsCode f × IsInt (count fs) × FitsBelow room fs

  pub FitsBelow : {Number : Type 0} → ℕ → Protos Number → Type 0
  FitsBelow room end = Unit {0}
  FitsBelow room (also f fs) = Fits room f × FitsBelow room fs
