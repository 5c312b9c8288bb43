-- ===== src/Chunk/Written.antt =====
-- What luaU_dump hands to its writer.
use mathlib.Core.List.{append_assoc, append-nil}
use soft_renderer_lua.Base.{
  ℕ, zero, suc, ◌+◌, ◌%◌, ◌≡◌, refl, ap, ◌∙◌, arith, Bool, true, false, none, some, List, [], ◌∷◌,
  ◌++◌, length,
}
use soft_renderer_lua.Chunk.{
  NumberFormat, Text, Constant, nil, boolean, number, string, LocVar, Code, Proto, Protos, proto,
  end, also, count, to_le, lua_tnil, header,
}
use soft_renderer_lua.Chunk.Dump.{
  Writer, DumpState, Dumper, words, dump_block, dump_char, dump_int, dump_size, dump_vector,
  dump_string, dump_locvars, dump_upvalues, dump_number, dump_constant, dump_constants, dump_debug,
  dump_head, dump_function, dump_protos, dump,
}
use soft_renderer_lua.Chunk.Encoding.{
  text_bytes, vector_bytes, locvar_bytes, list_bytes, table_bytes, kept, written_source,
  constant_bytes, function_bytes, protos_bytes, chunk_bytes, IsByte, Fits, FitsBelow,
}

-- A writer that takes every block and appends it to a log, such as the one of string.dump.
pub record Accepts {W : Type 0} (writer : Writer W) (log : W → List ℕ) : Type 0 where
  pub status : (b : List ℕ) (w : W) → (writer b w).0 ≡ 0
  pub appends : (b : List ℕ) (w : W) → log (writer b w).1 ≡ log w ++ b

module _ {W : Type 0} (writer : Writer W) (log : W → List ℕ) (accepts : Accepts writer log) where
  -- Running `m` with no error so far writes `bytes`, and there is no error afterwards.
  abbrev Writes : Dumper W → List ℕ → Type 0
  Writes m bytes =
      (s : DumpState W) → s.status ≡ 0 → ((m s).status ≡ 0) × (log (m s).sink ≡ log s.sink ++ bytes)

  seq : (m k : Dumper W) (a b : List ℕ) → Writes m a → Writes k b → Writes (λ s. k (m s)) (a ++ b)
  seq m k a b hm hk s e =
      let (e', wrote) = hm s e in
      let (e'', wrote') = hk (m s) e' in
      (e'', wrote' ∙ ap (λ t. t ++ b) wrote ∙ append_assoc (log s.sink) a b)

  nothing : Writes (λ s. s) []
  nothing s e = (e, rw append-nil)

  block_lem : (b : List ℕ) → Writes (dump_block writer b) b
  unfolding dump_block
  block_lem b s e = rw e (accepts.status b s.sink, accepts.appends b s.sink)

  char_lem : (c : ℕ) → IsByte c → Writes (dump_char writer c) (c ∷ [])
  unfolding dump_char
  char_lem c h = let e : c % 256 ≡ c = omega arith in rw e (block_lem (c ∷ []))

  int_lem : (x : ℕ) → Writes (dump_int writer x) (to_le 4 x)
  unfolding dump_int
  int_lem x = block_lem (to_le 4 x)

  vector_lem : (xs : List ℕ) → Writes (dump_vector writer xs) (vector_bytes xs)
  unfolding dump_vector
  vector_lem xs = seq _ _ _ _ (int_lem (length xs)) (block_lem (words xs))

  string_lem : (t : Text) → Writes (dump_string writer t) (text_bytes t)
  unfolding dump_string dump_size
  string_lem none = block_lem (to_le 8 0)
  string_lem (some t) = seq _ _ _ _ (block_lem (to_le 8 (length t + 1))) (block_lem (t ++ 0 ∷ []))

  upvalues_lem : (us : List Text) → Writes (dump_upvalues writer us) (list_bytes text_bytes us)
  unfolding dump_upvalues
  upvalues_lem [] = nothing
  upvalues_lem (u ∷ us) = seq _ _ _ _ (string_lem u) (upvalues_lem us)

  locvars_lem : (vs : List LocVar) → Writes (dump_locvars writer vs) (list_bytes locvar_bytes vs)
  unfolding dump_locvars
  locvars_lem [] = nothing
  locvars_lem (v ∷ vs) =
      seq _ _ _ _
        (seq _ _ _ _ (string_lem v.varname) (seq _ _ _ _ (int_lem v.startpc) (int_lem v.endpc)))
        (locvars_lem vs)

module _ {W Number : Type 0} (writer : Writer W) (log : W → List ℕ) (accepts : Accepts writer log)
    (format : NumberFormat Number) where
  constant_lem :
      (c : Constant Number)
      → Writes writer log accepts (dump_constant writer format c) (constant_bytes format c)
  unfolding dump_constant dump_number
  constant_lem nil = char_lem writer log accepts lua_tnil (omega arith)
  constant_lem (boolean true) =
      seq writer log accepts _ _ _ _ (char_lem writer log accepts 1 (omega arith))
        (char_lem writer log accepts 1 (omega arith))
  constant_lem (boolean false) =
      seq writer log accepts _ _ _ _ (char_lem writer log accepts 1 (omega arith))
        (char_lem writer log accepts 0 (omega arith))
  constant_lem (number x) =
      seq writer log accepts _ _ _ _ (char_lem writer log accepts 3 (omega arith))
        (block_lem writer log accepts (format.to_bytes x))
  constant_lem (string s) =
      seq writer log accepts _ _ _ _ (char_lem writer log accepts 4 (omega arith))
        (string_lem writer log accepts s)

  constants_lem :
      (cs : List (Constant Number))
      → Writes writer log accepts
          (dump_constants writer format cs)
          (list_bytes (constant_bytes format) cs)
  unfolding dump_constants
  constants_lem [] = nothing writer log accepts
  constants_lem (c ∷ cs) = seq writer log accepts _ _ _ _ (constant_lem c) (constants_lem cs)

  tables_lem :
      (lineinfo : List ℕ) (locvars : List LocVar) (upvalues : List Text)
      → Writes writer log accepts
          (λ s. dump_upvalues writer upvalues (
            dump_int writer (length upvalues) (
              dump_locvars writer locvars
                (dump_int writer (length locvars) (dump_vector writer lineinfo s)))))
          (vector_bytes lineinfo
            ++ (table_bytes locvar_bytes locvars ++ table_bytes text_bytes upvalues))
  tables_lem lineinfo locvars upvalues =
      seq writer log accepts _ _ _ _ (vector_lem writer log accepts lineinfo) (
        seq writer log accepts _ _ _ _
          (seq writer log accepts _ _ _ _ (int_lem writer log accepts (length locvars))
            (locvars_lem writer log accepts locvars))
          (seq writer log accepts _ _ _ _ (int_lem writer log accepts (length upvalues))
            (upvalues_lem writer log accepts upvalues)))

  debug_lem :
      (strip : Bool) (f : Code Number)
      → Writes writer log accepts (dump_debug writer format strip f) (
          vector_bytes (kept strip f.lineinfo)
          ++ (table_bytes locvar_bytes (kept strip f.locvars)
              ++ table_bytes text_bytes (kept strip f.upvalues)))
  unfolding dump_debug
  debug_lem true f = tables_lem [] [] []
  debug_lem false f = tables_lem f.lineinfo f.locvars f.upvalues

  mutual
    unfolding dump_function dump_protos dump_head function_bytes protos_bytes Fits FitsBelow

    function_lem :
        (strip : Bool) (room : ℕ) (f : Proto Number) (p : Text)
        → Fits room f
        → Writes writer log accepts
            (dump_function writer format strip f p)
            (function_bytes format strip f p)
    function_lem strip zero (proto f fs) p h = absurd h
    function_lem strip (suc room) (proto f fs) p (h, _, below) =
        seq writer log accepts _ _ _ _ (string_lem writer log accepts (written_source strip f p)) (
          seq writer log accepts _ _ _ _ (int_lem writer log accepts f.linedefined) (
            seq writer log accepts _ _ _ _ (int_lem writer log accepts f.lastlinedefined) (
              seq writer log accepts _ _ _ _ (char_lem writer log accepts f.nups h.nups) (
                seq writer log accepts _ _ _ _ (char_lem writer log accepts f.numparams h.numparams)
                  (seq writer log accepts _ _ _ _
                    (char_lem writer log accepts f.is_vararg h.is_vararg)
                    (seq writer log accepts _ _ _ _
                      (char_lem writer log accepts f.maxstacksize h.maxstacksize)
                      (seq writer log accepts _ _ _ _ (vector_lem writer log accepts f.code) (
                        seq writer log accepts _ _ _ _
                          (seq writer log accepts _ _ _ _ (int_lem writer log accepts (length f.k))
                            (constants_lem f.k))
                          (seq writer log accepts _ _ _ _ (int_lem writer log accepts (count fs)) (
                            seq writer log accepts _ _ _ _ (protos_lem strip room fs f.source below)
                              (debug_lem strip f)))))))))))

    protos_lem :
        (strip : Bool) (room : ℕ) (fs : Protos Number) (p : Text)
        → FitsBelow room fs
        → Writes writer log accepts
            (dump_protos writer format strip fs p)
            (protos_bytes format strip fs p)
    protos_lem strip room end p h = nothing writer log accepts
    protos_lem strip room (also f fs) p (h, hs) =
        seq writer log accepts _ _ _ _ (function_lem strip room f p h)
          (protos_lem strip room fs p hs)

  -- With a writer that accepts every block, luaU_dump of a function whose fields are in range ends
  -- with status 0, and the writer has got exactly the bytes of the chunk format, in order.
  pub dump-chunk_bytes :
      (strip : Bool) (room : ℕ) (f : Proto Number) (w : W)
      → Fits room f
      → ((dump writer format strip f w).status ≡ 0)
        × (log (dump writer format strip f w).sink ≡ log w ++ chunk_bytes format strip f)
  unfolding dump
  dump-chunk_bytes strip room f w h =
      seq writer log accepts _ _ _ _ (block_lem writer log accepts header)
        (function_lem strip room f none h) (record { status = 0; sink = w }) refl
