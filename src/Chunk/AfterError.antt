-- ===== src/Chunk/AfterError.antt =====
-- A dump stops writing at the first error of the writer.
use soft_renderer_lua.Base.{ℕ, ◌≡◌, ◌≢◌, refl, arith, Bool, true, false, none, some, List, [], ◌∷◌}
use soft_renderer_lua.Chunk.{
  NumberFormat, Text, Constant, nil, boolean, number, string, LocVar, Code, Proto, Protos, proto,
  end, also,
}
use soft_renderer_lua.Chunk.Dump.{
  Writer, DumpState, Dumper, dump_block, dump_char, dump_int, dump_size, dump_vector, dump_string,
  dump_locvars, dump_upvalues, dump_number, dump_constant, dump_constants, dump_debug, dump_head,
  dump_function, dump_protos,
}

module _ {W Number : Type 0} (writer : Writer W) (format : NumberFormat Number) where
  abbrev Idle : Dumper W → Type 0
  Idle m = (s : DumpState W) → s.status ≢ 0 → m s ≡ s

  Idle-seq : (m k : Dumper W) → Idle m → Idle k → Idle (λ s. k (m s))
  Idle-seq m k hm hk s e = rw (hm s e) (hk s e)

  Idle-block : (b : List ℕ) → Idle (dump_block writer b)
  unfolding dump_block
  Idle-block b s e = ground arith

  Idle-vector : (xs : List ℕ) → Idle (dump_vector writer xs)
  unfolding dump_vector dump_int
  Idle-vector xs = Idle-seq _ _ (Idle-block _) (Idle-block _)

  Idle-string : (t : Text) → Idle (dump_string writer t)
  unfolding dump_string dump_size
  Idle-string none = Idle-block _
  Idle-string (some t) = Idle-seq _ _ (Idle-block _) (Idle-block _)

  Idle-upvalues : (us : List Text) → Idle (dump_upvalues writer us)
  unfolding dump_upvalues
  Idle-upvalues [] = λ s e. refl
  Idle-upvalues (u ∷ us) = Idle-seq _ _ (Idle-string u) (Idle-upvalues us)

  Idle-locvars : (vs : List LocVar) → Idle (dump_locvars writer vs)
  unfolding dump_locvars dump_int
  Idle-locvars [] = λ s e. refl
  Idle-locvars (v ∷ vs) =
      Idle-seq _ _
        (Idle-seq _ _ (Idle-string v.varname) (Idle-seq _ _ (Idle-block _) (Idle-block _)))
        (Idle-locvars vs)

  Idle-constant : (c : Constant Number) → Idle (dump_constant writer format c)
  unfolding dump_constant dump_number dump_char
  Idle-constant nil = Idle-block _
  Idle-constant (boolean true) = Idle-seq _ _ (Idle-block _) (Idle-block _)
  Idle-constant (boolean false) = Idle-seq _ _ (Idle-block _) (Idle-block _)
  Idle-constant (number x) = Idle-seq _ _ (Idle-block _) (Idle-block _)
  Idle-constant (string s) = Idle-seq _ _ (Idle-block _) (Idle-string s)

  Idle-constants : (cs : List (Constant Number)) → Idle (dump_constants writer format cs)
  unfolding dump_constants
  Idle-constants [] = λ s e. refl
  Idle-constants (c ∷ cs) = Idle-seq _ _ (Idle-constant c) (Idle-constants cs)

  Idle-debug : (strip : Bool) (f : Code Number) → Idle (dump_debug writer format strip f)
  unfolding dump_debug dump_int
  Idle-debug strip f = Idle-seq _ _ (Idle-vector _) (
      Idle-seq _ _ (Idle-block _)
        (Idle-seq _ _ (Idle-locvars _) (Idle-seq _ _ (Idle-block _) (Idle-upvalues _))))

  Idle-head : (strip : Bool) (f : Code Number) (p : Text) → Idle (dump_head writer format strip f p)
  unfolding dump_head dump_int dump_char
  Idle-head strip f p = Idle-seq _ _ (Idle-string _) (
      Idle-seq _ _ (Idle-block _) (
        Idle-seq _ _ (Idle-block _) (
          Idle-seq _ _ (Idle-block _) (
            Idle-seq _ _ (Idle-block _)
              (Idle-seq _ _ (Idle-block _) (Idle-seq _ _ (Idle-block _) (Idle-vector f.code)))))))

  mutual
    unfolding dump_function dump_protos dump_int

    Idle-function :
        (strip : Bool) (f : Proto Number) (p : Text) (s : DumpState W)
        → s.status ≢ 0
        → dump_function writer format strip f p s ≡ s
    Idle-function strip (proto f fs) p = Idle-seq _ _ (Idle-head strip f p) (
        Idle-seq _ _ (Idle-block _) (
          Idle-seq _ _ (Idle-constants f.k) (
            Idle-seq _ _ (Idle-block _)
              (Idle-seq _ _ (Idle-protos strip fs f.source) (Idle-debug strip f)))))

    Idle-protos :
        (strip : Bool) (fs : Protos Number) (p : Text) → Idle (dump_protos writer format strip fs p)
    Idle-protos strip end p = λ s e. refl
    Idle-protos strip (also f fs) p =
        Idle-seq _ _ (Idle-function strip f p) (Idle-protos strip fs p)

  -- Once the writer has answered an error, DumpFunction calls it no more: the status and the
  -- writer's state stay as that error left them.
  pub dump_function-after_error :
      (strip : Bool) (f : Proto Number) (p : Text) (s : DumpState W)
      → s.status ≢ 0
      → dump_function writer format strip f p s ≡ s
  dump_function-after_error strip f p s e = Idle-function strip f p s e
