-- ===== src/Chunk/Functions.antt =====
-- LoadFunction reads the encoding of a function.
use mathlib.Core.List.{append-nil}
use mathlib.Core.Option.{or_else}
use soft_renderer_lua.Base.{
  ℕ, zero, suc, refl, ap, arith, Bool, true, false, ◌||◌, if◌then◌else◌, none, List, ◌++◌, length,
}
use soft_renderer_lua.Zio.{Reader}
use soft_renderer_lua.Chunk.{
  NumberFormat, Text, Constant, nil, boolean, number, string, Code, Proto, Protos, proto, end, also,
  count, same_text,
}
use soft_renderer_lua.Chunk.Loaded.{
  char-Reads, int-Reads, string-Reads, vector-Reads, list-Reads, locvars-Reads, upvalues-Reads,
}
use soft_renderer_lua.Chunk.Restored.{restored, restored_all, Verified, VerifiedAll}
use soft_renderer_lua.Chunk.Encoding.{
  kept, written_source, function_bytes, protos_bytes, Fits, FitsBelow, All, text_bytes, table_bytes,
  constant_bytes, IsInt, IsWord, IsText, IsConstant, IsLocVar,
}
use soft_renderer_lua.Chunk.Undump.{
  load_number, load_constant_of, load_constant, load_constants, load_protos, load_function,
}
use soft_renderer_lua.Chunk.Reading.{
  Reads, pure-Reads, bind-Reads, check-Reads, block-Reads, Reads-to,
}

kept_lem :
    {A : Type 0} (P : A → Type 0) (strip : Bool) (xs : List A)
    → IsInt (length xs) × All P xs
    → IsInt (length (kept strip xs)) × All P (kept strip xs)
kept_lem P true xs h = (omega arith, tt)
kept_lem P false xs h = h

written_source_lem :
    {Number : Type 0} (strip : Bool) (f : Code Number) (p : Text)
    → IsText f.source
    → IsText (written_source strip f p)
written_source_lem strip f p h = if-IsText (same_text f.source p || strip) f.source h
  where
    if-IsText : (b : Bool) (t : Text) → IsText t → IsText (if b then none else t)
    if-IsText true t h = tt
    if-IsText false t h = h

module _ {D Number : Type 0} (reader : Reader D) (format : NumberFormat Number) where
  number-Reads : (x : Number) → Reads reader (load_number reader format) (format.to_bytes x) x
  unfolding load_number
  number-Reads x = Reads-to reader (append-nil (format.to_bytes x)) (format.from_bytes-to_bytes x) (
      bind-Reads reader _ (block-Reads reader 8 (format.to_bytes x) (format.length-to_bytes x))
        (pure-Reads reader _))

  constant-Reads :
      (c : Constant Number)
      → IsConstant c
      → Reads reader (load_constant reader format) (constant_bytes format c) c
  unfolding load_constant load_constant_of
  constant-Reads nil h = bind-Reads reader _ (char-Reads reader 0) (pure-Reads reader nil)
  constant-Reads (boolean true) h =
      bind-Reads reader _ (char-Reads reader 1)
        (bind-Reads reader _ (char-Reads reader 1) (pure-Reads reader _))
  constant-Reads (boolean false) h =
      bind-Reads reader _ (char-Reads reader 1)
        (bind-Reads reader _ (char-Reads reader 0) (pure-Reads reader _))
  constant-Reads (number x) h = bind-Reads reader _ (char-Reads reader 3) (
      Reads-to reader (append-nil (format.to_bytes x)) refl
        (bind-Reads reader _ (number-Reads x) (pure-Reads reader _)))
  constant-Reads (string s) h = bind-Reads reader _ (char-Reads reader 4) (
      Reads-to reader (append-nil (text_bytes s)) refl
        (bind-Reads reader _ (string-Reads reader s h) (pure-Reads reader _)))

  pub constants-Reads :
      (cs : List (Constant Number))
      → IsInt (length cs) × All IsConstant cs
      → Reads reader (load_constants reader format) (table_bytes (constant_bytes format) cs) cs
  unfolding load_constants
  constants-Reads cs (n, h) =
      bind-Reads reader _ (int-Reads reader (length cs) n)
        (list-Reads reader _ (constant_bytes format) IsConstant constant-Reads cs h)

  module _ (checkcode : Proto Number → Bool) where
    -- The parts of LoadFunction behind the nested functions, and the whole.
    mutual
      unfolding load_function load_protos function_bytes protos_bytes Fits FitsBelow restored
          restored_all Verified VerifiedAll

      pub function-Reads :
          (strip : Bool) (room : ℕ) (f : Proto Number) (p q : Text)
          → Fits room f
          → Verified checkcode (restored strip f p q)
          → Reads reader
              (load_function reader format checkcode room q)
              (function_bytes format strip f p)
              (restored strip f p q)
      function-Reads strip zero (proto f fs) p q h v = absurd h
      function-Reads strip (suc room) (proto f fs) p q (h, n, below) (v, vs) =
          bind-Reads reader _
            (string-Reads reader (written_source strip f p) (written_source_lem strip f p h.source))
            (bind-Reads reader _ (int-Reads reader f.linedefined h.linedefined) (
              bind-Reads reader _ (int-Reads reader f.lastlinedefined h.lastlinedefined) (
                bind-Reads reader _ (char-Reads reader f.nups) (
                  bind-Reads reader _ (char-Reads reader f.numparams) (
                    bind-Reads reader _ (char-Reads reader f.is_vararg) (
                      bind-Reads reader _ (char-Reads reader f.maxstacksize) (
                        bind-Reads reader _ (vector-Reads reader f.code h.code) (
                          bind-Reads reader _ (constants-Reads f.k h.k) (
                            bind-Reads reader _ (int-Reads reader (count fs) n) (
                              bind-Reads reader _
                                (protos-Reads strip room fs f.source
                                  (or_else (written_source strip f p) q) below vs)
                                (bind-Reads reader _
                                  (vector-Reads reader (kept strip f.lineinfo)
                                    (kept_lem IsWord strip f.lineinfo h.lineinfo))
                                  (bind-Reads reader _
                                    (locvars-Reads reader (kept strip f.locvars)
                                      (kept_lem IsLocVar strip f.locvars h.locvars))
                                    (Reads-to reader
                                      (append-nil (table_bytes text_bytes (kept strip f.upvalues)))
                                      refl
                                      (bind-Reads reader _
                                        (upvalues-Reads reader (kept strip f.upvalues)
                                          (kept_lem IsText strip f.upvalues h.upvalues))
                                        (bind-Reads reader _ (check-Reads reader _ _ v)
                                          (pure-Reads reader _))))))))))))))))

      protos-Reads :
          (strip : Bool) (room : ℕ) (fs : Protos Number) (p q : Text)
          → FitsBelow room fs
          → VerifiedAll checkcode (restored_all strip fs p q)
          → Reads reader
              (load_protos (count fs) (load_function reader format checkcode room q))
              (protos_bytes format strip fs p)
              (restored_all strip fs p q)
      protos-Reads strip room end p q h v = pure-Reads reader end
      protos-Reads strip room (also f fs) p q (h, hs) (v, vs) =
          Reads-to reader (ap (λ r. function_bytes format strip f p ++ r) (append-nil _)) refl (
            bind-Reads reader _ (function-Reads strip room f p q h v)
              (bind-Reads reader _ (protos-Reads strip room fs p q hs vs) (pure-Reads reader _)))
