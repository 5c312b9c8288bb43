-- ===== src/Chunk/Tests.antt =====
-- A function with a constant table, a nested function and debug information, dumped and loaded.
use mathlib.Core.List.{append-nil}
use soft_renderer_lua.Base.{
  ℕ, ◌+◌, ◌^◌, ◌<◌, ◌≡◌, refl, sym, ◌∙◌, arith, Bool, true, false, none, some, List, [], ◌∷◌, ◌++◌,
  length, take, drop,
}
use soft_renderer_lua.Zio.{Reader, Zio, init}
use soft_renderer_lua.Zio.Stream.{Delivers, empty, block}
use soft_renderer_lua.Chunk.{
  NumberFormat, Text, nil, boolean, number, string, Code, Proto, proto, end, also, to_le, same_text,
}
use soft_renderer_lua.Chunk.Dump.{Writer, DumpState, dump_function, dump, words}
use soft_renderer_lua.Chunk.Undump.{undump, ok, err, unexpected_end}
use soft_renderer_lua.Chunk.Encoding.{chunk_bytes, function_bytes, protos_bytes, Fits, FitsBelow}
use soft_renderer_lua.Chunk.Written.{Accepts, dump-chunk_bytes}
use soft_renderer_lua.Chunk.AfterError.{dump_function-after_error}
use soft_renderer_lua.Chunk.Restored.{
  restored, restored_all, Verified, VerifiedAll, Sourced, SourcedAll, without_debug,
  without_debug_all,
}
use soft_renderer_lua.Chunk.RoundTrip.{
  unknown_source, undump-dump, undump-dump_stripped, undump_truncated,
}

-- The eight bytes of a `double`.
abbrev Double : Type 0
Double = ℕ × ℕ × ℕ × ℕ × ℕ × ℕ × ℕ × ℕ

byte_at : ℕ → List ℕ → ℕ
byte_at i [] = 0
byte_at ℕ.zero (b ∷ bs) = b
byte_at (ℕ.suc i) (b ∷ bs) = byte_at i bs

abbrev double_format : NumberFormat Double
unfolding byte_at
double_format = record {
  to_bytes = λ x. x.0 ∷ x.1 ∷ x.2 ∷ x.3 ∷ x.4 ∷ x.5 ∷ x.6 ∷ x.7 ∷ [];
  from_bytes = λ b. (
    byte_at 0 b,
    byte_at 1 b,
    byte_at 2 b,
    byte_at 3 b,
    byte_at 4 b,
    byte_at 5 b,
    byte_at 6 b,
    byte_at 7 b,
  );
  length-to_bytes = λ x. refl;
  from_bytes-to_bytes = λ x. refl;
}

-- The writer of string.dump: every block goes to the end of a buffer.
abbrev append_writer : Writer (List ℕ)
append_writer b w = (0, w ++ b)

append_writer-Accepts : Accepts append_writer (λ w. w)
append_writer-Accepts = record { status = λ b w. refl; appends = λ b w. refl }

-- The reader of load on a string: the whole string in one block.
abbrev one_block : Reader (List ℕ)
one_block s = (some s, [])

abbrev accept_all : Proto Double → Bool
accept_all f = true

abbrev main_source : Text
main_source = some (b'@' ∷ b'm' ∷ [])

-- `return`, and no constants
abbrev inner : Code Double
inner = record {
  source = main_source;
  linedefined = 2;
  lastlinedefined = 3;
  nups = 0;
  numparams = 1;
  is_vararg = 0;
  maxstacksize = 2;
  code = 0x0080_001e ∷ [];
  k = [];
  lineinfo = 3 ∷ [];
  locvars = (record { varname = some (b'x' ∷ []); startpc = 0; endpc = 1 }) ∷ [];
  upvalues = [];
}

abbrev main : Code Double
main = record {
  source = main_source;
  linedefined = 0;
  lastlinedefined = 0;
  nups = 0;
  numparams = 0;
  is_vararg = 2;
  maxstacksize = 2;
  code = 0x0000_0024 ∷ 0x0080_001e ∷ [];
  k = nil ∷ boolean true ∷ number (0, 0, 0, 0, 0, 0, 0xf0, 0x3f) ∷ string (some (b'f' ∷ [])) ∷ [];
  lineinfo = 1 ∷ 3 ∷ [];
  locvars = [];
  upvalues = some (b'u' ∷ []) ∷ [];
}

abbrev program : Proto Double
program = proto main (also (proto inner end) end)

program-Fits : Fits 200 program
unfolding Fits FitsBelow
program-Fits = omega arith

program-Sourced : Sourced program
unfolding Sourced SourcedAll
program-Sourced = ((b'@' ∷ b'm' ∷ [], refl), (((b'@' ∷ b'm' ∷ [], refl), tt), tt))

program-Verified : Verified accept_all program
unfolding Verified VerifiedAll
program-Verified = (refl, ((refl, tt), tt))

stripped_Verified : Verified accept_all (without_debug unknown_source program)
unfolding Verified VerifiedAll without_debug without_debug_all
stripped_Verified = (refl, ((refl, tt), tt))

abbrev program_dump : Bool → DumpState (List ℕ)
program_dump strip = dump append_writer double_format strip program []

dump-chunk_bytes_example :
    ((program_dump false).status ≡ 0)
    × ((program_dump false).sink ≡ [] ++ chunk_bytes double_format false program)
dump-chunk_bytes_example =
    dump-chunk_bytes append_writer (λ w. w) append_writer-Accepts double_format false 200 program []
      program-Fits

one_block-Delivers : (s : List ℕ) → length s < 2 ^ 64 → Delivers one_block s s
one_block-Delivers [] h = empty refl
one_block-Delivers (b ∷ bs) h = block b bs [] refl h (sym (append-nil _)) (empty refl)

program-length : (strip : Bool) → length (chunk_bytes double_format strip program) < 2 ^ 64
unfolding function_bytes protos_bytes words to_le same_text double_format
program-length true = omega arith
program-length false = omega arith

program_Delivers :
    (strip : Bool) → Delivers one_block (program_dump strip).sink (program_dump strip).sink
program_Delivers strip = one_block-Delivers _ (
    rw
      (dump-chunk_bytes append_writer (λ w. w) append_writer-Accepts double_format strip 200 program
        [] program-Fits).1
      (program-length strip))

undump-dump_example :
    (z : Zio (List ℕ)) × (undump one_block double_format accept_all 0
        (init (program_dump false).sink)
      ≡ ok (program, z))
undump-dump_example =
    undump-dump double_format one_block accept_all 0 append_writer (λ w. w) []
      (program_dump false).sink program append_writer-Accepts refl program-Fits program-Sourced
      program-Verified (program_Delivers false)

undump-dump_stripped_example :
    (z : Zio (List ℕ)) × (undump one_block double_format accept_all 0
        (init (program_dump true).sink)
      ≡ ok (without_debug unknown_source program, z))
undump-dump_stripped_example =
    undump-dump_stripped double_format one_block accept_all 0 append_writer (λ w. w) []
      (program_dump true).sink program append_writer-Accepts refl program-Fits stripped_Verified
      (program_Delivers true)

-- The chunk of `inner`, of which the reader delivers 20 bytes.
abbrev inner_dump : List ℕ
inner_dump = chunk_bytes double_format true (proto inner end)

inner_cut : inner_dump ≡ take 20 inner_dump ++ 2 ∷ drop 21 inner_dump
unfolding function_bytes protos_bytes words to_le same_text double_format
inner_cut = refl

front_length : length (take 20 inner_dump) < 2 ^ 64
unfolding function_bytes protos_bytes words to_le same_text double_format
front_length = omega arith

inner-Fits : Fits 200 (proto inner end)
unfolding Fits FitsBelow
inner-Fits = omega arith

inner-Verified : Verified accept_all (restored true (proto inner end) none unknown_source)
unfolding Verified VerifiedAll restored restored_all
inner-Verified = (refl, tt)

undump_truncated_example :
    undump one_block double_format accept_all 0 (init (take 20 inner_dump)) ≡ err unexpected_end
undump_truncated_example =
    undump_truncated double_format one_block accept_all 0 append_writer (λ w. w) []
      (take 20 inner_dump) true (proto inner end) (take 20 inner_dump) (drop 21 inner_dump) 2
      append_writer-Accepts refl inner-Fits inner-Verified
      ((dump-chunk_bytes append_writer (λ w. w) append_writer-Accepts double_format true 200
          (proto inner end) [] inner-Fits).1
        ∙ inner_cut)
      (one_block-Delivers (take 20 inner_dump) front_length)

-- A writer that fails at once.
abbrev broken_writer : Writer ℕ
broken_writer b w = (1, w + 1)

dump_function-after_error_example :
    dump_function broken_writer double_format false program none (record { status = 1; sink = 5 })
    ≡ record { status = 1; sink = 5 }
dump_function-after_error_example =
    dump_function-after_error broken_writer double_format false program none
      (record { status = 1; sink = 5 }) (omega arith)
