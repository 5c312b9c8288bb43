-- ===== src/Debug/Tests.antt =====
-- A function whose first instruction jumps over the second, and a chunk that holds it.
use mathlib.Core.Option.{or_else}
use soft_renderer_lua.Base.{ℕ, ◌<◌, ◌≡◌, ◌≢◌, refl, arith, true, some, List, [], ◌∷◌, inl}
use soft_renderer_lua.Base.Int.{pos, ◌+ℤ◌, ◌-ℤ◌}
use soft_renderer_lua.Opcodes.{
  get_field, get_opcode, getarg_a, getarg_b, getarg_c, getarg_bx, getarg_sbx, isk, indexk,
}
use soft_renderer_lua.Opcodes.Modes.{
  cast_op_code, op_number, op_jmp, op_loadbool, get_op_mode, get_b_mode, get_c_mode, test_a_mode,
  test_t_mode,
}
use soft_renderer_lua.Zio.{
  Reader, Zio, init, fill_with, fill, put_back, lookahead, read_round, read_loop, read,
}
use soft_renderer_lua.Chunk.{NumberFormat, Code, proto, end, from_le, bytes_eq}
use soft_renderer_lua.Chunk.Undump
use soft_renderer_lua.Chunk.Undump.{
  ok, load_all, load_list, load_protos, from_words, load_block, load_char, load_int, load_text,
  load_string, load_vector, load_locvars, load_upvalues, load_header, load_constants, load_function,
  undump,
}
use soft_renderer_lua.Debug.{
  Verdict, passed, refused, outside, stuck, ◌>>=◌, fetch, sizecode, precheck, checkreg,
  check_arg_mode, wide_before, check_dest,
}
use soft_renderer_lua.Debug
use soft_renderer_lua.Debug.Symbexec.{
  operands_of, follow, check_op, check_skip, check_instruction, step, walk, symbexec, checkcode,
  accepts,
}
use soft_renderer_lua.Debug.Access.{InBounds, Access, Flagged}
use soft_renderer_lua.Debug.Walk.{here}
use soft_renderer_lua.Debug.Boundary.{Starts, symbexec-total, checkcode-InBounds, jumps-Starts}
use soft_renderer_lua.Debug.Loader.{itself, undump-InBounds}

-- JMP +1, MOVE 0 1, RETURN 0 1
abbrev jump_over : Code (Unit {0})
jump_over = record {
  source = some (b'=' ∷ b'?' ∷ []);
  linedefined = 0;
  lastlinedefined = 0;
  nups = 0;
  numparams = 0;
  is_vararg = 0;
  maxstacksize = 2;
  code = 0x8000_0016 ∷ 0x0080_0000 ∷ 0x0080_001e ∷ [];
  k = [];
  lineinfo = [];
  locvars = [];
  upvalues = [];
}

accepted : checkcode (proto jump_over end) ≡ passed true
unfolding checkcode symbexec precheck walk step check_instruction check_op operands_of check_skip
    check_dest wide_before check_arg_mode checkreg follow fetch Debug.check ◌>>=◌ cast_op_code
    get_op_mode get_b_mode get_c_mode test_a_mode test_t_mode op_number get_opcode getarg_a getarg_b
    getarg_c getarg_bx getarg_sbx get_field isk indexk ◌+ℤ◌ ◌-ℤ◌
accepted = refl

-- The same jump, into the count of a SETLIST.
abbrev jump_into : Code (Unit {0})
jump_into = record jump_over { code = 0x8000_0016 ∷ 0x0080_0022 ∷ 0x0000_0000 ∷ 0x0080_001e ∷ [] }

rejected : checkcode (proto jump_into end) ≡ refused
unfolding checkcode symbexec precheck walk step check_instruction check_op operands_of check_skip
    check_dest wide_before check_arg_mode checkreg follow fetch Debug.check ◌>>=◌ cast_op_code
    get_op_mode get_b_mode get_c_mode test_a_mode test_t_mode op_number get_opcode getarg_a getarg_b
    getarg_c getarg_bx getarg_sbx get_field isk indexk ◌+ℤ◌ ◌-ℤ◌
rejected = refl

first_start : Starts jump_over end 0
first_start = here refl

jump_target : pos 1 +ℤ getarg_sbx 0x8000_0016 ≡ pos 2
unfolding getarg_sbx getarg_bx get_field ◌+ℤ◌ ◌-ℤ◌
jump_target = refl

is_jump : get_opcode 0x8000_0016 ≡ op_number op_jmp
unfolding get_opcode get_field op_number
is_jump = refl

symbexec-total_example :
    (symbexec jump_over end 2 1 ≢ outside) × (symbexec jump_over end 2 1 ≢ stuck)
symbexec-total_example = symbexec-total jump_over end 2 1 (omega arith)

-- The first instruction is no LOADBOOL.
not_loadbool : Flagged jump_over 0
unfolding get_opcode get_field op_number
not_loadbool i at number = absurd (cc)

checkcode-InBounds_example : InBounds jump_over end 0
checkcode-InBounds_example =
    checkcode-InBounds jump_over end accepted 0 first_start (omega arith) not_loadbool

-- LOADBOOL 0 1 2, RETURN 0 1: luaV_execute jumps over the RETURN to the end of the code.
abbrev long_skip : Code (Unit {0})
long_skip = record jump_over { code = 0x0080_8002 ∷ 0x0080_001e ∷ [] }

long_skip-accepted : checkcode (proto long_skip end) ≡ passed true
unfolding checkcode symbexec precheck walk step check_instruction check_op operands_of check_skip
    check_dest wide_before check_arg_mode checkreg follow fetch Debug.check ◌>>=◌ cast_op_code
    get_op_mode get_b_mode get_c_mode test_a_mode test_t_mode op_number get_opcode getarg_a getarg_b
    getarg_c getarg_bx getarg_sbx get_field isk indexk ◌+ℤ◌ ◌-ℤ◌
long_skip-accepted = refl

long_skip-outside : ¬ Access long_skip end op_loadbool 0 0x0080_8002
unfolding getarg_c get_field
long_skip-outside access = omega (arith, access (λ e. omega (arith, e)))

jumps-Starts_example : (2 < 3) × Starts jump_over end 2
jumps-Starts_example =
    jumps-Starts jump_over end accepted 0 0x8000_0016 2 first_start refl (inl is_jump) jump_target

-- A chunk with the function, in one block. The function has no numbers.
abbrev no_numbers : NumberFormat (Unit {0})
no_numbers = record {
  to_bytes = λ x. 0 ∷ 0 ∷ 0 ∷ 0 ∷ 0 ∷ 0 ∷ 0 ∷ 0 ∷ [];
  from_bytes = λ b. tt;
  length-to_bytes = λ x. refl;
  from_bytes-to_bytes = λ x. refl;
}

abbrev one_block : Reader (List ℕ)
one_block s = (some s, [])

abbrev chunk : List ℕ
chunk =
    0x1b ∷ b'L' ∷ b'u' ∷ b'a' ∷ 0x51 ∷ 0 ∷ 1 ∷ 4 ∷ 8 ∷ 4 ∷ 8 ∷ 0 ∷ 0 ∷ 0 ∷ 0 ∷ 0 ∷ 0 ∷ 0 ∷ 0 ∷ 0 ∷ 0
    ∷ 0 ∷ 0 ∷ 0 ∷ 0 ∷ 0 ∷ 0 ∷ 0 ∷ 0 ∷ 0 ∷ 0 ∷ 2 ∷ 3 ∷ 0 ∷ 0 ∷ 0 ∷ 0x16 ∷ 0 ∷ 0 ∷ 0x80 ∷ 0 ∷ 0 ∷ 0x80
    ∷ 0 ∷ 0x1e ∷ 0 ∷ 0x80 ∷ 0 ∷ 0 ∷ 0 ∷ 0 ∷ 0 ∷ 0 ∷ 0 ∷ 0 ∷ 0 ∷ 0 ∷ 0 ∷ 0 ∷ 0 ∷ 0 ∷ 0 ∷ 0 ∷ 0 ∷ 0
    ∷ 0 ∷ 0 ∷ 0 ∷ []

abbrev after_chunk : Zio (List ℕ)
after_chunk = record { n = 0; block = chunk; pos = 68; source = [] }

loads : undump one_block no_numbers accepts 0 (init chunk) ≡ ok (proto jump_over end, after_chunk)
unfolding undump load_function load_header load_constants load_protos load_list load_upvalues
    load_locvars load_vector load_string load_text load_int load_char load_block load_all
    Undump.check from_words from_le bytes_eq or_else read read_loop read_round lookahead put_back
    fill fill_with init accepts checkcode symbexec precheck walk step check_instruction check_op
    operands_of check_skip check_dest wide_before check_arg_mode checkreg follow fetch Debug.check
    ◌>>=◌ cast_op_code get_op_mode get_b_mode get_c_mode test_a_mode test_t_mode op_number
    get_opcode getarg_a getarg_b getarg_c getarg_bx getarg_sbx get_field isk indexk ◌+ℤ◌ ◌-ℤ◌
loads = refl

undump-InBounds_example : InBounds jump_over end 0
undump-InBounds_example =
    undump-InBounds one_block no_numbers 0 (init chunk) after_chunk (proto jump_over end) jump_over
      end 0 loads (itself refl) first_start (omega arith) not_loadbool
