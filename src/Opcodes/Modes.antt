-- ===== src/Opcodes/Modes.antt =====
-- lopcodes.h and lopcodes.c: the opcodes, and the table of their modes, one byte for each.
use soft_renderer_lua.Base.{
  ℕ, ◌+◌, ◌*◌, ◌/◌, ◌^◌, ◌≤◌, ◌<◌, ◌≡◌, refl, arith, bit_and, bit_or, Bool, true, false, not, ◌==◌,
  ◌⊎◌, Option, none, some, List, [], ◌∷◌, get_elem?, ◌≢◌,
}
use soft_renderer_lua.Opcodes.{
  isk, indexk, rkask, maxindexrk, maxarg_a, maxarg_b, maxarg_c, size_op, get_opcode, create_abc,
}
use soft_renderer_lua.Base.Bits.{
  bit_or_split, bit_and_split, bit_and_ones, bit_and-zero, bit_or-zero,
}
use soft_renderer_lua.Opcodes.Layout.{create_abc-fields}

-- enum OpMode
pub data OpMode : Type 0 where
  i_abc i_abx i_asbx : OpMode

-- enum OpArgMask
pub data OpArgMask : Type 0 where
  op_arg_n op_arg_u op_arg_r op_arg_k : OpArgMask

pub data OpCode : Type 0 where
  op_move op_loadk op_loadbool op_loadnil op_getupval op_getglobal op_gettable op_setglobal
        op_setupval op_settable op_newtable op_self op_add op_sub op_mul op_div op_mod op_pow op_unm
        op_not op_len op_concat op_jmp op_eq op_lt op_le op_test op_testset op_call op_tailcall
        op_return op_forloop op_forprep op_tforloop op_setlist op_close op_closure op_vararg :
      OpCode

-- The numbers that C gives to the enumerators.
unfoldable pub op_number : OpCode → ℕ
op_number op_move = 0
op_number op_loadk = 1
op_number op_loadbool = 2
op_number op_loadnil = 3
op_number op_getupval = 4
op_number op_getglobal = 5
op_number op_gettable = 6
op_number op_setglobal = 7
op_number op_setupval = 8
op_number op_settable = 9
op_number op_newtable = 10
op_number op_self = 11
op_number op_add = 12
op_number op_sub = 13
op_number op_mul = 14
op_number op_div = 15
op_number op_mod = 16
op_number op_pow = 17
op_number op_unm = 18
op_number op_not = 19
op_number op_len = 20
op_number op_concat = 21
op_number op_jmp = 22
op_number op_eq = 23
op_number op_lt = 24
op_number op_le = 25
op_number op_test = 26
op_number op_testset = 27
op_number op_call = 28
op_number op_tailcall = 29
op_number op_return = 30
op_number op_forloop = 31
op_number op_forprep = 32
op_number op_tforloop = 33
op_number op_setlist = 34
op_number op_close = 35
op_number op_closure = 36
op_number op_vararg = 37

unfoldable pub mode_number : OpMode → ℕ
mode_number i_abc = 0
mode_number i_abx = 1
mode_number i_asbx = 2

unfoldable pub mask_number : OpArgMask → ℕ
mask_number op_arg_n = 0
mask_number op_arg_u = 1
mask_number op_arg_r = 2
mask_number op_arg_k = 3

abbrev pub all_ops : List OpCode
all_ops =
    op_move ∷ op_loadk ∷ op_loadbool ∷ op_loadnil ∷ op_getupval ∷ op_getglobal ∷ op_gettable
    ∷ op_setglobal ∷ op_setupval ∷ op_settable ∷ op_newtable ∷ op_self ∷ op_add ∷ op_sub ∷ op_mul
    ∷ op_div ∷ op_mod ∷ op_pow ∷ op_unm ∷ op_not ∷ op_len ∷ op_concat ∷ op_jmp ∷ op_eq ∷ op_lt
    ∷ op_le ∷ op_test ∷ op_testset ∷ op_call ∷ op_tailcall ∷ op_return ∷ op_forloop ∷ op_forprep
    ∷ op_tforloop ∷ op_setlist ∷ op_close ∷ op_closure ∷ op_vararg ∷ []

-- The casts back. No byte of the table has the mode 3, which is no enumerator.
unfoldable pub cast_op_mode : ℕ → Option OpMode
cast_op_mode n = get_elem? (i_abc ∷ i_abx ∷ i_asbx ∷ []) n

unfoldable pub cast_op_arg_mask : ℕ → Option OpArgMask
cast_op_arg_mask n = get_elem? (op_arg_n ∷ op_arg_u ∷ op_arg_r ∷ op_arg_k ∷ []) n

unfoldable pub cast_op_code : ℕ → Option OpCode
cast_op_code n = get_elem? all_ops n

-- `opmode(t,a,b,c,m)`, which makes a byte of the table
unfoldable pub opmode : ℕ → ℕ → OpArgMask → OpArgMask → OpMode → ℕ
unfolding mask_number mode_number
opmode t a b c m =
    bit_or
      (bit_or (bit_or (bit_or (t * 2 ^ 7) (a * 2 ^ 6)) (mask_number b * 2 ^ 4))
        (mask_number c * 2 ^ 2))
      (mode_number m)

-- luaP_opmodes
unfoldable pub op_modes : OpCode → ℕ
unfolding opmode
op_modes op_move = opmode 0 1 op_arg_r op_arg_n i_abc
op_modes op_loadk = opmode 0 1 op_arg_k op_arg_n i_abx
op_modes op_loadbool = opmode 0 1 op_arg_u op_arg_u i_abc
op_modes op_loadnil = opmode 0 1 op_arg_r op_arg_n i_abc
op_modes op_getupval = opmode 0 1 op_arg_u op_arg_n i_abc
op_modes op_getglobal = opmode 0 1 op_arg_k op_arg_n i_abx
op_modes op_gettable = opmode 0 1 op_arg_r op_arg_k i_abc
op_modes op_setglobal = opmode 0 0 op_arg_k op_arg_n i_abx
op_modes op_setupval = opmode 0 0 op_arg_u op_arg_n i_abc
op_modes op_settable = opmode 0 0 op_arg_k op_arg_k i_abc
op_modes op_newtable = opmode 0 1 op_arg_u op_arg_u i_abc
op_modes op_self = opmode 0 1 op_arg_r op_arg_k i_abc
op_modes op_add = opmode 0 1 op_arg_k op_arg_k i_abc
op_modes op_sub = opmode 0 1 op_arg_k op_arg_k i_abc
op_modes op_mul = opmode 0 1 op_arg_k op_arg_k i_abc
op_modes op_div = opmode 0 1 op_arg_k op_arg_k i_abc
op_modes op_mod = opmode 0 1 op_arg_k op_arg_k i_abc
op_modes op_pow = opmode 0 1 op_arg_k op_arg_k i_abc
op_modes op_unm = opmode 0 1 op_arg_r op_arg_n i_abc
op_modes op_not = opmode 0 1 op_arg_r op_arg_n i_abc
op_modes op_len = opmode 0 1 op_arg_r op_arg_n i_abc
op_modes op_concat = opmode 0 1 op_arg_r op_arg_r i_abc
op_modes op_jmp = opmode 0 0 op_arg_r op_arg_n i_asbx
op_modes op_eq = opmode 1 0 op_arg_k op_arg_k i_abc
op_modes op_lt = opmode 1 0 op_arg_k op_arg_k i_abc
op_modes op_le = opmode 1 0 op_arg_k op_arg_k i_abc
op_modes op_test = opmode 1 1 op_arg_r op_arg_u i_abc
op_modes op_testset = opmode 1 1 op_arg_r op_arg_u i_abc
op_modes op_call = opmode 0 1 op_arg_u op_arg_u i_abc
op_modes op_tailcall = opmode 0 1 op_arg_u op_arg_u i_abc
op_modes op_return = opmode 0 0 op_arg_u op_arg_n i_abc
op_modes op_forloop = opmode 0 1 op_arg_r op_arg_n i_asbx
op_modes op_forprep = opmode 0 1 op_arg_r op_arg_n i_asbx
op_modes op_tforloop = opmode 1 0 op_arg_n op_arg_u i_abc
op_modes op_setlist = opmode 0 0 op_arg_u op_arg_u i_abc
op_modes op_close = opmode 0 0 op_arg_n op_arg_n i_abc
op_modes op_closure = opmode 0 1 op_arg_u op_arg_n i_abx
op_modes op_vararg = opmode 0 1 op_arg_u op_arg_n i_abc

unfoldable pub get_op_mode : OpCode → Option OpMode
unfolding cast_op_mode op_modes
get_op_mode m = cast_op_mode (bit_and (op_modes m) 3)

unfoldable pub get_b_mode : OpCode → Option OpArgMask
unfolding cast_op_arg_mask op_modes
get_b_mode m = cast_op_arg_mask (bit_and (op_modes m / 2 ^ 4) 3)

unfoldable pub get_c_mode : OpCode → Option OpArgMask
unfolding cast_op_arg_mask op_modes
get_c_mode m = cast_op_arg_mask (bit_and (op_modes m / 2 ^ 2) 3)

unfoldable pub test_a_mode : OpCode → Bool
unfolding op_modes
test_a_mode m = not (bit_and (op_modes m) (2 ^ 6) == 0)

unfoldable pub test_t_mode : OpCode → Bool
unfolding op_modes
test_t_mode m = not (bit_and (op_modes m) (2 ^ 7) == 0)

-- The opcode put into an instruction by its number is read back as that opcode.
pub cast_op_code-op_number :
    (o : OpCode) → (cast_op_code (op_number o) ≡ some o) × (op_number o < 2 ^ size_op)
unfolding cast_op_code op_number
cast_op_code-op_number op_move = (refl, omega arith)
cast_op_code-op_number _ = (refl, omega arith)

-- An instruction made by CREATE_ABC from an opcode and operands that fit has that opcode, for
-- each of the 38 opcodes.
pub cast_op_code-create_abc :
    (o : OpCode) (a b c : ℕ)
    → a ≤ maxarg_a
    → b ≤ maxarg_b
    → c ≤ maxarg_c
    → cast_op_code (get_opcode (create_abc (op_number o) a b c)) ≡ some o
cast_op_code-create_abc o a b c ha hb hc =
    let (named, fits) = cast_op_code-op_number o in
    rw (create_abc-fields (op_number o) a b c fits ha hb hc).0 named

-- The table is consistent: the format and both operand modes of every opcode are enumerators; an
-- opcode whose format has a Bx operand in place of B and C has an unused C; a test has the format ABC;
-- a byte of the table is a byte.
pub op_modes_consistent :
    (o : OpCode)
    → (get_op_mode o ≢ none)
      × (get_b_mode o ≢ none)
      × (get_c_mode o ≢ none)
      × ((get_op_mode o ≡ some i_abc) ⊎ (get_c_mode o ≡ some op_arg_n))
      × ((test_t_mode o ≡ false) ⊎ (get_op_mode o ≡ some i_abc))
      × (op_modes o < 2 ^ 8)
unfolding get_op_mode get_b_mode get_c_mode test_t_mode
op_modes_consistent op_move = ground arith
op_modes_consistent _ = ground arith

-- An operand marked by RKASK is a constant operand that fits B and C, and INDEXK gives its index
-- back; a register operand is not marked.
pub rkask-indexk :
    (x : ℕ)
    → x ≤ maxindexrk
    → (isk (rkask x) ≡ true) × (indexk (rkask x) ≡ x) × (rkask x ≤ maxarg_b) × (isk x ≡ false)
unfolding isk indexk rkask
rkask-indexk x h =
    let marked : bit_or x 256 ≡ 256 + x =
      ground (arith, bit_or_split 8 0 1 x 0 (omega arith) (omega arith), bit_or-zero x) in
    let below : bit_and x 255 ≡ x = rw (bit_and_ones 8 x 255 refl) (omega arith) in
    ground (
      arith,
      marked,
      below,
      bit_and_split 8 1 1 x 0 (omega arith) (omega arith),
      bit_and_split 8 0 1 x 0 (omega arith) (omega arith),
      bit_and_split 8 1 16777214 x 255 (omega arith) (omega arith),
      bit_and-zero x,
    )
