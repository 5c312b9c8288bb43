-- ===== src/Opcodes.antt =====
-- lopcodes.h: the layout of a virtual machine instruction and the macros that read and write it.
-- An `Instruction` is an unsigned 32-bit word, here a number below `2 ^ 32`; `~` and `<<` wrap.
pub mod Fields
pub mod Layout
pub mod Modes
mod Tests
use soft_renderer_lua.Base.{ℕ, ◌+◌, ◌-◌, ◌*◌, ◌/◌, ◌%◌, ◌^◌, bit_and, bit_or, Bool, not, ◌==◌}
use soft_renderer_lua.Base.Int.{ℤ, pos, ◌+ℤ◌, ◌-ℤ◌, pos_part, neg_part}

-- SIZE_C, SIZE_B, SIZE_Bx, SIZE_A, SIZE_OP
abbrev pub size_c : ℕ
size_c = 9

abbrev pub size_b : ℕ
size_b = 9

abbrev pub size_bx : ℕ
size_bx = size_c + size_b

abbrev pub size_a : ℕ
size_a = 8

abbrev pub size_op : ℕ
size_op = 6

-- POS_OP, POS_A, POS_C, POS_B, POS_Bx
abbrev pub pos_op : ℕ
pos_op = 0

abbrev pub pos_a : ℕ
pos_a = pos_op + size_op

abbrev pub pos_c : ℕ
pos_c = pos_a + size_a

abbrev pub pos_b : ℕ
pos_b = pos_c + size_c

abbrev pub pos_bx : ℕ
pos_bx = pos_c

abbrev pub maxarg_bx : ℕ
maxarg_bx = 2 ^ size_bx - 1

abbrev pub maxarg_sbx : ℕ
maxarg_sbx = maxarg_bx / 2

abbrev pub maxarg_a : ℕ
maxarg_a = 2 ^ size_a - 1

abbrev pub maxarg_b : ℕ
maxarg_b = 2 ^ size_b - 1

abbrev pub maxarg_c : ℕ
maxarg_c = 2 ^ size_c - 1

-- The operators of C on `Instruction`.
abbrev pub complement : ℕ → ℕ
complement x = 2 ^ 32 - 1 - x

abbrev pub shl : ℕ → ℕ → ℕ
shl x n = x * 2 ^ n % 2 ^ 32

abbrev pub shr : ℕ → ℕ → ℕ
shr x n = x / 2 ^ n

-- MASK1 and MASK0
abbrev pub mask1 : ℕ → ℕ → ℕ
mask1 n p = shl (complement (shl (complement 0) n)) p

abbrev pub mask0 : ℕ → ℕ → ℕ
mask0 n p = complement (mask1 n p)

-- The common shape of the GET and SET macros: `n` bits at position `p`.
unfoldable pub get_field : ℕ → ℕ → ℕ → ℕ
get_field n p i = bit_and (shr i p) (mask1 n 0)

unfoldable pub set_field : ℕ → ℕ → ℕ → ℕ → ℕ
set_field n p i u = bit_or (bit_and i (mask0 n p)) (bit_and (shl u p) (mask1 n p))

unfoldable pub get_opcode : ℕ → ℕ
get_opcode i = get_field size_op pos_op i

unfoldable pub set_opcode : ℕ → ℕ → ℕ
set_opcode i o = set_field size_op pos_op i o

unfoldable pub getarg_a : ℕ → ℕ
getarg_a i = get_field size_a pos_a i

unfoldable pub setarg_a : ℕ → ℕ → ℕ
setarg_a i u = set_field size_a pos_a i u

unfoldable pub getarg_b : ℕ → ℕ
getarg_b i = get_field size_b pos_b i

unfoldable pub setarg_b : ℕ → ℕ → ℕ
setarg_b i b = set_field size_b pos_b i b

unfoldable pub getarg_c : ℕ → ℕ
getarg_c i = get_field size_c pos_c i

unfoldable pub setarg_c : ℕ → ℕ → ℕ
setarg_c i b = set_field size_c pos_c i b

unfoldable pub getarg_bx : ℕ → ℕ
getarg_bx i = get_field size_bx pos_bx i

unfoldable pub setarg_bx : ℕ → ℕ → ℕ
setarg_bx i b = set_field size_bx pos_bx i b

-- `cast(unsigned int, b)`: the value modulo `2 ^ 32`, also of a negative number.
abbrev pub to_unsigned : ℤ → ℕ
to_unsigned (pos n) = n % 2 ^ 32
to_unsigned (ℤ.negsuc n) = 2 ^ 32 - 1 - n % 2 ^ 32

unfoldable pub getarg_sbx : ℕ → ℤ
getarg_sbx i = pos (getarg_bx i) -ℤ pos maxarg_sbx

unfoldable pub setarg_sbx : ℕ → ℤ → ℕ
setarg_sbx i b = setarg_bx i (to_unsigned (b +ℤ pos maxarg_sbx))

unfoldable pub create_abc : ℕ → ℕ → ℕ → ℕ → ℕ
create_abc o a b c =
    bit_or (bit_or (bit_or (shl o pos_op) (shl a pos_a)) (shl b pos_b)) (shl c pos_c)

unfoldable pub create_abx : ℕ → ℕ → ℕ → ℕ
create_abx o a bc = bit_or (bit_or (shl o pos_op) (shl a pos_a)) (shl bc pos_bx)

-- BITRK, ISK, INDEXK, MAXINDEXRK, RKASK: operands that are a register or a constant.
abbrev pub bitrk : ℕ
bitrk = 2 ^ (size_b - 1)

unfoldable pub isk : ℕ → Bool
isk x = not (bit_and x bitrk == 0)

-- `(int)(r) & ~BITRK`, for an operand `r` that is a 32-bit word
unfoldable pub indexk : ℕ → ℕ
indexk r = bit_and r (complement bitrk)

abbrev pub maxindexrk : ℕ
maxindexrk = bitrk - 1

unfoldable pub rkask : ℕ → ℕ
rkask x = bit_or x bitrk
