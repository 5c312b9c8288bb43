-- ===== src/Debug.antt =====
-- ldebug.c: the verifier of bytecode, luaG_checkcode, and the symbolic execution that it rests on.
-- The sizes of the vectors of a Proto are the lengths of the lists. A read outside a vector is a result
-- of its own, `outside`, and so is fuel that ran out, `stuck`.
pub mod Symbexec
pub mod Post
pub mod Access
pub mod Checked
pub mod Operands
pub mod Instruction
pub mod Walk
pub mod Boundary
pub mod Loader
mod Tests
use soft_renderer_lua.Base.{
  ℕ, zero, suc, ◌+◌, ◌-◌, ◌%◌, bit_and, Bool, true, false, ◌&&◌, ◌||◌, not, ◌==◌, ltb, leb,
  if◌then◌else◌, Option, none, some, List, [], ◌∷◌, length, get_elem?,
}
use soft_renderer_lua.Base.Int.{ℤ, pos, negsuc, ◌+ℤ◌}
use soft_renderer_lua.Opcodes.{get_opcode, getarg_b, getarg_c, isk, indexk}
use soft_renderer_lua.Opcodes.Modes.{
  OpArgMask, op_arg_n, op_arg_u, op_arg_r, op_arg_k, op_call, op_tailcall, op_return, op_setlist,
  op_getupval, op_move, op_number,
}
use soft_renderer_lua.Chunk.{Constant, string, Code, Proto, Protos, proto, end, also, count}

-- The answer of a check: `refused` is `return 0`.
pub data Verdict (A : Type 0) : Type 0 where
  passed : A → Verdict A
  refused outside stuck : Verdict A

infixl 5 ◌>>=◌ ◌>>◌
unfoldable pub ◌>>=◌ : {A B : Type 0} → Verdict A → (A → Verdict B) → Verdict B
passed x >>= f = f x
refused >>= f = refused
outside >>= f = outside
stuck >>= f = stuck

abbrev pub ◌>>◌ : {B : Type 0} → Verdict (Unit {0}) → Verdict B → Verdict B
m >> k = m >>= λ _. k

-- The macro `check`.
unfoldable pub check : Bool → Verdict (Unit {0})
check true = passed tt
check false = refused

abbrev pub found : {A : Type 0} → Option A → Verdict A
found none = outside
found (some x) = passed x

-- `v[i]`
unfoldable pub fetch : {A : Type 0} → List A → ℕ → Verdict A
fetch v i = found (get_elem? v i)

-- VARARG_HASARG, VARARG_ISVARARG and VARARG_NEEDSARG of lobject.h; MAXSTACK of llimits.h
abbrev pub vararg_hasarg : ℕ
vararg_hasarg = 1

abbrev pub vararg_isvararg : ℕ
vararg_isvararg = 2

abbrev pub vararg_needsarg : ℕ
vararg_needsarg = 4

abbrev pub maxstack : ℕ
maxstack = 250

-- `x & flag` as a condition
abbrev pub has : ℕ → ℕ → Bool
has x flag = not (bit_and x flag == 0)

abbrev pub is_op : ℕ → ℕ → Bool
is_op i o = get_opcode i == o

module _ {Number : Type 0} (pt : Code Number) where
  abbrev pub sizecode : ℕ
  sizecode = length pt.code

  unfoldable pub checkreg : ℕ → Verdict (Unit {0})
  checkreg reg = check (ltb reg pt.maxstacksize)

  unfoldable pub precheck : Verdict (Unit {0})
  unfolding op_number
  precheck = do
    check (leb pt.maxstacksize maxstack)
    check (leb (pt.numparams + bit_and pt.is_vararg vararg_hasarg) pt.maxstacksize)
    check (not (has pt.is_vararg vararg_needsarg) || has pt.is_vararg vararg_hasarg)
    check (leb (length pt.upvalues) pt.nups)
    check (length pt.lineinfo == sizecode || length pt.lineinfo == 0)
    check (ltb 0 sizecode)
    i ← fetch pt.code (sizecode - 1)
    check (is_op i (op_number op_return))

  -- luaG_checkopenop on the next instruction
  unfoldable pub checkopenop : ℕ → Verdict (Unit {0})
  unfolding op_number
  checkopenop pc = do
    i ← fetch pt.code (pc + 1)
    check (
        is_op i (op_number op_call)
        || is_op i (op_number op_tailcall)
        || is_op i (op_number op_return)
        || is_op i (op_number op_setlist))
    check (getarg_b i == 0)

  unfoldable pub check_arg_mode : ℕ → OpArgMask → Verdict (Unit {0})
  check_arg_mode r op_arg_n = check (r == 0)
  check_arg_mode r op_arg_u = passed tt
  check_arg_mode r op_arg_r = checkreg r
  check_arg_mode r op_arg_k =
      check (if isk r then ltb (indexk r) (length pt.k) else ltb r pt.maxstacksize)

  -- A SETLIST (opcode 34) whose count stands in the next word.
  abbrev pub is_wide : ℕ → Bool
  is_wide d = is_op d 34 && getarg_c d == 0

  -- The loop that goes back from a jump's destination; the answer is `j`.
  unfoldable pub wide_before : ℕ → Verdict ℕ
  wide_before zero = passed 0
  wide_before (suc dest) = do
    d ← fetch pt.code dest
    if is_wide d then (do j ← wide_before dest; passed (suc j)) else passed 0

  -- A jump to `dest`
  unfoldable pub check_dest : ℤ → Verdict (Unit {0})
  check_dest (negsuc n) = refused
  check_dest (pos dest) = do check (ltb dest sizecode); j ← wide_before dest; check (j % 2 == 0)

  -- The words after a CLOSURE, one for each upvalue.
  unfoldable pub captures : ℕ → ℕ → Verdict (Unit {0})
  unfolding op_number
  captures zero pc = passed tt
  captures (suc n) pc = do
    i ← fetch pt.code (pc + 1)
    check (is_op i (op_number op_getupval) || is_op i (op_number op_move))
    captures n (pc + 1)

abbrev pub is_string : {Number : Type 0} → Constant Number → Bool
is_string Constant.nil = false
is_string (Constant.boolean b) = false
is_string (Constant.number x) = false
is_string (Constant.string s) = true

-- `pt->p[b]->nups`
unfoldable pub nups_of : {Number : Type 0} → Protos Number → ℕ → Verdict ℕ
nups_of end b = outside
nups_of (also (proto f fs) ps) zero = passed f.nups
nups_of (also p ps) (suc b) = nups_of ps b
