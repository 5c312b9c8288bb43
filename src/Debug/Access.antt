-- ===== src/Debug/Access.antt =====
-- What luaV_execute of lvm.c reads and writes for an instruction: the registers of the frame, the
-- constants, the upvalues and the places that it goes on at.
use soft_renderer_lua.Base.{
  ℕ, ◌+◌, ◌%◌, ◌≤◌, ◌<◌, ◌≡◌, ◌⊎◌, ◌≢◌, refl, arith, ◌==◌, true, false, some, length, get_elem?,
}
use soft_renderer_lua.Base.Int.{ℤ, pos, ◌+ℤ◌}
use soft_renderer_lua.Opcodes.{
  get_opcode, getarg_a, getarg_b, getarg_c, getarg_bx, getarg_sbx, isk, indexk,
}
use soft_renderer_lua.Opcodes.Modes.{
  OpArgMask, op_arg_n, op_arg_u, op_arg_r, op_arg_k, OpCode, op_move, op_loadk, op_loadbool,
  op_loadnil, op_getupval, op_getglobal, op_gettable, op_setglobal, op_setupval, op_settable,
  op_newtable, op_self, op_add, op_sub, op_mul, op_div, op_mod, op_pow, op_unm, op_not, op_len,
  op_concat, op_jmp, op_eq, op_lt, op_le, op_test, op_testset, op_call, op_tailcall, op_return,
  op_forloop, op_forprep, op_tforloop, op_setlist, op_close, op_closure, op_vararg, op_number,
  cast_op_code,
}
use soft_renderer_lua.Chunk.{Code, Protos}
use soft_renderer_lua.Debug.{passed, sizecode, wide_before, is_string, nups_of}

-- EXTRA_STACK of lstate.h
abbrev pub extra_stack : ℕ
extra_stack = 5

module _ {Number : Type 0} (pt : Code Number) where
  abbrev pub Register : ℕ → Type 0
  Register r = r < pt.maxstacksize

  -- A slot of the frame or of the EXTRA_STACK slots that the stack always has above it.
  abbrev pub Scratch : ℕ → Type 0
  Scratch r = r < pt.maxstacksize + extra_stack

  abbrev pub KnownConstant : ℕ → Type 0
  KnownConstant x = x < length pt.k

  -- RK(x): a constant or a register
  abbrev pub Value : ℕ → Type 0
  Value x = (isk x ≡ true → KnownConstant (indexk x)) × (isk x ≡ false → Register x)

  abbrev pub StringConstant : ℕ → Type 0
  StringConstant x = (c : _) × (get_elem? pt.k x ≡ some c) × (is_string c ≡ true)

  -- A place in the code that is reached by a jump, with an even number of wide SETLIST words before it.
  abbrev pub Jump : ℕ → ℤ → Type 0
  Jump pc jump =
      (dest : ℕ) × (pos (pc + 1) +ℤ jump ≡ pos dest)
      × (dest < sizecode pt)
      × ((j : ℕ) × (wide_before pt dest ≡ passed j) × (j % 2 ≡ 0))

  -- The next instruction is a jump, and the one after it exists.
  abbrev pub Skip : ℕ → Type 0
  Skip pc =
      (pc + 2 < sizecode pt)
      × ((d : ℕ) × (get_elem? pt.code (pc + 1) ≡ some d) × (get_opcode d ≡ 22))

  -- The next instruction takes the values up to the top of the stack.
  abbrev pub OpenNext : ℕ → Type 0
  OpenNext pc = (d : ℕ) × (get_elem? pt.code (pc + 1) ≡ some d) × (getarg_b d ≡ 0)

  -- The word is a MOVE (0) or a GETUPVAL (4).
  abbrev pub Capture : ℕ → Type 0
  Capture pc = (d : ℕ) × (get_elem? pt.code pc ≡ some d) × ((get_opcode d ≡ 4) ⊎ (get_opcode d ≡ 0))

  -- `a` to `a + b - 1` are the called function and its arguments, `a` to `a + c - 2` the results.
  abbrev pub Call : ℕ → ℕ → ℕ → ℕ → Type 0
  Call pc a b c =
      (0 < b → a + b ≤ pt.maxstacksize)
      × (2 ≤ c → a + c ≤ pt.maxstacksize + 1)
      × (c ≡ 0 → OpenNext pc)

  -- The words behind a CLOSURE, one for each upvalue, say what it captures; execution goes on behind them.
  abbrev pub Closes : Protos Number → ℕ → ℕ → Type 0
  Closes ps pc b =
      (nup : ℕ) × (nups_of ps b ≡ passed nup)
      × (pc + nup + 1 < sizecode pt)
      × ((j : ℕ) → 0 < j → j ≤ nup → Capture (pc + j))

  abbrev pub Access : Protos Number → OpCode → ℕ → ℕ → Type 0
  Access ps op_move pc i = Register (getarg_b i)
  Access ps op_loadk pc i = KnownConstant (getarg_bx i)
  Access ps op_loadbool pc i = getarg_c i ≢ 0 → pc + 2 < sizecode pt
  Access ps op_loadnil pc i = Register (getarg_b i)
  Access ps op_getupval pc i = getarg_b i < pt.nups
  Access ps op_setupval pc i = getarg_b i < pt.nups
  Access ps op_getglobal pc i = StringConstant (getarg_bx i)
  Access ps op_setglobal pc i = StringConstant (getarg_bx i)
  Access ps op_gettable pc i = Register (getarg_b i) × Value (getarg_c i)
  Access ps op_settable pc i = Value (getarg_b i) × Value (getarg_c i)
  Access ps op_newtable pc i = Unit
  Access ps op_self pc i = Register (getarg_b i) × Value (getarg_c i) × Register (getarg_a i + 1)
  Access ps op_add pc i = Value (getarg_b i) × Value (getarg_c i)
  Access ps op_sub pc i = Value (getarg_b i) × Value (getarg_c i)
  Access ps op_mul pc i = Value (getarg_b i) × Value (getarg_c i)
  Access ps op_div pc i = Value (getarg_b i) × Value (getarg_c i)
  Access ps op_mod pc i = Value (getarg_b i) × Value (getarg_c i)
  Access ps op_pow pc i = Value (getarg_b i) × Value (getarg_c i)
  Access ps op_unm pc i = Register (getarg_b i)
  Access ps op_not pc i = Register (getarg_b i)
  Access ps op_len pc i = Register (getarg_b i)
  Access ps op_concat pc i =
      Register (getarg_b i) × Register (getarg_c i) × (getarg_b i < getarg_c i)
  Access ps op_jmp pc i = Jump pc (getarg_sbx i)
  Access ps op_eq pc i = Value (getarg_b i) × Value (getarg_c i) × Skip pc
  Access ps op_lt pc i = Value (getarg_b i) × Value (getarg_c i) × Skip pc
  Access ps op_le pc i = Value (getarg_b i) × Value (getarg_c i) × Skip pc
  Access ps op_test pc i = Skip pc
  Access ps op_testset pc i = Register (getarg_b i) × Skip pc
  Access ps op_call pc i = Call pc (getarg_a i) (getarg_b i) (getarg_c i)
  Access ps op_tailcall pc i = Call pc (getarg_a i) (getarg_b i) (getarg_c i)
  Access ps op_return pc i = 2 ≤ getarg_b i → getarg_a i + getarg_b i ≤ pt.maxstacksize + 1
  Access ps op_forloop pc i = Register (getarg_a i + 3) × Jump pc (getarg_sbx i)
  Access ps op_forprep pc i = Register (getarg_a i + 3) × Jump pc (getarg_sbx i)
  Access ps op_tforloop pc i =
      Register (getarg_a i + 3)
      × Scratch (getarg_a i + 5)
      × (1 ≤ getarg_c i)
      × Register (getarg_a i + 2 + getarg_c i)
      × Skip pc
  Access ps op_setlist pc i =
      (0 < getarg_b i → Register (getarg_a i + getarg_b i))
      × (getarg_c i ≡ 0 → pc + 2 < sizecode pt)
  Access ps op_close pc i = Unit
  Access ps op_closure pc i = Closes ps pc (getarg_bx i)
  Access ps op_vararg pc i =
      (getarg_a i + getarg_b i ≤ pt.maxstacksize + 1) × (getarg_b i ≡ 0 → OpenNext pc)

  -- What symbexec makes sure of. It looks at the jump of a LOADBOOL for C = 1 only, where luaV_execute jumps for
  -- every C but 0.
  abbrev pub Verified : Protos Number → OpCode → ℕ → ℕ → Type 0
  Verified ps op_loadbool pc i = getarg_c i ≡ 1 → pc + 2 < sizecode pt
  Verified ps op pc i = Access ps op pc i

  pub Verified-Access :
      (ps : Protos Number) (op : OpCode) (pc i : ℕ)
      → (op ≡ op_loadbool → getarg_c i ≤ 1)
      → Verified ps op pc i
      → Access ps op pc i
  Verified-Access ps op_loadbool pc i flag v = λ jumps. v (omega (arith, flag refl, jumps))
  Verified-Access ps op pc i flag v = v

  -- The instruction at a position has an opcode, and has been checked.
  pub record Passed (ps : Protos Number) (pc : ℕ) : Type 0 where
    pub instruction : ℕ
    pub opcode : OpCode
    pub at : get_elem? pt.code pc ≡ some instruction
    pub decodes : cast_op_code (get_opcode instruction) ≡ some opcode
    pub target : Register (getarg_a instruction)
    pub access : Verified ps opcode pc instruction
    pub goes_on : (get_opcode instruction == 30) ≡ false → pc + 1 < sizecode pt

  -- The instruction at a position has an opcode, and what luaV_execute uses for it is there. A RETURN is 30.
  pub record InBounds (ps : Protos Number) (pc : ℕ) : Type 0 where
    pub instruction : ℕ
    pub opcode : OpCode
    pub at : get_elem? pt.code pc ≡ some instruction
    pub decodes : cast_op_code (get_opcode instruction) ≡ some opcode
    pub target : Register (getarg_a instruction)
    pub access : Access ps opcode pc instruction
    pub goes_on : (get_opcode instruction == 30) ≡ false → pc + 1 < sizecode pt

  -- If the instruction is a LOADBOOL (2), it jumps over none or one instruction by a C of 0 or 1, as the code
  -- generator writes it.
  abbrev pub Flagged : ℕ → Type 0
  Flagged pc =
      (i : ℕ)
      → get_elem? pt.code pc ≡ some i
      → get_opcode i ≡ op_number op_loadbool
      → getarg_c i ≤ 1

  -- What the operand modes of lopcodes.c promise of `b` and `c`.
  abbrev pub Operand : OpArgMask → ℕ → Type 0
  Operand op_arg_n r = r ≡ 0
  Operand op_arg_u r = Unit
  Operand op_arg_r r = Register r
  Operand op_arg_k r = Value r
