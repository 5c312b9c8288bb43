-- ===== src/Debug/Symbexec.antt =====
-- symbexec and luaG_checkcode of ldebug.c.
use soft_renderer_lua.Base.{
  ℕ, zero, suc, ◌+◌, ◌-◌, Bool, true, false, ◌&&◌, ◌||◌, not, ◌==◌, ltb, leb, if◌then◌else◌, Option,
  none, some, length,
}
use soft_renderer_lua.Base.Int.{ℤ, pos, negsuc, ◌+ℤ◌}
use soft_renderer_lua.Opcodes.{
  get_opcode, getarg_a, getarg_b, getarg_c, getarg_bx, getarg_sbx, maxarg_a,
}
use soft_renderer_lua.Opcodes.Modes.{
  OpMode, i_abc, i_abx, i_asbx, OpArgMask, op_arg_r, op_arg_k, OpCode, op_loadbool, op_loadnil,
  op_getupval, op_getglobal, op_setglobal, op_setupval, op_self, op_concat, op_jmp, op_call,
  op_tailcall, op_return, op_forloop, op_forprep, op_tforloop, op_setlist, op_closure, op_vararg,
  op_number, cast_op_code, get_op_mode, get_b_mode, get_c_mode, test_a_mode, test_t_mode,
}
use soft_renderer_lua.Chunk.{Code, Proto, Protos, proto, count}
use soft_renderer_lua.Debug.{
  Verdict, passed, refused, outside, stuck, ◌>>=◌, ◌>>◌, check, found, fetch, vararg_isvararg,
  vararg_needsarg, has, is_op, sizecode, checkreg, precheck, checkopenop, check_arg_mode, is_wide,
  check_dest, captures, is_string, nups_of,
}

-- NO_REG
abbrev pub no_reg : ℕ
no_reg = maxarg_a

-- `b` and `c`. A signed `b` is `jump`, and `b` is then 0.
pub record Operands : Type 0 where
  pub b : ℕ
  pub c : ℕ
  pub jump : ℤ

abbrev pub is_mask_k : Option OpArgMask → Bool
is_mask_k (some op_arg_k) = true
is_mask_k _ = false

abbrev pub is_mask_r : Option OpArgMask → Bool
is_mask_r (some op_arg_r) = true
is_mask_r _ = false

-- The case of OP_JMP, where the other loop opcodes end too: when tracing, a forward jump that does not
-- go past `lastpc` is made.
unfoldable pub follow : ℕ → ℕ → ℕ → ℤ → ℕ
follow reg lastpc pc (negsuc n) = pc
follow reg lastpc pc (pos dest) =
    if not (reg == no_reg) && (ltb pc dest && leb dest lastpc) then dest - 1 else pc

module _ {Number : Type 0} (pt : Code Number) where
  -- The first switch, over the format of the instruction. The table has a mode for every opcode.
  unfoldable pub operands_of : Option OpMode → OpCode → ℕ → ℕ → Verdict Operands
  operands_of (some i_abc) op pc i = do
    mb ← found (get_b_mode op)
    mc ← found (get_c_mode op)
    check_arg_mode pt (getarg_b i) mb
    check_arg_mode pt (getarg_c i) mc
    passed (record { b = getarg_b i; c = getarg_c i; jump = pos (getarg_b i) })
  operands_of (some i_abx) op pc i = do
    check (not (is_mask_k (get_b_mode op)) || ltb (getarg_bx i) (length pt.k))
    passed (record { b = getarg_bx i; c = 0; jump = pos (getarg_bx i) })
  operands_of (some i_asbx) op pc i = do
    (if is_mask_r (get_b_mode op) then check_dest pt (pos (pc + 1) +ℤ getarg_sbx i) else passed tt)
    passed (record { b = 0; c = 0; jump = getarg_sbx i })
  operands_of none op pc i = refused

  -- A checkreg of `a + b - 1` or `a + b - 2`, which may be negative: `a + b < maxstacksize + 1`, or 2.
  unfoldable pub room : ℕ → ℕ → Verdict (Unit {0})
  room top less = check (ltb top (pt.maxstacksize + less))

  -- OP_CALL and OP_TAILCALL
  unfoldable pub check_call : ℕ → ℕ → ℕ → ℕ → Verdict (Unit {0})
  check_call pc a b c = do
    (if b == 0 then passed tt else room (a + b) 1)
    if c == 0 then checkopenop pt pc else if c == 1 then passed tt else room (a + c) 2

  -- OP_SETLIST: a count in the next word is skipped.
  unfoldable pub setlist_count : ℕ → ℕ → ℕ → Verdict (ℕ × ℕ)
  setlist_count pc c last =
      if c == 0
      then (do check (ltb (pc + 1) (sizecode pt - 1)); passed (pc + 1, last))
      else passed (pc, last)

  -- The last switch: the new `pc` and `last`.
  unfoldable pub check_op : Protos Number → ℕ → ℕ → OpCode → ℕ → ℕ → Operands → ℕ → Verdict (ℕ × ℕ)
  check_op ps reg lastpc op_loadbool pc a o last = do
    (if o.c == 1
        then (do
          check (ltb (pc + 2) (sizecode pt))
          i ← fetch pt.code (pc + 1)
          check (not (is_wide pt i)))
        else passed tt)
    passed (pc, last)
  check_op ps reg lastpc op_loadnil pc a o last =
      passed (pc, if leb a reg && leb reg o.b then pc else last)
  check_op ps reg lastpc op_getupval pc a o last = do check (ltb o.b pt.nups); passed (pc, last)
  check_op ps reg lastpc op_setupval pc a o last = do check (ltb o.b pt.nups); passed (pc, last)
  check_op ps reg lastpc op_getglobal pc a o last = do
    k ← fetch pt.k o.b
    check (is_string k)
    passed (pc, last)
  check_op ps reg lastpc op_setglobal pc a o last = do
    k ← fetch pt.k o.b
    check (is_string k)
    passed (pc, last)
  check_op ps reg lastpc op_self pc a o last = do
    checkreg pt (a + 1)
    passed (pc, if reg == a + 1 then pc else last)
  check_op ps reg lastpc op_concat pc a o last = do check (ltb o.b o.c); passed (pc, last)
  check_op ps reg lastpc op_tforloop pc a o last = do
    check (leb 1 o.c)
    checkreg pt (a + 2 + o.c)
    passed (pc, if leb (a + 2) reg then pc else last)
  check_op ps reg lastpc op_forloop pc a o last = do
    checkreg pt (a + 3)
    passed (follow reg lastpc pc (pos (pc + 1) +ℤ o.jump), last)
  check_op ps reg lastpc op_forprep pc a o last = do
    checkreg pt (a + 3)
    passed (follow reg lastpc pc (pos (pc + 1) +ℤ o.jump), last)
  check_op ps reg lastpc op_jmp pc a o last =
      passed (follow reg lastpc pc (pos (pc + 1) +ℤ o.jump), last)
  check_op ps reg lastpc op_call pc a o last = do
    check_call pc a o.b o.c
    passed (pc, if leb a reg then pc else last)
  check_op ps reg lastpc op_tailcall pc a o last = do
    check_call pc a o.b o.c
    passed (pc, if leb a reg then pc else last)
  check_op ps reg lastpc op_return pc a o last = do
    (if ltb 1 o.b then room (a + o.b) 2 else passed tt)
    passed (pc, last)
  check_op ps reg lastpc op_setlist pc a o last = do
    (if ltb 0 o.b then checkreg pt (a + o.b) else passed tt)
    setlist_count pc o.c last
  check_op ps reg lastpc op_closure pc a o last = do
    check (ltb o.b (count ps))
    nup ← nups_of ps o.b
    check (ltb (pc + nup) (sizecode pt))
    captures pt nup pc
    passed ((if reg == no_reg then pc else pc + nup), last)
  check_op ps reg lastpc op_vararg pc a o last = do
    check (has pt.is_vararg vararg_isvararg && not (has pt.is_vararg vararg_needsarg))
    (if o.b == 0 then checkopenop pt pc else passed tt)
    room (a + o.b) 2
    passed (pc, last)
  check_op ps reg lastpc _ pc a o last = passed (pc, last)

  -- `if (testTMode(op)) {...}`
  unfoldable pub check_skip : OpCode → ℕ → Verdict (Unit {0})
  unfolding op_number
  check_skip op pc =
      if test_t_mode op
      then (do
        check (ltb (pc + 2) (sizecode pt))
        i ← fetch pt.code (pc + 1)
        check (is_op i (op_number op_jmp)))
      else passed tt

  unfoldable pub check_instruction :
      Protos Number → ℕ → ℕ → Option OpCode → ℕ → ℕ → ℕ → Verdict (ℕ × ℕ)
  check_instruction ps reg lastpc none i pc last = refused
  check_instruction ps reg lastpc (some op) i pc last = do
    checkreg pt (getarg_a i)
    o ← operands_of (get_op_mode op) op pc i
    check_skip op pc
    check_op ps reg lastpc op pc (getarg_a i) o
        (if test_a_mode op && getarg_a i == reg then pc else last)

  -- The body of the loop of symbexec
  unfoldable pub step : Protos Number → ℕ → ℕ → ℕ → ℕ → Verdict (ℕ × ℕ)
  step ps reg lastpc pc last = do
    i ← fetch pt.code pc
    check_instruction ps reg lastpc (cast_op_code (get_opcode i)) i pc last

  -- The loop, from `pc` on.
  unfoldable pub walk : Protos Number → ℕ → ℕ → ℕ → ℕ → ℕ → Verdict ℕ
  walk ps reg lastpc zero pc last = if ltb pc lastpc then stuck else passed last
  walk ps reg lastpc (suc fuel) pc last = elim (ltb pc lastpc) [
    | false ↦ passed last
    | true ↦ step ps reg lastpc pc last >>= λ s. walk ps reg lastpc fuel (s.0 + 1) s.1
  ]

  -- symbexec. Each round takes an instruction at least, so `lastpc` rounds are enough.
  unfoldable pub symbexec : Protos Number → ℕ → ℕ → Verdict ℕ
  symbexec ps lastpc reg = do
    precheck pt
    last ← walk ps reg lastpc lastpc 0 (sizecode pt - 1)
    fetch pt.code last

-- `symbexec(pt, pt->sizecode, NO_REG) != 0`, where `refused` is the other 0.
unfoldable pub checkcode : {Number : Type 0} → Proto Number → Verdict Bool
checkcode (proto f ps) = do i ← symbexec f ps (sizecode f) no_reg; passed (not (i == 0))

-- The answer as the condition in LoadFunction.
unfoldable pub accepts : {Number : Type 0} → Proto Number → Bool
accepts f = elim (checkcode f) [ passed b ↦ b | refused ↦ false | outside ↦ false | stuck ↦ false ]
