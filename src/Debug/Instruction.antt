-- ===== src/Debug/Instruction.antt =====
-- What the last switch of symbexec makes sure of for an instruction that passes.
use soft_renderer_lua.Base.{
  ℕ, zero, suc, ◌⊎◌, get_elem?, ◌+◌, ◌≤◌, ◌<◌, ◌≡◌, inl, inr, refl, arith, Bool, true, false, ◌==◌,
  ltb, if◌then◌else◌, some, ltb→lt, leb→le,
}
use soft_renderer_lua.Base.Int.{ℤ, pos, negsuc}
use soft_renderer_lua.Opcodes.{get_opcode, getarg_a, getarg_b, getarg_c}
use soft_renderer_lua.Opcodes.Modes.{
  OpCode, op_move, op_loadk, op_loadbool, op_loadnil, op_getupval, op_getglobal, op_gettable,
  op_setglobal, op_setupval, op_settable, op_newtable, op_self, op_add, op_sub, op_mul, op_div,
  op_mod, op_pow, op_unm, op_not, op_len, op_concat, op_jmp, op_eq, op_lt, op_le, op_test,
  op_testset, op_call, op_tailcall, op_return, op_forloop, op_forprep, op_tforloop, op_setlist,
  op_close, op_closure, op_vararg, op_number, get_op_mode, get_b_mode, get_c_mode, test_t_mode,
}
use soft_renderer_lua.Chunk.{Code, Protos}
use soft_renderer_lua.Debug.{sizecode, is_wide}
use soft_renderer_lua.Debug.Symbexec.{Operands, no_reg, follow, setlist_count, check_op}
use soft_renderer_lua.Debug.Post.{
  Post, done, bind-Post, check-Post, then-Post, fetch-Post, if-Post, weaken-Post,
}
use soft_renderer_lua.Debug.Access.{Register, Skip, OpenNext, Capture, Verified}
use soft_renderer_lua.Debug.Checked.{
  checkreg-Post, room-Post, checkopenop-Post, captures-Post, check_call-Post, nups_of-Post,
}
use soft_renderer_lua.Debug.Operands.{Args}

module _ {Number : Type 0} (pt : Code Number) where
  -- Where the loop goes on, and what `last` is.
  pub record Moved (reg pc i : ℕ) (s : ℕ × ℕ) : Type 0 where
    pub last_in : s.1 < sizecode pt
    pub ahead : pc ≤ s.0
    pub next : reg ≡ no_reg → s.0 ≡ (if is_wide pt i then pc + 1 else pc)

  -- Only a return can stand at the end of the code.
  abbrev pub Successors : Type 0
  Successors =
      (q d : ℕ)
      → q < sizecode pt
      → get_elem? pt.code q ≡ some d
      → (get_opcode d == 30) ≡ false
      → q + 1 < sizecode pt

  behind_captures :
      (pc nup : ℕ)
      → Successors
      → pc + nup < sizecode pt
      → pc + 1 < sizecode pt
      → ((j : ℕ) → 0 < j → j ≤ nup → Capture pt (pc + j))
      → pc + nup + 1 < sizecode pt
  behind_captures pc zero later lt next all = omega (arith, next)
  behind_captures pc (suc n) later lt next all =
      let (d, at, kind) = all (suc n) (omega arith) (omega arith) in
      later (pc + suc n) d lt at (no_return d kind)
    where
      no_return : (d : ℕ) → (get_opcode d ≡ 4) ⊎ (get_opcode d ≡ 0) → (get_opcode d == 30) ≡ false
      no_return d (inl e) = rw e refl
      no_return d (inr e) = rw e refl

  module _ (ps : Protos Number) (reg lastpc pc i last : ℕ) (inside : pc < sizecode pt)
      (old : last < sizecode pt) (inner : (get_opcode i == 30) ≡ false → pc + 1 < sizecode pt)
      (later : Successors) where
    pick : (b : Bool) → (if b then pc else last) < sizecode pt
    pick true = inside
    pick false = old

    stay : (l : ℕ) → (get_opcode i == 34) ≡ false → l < sizecode pt → Moved reg pc i (pc, l)
    stay l plain lt = record { last_in = lt; ahead = omega arith; next = λ h. rw plain refl }

    followed :
        (target : ℤ)
        → (get_opcode i == 34) ≡ false
        → Moved reg pc i (follow reg lastpc pc target, last)
    unfolding follow
    followed target plain = record {
      last_in = old;
      ahead = bound target;
      next = λ h. rw plain (same target h);
    }
      where
        bound : (t : ℤ) → pc ≤ follow reg lastpc pc t
        bound (negsuc n) = omega arith
        bound (pos dest) = ground arith

        same : (t : ℤ) → reg ≡ no_reg → follow reg lastpc pc t ≡ pc
        same (negsuc n) h = refl
        same (pos dest) h = ground arith

    abbrev pub Passes : OpCode → ℕ × ℕ → Type 0
    Passes op s = Verified pt ps op pc i × Moved reg pc i s

    skip_captures :
        (nup : ℕ)
        → pc + nup < sizecode pt
        → (get_opcode i == 34) ≡ false
        → Moved reg pc i ((if reg == no_reg then pc else pc + nup), last)
    skip_captures nup lt plain = record {
      last_in = old;
      ahead = ground arith;
      next = λ h. rw plain (ground arith);
    }

    setlist-Post :
        (o : Operands)
        → (0 < getarg_b i → Register pt (getarg_a i + getarg_b i))
        → o.c ≡ getarg_c i
        → get_opcode i ≡ 34
        → Post (Passes op_setlist) (setlist_count pt pc o.c last)
    unfolding setlist_count
    setlist-Post o h ec num =
        if-Post (o.c == 0)
          (λ e. then-Post _ _ λ lt. done (
            (h, λ k. ground arith),
            record { last_in = old; ahead = omega arith; next = λ k. rw (num, ← ec, e) refl },
          ))
          (λ e. done (
            (h, λ k. absurd (ground arith)),
            record { last_in = old; ahead = omega arith; next = λ k. rw (num, ← ec, e) refl },
          ))

    pub check_op-Post :
        (op : OpCode) (o : Operands)
        → Args pt (get_op_mode op) (get_b_mode op) (get_c_mode op) pc i o
        → (test_t_mode op ≡ true → Skip pt pc)
        → get_opcode i ≡ op_number op
        → Post (Passes op) (check_op pt ps reg lastpc op pc (getarg_a i) o last)
    unfolding check_op get_op_mode get_b_mode get_c_mode test_t_mode op_number
    check_op-Post op_move o (eb, ec, hb, hc) skip num = done (hb, stay last (rw num refl) old)
    check_op-Post op_loadk o (eb, hb) skip num = done (hb refl, stay last (rw num refl) old)
    check_op-Post op_loadbool o (eb, ec, hb, hc) skip num =
        bind-Post {Q = λ u. getarg_c i ≡ 1 → pc + 2 < sizecode pt}
          (if-Post (o.c == 1)
            (λ e. then-Post _ _ λ lt.
              bind-Post (fetch-Post pt.code (pc + 1) (ground arith))
                λ d h. weaken-Post (λ u k m. ltb→lt _ _ lt) (check-Post _))
            (λ e. done λ m. absurd (ground arith)))
          λ u jump. done (jump, stay last (rw num refl) old)
    check_op-Post op_loadnil o (eb, ec, hb, hc) skip num = done (hb, stay _ (rw num refl) (pick _))
    check_op-Post op_getupval o (eb, ec, hb, hc) skip num =
        then-Post _ _ λ h. done (rw (← eb) (ltb→lt _ _ h), stay last (rw num refl) old)
    check_op-Post op_setupval o (eb, ec, hb, hc) skip num =
        then-Post _ _ λ h. done (rw (← eb) (ltb→lt _ _ h), stay last (rw num refl) old)
    check_op-Post op_getglobal o (eb, hb) skip num =
        bind-Post (fetch-Post pt.k o.b (rw eb (hb refl)))
          λ k h. then-Post _ _ λ text. done ((k, rw (← eb) h, text), stay last (rw num refl) old)
    check_op-Post op_setglobal o (eb, hb) skip num =
        bind-Post (fetch-Post pt.k o.b (rw eb (hb refl)))
          λ k h. then-Post _ _ λ text. done ((k, rw (← eb) h, text), stay last (rw num refl) old)
    check_op-Post op_gettable o (eb, ec, hb, hc) skip num =
        done ((hb, hc), stay last (rw num refl) old)
    check_op-Post op_settable o (eb, ec, hb, hc) skip num =
        done ((hb, hc), stay last (rw num refl) old)
    check_op-Post op_add o (eb, ec, hb, hc) skip num = done ((hb, hc), stay last (rw num refl) old)
    check_op-Post op_sub o (eb, ec, hb, hc) skip num = done ((hb, hc), stay last (rw num refl) old)
    check_op-Post op_mul o (eb, ec, hb, hc) skip num = done ((hb, hc), stay last (rw num refl) old)
    check_op-Post op_div o (eb, ec, hb, hc) skip num = done ((hb, hc), stay last (rw num refl) old)
    check_op-Post op_mod o (eb, ec, hb, hc) skip num = done ((hb, hc), stay last (rw num refl) old)
    check_op-Post op_pow o (eb, ec, hb, hc) skip num = done ((hb, hc), stay last (rw num refl) old)
    check_op-Post op_newtable o (eb, ec, hb, hc) skip num = done (tt, stay last (rw num refl) old)
    check_op-Post op_self o (eb, ec, hb, hc) skip num =
        bind-Post (checkreg-Post pt (getarg_a i + 1))
          λ u h. done ((hb, hc, h), stay _ (rw num refl) (pick _))
    check_op-Post op_unm o (eb, ec, hb, hc) skip num = done (hb, stay last (rw num refl) old)
    check_op-Post op_not o (eb, ec, hb, hc) skip num = done (hb, stay last (rw num refl) old)
    check_op-Post op_len o (eb, ec, hb, hc) skip num = done (hb, stay last (rw num refl) old)
    check_op-Post op_concat o (eb, ec, hb, hc) skip num =
        then-Post _ _
          λ h. done ((hb, hc, rw (← eb, ← ec) (ltb→lt _ _ h)), stay last (rw num refl) old)
    check_op-Post op_jmp o (eb, hb) skip num = done (hb refl, followed _ (rw num refl))
    check_op-Post op_eq o (eb, ec, hb, hc) skip num =
        done ((hb, hc, skip refl), stay last (rw num refl) old)
    check_op-Post op_lt o (eb, ec, hb, hc) skip num =
        done ((hb, hc, skip refl), stay last (rw num refl) old)
    check_op-Post op_le o (eb, ec, hb, hc) skip num =
        done ((hb, hc, skip refl), stay last (rw num refl) old)
    check_op-Post op_test o (eb, ec, hb, hc) skip num =
        done (skip refl, stay last (rw num refl) old)
    check_op-Post op_testset o (eb, ec, hb, hc) skip num =
        done ((hb, skip refl), stay last (rw num refl) old)
    check_op-Post op_call o (eb, ec, hb, hc) skip num =
        bind-Post (check_call-Post pt pc (getarg_a i) o.b o.c (inner (rw num refl)))
          λ u h. done (rw (← eb, ← ec) h, stay _ (rw num refl) (pick _))
    check_op-Post op_tailcall o (eb, ec, hb, hc) skip num =
        bind-Post (check_call-Post pt pc (getarg_a i) o.b o.c (inner (rw num refl)))
          λ u h. done (rw (← eb, ← ec) h, stay _ (rw num refl) (pick _))
    check_op-Post op_return o (eb, ec, hb, hc) skip num =
        bind-Post {Q = λ u. 2 ≤ getarg_b i → getarg_a i + getarg_b i ≤ pt.maxstacksize + 1}
          (if-Post (ltb 1 o.b) (λ e. weaken-Post (λ u h k. omega arith) (room-Post pt _ 2))
            (λ e. done λ k. absurd (ground arith)))
          λ u h. done (h, stay last (rw num refl) old)
    check_op-Post op_forloop o (eb, hb) skip num =
        bind-Post (checkreg-Post pt (getarg_a i + 3))
          λ u h. done ((h, hb refl), followed _ (rw num refl))
    check_op-Post op_forprep o (eb, hb) skip num =
        bind-Post (checkreg-Post pt (getarg_a i + 3))
          λ u h. done ((h, hb refl), followed _ (rw num refl))
    check_op-Post op_tforloop o (eb, ec, hb, hc) skip num = then-Post _ _ λ one.
        bind-Post (checkreg-Post pt (getarg_a i + 2 + o.c)) λ u h.
          let c : 1 ≤ getarg_c i = rw (← ec) (leb→le _ _ one) in
          let top : Register pt (getarg_a i + 2 + getarg_c i) = rw (← ec) h in
          done (
            (omega (arith, c, top), omega (arith, c, top), c, top, skip refl),
            stay _ (rw num refl) (pick _),
          )
    check_op-Post op_setlist o (eb, ec, hb, hc) skip num =
        bind-Post {Q = λ u. 0 < getarg_b i → Register pt (getarg_a i + getarg_b i)}
          (if-Post (ltb 0 o.b) (λ e. rw eb (weaken-Post (λ u h k. h) (checkreg-Post pt _)))
            (λ e. done λ k. absurd (ground arith)))
          λ u h. setlist-Post o h ec num
    check_op-Post op_close o (eb, ec, hb, hc) skip num = done (tt, stay last (rw num refl) old)
    check_op-Post op_closure o (eb, hb) skip num = then-Post _ _ λ known.
        bind-Post (nups_of-Post ps o.b (ltb→lt _ _ known)) λ nup run. then-Post _ _ λ room.
          bind-Post (captures-Post pt nup pc (ltb→lt _ _ room)) λ u all. done (
            (
              nup,
              rw (← eb) run,
              behind_captures pc nup later (ltb→lt _ _ room) (inner (rw num refl)) all,
              all,
            ),
            skip_captures nup (ltb→lt _ _ room) (rw num refl),
          )
    check_op-Post op_vararg o (eb, ec, hb, hc) skip num = then-Post _ _ λ h.
        bind-Post {Q = λ u. getarg_b i ≡ 0 → OpenNext pt pc}
          (if-Post (o.b == 0)
            (λ e. weaken-Post (λ u next k. next) (checkopenop-Post pt pc (inner (rw num refl))))
            (λ e. done λ k. absurd (ground arith)))
          λ u next.
            bind-Post (room-Post pt (getarg_a i + o.b) 2)
              λ v top. done ((omega arith, next), stay last (rw num refl) old)
