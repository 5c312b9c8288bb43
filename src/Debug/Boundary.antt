-- ===== src/Debug/Boundary.antt =====
-- What luaG_checkcode accepts as a whole, and where the jumps in it arrive.
use soft_renderer_lua.Base.{
  ℕ, zero, suc, ◌+◌, ◌-◌, ◌%◌, ◌≤◌, ◌<◌, ◌≡◌, ◌≢◌, ◌⊎◌, inl, inr, refl, sym, ap, subst, ◌∙◌, arith,
  true, false, some, get_elem?, get_elem?_of_lt, lt_of_get_elem?, Bool-cases, ltb→lt,
}
use soft_renderer_lua.Base.Int.{pos, ◌+ℤ◌}
use soft_renderer_lua.Opcodes.{get_opcode, getarg_sbx}
use soft_renderer_lua.Opcodes.Modes.{
  OpCode, op_jmp, op_forloop, op_forprep, op_number, cast_op_code,
}
use soft_renderer_lua.Chunk.{Code, Protos, proto}
use soft_renderer_lua.Debug.{
  Verdict, passed, outside, stuck, is_op, is_wide, wide_before, sizecode, precheck,
}
use soft_renderer_lua.Debug.Symbexec.{no_reg, symbexec, checkcode}
use soft_renderer_lua.Debug.Post.{
  Post, Post-passed, done, declined, bind-Post, check-Post, then-Post, fetch-Post, weaken-Post,
}
use soft_renderer_lua.Debug.Access.{Verified, Verified-Access, Passed, InBounds, Flagged, Jump}
use soft_renderer_lua.Debug.Checked.{wide_before-total, wide_before_on, wide_before_off}
use soft_renderer_lua.Debug.Walk.{
  EndsWithReturn, Follows, Reach, here, further, walk-Walked, cast_op_code-number,
}

Post-ne-outside :
    {A : Type 0} {Q : A → Type 0} (v : Verdict A) → Post Q v → (v ≢ outside) × (v ≢ stuck)
Post-ne-outside v (done q) = (λ e. cc, λ e. cc)
Post-ne-outside v declined = (λ e. cc, λ e. cc)

some-inj : {A : Type 0} {x y : A} → some x ≡ some y → x ≡ y
some-inj h = cc

passed-inj : {x y : ℕ} → passed x ≡ passed y → x ≡ y
passed-inj h = cc

pos-inj : {x y : ℕ} → pos x ≡ pos y → x ≡ y
pos-inj h = cc

module _ {Number : Type 0} (pt : Code Number) (ps : Protos Number) where
  precheck-Post : Post (λ (u : Unit {0}). EndsWithReturn pt) (precheck pt)
  unfolding precheck op_number
  precheck-Post = then-Post _ _ λ stack. then-Post _ _ λ params. then-Post _ _ λ varargs.
      then-Post _ _ λ ups. then-Post _ _ λ lines. then-Post _ _ λ some_code.
        let lt = ltb→lt _ _ some_code in
        bind-Post (fetch-Post pt.code (sizecode pt - 1) (omega arith))
          λ r at. weaken-Post (λ u h. (lt, (r, at, ground arith))) (check-Post (is_op r 30))

  symbexec-Post :
      (lastpc reg : ℕ)
      → lastpc ≤ sizecode pt
      → Post
          (λ i. reg ≡ no_reg → (p : ℕ) → Reach pt 0 p → p < lastpc → Passed pt ps p)
          (symbexec pt ps lastpc reg)
  unfolding symbexec
  symbexec-Post lastpc reg size = bind-Post (precheck-Post) λ u ends.
      bind-Post
        (walk-Walked pt ps reg lastpc lastpc 0 (sizecode pt - 1) ends size (omega (arith, ends.0))
          (omega arith))
        λ last walked. weaken-Post (λ i h. walked.all) (fetch-Post pt.code last walked.last_in)

  -- Symbolic execution of any function up to any of its instructions, tracing a register or not, ends and
  -- reads nothing outside the vectors of the function.
  pub symbexec-total :
      (lastpc reg : ℕ)
      → lastpc ≤ sizecode pt
      → (symbexec pt ps lastpc reg ≢ outside) × (symbexec pt ps lastpc reg ≢ stuck)
  symbexec-total lastpc reg size = Post-ne-outside _ (symbexec-Post lastpc reg size)

  -- The positions at which instructions start: the first, and each next one, where the count after a wide
  -- SETLIST is not one.
  abbrev pub Starts : ℕ → Type 0
  Starts p = Reach pt 0 p

  checkcode-Passed :
      checkcode (proto pt ps) ≡ passed true → (p : ℕ) → Starts p → p < sizecode pt → Passed pt ps p
  unfolding checkcode
  checkcode-Passed accepted =
      Post-passed {Q = λ b. (p : ℕ) → Starts p → p < sizecode pt → Passed pt ps p} accepted
        (bind-Post (symbexec-Post (sizecode pt) no_reg (omega arith)) λ i all. done (all refl))

  -- In a function that luaG_checkcode accepts, every instruction has an opcode and uses, in luaV_execute, only
  -- registers of the frame, constants of the right type, upvalues and nested functions that exist, and goes on
  -- only at places within the code. Of a LOADBOOL this needs that its C is 0 or 1: luaG_checkcode lets others
  -- through without a look at their jump. A TFORLOOP also writes to the extra slots above the frame.
  pub checkcode-InBounds :
      checkcode (proto pt ps) ≡ passed true
      → (p : ℕ) → Starts p
      → p < sizecode pt
      → Flagged pt p
      → InBounds pt ps p
  unfolding op_number
  checkcode-InBounds accepted p start lt flagged =
      let b = checkcode-Passed accepted p start lt in
      record {
        instruction = b.instruction;
        opcode = b.opcode;
        at = b.at;
        decodes = b.decodes;
        target = b.target;
        access =
            Verified-Access pt ps b.opcode p b.instruction
              (λ e.
                flagged b.instruction b.at
                  (cast_op_code-number _ b.opcode b.decodes ∙ ap op_number e))
              b.access;
        goes_on = b.goes_on;
      }

  Reach-further : {p q r : ℕ} → Reach pt p q → Follows pt q r → Reach pt p r
  Reach-further (here e) f = further (rw (← e) f) (here refl)
  Reach-further (further g rest) f = further g (Reach-further rest f)

  -- The count of a wide SETLIST, which is no instruction.
  abbrev Count : ℕ → Type 0
  Count p =
      (q : ℕ) × (p ≡ q + 1)
      × Starts q
      × ((i : ℕ) × (get_elem? pt.code q ≡ some i) × (is_wide pt i ≡ true))

  after_plain :
      (p i : ℕ) → get_elem? pt.code p ≡ some i → is_wide pt i ≡ false → Starts p → Starts (suc p)
  after_plain p i at plain start = Reach-further start (i, at, rw plain (omega arith))

  after-Count : (p : ℕ) → Count p → Starts (suc p)
  after-Count p (q, e, start, (i, at, wide)) = Reach-further start (i, at, rw wide (omega arith))

  -- Every word of the code is an instruction or such a count.
  word_kinds : (p : ℕ) → p ≤ sizecode pt → Starts p ⊎ Count p
  word_kinds zero le = inl (here refl)
  word_kinds (suc p) le = elim (word_kinds p (omega arith)) [
    | inr counted ↦ inl (after-Count p counted)
    | inl start ↦
        let (i, at) = get_elem?_of_lt pt.code p le in
        elim (Bool-cases (is_wide pt i)) [
          | inl wide ↦ inr (p, omega arith, start, (i, at, wide))
          | inr plain ↦ inl (after_plain p i at plain start)
        ]
  ]

  -- The parity of the wide words before a place tells which of the two it is.
  wide_before-Starts :
      (dest j : ℕ)
      → dest ≤ sizecode pt
      → wide_before pt dest ≡ passed j
      → (j % 2 ≡ 0 → Starts dest) × (j % 2 ≡ 1 → Count dest)
  unfolding wide_before
  wide_before-Starts zero j le run =
      (λ even. here refl, λ odd. absurd (omega (arith, passed-inj {x = 0} run)))
  wide_before-Starts (suc d) j le run =
      let (x, at) = get_elem?_of_lt pt.code d le in
      let (k, run') = wide_before-total pt d (omega arith) in
      let (if_even, if_odd) = wide_before-Starts d k (omega arith) run' in
      elim (Bool-cases (is_wide pt x)) [
        | inl wide ↦
            let e : j ≡ suc k = passed-inj (sym run ∙ wide_before_on pt d x k at wide run') in
            (
              λ even. after-Count d (if_odd (omega arith)),
              λ odd. (d, omega arith, if_even (omega arith), (x, at, wide)),
            )
        | inr plain ↦
            let e : j ≡ 0 = passed-inj (sym run ∙ wide_before_off pt d x at plain) in
            (
              λ even. elim (word_kinds d (omega arith)) [
                | inl start ↦ after_plain d x at plain start
                | inr counted ↦ after-Count d counted
              ],
              λ odd. absurd (omega arith),
            )
      ]

  Jump-of :
      (p i : ℕ) (op : OpCode)
      → cast_op_code (get_opcode i) ≡ some op
      → (get_opcode i ≡ op_number op_jmp)
        ⊎ ((get_opcode i ≡ op_number op_forloop) ⊎ (get_opcode i ≡ op_number op_forprep))
      → Verified pt ps op p i
      → Jump pt p (getarg_sbx i)
  unfolding cast_op_code op_number
  Jump-of p i op decodes (inl n) access =
      let e : op ≡ op_jmp = some-inj (sym decodes ∙ rw n refl) in
      subst (λ o. Verified pt ps o p i) e access
  Jump-of p i op decodes (inr (inl n)) access =
      let e : op ≡ op_forloop = some-inj (sym decodes ∙ rw n refl) in
      (subst (λ o. Verified pt ps o p i) e access).1
  Jump-of p i op decodes (inr (inr n)) access =
      let e : op ≡ op_forprep = some-inj (sym decodes ∙ rw n refl) in
      (subst (λ o. Verified pt ps o p i) e access).1

  -- In a function that luaG_checkcode accepts, a jump of a JMP, a FORLOOP or a FORPREP arrives at the start
  -- of an instruction of the function.
  pub jumps-Starts :
      checkcode (proto pt ps) ≡ passed true
      → (p i dest : ℕ) → Starts p
      → get_elem? pt.code p ≡ some i
      → (get_opcode i ≡ op_number op_jmp)
        ⊎ ((get_opcode i ≡ op_number op_forloop) ⊎ (get_opcode i ≡ op_number op_forprep))
      → pos (p + 1) +ℤ getarg_sbx i ≡ pos dest
      → (dest < sizecode pt) × Starts dest
  jumps-Starts accepted p i dest start at jumps target =
      let b = checkcode-Passed accepted p start (lt_of_get_elem? pt.code p i at) in
      let same : b.instruction ≡ i = some-inj (sym b.at ∙ at) in
      let (d, reached, within, (j, run, even)) =
        Jump-of p i b.opcode (rw (← same) b.decodes) jumps (rw (← same) b.access) in
      let e : d ≡ dest = pos-inj (sym reached ∙ target) in
      (rw (← e) within, rw (← e) ((wide_before-Starts d j (omega arith) run).0 even))
