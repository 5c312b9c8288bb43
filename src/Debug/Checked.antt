-- ===== src/Debug/Checked.antt =====
-- Each check of symbexec gives what the machine relies on.
use soft_renderer_lua.Base.{
  ℕ, zero, suc, ◌+◌, ◌%◌, ◌≤◌, ◌<◌, ◌≡◌, ◌⊎◌, inl, inr, refl, arith, Bool, true, false, ◌&&◌, ◌||◌,
  not, ◌==◌, ltb, some, get_elem?, get_elem?_of_lt, Bool-cases,
}
use soft_renderer_lua.Base.Int.{ℤ, pos, negsuc, ◌+ℤ◌}
use soft_renderer_lua.Opcodes.{getarg_b}
use soft_renderer_lua.Opcodes.Modes.{
  OpArgMask, op_arg_n, op_arg_u, op_arg_r, op_arg_k, OpCode, op_number, test_t_mode,
}
use soft_renderer_lua.Chunk.{Code, Protos, proto, end, also, count}
use soft_renderer_lua.Debug.{
  Verdict, passed, ◌>>=◌, fetch, is_op, sizecode, checkreg, checkopenop, check_arg_mode, is_wide,
  wide_before, check_dest, captures, nups_of,
}
use soft_renderer_lua.Debug.Symbexec.{room, check_call, check_skip}
use soft_renderer_lua.Debug.Post.{
  Post, done, declined, bind-Post, check-Post, then-Post, fetch-Post, if-Post, weaken-Post,
}
use soft_renderer_lua.Debug.Access.{Register, Jump, Skip, OpenNext, Capture, Call, Operand}

and-true : (a b : Bool) → (a && b) ≡ true → (a ≡ true) × (b ≡ true)
and-true true b h = (refl, h)
and-true false b h = cc

or-true : (a b : Bool) → (a || b) ≡ true → (a ≡ true) ⊎ (b ≡ true)
or-true true b h = inl refl
or-true false b h = inr h

not-Bool : (b : Bool) → not b ≡ true → b ≡ false
not-Bool true h = cc
not-Bool false h = refl

equal-Post : {A : Type 0} (v : Verdict A) (x : A) → v ≡ passed x → Post (λ y. v ≡ passed y) v
equal-Post v x e = rw e (done refl)

module _ {Number : Type 0} (pt : Code Number) where
  pub checkreg-Post : (r : ℕ) → Post (λ (u : Unit {0}). Register pt r) (checkreg pt r)
  unfolding checkreg
  checkreg-Post r = weaken-Post (λ u h. ground arith) (check-Post (ltb r pt.maxstacksize))

  pub room-Post :
      (top less : ℕ) → Post (λ (u : Unit {0}). top < pt.maxstacksize + less) (room pt top less)
  unfolding room
  room-Post top less =
      weaken-Post (λ u h. ground arith) (check-Post (ltb top (pt.maxstacksize + less)))

  pub checkopenop-Post :
      (pc : ℕ) → pc + 1 < sizecode pt → Post (λ (u : Unit {0}). OpenNext pt pc) (checkopenop pt pc)
  unfolding checkopenop
  checkopenop-Post pc lt = bind-Post (fetch-Post pt.code (pc + 1) lt) λ d at.
      then-Post _ _
        λ opens. weaken-Post (λ u h. (d, at, ground arith)) (check-Post (getarg_b d == 0))

  pub Operand-Post :
      (r : ℕ) (m : OpArgMask) → Post (λ (u : Unit {0}). Operand pt m r) (check_arg_mode pt r m)
  unfolding check_arg_mode
  Operand-Post r op_arg_n = weaken-Post (λ u h. ground arith) (check-Post (r == 0))
  Operand-Post r op_arg_u = done tt
  Operand-Post r op_arg_r = checkreg-Post r
  Operand-Post r op_arg_k =
      weaken-Post (λ u h. (λ k. ground arith, λ k. ground arith)) (check-Post _)

  pub wide_before_on :
      (dest d j : ℕ)
      → get_elem? pt.code dest ≡ some d
      → is_wide pt d ≡ true
      → wide_before pt dest ≡ passed j
      → wide_before pt (suc dest) ≡ passed (suc j)
  unfolding wide_before fetch ◌>>=◌
  wide_before_on dest d j at wide run = rw (at, wide, run) refl

  pub wide_before_off :
      (dest d : ℕ)
      → get_elem? pt.code dest ≡ some d
      → is_wide pt d ≡ false
      → wide_before pt (suc dest) ≡ passed 0
  unfolding wide_before fetch ◌>>=◌
  wide_before_off dest d at plain = rw (at, plain) refl

  pub wide_before-total :
      (dest : ℕ) → dest ≤ sizecode pt → (j : ℕ) × (wide_before pt dest ≡ passed j)
  unfolding wide_before
  wide_before-total zero le = (0, refl)
  wide_before-total (suc dest) le =
      let (d, at) = get_elem?_of_lt pt.code dest le in
      let (j, run) = wide_before-total dest (omega arith) in
      elim (Bool-cases (is_wide pt d)) [
        | inl wide ↦ (suc j, wide_before_on dest d j at wide run)
        | inr plain ↦ (0, wide_before_off dest d at plain)
      ]

  wide_before-Post :
      (dest : ℕ)
      → dest ≤ sizecode pt
      → Post (λ j. wide_before pt dest ≡ passed j) (wide_before pt dest)
  wide_before-Post dest le =
      let (j, run) = wide_before-total dest le in equal-Post (wide_before pt dest) j run

  pub check_dest-Post :
      (pc : ℕ) (jump target : ℤ)
      → pos (pc + 1) +ℤ jump ≡ target
      → Post (λ (u : Unit {0}). Jump pt pc jump) (check_dest pt target)
  unfolding check_dest
  check_dest-Post pc jump (negsuc n) e = declined
  check_dest-Post pc jump (pos dest) e = then-Post _ _ λ lt.
      bind-Post (wide_before-Post dest (ground arith)) λ j run.
        weaken-Post (λ u h. (dest, e, ground arith, (j, run, ground arith)))
          (check-Post (j % 2 == 0))

  pub check_skip-Post :
      (op : OpCode) (pc : ℕ)
      → Post (λ (u : Unit {0}). test_t_mode op ≡ true → Skip pt pc) (check_skip pt op pc)
  unfolding check_skip op_number
  check_skip-Post op pc = elim (Bool-cases (test_t_mode op)) [
    | inl skips ↦ rw skips (
        then-Post _ _ λ lt.
          bind-Post (fetch-Post pt.code (pc + 1) (ground arith))
            λ d at. weaken-Post (λ u h k. (ground arith, (d, at, ground arith))) (check-Post _))
    | inr plain ↦ rw plain (done λ h. cc)
  ]

  pub captures-Post :
      (n pc : ℕ)
      → pc + n < sizecode pt
      → Post (λ (u : Unit {0}). (j : ℕ) → 0 < j → j ≤ n → Capture pt (pc + j)) (captures pt n pc)
  unfolding captures op_number
  captures-Post zero pc lt = done λ j j0 j1. absurd (omega arith)
  captures-Post (suc n) pc lt = bind-Post (fetch-Post pt.code (pc + 1) (omega arith)) λ d at.
      then-Post (is_op d 4 || is_op d 0) _ λ known.
        let first : Capture pt (pc + 1) = (
          d,
          at,
          elim (or-true (is_op d 4) (is_op d 0) known) [
            | inl h ↦ inl (ground arith)
            | inr h ↦ inr (ground arith)
          ],
        ) in
        weaken-Post (λ u rest. later first rest) (captures-Post n (pc + 1) (omega arith))
    where
      later :
          Capture pt (pc + 1)
          → ((j : ℕ) → 0 < j → j ≤ n → Capture pt (pc + 1 + j))
          → (j : ℕ) → 0 < j
          → j ≤ suc n
          → Capture pt (pc + j)
      later first rest zero j0 j1 = absurd (omega arith)
      later first rest (suc zero) j0 j1 = first
      later first rest (suc (suc j)) j0 j1 =
          let e : pc + suc (suc j) ≡ pc + 1 + suc j = omega arith in
          rw e (rest (suc j) (omega arith) (omega arith))

  pub check_call-Post :
      (pc a b c : ℕ)
      → pc + 1 < sizecode pt
      → Post (λ (u : Unit {0}). Call pt pc a b c) (check_call pt pc a b c)
  unfolding check_call
  check_call-Post pc a b c lt =
      bind-Post {Q = λ u. 0 < b → a + b ≤ pt.maxstacksize}
        (if-Post (b == 0) (λ e. done λ h. absurd (ground arith))
          (λ e. weaken-Post (λ u h k. omega arith) (room-Post (a + b) 1)))
        λ u args.
          if-Post (c == 0)
            (λ e.
              weaken-Post (λ v next. (args, λ h. absurd (ground arith), λ h. next))
                (checkopenop-Post pc lt))
            (λ e.
              if-Post (c == 1)
                (λ f. done (args, λ h. absurd (ground arith), λ h. absurd (ground arith)))
                (λ f.
                  weaken-Post (λ v h. (args, λ k. omega arith, λ k. absurd (ground arith)))
                    (room-Post (a + c) 2)))

nups_of-total :
    {Number : Type 0} (ps : Protos Number) (b : ℕ)
    → b < count ps
    → (n : ℕ) × (nups_of ps b ≡ passed n)
unfolding nups_of
nups_of-total end b lt = absurd (omega arith)
nups_of-total (also (proto f fs) ps) zero lt = (f.nups, refl)
nups_of-total (also (proto f fs) ps) (suc b) lt = nups_of-total ps b (omega arith)

pub nups_of-Post :
    {Number : Type 0} (ps : Protos Number) (b : ℕ)
    → b < count ps
    → Post (λ n. nups_of ps b ≡ passed n) (nups_of ps b)
nups_of-Post ps b lt = let (n, run) = nups_of-total ps b lt in equal-Post (nups_of ps b) n run
