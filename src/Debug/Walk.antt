-- ===== src/Debug/Walk.antt =====
-- The loop of symbexec ends, reads nothing outside, and checks every instruction on its way.
use soft_renderer_lua.Base.{
  ℕ, zero, suc, ◌+◌, ◌-◌, ◌≤◌, ◌<◌, ◌≡◌, refl, ap, sym, subst, ◌∙◌, arith, Bool, true, false, ◌&&◌,
  ◌==◌, ltb, if◌then◌else◌, some, List, [], ◌∷◌, get_elem?, Bool-cases, Option-cases, inl, inr,
}
use soft_renderer_lua.Opcodes.{get_opcode, getarg_a}
use soft_renderer_lua.Opcodes.Modes.{
  OpCode, op_number, all_ops, cast_op_code, get_op_mode, test_a_mode,
}
use soft_renderer_lua.Chunk.{Code, Protos}
use soft_renderer_lua.Debug.{is_wide, sizecode}
use soft_renderer_lua.Debug.Symbexec.{no_reg, check_instruction, step, walk}
use soft_renderer_lua.Debug.Post.{Post, done, declined, bind-Post, fetch-Post, weaken-Post}
use soft_renderer_lua.Debug.Access.{Passed}
use soft_renderer_lua.Debug.Checked.{checkreg-Post, check_skip-Post}
use soft_renderer_lua.Debug.Operands.{operands-Post}
use soft_renderer_lua.Debug.Instruction.{check_op-Post}

-- The opcodes are numbered in the order of the list.
some-inj : {x y : ℕ} → some x ≡ some y → x ≡ y
some-inj h = cc

numbered : ℕ → List OpCode → Bool
numbered k [] = true
numbered k (o ∷ os) = op_number o == k && numbered (suc k) os

numbered_lem :
    (k n : ℕ) (os : List OpCode) (o : OpCode)
    → numbered k os ≡ true
    → get_elem? os n ≡ some o
    → k + n ≡ op_number o
unfolding numbered
numbered_lem k n [] o all at = cc
numbered_lem k zero (p ∷ os) o all at = ground (arith, ap op_number {x = p} {y = o} (cc))
numbered_lem k (suc n) (p ∷ os) o all at = ground (arith, numbered_lem (suc k) n os o)

all_ops-numbered : numbered 0 all_ops ≡ true
unfolding numbered op_number
all_ops-numbered = refl

pub cast_op_code-number : (n : ℕ) (o : OpCode) → cast_op_code n ≡ some o → n ≡ op_number o
unfolding cast_op_code
cast_op_code-number n o e = omega (arith, numbered_lem 0 n all_ops o all_ops-numbered e)

two_ways :
    (p q s : ℕ) (wide : Bool)
    → q ≡ (if wide then p + 2 else p + 1)
    → s ≡ (if wide then p + 1 else p)
    → q ≡ s + 1
two_ways p q s true e f = omega arith
two_ways p q s false e f = omega arith

module _ {Number : Type 0} (pt : Code Number) where
  -- The last instruction is a return, so that every other one has a successor.
  abbrev pub EndsWithReturn : Type 0
  EndsWithReturn =
      (0 < sizecode pt)
      × ((r : ℕ) × (get_elem? pt.code (sizecode pt - 1) ≡ some r) × (get_opcode r ≡ 30))

  -- The word at `p` and the position of the next instruction.
  abbrev pub Follows : ℕ → ℕ → Type 0
  Follows p q =
      (i : ℕ) × (get_elem? pt.code p ≡ some i) × (q ≡ (if is_wide pt i then p + 2 else p + 1))

  -- From one instruction to a later one, over the count of a wide SETLIST.
  pub data Reach : ℕ → ℕ → Type 0 where
    here : {p r : ℕ} → r ≡ p → Reach p r
    further : {p q r : ℕ} → Follows p q → Reach q r → Reach p r

  Reach-le : {p r : ℕ} → Reach p r → p ≤ r
  Reach-le (here e) = omega arith
  Reach-le (further {p = p} (i, at, e) rest) = elim (Bool-cases (is_wide pt i)) [
    | inl wide ↦ omega (arith, rw wide at e, Reach-le rest)
    | inr plain ↦ omega (arith, rw plain at e, Reach-le rest)
  ]

module _ {Number : Type 0} (pt : Code Number) (ps : Protos Number) (reg lastpc : ℕ) where
  -- A round at `pc` that comes to `s`.
  pub record Round (pc : ℕ) (s : ℕ × ℕ) : Type 0 where
    pub in_bounds : Passed pt ps pc
    pub last_in : s.1 < sizecode pt
    pub ahead : pc ≤ s.0
    pub next :
        (i : ℕ)
        → get_elem? pt.code pc ≡ some i
        → reg ≡ no_reg
        → s.0 ≡ (if is_wide pt i then pc + 1 else pc)

  successor :
      (pc i : ℕ)
      → EndsWithReturn pt
      → pc < sizecode pt
      → get_elem? pt.code pc ≡ some i
      → (get_opcode i == 30) ≡ false
      → pc + 1 < sizecode pt
  successor pc i (some_code, (r, at_end, return)) lt at other =
      elim (Bool-cases (pc == (sizecode pt - 1))) [
        | inl end ↦
            let e : pc ≡ sizecode pt - 1 = ground arith in
            let same : some i ≡ some r = sym at ∙ ap (get_elem? pt.code) e ∙ at_end in
            absurd (ground (arith, same))
        | inr before ↦ ground arith
      ]

  pick_last :
      (a b : ℕ)
      → a < sizecode pt
      → b < sizecode pt
      → (t : Bool) → (if t then a else b) < sizecode pt
  pick_last a b la lb true = la
  pick_last a b la lb false = lb

  pub step-Round :
      (pc last : ℕ)
      → EndsWithReturn pt
      → pc < sizecode pt
      → last < sizecode pt
      → Post (Round pc) (step pt ps reg lastpc pc last)
  unfolding step check_instruction
  step-Round pc last ends lt old = bind-Post (fetch-Post pt.code pc lt) λ i at.
      elim (Option-cases (cast_op_code (get_opcode i))) [
        | inl unknown ↦ rw unknown declined
        | inr (op, decodes) ↦ rw decodes (decoded i op at decodes)
      ]
    where
      decoded :
          (i : ℕ) (op : OpCode)
          → get_elem? pt.code pc ≡ some i
          → cast_op_code (get_opcode i) ≡ some op
          → Post (Round pc) (check_instruction pt ps reg lastpc (some op) i pc last)
      decoded i op at decodes =
          let number = cast_op_code-number (get_opcode i) op decodes in
          bind-Post (checkreg-Post pt (getarg_a i)) λ u target.
            bind-Post (operands-Post pt (get_op_mode op) op pc i) λ o args.
              bind-Post (check_skip-Post pt op pc) λ v skip.
                weaken-Post
                  (λ s (access, moved). record {
                    in_bounds = record {
                      instruction = i;
                      opcode = op;
                      at = at;
                      decodes = decodes;
                      target = target;
                      access = access;
                      goes_on = successor pc i ends lt at;
                    };
                    last_in = moved.last_in;
                    ahead = moved.ahead;
                    next = λ j at' e. rw (some-inj (sym at' ∙ at)) (moved.next e);
                  })
                  (check_op-Post pt ps reg lastpc pc i _ lt
                    (pick_last pc last lt old (test_a_mode op && getarg_a i == reg))
                    (successor pc i ends lt at)
                    (λ q d in_code at_q other. successor q d ends in_code at_q other) op o args skip
                    number)

  -- What the loop from `pc` on has checked.
  pub record Walked (pc last : ℕ) : Type 0 where
    pub last_in : last < sizecode pt
    pub all : reg ≡ no_reg → (p : ℕ) → Reach pt pc p → p < lastpc → Passed pt ps p

  Walked-end : (pc last : ℕ) → ltb pc lastpc ≡ false → last < sizecode pt → Walked pc last
  Walked-end pc last end lt = record {
    last_in = lt;
    all = λ e p reach before. absurd (ground (arith, Reach-le pt reach));
  }

  pub walk-Walked :
      (fuel pc last : ℕ)
      → EndsWithReturn pt
      → lastpc ≤ sizecode pt
      → last < sizecode pt
      → lastpc ≤ fuel + pc
      → Post (Walked pc) (walk pt ps reg lastpc fuel pc last)
  unfolding walk
  walk-Walked zero pc last ends size old enough =
      let end : ltb pc lastpc ≡ false = ground arith in rw end (done (Walked-end pc last end old))
  walk-Walked (suc fuel) pc last ends size old enough = elim (Bool-cases (ltb pc lastpc)) [
    | inr end ↦ rw (walk, end) (done (Walked-end pc last end old))
    | inl more ↦
        rw (walk, more)
          (bind-Post (step-Round pc last ends (ground arith) old) λ s round.
            weaken-Post (λ l rest. extend s round l rest)
              (walk-Walked fuel (s.0 + 1) s.1 ends size round.last_in (omega (arith, round.ahead))))
  ]
    where
      extend : (s : ℕ × ℕ) → Round pc s → (l : ℕ) → Walked (s.0 + 1) l → Walked pc l
      extend s round l rest = record {
        last_in = rest.last_in;
        all = λ e p reach lt. onward e p reach lt;
      }
        where
          onward : reg ≡ no_reg → (p : ℕ) → Reach pt pc p → p < lastpc → Passed pt ps p
          onward e p (here same) lt = rw same round.in_bounds
          onward e p (further {q = q} (i, at, after) reach) lt =
              let same : q ≡ s.0 + 1 = two_ways pc q s.0 (is_wide pt i) after (round.next i at e) in
              rest.all e p (subst (λ x. Reach pt x p) same reach) lt
