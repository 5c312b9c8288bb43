-- ===== src/Debug/Operands.antt =====
-- The first switch of symbexec: the operands of an instruction that passes are what its format promises.
use soft_renderer_lua.Base.{
  ℕ, ◌≡◌, inl, inr, refl, Bool, true, false, ◌||◌, not, Option, none, some, Option-cases, ltb→lt,
}
use soft_renderer_lua.Opcodes.{getarg_b, getarg_c, getarg_bx, getarg_sbx}
use soft_renderer_lua.Opcodes.Modes.{
  OpMode, i_abc, i_abx, i_asbx, OpArgMask, OpCode, get_b_mode, get_c_mode, op_modes_consistent,
}
use soft_renderer_lua.Chunk.{Code}
use soft_renderer_lua.Debug.Symbexec.{Operands, is_mask_k, is_mask_r, operands_of}
use soft_renderer_lua.Debug.Post.{
  Post, done, declined, bind-Post, then-Post, if-Post, weaken-Post, known-Post,
}
use soft_renderer_lua.Debug.Access.{KnownConstant, Jump, Operand}
use soft_renderer_lua.Debug.Checked.{Operand-Post, check_dest-Post}

implied : (a b : Bool) → (not a || b) ≡ true → a ≡ true → b ≡ true
implied true b h k = h
implied false b h k = cc

module _ {Number : Type 0} (pt : Code Number) where
  -- What the first switch gives, by the format and the modes of the operands.
  abbrev pub Args : Option OpMode → Option OpArgMask → Option OpArgMask → ℕ → ℕ → Operands → Type 0
  Args (some i_abc) (some mb) (some mc) pc i o =
      (o.b ≡ getarg_b i)
      × (o.c ≡ getarg_c i)
      × Operand pt mb (getarg_b i)
      × Operand pt mc (getarg_c i)
  Args (some i_abx) mb mc pc i o =
      (o.b ≡ getarg_bx i) × (is_mask_k mb ≡ true → KnownConstant pt (getarg_bx i))
  Args (some i_asbx) mb mc pc i o =
      (o.jump ≡ getarg_sbx i) × (is_mask_r mb ≡ true → Jump pt pc (getarg_sbx i))
  Args _ _ _ pc i o = ⊥

  pub operands-Post :
      (m : Option OpMode) (op : OpCode) (pc i : ℕ)
      → Post (Args m (get_b_mode op) (get_c_mode op) pc i) (operands_of pt m op pc i)
  unfolding operands_of
  operands-Post none op pc i = declined
  operands-Post (some i_abc) op pc i =
      let (_, has_b, has_c, _, _, _) = op_modes_consistent op in
      elim (Option-cases (get_b_mode op)) [
        | inl missing ↦ absurd (has_b missing)
        | inr (mb, eb) ↦ elim (Option-cases (get_c_mode op)) [
          | inl missing ↦ absurd (has_c missing)
          | inr (mc, ec) ↦
              rw (eb, ec)
                (known-Post mb _ (
                  known-Post mc _ (
                    bind-Post (Operand-Post pt (getarg_b i) mb) λ u hb.
                      bind-Post (Operand-Post pt (getarg_c i) mc)
                        λ v hc. done (refl, refl, hb, hc))))
        ]
      ]
  operands-Post (some i_abx) op pc i =
      then-Post _ _ λ h. done (refl, λ k. ltb→lt _ _ (implied _ _ h k))
  operands-Post (some i_asbx) op pc i =
      bind-Post {Q = λ u. is_mask_r (get_b_mode op) ≡ true → Jump pt pc (getarg_sbx i)}
        (if-Post (is_mask_r (get_b_mode op))
          (λ e. weaken-Post (λ u j k. j) (check_dest-Post pt pc (getarg_sbx i) _ refl))
          (λ e. done λ k. cc))
        λ u jump. done (refl, jump)
