-- ===== src/Match/Expand.antt =====
-- matchbalance, max_expand and min_expand: their loops end, and they stay in the subject.
use soft_renderer_lua.Base.{
  ℕ, zero, suc, ◌+◌, ◌≤◌, ◌<◌, ◌≡◌, arith, true, ◌==◌, ltb, ltb→lt, Option, List, length,
}
use soft_renderer_lua.Base.Run.{
  Run, Ensures, value, error, Ensures-bind, Ensures-weaken, Ensures-if,
}
use soft_renderer_lua.Match.{MatchError, Ctype, MatchState}
use soft_renderer_lua.Match.Parts.{Again, balance_round, balance_loop, matchbalance}
use soft_renderer_lua.Match.Engine.{single, count_loop, try_loop, max_expand, expand_loop}
use soft_renderer_lua.Match.Items.{≠→≢, char_at-Ensures, singlematch-Ensures}
use soft_renderer_lua.Match.Captures.{Inv, Inv-Same, Inv-up, Post, Post-back, or_else-Ensures}
use soft_renderer_lua.Match.Recall.{Ends}
use soft_renderer_lua.Match.Groups.{Matches}

module _ (src : List ℕ) where
  balance_round-Ensures :
      (b e s0 s cont : ℕ) (next : ℕ → ℕ → Run MatchError (Option ℕ))
      → s < length src
      → s0 ≤ s
      → ((cont' : ℕ) → Ensures (Ends (length src) s0) (next s cont'))
      → Ensures (Ends (length src) s0) (balance_round src b e s cont next)
  unfolding balance_round
  balance_round-Ensures b e s0 s cont next lt le k =
      Ensures-bind (char_at-Ensures src s (omega arith)) λ c in_c.
        Ensures-if (c == e)
          (λ h. Ensures-if (cont == 1) (λ h'. value (omega arith, omega arith)) (λ h'. k _))
          (λ h. Ensures-if (c == b) (λ h'. k _) (λ h'. k _))

  balance_loop-Ensures :
      (fuel b e s0 s cont : ℕ)
      → s0 ≤ s
      → length src < fuel + s
      → s ≤ length src
      → Ensures (Ends (length src) s0) (balance_loop src fuel b e s cont)
  unfolding balance_loop
  balance_loop-Ensures zero b e s0 s cont le enough in_src = absurd (omega arith)
  balance_loop-Ensures (suc fuel) b e s0 s cont le enough in_src =
      Ensures-if (ltb (s + 1) (length src))
        (λ h.
          let lt = ltb→lt (s + 1) (length src) h in
          balance_round-Ensures b e s0 (s + 1) cont _ lt (omega arith) λ cont'.
            balance_loop-Ensures fuel b e s0 (s + 1) cont' (omega arith) (omega arith)
              (omega arith))
        (λ h. value tt)

  -- The two characters after `%b` are there, or it is an error.
  pub matchbalance-Ensures :
      (pat : List ℕ) (s p : ℕ)
      → s ≤ length src
      → p ≤ length pat
      → Ensures (λ r. p + 2 ≤ length pat × Ends (length src) s r) (matchbalance src pat s p)
  unfolding matchbalance
  matchbalance-Ensures pat s p in_src in_pat = Ensures-bind (char_at-Ensures pat p in_pat) λ b in_b.
      Ensures-if (b == 0) (λ h. error)
        λ h.
          let lt = in_b (≠→≢ b 0 h) in
          Ensures-bind (char_at-Ensures pat (p + 1) (omega arith)) λ e in_e.
            Ensures-if (e == 0) (λ k. error)
              λ k.
                let lt' = in_e (≠→≢ e 0 k) in
                Ensures-bind (char_at-Ensures src s in_src) λ c in_c.
                  Ensures-if (c == b)
                    (λ q.
                      Ensures-weaken (λ r z. (omega arith, z))
                        (balance_loop-Ensures (length src + 1) b e s s 1 (omega arith) (omega arith)
                          in_src))
                    (λ q. value (omega arith, tt))

module _ (ctype : Ctype) (src pat : List ℕ) (p ep : ℕ) (in_p : p < length pat)
    (in_ep : ep ≤ length pat) where
  -- An item matches a character of the subject only.
  pub single-Ensures :
      (s : ℕ) → Ensures (λ m. m ≡ true → s < length src) (single ctype src pat s p ep)
  unfolding single
  single-Ensures s =
      Ensures-if (ltb s (length src))
        (λ h.
          let lt = ltb→lt s (length src) h in
          Ensures-bind (char_at-Ensures src s (omega arith)) λ c in_c.
            Ensures-weaken (λ m t e. lt) (singlematch-Ensures ctype pat c p ep in_p in_ep))
        (λ h. value (λ e. cc))

  count_loop-Ensures :
      (fuel s i : ℕ)
      → s + i ≤ length src
      → length src < fuel + (s + i)
      → Ensures (λ k. s + k ≤ length src) (count_loop ctype src pat fuel s p ep i)
  unfolding count_loop
  count_loop-Ensures zero s i le enough = absurd (omega arith)
  count_loop-Ensures (suc fuel) s i le enough = Ensures-bind (single-Ensures (s + i)) λ m lt.
      Ensures-if m (λ h. count_loop-Ensures fuel s (i + 1) (omega (arith, lt h)) (omega arith))
        (λ h. value le)

  module _ (again : Again) (matches : Matches (length src) (length pat) p again) (after : p < ep)
      (before : ep < length pat) where
    try_loop-Ensures :
        (i : ℕ) (ms : MatchState) (s : ℕ)
        → s + i ≤ length src
        → Inv (length src) s ms
        → Ensures (Post (length src) ms s) (try_loop ctype src pat again i ms s ep)
    unfolding try_loop
    try_loop-Ensures zero ms s le inv = matches ms s (ep + 1) (omega arith) (omega arith) inv
    try_loop-Ensures (suc i) ms s le inv =
        Ensures-bind
          (matches ms (s + suc i) (ep + 1) (omega arith) (omega arith)
            (Inv-up inv (s + suc i) (omega arith) le))
          λ r q. or_else-Ensures r (omega arith) q λ ms' same.
            Ensures-weaken (λ r' q'. Post-back (length src) r' (omega arith) same q')
              (try_loop-Ensures i ms' s (omega arith) (Inv-Same inv same))

    pub max_expand-Ensures :
        (ms : MatchState) (s : ℕ)
        → Inv (length src) s ms
        → Ensures (Post (length src) ms s) (max_expand ctype src pat again ms s p ep)
    unfolding max_expand
    max_expand-Ensures ms s inv =
        Ensures-bind
          (count_loop-Ensures (length src + 1) s 0 (omega (arith, inv.within)) (omega arith))
          λ i le. try_loop-Ensures i ms s le inv

    pub expand_loop-Ensures :
        (fuel : ℕ) (ms : MatchState) (s : ℕ)
        → length src < fuel + s
        → Inv (length src) s ms
        → Ensures (Post (length src) ms s) (expand_loop ctype src pat again fuel ms s p ep)
    unfolding expand_loop
    expand_loop-Ensures zero ms s enough inv = absurd (omega (arith, inv.within))
    expand_loop-Ensures (suc fuel) ms s enough inv =
        Ensures-bind (matches ms s (ep + 1) (omega arith) (omega arith) inv) λ r q.
          or_else-Ensures r (omega arith) q λ ms' same. Ensures-bind (single-Ensures s) λ m lt.
            Ensures-if m
              (λ h.
                Ensures-weaken (λ r' q'. Post-back (length src) r' (omega arith) same q')
                  (expand_loop-Ensures fuel ms' (s + 1) (omega arith)
                    (Inv-up (Inv-Same inv same) (s + 1) (omega arith) (omega (arith, lt h)))))
              (λ h. value same)
