-- ===== src/Match/Safe.antt =====
-- match ends on every pattern and subject, reads nothing outside of either, and answers within the subject.
use soft_renderer_lua.Base.{
  ℕ, zero, suc, ◌+◌, ◌-◌, ◌≤◌, ◌<◌, ◌≡◌, ◌≢◌, sym, ap, ◌∙◌, arith, Bool, true, false, ◌==◌,
  if◌then◌else◌, Option, none, some, List, length,
}
use soft_renderer_lua.Base.Run.{Ensures, value, error, Ensures-bind, Ensures-weaken, Ensures-if}
use soft_renderer_lua.Match.{Ctype, cap_unfinished, cap_position, MatchState}
use soft_renderer_lua.Match.Class.{l_esc}
use soft_renderer_lua.Match.Parts.{Answer, Again, or_null}
use soft_renderer_lua.Match.Engine.{
  match_default, previous, match_frontier, match_escape, match_item, match_from, match,
}
use soft_renderer_lua.Match.Items.{
  ≠→≢, char_at-Ensures, in-eq, classend-Ensures, matchbracketclass-Ensures,
}
use soft_renderer_lua.Match.Captures.{
  Inv, Same, Same-refl, Inv-up, Post, Post-back, or_else-Ensures, Inv-Same,
}
use soft_renderer_lua.Match.Recall.{Ends, match_capture-Ensures}
use soft_renderer_lua.Match.Groups.{Matches, start_capture-Ensures, end_capture-Ensures}
use soft_renderer_lua.Match.Expand.{
  matchbalance-Ensures, single-Ensures, max_expand-Ensures, expand_loop-Ensures,
}

or_null-Ensures :
    {n s : ℕ} {ms : MatchState} {f : ℕ → Answer} (r : Option ℕ)
    → Ends n s r
    → Inv n s ms
    → ((s' : ℕ) → Inv n s' ms → Ensures (Post n ms s') (f s'))
    → Ensures (Post n ms s) (or_null ms r f)
unfolding or_null
or_null-Ensures none h inv k = value Same-refl
or_null-Ensures {n} (some s') (le, in_src) inv k =
    Ensures-weaken (λ r q. Post-back n r le Same-refl q) (k s' (Inv-up inv s' le in_src))

-- A match from a later place of the subject, in a state with the same captures, does for an earlier one.
earlier :
    {n s s' : ℕ} {ms ms' : MatchState} {m : Answer}
    → s ≤ s'
    → Same ms ms'
    → Ensures (Post n ms' s') m
    → Ensures (Post n ms s) m
earlier {n} le same h = Ensures-weaken (λ r q. Post-back n r le same q) h

-- isdigit is false of the zero byte.
module _ (ctype : Ctype) (no_digit : ctype.isdigit 0 ≡ false) (src pat : List ℕ) where
  module _ (again : Again) (p : ℕ) (matches : Matches (length src) (length pat) p again)
      (in_p : p < length pat) where
    match_default-Ensures :
        (ms : MatchState) (s : ℕ)
        → Inv (length src) s ms
        → Ensures (Post (length src) ms s) (match_default ctype src pat again ms s p)
    unfolding match_default
    match_default-Ensures ms s inv = Ensures-bind (classend-Ensures pat p in_p) λ ep (after, in_ep).
        Ensures-bind (single-Ensures ctype src pat p ep in_p in_ep s) λ m lt.
          Ensures-bind (char_at-Ensures pat ep in_ep) λ x in_x.
            let next = λ (e : m ≡ true). Inv-up inv (s + 1) (omega arith) (omega (arith, lt e)) in
            Ensures-if (x == b'?')
              (λ h.
                let before = in-eq x b'?' (omega arith) h in_x in
                Ensures-if m
                  (λ e.
                    Ensures-bind (matches ms (s + 1) (ep + 1) (omega arith) (omega arith) (next e))
                      λ r q. or_else-Ensures r (omega arith) q λ ms' same.
                        earlier (omega arith) same
                          (matches ms' s (ep + 1) (omega arith) (omega arith) (Inv-Same inv same)))
                  (λ e. matches ms s (ep + 1) (omega arith) (omega arith) inv))
              (λ h.
                Ensures-if (x == b'*')
                  (λ h'.
                    max_expand-Ensures ctype src pat p ep in_p in_ep again matches after
                      (in-eq x b'*' (omega arith) h' in_x) ms s inv)
                  (λ h'.
                    Ensures-if (x == b'+')
                      (λ k.
                        Ensures-if m
                          (λ e. earlier (omega arith) Same-refl (
                            max_expand-Ensures ctype src pat p ep in_p in_ep again matches after
                              (in-eq x b'+' (omega arith) k in_x) ms (s + 1) (next e)))
                          (λ e. value Same-refl))
                      (λ k.
                        Ensures-if (x == b'-')
                          (λ k'.
                            expand_loop-Ensures ctype src pat p ep in_p in_ep again matches after
                              (in-eq x b'-' (omega arith) k' in_x) (length src + 1) ms s
                              (omega arith) inv)
                          (λ k'.
                            Ensures-if m
                              (λ e.
                                earlier (omega arith) Same-refl
                                  (matches ms (s + 1) ep after in_ep (next e)))
                              (λ e. value Same-refl)))))

    previous-Ensures :
        (s : ℕ) → s ≤ length src → Ensures (λ c. Unit {0}) (previous ctype src pat again s)
    unfolding previous
    previous-Ensures zero le = value tt
    previous-Ensures (suc s) le = Ensures-weaken (λ c h. tt) (char_at-Ensures src s (omega arith))

    match_frontier-Ensures :
        (ms : MatchState) (s p' : ℕ)
        → p ≤ p'
        → p' ≤ length pat
        → Inv (length src) s ms
        → Ensures (Post (length src) ms s) (match_frontier ctype src pat again ms s p')
    unfolding match_frontier
    match_frontier-Ensures ms s p' le in_pat inv =
        Ensures-bind (char_at-Ensures pat p' in_pat) λ x in_x.
          Ensures-if (x == b'[')
            (λ h.
              let lt = in-eq x b'[' (omega arith) h in_x in
              Ensures-bind (classend-Ensures pat p' lt) λ ep (after, in_ep).
                Ensures-bind (previous-Ensures s inv.within) λ c t.
                  Ensures-bind (matchbracketclass-Ensures ctype pat c p' (ep - 1) lt (omega arith))
                    λ b t'.
                      Ensures-if b (λ e. value Same-refl)
                        λ e. Ensures-bind (char_at-Ensures src s inv.within) λ d in_d.
                          Ensures-bind
                            (matchbracketclass-Ensures ctype pat d p' (ep - 1) lt (omega arith))
                            λ b' t''.
                              Ensures-if b' (λ e'. matches ms s ep (omega arith) in_ep inv)
                                (λ e'. value Same-refl))
            (λ h. error)

    match_escape-Ensures :
        (ms : MatchState) (s : ℕ)
        → Inv (length src) s ms
        → Ensures (Post (length src) ms s) (match_escape ctype src pat again ms s p)
    unfolding match_escape
    match_escape-Ensures ms s inv =
        Ensures-bind (char_at-Ensures pat (p + 1) (omega arith)) λ x in_x.
          Ensures-if (x == b'b')
            (λ h.
              let lt = in-eq x b'b' (omega arith) h in_x in
              Ensures-bind (matchbalance-Ensures src pat s (p + 2) inv.within (omega arith))
                λ r (le, ends).
                  or_null-Ensures r ends inv
                    λ s' inv'. matches ms s' (p + 4) (omega arith) (omega arith) inv')
            (λ h.
              Ensures-if (x == b'f')
                (λ h'.
                  match_frontier-Ensures ms s (p + 2) (omega arith)
                    (omega (arith, in-eq x b'f' (omega arith) h' in_x)) inv)
                (λ h'.
                  Ensures-if (ctype.isdigit x)
                    (λ k.
                      let lt : p + 1 < length pat =
                        in_x (λ z. true-ne-false (sym k ∙ ap ctype.isdigit z ∙ no_digit)) in
                      Ensures-bind (match_capture-Ensures src ms x inv) λ r ends.
                        or_null-Ensures r ends inv
                          λ s' inv'. matches ms s' (p + 2) (omega arith) (omega arith) inv')
                    (λ k. match_default-Ensures ms s inv)))
      where
        true-ne-false : true ≢ false
        true-ne-false h = cc

  match_item-Ensures :
      (again : Again) (p : ℕ)
      → Matches (length src) (length pat) p again
      → p ≤ length pat
      → (ms : MatchState) (s : ℕ) → Inv (length src) s ms
      → Ensures (Post (length src) ms s) (match_item ctype src pat again ms s p)
  unfolding match_item
  match_item-Ensures again p matches in_pat ms s inv =
      Ensures-bind (char_at-Ensures pat p in_pat) λ x in_x.
        Ensures-if (x == b'(')
          (λ h.
            let lt = in-eq x b'(' (omega arith) h in_x in
            Ensures-bind (char_at-Ensures pat (p + 1) (omega arith)) λ y in_y.
              Ensures-if (y == b')')
                (λ k.
                  start_capture-Ensures again inv p (p + 2) cap_position matches (omega arith)
                    (omega (arith, in-eq y b')' (omega arith) k in_y)) inv.within)
                (λ k.
                  start_capture-Ensures again inv p (p + 1) cap_unfinished matches (omega arith)
                    (omega arith) (omega arith)))
          (λ h.
            Ensures-if (x == b')')
              (λ k.
                end_capture-Ensures again inv p (p + 1) matches (omega arith)
                  (omega (arith, in-eq x b')' (omega arith) k in_x)))
              (λ k.
                Ensures-if (x == l_esc)
                  (λ e.
                    match_escape-Ensures again p matches (in-eq x l_esc (omega arith) e in_x) ms s
                      inv)
                  (λ e.
                    Ensures-if (x == 0) (λ z. value (omega arith, inv))
                      (λ z.
                        let lt = in_x (≠→≢ x 0 z) in
                        Ensures-if (x == b'$')
                          (λ d. Ensures-bind (char_at-Ensures pat (p + 1) (omega arith)) λ y in_y.
                            Ensures-if (y == 0) (λ q. value (at_end (s == length src) ms s inv))
                              (λ q. match_default-Ensures again p matches lt ms s inv))
                          (λ d. match_default-Ensures again p matches lt ms s inv)))))
    where
      at_end :
          (b : Bool) (ms : MatchState) (s : ℕ)
          → Inv (length src) s ms
          → Post (length src) ms s (if b then some s else none, ms)
      at_end true ms s inv = (omega arith, inv)
      at_end false ms s inv = Same-refl

  match_from-Ensures :
      (fuel : ℕ) (ms : MatchState) (s p : ℕ)
      → length pat < fuel + p
      → p ≤ length pat
      → Inv (length src) s ms
      → Ensures (Post (length src) ms s) (match_from ctype src pat fuel ms s p)
  unfolding match_from
  match_from-Ensures zero ms s p enough le inv = absurd (omega arith)
  match_from-Ensures (suc fuel) ms s p enough le inv =
      match_item-Ensures (match_from ctype src pat fuel) p
        (λ ms' s' p' after in_pat inv'. match_from-Ensures fuel ms' s' p' (omega arith) in_pat inv')
        le ms s inv

  pub match-Ensures :
      (ms : MatchState) (s p : ℕ)
      → p ≤ length pat
      → Inv (length src) s ms
      → Ensures (Post (length src) ms s) (match ctype src pat ms s p)
  match-Ensures ms s p le inv = match_from-Ensures (length pat + 1) ms s p (omega arith) le inv
