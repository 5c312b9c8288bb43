-- ===== src/Match/Substitution.antt =====
-- string.gsub ends, counts its substitutions within the bounds, and without one gives the subject back.
use soft_renderer_lua.Base.{
  ℕ, zero, suc, ◌+◌, ◌-◌, ◌≤◌, ◌<◌, ◌≡◌, refl, ◌∙◌, arith, Bool, false, not, ◌==◌, ltb, ltb→lt,
  some, List, [], ◌∷◌, ◌++◌, length,
}
use soft_renderer_lua.Base.Int.{ℤ, pos, ltb_ℤ, pos_part}
use soft_renderer_lua.Base.Run.{
  Run, done, Ensures, Ensures-done, value, error, Ensures-bind, Ensures-weaken, Ensures-if,
}
use soft_renderer_lua.Match.{MatchError, lua_maxcaptures, Ctype, MatchState}
use soft_renderer_lua.Match.Class.{l_esc}
use soft_renderer_lua.Match.Items.{char_at-Ensures}
use soft_renderer_lua.Match.Captures.{Inv}
use soft_renderer_lua.Match.Safe.{match-Ensures}
use soft_renderer_lua.Match.Find.{Pushed, cleared}
use soft_renderer_lua.Match.Bytes.{byte-Ensures}
use soft_renderer_lua.Match.Pushes.{
  push_onecapture-In, push_captures-In, on_match-Ensures, cleared-Inv,
}
use soft_renderer_lua.Match.Results.{anchored}
use soft_renderer_lua.Match.Gsub.{
  Replaced, falsy, string, other, Replacement, template, function, table, add_escape, add_loop,
  add_replaced, add_value, gsub_next, gsub_char, gsub_loop, str_gsub,
}
use soft_renderer_lua.Match.Counts.{
  Counted, end-Counted, char-Counted, matched-Counted, weaker, below, prepend-Ensures,
}

-- A call of a replacement function, or of a table's metamethod, ends with a value or an error.
abbrev pub Calls : Replacement → Type 0
Calls (template news) = Unit {0}
Calls (function f) = (vs : List Pushed) → Ensures (λ v. Unit {0}) (f vs)
Calls (table t) = (k : Pushed) → Ensures (λ v. Unit {0}) (t k)

module _ (ctype : Ctype) (room : ℕ → Bool) (number_text : ℕ → List ℕ) (src : List ℕ) where
  module _ {n p : ℕ} {ms : MatchState} (inv : Inv n p ms) where
    add_escape-ends :
        (s e d : ℕ)
        → s ≤ e
        → e ≤ n
        → Ensures (λ b. Unit {0}) (add_escape ctype room number_text src ms s e d)
    unfolding add_escape
    add_escape-ends s e d le le' =
        Ensures-if (not (ctype.isdigit d)) (λ h. value tt)
          λ h.
            Ensures-if (d == b'0') (λ k. value tt)
              λ k. Ensures-bind (push_onecapture-In inv (d - b'1') s e le le') λ v q. value tt

    add_loop-ends :
        (fuel : ℕ) (news : List ℕ) (s e i : ℕ)
        → s ≤ e
        → e ≤ n
        → length news ≤ fuel + i
        → Ensures (λ b. Unit {0}) (add_loop ctype room number_text src fuel ms news s e i)
    unfolding add_loop
    add_loop-ends zero news s e i le le' enough =
        Ensures-if (ltb i (length news)) (λ h. absurd (ground arith)) (λ h. value tt)
    add_loop-ends (suc fuel) news s e i le le' enough =
        Ensures-if (ltb i (length news))
          (λ h.
            let lt = ltb→lt i (length news) h in
            Ensures-bind (char_at-Ensures news i (omega arith)) λ c in_c.
              Ensures-if (c == l_esc)
                (λ k. Ensures-bind (char_at-Ensures news (i + 1) (omega arith)) λ d in_d.
                  Ensures-bind (add_escape-ends s e d le le') λ b q.
                    Ensures-bind (add_loop-ends fuel news s e (i + 2) le le' (omega arith))
                      λ bs q'. value tt)
                (λ k.
                  Ensures-bind (add_loop-ends fuel news s e (i + 1) le le' (omega arith))
                    λ bs q. value tt))
          (λ h. value tt)

    add_replaced-ends :
        (s e : ℕ) (v : Replaced)
        → Ensures (λ b. Unit {0}) (add_replaced ctype room number_text src s e v)
    unfolding add_replaced
    add_replaced-ends s e falsy = value tt
    add_replaced-ends s e (string bs) = value tt
    add_replaced-ends s e other = error

    add_value-ends :
        (repl : Replacement) (s e : ℕ)
        → Calls repl
        → s ≤ e
        → e ≤ n
        → Ensures (λ b. Unit {0}) (add_value ctype room number_text src ms repl s e)
    unfolding add_value
    add_value-ends (template news) s e calls le le' =
        add_loop-ends (length news) news s e 0 le le' (omega arith)
    add_value-ends (function f) s e calls le le' =
        Ensures-bind (push_captures-In inv room (some (s, e)) (le, le'))
          λ vs q. Ensures-bind (calls vs) λ v q'. add_replaced-ends s e v
    add_value-ends (table t) s e calls le le' =
        Ensures-bind (push_onecapture-In inv 0 s e le le')
          λ k q. Ensures-bind (calls k) λ v q'. add_replaced-ends s e v

  module _ (max_s : ℤ) (anchor : Bool) (again : ℕ → ℕ → Run MatchError (List ℕ × ℕ)) where
    next-Counted :
        (s n : ℕ)
        → Ensures (Counted src max_s 1 s n) (again s n)
        → Ensures (Counted src max_s 1 s n) (gsub_next ctype room number_text src anchor s n again)
    next-Counted s n h = Ensures-if anchor (λ e. value (end-Counted src max_s 1 s n)) (λ e. h)

    rest-Counted :
        (s n : ℕ)
        → (s < length src → Ensures (Counted src max_s 1 (s + 1) n) (again (s + 1) n))
        → Ensures (Counted src max_s 0 s n) (gsub_char ctype room number_text src anchor s n again)
    unfolding gsub_char
    rest-Counted s n h =
        Ensures-if (ltb s (length src))
          (λ e.
            let lt = ltb→lt s (length src) e in
            Ensures-bind (byte-Ensures src s lt) λ c q.
              prepend-Ensures (c ∷ []) (next-Counted (s + 1) n (h lt))
                λ r k. char-Counted src max_s s n c r lt q k)
          (λ e. value (end-Counted src max_s 0 s n))

  -- isdigit is false of the zero byte.
  module _ (no_digit : ctype.isdigit 0 ≡ false) (pat : List ℕ) (repl : Replacement)
      (calls : Calls repl) where
    gsub_loop-Counted :
        (fuel : ℕ) (max_s : ℤ) (anchor : Bool) (ms : MatchState) (s n p : ℕ)
        → length src < fuel + s
        → s ≤ length src
        → p ≤ length pat
        → length ms.capture ≡ lua_maxcaptures
        → Ensures
            (Counted src max_s 1 s n)
            (gsub_loop ctype room number_text src pat fuel repl max_s anchor ms s n p)
    unfolding gsub_loop
    gsub_loop-Counted zero max_s anchor ms s n p enough le in_pat size = absurd (omega arith)
    gsub_loop-Counted (suc fuel) max_s anchor ms s n p enough le in_pat size =
        Ensures-if (ltb_ℤ (pos n) max_s)
          (λ h.
            Ensures-bind
              (match-Ensures ctype no_digit src pat (cleared ms) s p in_pat
                (cleared-Inv (length src) s ms size le))
              λ r q.
                on_match-Ensures r q
                  (λ e ms' le' inv.
                    let lt = below n max_s h in
                    Ensures-bind (add_value-ends inv repl s e calls le' inv.within) λ b t.
                      prepend-Ensures {R = Counted src max_s 1 s n} b
                        (Ensures-if (ltb s e)
                          (λ z.
                            let gt = ltb→lt s e z in
                            Ensures-weaken {R = λ r'. Counted src max_s 1 s n (b ++ r'.0, r'.1)}
                              (λ r' h'.
                                matched-Counted src max_s 1 s e n b r' lt
                                  (omega (arith, inv.within, gt)) h')
                              (next-Counted max_s anchor
                                (λ s' n'.
                                  gsub_loop ctype room number_text src pat fuel repl max_s anchor
                                    ms' s' n' p)
                                e (n + 1)
                                (gsub_loop-Counted fuel max_s anchor ms' e (n + 1) p
                                  (omega (arith, gt)) inv.within in_pat inv.size)))
                          (λ z.
                            Ensures-weaken
                              (λ r' h'. matched-Counted src max_s 0 s s n b r' lt (omega arith) h')
                              (rest-Counted max_s anchor _ s (n + 1) λ rest.
                                gsub_loop-Counted fuel max_s anchor ms' (s + 1) (n + 1) p
                                  (omega arith) (omega arith) in_pat inv.size)))
                        (λ r' h'. h'))
                  λ ms' same.
                    Ensures-weaken (λ r'. weaker src max_s s n r')
                      (rest-Counted max_s anchor _ s n λ lt.
                        gsub_loop-Counted fuel max_s anchor ms' (s + 1) n p (omega arith)
                          (omega arith) in_pat (same.size ∙ size)))
          (λ h. value (end-Counted src max_s 1 s n))

    str_gsub-Counted :
        (ms : MatchState) (max_s : ℤ)
        → length ms.capture ≡ lua_maxcaptures
        → Ensures (Counted src max_s 1 0 0) (str_gsub ctype room number_text src pat ms repl max_s)
    unfolding str_gsub
    str_gsub-Counted ms max_s size = Ensures-bind (char_at-Ensures pat 0 (omega arith)) λ x in_x.
        gsub_loop-Counted (length src + 2) max_s (x == b'^') ms 0 0 _ (omega arith) (omega arith)
          (anchored x (length pat) in_x) size

    -- With isdigit false of the zero byte, room for the captures in a MatchState and a replacement whose calls
    -- end, string.gsub ends for every subject, pattern and limit, with an error or a result, and reads nothing
    -- outside. The number of substitutions is at most the limit (0 if that is negative), and at most one more than
    -- the length of the subject.
    pub str_gsub-Bounded :
        (ms : MatchState) (max_s : ℤ)
        → length ms.capture ≡ lua_maxcaptures
        → Ensures
            (λ r. r.1 ≤ pos_part max_s × r.1 ≤ length src + 1)
            (str_gsub ctype room number_text src pat ms repl max_s)
    str_gsub-Bounded ms max_s size =
        Ensures-weaken (λ r h. (h.at_most (omega arith), omega (arith, h.rounds)))
          (str_gsub-Counted ms max_s size)

    -- With isdigit false of the zero byte, such room and such a replacement, the result of string.gsub is the
    -- subject if it reports no substitution.
    pub str_gsub-unchanged :
        (ms : MatchState) (max_s : ℤ) (b : List ℕ)
        → length ms.capture ≡ lua_maxcaptures
        → str_gsub ctype room number_text src pat ms repl max_s ≡ done (b, 0)
        → b ≡ src
    str_gsub-unchanged ms max_s b size h =
        (Ensures-done h (str_gsub-Counted ms max_s size)).unchanged refl
