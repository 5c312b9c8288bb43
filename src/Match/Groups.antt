-- ===== src/Match/Groups.antt =====
-- start_capture, end_capture and match_capture keep the invariant of the captures; a failure undoes them.
use soft_renderer_lua.Base.{
  ℕ, zero, suc, ◌+◌, ◌-◌, ◌≤◌, ◌<◌, ◌≡◌, refl, sym, ap, ◌∙◌, subst, arith, true, ◌==◌, leb,
  Bool-cases, inl, inr, some, List, [], ◌∷◌, length, get_elem?, set, length-set, get_elem?-set_self,
  get_elem?-set_ne, lt_of_get_elem?,
}
use soft_renderer_lua.Base.Run.{Ensures, value, error, Ensures-bind, Ensures-weaken, Ensures-if}
use soft_renderer_lua.Match.{
  lua_maxcaptures, CaptureLength, cap_unfinished, cap_position, closed, Capture, MatchState,
}
use soft_renderer_lua.Match.Parts.{
  Again, found, capture_to_close, is_unfinished, start_capture, end_capture, set_capture, set_level,
  set_len,
}
use soft_renderer_lua.Match.Items.{==→≡, ≠→≢}
use soft_renderer_lua.Match.Captures.{Fits, Inv, Same, Post, Inv-set, or_else-Ensures}

-- A match from a place after `p` in a pattern of length `m`, as the parts of match use it.
abbrev pub Matches : ℕ → ℕ → ℕ → Again → Type 0
Matches n m p again =
    (ms : MatchState) (s p' : ℕ)
    → p < p'
    → p' ≤ m
    → Inv n s ms
    → Ensures (Post n ms s) (again ms s p')

pub found-Ensures :
    {A : Type 0} (v : List A) (i : ℕ)
    → i < length v
    → Ensures (λ c. get_elem? v i ≡ some c) (found (get_elem? v i))
found-Ensures [] i h = absurd (omega arith)
found-Ensures (c ∷ v) zero h = value refl
found-Ensures (c ∷ v) (suc i) h = found-Ensures v i (omega arith)

unfinished : (c : Capture) → is_unfinished c.len ≡ true → c.len ≡ cap_unfinished
unfinished c h = of c.len h
  where
    of : (len : CaptureLength) → is_unfinished len ≡ true → len ≡ cap_unfinished
    of cap_unfinished h = refl
    of cap_position h = absurd (cc)
    of (closed k) h = absurd (cc)

some-inj : {x y : Capture} → some x ≡ some y → x ≡ y
some-inj h = cc

-- The capture that is closed is an open one.
abbrev Open : List Capture → ℕ → ℕ → Type 0
Open cs level l = l < level × ((c : Capture) → get_elem? cs l ≡ some c → c.len ≡ cap_unfinished)

capture_to_close-Ensures :
    (cs : List Capture) (level : ℕ)
    → level ≤ length cs
    → Ensures (Open cs level) (capture_to_close cs level)
unfolding capture_to_close
capture_to_close-Ensures cs zero le = error
capture_to_close-Ensures cs (suc level) le =
    Ensures-bind (found-Ensures cs level (omega arith)) λ c e.
      Ensures-if (is_unfinished c.len)
        (λ h. value (
          omega arith,
          λ d e'. subst (λ x. x.len ≡ cap_unfinished) (some-inj (sym e ∙ e')) (unfinished c h),
        ))
        (λ h.
          Ensures-weaken (λ l k. (omega (arith, k.0), k.1))
            (capture_to_close-Ensures cs level (omega arith)))

-- What set_len does to the capture `l`
abbrev Resized : MatchState → ℕ → CaptureLength → MatchState → Type 0
Resized ms l len ms' =
    (c : Capture) × (get_elem? ms.capture l ≡ some c)
    × (ms' ≡ set_capture ms l (record { init = c.init; len = len }))

set_len-Ensures :
    (ms : MatchState) (l : ℕ) (len : CaptureLength)
    → l < length ms.capture
    → Ensures (Resized ms l len) (set_len ms l len)
unfolding set_len
set_len-Ensures ms l len lt = Ensures-bind (found-Ensures ms.capture l lt) λ c e. value (c, e, refl)

module _ {n s : ℕ} {ms : MatchState} (inv : Inv n s ms) where
  opened :
      (c : Capture)
      → ms.level < lua_maxcaptures
      → Fits n s c.init c.len
      → Inv n s (set_level (set_capture ms ms.level c) (ms.level + 1))
  opened c lt fits =
      Inv-set inv (ms.level + 1) ms.level c (omega arith) lt (λ i h ne. omega arith) fits

  -- The open capture `l` is closed at `s`.
  shut :
      (l : ℕ) (c d : Capture)
      → Open ms.capture ms.level l
      → get_elem? ms.capture l ≡ some c
      → get_elem? ms.capture l ≡ some d
      → Inv n s (set_capture ms l (record { init = d.init; len = closed (s - c.init) }))
  shut l c d (lt, opens) e e' =
      let begins : c.init ≤ s = subst (λ x. Fits n s c.init x) (opens c e) (inv.inside l c lt e) in
      let same : d.init ≡ c.init = ap (λ x. x.init) (some-inj (sym e' ∙ e)) in
      Inv-set inv ms.level l _ inv.bounded (omega (arith, inv.bounded)) (λ i h ne. h)
        (omega (arith, begins, same, inv.within))

undone :
    (ms : MatchState) (c : Capture) {ms' : MatchState}
    → Same (set_level (set_capture ms ms.level c) (ms.level + 1)) ms'
    → Same ms (set_level ms' (ms'.level - 1))
undone ms c h = record {
  level = omega (arith, h.level);
  size = h.size ∙ length-set ms.capture ms.level c;
  kept = λ i lt. h.kept i (omega arith) ∙ get_elem?-set_ne ms.capture c (λ e. omega arith);
}

abbrev reopen : Capture → Capture
reopen d = record { init = d.init; len = cap_unfinished }

-- The capture `l` is open again.
reopened :
    (ms : MatchState) (l : ℕ) (c x d : Capture) {ms' : MatchState}
    → l < ms.level
    → l < length ms.capture
    → get_elem? ms.capture l ≡ some c
    → c.len ≡ cap_unfinished
    → x.init ≡ c.init
    → Same (set_capture ms l x) ms'
    → get_elem? ms'.capture l ≡ some d
    → Same ms (set_capture ms' l (reopen d))
reopened ms l c x d {ms'} lt in_size e un same_init h e' = record {
  level = h.level;
  size = length-set ms'.capture l (reopen d) ∙ h.size ∙ length-set ms.capture l x;
  kept = λ i lt'. elim (Bool-cases (i == l)) [
    | inl q ↦
        ap (λ k. get_elem? (set ms'.capture l (reopen d)) k) (==→≡ i l q)
        ∙ get_elem?-set_self ms'.capture l (reopen d) (lt_of_get_elem? ms'.capture l d e')
        ∙ ap some restored
        ∙ sym e
        ∙ ap (λ k. get_elem? ms.capture k) (sym (==→≡ i l q))
    | inr q ↦
        get_elem?-set_ne ms'.capture (reopen d) (λ z. ≠→≢ i l q (sym z))
        ∙ h.kept i lt'
        ∙ get_elem?-set_ne ms.capture x (λ z. ≠→≢ i l q (sym z))
  ];
}
  where
    begins : d.init ≡ c.init
    begins =
        ap (λ y. y.init)
          (some-inj (sym e' ∙ h.kept l lt ∙ get_elem?-set_self ms.capture l x in_size))
        ∙ same_init

    restored : ◌≡◌ (reopen d) c
    restored = λ i. record { init = begins i; len = sym un i }

module _ {n m s : ℕ} {ms : MatchState} (again : Again) (inv : Inv n s ms) where
  pub start_capture-Ensures :
      (p p' : ℕ) (what : CaptureLength)
      → Matches n m p again
      → p < p'
      → p' ≤ m
      → Fits n s s what
      → Ensures (Post n ms s) (start_capture again ms s p' what)
  unfolding start_capture
  start_capture-Ensures p p' what matches lt le fits =
      let c : Capture = record { init = s; len = what } in
      Ensures-if (leb lua_maxcaptures ms.level) (λ h. error)
        λ h.
          Ensures-bind (matches _ s p' lt le (opened inv c (ground arith) fits))
            λ r q. or_else-Ensures r (omega arith) q (λ ms' same. value (undone ms c same))

  pub end_capture-Ensures :
      (p p' : ℕ)
      → Matches n m p again
      → p < p'
      → p' ≤ m
      → Ensures (Post n ms s) (end_capture again ms s p')
  unfolding end_capture
  end_capture-Ensures p p' matches lt le =
      Ensures-bind
        (capture_to_close-Ensures ms.capture ms.level (omega (arith, inv.size, inv.bounded)))
        λ l opens.
          let in_size : l < length ms.capture = omega (arith, opens.0, inv.size, inv.bounded) in
          Ensures-bind (found-Ensures ms.capture l in_size) λ c e.
            Ensures-bind (set_len-Ensures ms l _ in_size) λ ms1 (d, e1, q1).
              Ensures-bind
                (matches ms1 s p' lt le (subst (Inv n s) (sym q1) (shut inv l c d opens e e1)))
                λ r q. or_else-Ensures r (omega arith) q λ ms2 same.
                  let same' = subst (λ x. Same x ms2) q1 same in
                  Ensures-bind
                    (set_len-Ensures ms2 l cap_unfinished
                      (omega (arith, same'.size, length-set ms.capture l _, in_size)))
                    λ ms3 (d2, e2, q2). value (
                      subst (Same ms) (sym q2) (
                        reopened ms l c _ d2 opens.0 in_size e (opens.1 c e)
                          (ap (λ y. y.init) (some-inj (sym e1 ∙ e))) same' e2))
