-- ===== src/Match/Captures.antt =====
-- The captures during a match: an invariant of MatchState, what a failed match keeps of it, and the parts of
-- lstrlib.c that open, close and match captures. `n` is the length of the subject.
use soft_renderer_lua.Base.{
  ℕ, ◌+◌, ◌≤◌, ◌<◌, ◌≡◌, ◌≢◌, refl, sym, ap, ◌∙◌, subst, arith, ◌==◌, Bool-cases, inl, inr, Option,
  none, some, length, get_elem?, set, length-set, get_elem?-set_self, get_elem?-set_ne,
}
use soft_renderer_lua.Base.Run.{Ensures, value}
use soft_renderer_lua.Match.{
  lua_maxcaptures, CaptureLength, cap_unfinished, cap_position, closed, Capture, MatchState,
}
use soft_renderer_lua.Match.Parts.{Answer, or_else, set_capture, set_level}
use soft_renderer_lua.Match.Items.{==→≡, ≠→≢}

-- A closed capture is a part of the subject, and an open one begins at `s` or before it.
abbrev pub Fits : ℕ → ℕ → ℕ → CaptureLength → Type 0
Fits n s init cap_unfinished = init ≤ s
Fits n s init cap_position = init ≤ n
Fits n s init (closed k) = init + k ≤ n

pub record Inv (n s : ℕ) (ms : MatchState) : Type 0 where
  pub size : length ms.capture ≡ lua_maxcaptures
  pub bounded : ms.level ≤ lua_maxcaptures
  pub within : s ≤ n
  pub inside :
      (i : ℕ) (c : Capture) → i < ms.level → get_elem? ms.capture i ≡ some c → Fits n s c.init c.len

-- The level and the captures below it are the same.
pub record Same (ms ms' : MatchState) : Type 0 where
  pub level : ms'.level ≡ ms.level
  pub size : length ms'.capture ≡ length ms.capture
  pub kept : (i : ℕ) → i < ms.level → get_elem? ms'.capture i ≡ get_elem? ms.capture i

pub Same-refl : {ms : MatchState} → Same ms ms
Same-refl = record { level = refl; size = refl; kept = λ i lt. refl }

pub Same-trans : {ms ms' ms'' : MatchState} → Same ms ms' → Same ms' ms'' → Same ms ms''
Same-trans a b = record {
  level = b.level ∙ a.level;
  size = b.size ∙ a.size;
  kept = λ i lt. b.kept i (omega (arith, a.level)) ∙ a.kept i lt;
}

pub Fits-up :
    (n s s' init : ℕ) (len : CaptureLength) → s ≤ s' → Fits n s init len → Fits n s' init len
Fits-up n s s' init cap_unfinished le h = omega arith
Fits-up n s s' init cap_position le h = h
Fits-up n s s' init (closed k) le h = h

module _ {n s : ℕ} {ms : MatchState} (inv : Inv n s ms) where
  pub Inv-Same : {ms' : MatchState} → Same ms ms' → Inv n s ms'
  Inv-Same h = record {
    size = h.size ∙ inv.size;
    bounded = omega (arith, h.level, inv.bounded);
    within = inv.within;
    inside = λ i c lt e.
        let lt' : i < ms.level = omega (arith, h.level) in
        inv.inside i c lt' (sym (h.kept i lt') ∙ e);
  }

  pub Inv-up : (s' : ℕ) → s ≤ s' → s' ≤ n → Inv n s' ms
  Inv-up s' le le' = record {
    size = inv.size;
    bounded = inv.bounded;
    within = le';
    inside = λ i c lt e. Fits-up n s s' c.init c.len le (inv.inside i c lt e);
  }

  pub Inv-set :
      (lv l : ℕ) (c : Capture)
      → lv ≤ lua_maxcaptures
      → l < lua_maxcaptures
      → ((i : ℕ) → i < lv → i ≢ l → i < ms.level)
      → Fits n s c.init c.len
      → Inv n s (set_level (set_capture ms l c) lv)
  Inv-set lv l c le lt below fits = record {
    size = length-set ms.capture l c ∙ inv.size;
    bounded = le;
    within = inv.within;
    inside = λ i d lt' e. elim (Bool-cases (i == l)) [
      | inl q ↦
          let same : d ≡ c = some-inj (
            sym e
            ∙ ap (λ k. get_elem? (set ms.capture l c) k) (==→≡ i l q)
            ∙ get_elem?-set_self ms.capture l c (omega (arith, inv.size))) in
          subst (λ x. Fits n s x.init x.len) (sym same) fits
      | inr q ↦
          inv.inside i d (below i lt' (≠→≢ i l q))
            (sym (get_elem?-set_ne ms.capture c (λ z. ≠→≢ i l q (sym z))) ∙ e)
    ];
  }
    where
      some-inj : {x y : Capture} → some x ≡ some y → x ≡ y
      some-inj h = cc

-- What a match from `s` on gives: the end of what is matched, or NULL and the old captures.
abbrev pub Post : ℕ → MatchState → ℕ → Option ℕ × MatchState → Type 0
Post n ms s (none, ms') = Same ms ms'
Post n ms s (some e, ms') = s ≤ e × Inv n e ms'

pub Post-back :
    (n : ℕ) {s s' : ℕ} {ms ms' : MatchState} (r : Option ℕ × MatchState)
    → s ≤ s'
    → Same ms ms'
    → Post n ms' s' r
    → Post n ms s r
Post-back n (none, ms'') le h q = Same-trans h q
Post-back n (some e, ms'') le h (le', inv) = (omega arith, inv)

pub or_else-Ensures :
    {n s s' : ℕ} {ms ms' : MatchState} {f : MatchState → Answer} (r : Option ℕ × MatchState)
    → s ≤ s'
    → Post n ms' s' r
    → ((ms'' : MatchState) → Same ms' ms'' → Ensures (Post n ms s) (f ms''))
    → Ensures (Post n ms s) (or_else r f)
unfolding or_else
or_else-Ensures (none, ms'') le h k = k ms'' h
or_else-Ensures (some e, ms'') le (le', inv) k = value (omega arith, inv)
