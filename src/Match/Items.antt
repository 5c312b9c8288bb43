-- ===== src/Match/Items.antt =====
-- The items of a pattern: classend ends behind the item, and no test reads outside.
use soft_renderer_lua.Base.{
  ℕ, zero, suc, ◌+◌, ◌-◌, ◌≤◌, ◌<◌, ◌≡◌, ◌≢◌, refl, arith, Bool, true, false, not, ◌&&◌, ◌==◌, ltb,
  leb, Bool-cases, ltb→lt, inl, inr, if◌then◌else◌, List, [], ◌∷◌, length,
}
use soft_renderer_lua.Base.Run.{
  Run, Ensures, value, error, Ensures-bind, Ensures-weaken, Ensures-if,
}
use soft_renderer_lua.Match.{MatchError, char_at, Ctype}
use soft_renderer_lua.Match.Class.{
  l_esc, class_loop, classend, match_class, bracket_round, bracket_loop, matchbracketclass,
  singlematch,
}

-- A read at the length or before it gives a character, and one that is not 0 is before the end.
pub char_at-Ensures :
    (v : List ℕ) (i : ℕ) → i ≤ length v → Ensures (λ c. c ≢ 0 → i < length v) (char_at v i)
unfolding char_at
char_at-Ensures [] zero h = value (λ ne. absurd (ne refl))
char_at-Ensures [] (suc i) h = absurd (omega arith)
char_at-Ensures (c ∷ v) zero h = value (λ ne. omega arith)
char_at-Ensures (c ∷ v) (suc i) h =
    Ensures-weaken (λ x k ne. omega (arith, k ne)) (char_at-Ensures v i (omega arith))

pub ==→≡ : (a b : ℕ) → (a == b) ≡ true → a ≡ b
==→≡ a b h = ground arith

pub ≠→≢ : (a b : ℕ) → (a == b) ≡ false → a ≢ b
≠→≢ a b h = ground arith

-- A character that equals one that is not 0 is before the end.
pub in-eq : {A : Type 0} (c k : ℕ) → 0 < k → (c == k) ≡ true → (c ≢ 0 → A) → A
in-eq c k pos h f = f (λ z. omega (arith, pos, z, ==→≡ c k h))

skipped :
    (b : Bool) (p d n : ℕ)
    → p < n
    → (d ≢ 0 → p + 1 < n)
    → p < (if b && not (d == 0) then p + 2 else p + 1)
      × (if b && not (d == 0) then p + 2 else p + 1) ≤ n
skipped true p d n h k = elim (Bool-cases (d == 0)) [
  | inl e ↦ rw e (omega arith, omega arith)
  | inr e ↦ rw e (omega arith, omega (arith, k (≠→≢ d 0 e)))
]
skipped false p d n h k = (omega arith, omega arith)

negated :
    (p d n : ℕ)
    → p < n
    → (d ≢ 0 → p + 1 < n)
    → p < (if d == b'^' then p + 2 else p + 1) × (if d == b'^' then p + 2 else p + 1) ≤ n
negated p d n h k = elim (Bool-cases (d == b'^')) [
  | inl e ↦ rw e (omega arith, omega (arith, in-eq d b'^' (omega arith) e k))
  | inr e ↦ rw e (omega arith, omega arith)
]

module _ (pat : List ℕ) where
  pub class_loop-Ensures :
      (fuel p : ℕ)
      → p ≤ length pat
      → length pat < fuel + p
      → Ensures (λ q. p < q × q ≤ length pat) (class_loop pat fuel p)
  unfolding class_loop
  class_loop-Ensures zero p le enough = absurd (omega arith)
  class_loop-Ensures (suc fuel) p le enough = Ensures-bind (char_at-Ensures pat p le) λ c in_c.
      Ensures-if (c == 0) (λ e. error)
        λ e.
          let lt = in_c (≠→≢ c 0 e) in
          Ensures-bind (char_at-Ensures pat (p + 1) (omega arith)) λ d in_d.
            let (after, within) = skipped (c == l_esc) p d (length pat) lt in_d in
            Ensures-bind (char_at-Ensures pat _ within) λ x in_x.
              Ensures-if (x == b']')
                (λ h.
                  value (omega (arith, after), omega (arith, in-eq x b']' (omega arith) h in_x)))
                (λ h.
                  Ensures-weaken (λ q k. (omega (arith, after, k.0), k.1))
                    (class_loop-Ensures fuel _ within (omega (arith, after, enough))))

  pub classend-Ensures :
      (p : ℕ) → p < length pat → Ensures (λ q. p < q × q ≤ length pat) (classend pat p)
  unfolding classend
  classend-Ensures p lt = Ensures-bind (char_at-Ensures pat p (omega arith)) λ c in_c.
      Ensures-if (c == l_esc)
        (λ h. Ensures-bind (char_at-Ensures pat (p + 1) (omega arith)) λ d in_d.
          Ensures-if (d == 0) (λ e. error)
            λ e. value (omega arith, omega (arith, in_d (≠→≢ d 0 e))))
        (λ h.
          Ensures-if (c == b'[')
            (λ k. Ensures-bind (char_at-Ensures pat (p + 1) (omega arith)) λ d in_d.
              let (after, within) = negated p d (length pat) lt in_d in
              Ensures-weaken {Q = λ q. _ < q × q ≤ length pat}
                (λ q l. (omega (arith, after, l.0), l.1))
                (class_loop-Ensures (length pat + 1) _ within (omega arith)))
            (λ k. value (omega arith, omega arith)))

-- A test that is made with no read outside.
abbrev pub Tested : Bool → Type 0
Tested b = Unit {0}

module _ (ctype : Ctype) (pat : List ℕ) where
  bracket_round-Ensures :
      (c : ℕ) (sig : Bool) (p ec : ℕ) (again : ℕ → Run MatchError Bool)
      → p < ec
      → ec ≤ length pat
      → ((p' : ℕ) → p ≤ p' → Ensures Tested (again p'))
      → Ensures Tested (bracket_round ctype pat c sig p ec again)
  unfolding bracket_round
  bracket_round-Ensures c sig p ec again lt le k =
      Ensures-bind (char_at-Ensures pat p (omega arith)) λ x in_x.
        Ensures-if (x == l_esc)
          (λ h. Ensures-bind (char_at-Ensures pat (p + 1) (omega arith)) λ cl in_cl.
            Ensures-if (match_class ctype c cl) (λ e. value tt) (λ e. k (p + 1) (omega arith)))
          (λ h. Ensures-bind (char_at-Ensures pat (p + 1) (omega arith)) λ dash in_dash.
            Ensures-if (dash == b'-' && ltb (p + 2) ec)
              (λ e. Ensures-bind (char_at-Ensures pat (p + 2) (ground arith)) λ hi in_hi.
                Ensures-if (leb x c && leb c hi) (λ q. value tt) (λ q. k (p + 2) (omega arith)))
              (λ e. Ensures-if (x == c) (λ q. value tt) (λ q. k p (omega arith))))

  bracket_loop-Ensures :
      (fuel c : ℕ) (sig : Bool) (p ec : ℕ)
      → ec ≤ length pat
      → ec ≤ fuel + p + 1
      → Ensures Tested (bracket_loop ctype pat fuel c sig p ec)
  unfolding bracket_loop
  bracket_loop-Ensures zero c sig p ec le enough =
      Ensures-if (ltb (p + 1) ec) (λ h. absurd (ground arith)) (λ h. value tt)
  bracket_loop-Ensures (suc fuel) c sig p ec le enough =
      Ensures-if (ltb (p + 1) ec)
        (λ h.
          bracket_round-Ensures c sig (p + 1) ec _ (ltb→lt (p + 1) ec h) le
            λ p' after. bracket_loop-Ensures fuel c sig p' ec le (omega arith))
        (λ h. value tt)

  pub matchbracketclass-Ensures :
      (c p ec : ℕ)
      → p < length pat
      → ec ≤ length pat
      → Ensures Tested (matchbracketclass ctype pat c p ec)
  unfolding matchbracketclass
  matchbracketclass-Ensures c p ec lt le =
      Ensures-bind (char_at-Ensures pat (p + 1) (omega arith)) λ x in_x.
        Ensures-if (x == b'^')
          (λ h. bracket_loop-Ensures (length pat) c false (p + 1) ec le (omega arith))
          (λ h. bracket_loop-Ensures (length pat) c true p ec le (omega arith))

  pub singlematch-Ensures :
      (c p ep : ℕ)
      → p < length pat
      → ep ≤ length pat
      → Ensures Tested (singlematch ctype pat c p ep)
  unfolding singlematch
  singlematch-Ensures c p ep lt le = Ensures-bind (char_at-Ensures pat p (omega arith)) λ x in_x.
      Ensures-if (x == b'.') (λ h. value tt)
        λ h.
          Ensures-if (x == l_esc)
            (λ k. Ensures-bind (char_at-Ensures pat (p + 1) (omega arith)) λ cl in_cl. value tt)
            (λ k.
              Ensures-if (x == b'[') (λ q. matchbracketclass-Ensures c p (ep - 1) lt (omega arith))
                (λ q. value tt))
