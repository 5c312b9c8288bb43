-- ===== src/Match/Plain.antt =====
-- lmemfind finds the first occurrence of the pattern, and none only if there is none.
use soft_renderer_lua.Base.{
  ℕ, zero, suc, ◌+◌, ◌-◌, ◌≤◌, ◌<◌, ◌≡◌, ◌≢◌, refl, sym, ◌∙◌, subst, arith, Bool, true, false, ◌==◌,
  ltb, ltb→lt, Bool-cases, inl, inr, Option, none, some, List, [], ◌∷◌, length, get_elem?,
  get_elem?_of_lt, lt_of_get_elem?,
}
use soft_renderer_lua.Base.Run.{Run, Ensures, value, Ensures-bind, Ensures-weaken, Ensures-if}
use soft_renderer_lua.Match.{MatchError}
use soft_renderer_lua.Match.Items.{==→≡, ≠→≢}
use soft_renderer_lua.Match.Recall.{mem_cmp-Ensures}
use soft_renderer_lua.Match.Find.{lmemfind_round, lmemfind_loop, lmemfind}
use soft_renderer_lua.Match.Bytes.{
  FirstByte, some-inj, byte-Ensures, mem_chr-Ensures, SameBytes, same_part-SameBytes,
  SameBytes-same_part, moved,
}

-- The string `pat` stands in `src` at `i`.
abbrev pub Occurs : List ℕ → List ℕ → ℕ → Type 0
Occurs src pat i = (j : ℕ) → j < length pat → get_elem? src (i + j) ≡ get_elem? pat j

-- The first place from `s` on where it stands, or none if there is no such place.
abbrev pub FirstFrom : List ℕ → List ℕ → ℕ → Option ℕ → Type 0
FirstFrom src pat s none = (k : ℕ) → s ≤ k → Occurs src pat k → ⊥
FirstFrom src pat s (some i) =
    s ≤ i × Occurs src pat i × ((k : ℕ) → s ≤ k → k < i → Occurs src pat k → ⊥)

module _ (src pat : List ℕ) where
  -- An occurrence begins with the first byte, and lies in the subject.
  Occurs-byte : (c k : ℕ) → get_elem? pat 0 ≡ some c → Occurs src pat k → get_elem? src k ≡ some c
  Occurs-byte c k e h = moved src k (k + 0) (omega arith) ∙ h 0 (lt_of_get_elem? pat 0 c e) ∙ e

  pub Occurs-within : (k n : ℕ) → length pat ≡ suc n → Occurs src pat k → k + n < length src
  Occurs-within k n e h =
      let (x, e') = get_elem?_of_lt pat n (omega (arith, e)) in
      lt_of_get_elem? src (k + n) x (h n (omega (arith, e)) ∙ e')

  -- The first byte and the rest
  Occurs-same :
      (c m n : ℕ)
      → length pat ≡ suc n
      → get_elem? pat 0 ≡ some c
      → get_elem? src m ≡ some c
      → SameBytes src (m + 1) pat 1 n
      → Occurs src pat m
  Occurs-same c m n e p q h zero lt = moved src (m + 0) m (omega arith) ∙ q ∙ sym p
  Occurs-same c m n e p q h (suc j) lt =
      moved src (m + suc j) (m + 1 + j) (omega arith)
      ∙ h j (omega (arith, e))
      ∙ moved pat (1 + j) (suc j) (omega arith)

  Occurs-rest : (m n : ℕ) → length pat ≡ suc n → Occurs src pat m → SameBytes src (m + 1) pat 1 n
  Occurs-rest m n e o j lt =
      moved src (m + 1 + j) (m + suc j) (omega arith)
      ∙ o (suc j) (omega (arith, e))
      ∙ moved pat (suc j) (1 + j) (omega arith)

  -- What is no occurrence before `m` and none from `m` on is none at all.
  further :
      (s m : ℕ) (r : Option ℕ)
      → s ≤ m
      → ((k : ℕ) → s ≤ k → k < m → Occurs src pat k → ⊥)
      → FirstFrom src pat m r
      → FirstFrom src pat s r
  further s m none le h q = λ k h1 o. elim (Bool-cases (ltb k m)) [
    | inl e ↦ h k h1 (ltb→lt k m e) o
    | inr e ↦ q k (ground arith) o
  ]
  further s m (some i) le h (le', o, q) = (
    omega arith,
    o,
    λ k h1 h2 o'. elim (Bool-cases (ltb k m)) [
      | inl e ↦ h k h1 (ltb→lt k m e) o'
      | inr e ↦ q k (ground arith) h2 o'
    ],
  )

  module _ (c n : ℕ) (size : length pat ≡ suc n) (first : get_elem? pat 0 ≡ some c) where
    back : (m : ℕ) → m ≡ m + 1 - 1
    back m = omega arith

    differs : (a b : Bool) → a ≡ b → a ≡ false → b ≡ true → ⊥
    differs a b e h h' = cc

    not_before :
        (s m : ℕ)
        → ((k : ℕ) → s ≤ k → k < m → get_elem? src k ≢ some c)
        → (Occurs src pat m → ⊥)
        → (k : ℕ) → s ≤ k
        → k < m + 1
        → Occurs src pat k
        → ⊥
    not_before s m no_byte not_at k h1 h2 o = elim (Bool-cases (k == m)) [
      | inl e ↦ not_at (subst (Occurs src pat) (==→≡ k m e) o)
      | inr e ↦ no_byte k h1 (omega (arith, ≠→≢ k m e)) (Occurs-byte c k first o)
    ]

    lmemfind_round-FirstFrom :
        (s1 l1 : ℕ) (r : Option ℕ) (again : ℕ → ℕ → Run MatchError (Option ℕ))
        → s1 + l1 + n ≡ length src
        → FirstByte src c s1 l1 r
        → ((s l : ℕ) → l < l1 → s + l + n ≡ length src → Ensures (FirstFrom src pat s) (again s l))
        → Ensures (FirstFrom src pat s1) (lmemfind_round src pat s1 l1 n r again)
    unfolding lmemfind_round
    lmemfind_round-FirstFrom s1 l1 none again fit no_byte k = value λ i le o.
        no_byte i le (omega (arith, Occurs-within i n size o, fit)) (Occurs-byte c i first o)
    lmemfind_round-FirstFrom s1 l1 (some m) again fit (le, lt, e, no_byte) k =
        Ensures-bind
          (mem_cmp-Ensures src (m + 1) pat 1 n (omega (arith, fit, lt)) (omega (arith, size)))
          λ same q.
            Ensures-if same
              (λ h. value (
                subst (λ i. FirstFrom src pat s1 (some i)) (back m)
                  (
                    le,
                    Occurs-same c m n size first e
                        (same_part-SameBytes src (m + 1) pat 1 n (sym q ∙ h)),
                    λ i h1 h2 o. no_byte i h1 h2 (Occurs-byte c i first o),
                  )))
              (λ h.
                Ensures-weaken
                  (λ r z.
                    further s1 (m + 1) r (omega arith)
                      (not_before s1 m no_byte λ o.
                        differs same _ q h
                          (SameBytes-same_part src (m + 1) pat 1 n (Occurs-rest m n size o)))
                      z)
                  (k (m + 1) (l1 - (m + 1 - s1)) (omega arith) (omega (arith, fit))))

    lmemfind_loop-FirstFrom :
        (fuel s1 l1 : ℕ)
        → s1 + l1 + n ≡ length src
        → l1 < fuel
        → Ensures (FirstFrom src pat s1) (lmemfind_loop src pat fuel s1 l1 n)
    unfolding lmemfind_loop
    lmemfind_loop-FirstFrom zero s1 l1 fit enough = absurd (omega arith)
    lmemfind_loop-FirstFrom (suc fuel) s1 l1 fit enough =
        Ensures-if (ltb 0 l1)
          (λ h. Ensures-bind (byte-Ensures pat 0 (omega (arith, size))) λ d e.
            Ensures-bind (mem_chr-Ensures src s1 d l1 (omega (arith, fit))) λ r q.
              lmemfind_round-FirstFrom s1 l1 r _ fit
                (subst (λ x. FirstByte src x s1 l1 r) (some-inj (sym e ∙ first)) q)
                λ s l lt fit'. lmemfind_loop-FirstFrom fuel s l fit' (omega arith))
          (λ h.
            let none_left : l1 ≡ 0 = ground arith in
            value λ k le o. omega (arith, Occurs-within k n size o, fit, none_left))

-- From a place of the subject on, lmemfind with the lengths of the rest of the subject and of the pattern
-- gives the first occurrence of the pattern, and NULL only if there is none; it ends and reads nothing outside.
pub lmemfind-FirstFrom :
    (src pat : List ℕ) (s : ℕ)
    → s ≤ length src
    → Ensures (FirstFrom src pat s) (lmemfind src pat s (length src - s) (length pat))
unfolding lmemfind
lmemfind-FirstFrom src [] s le =
    value (omega arith, (λ j lt. elim lt [ ]), λ k h1 h2 o. omega arith)
lmemfind-FirstFrom src (c ∷ pat) s le =
    Ensures-if (length (c ∷ pat) == 0) (λ h. absurd (ground arith))
      λ h.
        Ensures-if (ltb (length src - s) (length (c ∷ pat)))
          (λ k. value λ i le' o.
            let lt = ltb→lt (length src - s) (length (c ∷ pat)) k in
            omega (arith, lt, Occurs-within src (c ∷ pat) i (length pat) refl o))
          (λ k.
            let fits : length (c ∷ pat) ≤ length src - s = ground arith in
            lmemfind_loop-FirstFrom src (c ∷ pat) c (length (c ∷ pat) - 1) (omega arith) refl
              (length src - s + 1) s (length src - s - (length (c ∷ pat) - 1)) (omega (arith, fits))
              (omega arith))
