-- ===== src/Chunk/Reading.antt =====
-- How a function of lundump.c reads an encoding off a stream, and what it does when the stream ends
-- too early; such functions compose.
use mathlib.Core.List.{append_assoc}
use soft_renderer_lua.Base.{
  ℕ, suc, ◌-◌, ◌≤◌, ◌≡◌, refl, ap, ◌∙◌, arith, Bool, true, false, List, [], ◌∷◌, ◌++◌, length,
  length-append, ◌⊎◌, inl, inr,
}
use soft_renderer_lua.Zio.{Reader, Zio}
use soft_renderer_lua.Zio.Stream.{Holds}
use soft_renderer_lua.Zio.Read.{read_lem}
use soft_renderer_lua.Chunk.Bytes.{take-append_exact, drop-append_exact}
use soft_renderer_lua.Chunk.Undump.{
  Error, unexpected_end, ok, err, Loader, then_load, ◌>>=◌, pure, check, load_all, load_block,
}

-- Where a cut through `a ++ b` falls: inside `a`, or behind it.
cut_cases :
    (a b s t : List ℕ) (c : ℕ)
    → a ++ b ≡ s ++ c ∷ t
    → ((c' : ℕ) × (t' : List ℕ) × (a ≡ s ++ c' ∷ t'))
      ⊎ ((s' : List ℕ) × (s ≡ a ++ s') × (b ≡ s' ++ c ∷ t))
cut_cases [] b s t c e = inr (s, refl, e)
cut_cases (x ∷ a) b [] t c e = inl (x, a, refl)
cut_cases (x ∷ a) b (y ∷ s) t c e = elim (cut_cases a b s t c (cc e)) [
  | inl (c', t', p) ↦ inl (c', t', cc)
  | inr (s', p, q) ↦ inr (s', cc, q)
]

module _ {D : Type 0} (reader : Reader D) where
  -- From a stream that begins with `bytes`, `m` loads `a` and takes `bytes` off; from one that ends
  -- inside `bytes` it fails with the error of a short read.
  pub record Reads {A : Type 0} (m : Loader D A) (bytes : List ℕ) (a : A) : Type 0 where
    pub whole :
        (z : Zio D) (s : List ℕ)
        → Holds reader z (bytes ++ s)
        → (z' : Zio D) × (m z ≡ ok (a, z')) × Holds reader z' s
    pub cut :
        (z : Zio D) (s t : List ℕ) (c : ℕ)
        → bytes ≡ s ++ c ∷ t
        → Holds reader z s
        → m z ≡ err unexpected_end

  pub pure-Reads : {A : Type 0} (a : A) → Reads (pure a) [] a
  pure-Reads a = record {
    whole = λ z s h. (z, refl, h);
    cut = λ z s t c e h. absurd (no_cut s t c e);
  }
    where
      no_cut : (s t : List ℕ) (c : ℕ) → ◌≡◌ {A = List ℕ} [] (s ++ c ∷ t) → ⊥
      no_cut [] t c e = cc
      no_cut (x ∷ s) t c e = cc

  pub bind-Reads :
      {A B : Type 0} {m : Loader D A} {p q : List ℕ} {a : A} {b : B} (k : A → Loader D B)
      → Reads m p a
      → Reads (k a) q b
      → Reads (m >>= k) (p ++ q) b
  bind-Reads {p = p} {q = q} {a = a} k hm hk = record {
    whole = λ z s h.
        let (z', run, h') = hm.whole z (q ++ s) (rw (← append_assoc p q s) h) in
        let (z'', run', h'') = hk.whole z' s h' in (z'', ap (λ r. then_load r k) run ∙ run', h'');
    cut = λ z s t c e h. elim (cut_cases p q s t c e) [
      | inl (c', t', inside) ↦ ap (λ r. then_load r k) (hm.cut z s t' c' inside h)
      | inr (s', behind, rest) ↦
          let (z', run, h') = hm.whole z s' (rw (← behind) h) in
          ap (λ r. then_load r k) run ∙ hk.cut z' s' t c rest h'
    ];
  }

  -- A test that succeeds.
  pub check-Reads : (b : Bool) (e : Error) → b ≡ true → Reads (check b e) [] tt
  unfolding check
  check-Reads true e h = pure-Reads tt
  check-Reads false e h = absurd (cc)

  pub block-Reads :
      (n : ℕ) (bytes : List ℕ) → length bytes ≡ n → Reads (load_block reader n) bytes bytes
  unfolding load_block load_all
  block-Reads n bytes e = record {
    whole = λ z s h.
        let (z', run, rest) = read_lem reader z n (bytes ++ s) h in
        let none_missing : n - length (bytes ++ s) ≡ 0 = omega (arith, length-append bytes s) in
        let enough : n ≤ length (bytes ++ s) = omega (arith, length-append bytes s) in
        (
          z',
          ap load_all run ∙ rw (none_missing, take-append_exact n bytes s e),
          rw (drop-append_exact n bytes s e) at (rest enough),
        );
    cut = λ z s t c e' h.
        let (z', run, rest) = read_lem reader z n s h in
        let short : n - length s ≡ suc (n - length s - 1) =
          omega (arith, e, ap length e', length-append s (c ∷ t)) in
        ap load_all run ∙ rw short;
  }

  -- The value that is loaded, and the bytes, up to an equation.
  pub Reads-to :
      {A : Type 0} {m : Loader D A} {p q : List ℕ} {a b : A}
      → p ≡ q
      → a ≡ b
      → Reads m p a
      → Reads m q b
  Reads-to e e' h = rw (← e, ← e') h
