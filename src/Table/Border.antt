-- ===== src/Table/Border.antt =====
-- The loops of unbound_search and luaH_getn end, and where they end is a border.
use native.Mathlib.Nat.{pow-suc}
use soft_renderer_lua.Base.{
  ℕ, zero, suc, ◌+◌, ◌-◌, ◌*◌, ◌/◌, ◌%◌, ◌^◌, ◌≤◌, ◌<◌, ◌≡◌, refl, ap, ◌∙◌, arith, Bool, true,
  false, ltb, Bool-cases, Option, some, inl, inr, ◌⊎◌,
}
use soft_renderer_lua.Table.{max_int}
use soft_renderer_lua.Table.Search.{binary_search, linear_search, double_search}

module _ (absent : ℕ → Option Bool) where
  -- Zero or a present index.
  abbrev pub Start : ℕ → Type 0
  Start n = (n ≡ 0) ⊎ (absent n ≡ some false)

  -- A present index, or zero, before an absent one.
  abbrev pub Boundary : ℕ → Type 0
  Boundary n = Start n × (absent (n + 1) ≡ some true)

  -- Every index of an interval has an answer.
  abbrev pub Total : ℕ → Type 0
  Total top = (k : ℕ) → 0 < k → k < top → (absent k ≡ some true) ⊎ (absent k ≡ some false)

  -- One round of each loop.
  binary_near :
      (f i j : ℕ)
      → ltb 1 ((j + 2 ^ 32 - i) % 2 ^ 32) ≡ false
      → binary_search absent (suc f) i j ≡ some i
  unfolding binary_search
  binary_near f i j near = rw (binary_search, near) refl

  binary_low :
      (f i j : ℕ)
      → ltb 1 ((j + 2 ^ 32 - i) % 2 ^ 32) ≡ true
      → absent ((i + j) % 2 ^ 32 / 2) ≡ some true
      → binary_search absent (suc f) i j ≡ binary_search absent f i ((i + j) % 2 ^ 32 / 2)
  unfolding binary_search
  binary_low f i j far gone = rw (binary_search, far, gone) refl

  binary_high :
      (f i j : ℕ)
      → ltb 1 ((j + 2 ^ 32 - i) % 2 ^ 32) ≡ true
      → absent ((i + j) % 2 ^ 32 / 2) ≡ some false
      → binary_search absent (suc f) i j ≡ binary_search absent f ((i + j) % 2 ^ 32 / 2) j
  unfolding binary_search
  binary_high f i j far here = rw (binary_search, far, here) refl

  linear_stop :
      (f i : ℕ)
      → absent i ≡ some true
      → linear_search absent (suc f) i ≡ some ((i + 2 ^ 32 - 1) % 2 ^ 32)
  unfolding linear_search
  linear_stop f i gone = rw (linear_search, gone) refl

  linear_on :
      (f i : ℕ)
      → absent i ≡ some false
      → linear_search absent (suc f) i ≡ linear_search absent f ((i + 1) % 2 ^ 32)
  unfolding linear_search
  linear_on f i here = rw (linear_search, here) refl

  double_found :
      (f i j : ℕ)
      → absent j ≡ some true
      → double_search absent (suc f) i j ≡ binary_search absent 32 i j
  unfolding double_search
  double_found f i j gone = rw (double_search, gone) refl

  double_over :
      (f i j : ℕ)
      → absent j ≡ some false
      → ltb max_int (j * 2 % 2 ^ 32) ≡ true
      → double_search absent (suc f) i j ≡ linear_search absent (2 ^ 31) 1
  unfolding double_search
  double_over f i j here over = rw (double_search, here, over) refl

  double_on :
      (f i j : ℕ)
      → absent j ≡ some false
      → ltb max_int (j * 2 % 2 ^ 32) ≡ false
      → double_search absent (suc f) i j ≡ double_search absent f j (j * 2 % 2 ^ 32)
  unfolding double_search
  double_on f i j here under = rw (double_search, here, under) refl

  pub binary_search_lem :
      (f i j : ℕ)
      → i < j
      → j < 2 ^ 31
      → j - i ≤ 2 ^ f
      → Total j
      → Start i
      → absent j ≡ some true
      → (n : ℕ) × (binary_search absent (suc f) i j ≡ some n) × (n < j) × Boundary n
  binary_search_lem zero i j ij jb gap total start stop =
      let near : ltb 1 ((j + 2 ^ 32 - i) % 2 ^ 32) ≡ false = ground arith in
      let e : i + 1 ≡ j = ground arith in (i, binary_near _ i j near, ij, (start, rw e stop))
  binary_search_lem (suc g) i j ij jb gap total start stop =
      let m = (i + j) % 2 ^ 32 / 2 in
      elim (Bool-cases (ltb 1 ((j + 2 ^ 32 - i) % 2 ^ 32))) [
        | inr near ↦
            let e : i + 1 ≡ j = ground arith in (i, binary_near _ i j near, ij, (start, rw e stop))
        | inl far ↦
            let i_m : i < m = ground arith in
            let m_j : m < j = ground arith in
            let low : m - i ≤ 2 ^ g = omega (arith, pow-suc 2 g) in
            let high : j - m ≤ 2 ^ g = omega (arith, pow-suc 2 g) in
            elim (total m (omega arith) m_j) [
              | inl gone ↦
                  let (n, run, below, border) =
                    binary_search_lem g i m i_m (omega arith) low
                      (λ k lo hi. total k lo (omega arith)) start gone in
                  (n, binary_low _ i j far gone ∙ run, omega arith, border)
              | inr here ↦
                  let (n, run, below, border) =
                    binary_search_lem g m j m_j jb high total (inr here) stop in
                  (n, binary_high _ i j far here ∙ run, below, border)
            ]
      ]

  pub linear_search_lem :
      (fuel i d b : ℕ)
      → 0 < i
      → i + d ≡ b
      → b < 2 ^ 31
      → d < fuel
      → Total b
      → Start (i - 1)
      → absent b ≡ some true
      → (n : ℕ) × (linear_search absent fuel i ≡ some n) × (n < b) × Boundary n
  linear_search_lem zero i d b pos_i sum bb df total start stop = absurd (omega arith)
  linear_search_lem (suc fuel) i zero b pos_i sum bb df total start stop =
      let e : i ≡ b = omega arith in
      let back : (i + 2 ^ 32 - 1) % 2 ^ 32 ≡ i - 1 = omega arith in
      let next : i - 1 + 1 ≡ b = omega arith in
      let gone : absent i ≡ some true = rw e stop in
      (i - 1, linear_stop _ i gone ∙ ap some back, omega arith, (start, rw next stop))
  linear_search_lem (suc fuel) i (suc d) b pos_i sum bb df total start stop =
      let back : (i + 2 ^ 32 - 1) % 2 ^ 32 ≡ i - 1 = omega arith in
      let ahead : (i + 1) % 2 ^ 32 ≡ i + 1 = omega arith in
      let next : i - 1 + 1 ≡ i = omega arith in
      let same : i + 1 - 1 ≡ i = omega arith in
      elim (total i pos_i (omega arith)) [
        | inl gone ↦
            (i - 1, linear_stop _ i gone ∙ ap some back, omega arith, (start, rw next gone))
        | inr here ↦
            let (n, run, below, border) =
              linear_search_lem fuel (i + 1) d b (omega arith) (omega arith) bb (omega arith) total
                (rw same (inr here)) stop in
            (n, linear_on _ i here ∙ ap (linear_search absent fuel) ahead ∙ run, below, border)
      ]

  pub double_search_lem :
      (fuel i j b : ℕ)
      → i < j
      → j ≤ max_int
      → max_int < j * 2 ^ fuel
      → 0 < b
      → b < 2 ^ 31
      → Total (2 ^ 31)
      → Start i
      → absent b ≡ some true
      → (n : ℕ) × (double_search absent fuel i j ≡ some n) × Boundary n
  double_search_lem zero i j b ij jb enough b0 b1 total start stop = absurd (omega arith)
  double_search_lem (suc fuel) i j b ij jb enough b0 b1 total start stop =
      elim (total j (omega arith) (omega arith)) [
        | inl gone ↦
            let (n, run, below, border) =
              binary_search_lem 31 i j ij (omega arith) (omega arith)
                (λ k lo hi. total k lo (omega arith)) start gone in
            (n, double_found _ i j gone ∙ run, border)
        | inr here ↦ elim (Bool-cases (ltb max_int (j * 2 % 2 ^ 32))) [
          | inl over ↦
              let (n, run, below, border) =
                linear_search_lem (2 ^ 31) 1 (b - 1) b (omega arith) (omega arith) b1 (omega arith)
                  (λ k lo hi. total k lo (omega arith)) (inl refl) stop in
              (n, double_over _ i j here over ∙ run, border)
          | inr under ↦
              let twice : j * 2 % 2 ^ 32 ≡ j * 2 = omega arith in
              let (n, run, border) =
                double_search_lem fuel j (j * 2) b (omega arith) (ground arith)
                  (omega (arith, pow-suc 2 fuel, ap (λ (t : ℕ). j * t) (pow-suc 2 fuel))) b0 b1
                  total (inr here) stop in
              (n, double_on _ i j here under ∙ ap (double_search absent fuel j) twice ∙ run, border)
        ]
      ]
