-- ===== src/Table/Sizes.antt =====
-- computesizes finds the largest power of two of which more than half the indices are in use.
use native.Mathlib.Nat.{pow-suc}
use soft_renderer_lua.Base.{
  ℕ, zero, suc, ◌+◌, ◌*◌, ◌/◌, ◌^◌, ◌≤◌, ◌<◌, ◌≡◌, refl, ap, ◌∙◌, arith, true, false, ltb, ◌==◌,
  Bool-cases, some, List, [], ◌∷◌, length, take, inl, inr, ◌⊎◌, if◌then◌else◌, ◌&&◌,
}
use soft_renderer_lua.Table.Rehash.{sizes_loop, computesizes}

abbrev pub sum : List ℕ → ℕ
sum [] = 0
sum (n ∷ ns) = n + sum ns

-- How many of the counted indices are at most `2 ^ k`.
abbrev pub in_use : List ℕ → ℕ → ℕ
in_use nums k = sum (take (suc k) nums)

-- A size that the loop may choose from here on, with the number of indices in use.
data Candidate : ℕ → ℕ → List ℕ → ℕ → ℕ → Type 0 where
  here : {a w c : ℕ} {nums : List ℕ} → w / 2 < a + c → Candidate a w (c ∷ nums) w (a + c)
  later :
      {a w c size used : ℕ} {nums : List ℕ}
      → Candidate (a + c) (w * 2) nums size used
      → Candidate a w (c ∷ nums) size used

-- The first so many indices hold at most so many keys.
data Slices : ℕ → ℕ → List ℕ → Type 0 where
  done : {a w : ℕ} → Slices a w []
  slice :
      {a w c : ℕ} {nums : List ℕ} → a + c ≤ w → Slices (a + c) (w * 2) nums → Slices a w (c ∷ nums)

Candidate-bounds :
    (a w size used : ℕ) (nums : List ℕ)
    → Candidate a w nums size used
    → (w ≤ size) × (size / 2 < used) × (used ≤ a + sum nums)
Candidate-bounds a w size used nums (here lt) = (omega arith, lt, omega arith)
Candidate-bounds a w size used (c ∷ nums) (later cand) =
    let (big, half, total) = Candidate-bounds (a + c) (w * 2) size used nums cand in
    (omega arith, half, omega arith)

-- The best size after this entry.
abbrev update : ℕ → ℕ → ℕ → ℕ × ℕ → ℕ × ℕ
update a w c best = if ltb 0 c && ltb (w / 2) (a + c) then (w, a + c) else best

update_yes : (a w c : ℕ) (best : ℕ × ℕ) → a ≤ w / 2 → w / 2 < a + c → update a w c best ≡ (w, a + c)
update_yes a w c best low lt =
    let some_here : ltb 0 c ≡ true = ground arith in
    let half : ltb (w / 2) (a + c) ≡ true = ground arith in rw (some_here, half) refl

update_no : (a w c : ℕ) (best : ℕ × ℕ) → a + c ≤ w / 2 → update a w c best ≡ best
update_no a w c best le =
    let half : ltb (w / 2) (a + c) ≡ false = ground arith in
    elim (Bool-cases (ltb 0 c)) [ inl e ↦ rw (e, half) refl | inr e ↦ rw e refl ]

module _ (nums : List ℕ) (narray a w c : ℕ) (best : ℕ × ℕ) where
  loop_stop : ltb (w / 2) narray ≡ false → sizes_loop (c ∷ nums) narray w a best ≡ some best
  unfolding sizes_loop
  loop_stop e = rw (sizes_loop, e) refl

  loop_break :
      ltb (w / 2) narray ≡ true
      → ((a + c) == narray) ≡ true
      → sizes_loop (c ∷ nums) narray w a best ≡ some (update a w c best)
  unfolding sizes_loop
  loop_break e f = rw (sizes_loop, e, f) refl

  loop_on :
      ltb (w / 2) narray ≡ true
      → ((a + c) == narray) ≡ false
      → sizes_loop (c ∷ nums) narray w a best
        ≡ sizes_loop nums narray (w * 2) (a + c) (update a w c best)
  unfolding sizes_loop
  loop_on e f = rw (sizes_loop, e, f) refl

-- The result is a candidate, or none is left and it is the best size so far; no candidate is larger.
record Best (a w : ℕ) (nums : List ℕ) (best r : ℕ × ℕ) : Type 0 where
  chosen : (r ≡ best) ⊎ Candidate a w nums r.0 r.1
  largest : (size used : ℕ) → Candidate a w nums size used → size ≤ r.0

nothing_left :
    (a w : ℕ) (nums : List ℕ) (best : ℕ × ℕ) → a + sum nums ≤ w / 2 → Best a w nums best best
nothing_left a w nums best le = record {
  chosen = inl refl;
  largest = λ size used cand.
      let (big, half, total) = Candidate-bounds a w size used nums cand in absurd (omega arith);
}

-- One entry more in front.
Best-cons :
    (a w c : ℕ) (nums : List ℕ) (best r : ℕ × ℕ)
    → a ≤ w / 2
    → Best (a + c) (w * 2) nums (update a w c best) r
    → Best a w (c ∷ nums) best r
Best-cons a w c nums best r low b = record { chosen = choice; largest = bound }
  where
    choice : (r ≡ best) ⊎ Candidate a w (c ∷ nums) r.0 r.1
    choice = elim b.chosen [
      | inr cand ↦ inr (later cand)
      | inl same ↦ elim (Bool-cases (ltb (w / 2) (a + c))) [
        | inl half ↦
            let e : r ≡ (w, a + c) = same ∙ update_yes a w c best low (ground arith) in
            inr (rw e (here (ground arith)))
        | inr half ↦ inl (same ∙ update_no a w c best (ground arith))
      ]
    ]

    first : w / 2 < a + c → w ≤ r.0
    first half = elim b.chosen [
      | inl same ↦
          let e : r ≡ (w, a + c) = same ∙ update_yes a w c best low half in
          let e' : r.0 ≡ w = ap (λ (x : ℕ × ℕ). x.0) e in omega arith
      | inr cand ↦
          let (big, _, _) = Candidate-bounds (a + c) (w * 2) r.0 r.1 nums cand in omega arith
    ]

    bound : (size used : ℕ) → Candidate a w (c ∷ nums) size used → size ≤ r.0
    bound size used (here half) = first half
    bound size used (later cand) = b.largest size used cand

loop_lem :
    (nums : List ℕ) (narray a w : ℕ) (best : ℕ × ℕ)
    → narray ≡ a + sum nums
    → a ≤ w / 2
    → Slices a w nums
    → (r : ℕ × ℕ) × (sizes_loop nums narray w a best ≡ some r) × Best a w nums best r
unfolding sizes_loop
loop_lem [] narray a w best total low slices =
    (best, ground arith, nothing_left a w [] best (omega arith))
loop_lem (c ∷ nums) narray a w best total low (slice fits slices) =
    elim (Bool-cases (ltb (w / 2) narray)) [
      | inr out ↦ (
        best,
        loop_stop nums narray a w c best out,
        nothing_left a w (c ∷ nums) best (ground arith),
      )
      | inl more ↦ elim (Bool-cases ((a + c) == narray)) [
        | inl all ↦
            let e : a + c ≡ narray = ground arith in
            (
              update a w c best,
              loop_break nums narray a w c best more all,
              Best-cons a w c nums best _ low
                  (nothing_left (a + c) (w * 2) nums (update a w c best) (omega arith)),
            )
        | inr rest ↦
            let (r, run, b) =
              loop_lem nums narray (a + c) (w * 2) (update a w c best) (omega arith) (omega arith)
                slices in
            (r, loop_on nums narray a w c best more rest ∙ run, Best-cons a w c nums best r low b)
      ]
    ]

-- Candidates by their exponent.
Candidate-exponent :
    (a w size used : ℕ) (nums : List ℕ)
    → Candidate a w nums size used
    → (k : ℕ) × (k < length nums) × (size ≡ w * 2 ^ k) × (used ≡ a + sum (take (suc k) nums))
Candidate-exponent a w size used [] cand = elim cand [ ]
Candidate-exponent a w size used (c ∷ nums) (here lt) = (0, omega arith, omega arith, omega arith)
Candidate-exponent a w size used (c ∷ nums) (later cand) =
    let (k, lt, power, total) = Candidate-exponent (a + c) (w * 2) size used nums cand in
    (suc k, omega arith, omega (arith, ap (λ (t : ℕ). w * t) (pow-suc 2 k)), omega arith)

exponent-Candidate :
    (a w k size used : ℕ) (nums : List ℕ)
    → k < length nums
    → size ≡ w * 2 ^ k
    → used ≡ a + sum (take (suc k) nums)
    → size / 2 < used
    → Candidate a w nums size used
exponent-Candidate a w k size used [] lt power total half = absurd (omega arith)
exponent-Candidate a w zero size used (c ∷ nums) lt power total half =
    let e : size ≡ w = omega arith in
    let f : used ≡ a + c = omega arith in rw (e, f) (here (omega arith))
exponent-Candidate a w (suc k) size used (c ∷ nums) lt power total half = later (
    exponent-Candidate (a + c) (w * 2) k size used nums (omega arith)
      (omega (arith, ap (λ (t : ℕ). w * t) (pow-suc 2 k))) (omega arith) half)

Slices-of :
    (a w : ℕ) (nums : List ℕ)
    → ((k : ℕ) → k < length nums → a + sum (take (suc k) nums) ≤ w * 2 ^ k)
    → Slices a w nums
Slices-of a w [] h = done
Slices-of a w (c ∷ nums) h = slice (omega (arith, h 0 (omega arith))) (
    Slices-of (a + c) (w * 2) nums
      λ k lt. omega (arith, h (suc k) (omega arith), ap (λ (t : ℕ). w * t) (pow-suc 2 k)))

-- Where no `2 ^ k` first indices hold more than `2 ^ k` keys, computesizes returns and chooses the largest
-- power of two of which more than half the indices are in use, with their number, or 0 and 0 when there
-- is none.
pub computesizes-optimal :
    (nums : List ℕ)
    → ((k : ℕ) → k < length nums → in_use nums k ≤ 2 ^ k)
    → (n : ℕ) × (na : ℕ) × (computesizes nums (sum nums) ≡ some (n, na))
      × (((n ≡ 0) × (na ≡ 0))
          ⊎ ((k : ℕ) × (k < length nums) × (n ≡ 2 ^ k) × (na ≡ in_use nums k) × (n / 2 < na)))
      × ((k : ℕ) → k < length nums → 2 ^ k / 2 < in_use nums k → 2 ^ k ≤ n)
unfolding computesizes
computesizes-optimal nums h =
    let slices = Slices-of 0 1 nums λ k lt. omega (arith, h k lt) in
    let (r, run, b) = loop_lem nums (sum nums) 0 1 (0, 0) (omega arith) (omega arith) slices in
    (
      r.0,
      r.1,
      run,
      elim b.chosen [
        | inl same ↦ inl (ap (λ (x : ℕ × ℕ). x.0) same, ap (λ (x : ℕ × ℕ). x.1) same)
        | inr cand ↦
            let (k, lt, power, total) = Candidate-exponent 0 1 r.0 r.1 nums cand in
            let (_, half, _) = Candidate-bounds 0 1 r.0 r.1 nums cand in
            inr (k, lt, omega arith, omega arith, half)
      ],
      λ k lt half. b.largest (2 ^ k) (in_use nums k) (
          exponent-Candidate 0 1 k (2 ^ k) (in_use nums k) nums lt (omega arith) (omega arith)
            half),
    )
